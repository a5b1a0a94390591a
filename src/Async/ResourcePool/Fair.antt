-- ===== src/Async/ResourcePool/Fair.antt =====
-- lib/async/resource-pool.ts: the order in which waiting jobs are given resources.
use pl_backend_sdk_demo.Prelude.{
  ℕ, suc, ◌+◌, ◌≤◌, ◌<◌, ◌≡◌, refl, sym, ap, ◌∙◌, subst, ◌⊎◌, inl, inr, Bool, true, List, [], ◌∷◌,
  ◌++◌, length, All, arith,
}
use pl_backend_sdk_demo.Async.ResourcePool.{Use, acquire, release, drop_job}
use pl_backend_sdk_demo.Async.ResourcePool.Conserves.{
  count, resources_of, Holds, top, Reached, acquired, released, pool_conserves,
}

module _ {R : Type 0} (truthy : R → Bool) where
  -- Calls and ends of jobs, in any order, with the number of the ends.
  pub data Run (u : Use R) : ℕ → Use R → Type 0 where
    unmoved : Run u 0 u
    asks : {n : ℕ} {v : Use R} → Run u n v → (job : ℕ) → Run u n (acquire truthy job v)
    ends :
        {n : ℕ} {v : Use R}
        → Run u n v
        → (job : ℕ) (r : R) → Holds job r v.held
        → Run u (suc n) (release job r v)

  -- Some job holds a resource.
  abbrev pub Busy : Use R → Type 0
  Busy v = (job : ℕ) × (r : R) × Holds job r v.held

  -- A job waits behind as many others as `n` ends have left of `behind`.
  pub record Waits (job behind n : ℕ) (v : Use R) : Type 0 where
    pub ahead : List ℕ
    pub rest : List ℕ
    pub queue : v.pool.waiters ≡ ahead ++ job ∷ rest
    pub left_of : length ahead + n ≡ behind
    pub busy : Busy v

  -- A run in which the end of a job, after `n` others, gives its resource to `job`.
  pub record Given (u : Use R) (job n : ℕ) (v : Use R) : Type 0 where
    pub before : Use R
    pub until : Run u n before
    pub ender : ℕ
    pub resource : R
    pub ends_it : Holds ender resource before.held
    pub holds : (release ender resource before).held ≡ (job, resource) ∷ drop_job ender before.held
    pub after : ℕ
    pub onwards : Run (release ender resource before) after v

  run-Reached :
      {resources : List R} {u v : Use R} {n : ℕ}
      → Reached truthy resources u
      → Run u n v
      → Reached truthy resources v
  run-Reached h unmoved = h
  run-Reached h (asks run job) = acquired job (run-Reached h run)
  run-Reached h (ends run job r m) = released job r m (run-Reached h run)

  some_held :
      (held : List (ℕ × R))
      → 1 ≤ count (λ r. true) (resources_of held)
      → (job : ℕ) × (r : R) × Holds job r held
  some_held [] h = absurd (omega arith)
  some_held ((job, r) ∷ held) h = (job, r, top)

  -- Where a job waits no resource is idle, so a call waits at the end of the queue.
  acquire_waits :
      (job : ℕ) (v : Use R)
      → v.pool.idle ≡ []
      → ((acquire truthy job v).pool.waiters ≡ v.pool.waiters ++ job ∷ [])
        × ((acquire truthy job v).held ≡ v.held)
  unfolding acquire
  acquire_waits job v e = rw e (refl, refl)

  release_gives :
      (job : ℕ) (r : R) (v : Use R) (next : ℕ) (waiters : List ℕ)
      → v.pool.waiters ≡ next ∷ waiters
      → ((release job r v).pool.waiters ≡ waiters)
        × ((release job r v).held ≡ (next, r) ∷ drop_job job v.held)
  unfolding release
  release_gives job r v next waiters e = rw e (refl, refl)

  not_empty : {A : Type 0} (job : ℕ) (ahead rest : List ℕ) → ahead ++ job ∷ rest ≡ [] → A
  not_empty job [] rest e = absurd (cc)
  not_empty job (a ∷ ahead) rest e = absurd (cc)

  append_after :
      (ahead rest : List ℕ) (job j : ℕ)
      → (ahead ++ job ∷ rest) ++ j ∷ [] ≡ ahead ++ job ∷ (rest ++ j ∷ [])
  append_after [] rest job j = refl
  append_after (a ∷ ahead) rest job j = ap (λ l. a ∷ l) (append_after ahead rest job j)

  module _ (first_of : R) (others : List R)
      (all_truthy : All (λ r. truthy r ≡ true) (first_of ∷ others)) where
    waiting-idle :
        {v : Use R} (job : ℕ) (ahead rest : List ℕ)
        → Reached truthy (first_of ∷ others) v
        → v.pool.waiters ≡ ahead ++ job ∷ rest
        → v.pool.idle ≡ []
    waiting-idle job ahead rest h e =
        elim (pool_conserves truthy (first_of ∷ others) all_truthy h).1 [
          | inl none ↦ not_empty job ahead rest (sym e ∙ none)
          | inr none ↦ none
        ]

    waiting-Busy :
        {v : Use R} (job : ℕ) (ahead rest : List ℕ)
        → Reached truthy (first_of ∷ others) v
        → v.pool.waiters ≡ ahead ++ job ∷ rest
        → Busy v
    waiting-Busy {v} job ahead rest h e =
        let same = (pool_conserves truthy (first_of ∷ others) all_truthy h).0 (λ r. true) in
        let none = ap (count (λ r. true)) (waiting-idle job ahead rest h e) in
        some_held v.held (omega (arith, same, none))

    asked-Waits :
        {v : Use R} {job behind n : ℕ} (j : ℕ)
        → Reached truthy (first_of ∷ others) v
        → Waits job behind n v
        → Waits job behind n (acquire truthy j v)
    asked-Waits {v} {job} j h w =
        let (queue, held) = acquire_waits j v (waiting-idle job w.ahead w.rest h w.queue) in
        let (k, r, m) = w.busy in
        record {
          ahead = w.ahead;
          rest = w.rest ++ j ∷ [];
          queue = queue ∙ ap (λ l. l ++ j ∷ []) w.queue ∙ append_after w.ahead w.rest job j;
          left_of = w.left_of;
          busy = (k, r, subst (Holds k r) (sym held) m);
        }

    abbrev pub Turn : Use R → ℕ → ℕ → ℕ → Use R → Type 0
    Turn u job behind n v = Waits job behind n v ⊎ ((behind < n) × Given u job behind v)

    ended-Turn :
        {u v : Use R} (job : ℕ) {behind n : ℕ} (j : ℕ) (r : R)
        → Run u n v
        → Holds j r v.held
        → (ahead rest : List ℕ) → v.pool.waiters ≡ ahead ++ job ∷ rest
        → length ahead + n ≡ behind
        → Turn u job behind (suc n) (release j r v)
    ended-Turn {u} {v} job {behind} {n} j r run m [] rest e left =
        let at : n ≡ behind = omega arith in
        inr (
          omega arith,
          record {
            before = v;
            until = subst (λ k. Run u k v) at run;
            ender = j;
            resource = r;
            ends_it = m;
            holds = (release_gives j r v job rest e).1;
            after = 0;
            onwards = unmoved;
          },
        )
    ended-Turn {u} {v} job j r run m (a ∷ ahead) rest e left =
        let (queue, held) = release_gives j r v a (ahead ++ job ∷ rest) e in
        inl (record {
          ahead = ahead;
          rest = rest;
          queue = queue;
          left_of = omega arith;
          busy = (a, r, subst (Holds a r) (sym held) top);
        })

    -- With at least one resource and none of them falsy: whatever calls and ends come, a job that
    -- waits behind `length ahead` others moves up at each end of a job, while some job holds a
    -- resource; and the end after those gives it the resource that is released.
    pub served_in_turn :
        (u v : Use R) (job n : ℕ) (ahead rest : List ℕ)
        → Reached truthy (first_of ∷ others) u
        → u.pool.waiters ≡ ahead ++ job ∷ rest
        → Run u n v
        → Waits job (length ahead) n v ⊎ ((length ahead < n) × Given u job (length ahead) v)
    served_in_turn u v job n ahead rest h e unmoved = inl (record {
      ahead = ahead;
      rest = rest;
      queue = e;
      left_of = omega arith;
      busy = waiting-Busy job ahead rest h e;
    })
    served_in_turn u v job n ahead rest h e (asks {n = k} {v = x} run j) =
        elim (served_in_turn u x job k ahead rest h e run) [
          | inl w ↦ inl (asked-Waits j (run-Reached h run) w)
          | inr (later_than, g) ↦ inr (
            later_than,
            record {
              before = g.before;
              until = g.until;
              ender = g.ender;
              resource = g.resource;
              ends_it = g.ends_it;
              holds = g.holds;
              after = g.after;
              onwards = asks g.onwards j;
            },
          )
        ]
    served_in_turn u v job n ahead rest h e (ends {n = k} {v = x} run j r m) =
        elim (served_in_turn u x job k ahead rest h e run) [
          | inl w ↦ ended-Turn job j r run m w.ahead w.rest w.queue w.left_of
          | inr (later_than, g) ↦ inr (
            omega arith,
            record {
              before = g.before;
              until = g.until;
              ender = g.ender;
              resource = g.resource;
              ends_it = g.ends_it;
              holds = g.holds;
              after = suc g.after;
              onwards = ends g.onwards j r m;
            },
          )
        ]
