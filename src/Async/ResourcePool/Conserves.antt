-- ===== src/Async/ResourcePool/Conserves.antt =====
-- lib/async/resource-pool.ts: the jobs that run against a pool, and the resources counted.
use pl_backend_sdk_demo.Prelude.{
  ℕ, ◌+◌, ◌≡◌, refl, sym, ap, ◌∙◌, subst, ◌⊎◌, inl, inr, Bool, true, false, List, [], ◌∷◌, ◌==◌,
  All, if◌then◌else◌, arith,
}
use pl_backend_sdk_demo.Async.ResourcePool.{
  Use, new_pool, reverse_onto, with_idle, acquire, acquire_from, release, release_to, drop_job,
}

module _ {R : Type 0} where
  -- How many resources pass a test.
  abbrev pub count : (R → Bool) → List R → ℕ
  count p [] = 0
  count p (r ∷ rs) = (if p r then 1 else 0) + count p rs

  abbrev pub resources_of : List (ℕ × R) → List R
  resources_of [] = []
  resources_of ((job, r) ∷ held) = r ∷ resources_of held

  -- The first resource that a job holds.
  pub data Holds (job : ℕ) (r : R) : List (ℕ × R) → Type 0 where
    top : {held : List (ℕ × R)} → Holds job r ((job, r) ∷ held)
    under :
        {j : ℕ} {x : R} {held : List (ℕ × R)}
        → (j == job) ≡ false
        → Holds job r held
        → Holds job r ((j, x) ∷ held)

  -- Jobs that run against a pool.
  pub data Reached (truthy : R → Bool) (resources : List R) : Use R → Type 0 where
    created : Reached truthy resources (record { pool = new_pool resources; held = [] })
    acquired :
        {u : Use R} (job : ℕ)
        → Reached truthy resources u
        → Reached truthy resources (acquire truthy job u)
    released :
        {u : Use R} (job : ℕ) (r : R)
        → Holds job r u.held
        → Reached truthy resources u
        → Reached truthy resources (release job r u)

  abbrev total : (R → Bool) → Use R → ℕ
  total p u = count p u.pool.idle + count p (resources_of u.held)

  count-reverse_onto :
      (p : R → Bool) (acc rs : List R) → count p (reverse_onto acc rs) ≡ count p acc + count p rs
  count-reverse_onto p acc [] = omega arith
  count-reverse_onto p acc (r ∷ rs) = ground (arith, count-reverse_onto p (r ∷ acc) rs)

  drop_top : (job : ℕ) (r : R) (held : List (ℕ × R)) → drop_job job ((job, r) ∷ held) ≡ held
  drop_top job r held = ground arith

  drop_under :
      (job j : ℕ) (x : R) (held : List (ℕ × R))
      → (j == job) ≡ false
      → drop_job job ((j, x) ∷ held) ≡ (j, x) ∷ drop_job job held
  drop_under job j x held h = rw h refl

  count-drop_job :
      (p : R → Bool) {job : ℕ} {r : R} {held : List (ℕ × R)}
      → Holds job r held
      → (if p r then 1 else 0) + count p (resources_of (drop_job job held))
        ≡ count p (resources_of held)
  count-drop_job p {job} {r} (top {held}) =
      ap (λ l. (if p r then 1 else 0) + count p (resources_of l)) (drop_top job r held)
  count-drop_job p {job} {r} (under {j} {x} {held} other h) =
      ap (λ l. (if p r then 1 else 0) + count p (resources_of l)) (drop_under job j x held other)
      ∙ omega (arith, count-drop_job p h)

  module _ (truthy : R → Bool) where
    abbrev AllTruthy : List R → Type 0
    AllTruthy = All (λ r. truthy r ≡ true)

    -- Nothing is falsy, and nobody waits beside an idle resource.
    record IsSteady (u : Use R) : Type 0 where
      idle_truthy : AllTruthy u.pool.idle
      held_truthy : AllTruthy (resources_of u.held)
      no_wait : (u.pool.waiters ≡ []) ⊎ (u.pool.idle ≡ [])

    reverse_onto-AllTruthy :
        (acc rs : List R) → AllTruthy acc → AllTruthy rs → AllTruthy (reverse_onto acc rs)
    reverse_onto-AllTruthy acc [] a h = a
    reverse_onto-AllTruthy acc (r ∷ rs) a (t, h) = reverse_onto-AllTruthy (r ∷ acc) rs (t, a) h

    drop_job-AllTruthy :
        {job : ℕ} {r : R} {held : List (ℕ × R)}
        → Holds job r held
        → AllTruthy (resources_of held)
        → AllTruthy (resources_of (drop_job job held)) × (truthy r ≡ true)
    drop_job-AllTruthy {job} {r} (top {held}) (t, h) =
        (subst (λ l. AllTruthy (resources_of l)) (sym (drop_top job r held)) h, t)
    drop_job-AllTruthy {job} {r} (under {j} {x} {held} other m) (t, h) =
        let (rest, tr) = drop_job-AllTruthy m h in
        (
          subst (λ l. AllTruthy (resources_of l)) (sym (drop_under job j x held other)) (t, rest),
          tr,
        )

    -- What an operation does to a steady pool.
    record Kept (u v : Use R) : Type 0 where
      steady : IsSteady v
      same : (p : R → Bool) → total p v ≡ total p u

    acquired-Kept :
        (job : ℕ) (idle : List R) (u : Use R)
        → IsSteady (with_idle idle u)
        → Kept (with_idle idle u) (acquire_from truthy job idle (with_idle idle u))
    acquired-Kept job [] u h = record {
      steady = record { idle_truthy = tt; held_truthy = h.held_truthy; no_wait = inr refl };
      same = λ p. refl;
    }
    acquired-Kept job (r ∷ idle) u h = rw (h.idle_truthy.0) (record {
      steady = record {
        idle_truthy = h.idle_truthy.1;
        held_truthy = (h.idle_truthy.0, h.held_truthy);
        no_wait = inl (elim h.no_wait [ inl e ↦ e | inr e ↦ absurd (cc) ]);
      };
      same = λ p. omega arith;
    })

    released-Kept :
        (job : ℕ) (r : R) (waiters : List ℕ) (idle : List R) (size : ℕ) (held : List (ℕ × R))
        → Holds job r held
        → IsSteady
            (record { pool = record { idle = idle; waiters = waiters; size = size }; held = held })
        → Kept
            (record { pool = record { idle = idle; waiters = waiters; size = size }; held = held })
            (release_to r waiters (record {
              pool = record { idle = idle; waiters = waiters; size = size };
              held = drop_job job held;
            }))
    released-Kept job r [] idle size held m h =
        let (rest, t) = drop_job-AllTruthy m h.held_truthy in
        record {
          steady = record {
            idle_truthy = (t, h.idle_truthy);
            held_truthy = rest;
            no_wait = inl refl;
          };
          same = λ p. omega (arith, count-drop_job p m);
        }
    released-Kept job r (j ∷ waiters) idle size held m h =
        let (rest, t) = drop_job-AllTruthy m h.held_truthy in
        record {
          steady = record {
            idle_truthy = h.idle_truthy;
            held_truthy = (t, rest);
            no_wait = inr (elim h.no_wait [ inl e ↦ absurd (cc) | inr e ↦ e ]);
          };
          same = λ p. omega (arith, count-drop_job p m);
        }

    module _ (resources : List R) (h : AllTruthy resources) where
      reached-Kept :
          {u : Use R}
          → Reached truthy resources u
          → Kept (record { pool = new_pool resources; held = [] }) u
      unfolding new_pool acquire release
      reached-Kept created = record {
        steady = record {
          idle_truthy = reverse_onto-AllTruthy [] resources tt h;
          held_truthy = tt;
          no_wait = inl refl;
        };
        same = λ p. refl;
      }
      reached-Kept (acquired {u} job r) =
          let before = reached-Kept r in
          let after = acquired-Kept job u.pool.idle u before.steady in
          record { steady = after.steady; same = λ p. after.same p ∙ before.same p }
      reached-Kept (released {u} job x m r) =
          let before = reached-Kept r in
          let after =
            released-Kept job x u.pool.waiters u.pool.idle u.pool.size u.held m before.steady in
          record { steady = after.steady; same = λ p. after.same p ∙ before.same p }

  -- In every state of a pool of truthy resources, as many resources that pass a test are idle or held
  -- as the pool was given, whatever the test; and while a job waits none is idle.
  pub pool_conserves :
      (truthy : R → Bool) (resources : List R)
      → All (λ r. truthy r ≡ true) resources
      → {u : Use R} → Reached truthy resources u
      → ((p : R → Bool) → count p u.pool.idle + count p (resources_of u.held) ≡ count p resources)
        × ((u.pool.waiters ≡ []) ⊎ (u.pool.idle ≡ []))
  unfolding new_pool
  pool_conserves truthy resources h r =
      let kept = reached-Kept truthy resources h r in
      (λ p. omega (arith, kept.same p, count-reverse_onto p [] resources), kept.steady.no_wait)
