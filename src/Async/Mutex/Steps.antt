-- ===== src/Async/Mutex/Steps.antt =====
-- lib/async/keyed-mutex.ts: each step beside the order of the queues.
use pl_backend_sdk_demo.Prelude.{
  ℕ, ◌<◌, ◌≡◌, ◌≢◌, refl, sym, ap, ◌∙◌, subst, inl, inr, Option, none, some, List, [], ◌∷◌, ◌++◌,
  Text, Among, first, later, arith,
}
use pl_backend_sdk_demo.Async.Mutex.{
  Call, waiting, running, leaving, KeyedAsyncMutex, set_queue, set_call,
}
use pl_backend_sdk_demo.Async.Mutex.Keys.{IsSorted}
use pl_backend_sdk_demo.Async.Mutex.Ordered.{
  held_of, wanted, Over, IsFalling, TakesInOrder, NotIn, NoneTwice, Owns, IsOrdered, NotIn-Among,
  NotIn-of, NoneTwice-append, Among-append, Among-before, Among-end, Over-other, set_call-cases,
  set_queue-cases,
}

pub some_inj : {j k : Text} → ◌≡◌ {A = Option Text} (some j) (some k) → j ≡ k
some_inj e = cc

Owns-running :
    (held : List Text) (c : Call) (k : Text) → Owns (running held) k → held_of c ≡ held → Owns c k
Owns-running held c k (inl m) e = inl (subst (Among k) (sym e) m)
Owns-running held c k (inr w) e = cc

-- A running call goes on to wait for a key above those that it holds.
module _ (s : KeyedAsyncMutex) (i : ℕ) (held : List Text) (k : Text) (keys : List Text)
    (o : IsOrdered s) (runs : s.calls i ≡ running held) (over : Over k held)
    (sorted : IsSorted (k ∷ keys)) (used : i < s.next) where
  abbrev queued : KeyedAsyncMutex
  queued = record s {
    queues = set_queue k (s.queues k ++ i ∷ []) s.queues;
    calls = set_call i (waiting held k keys) s.calls;
  }

  queued-Owns : (x : ℕ) (j : Text) → Owns (s.calls x) j → Owns (queued.calls x) j
  queued-Owns x j w = elim (set_call-cases i (waiting held k keys) s.calls x) [
    | inl (e, same) ↦
        subst (λ c. Owns c j) (sym same)
          (Owns-running held (waiting held k keys) j
            (subst (λ c. Owns c j) (ap s.calls (sym e) ∙ runs) w) refl)
    | inr (d, same) ↦ subst (λ c. Owns c j) (sym same) w
  ]

  queued_self : Owns (queued.calls i) k
  queued_self = elim (set_call-cases i (waiting held k keys) s.calls i) [
    | inl (e, same) ↦ subst (λ c. Owns c k) (sym same) (inr refl)
    | inr (d, same) ↦ absurd (d refl)
  ]

  queued-held : (x : ℕ) → held_of (queued.calls x) ≡ held_of (s.calls x)
  queued-held x = elim (set_call-cases i (waiting held k keys) s.calls x) [
    | inl (e, same) ↦ ap held_of same ∙ sym (ap held_of (ap s.calls (sym e) ∙ runs))
    | inr (d, same) ↦ ap held_of same
  ]

  not_there : NotIn i (s.queues k)
  not_there = NotIn-of i (s.queues k) (λ m. absurd_of (subst (λ c. Owns c k) runs (o.member k i m)))
    where
      absurd_of : ¬ (Owns (running held) k)
      absurd_of (inl m) = Over-other k k held over m refl
      absurd_of (inr w) = cc

  queued_member : (j : Text) (x : ℕ) → Among x (queued.queues j) → Owns (queued.calls x) j
  queued_member j x m = elim (set_queue-cases k (s.queues k ++ i ∷ []) s.queues j) [
    | inl (e, same) ↦ elim (Among-append x i (s.queues k) (subst (Among x) same m)) [
      | inl n ↦ subst (Owns (queued.calls x)) e (queued-Owns x k (o.member k x n))
      | inr q ↦
          subst (Owns (queued.calls x)) e (subst (λ y. Owns (queued.calls y) k) (sym q) queued_self)
    ]
    | inr (d, same) ↦ queued-Owns x j (o.member j x (subst (Among x) same m))
  ]

  queued_holder :
      (j : Text) (x : ℕ)
      → Among j (held_of (queued.calls x))
      → (rest : List ℕ) × (queued.queues j ≡ x ∷ rest)
  queued_holder j x m =
      let (queue, h) = o.holder j x (subst (Among j) (queued-held x) m) in
      elim (set_queue-cases k (s.queues k ++ i ∷ []) s.queues j) [
        | inl (e, same) ↦ (queue ++ i ∷ [], same ∙ ap (λ q. q ++ i ∷ []) (ap s.queues e ∙ h))
        | inr (d, same) ↦ (queue, same ∙ h)
      ]

  queued_waiter : (j : Text) (x : ℕ) → wanted (queued.calls x) ≡ some j → Among x (queued.queues j)
  queued_waiter j x w = elim (set_call-cases i (waiting held k keys) s.calls x) [
    | inl (e, c) ↦
        let key : k ≡ j = some_inj (sym (ap wanted c) ∙ w) in
        elim (set_queue-cases k (s.queues k ++ i ∷ []) s.queues j) [
          | inl (q, same) ↦
              subst (Among x) (sym same)
                (subst (λ y. Among y (s.queues k ++ i ∷ [])) e (Among-end i (s.queues k)))
          | inr (d, same) ↦ absurd (d key)
        ]
    | inr (n, c) ↦
        let before = o.waiter j x (ap wanted (sym c) ∙ w) in
        elim (set_queue-cases k (s.queues k ++ i ∷ []) s.queues j) [
          | inl (q, same) ↦
              subst (Among x) (sym same)
                (Among-before x i (s.queues k) (subst (λ y. Among x (s.queues y)) (sym q) before))
          | inr (d, same) ↦ subst (Among x) (sym same) before
        ]
  ]

  pub queued-IsOrdered : IsOrdered queued
  queued-IsOrdered = record {
    member = queued_member;
    holder = queued_holder;
    waiter = queued_waiter;
    once = λ j. elim (set_queue-cases k (s.queues k ++ i ∷ []) s.queues j) [
      | inl (e, same) ↦
          subst NoneTwice (sym same) (NoneTwice-append i (s.queues k) not_there (o.once k))
      | inr (d, same) ↦ subst NoneTwice (sym same) (o.once j)
    ];
    in_order = λ x. elim (set_call-cases i (waiting held k keys) s.calls x) [
      | inl (e, same) ↦
          subst TakesInOrder (sym same) (over, subst TakesInOrder runs (o.in_order i), sorted)
      | inr (d, same) ↦ subst TakesInOrder (sym same) (o.in_order x)
    ];
    fresh = λ x h. elim (set_call-cases i (waiting held k keys) s.calls x) [
      | inl (e, same) ↦ absurd (omega arith)
      | inr (d, same) ↦ same ∙ o.fresh x h
    ];
  }

-- The first call of a queue leaves it.
module _ (s : KeyedAsyncMutex) (i : ℕ) (held : List Text) (k : Text) (queue : List ℕ)
    (o : IsOrdered s) (leaves : s.calls i ≡ leaving (k ∷ held))
    (at_head : s.queues k ≡ i ∷ queue) where
  abbrev gone : KeyedAsyncMutex
  gone = record s { queues = set_queue k queue s.queues; calls = set_call i (leaving held) s.calls }

  falling : IsFalling (k ∷ held)
  falling = subst TakesInOrder leaves (o.in_order i)

  twice : NoneTwice (i ∷ queue)
  twice = subst NoneTwice at_head (o.once k)

  Owns-rest : (j : Text) → k ≢ j → Owns (leaving (k ∷ held)) j → Owns (leaving held) j
  Owns-rest j d (inl first) = absurd (d refl)
  Owns-rest j d (inl (later m)) = inl m
  Owns-rest j d (inr w) = cc

  head_inj : {x y : ℕ} {xs ys : List ℕ} → ◌≡◌ {A = List ℕ} (x ∷ xs) (y ∷ ys) → x ≡ y
  head_inj e = cc

  behind : (x : ℕ) → x ≢ i → Among x (i ∷ queue) → Among x queue
  behind x d first = absurd (d refl)
  behind x d (later m) = m

  gone_member : (j : Text) (x : ℕ) → Among x (gone.queues j) → Owns (gone.calls x) j
  gone_member j x m = elim (set_queue-cases k queue s.queues j) [
    | inl (e, same) ↦
        let there = subst (Among x) same m in
        elim (set_call-cases i (leaving held) s.calls x) [
          | inl (q, c) ↦
              absurd (NotIn-Among i queue twice.0 (subst (λ y. Among y queue) (sym q) there))
          | inr (d, c) ↦
              subst (λ y. Owns y j) (sym c)
                (subst (Owns (s.calls x)) e
                  (o.member k x (subst (Among x) (sym at_head) (later there))))
        ]
    | inr (n, same) ↦
        let before = o.member j x (subst (Among x) same m) in
        elim (set_call-cases i (leaving held) s.calls x) [
          | inl (q, c) ↦
              subst (λ y. Owns y j) (sym c)
                (Owns-rest j n (subst (λ y. Owns y j) (ap s.calls (sym q) ∙ leaves) before))
          | inr (d, c) ↦ subst (λ y. Owns y j) (sym c) before
        ]
  ]

  gone_holder :
      (j : Text) (x : ℕ)
      → Among j (held_of (gone.calls x))
      → (rest : List ℕ) × (gone.queues j ≡ x ∷ rest)
  gone_holder j x m = elim (set_call-cases i (leaving held) s.calls x) [
    | inl (q, c) ↦
        let kept : Among j held = subst (λ y. Among j (held_of y)) c m in
        let (rest, h) = o.holder j i (subst (λ y. Among j (held_of y)) (sym leaves) (later kept)) in
        elim (set_queue-cases k queue s.queues j) [
          | inl (e, same) ↦ absurd (Over-other k j held falling.0 kept (sym e))
          | inr (d, same) ↦ (rest, same ∙ h ∙ ap (λ y. y ∷ rest) q)
        ]
    | inr (d, c) ↦
        let (rest, h) = o.holder j x (subst (λ y. Among j (held_of y)) c m) in
        elim (set_queue-cases k queue s.queues j) [
          | inl (e, same) ↦ absurd (d (head_inj (sym at_head ∙ ap s.queues e ∙ h)))
          | inr (n, same) ↦ (rest, same ∙ h)
        ]
  ]

  gone_waiter : (j : Text) (x : ℕ) → wanted (gone.calls x) ≡ some j → Among x (gone.queues j)
  gone_waiter j x w = elim (set_call-cases i (leaving held) s.calls x) [
    | inl (q, c) ↦
        let never : ◌≡◌ {A = Option Text} none (some j) = sym (ap wanted c) ∙ w in absurd (cc)
    | inr (d, c) ↦
        let before = o.waiter j x (ap wanted (sym c) ∙ w) in
        elim (set_queue-cases k queue s.queues j) [
          | inl (e, same) ↦
              subst (Among x) (sym same)
                (behind x (λ q. d (sym q)) (subst (Among x) (ap s.queues (sym e) ∙ at_head) before))
          | inr (n, same) ↦ subst (Among x) (sym same) before
        ]
  ]

  pub gone-IsOrdered : IsOrdered gone
  gone-IsOrdered = record {
    member = gone_member;
    holder = gone_holder;
    waiter = gone_waiter;
    once = λ j. elim (set_queue-cases k queue s.queues j) [
      | inl (e, same) ↦ subst NoneTwice (sym same) twice.1
      | inr (d, same) ↦ subst NoneTwice (sym same) (o.once j)
    ];
    in_order = λ x. elim (set_call-cases i (leaving held) s.calls x) [
      | inl (e, same) ↦ subst TakesInOrder (sym same) falling.1
      | inr (d, same) ↦ subst TakesInOrder (sym same) (o.in_order x)
    ];
    fresh = λ x h. elim (set_call-cases i (leaving held) s.calls x) [
      | inl (e, same) ↦
          let never : leaving (k ∷ held) ≡ leaving [] = sym leaves ∙ ap s.calls e ∙ o.fresh x h in
          absurd (cc)
      | inr (d, same) ↦ same ∙ o.fresh x h
    ];
  }
