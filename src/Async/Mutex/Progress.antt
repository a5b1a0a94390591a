-- ===== src/Async/Mutex/Progress.antt =====
-- lib/async/keyed-mutex.ts: a call that can move.
use pl_backend_sdk_demo.Prelude.{
  ℕ, zero, suc, ◌<◌, false, ◌≡◌, refl, sym, ap, ◌∙◌, subst, ◌⊎◌, inl, inr, Option, none, some, List,
  [], ◌∷◌, Text, Bool-cases, Option-cases, Among, first, arith, ltb,
}
use pl_backend_sdk_demo.Async.Mutex.{
  Call, waiting, running, leaving, KeyedAsyncMutex, text_ltb, Move, granted, finished, left,
}
use pl_backend_sdk_demo.Async.Mutex.Keys.{text_ltb_irrefl, text_ltb_trans}
use pl_backend_sdk_demo.Async.Mutex.Ordered.{
  held_of, wanted, TakesInOrder, Owns, IsOrdered, Over-Among,
}
use pl_backend_sdk_demo.Async.Mutex.Steps.{some_inj}
use pl_backend_sdk_demo.Async.Mutex.Exclusive.{used_of}
use pl_backend_sdk_demo.Async.Mutex.Counted.{AllFinished}

-- Among the first calls none waits, or one waits for a key that no other waits above.
abbrev NoneWaits : ℕ → (ℕ → Call) → Type 0
NoneWaits n calls = (j : ℕ) → j < n → wanted (calls j) ≡ none

abbrev Highest : ℕ → (ℕ → Call) → Type 0
Highest n calls =
    (i : ℕ) × (k : Text) × (wanted (calls i) ≡ some k)
    × ((j : ℕ) (l : Text) → j < n → wanted (calls j) ≡ some l → text_ltb k l ≡ false)

abbrev Scanned : ℕ → (ℕ → Call) → Type 0
Scanned n calls = NoneWaits n calls ⊎ Highest n calls

last_or : (j n : ℕ) → j < suc n → (j < n) ⊎ (j ≡ n)
last_or j n h = elim (Bool-cases (ltb j n)) [
  | inl less ↦ inl (ground arith)
  | inr not_less ↦ inr (ground arith)
]

module _ (n : ℕ) (calls : ℕ → Call) where
  scan-none : wanted (calls n) ≡ none → Scanned n calls → Scanned (suc n) calls
  scan-none w (inl none_before) = inl (λ j h. elim (last_or j n h) [
    | inl less ↦ none_before j less
    | inr e ↦ subst (λ x. wanted (calls x) ≡ none) (sym e) w
  ])
  scan-none w (inr (i, k, waits, top)) = inr (
    i,
    k,
    waits,
    λ j l h v. elim (last_or j n h) [
      | inl less ↦ top j l less v
      | inr e ↦
          let never : ◌≡◌ {A = Option Text} none (some l) =
            sym w ∙ (ap (λ x. wanted (calls x)) (sym e) ∙ v) in
          absurd (cc)
    ],
  )

  new_top :
      (k : Text)
      → wanted (calls n) ≡ some k
      → ((j : ℕ) (l : Text) → j < n → wanted (calls j) ≡ some l → text_ltb k l ≡ false)
      → Scanned (suc n) calls
  new_top k w top = inr (
    n,
    k,
    w,
    λ j l h v. elim (last_or j n h) [
      | inl less ↦ top j l less v
      | inr e ↦
          subst (λ x. text_ltb k x ≡ false)
            (some_inj (sym w ∙ (ap (λ x. wanted (calls x)) (sym e) ∙ v))) (text_ltb_irrefl k)
    ],
  )

  scan-some : (k : Text) → wanted (calls n) ≡ some k → Scanned n calls → Scanned (suc n) calls
  scan-some k w (inl none_before) = new_top k w (λ j l less v.
      let never : ◌≡◌ {A = Option Text} none (some l) = sym (none_before j less) ∙ v in absurd (cc))
  scan-some k w (inr (i, m, waits, top)) = elim (Bool-cases (text_ltb m k)) [
    | inl above ↦ new_top k w (λ j l less v. elim (Bool-cases (text_ltb k l)) [
      | inl higher ↦
          let never = top j l less v in
          let so = text_ltb_trans m k l above higher in absurd (ground arith)
      | inr not_higher ↦ not_higher
    ])
    | inr not_above ↦ inr (
      i,
      m,
      waits,
      λ j l h v. elim (last_or j n h) [
        | inl less ↦ top j l less v
        | inr e ↦
            subst (λ x. text_ltb m x ≡ false)
              (some_inj (sym w ∙ (ap (λ x. wanted (calls x)) (sym e) ∙ v))) not_above
      ],
    )
  ]

scan : (n : ℕ) (calls : ℕ → Call) → Scanned n calls
scan zero calls = inl (λ j h. absurd (omega arith))
scan (suc n) calls = elim (Option-cases (wanted (calls n))) [
  | inl w ↦ scan-none n calls w (scan n calls)
  | inr (k, w) ↦ scan-some n calls k w (scan n calls)
]

module _ (s : KeyedAsyncMutex) (o : IsOrdered s) where
  abbrev pub CanMove : Type 0
  CanMove = (t : KeyedAsyncMutex) × Move s t

  -- A call that waits for nothing has finished, or it can move.
  active : (i : ℕ) (c : Call) → s.calls i ≡ c → wanted c ≡ none → (c ≡ leaving []) ⊎ CanMove
  active i (waiting held k keys) e w = cc
  active i (running held) e w = inr (_, finished i held e)
  active i (leaving []) e w = inl refl
  active i (leaving (k ∷ held)) e w =
      let (queue, at_head) = o.holder k i (subst (λ x. Among k (held_of x)) (sym e) first) in
      inr (_, left i k held queue e at_head)

  none_waits : (n : ℕ) → NoneWaits n s.calls → ((j : ℕ) → j < n → s.calls j ≡ leaving []) ⊎ CanMove
  none_waits zero h = inl (λ j less. absurd (omega arith))
  none_waits (suc n) h = elim (active n (s.calls n) refl (h n (omega arith))) [
    | inr m ↦ inr m
    | inl done ↦ elim (none_waits n (λ j less. h j (omega arith))) [
      | inr m ↦ inr m
      | inl before ↦ inl (λ j less. elim (last_or j n less) [
        | inl lt ↦ before j lt
        | inr e ↦ subst (λ x. s.calls x ≡ leaving []) (sym e) done
      ])
    ]
  ]

  -- The first call in the queue of the highest key that is waited for can move.
  head_moves :
      (k : Text) (h : ℕ) (queue : List ℕ) (c : Call)
      → s.queues k ≡ h ∷ queue
      → s.calls h ≡ c
      → Owns c k
      → ((j : ℕ) (l : Text) → j < s.next → wanted (s.calls j) ≡ some l → text_ltb k l ≡ false)
      → CanMove
  head_moves k h queue (waiting held l keys) at_head e (inr w) top =
      let same : l ≡ k = some_inj w in
      (_, granted h held k keys queue (e ∙ ap (λ x. waiting held x keys) same) at_head)
  head_moves k h queue (waiting held l keys) at_head e (inl m) top =
      let below = Over-Among l k held (subst TakesInOrder e (o.in_order h)).0 m in
      let used =
        used_of s h o (λ q. let never : waiting held l keys ≡ leaving [] = sym e ∙ q in cc) in
      let never = top h l used (ap wanted e) in absurd (ground arith)
  head_moves k h queue (running held) at_head e w top = (_, finished h held e)
  head_moves k h queue (leaving []) at_head e (inl m) top = elim m [ ]
  head_moves k h queue (leaving []) at_head e (inr w) top = cc
  head_moves k h queue (leaving (l ∷ held)) at_head e w top =
      let (rest, front) = o.holder l h (subst (λ x. Among l (held_of x)) (sym e) first) in
      (_, left h l held rest e front)

  queue_moves :
      (k : Text) (queue : List ℕ) (i : ℕ)
      → s.queues k ≡ queue
      → Among i queue
      → ((j : ℕ) (l : Text) → j < s.next → wanted (s.calls j) ≡ some l → text_ltb k l ≡ false)
      → CanMove
  queue_moves k [] i e m top = elim m [ ]
  queue_moves k (h ∷ queue) i e m top =
      head_moves k h queue (s.calls h) e refl (o.member k h (subst (Among h) (sym e) first)) top

  pub progress : AllFinished s ⊎ CanMove
  progress = elim (scan s.next s.calls) [
    | inl nobody ↦ elim (none_waits s.next nobody) [
      | inr m ↦ inr m
      | inl done ↦ inl (λ i. elim (Bool-cases (ltb i s.next)) [
        | inl h ↦ done i (ground arith)
        | inr h ↦ o.fresh i (ground arith)
      ])
    ]
    | inr (i, k, waits, top) ↦ inr (queue_moves k (s.queues k) i refl (o.waiter k i waits) top)
  ]
