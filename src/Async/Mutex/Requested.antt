-- ===== src/Async/Mutex/Requested.antt =====
-- lib/async/keyed-mutex.ts: the keys that a call was made for, while it runs.
use pl_backend_sdk_demo.Prelude.{
  ℕ, suc, Bool, false, not, ◌≡◌, ◌≢◌, refl, sym, subst, ◌⊎◌, inl, inr, List, [], ◌∷◌, Text, text_eq,
  text_eq_iff, filter, filter-kept, filter-dropped, Bool-cases, ◌==◌, if◌then◌else◌, Among, first,
  later, arith,
}
use pl_backend_sdk_demo.Async.Mutex.{
  Call, waiting, running, leaving, KeyedAsyncMutex, no_calls, set_call, enter, finish, leave,
  text_ltb, distinct, insert, sort, unique_keys, run_exclusive, Move, granted, finished, left,
  Reach, start, called, moved,
}
use pl_backend_sdk_demo.Async.Mutex.Ordered.{held_of, set_call-cases}
use pl_backend_sdk_demo.Async.Mutex.Exclusive.{one_holder}

-- A state with the keys that each call was made for.
pub data Asked : KeyedAsyncMutex → (ℕ → List Text) → Type 0 where
  nobody : Asked no_calls (λ i. [])
  asks :
      {s : KeyedAsyncMutex} {asked : ℕ → List Text}
      → Asked s asked
      → (keys : List Text)
      → Asked (run_exclusive keys s) (λ i. if s.next == i then keys else asked i)
  goes : {s t : KeyedAsyncMutex} {asked : ℕ → List Text} → Asked s asked → Move s t → Asked t asked

Asked-Reach : {s : KeyedAsyncMutex} {asked : ℕ → List Text} → Asked s asked → Reach s
Asked-Reach nobody = start
Asked-Reach (asks a keys) = called (Asked-Reach a) keys
Asked-Reach (goes a m) = moved (Asked-Reach a) m

-- The first or a later one.
Among-cons : (k j : Text) (keys : List Text) → Among k (j ∷ keys) → (k ≡ j) ⊎ Among k keys
Among-cons k j keys first = inl refl
Among-cons k j keys (later m) = inr m

cons-Among : (k j : Text) (keys : List Text) → (k ≡ j) ⊎ Among k keys → Among k (j ∷ keys)
cons-Among k j keys (inl e) = subst (λ x. Among k (x ∷ keys)) e first
cons-Among k j keys (inr m) = later m

-- Sorting and the set lose no key.
insert-Among : (k j : Text) (keys : List Text) → (k ≡ j) ⊎ Among k keys → Among k (insert j keys)
unfolding insert
insert-Among k j [] h = cons-Among k j [] h
insert-Among k j (i ∷ keys) h = elim (Bool-cases (text_ltb j i)) [
  | inl less ↦ rw less (cons-Among k j (i ∷ keys) h)
  | inr not_less ↦ rw not_less (elim h [
    | inl e ↦ later (insert-Among k j keys (inl e))
    | inr m ↦ elim (Among-cons k i keys m) [
      | inl e ↦ cons-Among k i (insert j keys) (inl e)
      | inr n ↦ later (insert-Among k j keys (inr n))
    ]
  ])
]

sort-Among : (k : Text) (keys : List Text) → Among k keys → Among k (sort keys)
unfolding sort
sort-Among k [] m = elim m [ ]
sort-Among k (j ∷ keys) m =
    insert-Among k j (sort keys)
      (elim (Among-cons k j keys m) [ inl e ↦ inl e | inr n ↦ inr (sort-Among k keys n) ])

abbrev other_than : Text → Text → Bool
other_than j i = not (text_eq j i)

filter-Among :
    (k j : Text) (keys : List Text)
    → text_eq j k ≡ false
    → Among k keys
    → Among k (filter (other_than j) keys)
filter-Among k j [] d m = elim m [ ]
filter-Among k j (i ∷ keys) d m = elim (Bool-cases (other_than j i)) [
  | inl kept ↦ rw (filter-kept (other_than j) i keys kept) (elim (Among-cons k i keys m) [
    | inl e ↦ cons-Among k i (filter (other_than j) keys) (inl e)
    | inr n ↦ later (filter-Among k j keys d n)
  ])
  | inr dropped ↦ rw (filter-dropped (other_than j) i keys dropped) (elim (Among-cons k i keys m) [
    | inl e ↦ absurd (ground arith)
    | inr n ↦ filter-Among k j keys d n
  ])
]

distinct-Among : (k : Text) (keys : List Text) → Among k keys → Among k (distinct keys)
unfolding distinct
distinct-Among k [] m = elim m [ ]
distinct-Among k (j ∷ keys) m =
    let rest = filter (other_than j) (distinct keys) in
    elim (Bool-cases (text_eq j k)) [
      | inl same ↦ cons-Among k j rest (inl (sym ((text_eq_iff j k).0 same)))
      | inr differs ↦ elim (Among-cons k j keys m) [
        | inl e ↦ let same = (text_eq_iff j k).1 (sym e) in absurd (ground arith)
        | inr n ↦ later (filter-Among k j (distinct keys) differs (distinct-Among k keys n))
      ]
    ]

unique_keys-Among : (k : Text) (keys : List Text) → Among k keys → Among k (unique_keys keys)
unfolding unique_keys
unique_keys-Among k keys m = sort-Among k (distinct keys) (distinct-Among k keys m)

-- A call that has not run its function yet, or runs it, has a key among those that it holds or takes.
abbrev Covers : Text → Call → Type 0
Covers k (waiting held j keys) = Among k held ⊎ Among k (j ∷ keys)
Covers k (running held) = Among k held
Covers k (leaving held) = Unit {0}

enter-Covers :
    (k : Text) (i : ℕ) (held keys : List Text) (s : KeyedAsyncMutex)
    → Among k held ⊎ Among k keys
    → Covers k ((enter i held keys s).calls i)
unfolding enter
enter-Covers k i held [] s (inl m) = at
  where
    at : Covers k (set_call i (running held) s.calls i)
    at = elim (set_call-cases i (running held) s.calls i) [
      | inl (e, same) ↦ subst (Covers k) (sym same) m
      | inr (d, same) ↦ absurd (d refl)
    ]
enter-Covers k i held [] s (inr m) = elim m [ ]
enter-Covers k i held (j ∷ keys) s h = elim (set_call-cases i (waiting held j keys) s.calls i) [
  | inl (e, same) ↦ subst (Covers k) (sym same) h
  | inr (d, same) ↦ absurd (d refl)
]

enter-other :
    (i j : ℕ) (held keys : List Text) (s : KeyedAsyncMutex)
    → i ≢ j
    → (enter i held keys s).calls j ≡ s.calls j
unfolding enter
enter-other i j held [] s d = elim (set_call-cases i (running held) s.calls j) [
  | inl (e, same) ↦ absurd (d e)
  | inr (n, same) ↦ same
]
enter-other i j held (k ∷ keys) s d = elim (set_call-cases i (waiting held k keys) s.calls j) [
  | inl (e, same) ↦ absurd (d e)
  | inr (n, same) ↦ same
]

left_call :
    (k : Text) (i j : ℕ) (held : List Text) (calls : ℕ → Call)
    → Covers k (calls j)
    → Covers k (set_call i (leaving held) calls j)
left_call k i j held calls h = elim (set_call-cases i (leaving held) calls j) [
  | inl (e, same) ↦ subst (Covers k) (sym same) tt
  | inr (d, same) ↦ subst (Covers k) (sym same) h
]

Move-Covers :
    {s t : KeyedAsyncMutex} (k : Text) (j : ℕ)
    → Move s t
    → Covers k (s.calls j)
    → Covers k (t.calls j)
unfolding finish leave
Move-Covers {s} k j (granted i held l keys queue waits at_head) h = elim (Bool-cases (i == j)) [
  | inl hit ↦
      let e : i ≡ j = ground arith in
      subst (λ x. Covers k ((enter i (l ∷ held) keys s).calls x)) e
        (enter-Covers k i (l ∷ held) keys s
          (took (subst (Covers k) waits (subst (λ x. Covers k (s.calls x)) (sym e) h))))
  | inr miss ↦
      let d : i ≢ j = ground arith in subst (Covers k) (sym (enter-other i j (l ∷ held) keys s d)) h
]
  where
    took : Among k held ⊎ Among k (l ∷ keys) → Among k (l ∷ held) ⊎ Among k keys
    took (inl m) = inl (later m)
    took (inr m) = elim (Among-cons k l keys m) [
      | inl e ↦ inl (cons-Among k l held (inl e))
      | inr n ↦ inr n
    ]
Move-Covers {s} k j (finished i held runs) h = left_call k i j held s.calls h
Move-Covers {s} k j (left i l held queue leaves at_head) h = left_call k i j held s.calls h

Asked-Covers :
    {s : KeyedAsyncMutex} {asked : ℕ → List Text} (k : Text) (j : ℕ)
    → Asked s asked
    → Among k (asked j)
    → Covers k (s.calls j)
unfolding run_exclusive
Asked-Covers k j nobody m = tt
Asked-Covers k j (goes a move) m = Move-Covers k j move (Asked-Covers k j a m)
Asked-Covers k j (asks {s} {asked} a keys) m = elim (Bool-cases (s.next == j)) [
  | inl hit ↦
      let e : s.next ≡ j = ground arith in
      let mine : Among k keys = subst (λ b. Among k (if b then keys else asked j)) hit m in
      subst
        (λ x.
          Covers k ((enter s.next [] (unique_keys keys) (record s { next = suc s.next })).calls x))
        e
        (enter-Covers k s.next [] (unique_keys keys) (record s { next = suc s.next })
          (inr (unique_keys-Among k keys mine)))
  | inr miss ↦
      let d : s.next ≢ j = ground arith in
      let before : Among k (asked j) = subst (λ b. Among k (if b then keys else asked j)) miss m in
      subst (Covers k)
        (sym (enter-other s.next j [] (unique_keys keys) (record s { next = suc s.next }) d))
        (Asked-Covers k j a before)
]

-- Whatever calls are made and however they interleave, two calls that both run their functions and were
-- both made for a key are the same call: calls that share a key never run at once.
pub calls_exclude :
    (s : KeyedAsyncMutex) (asked : ℕ → List Text) (k : Text) (i j : ℕ) (held_i held_j : List Text)
    → Asked s asked
    → s.calls i ≡ running held_i
    → s.calls j ≡ running held_j
    → Among k (asked i)
    → Among k (asked j)
    → i ≡ j
calls_exclude s asked k i j held_i held_j a runs_i runs_j mi mj =
    let hi : Among k held_i = subst (Covers k) runs_i (Asked-Covers k i a mi) in
    let hj : Among k held_j = subst (Covers k) runs_j (Asked-Covers k j a mj) in
    one_holder s k i j (Asked-Reach a) (subst (λ c. Among k (held_of c)) (sym runs_i) hi)
      (subst (λ c. Among k (held_of c)) (sym runs_j) hj)
