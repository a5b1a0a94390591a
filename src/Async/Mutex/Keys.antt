-- ===== src/Async/Mutex/Keys.antt =====
-- lib/async/keyed-mutex.ts: the order in which a call takes its keys.
use pl_backend_sdk_demo.Prelude.{
  Bool, true, false, not, ◌≡◌, ◌≢◌, refl, inl, inr, List, [], ◌∷◌, Text, text_eq, text_eq_iff,
  filter, filter-kept, filter-dropped, Bool-cases, arith,
}
use pl_backend_sdk_demo.Async.Mutex.{text_ltb, distinct, insert, sort, unique_keys}

pub text_ltb_irrefl : (s : Text) → text_ltb s s ≡ false
unfolding text_ltb
text_ltb_irrefl [] = refl
text_ltb_irrefl (c ∷ s) = ground (arith, text_ltb_irrefl s)

pub text_ltb_trans :
    (s t u : Text) → text_ltb s t ≡ true → text_ltb t u ≡ true → text_ltb s u ≡ true
unfolding text_ltb
text_ltb_trans s t [] h k = cc
text_ltb_trans s [] (e ∷ u) h k = cc
text_ltb_trans [] (d ∷ t) (e ∷ u) h k = refl
text_ltb_trans (c ∷ s) (d ∷ t) (e ∷ u) h k = ground (arith, text_ltb_trans s t u)

pub text_ltb_total : (s t : Text) → text_ltb s t ≡ false → s ≢ t → text_ltb t s ≡ true
unfolding text_ltb
text_ltb_total [] [] h n = absurd (n refl)
text_ltb_total (c ∷ s) [] h n = refl
text_ltb_total [] (d ∷ t) h n = cc
text_ltb_total (c ∷ s) (d ∷ t) h n = ground (arith, text_ltb_total s t)

-- Below every key of a list, and in strictly growing order.
abbrev pub Below : Text → List Text → Type 0
Below k [] = Unit {0}
Below k (j ∷ keys) = (text_ltb k j ≡ true) × Below k keys

abbrev pub IsSorted : List Text → Type 0
IsSorted [] = Unit {0}
IsSorted (k ∷ keys) = Below k keys × IsSorted keys

abbrev Differs : Text → List Text → Type 0
Differs k [] = Unit {0}
Differs k (j ∷ keys) = (k ≢ j) × Differs k keys

abbrev AllDiffer : List Text → Type 0
AllDiffer [] = Unit {0}
AllDiffer (k ∷ keys) = Differs k keys × AllDiffer keys

Below-trans : (k j : Text) (keys : List Text) → text_ltb k j ≡ true → Below j keys → Below k keys
Below-trans k j [] h b = tt
Below-trans k j (i ∷ keys) h b = (text_ltb_trans k j i h b.0, Below-trans k j keys h b.1)

insert-Below :
    (j k : Text) (keys : List Text) → text_ltb j k ≡ true → Below j keys → Below j (insert k keys)
unfolding insert
insert-Below j k [] h b = (h, tt)
insert-Below j k (i ∷ keys) h b = elim (Bool-cases (text_ltb k i)) [
  | inl less ↦ rw less (h, b)
  | inr not_less ↦ rw not_less (b.0, insert-Below j k keys h b.1)
]

insert-IsSorted :
    (k : Text) (keys : List Text) → Differs k keys → IsSorted keys → IsSorted (insert k keys)
unfolding insert
insert-IsSorted k [] d s = (tt, tt)
insert-IsSorted k (i ∷ keys) d s = elim (Bool-cases (text_ltb k i)) [
  | inl less ↦ rw less ((less, Below-trans k i keys less s.0), s)
  | inr not_less ↦
      rw not_less (
        insert-Below i k keys (text_ltb_total k i not_less d.0) s.0,
        insert-IsSorted k keys d.1 s.1,
      )
]

insert-Differs :
    (j k : Text) (keys : List Text) → j ≢ k → Differs j keys → Differs j (insert k keys)
unfolding insert
insert-Differs j k [] h d = (h, tt)
insert-Differs j k (i ∷ keys) h d = elim (Bool-cases (text_ltb k i)) [
  | inl less ↦ rw less (h, d)
  | inr not_less ↦ rw not_less (d.0, insert-Differs j k keys h d.1)
]

sort-Differs : (j : Text) (keys : List Text) → Differs j keys → Differs j (sort keys)
unfolding sort
sort-Differs j [] d = tt
sort-Differs j (k ∷ keys) d = insert-Differs j k (sort keys) d.0 (sort-Differs j keys d.1)

sort-IsSorted : (keys : List Text) → AllDiffer keys → IsSorted (sort keys)
unfolding sort
sort-IsSorted [] d = tt
sort-IsSorted (k ∷ keys) d =
    insert-IsSorted k (sort keys) (sort-Differs k keys d.0) (sort-IsSorted keys d.1)

abbrev other_than : Text → Text → Bool
other_than k j = not (text_eq k j)

filter-Differs :
    (k j : Text) (keys : List Text) → Differs k keys → Differs k (filter (other_than j) keys)
filter-Differs k j [] d = tt
filter-Differs k j (i ∷ keys) d = elim (Bool-cases (other_than j i)) [
  | inl kept ↦ rw (filter-kept (other_than j) i keys kept) (d.0, filter-Differs k j keys d.1)
  | inr dropped ↦ rw (filter-dropped (other_than j) i keys dropped) (filter-Differs k j keys d.1)
]

filter-AllDiffer :
    (j : Text) (keys : List Text) → AllDiffer keys → AllDiffer (filter (other_than j) keys)
filter-AllDiffer j [] d = tt
filter-AllDiffer j (i ∷ keys) d = elim (Bool-cases (other_than j i)) [
  | inl kept ↦
      rw (filter-kept (other_than j) i keys kept)
        (filter-Differs i j keys d.0, filter-AllDiffer j keys d.1)
  | inr dropped ↦ rw (filter-dropped (other_than j) i keys dropped) (filter-AllDiffer j keys d.1)
]

filter-other : (k : Text) (keys : List Text) → Differs k (filter (other_than k) keys)
filter-other k [] = tt
filter-other k (i ∷ keys) = elim (Bool-cases (other_than k i)) [
  | inl kept ↦
      rw (filter-kept (other_than k) i keys kept)
        (ground (arith, text_eq_iff k i), filter-other k keys)
  | inr dropped ↦ rw (filter-dropped (other_than k) i keys dropped) (filter-other k keys)
]

distinct-AllDiffer : (keys : List Text) → AllDiffer (distinct keys)
unfolding distinct
distinct-AllDiffer [] = tt
distinct-AllDiffer (k ∷ keys) =
    (filter-other k (distinct keys), filter-AllDiffer k (distinct keys) (distinct-AllDiffer keys))

pub unique_keys-IsSorted : (keys : List Text) → IsSorted (unique_keys keys)
unfolding unique_keys
unique_keys-IsSorted keys = sort-IsSorted (distinct keys) (distinct-AllDiffer keys)
