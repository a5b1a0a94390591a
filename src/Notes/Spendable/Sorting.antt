-- ===== src/Notes/Spendable/Sorting.antt =====
-- privacy/notes/spendable-notes.ts: the sorted amounts against every choice of as many amounts.
use pl_backend_sdk_demo.Prelude.{
  ℕ, zero, suc, ◌≡◌, refl, sym, ap, ◌∙◌, inl, inr, List, [], ◌∷◌, ℤ, pos, pos_part, neg_part, ◌+ℤ◌,
  ◌≤ℤ◌, ltb_ℤ, take, Bool-cases, arith, +ℤ_parts, eq_of_parts, +ℤ_assoc, zero-+ℤ, +ℤ-zero,
}
use pl_backend_sdk_demo.Notes.Spendable.{insert, sort, sum_from}

-- `t` is the sum of at most `n` of the amounts.
pub data Chosen : ℕ → List ℤ → ℤ → Type 0 where
  done : {n : ℕ} → Chosen n [] (pos 0)
  skip : {n : ℕ} {x : ℤ} {xs : List ℤ} {t : ℤ} → Chosen n xs t → Chosen n (x ∷ xs) t
  pick :
      {n : ℕ} {x : ℤ} {xs : List ℤ} {t u : ℤ}
      → Chosen n xs t
      → u ≡ x +ℤ t
      → Chosen (suc n) (x ∷ xs) u

sum : List ℤ → ℤ
sum [] = pos 0
sum (x ∷ xs) = x +ℤ sum xs

sum_from-eq : (t : ℤ) (xs : List ℤ) → sum_from t xs ≡ t +ℤ sum xs
unfolding sum_from sum
sum_from-eq t [] = sym (+ℤ-zero t)
sum_from-eq t (x ∷ xs) = sum_from-eq (t +ℤ x) xs ∙ +ℤ_assoc t x (sum xs)

Chosen-swap :
    {n : ℕ} {x y : ℤ} {xs : List ℤ} {t : ℤ} → Chosen n (x ∷ y ∷ xs) t → Chosen n (y ∷ x ∷ xs) t
Chosen-swap (skip (skip c)) = skip (skip c)
Chosen-swap (skip (pick c e)) = pick (skip c) e
Chosen-swap (pick (skip c) e) = skip (pick c e)
Chosen-swap {x} {y} (pick (pick {t = t} c e) d) =
    pick (pick c refl) (d ∙ ap (◌+ℤ◌ x) e ∙ omega (arith, +ℤ_parts, eq_of_parts))

-- A change of the tail that keeps what can be chosen from it.
Chosen-under :
    {n : ℕ} {t : ℤ} (x : ℤ) (xs ys : List ℤ)
    → ((m : ℕ) (s : ℤ) → Chosen m xs s → Chosen m ys s)
    → Chosen n (x ∷ xs) t
    → Chosen n (x ∷ ys) t
Chosen-under x xs ys f (skip c) = skip (f _ _ c)
Chosen-under x xs ys f (pick c e) = pick (f _ _ c) e

Chosen-insert :
    (x : ℤ) (ys : List ℤ) (n : ℕ) (t : ℤ) → Chosen n (x ∷ ys) t → Chosen n (insert x ys) t
unfolding insert
Chosen-insert x [] n t c = c
Chosen-insert x (y ∷ ys) n t c = elim (Bool-cases (ltb_ℤ x y)) [
  | inl later ↦ rw later (Chosen-under y _ _ (Chosen-insert x ys) (Chosen-swap c))
  | inr here ↦ rw here c
]

Chosen-uninsert :
    (x : ℤ) (ys : List ℤ) (n : ℕ) (t : ℤ) → Chosen n (insert x ys) t → Chosen n (x ∷ ys) t
unfolding insert
Chosen-uninsert x [] n t c = c
Chosen-uninsert x (y ∷ ys) n t c = elim (Bool-cases (ltb_ℤ x y)) [
  | inl later ↦ Chosen-swap (Chosen-under y _ _ (Chosen-uninsert x ys) (rw later at c))
  | inr here ↦ rw here at c
]

-- Sorting changes nothing about what can be chosen.
Chosen-sort : (xs : List ℤ) (n : ℕ) (t : ℤ) → Chosen n xs t → Chosen n (sort xs) t
unfolding sort
Chosen-sort [] n t c = c
Chosen-sort (x ∷ xs) n t c = Chosen-insert x (sort xs) n t (Chosen-under x _ _ (Chosen-sort xs) c)

Chosen-unsort : (xs : List ℤ) (n : ℕ) (t : ℤ) → Chosen n (sort xs) t → Chosen n xs t
unfolding sort
Chosen-unsort [] n t c = c
Chosen-unsort (x ∷ xs) n t c =
    Chosen-under x _ _ (Chosen-unsort xs) (Chosen-uninsert x (sort xs) n t c)

-- Every amount is at most `x`.
abbrev Bounded : ℤ → List ℤ → Type 0
Bounded x [] = Unit {0}
Bounded x (y ∷ ys) = (y ≤ℤ x) × Bounded x ys

abbrev IsSorted : List ℤ → Type 0
IsSorted [] = Unit {0}
IsSorted (x ∷ xs) = Bounded x xs × IsSorted xs

Bounded-insert : (b x : ℤ) (ys : List ℤ) → x ≤ℤ b → Bounded b ys → Bounded b (insert x ys)
unfolding insert
Bounded-insert b x [] h k = (h, tt)
Bounded-insert b x (y ∷ ys) h k = elim (Bool-cases (ltb_ℤ x y)) [
  | inl later ↦ rw later (k.0, Bounded-insert b x ys h k.1)
  | inr here ↦ rw here (h, k)
]

Bounded-mono : (b c : ℤ) (ys : List ℤ) → b ≤ℤ c → Bounded b ys → Bounded c ys
Bounded-mono b c [] h k = tt
Bounded-mono b c (y ∷ ys) h k = (omega arith, Bounded-mono b c ys h k.1)

insert-IsSorted : (x : ℤ) (ys : List ℤ) → IsSorted ys → IsSorted (insert x ys)
unfolding insert
insert-IsSorted x [] h = (tt, tt)
insert-IsSorted x (y ∷ ys) h = elim (Bool-cases (ltb_ℤ x y)) [
  | inl later ↦ rw later (Bounded-insert y x ys (ground arith) h.0, insert-IsSorted x ys h.1)
  | inr here ↦
      let first : y ≤ℤ x = ground arith in rw here ((first, Bounded-mono y x ys first h.0), h)
]

sort-IsSorted : (xs : List ℤ) → IsSorted (sort xs)
unfolding sort
sort-IsSorted [] = tt
sort-IsSorted (x ∷ xs) = insert-IsSorted x (sort xs) (sort-IsSorted xs)

abbrev pub IsNonneg : List ℤ → Type 0
IsNonneg [] = Unit {0}
IsNonneg (x ∷ xs) = (pos 0 ≤ℤ x) × IsNonneg xs

insert-IsNonneg : (x : ℤ) (ys : List ℤ) → pos 0 ≤ℤ x → IsNonneg ys → IsNonneg (insert x ys)
unfolding insert
insert-IsNonneg x [] h k = (h, tt)
insert-IsNonneg x (y ∷ ys) h k = elim (Bool-cases (ltb_ℤ x y)) [
  | inl later ↦ rw later (k.0, insert-IsNonneg x ys h k.1)
  | inr here ↦ rw here (h, k)
]

sort-IsNonneg : (xs : List ℤ) → IsNonneg xs → IsNonneg (sort xs)
unfolding sort
sort-IsNonneg [] h = tt
sort-IsNonneg (x ∷ xs) h = insert-IsNonneg x (sort xs) h.0 (sort-IsNonneg xs h.1)

-- The first amounts of a list are one choice.
take-Chosen : (n : ℕ) (xs : List ℤ) → Chosen n xs (sum (take n xs))
unfolding sum
take-Chosen zero [] = done
take-Chosen zero (x ∷ xs) = skip (take-Chosen zero xs)
take-Chosen (suc n) [] = done
take-Chosen (suc n) (x ∷ xs) = pick (take-Chosen n xs) refl

-- One more amount in front makes the first `n` worth no less.
take-cons-le :
    (n : ℕ) (x : ℤ) (xs : List ℤ)
    → IsSorted (x ∷ xs)
    → IsNonneg (x ∷ xs)
    → sum (take n xs) ≤ℤ sum (take n (x ∷ xs))
unfolding sum
take-cons-le zero x xs h k = omega arith
take-cons-le (suc zero) x [] h k = omega (arith, +ℤ_parts x (pos 0))
take-cons-le (suc (suc n)) x [] h k = omega (arith, +ℤ_parts x (pos 0))
take-cons-le (suc n) x (y ∷ ys) h k = omega (
  arith,
  take-cons-le n y ys h.1 k.1,
  +ℤ_parts x (sum (take n (y ∷ ys))),
  +ℤ_parts y (sum (take n ys)),
  h.0.0,
)

-- And no choice is worth more than the first of a sorted list.
Chosen-le-take :
    {n : ℕ} {xs : List ℤ} {t : ℤ} → Chosen n xs t → IsSorted xs → IsNonneg xs → t ≤ℤ sum (take n xs)
unfolding sum
Chosen-le-take {n = zero} done h k = omega arith
Chosen-le-take {n = suc n} done h k = omega arith
Chosen-le-take {n} (skip {x} {xs} c) h k =
    omega (arith, Chosen-le-take c h.1 k.1, take-cons-le n x xs h k)
Chosen-le-take (pick {n} {x} {xs} {t = t} c e) h k = omega (
  arith,
  Chosen-le-take c h.1 k.1,
  +ℤ_parts x (sum (take n xs)),
  +ℤ_parts x t,
  ap pos_part e,
  ap neg_part e,
)

-- The greatest `n` amounts are a choice of at most `n`, and worth no less than any other, if no
-- amount is negative.
pub take-sort_greatest :
    (n : ℕ) (xs : List ℤ)
    → Chosen n xs (sum_from (pos 0) (take n (sort xs)))
      × (IsNonneg xs → (t : ℤ) → Chosen n xs t → t ≤ℤ sum_from (pos 0) (take n (sort xs)))
take-sort_greatest n xs =
    let total = sum_from-eq (pos 0) (take n (sort xs)) ∙ zero-+ℤ (sum (take n (sort xs))) in
    (
      rw total (Chosen-unsort xs n _ (take-Chosen n (sort xs))),
      λ h t c.
          rw total (Chosen-le-take (Chosen-sort xs n t c) (sort-IsSorted xs) (sort-IsNonneg xs h)),
    )
