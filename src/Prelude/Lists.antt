-- ===== src/Prelude/Lists.antt =====
-- Lists measured by native numbers, and predicates by recursion.
use Prim.Native.Nat.{ℕ, zero, suc, ◌+◌, ◌-◌, ◌≤◌, min}
use mathlib.Core.Path.{◌≡◌, refl, ap}
use mathlib.Core.Logic.{inl, inr}
use mathlib.Core.Bool.{Bool, true, false}
use mathlib.Core.List.{List, [], ◌∷◌, ◌++◌, map}
use mathlib.Core.Option.{Option, none, some}
use native.Mathlib.Omega.{arith}
use pl_backend_sdk_demo.Prelude.Tests.{if◌then◌else◌, Bool-cases}

module _ {ℓ} {A : Type ℓ} where
  abbrev pub length : List A → ℕ
  length [] = 0
  length (x ∷ xs) = suc (length xs)

  abbrev pub get_elem? : List A → ℕ → Option A
  get_elem? [] i = none
  get_elem? (x ∷ xs) zero = some x
  get_elem? (x ∷ xs) (suc i) = get_elem? xs i

  abbrev pub take : ℕ → List A → List A
  take zero xs = []
  take (suc n) [] = []
  take (suc n) (x ∷ xs) = x ∷ take n xs

  abbrev pub drop : ℕ → List A → List A
  drop zero xs = xs
  drop (suc n) [] = []
  drop (suc n) (x ∷ xs) = drop n xs

  -- `array.filter` and `array.find`.
  abbrev pub filter : (A → Bool) → List A → List A
  filter p [] = []
  filter p (x ∷ xs) = if p x then x ∷ filter p xs else filter p xs

  abbrev pub find : (A → Bool) → List A → Option A
  find p [] = none
  find p (x ∷ xs) = if p x then some x else find p xs

  pub filter-kept :
      (p : A → Bool) (x : A) (xs : List A) → p x ≡ true → filter p (x ∷ xs) ≡ x ∷ filter p xs
  filter-kept p x xs h = rw h refl

  pub filter-dropped :
      (p : A → Bool) (x : A) (xs : List A) → p x ≡ false → filter p (x ∷ xs) ≡ filter p xs
  filter-dropped p x xs h = rw h refl

  pub length-append : (xs ys : List A) → length (xs ++ ys) ≡ length xs + length ys
  length-append [] ys = omega arith
  length-append (x ∷ xs) ys = omega (arith, length-append xs ys)

  pub length-filter-le : (p : A → Bool) (xs : List A) → length (filter p xs) ≤ length xs
  length-filter-le p [] = omega arith
  length-filter-le p (x ∷ xs) = ground (arith, length-filter-le p xs)

  pub length-take : (n : ℕ) (xs : List A) → length (take n xs) ≡ min n (length xs)
  length-take zero xs = omega arith
  length-take (suc n) [] = omega arith
  length-take (suc n) (x ∷ xs) = omega (arith, length-take n xs)

  pub length-drop : (n : ℕ) (xs : List A) → length (drop n xs) ≡ length xs - n
  length-drop zero xs = omega arith
  length-drop (suc n) [] = omega arith
  length-drop (suc n) (x ∷ xs) = omega (arith, length-drop n xs)

pub length-map {ℓ κ} :
    {A : Type ℓ} {B : Type κ} (f : A → B) (xs : List A) → length (map f xs) ≡ length xs
length-map f [] = refl
length-map f (x ∷ xs) = ap suc (length-map f xs)

module _ {ℓ κ} {A : Type ℓ} (P : A → Type κ) where
  abbrev pub All : List A → Type κ
  All [] = Unit
  All (x ∷ xs) = P x × All xs

  pub All-append : (xs ys : List A) → All xs → All ys → All (xs ++ ys)
  All-append [] ys _ k = k
  All-append (x ∷ xs) ys (p, h) k = (p, All-append xs ys h k)

-- Two lists of one length, related item by item.
pub data All₂ {A B : Type 0} (R : A → B → Type 0) : List A → List B → Type 0 where
  nil₂ : All₂ R [] []
  cons₂ :
      {x : A} {y : B} {xs : List A} {ys : List B} → R x y → All₂ R xs ys → All₂ R (x ∷ xs) (y ∷ ys)

pub All₂-map :
    {A B : Type 0} (R : A → B → Type 0) (f : A → B) (xs : List A)
    → ((x : A) → R x (f x))
    → All₂ R xs (map f xs)
All₂-map R f [] h = nil₂
All₂-map R f (x ∷ xs) h = cons₂ (h x) (All₂-map R f xs h)

-- An item of a list.
pub data Among {A : Type 0} (a : A) : List A → Type 0 where
  first : {xs : List A} → Among a (a ∷ xs)
  later : {x : A} {xs : List A} → Among a xs → Among a (x ∷ xs)

-- What `find` returns is an item that passes.
pub find-Among :
    {A : Type 0} (p : A → Bool) (xs : List A) (a : A)
    → find p xs ≡ some a
    → Among a xs × (p a ≡ true)
find-Among p [] a e = cc
find-Among p (x ∷ xs) a e = elim (Bool-cases (p x)) [
  | inl hit ↦ let same : x ≡ a = ground arith in rw (← same) (first, hit)
  | inr miss ↦ let (m, h) = find-Among p xs a (ground arith) in (later m, h)
]

-- And it returns one if any item passes.
pub find-none :
    {A : Type 0} (p : A → Bool) (xs : List A) (a : A) → find p xs ≡ none → Among a xs → p a ≡ false
find-none p [] a e m = elim m [ ]
find-none p (x ∷ xs) a e first = ground arith
find-none p (x ∷ xs) a e (later m) = find-none p xs a (ground arith) m

pub All-Among : {A : Type 0} (P : A → Type 0) (xs : List A) (a : A) → All P xs → Among a xs → P a
All-Among P [] a h m = elim m [ ]
All-Among P (x ∷ xs) a h first = h.0
All-Among P (x ∷ xs) a h (later m) = All-Among P xs a h.1 m

pub filter-append :
    {A : Type 0} (p : A → Bool) (xs ys : List A) → filter p (xs ++ ys) ≡ filter p xs ++ filter p ys
filter-append p [] ys = refl
filter-append p (x ∷ xs) ys = ground (arith, filter-append p xs ys)
