-- ===== src/Operations/Finalize/Items.antt =====
-- Items of lists that are filtered, mapped by what may throw, or related item by item.
use pl_backend_sdk_demo.Prelude.{
  ◌⊎◌, Bool, true, ◌≡◌, refl, sym, subst, inl, inr, some, List, [], ◌∷◌, filter, filter-kept,
  filter-dropped, Bool-cases, All₂, cons₂, Among, first, later, Thrown, Result, ok, thrown,
  Result-cases, arith,
}
use pl_backend_sdk_demo.Notes.Spendable.{map_results}
use pl_backend_sdk_demo.Notes.Delivery.Groups.{group}

module _ {A : Type 0} where
  pub Among-filter :
      (p : A → Bool) (a : A) (xs : List A) → Among a xs → p a ≡ true → Among a (filter p xs)
  Among-filter p a [] m h = elim m [ ]
  Among-filter p a (x ∷ xs) first h = rw (filter-kept p a xs h) first
  Among-filter p a (x ∷ xs) (later m) h = elim (Bool-cases (p x)) [
    | inl kept ↦ rw (filter-kept p x xs kept) (later (Among-filter p a xs m h))
    | inr dropped ↦ rw (filter-dropped p x xs dropped) (Among-filter p a xs m h)
  ]

  pub group-Among :
      (a : A) (xs : List A) → Among a xs → (rs : List A) × (group xs ≡ some rs) × Among a rs
  group-Among a [] m = elim m [ ]
  group-Among a (x ∷ xs) m = (x ∷ xs, refl, m)

module _ {A B : Type 0} where
  -- An item of the first list has its partner in the second.
  pub All₂-partner :
      (R : A → B → Type 0) (a : A) (xs : List A) (ys : List B)
      → All₂ R xs ys
      → Among a xs
      → (b : B) × Among b ys × R a b
  All₂-partner R a [] ys rs m = elim m [ ]
  All₂-partner R a (x ∷ xs) [] rs m = elim rs [ ]
  All₂-partner R a (x ∷ xs) (y ∷ ys) (cons₂ r rs) first = (y, first, r)
  All₂-partner R a (x ∷ xs) (y ∷ ys) (cons₂ r rs) (later m) =
      let (b, n, s) = All₂-partner R a xs ys rs m in (b, later n, s)

  -- A map that returns has a value for each item.
  map_results-cons :
      (f : A → Result B) (x : A) (xs : List A) (ys : List B)
      → map_results f (x ∷ xs) ≡ ok ys
      → (b : B) × (bs : List B) × (f x ≡ ok b) × (map_results f xs ≡ ok bs) × (ys ≡ b ∷ bs)
  unfolding map_results
  map_results-cons f x xs ys e = elim (Result-cases (f x)) [
    | inl (t, h) ↦ absurd (ground arith)
    | inr (b, h) ↦ elim (Result-cases (map_results f xs)) [
      | inl (t, k) ↦ absurd (ground arith)
      | inr (bs, k) ↦ (b, bs, h, k, ground arith)
    ]
  ]

  pub Among-map_results :
      (f : A → Result B) (a : A) (xs : List A) (ys : List B)
      → map_results f xs ≡ ok ys
      → Among a xs
      → (b : B) × (f a ≡ ok b) × Among b ys
  Among-map_results f a [] ys e m = elim m [ ]
  Among-map_results f a (x ∷ xs) ys e first =
      let (b, bs, h, k, q) = map_results-cons f a xs ys e in (b, h, subst (Among b) (sym q) first)
  Among-map_results f a (x ∷ xs) ys e (later m) =
      let (b, bs, h, k, q) = map_results-cons f x xs ys e in
      let (c, g, n) = Among-map_results f a xs bs k m in (c, g, subst (Among c) (sym q) (later n))

  -- A map that throws has met an item at which it throws.
  pub Among-thrown :
      (f : A → Result B) (xs : List A) (e : Thrown)
      → map_results f xs ≡ thrown e
      → (a : A) × Among a xs × (f a ≡ thrown e)
  unfolding map_results
  Among-thrown f [] e h = absurd (cc)
  Among-thrown f (x ∷ xs) e h = elim (Result-cases (f x)) [
    | inl (t, k) ↦ (x, first, ground (arith, h, k))
    | inr (b, k) ↦ elim (Result-cases (map_results f xs)) [
      | inl (t, l) ↦
          let (a, m, g) = Among-thrown f xs e (ground (arith, h, k, l)) in (a, later m, g)
      | inr (bs, l) ↦ absurd (ground (arith, h, k, l))
    ]
  ]

  -- An item of the second list has its partner in the first.
  pub partner-All₂ :
      (R : A → B → Type 0) (b : B) (xs : List A) (ys : List B)
      → All₂ R xs ys
      → Among b ys
      → (a : A) × Among a xs × R a b
  partner-All₂ R b [] [] rs m = elim m [ ]
  partner-All₂ R b [] (y ∷ ys) rs m = elim rs [ ]
  partner-All₂ R b (x ∷ xs) [] rs m = elim m [ ]
  partner-All₂ R b (x ∷ xs) (y ∷ ys) (cons₂ r rs) first = (x, first, r)
  partner-All₂ R b (x ∷ xs) (y ∷ ys) (cons₂ r rs) (later m) =
      let (a, n, s) = partner-All₂ R b xs ys rs m in (a, later n, s)

head_or_rest : {A : Type 0} (a x : A) (xs : List A) → Among a (x ∷ xs) → (x ≡ a) ⊎ Among a xs
head_or_rest a x xs first = inl refl
head_or_rest a x xs (later m) = inr m

pub Among-of-filter :
    {A : Type 0} (p : A → Bool) (a : A) (xs : List A)
    → Among a (filter p xs)
    → Among a xs × (p a ≡ true)
Among-of-filter p a [] m = elim m [ ]
Among-of-filter {A} p a (x ∷ xs) m = elim (Bool-cases (p x)) [
  | inl kept ↦ elim (head_or_rest a x (filter p xs) (subst (Among a) (filter-kept p x xs kept) m)) [
    | inl e ↦ (subst (λ y. Among y (x ∷ xs)) e first, subst (λ y. p y ≡ true) e kept)
    | inr n ↦ let (o, h) = Among-of-filter p a xs n in (later o, h)
  ]
  | inr dropped ↦
      let (n, h) = Among-of-filter p a xs (subst (Among a) (filter-dropped p x xs dropped) m) in
      (later n, h)
]
