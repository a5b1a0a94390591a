-- ===== src/Simulator/Occupancy/Pairs.antt =====
-- simulator/transfer-occupancy.ts: the pair that `pickDisjointTransferPair` picks.
use pl_backend_sdk_demo.Prelude.{
  ℕ, zero, suc, ◌<◌, ◌≡◌, refl, sym, ap, ◌∙◌, ◌≢◌, inl, inr, Bool, true, false, not, ◌&&◌, none,
  some, List, [], ◌∷◌, Text, text_eq, text_eq_iff, filter, filter-kept, filter-dropped,
  and_then-some, and_then-none, length, get_elem?, Among, first, later, Bool-cases, arith,
}
use pl_backend_sdk_demo.Simulator.Rules.{Draw, IsDraw}
use pl_backend_sdk_demo.Simulator.Occupancy.{has, with_recipient, pick_disjoint_transfer_pair}

get_elem-kept :
    {A : Type 0} (p : A → Bool) (x : A) (xs : List A) (i : ℕ) (a : A)
    → p x ≡ true
    → ((j : ℕ) → get_elem? (filter p xs) j ≡ some a → Among a xs × (p a ≡ true))
    → get_elem? (x ∷ filter p xs) i ≡ some a
    → Among a (x ∷ xs) × (p a ≡ true)
get_elem-kept p x xs zero a kept ih e = let same : x ≡ a = ground arith in rw (← same) (first, kept)
get_elem-kept p x xs (suc i) a kept ih e = let (m, h) = ih i e in (later m, h)

-- What stands in a filtered list.
get_elem-Among :
    {A : Type 0} (p : A → Bool) (xs : List A) (i : ℕ) (a : A)
    → get_elem? (filter p xs) i ≡ some a
    → Among a xs × (p a ≡ true)
get_elem-Among p [] i a e = cc
get_elem-Among p (x ∷ xs) i a e = elim (Bool-cases (p x)) [
  | inl kept ↦
      get_elem-kept p x xs i a kept (λ j. get_elem-Among p xs j a)
        (ap (λ l. get_elem? l i) (sym (filter-kept p x xs kept)) ∙ e)
  | inr dropped ↦
      let (m, h) =
        get_elem-Among p xs i a
          (ap (λ l. get_elem? l i) (sym (filter-dropped p x xs dropped)) ∙ e) in
      (later m, h)
]

get_elem-in_range : {A : Type 0} (xs : List A) (i : ℕ) → i < length xs → get_elem? xs i ≢ none
get_elem-in_range [] i h = absurd (omega arith)
get_elem-in_range (x ∷ xs) zero h = λ e. cc
get_elem-in_range (x ∷ xs) (suc i) h = get_elem-in_range xs i (omega arith)

filter-positive :
    {A : Type 0} (p : A → Bool) (xs : List A) (a : A)
    → Among a xs
    → p a ≡ true
    → 0 < length (filter p xs)
filter-positive p [] a m h = elim m [ ]
filter-positive p (x ∷ xs) a first h = ground arith
filter-positive p (x ∷ xs) a (later m) h = ground (arith, filter-positive p xs a m h)

-- A draw from a filtered list gives an item if any passes.
drawn :
    {A : Type 0} (p : A → Bool) (xs : List A) (draw : Draw) (a : A)
    → IsDraw draw
    → Among a xs
    → p a ≡ true
    → get_elem? (filter p xs) (draw (length (filter p xs))) ≢ none
drawn p xs draw a is_draw m h =
    get_elem-in_range (filter p xs) (draw (length (filter p xs)))
      (is_draw (length (filter p xs)) (filter-positive p xs a m h))

module _ {A : Type 0} (key : A → Text) (funded registered : List A) (busy : List Text) where
  -- Two accounts that no transfer occupies.
  pub record IsFreePair (sender recipient : A) : Type 0 where
    pub is_funded : Among sender funded
    pub is_registered : Among recipient registered
    pub sender_free : has busy (key sender) ≡ false
    pub recipient_free : has busy (key recipient) ≡ false
    pub differ : key sender ≢ key recipient

  recipient-IsFreePair :
      (draw : Draw) (sender s r : A)
      → Among sender funded
      → has busy (key sender) ≡ false
      → with_recipient key draw registered busy sender ≡ some (s, r)
      → IsFreePair s r
  recipient-IsFreePair draw sender s r m free e =
      let q : A → Bool = λ a. not (text_eq (key a) (key sender)) && not (has busy (key a)) in
      let (b, at, same) =
        and_then-some (get_elem? (filter q registered) (draw (length (filter q registered)))) _
          (s, r) e in
      let (there, passes) = get_elem-Among q registered _ b at in
      let is_s : sender ≡ s = ground arith in
      let is_r : b ≡ r = ground arith in
      rw (← is_s) (
        rw (← is_r) (record {
          is_funded = m;
          is_registered = there;
          sender_free = free;
          recipient_free = ground arith;
          differ = λ h. ground (arith, text_eq_iff (key b) (key sender), sym h, passes);
        }))

  -- Without a recipient for `x`, every free registered account is `x`.
  is_sender :
      (draw : Draw) (x a : A)
      → IsDraw draw
      → with_recipient key draw registered busy x ≡ none
      → Among a registered
      → has busy (key a) ≡ false
      → key a ≡ key x
  is_sender draw x a is_draw e m free =
      let q : A → Bool = λ a. not (text_eq (key a) (key x)) && not (has busy (key a)) in
      let o = get_elem? (filter q registered) (draw (length (filter q registered))) in
      elim (Bool-cases (text_eq (key a) (key x))) [
        | inl same ↦ (text_eq_iff (key a) (key x)).0 same
        | inr other ↦ elim (and_then-none o _ e) [
          | inl gone ↦ absurd (drawn q registered draw a is_draw m (rw other (rw free refl)) gone)
          | inr (y, _, h) ↦ absurd (cc)
        ]
      ]

  -- The accounts of a pair that is picked are two, the sender funded and the recipient registered, and
  -- neither is busy.
  pub pick-IsFreePair :
      (draw_sender draw_recipient : Draw) (s r : A)
      → pick_disjoint_transfer_pair key draw_sender draw_recipient funded registered busy
        ≡ some (s, r)
      → IsFreePair s r
  unfolding pick_disjoint_transfer_pair
  pick-IsFreePair draw_sender draw_recipient s r e =
      let q : A → Bool = λ a. not (has busy (key a)) in
      let (a, at, rest) =
        and_then-some (get_elem? (filter q funded) (draw_sender (length (filter q funded)))) _
          (s, r) e in
      let (there, passes) = get_elem-Among q funded _ a at in
      recipient-IsFreePair draw_recipient a s r there (ground arith) rest

  -- When draws are in range and no pair is picked although some funded account is free, all the free
  -- registered accounts are one account.
  pub pick-none :
      (draw_sender draw_recipient : Draw) (s a b : A)
      → IsDraw draw_sender
      → IsDraw draw_recipient
      → pick_disjoint_transfer_pair key draw_sender draw_recipient funded registered busy ≡ none
      → Among s funded
      → has busy (key s) ≡ false
      → Among a registered
      → has busy (key a) ≡ false
      → Among b registered
      → has busy (key b) ≡ false
      → key a ≡ key b
  unfolding pick_disjoint_transfer_pair
  pick-none draw_sender draw_recipient s a b ds dr e ms fs ma fa mb fb =
      let q : A → Bool = λ a. not (has busy (key a)) in
      elim (and_then-none (get_elem? (filter q funded) (draw_sender (length (filter q funded)))) _
        e) [
          | inl gone ↦ absurd (drawn q funded draw_sender s ds ms (rw fs refl) gone)
          | inr (x, _, rest) ↦
              is_sender draw_recipient x a dr rest ma fa
              ∙ sym (is_sender draw_recipient x b dr rest mb fb)
        ]
