-- ===== src/Notes/Spendable/Greatest.antt =====
-- privacy/notes/spendable-notes.ts: `spendableTransferStroops`, said of the notes themselves.
use pl_backend_sdk_demo.Prelude.{
  ℕ, suc, ◌≡◌, refl, sym, ap, ◌∙◌, ◌≢◌, ◌↔◌, Bool, true, false, ◌&&◌, Option, none, some, List, [],
  ◌∷◌, ℤ, pos, ◌+ℤ◌, ◌≤ℤ◌, Text, codes, text_eq_iff, Result, ok, thrown, take, inl, inr, Bool-cases,
  Result-cases, if◌then◌else◌, arith,
}
use pl_backend_sdk_demo.Notes.Spendable.{
  SpendableNote, read_note_spend_amount, map_results, sort, sum_from, candidates, is_text, is_some,
  is_unspent, spendable_transfer_stroops,
}
use pl_backend_sdk_demo.Notes.Spendable.Sorting.{
  Chosen, done, skip, pick, IsNonneg, take-sort_greatest,
}

-- A note that the address can still spend.
pub record IsUnspentAt (address : Text) (note : SpendableNote) : Type 0 where
  pub not_consumed : note.consumed ≢ some true
  pub not_spent : note.status ≢ some (codes "spent")
  pub at_address : note.private_address ≡ some address
  pub has_coin : note.coin_note ≢ none

-- `total` can be paid with at most `n` notes of the address.
pub data Pays (address : Text) : ℕ → List SpendableNote → ℤ → Type 0 where
  nothing : {n : ℕ} → Pays address n [] (pos 0)
  keep :
      {n : ℕ} (note : SpendableNote) {notes : List SpendableNote} {t : ℤ}
      → Pays address n notes t
      → Pays address n (note ∷ notes) t
  spend :
      {n : ℕ} (note : SpendableNote) {notes : List SpendableNote} {t u : ℤ} (v : ℤ)
      → IsUnspentAt address note
      → read_note_spend_amount note ≡ ok v
      → Pays address n notes t
      → u ≡ v +ℤ t
      → Pays address (suc n) (note ∷ notes) u

abbrev is_candidate : Text → SpendableNote → Bool
is_candidate address note =
    is_unspent note && is_text note.private_address address && is_some note.coin_note

is_text_iff : (o : Option Text) (t : Text) → (is_text o t ≡ true) ↔ (o ≡ some t)
is_text_iff none t = ground arith
is_text_iff (some s) t = ground (arith, text_eq_iff s t)

candidate-IsUnspentAt :
    (address : Text) (note : SpendableNote)
    → is_candidate address note ≡ true
    → IsUnspentAt address note
candidate-IsUnspentAt address note h = record {
  not_consumed = ground arith;
  not_spent = λ e. ground (arith, is_text_iff note.status (codes "spent"));
  at_address = ground (arith, is_text_iff note.private_address address);
  has_coin = ground arith;
}

IsUnspentAt-candidate :
    (address : Text) (note : SpendableNote)
    → IsUnspentAt address note
    → is_candidate address note ≡ true
IsUnspentAt-candidate address note h = ground (
  arith,
  h.not_consumed,
  h.not_spent,
  h.at_address,
  h.has_coin,
  is_text_iff note.status (codes "spent"),
  is_text_iff note.private_address address,
)

candidates-cons :
    (address : Text) (note : SpendableNote) (notes : List SpendableNote)
    → candidates address (note ∷ notes) ≡ (
        if is_candidate address note
        then note ∷ candidates address notes
        else candidates address notes)
unfolding candidates
candidates-cons address note notes = ground arith

abbrev amounts : Text → List SpendableNote → Result (List ℤ)
amounts address notes = map_results read_note_spend_amount (candidates address notes)

map_results-cases :
    {B : Type 0} (first : Result B) (later : Result (List B)) (bs : List B)
    → ◌≡◌ {A = Result (List B)}
        (elim first [
          | thrown e ↦ thrown e
          | ok b ↦ elim later [ thrown e ↦ thrown e | ok rest ↦ ok (b ∷ rest) ]
        ])
        (ok bs)
    → (b : B) × (rest : List B) × (first ≡ ok b) × (later ≡ ok rest) × (bs ≡ b ∷ rest)
map_results-cases (thrown e) later bs h = cc
map_results-cases (ok b) (thrown e) bs h = cc
map_results-cases (ok b) (ok rest) bs h = (b, rest, refl, refl, ground arith)

map_results-cons :
    {A B : Type 0} (f : A → Result B) (a : A) (r : List A) (bs : List B)
    → map_results f (a ∷ r) ≡ ok bs
    → (b : B) × (rest : List B) × (f a ≡ ok b) × (map_results f r ≡ ok rest) × (bs ≡ b ∷ rest)
unfolding map_results
map_results-cons f a r bs e = map_results-cases (f a) (map_results f r) bs e

amounts_of_candidate :
    (address : Text) (note : SpendableNote) (notes : List SpendableNote)
    → is_candidate address note ≡ true
    → amounts address (note ∷ notes)
      ≡ map_results read_note_spend_amount (note ∷ candidates address notes)
amounts_of_candidate address note notes h =
    ap (map_results read_note_spend_amount) (candidates-cons address note notes ∙ rw h refl)

amounts_of_other :
    (address : Text) (note : SpendableNote) (notes : List SpendableNote)
    → is_candidate address note ≡ false
    → amounts address (note ∷ notes) ≡ amounts address notes
amounts_of_other address note notes h =
    ap (map_results read_note_spend_amount) (candidates-cons address note notes ∙ rw h refl)

module _ (address : Text) (note : SpendableNote) (notes : List SpendableNote) (v : ℤ)
    (rest : List ℤ) (read : read_note_spend_amount note ≡ ok v) where
  cons-Pays :
      IsUnspentAt address note
      → ((m : ℕ) (s : ℤ) → Chosen m rest s → Pays address m notes s)
      → {n : ℕ} {t : ℤ} → Chosen n (v ∷ rest) t
      → Pays address n (note ∷ notes) t
  cons-Pays u f (skip c) = keep note (f _ _ c)
  cons-Pays u f (pick c e) = spend note v u read (f _ _ c) e

  Pays-cons :
      ((m : ℕ) (s : ℤ) → Pays address m notes s → Chosen m rest s)
      → {n : ℕ} {t : ℤ} → Pays address n (note ∷ notes) t
      → Chosen n (v ∷ rest) t
  Pays-cons f (keep _ p) = skip (f _ _ p)
  Pays-cons f (spend _ {u} w _ again p e) = let same : w ≡ v = cc in pick (f _ _ p) (rw (← same) e)

Chosen-nil : {n : ℕ} {t : ℤ} → Chosen n [] t → t ≡ pos 0
Chosen-nil done = refl

Pays-nil : {address : Text} {n : ℕ} {t : ℤ} → Pays address n [] t → Chosen n [] t
Pays-nil nothing = done

Pays-other :
    (address : Text) (note : SpendableNote) (notes : List SpendableNote)
    → is_candidate address note ≡ false
    → {n : ℕ} {t : ℤ} → Pays address n (note ∷ notes) t
    → Pays address n notes t
Pays-other address note notes h (keep _ p) = p
Pays-other address note notes h (spend _ v u read p e) =
    let counted = IsUnspentAt-candidate address note u in cc

amounts_of_none : (address : Text) (xs : List ℤ) → amounts address [] ≡ ok xs → xs ≡ []
unfolding candidates map_results
amounts_of_none address xs e = ground arith

Chosen-Pays :
    (address : Text) (notes : List SpendableNote) (xs : List ℤ)
    → amounts address notes ≡ ok xs
    → (n : ℕ) (t : ℤ) → Chosen n xs t
    → Pays address n notes t
Chosen-Pays address [] xs e n t c =
    let c' : Chosen n [] t = rw (amounts_of_none address xs e) at c in rw (Chosen-nil c') nothing
Chosen-Pays address (note ∷ notes) xs e n t c = elim (Bool-cases (is_candidate address note)) [
  | inl counted ↦
      let (v, rest, read, later, same) =
        map_results-cons read_note_spend_amount note (candidates address notes) xs
          (sym (amounts_of_candidate address note notes counted) ∙ e) in
      cons-Pays address note notes v rest read (candidate-IsUnspentAt address note counted)
        (Chosen-Pays address notes rest later) (rw same at c)
  | inr passed ↦
      keep note
        (Chosen-Pays address notes xs (sym (amounts_of_other address note notes passed) ∙ e) n t c)
]

Pays-Chosen :
    (address : Text) (notes : List SpendableNote) (xs : List ℤ)
    → amounts address notes ≡ ok xs
    → (n : ℕ) (t : ℤ) → Pays address n notes t
    → Chosen n xs t
Pays-Chosen address [] xs e n t p = rw (amounts_of_none address xs e) (Pays-nil p)
Pays-Chosen address (note ∷ notes) xs e n t p = elim (Bool-cases (is_candidate address note)) [
  | inl counted ↦
      let (v, rest, read, later, same) =
        map_results-cons read_note_spend_amount note (candidates address notes) xs
          (sym (amounts_of_candidate address note notes counted) ∙ e) in
      rw same (Pays-cons address note notes v rest read (Pays-Chosen address notes rest later) p)
  | inr passed ↦
      Pays-Chosen address notes xs (sym (amounts_of_other address note notes passed) ∙ e) n t
        (Pays-other address note notes passed p)
]

-- No note of the address is worth less than nothing.
pub data NoNegative (address : Text) : List SpendableNote → Type 0 where
  none_left : NoNegative address []
  one_more :
      (note : SpendableNote) {notes : List SpendableNote}
      → ((v : ℤ) → IsUnspentAt address note → read_note_spend_amount note ≡ ok v → pos 0 ≤ℤ v)
      → NoNegative address notes
      → NoNegative address (note ∷ notes)

NoNegative-IsNonneg :
    (address : Text) (notes : List SpendableNote) (xs : List ℤ)
    → amounts address notes ≡ ok xs
    → NoNegative address notes
    → IsNonneg xs
NoNegative-IsNonneg address [] xs e none_left = rw (amounts_of_none address xs e) tt
NoNegative-IsNonneg address (note ∷ notes) xs e (one_more _ h k) =
    elim (Bool-cases (is_candidate address note)) [
      | inl counted ↦
          let (v, rest, read, later, same) =
            map_results-cons read_note_spend_amount note (candidates address notes) xs
              (sym (amounts_of_candidate address note notes counted) ∙ e) in
          rw same (
            h v (candidate-IsUnspentAt address note counted) read,
            NoNegative-IsNonneg address notes rest later k,
          )
      | inr passed ↦
          NoNegative-IsNonneg address notes xs
            (sym (amounts_of_other address note notes passed) ∙ e) k
    ]

spendable_cases :
    (notes : List SpendableNote) (address : Text) (max : ℕ) (z : ℤ)
    → spendable_transfer_stroops notes address max ≡ ok z
    → Pays address max notes z
      × (NoNegative address notes → (t : ℤ) → Pays address max notes t → t ≤ℤ z)
unfolding spendable_transfer_stroops
spendable_cases notes address max z e = elim (Result-cases (amounts address notes)) [
  | inl (x, failed) ↦ cc
  | inr (xs, read) ↦
      let same : sum_from (pos 0) (take max (sort xs)) ≡ z = ground arith in
      let (chosen, greatest) = take-sort_greatest max xs in
      (
        rw (← same) (Chosen-Pays address notes xs read max _ chosen),
        λ h t p. rw (← same) (
            greatest (NoNegative-IsNonneg address notes xs read h) t
              (Pays-Chosen address notes xs read max t p)),
      )
]

-- If no unspent note of the address is worth less than nothing, a spendable amount that is returned is
-- the greatest that at most `max` of them pay together.
pub spendable_greatest :
    (notes : List SpendableNote) (address : Text) (max : ℕ) (z : ℤ)
    → spendable_transfer_stroops notes address max ≡ ok z
    → NoNegative address notes
    → Pays address max notes z × ((t : ℤ) → Pays address max notes t → t ≤ℤ z)
spendable_greatest notes address max z e h =
    let (pays, greatest) = spendable_cases notes address max z e in (pays, greatest h)
