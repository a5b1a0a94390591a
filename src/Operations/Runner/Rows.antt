-- ===== src/Operations/Runner/Rows.antt =====
-- accounts.save over the table: the row that is found after it.
use pl_backend_sdk_demo.Prelude.{
  ℕ, true, false, ◌≡◌, ◌≢◌, refl, sym, ap, ◌∙◌, subst, inl, inr, some, List, [], ◌∷◌, Text, text_eq,
  ◌==◌, Bool-cases, arith,
}
use pl_backend_sdk_demo.Persistence.{HdAccount}
use pl_backend_sdk_demo.Accounts.{save_row}
use pl_backend_sdk_demo.Operations.Runner.{find_by_key}

-- No row has the index of an earlier one.
abbrev OtherIndex : ℕ → List HdAccount → Type 0
OtherIndex i [] = Unit {0}
OtherIndex i (a ∷ table) = (a.hd_index ≢ i) × OtherIndex i table

abbrev pub HasDistinctIndices : List HdAccount → Type 0
HasDistinctIndices [] = Unit {0}
HasDistinctIndices (a ∷ table) = OtherIndex a.hd_index table × HasDistinctIndices table

-- The row of a key has another index than the rows that come before.
other_row :
    (i : ℕ) (key : Text) (table : List HdAccount) (a : HdAccount)
    → OtherIndex i table
    → find_by_key key table ≡ some a
    → a.hd_index ≢ i
other_row i key [] a o e = cc
other_row i key (x ∷ table) a o e = elim (Bool-cases (text_eq x.public_key key)) [
  | inl hit ↦ let same : x ≡ a = ground arith in subst (λ (y : HdAccount). y.hd_index ≢ i) same o.0
  | inr miss ↦ other_row i key table a o.1 (ground arith)
]

-- A row that is saved in place of the row of a key is the one that is found.
pub find-save_row :
    (key : Text) (table : List HdAccount) (a b : HdAccount)
    → HasDistinctIndices table
    → find_by_key key table ≡ some a
    → b.hd_index ≡ a.hd_index
    → b.public_key ≡ a.public_key
    → find_by_key key (save_row b table) ≡ some b
unfolding save_row
find-save_row key [] a b d e index named = cc
find-save_row key (x ∷ table) a b d e index named = elim (Bool-cases (text_eq x.public_key key)) [
  | inl hit ↦
      let same : x ≡ a = ground arith in
      let at : (x.hd_index == b.hd_index) ≡ true =
        let i : x.hd_index ≡ b.hd_index = ap (λ (y : HdAccount). y.hd_index) same ∙ sym index in
        ground arith in
      let mine : text_eq b.public_key key ≡ true =
        ap (λ k. text_eq k key) (named ∙ ap (λ (y : HdAccount). y.public_key) (sym same)) ∙ hit in
      rw at (rw mine refl)
  | inr miss ↦
      let later_found : find_by_key key table ≡ some a = ground arith in
      let differs = other_row x.hd_index key table a d.0 later_found in
      let at : (x.hd_index == b.hd_index) ≡ false =
        let n : b.hd_index ≢ x.hd_index = λ q. differs (sym index ∙ q) in ground arith in
      rw at (rw miss (find-save_row key table a b d.1 later_found index named))
]
