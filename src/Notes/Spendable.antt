-- ===== src/Notes/Spendable.antt =====
-- privacy/notes/spendable-notes.ts.
pub mod Sorting
pub mod Greatest
use pl_backend_sdk_demo.Prelude.{
  ℕ, Bool, true, false, not, ◌&&◌, Option, none, some, List, [], ◌∷◌, ℤ, pos, ◌+ℤ◌, ltb_ℤ, Text,
  codes, text_eq, is_blank, big_int, Result, ok, thrown, plain_error, filter, take, if◌then◌else◌,
}

pub record CoinNote : Type 0 where
  pub value : Option Text

pub record SpendableNote : Type 0 where
  pub amount : ℤ
  pub consumed : Option Bool
  pub status : Option Text
  pub private_address : Option Text
  pub coin_note : Option CoinNote

pub record TransactionNoteLayout : Type 0 where
  pub n_ins : ℕ
  pub n_outs : ℕ

-- `BigInt(text)`
abbrev pub big_int_or_throw : Text → Result ℤ
big_int_or_throw s = elim (big_int s) [
  | none ↦ thrown (plain_error (codes "Cannot convert to a BigInt"))
  | some z ↦ ok z
]

-- `record.coinNote?.value`
abbrev pub coin_value : Option CoinNote → Option Text
coin_value none = none
coin_value (some c) = c.value

-- The value of a coin note, unless it is absent or blank.
unfoldable pub value_or : Option Text → ℤ → Result ℤ
value_or none amount = ok amount
value_or (some value) amount = if not (is_blank value) then big_int_or_throw value else ok amount

unfoldable pub read_note_spend_amount : SpendableNote → Result ℤ
read_note_spend_amount note = value_or (coin_value note.coin_note) note.amount

-- `x === text` on an optional string, and `Boolean(x)` on an optional flag or object.
abbrev pub is_text : Option Text → Text → Bool
is_text none t = false
is_text (some s) t = text_eq s t

abbrev pub flag : Option Bool → Bool
flag none = false
flag (some b) = b

abbrev pub is_some : {A : Type 0} → Option A → Bool
is_some none = false
is_some (some a) = true

-- `records.map(f)`, where `f` may throw.
unfoldable pub map_results : {A B : Type 0} → (A → Result B) → List A → Result (List B)
map_results f [] = ok []
map_results f (a ∷ r) = elim (f a) [
  | thrown e ↦ thrown e
  | ok b ↦ elim (map_results f r) [ thrown e ↦ thrown e | ok bs ↦ ok (b ∷ bs) ]
]

-- `amounts.sort(…)`: the greatest first, and equal amounts in their order.
unfoldable pub insert : ℤ → List ℤ → List ℤ
insert x [] = x ∷ []
insert x (y ∷ ys) = if ltb_ℤ x y then y ∷ insert x ys else x ∷ y ∷ ys

unfoldable pub sort : List ℤ → List ℤ
unfolding insert
sort [] = []
sort (x ∷ xs) = insert x (sort xs)

-- `values.reduce((total, value) => total + value, total)`
unfoldable pub sum_from : ℤ → List ℤ → ℤ
sum_from total [] = total
sum_from total (x ∷ xs) = sum_from (total +ℤ x) xs

-- The three filters.
abbrev pub is_unspent : SpendableNote → Bool
is_unspent r = not (flag r.consumed) && not (is_text r.status (codes "spent"))

unfoldable pub candidates : Text → List SpendableNote → List SpendableNote
candidates private_address records =
    filter (λ r. is_some r.coin_note)
      (filter (λ r. is_text r.private_address private_address) (filter is_unspent records))

unfoldable pub spendable_transfer_stroops : List SpendableNote → Text → ℕ → Result ℤ
spendable_transfer_stroops records private_address max_input_notes =
    elim (map_results read_note_spend_amount (candidates private_address records)) [
      | thrown e ↦ thrown e
      | ok amounts ↦ ok (sum_from (pos 0) (take max_input_notes (sort amounts)))
    ]
