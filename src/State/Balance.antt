-- ===== src/State/Balance.antt =====
-- privacy/state/sdk-state-snapshot.ts, the amounts.
pub mod Sum
use pl_backend_sdk_demo.Prelude.{
  Bool, true, false, not, ◌&&◌, Option, none, some, List, [], ◌∷◌, ℤ, pos, ◌+ℤ◌, Text, codes,
  is_blank, Result, ok, thrown, filter, if◌then◌else◌,
}
use pl_backend_sdk_demo.Json.{Json, num, big, str}
use pl_backend_sdk_demo.Notes.Spendable.{CoinNote, coin_value, is_text, flag, big_int_or_throw}

-- A private record, as far as the balance reads it.
pub record BalanceRecord : Type 0 where
  pub owner : Option Text
  pub consumed : Option Bool
  pub status : Option Text
  pub amount : Json
  pub coin_note : Option CoinNote

-- An amount by its type. A number is an integer here, which `Math.trunc` leaves as it is.
abbrev pub amount_of : Json → Result ℤ
amount_of (big z) = ok z
amount_of (num z) = ok z
amount_of (str s) = if not (is_blank s) then big_int_or_throw s else ok (pos 0)
amount_of _ = ok (pos 0)

abbrev pub coin_or_amount : Option Text → Json → Result ℤ
coin_or_amount none amount = amount_of amount
coin_or_amount (some value) amount =
    if not (is_blank value) then big_int_or_throw value else amount_of amount

unfoldable pub record_amount_stroops : BalanceRecord → Result ℤ
record_amount_stroops r = coin_or_amount (coin_value r.coin_note) r.amount

-- The filter: the owner's records that are neither consumed nor spent.
unfoldable pub counts : Text → BalanceRecord → Bool
counts owner r =
    is_text r.owner owner && (not (flag r.consumed) && not (is_text r.status (codes "spent")))

-- `records.reduce((total, record) => total + recordAmountStroops(record), total)`
unfoldable pub add_amounts : ℤ → List BalanceRecord → Result ℤ
add_amounts total [] = ok total
add_amounts total (r ∷ rs) = elim (record_amount_stroops r) [
  | thrown e ↦ thrown e
  | ok amount ↦ add_amounts (total +ℤ amount) rs
]

unfoldable pub private_balance_stroops_from_records : List BalanceRecord → Text → Result ℤ
private_balance_stroops_from_records records owner =
    add_amounts (pos 0) (filter (counts owner) records)
