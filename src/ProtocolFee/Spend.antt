-- ===== src/ProtocolFee/Spend.antt =====
-- privacy/protocol-fee/required-spend.ts.
pub mod Covers
use pl_backend_sdk_demo.Prelude.{
  Bool, true, false, Option, none, some, ℤ, pos, ◌+ℤ◌, ◌-ℤ◌, ltb_ℤ, leb_ℤ, Text, codes, big_int,
  big_text, Result, ok, thrown, plain_error, if◌then◌else◌, [], ◌++◌,
}
use pl_backend_sdk_demo.ProtocolFee.Request.{Kind, deposit}

-- `BigInt(text)`, which throws at what is no integer literal.
unfoldable pub required_fee_stroops : Text → Result ℤ
required_fee_stroops required_fee = elim (big_int required_fee) [
  | none ↦ thrown (plain_error (codes "Cannot convert to a BigInt"))
  | some z ↦ ok z
]

unfoldable pub required_spend_stroops : Kind → ℤ → ℤ → ℤ
required_spend_stroops deposit instructed fee = instructed
required_spend_stroops _ instructed fee = instructed +ℤ fee

abbrev pub no_spendable_note : Text
no_spendable_note = codes "Required Fee leaves no spendable deposit note"

unfoldable pub remaining_after_required_fee : ℤ → ℤ → Result ℤ
remaining_after_required_fee instructed fee =
    let remaining = instructed -ℤ fee in
    if leb_ℤ remaining (pos 0) then thrown (plain_error no_spendable_note) else ok remaining

unfoldable pub can_cover_instructed_spend : ℤ → ℤ → ℤ → Bool
can_cover_instructed_spend spendable instructed fee = leb_ℤ (instructed +ℤ fee) spendable

unfoldable pub protocol_fee_log_suffix : ℤ → Text
protocol_fee_log_suffix fee =
    if leb_ℤ fee (pos 0) then [] else codes " (protocol fee " ++ big_text fee ++ codes " stroops)"
