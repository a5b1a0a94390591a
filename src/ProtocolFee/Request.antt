-- ===== src/ProtocolFee/Request.antt =====
-- privacy/protocol-fee/quote-request.ts and should-quote-protocol-fee.ts.
pub mod Fields
use pl_backend_sdk_demo.Prelude.{
  Bool, true, false, ◌||◌, Option, none, some, Text, codes, text_eq, trim, if◌then◌else◌, [], ◌∷◌,
}

pub data Kind : Type 0 where
  deposit transfer withdraw : Kind

pub record QuoteRequest : Type 0 where
  pub fee_asset : Text
  pub public_deposit_amount : Option Text
  pub transfer_instructed_amount : Option Text
  pub public_withdrawal_amount : Option Text
  pub spends_notes : Bool

-- The test on a trimmed amount.
unfoldable pub present : Text → Option Text
present [] = none
present (c ∷ s) = if text_eq (c ∷ s) (codes "0") then none else some (c ∷ s)

unfoldable pub present_instructed_amount : Text → Option Text
unfolding present
present_instructed_amount amount = present (trim amount)

unfoldable pub protocol_fee_quote_request : Kind → Text → Text → QuoteRequest
protocol_fee_quote_request deposit fee_asset instructed_minor = record {
  fee_asset = fee_asset;
  public_deposit_amount = present_instructed_amount instructed_minor;
  transfer_instructed_amount = none;
  public_withdrawal_amount = none;
  spends_notes = false;
}
protocol_fee_quote_request withdraw fee_asset instructed_minor = record {
  fee_asset = fee_asset;
  public_deposit_amount = none;
  transfer_instructed_amount = none;
  public_withdrawal_amount = present_instructed_amount instructed_minor;
  spends_notes = true;
}
protocol_fee_quote_request transfer fee_asset instructed_minor = record {
  fee_asset = fee_asset;
  public_deposit_amount = none;
  transfer_instructed_amount = present_instructed_amount instructed_minor;
  public_withdrawal_amount = none;
  spends_notes = true;
}

pub data UiKind : Type 0 where
  deposit transfer withdraw sweep claim : UiKind

unfoldable pub should_quote_protocol_fee : UiKind → Bool
should_quote_protocol_fee UiKind.deposit = true
should_quote_protocol_fee UiKind.transfer = true
should_quote_protocol_fee UiKind.withdraw = true
should_quote_protocol_fee _ = false
