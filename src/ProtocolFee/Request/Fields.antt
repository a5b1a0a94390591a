-- ===== src/ProtocolFee/Request/Fields.antt =====
-- privacy/protocol-fee/quote-request.ts: what is asked, by kind and amount.
use pl_backend_sdk_demo.Prelude.{
  ◌≡◌, refl, ◌≢◌, ◌↔◌, false, Option, none, some, ℤ, pos, Text, codes, text_eq, text_eq_iff,
  trim-IsSolid, big_text, [], ◌∷◌, arith, ap, sym, ◌∙◌, numbers, big_text-IsSolid, big_text-ne-nil,
  big_text-inj,
}
use pl_backend_sdk_demo.ProtocolFee.Request.{
  Kind, deposit, transfer, withdraw, QuoteRequest, present, present_instructed_amount,
  protocol_fee_quote_request,
}

-- The field that belongs to a kind.
abbrev pub amount_field : Kind → QuoteRequest → Option Text
amount_field deposit r = r.public_deposit_amount
amount_field transfer r = r.transfer_instructed_amount
amount_field withdraw r = r.public_withdrawal_amount

zero_text : big_text (pos 0) ≡ codes "0"
unfolding numbers
zero_text = refl

present_of_nonzero : (s : Text) → s ≢ [] → s ≢ codes "0" → present s ≡ some s
unfolding present
present_of_nonzero [] h k = absurd (h refl)
present_of_nonzero (c ∷ s) h k = ground (arith, text_eq_iff (c ∷ s) (codes "0"))

-- An amount in stroops is sent as it is printed, unless it is zero.
present-big_text : (z : ℤ) → z ≢ pos 0 → present_instructed_amount (big_text z) ≡ some (big_text z)
unfolding present_instructed_amount
present-big_text z h =
    ap present (trim-IsSolid (big_text z) (big_text-IsSolid z))
    ∙ present_of_nonzero (big_text z) (big_text-ne-nil z)
        (λ e. h (big_text-inj z (pos 0) (e ∙ sym zero_text)))

present_of_zero : present_instructed_amount (big_text (pos 0)) ≡ none
unfolding present_instructed_amount present numbers text_eq
present_of_zero = refl

other_field :
    (k j : Kind) (asset : Text) (z : ℤ)
    → j ≢ k
    → amount_field j (protocol_fee_quote_request k asset (big_text z)) ≡ none
unfolding protocol_fee_quote_request
other_field deposit deposit asset z h = absurd (h refl)
other_field transfer transfer asset z h = absurd (h refl)
other_field withdraw withdraw asset z h = absurd (h refl)
other_field _ _ asset z h = refl

-- The request for a nonzero amount of stroops of a kind carries the amount as it is printed in the
-- field of that kind, nothing in the other two fields, and says that notes are spent except for a
-- deposit; for no stroops it carries no amount.
pub amount_field-request :
    (k : Kind) (asset : Text) (z : ℤ)
    → (z ≢ pos 0
        → amount_field k (protocol_fee_quote_request k asset (big_text z)) ≡ some (big_text z))
      × (amount_field k (protocol_fee_quote_request k asset (big_text (pos 0))) ≡ none)
      × ((j : Kind)
          → j ≢ k
          → amount_field j (protocol_fee_quote_request k asset (big_text z)) ≡ none)
      × (((protocol_fee_quote_request k asset (big_text z)).spends_notes ≡ false) ↔ (k ≡ deposit))
unfolding protocol_fee_quote_request
amount_field-request deposit asset z =
    (present-big_text z, present_of_zero, λ j. other_field deposit j asset z, ground arith)
amount_field-request transfer asset z =
    (present-big_text z, present_of_zero, λ j. other_field transfer j asset z, ground arith)
amount_field-request withdraw asset z =
    (present-big_text z, present_of_zero, λ j. other_field withdraw j asset z, ground arith)
