-- ===== src/Operations/Service/LeavesNote.antt =====
-- privacy/operations/privacy-operations.service.ts: the fee of a deposit.
use pl_backend_sdk_demo.Prelude.{
  true, ◌≡◌, refl, ap, ◌∙◌, Option, none, some, ℤ, pos, ◌≤ℤ◌, ◌<ℤ◌, big_int, Text, inl, inr, ◌⊎◌,
  int_laws, arith, plain_error, Result, ok, thrown, Result-cases, subst, lift, continue,
}
use pl_backend_sdk_demo.Persistence.{HdAccount}
use pl_backend_sdk_demo.ProtocolFee.Request.{deposit}
use pl_backend_sdk_demo.ProtocolFee.Quote.{ProtocolFeeQuote}
use pl_backend_sdk_demo.ProtocolFee.Spend.{
  no_spendable_note, remaining_after_required_fee, required_fee_stroops,
}
use pl_backend_sdk_demo.ProtocolFee.Spend.Covers.{remaining_after_required_fee_lem}
use pl_backend_sdk_demo.Notes.Delivery.{truthy}
use pl_backend_sdk_demo.Operations.Service.{
  OperationPorts, fee_within, require_deposit_leaves_note, deposit_with, deposit_stroops,
}

-- What a deposit does with a quote: the fee that it goes on with, or the error.
pub record FeeChecked (amount : ℤ) (quote : Option ProtocolFeeQuote) (checked : Result ℤ)
    : Type 0 where
  pub fits :
      (fee : ℤ)
      → checked ≡ ok fee
      → ((quote ≡ none) × (fee ≡ pos 0))
        ⊎ ((q : ProtocolFeeQuote) × (quote ≡ some q)
            × (big_int q.required_fee ≡ some fee)
            × (fee <ℤ amount))
  pub refused :
      (q : ProtocolFeeQuote) (fee : ℤ)
      → quote ≡ some q
      → big_int q.required_fee ≡ some fee
      → amount ≤ℤ fee
      → checked ≡ thrown (plain_error no_spendable_note)

module _ (W : Type 0) (ports : OperationPorts W) where
  big_int_of_fee : (s : Text) (fee : ℤ) → required_fee_stroops s ≡ ok fee → big_int s ≡ some fee
  unfolding required_fee_stroops
  big_int_of_fee s fee e = ground arith

  fee_of_big_int : (s : Text) (fee : ℤ) → big_int s ≡ some fee → required_fee_stroops s ≡ ok fee
  unfolding required_fee_stroops
  fee_of_big_int s fee e = ground arith

  within-ok :
      (amount fee : ℤ) (q : ProtocolFeeQuote)
      → fee_within ports amount (some q) ≡ ok fee
      → (r : ℤ) × (required_fee_stroops q.required_fee ≡ ok fee)
        × (remaining_after_required_fee amount fee ≡ ok r)
  within-ok amount fee q e = elim (Result-cases (required_fee_stroops q.required_fee)) [
    | inl (t, h) ↦ absurd (ground arith)
    | inr (f, h) ↦ elim (Result-cases (remaining_after_required_fee amount f)) [
      | inl (t, k) ↦ absurd (ground arith)
      | inr (r, k) ↦
          let same : f ≡ fee = ground arith in
          (r, h ∙ ap ok same, subst (λ x. remaining_after_required_fee amount x ≡ ok r) same k)
    ]
  ]

  fits_quote :
      (amount fee : ℤ) (q : ProtocolFeeQuote)
      → fee_within ports amount (some q) ≡ ok fee
      → (big_int q.required_fee ≡ some fee) × (fee <ℤ amount)
  fits_quote amount fee q e =
      let (r, read, left) = within-ok amount fee q e in
      let (sum, positive) = ((remaining_after_required_fee_lem amount fee).0 r).0 left in
      (big_int_of_fee q.required_fee fee read, rw (← sum) (omega int_laws))

  within-thrown :
      (amount fee : ℤ) (q : ProtocolFeeQuote)
      → big_int q.required_fee ≡ some fee
      → amount ≤ℤ fee
      → fee_within ports amount (some q) ≡ thrown (plain_error no_spendable_note)
  within-thrown amount fee q read low =
      let read_ok = fee_of_big_int q.required_fee fee read in
      let none_left = (remaining_after_required_fee_lem amount fee).1.1 low in
      rw (fee_within, read_ok) (rw none_left refl)

  fee_within-FeeChecked :
      (amount : ℤ) (quote : Option ProtocolFeeQuote)
      → FeeChecked amount quote (fee_within ports amount quote)
  fee_within-FeeChecked amount none = record {
    fits = λ fee e. inl (refl, ground arith);
    refused = λ q fee e. absurd (cc);
  }
  fee_within-FeeChecked amount (some q) = record {
    fits = λ fee e. let (read, less) = fits_quote amount fee q e in inr (q, refl, read, less);
    refused = λ p fee e read low.
        let same : p ≡ q = ground arith in
        within-thrown amount fee q
          (subst (λ (x : ProtocolFeeQuote). big_int x.required_fee ≡ some fee) same read) low;
  }

  quoted-continue :
      (account : HdAccount) (amount : ℤ) (quote : Option ProtocolFeeQuote) (t : W)
      → continue
          (deposit_with ports account amount)
          (continue (λ q. lift (fee_within ports amount q)) (ok quote, t))
        ≡ continue (deposit_with ports account amount) (fee_within ports amount quote, t)
  quoted-continue account amount quote t = refl

-- The deposit of an account with an address, once the quote has come: where the fee is an integer that
-- takes the whole amount or more, it throws before any job is started; and it goes on only without
-- a quote, at no fee, or at the quote's fee where that is less than the amount.
pub deposit_stroops-FeeChecked :
    (W : Type 0) (ports : OperationPorts W) (account : HdAccount) (amount : ℤ) (s t : W)
    (quote : Option ProtocolFeeQuote)
    → truthy account.private_address ≡ true
    → ports.quote_or_undefined deposit amount s ≡ (ok quote, t)
    → (checked : Result ℤ) × FeeChecked amount quote checked
      × (deposit_stroops ports account amount s
          ≡ continue (deposit_with ports account amount) (checked, t))
unfolding deposit_stroops require_deposit_leaves_note
deposit_stroops-FeeChecked W ports account amount s t quote has_address quoted = (
  fee_within ports amount quote,
  fee_within-FeeChecked W ports amount quote,
  rw has_address (rw quoted refl),
)
