-- ===== src/ProtocolFee/Spend/Covers.antt =====
-- privacy/protocol-fee/required-spend.ts: how the tests on a fee fit together.
use pl_backend_sdk_demo.Prelude.{
  ◌≡◌, refl, ◌≢◌, ◌↔◌, true, ℤ, pos, ◌+ℤ◌, ◌-ℤ◌, ◌≤ℤ◌, ◌<ℤ◌, ok, thrown, plain_error, arith,
  -ℤ_parts, int_laws,
}
use pl_backend_sdk_demo.ProtocolFee.Request.{Kind, deposit}
use pl_backend_sdk_demo.ProtocolFee.Spend.{
  required_spend_stroops, remaining_after_required_fee, can_cover_instructed_spend,
  no_spendable_note,
}

-- For a transfer and a withdrawal, notes cover the instructed amount and its fee exactly when they reach
-- what the operation is required to spend.
pub can_cover_iff :
    (k : Kind) (spendable instructed fee : ℤ)
    → k ≢ deposit
    → (can_cover_instructed_spend spendable instructed fee ≡ true)
      ↔ (required_spend_stroops k instructed fee ≤ℤ spendable)
unfolding can_cover_instructed_spend required_spend_stroops
can_cover_iff deposit spendable instructed fee h = absurd (h refl)
can_cover_iff _ spendable instructed fee h = ground arith

module _ (instructed fee : ℤ) where
  remaining_sound :
      (r : ℤ)
      → remaining_after_required_fee instructed fee ≡ ok r
      → (r +ℤ fee ≡ instructed) × (pos 0 <ℤ r)
  unfolding remaining_after_required_fee
  remaining_sound r e =
      let same : instructed -ℤ fee ≡ r = ground arith in
      (rw (← same) (omega int_laws), ground arith)

  remaining_complete :
      (r : ℤ)
      → r +ℤ fee ≡ instructed
      → pos 0 <ℤ r
      → remaining_after_required_fee instructed fee ≡ ok r
  unfolding remaining_after_required_fee
  remaining_complete r e h =
      let same : instructed -ℤ fee ≡ r = rw (← e) (omega int_laws) in rw same (ground arith)

  remaining_thrown :
      remaining_after_required_fee instructed fee ≡ thrown (plain_error no_spendable_note)
      → instructed ≤ℤ fee
  unfolding remaining_after_required_fee
  remaining_thrown e = ground (arith, -ℤ_parts instructed fee)

-- What remains of a deposit is positive and is, with the fee, the deposit; there is no remainder
-- exactly when the fee takes it all, and then the error is the one that the simulator skips.
pub remaining_after_required_fee_lem :
    (instructed fee : ℤ)
    → ((r : ℤ)
        → (remaining_after_required_fee instructed fee ≡ ok r)
          ↔ ((r +ℤ fee ≡ instructed) × (pos 0 <ℤ r)))
      × ((remaining_after_required_fee instructed fee ≡ thrown (plain_error no_spendable_note))
          ↔ (instructed ≤ℤ fee))
unfolding remaining_after_required_fee
remaining_after_required_fee_lem instructed fee = (
  λ r. (remaining_sound instructed fee r, λ h. remaining_complete instructed fee r h.0 h.1),
  (remaining_thrown instructed fee, λ h. ground (arith, -ℤ_parts instructed fee)),
)
