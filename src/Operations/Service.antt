-- ===== src/Operations/Service.antt =====
-- privacy/operations/privacy-operations.service.ts. The services that it calls are ports over a
-- world `W`; an account that is changed is returned beside the result.
pub mod Surfaces
pub mod LeavesNote
pub mod CountsOne
use pl_backend_sdk_demo.Prelude.{
  ℕ, Bool, true, false, Option, none, some, List, [], ◌∷◌, ◌++◌, ℤ, pos, Text, codes, big_text,
  if◌then◌else◌, Thrown, error, string, other, Failure, plain_error, http_error, Result, ok, thrown,
  Exec, pure, raise, lift, catch, on_throw, continue, ◌>>=◌, ◌>>◌,
}
use pl_backend_sdk_demo.Jobs.{
  PrivacyWorkerJob, register_job, deposit_job, transfer_job, withdraw_job, PrivacyWorkerSuccess,
}
use pl_backend_sdk_demo.Persistence.{HdAccount, LogEntry}
use pl_backend_sdk_demo.ProtocolFee.Request.{Kind, deposit, transfer, withdraw}
use pl_backend_sdk_demo.ProtocolFee.Quote.{ProtocolFeeQuote}
use pl_backend_sdk_demo.ProtocolFee.Spend.{
  protocol_fee_log_suffix, remaining_after_required_fee, required_fee_stroops,
}
use pl_backend_sdk_demo.Notes.Delivery.{truthy}
use pl_backend_sdk_demo.Relay.{text_or_empty}

-- `privacy`, `workers`, `logs`, `fees` and `accounts` of the constructor; `find_account` is
-- `findOneByOrFail({ publicKey })`.
pub record OperationPorts (W : Type 0) : Type 0 where
  pub run_exclusive : List Text → Exec W PrivacyWorkerSuccess → Exec W PrivacyWorkerSuccess
  pub run_worker : PrivacyWorkerJob → Exec W PrivacyWorkerSuccess
  pub worker_count : ℕ
  pub append : LogEntry → Exec W (Unit {0})
  pub quote_or_undefined : Kind → ℤ → Exec W (Option ProtocolFeeQuote)
  pub find_account : Text → Exec W HdAccount
  pub private_balance : Text → Exec W ℤ
  pub spendable_private : Text → Text → Exec W ℤ

abbrev pub log_entry : Text → Text → Text → Option Text → Option Text → Option Text → LogEntry
log_entry kind message from to amount tx_id = record {
  kind = kind;
  message = message;
  from_address = some from;
  to_address = to;
  amount_stroops = amount;
  tx_id = tx_id;
  error = none;
}

abbrev pub set_kyt_token : Text
set_kyt_token =
    codes "Set KYT_INSPECT_TOKEN in .env to the same Bearer secret Core uses for inspect."

abbrev pub unauthorized : Thrown
unauthorized = http_error 401 set_kyt_token

-- `"kytUnauthenticated" in error && error.kytUnauthenticated`, of an object.
unfoldable pub has_kyt_flag : Thrown → Bool
has_kyt_flag (error f) = f.kyt_unauthenticated
has_kyt_flag (string s) = false
has_kyt_flag (other f) = f.kyt_unauthenticated

unfoldable pub translated : Thrown → Thrown
translated e = if has_kyt_flag e then unauthorized else e

abbrev pub job_not_registered : Thrown
job_not_registered = http_error 400 (codes "Account is not registered")

abbrev pub both_not_registered : Thrown
both_not_registered = http_error 400 (codes "Both accounts must be registered")

module _ {W : Type 0} (ports : OperationPorts W) where
  abbrev pub rethrow : Thrown → Exec W PrivacyWorkerSuccess
  rethrow e = raise (translated e)

  unfoldable pub run_job : List Text → PrivacyWorkerJob → Exec W PrivacyWorkerSuccess
  run_job keys job = catch (ports.run_exclusive keys (ports.run_worker job)) rethrow

  abbrev pub fee_or_zero : Option ProtocolFeeQuote → Result ℤ
  fee_or_zero none = ok (pos 0)
  fee_or_zero (some quote) = required_fee_stroops quote.required_fee

  unfoldable pub quoted_fee_stroops : Kind → ℤ → Exec W ℤ
  quoted_fee_stroops kind instructed =
      ports.quote_or_undefined kind instructed >>= λ quote. lift (fee_or_zero quote)

  -- The fee of a quote, if it leaves something of the amount.
  abbrev pub fee_within : ℤ → Option ProtocolFeeQuote → Result ℤ
  fee_within amount none = ok (pos 0)
  fee_within amount (some quote) = elim (required_fee_stroops quote.required_fee) [
    | thrown e ↦ thrown e
    | ok fee ↦ elim (remaining_after_required_fee amount fee) [
      | thrown e ↦ thrown e
      | ok remaining ↦ ok fee
    ]
  ]

  unfoldable pub require_deposit_leaves_note : ℤ → Exec W ℤ
  require_deposit_leaves_note amount =
      ports.quote_or_undefined deposit amount >>= λ quote. lift (fee_within amount quote)

  abbrev pub require_text : Option Text → Text → Exec W Text
  require_text address message =
      if truthy address then pure (text_or_empty address) else raise (plain_error message)

  unfoldable pub register_account : HdAccount → Exec W (HdAccount × Text)
  register_account account = do
    result ← run_job (account.public_key ∷ []) (register_job account.public_key)
    address ←
        require_text result.private_address (codes "Register did not return a private address")
    ports.append (
        log_entry (codes "register") (codes "Registered " ++ account.public_key) account.public_key
          none none none)
    pure (record account { private_address = some address; registered = true }, address)

  abbrev pub require_registered : Thrown → Bool → Exec W (Unit {0})
  require_registered e true = pure tt
  require_registered e false = raise e

  -- The part of `deposit` after the fee is known to leave a note.
  abbrev pub deposit_with : HdAccount → ℤ → ℤ → Exec W Text
  deposit_with account amount fee = do
    result ← run_job (account.public_key ∷ []) (deposit_job account.public_key (big_text amount))
    ports.append (
        log_entry (codes "deposit")
          (codes "Deposited " ++ big_text amount ++ codes " stroops" ++ protocol_fee_log_suffix fee)
          account.public_key account.private_address (some (big_text amount))
          (some (text_or_empty result.tx_id)))
    pure (text_or_empty result.tx_id)

  unfoldable pub deposit_stroops : HdAccount → ℤ → Exec W Text
  deposit_stroops account amount =
      require_registered job_not_registered (truthy account.private_address) >>= λ _.
      require_deposit_leaves_note amount >>= deposit_with account amount

  unfoldable pub transfer_stroops : HdAccount → HdAccount → ℤ → Exec W (HdAccount × Text)
  transfer_stroops sender recipient amount = do
    require_registered both_not_registered (truthy sender.private_address)
    require_registered both_not_registered (truthy recipient.private_address)
    result ←
        run_job (sender.public_key ∷ recipient.public_key ∷ [])
          (transfer_job sender.public_key recipient.public_key (big_text amount))
    fee ← quoted_fee_stroops transfer amount
    fresh ← ports.find_account sender.public_key
    ports.append (
        log_entry (codes "transfer")
          (codes "Private transfer "
            ++ big_text amount
            ++ codes " stroops"
            ++ protocol_fee_log_suffix fee)
          sender.public_key (some recipient.public_key) (some (big_text amount))
          (some (text_or_empty result.tx_id)))
    pure (
      record sender {
        sent_count = fresh.sent_count;
        sent_volume_stroops = fresh.sent_volume_stroops;
      },
      text_or_empty result.tx_id,
    )

  unfoldable pub withdraw_stroops : HdAccount → ℤ → Exec W Text
  withdraw_stroops account amount = do
    require_registered job_not_registered (truthy account.private_address)
    result ← run_job (account.public_key ∷ []) (withdraw_job account.public_key (big_text amount))
    fee ← quoted_fee_stroops withdraw amount
    ports.append (
        log_entry (codes "withdraw")
          (codes "Withdrew " ++ big_text amount ++ codes " stroops" ++ protocol_fee_log_suffix fee)
          account.public_key (some account.public_key) (some (big_text amount))
          (some (text_or_empty result.tx_id)))
    pure (text_or_empty result.tx_id)

  unfoldable pub private_balance_stroops : Text → Exec W ℤ
  private_balance_stroops owner = ports.private_balance owner

  unfoldable pub spendable_private_stroops : Text → Text → Exec W ℤ
  spendable_private_stroops owner address = ports.spendable_private owner address

  unfoldable pub prove_worker_count : ℕ
  prove_worker_count = ports.worker_count
