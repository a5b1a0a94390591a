-- ===== src/Operations/Runner.antt =====
-- privacy/operations/privacy-job-runner.ts: `run` and its four handlers.
pub mod Kept
pub mod Rows
pub mod Sent
pub mod Registers
pub mod Recorded
use pl_backend_sdk_demo.Prelude.{
  ℕ, Bool, true, false, ◌&&◌, not, Option, none, some, List, [], ◌∷◌, ◌++◌, ℤ, pos, ◌+ℤ◌, Text,
  codes, text_eq, includes, big_text, find, if◌then◌else◌, Thrown, thrown_text, plain_error, Result,
  ok, thrown, Exec, pure, raise, lift, gets, modify, catch, on_throw, continue, ◌>>=◌, ◌>>◌, when,
}
use pl_backend_sdk_demo.Jobs.{
  PrivacyWorkerJob, register_job, deposit_job, transfer_job, withdraw_job, PrivacyWorkerSuccess,
  PrivacyWorkerResult, success, failure, PrivacyWorkerRequest, PrivacyWorkerResponse, result,
  Disclosure, deposit_disclosure, private_transfer_disclosure, public_withdraw_disclosure,
}
use pl_backend_sdk_demo.Persistence.{HdAccount}
use pl_backend_sdk_demo.Notes.Spendable.{big_int_or_throw}
use pl_backend_sdk_demo.Notes.Delivery.{truthy}
use pl_backend_sdk_demo.Accounts.{save_row}
use pl_backend_sdk_demo.Sdk.{
  Sdk, Prepared, AddressRecord, StellarOperation, prepared, rejected, OperationRequest, Domain,
  RegistrationStatus, DisplayMetadata,
}
use pl_backend_sdk_demo.Relay.{RelayEnv, text_or_empty}
use pl_backend_sdk_demo.Operations.Finalize.{
  Worker, WalletScalar, Registry, on_world, get_client, submit_relay_and_finalize,
}

pub record RunnerEnv : Type 0 where
  pub relay : RelayEnv
  pub domain : Domain
  pub asset_id : Text

abbrev pub find_by_key : Text → List HdAccount → Option HdAccount
find_by_key key table = find (λ a. text_eq a.public_key key) table

abbrev pub kyt_unauthenticated : Text
kyt_unauthenticated = codes "Unauthenticated KYT inspect"

-- `{ ok: true, kind, txId, fromAddress, toAddress, amountStroops }`
abbrev pub done : Text → Text → Text → Text → ℤ → PrivacyWorkerSuccess
done kind tx_id from to amount = record {
  kind = kind;
  tx_id = some tx_id;
  private_address = none;
  from_address = some from;
  to_address = some to;
  amount_stroops = some (big_text amount);
}

-- `errors[0]?.message ?? fallback`
abbrev pub first_or : List Text → Text → Text
first_or [] fallback = fallback
first_or (m ∷ messages) fallback = m

-- The sender with one more transfer.
unfoldable pub sent_one : HdAccount → ℤ → Result HdAccount
sent_one a amount = elim (big_int_or_throw a.sent_count) [
  | thrown e ↦ thrown e
  | ok count ↦ elim (big_int_or_throw a.sent_volume_stroops) [
    | thrown e ↦ thrown e
    | ok volume ↦ ok (record a {
      sent_count = big_text (count +ℤ pos 1);
      sent_volume_stroops = big_text (volume +ℤ amount);
    })
  ]
]

module _ (sdk : Sdk) (env : RunnerEnv) (registry : Registry sdk.World) where
  abbrev pub Handler : Type 0 → Type 0
  Handler A = Exec (Worker sdk.World) A

  abbrev pub world : {A : Type 0} → Exec sdk.World A → Handler A
  world m = on_world sdk env.relay registry m

  abbrev pub client : Text → Handler (Unit {0})
  client key = get_client sdk env.relay registry key

  abbrev pub keypair : Text → Handler (Unit {0})
  keypair key =
      if registry.has_keypair key
      then pure tt
      else raise (plain_error (codes "No keypair for " ++ key))

  abbrev pub found_or_unknown : Text → Option HdAccount → Handler HdAccount
  found_or_unknown key none = raise (plain_error (codes "Unknown account " ++ key))
  found_or_unknown key (some a) = pure a

  unfoldable pub require_account : Text → Handler HdAccount
  require_account key = gets (λ s. find_by_key key s.accounts) >>= found_or_unknown key

  abbrev pub save_account : HdAccount → Handler (Unit {0})
  save_account a = modify (λ s. record s { accounts = save_row a s.accounts })

  abbrev pub save_lookup : Text → RegistrationStatus → Handler (Unit {0})
  save_lookup key status =
      when (text_eq status.status (codes "registered") && truthy status.private_address)
        (world (sdk.save_registry_lookup key key (text_or_empty status.private_address)))

  abbrev pub sign_in : Text → Text
  sign_in key = sdk.sign key (sdk.sign_message key env.domain sdk.default_nonce)

  -- `scalars.save`, which adds a row, since no id is given.
  abbrev pub save_scalar : Text → Text → Text → Handler (Unit {0})
  save_scalar key private_address scalar_hex = modify (λ s. record s {
    scalars =
        s.scalars
        ++ record { owner = key; private_address = private_address; scalar_hex = scalar_hex } ∷ [];
  })

  abbrev pub address_record : Text → Text → ℕ → AddressRecord
  address_record key private_address created_at = record {
    owner = key;
    nonce = sdk.default_nonce;
    private_address = private_address;
    created_at = created_at;
  }

  -- The account is saved as registered, and the answer.
  abbrev pub record_registered : Text → HdAccount → Text → Handler PrivacyWorkerSuccess
  record_registered key account private_address =
      save_account (record account { private_address = some private_address; registered = true })
      >>= λ _. pure (record {
        kind = codes "register";
        tx_id = none;
        private_address = some private_address;
        from_address = some key;
        to_address = none;
        amount_stroops = none;
      })

  -- The client and the table of scalars keep the address.
  abbrev pub save_wallet : Text → Text → Text → Handler (Unit {0})
  save_wallet key private_address scalar_hex = do
    created_at ← gets (λ s. sdk.now s.world)
    world (sdk.save_address_record key (address_record key private_address created_at))
    world (sdk.save_address_scalar key key sdk.default_nonce scalar_hex)
    world (sdk.set_default_nonce key key sdk.default_nonce)
    save_scalar key private_address scalar_hex

  -- The address is registered, and what the registry then knows is saved.
  abbrev pub register_address : Text → Text → Handler (Unit {0})
  register_address key private_address = do
    world (sdk.register_private_address key key private_address)
    status ← world (sdk.check_registration_status key key)
    save_lookup key status

  unfoldable pub register : Text → Handler PrivacyWorkerSuccess
  register key = do
    world (registry.refresh (key ∷ []))
    account ← require_account key
    client key
    keypair key
    private_address ← world (sdk.generate_private_address (sign_in key) env.domain)
    scalar_hex ← world (sdk.spend_scalar_hex (sign_in key) env.domain)
    save_wallet key private_address scalar_hex
    register_address key private_address
    record_registered key account private_address

  abbrev pub not_registered : Text
  not_registered = codes "Account is not registered"

  -- `if (!address) { throw new Error(message); }`
  abbrev pub require_address : Text → Option Text → Handler Text
  require_address message address =
      if truthy address then pure (text_or_empty address) else raise (plain_error message)

  abbrev pub request : Text → Text → ℤ → Disclosure → OperationRequest
  request from to amount disclosure = record {
    from = from;
    to = to;
    asset = env.asset_id;
    amount = amount;
    disclosure = disclosure;
  }

  -- `execute`, whose receipt may lack an id.
  abbrev pub receipt_id : Exec sdk.World (Option Text) → Exec sdk.World Text
  receipt_id execute = execute >>= λ id. pure (text_or_empty id)

  abbrev pub execute_now : StellarOperation sdk.World sdk.Consumed sdk.Details → Handler Text
  execute_now (prepared p execute) = world (receipt_id execute)
  execute_now (rejected errors) =
      raise (plain_error (first_or errors (codes "Deposit prepare failed")))

  unfoldable pub deposit : Text → ℤ → Handler PrivacyWorkerSuccess
  deposit key amount = do
    world (registry.refresh (key ∷ []))
    account ← require_account key
    address ← require_address not_registered account.private_address
    client key
    world (sdk.sync_pool key key)
    operation ← world (sdk.deposit key (request key address amount deposit_disclosure))
    tx_id ← execute_now operation
    pure (done (codes "deposit") tx_id key address amount)

  abbrev pub display : Text → ℤ → Text → Text → DisplayMetadata sdk.Float
  display kind amount counterparty address = record {
    kind = kind;
    asset_id = env.asset_id;
    amount_display = sdk.amount_display amount;
    counterparty = counterparty;
    sender_private_address = address;
  }

  abbrev pub submit :
      Text
      → Text
      → DisplayMetadata sdk.Float
      → StellarOperation sdk.World sdk.Consumed sdk.Details
      → Handler Text
  submit failed key shown (prepared p execute) =
      submit_relay_and_finalize sdk env.relay registry key p (receipt_id execute) shown
  submit failed key shown (rejected errors) = raise (plain_error (first_or errors failed))

  abbrev pub both_registered : Text
  both_registered = codes "Both accounts must be registered"

  -- The transfer is prepared for the recipient's address, and submitted.
  abbrev pub send_to : Text → Text → Text → ℤ → Handler Text
  send_to sender_key recipient_key from amount = do
    to ← world (sdk.resolve_recipient sender_key recipient_key)
    operation ← world (sdk.transfer sender_key (request from to amount private_transfer_disclosure))
    submit (codes "Transfer prepare failed") sender_key
        (display (codes "transfer") amount recipient_key from) operation

  unfoldable pub transfer : Text → Text → ℤ → Handler PrivacyWorkerSuccess
  transfer sender_key recipient_key amount = do
    world (registry.refresh (sender_key ∷ recipient_key ∷ []))
    sender ← require_account sender_key
    recipient ← require_account recipient_key
    from ← require_address both_registered sender.private_address
    require_address both_registered recipient.private_address
    client sender_key
    world (sdk.sync_pool sender_key sender_key)
    tx_id ← send_to sender_key recipient_key from amount
    counted ← lift (sent_one sender amount)
    save_account counted
    pure (done (codes "transfer") tx_id sender_key recipient_key amount)

  unfoldable pub withdraw : Text → ℤ → Handler PrivacyWorkerSuccess
  withdraw key amount = do
    world (registry.refresh (key ∷ []))
    account ← require_account key
    address ← require_address not_registered account.private_address
    client key
    world (sdk.sync_pool key key)
    operation ← world (sdk.withdraw key (request address key amount public_withdraw_disclosure))
    tx_id ←
        submit (codes "Withdraw prepare failed") key (display (codes "withdraw") amount key address)
          operation
    pure (done (codes "withdraw") tx_id key key amount)

  unfoldable pub handle : PrivacyWorkerJob → Handler PrivacyWorkerSuccess
  handle (register_job key) = register key
  handle (deposit_job key amount) = lift (big_int_or_throw amount) >>= deposit key
  handle (transfer_job sender recipient amount) =
      lift (big_int_or_throw amount) >>= transfer sender recipient
  handle (withdraw_job key amount) = lift (big_int_or_throw amount) >>= withdraw key

  unfoldable pub failed : Thrown → PrivacyWorkerResult
  failed e = failure (record {
    error = thrown_text e;
    kyt_unauthenticated = includes (thrown_text e) kyt_unauthenticated;
  })

  -- `run`, which always returns.
  abbrev pub settled :
      Result PrivacyWorkerSuccess × Worker sdk.World → PrivacyWorkerResult × Worker sdk.World
  settled (ok a, s) = (success a, s)
  settled (thrown e, s) = (failed e, s)

  unfoldable pub run : PrivacyWorkerJob → Worker sdk.World → PrivacyWorkerResult × Worker sdk.World
  run job s = settled (handle job s)

  -- The handler of a message in the worker: the job runs, and its answer goes back under the id.
  unfoldable pub answer_request :
      PrivacyWorkerRequest → Worker sdk.World → PrivacyWorkerResponse × Worker sdk.World
  answer_request request s = let (answer, t) = run request.job s in (result request.id answer, t)
