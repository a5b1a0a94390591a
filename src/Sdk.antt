-- ===== src/Sdk.antt =====
-- The privacy SDK and its relay as the job runner calls them: packages, which are parameters. A call
-- on the client of an account has the account's public key first.
use pl_backend_sdk_demo.Prelude.{ℕ, Option, List, ℤ, Text, Result, Exec}
use pl_backend_sdk_demo.Jobs.{Disclosure}
use pl_backend_sdk_demo.Notes.Spendable.{CoinNote}
use pl_backend_sdk_demo.Notes.Spent.{SpendableRecord}
use pl_backend_sdk_demo.Notes.Delivery.{DeliveryRecord}

-- What else the sources read or write of an output record.
pub record OutputDetails (D : Type 0) : Type 0 where
  pub deposit_scalar_hex : Option Text
  pub asset : Text
  pub precommitement_hex : Option Text
  pub status : Option Text
  pub tx_hash : Option Text
  pub details : D

-- `StellarPreparedOperation`
pub record Prepared (C D : Type 0) : Type 0 where
  pub consumed_records : List (SpendableRecord C)
  pub output_records : List (DeliveryRecord (OutputDetails D))

-- What `client.deposit`, `client.transfer` and `client.withdraw` return: a prepared operation with its
-- `execute`, which returns the id of the operation, or the messages of its errors.
pub data StellarOperation (W C D : Type 0) : Type 0 where
  prepared : Prepared C D → Exec W (Option Text) → StellarOperation W C D
  rejected : List Text → StellarOperation W C D

pub record OperationRequest : Type 0 where
  pub from : Text
  pub to : Text
  pub asset : Text
  pub amount : ℤ
  pub disclosure : Disclosure

pub record Domain : Type 0 where
  pub network_passphrase : Text
  pub pool_contract : Text
  pub registry_contract : Text

pub record AddressRecord : Type 0 where
  pub owner : Text
  pub nonce : ℕ
  pub private_address : Text
  pub created_at : ℕ

pub record RegistrationStatus : Type 0 where
  pub status : Text
  pub private_address : Option Text

-- `SafeDisplayMetadata`; `F` is a JavaScript number.
pub record DisplayMetadata (F : Type 0) : Type 0 where
  pub kind : Text
  pub asset_id : Text
  pub amount_display : F
  pub counterparty : Text
  pub sender_private_address : Text

pub record OutboxEntry (F : Type 0) : Type 0 where
  pub recipient_private_address : Text
  pub commitment_hex : Text
  pub coin_note : CoinNote
  pub deposit_scalar_hex : Text
  pub asset_id : Text
  pub amount_display : F
  pub precommitement_hex : Option Text

-- What `submitAndAwaitPrivateOperation` is given.
pub record RelayOperation (F : Type 0) : Type 0 where
  pub id : Text
  pub wallet_public_key : Text
  pub submission_path : Text
  pub display : DisplayMetadata F
  pub consumed_record_ids : List Text
  pub output_records : List (OutboxEntry F)
  pub delivery_outbox : List (OutboxEntry F)
  pub relay_package : Text
  pub poll_interval_ms : ℕ
  pub max_attempts : ℕ

pub record Sdk : Type 1 where
  pub World : Type 0
  pub Consumed : Type 0
  pub Details : Type 0
  pub Float : Type 0
  pub Outcome : Type 0
  -- `Number(amount) / 10_000_000`
  pub amount_display : ℤ → Float
  -- `DEFAULT_PRIVATE_ADDRESS_SIGN_NONCE`, `buildPrivateAddressSignMessage`, and the signature in hex
  -- digits by the key pair of an account
  pub default_nonce : ℕ
  pub sign_message : Text → Domain → ℕ → Text
  pub sign : Text → Text → Text
  pub generate_private_address : Text → Domain → Exec World Text
  pub spend_scalar_hex : Text → Domain → Exec World Text
  pub now : World → ℕ
  -- the client of an account
  pub save_address_record : Text → AddressRecord → Exec World (Unit {0})
  pub save_address_scalar : Text → Text → ℕ → Text → Exec World (Unit {0})
  pub set_default_nonce : Text → Text → ℕ → Exec World (Unit {0})
  pub register_private_address : Text → Text → Text → Exec World (Unit {0})
  pub check_registration_status : Text → Text → Exec World RegistrationStatus
  pub save_registry_lookup : Text → Text → Text → Exec World (Unit {0})
  pub sync_pool : Text → Text → Exec World (Unit {0})
  pub resolve_recipient : Text → Text → Exec World Text
  pub deposit : Text → OperationRequest → Exec World (StellarOperation World Consumed Details)
  pub transfer : Text → OperationRequest → Exec World (StellarOperation World Consumed Details)
  pub withdraw : Text → OperationRequest → Exec World (StellarOperation World Consumed Details)
  pub mark_records_status : Text → List (SpendableRecord Consumed) → Text → Exec World (Unit {0})
  pub prune_consumed : Text → Exec World (Unit {0})
  pub upsert_records : Text → List (DeliveryRecord (OutputDetails Details)) → Exec World (Unit {0})
  -- the relay: `resolveRelayOrigin`, and the pair of `submitAndAwaitPrivateOperation`, which may run
  -- the operation's own `execute`, and `throwIfRelayUnsuccessful`
  pub submission_method : Prepared Consumed Details → Text → Text
  pub random_id : World → Text
  pub resolve_origin : Text → Option Text
  pub relay_package : Prepared Consumed Details → Text → Text → Text
  pub submit_and_await : Option Text → RelayOperation Float → Exec World Text → Exec World Outcome
  pub throw_if_unsuccessful : Outcome → Result Text
