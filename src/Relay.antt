-- ===== src/Relay.antt =====
-- relay/relay-submit.service.ts and, in Store, relay/pending-operation.store.ts. The SDK is a
-- parameter; `submitDirect` is the operation's own `execute`.
pub mod Store
use pl_backend_sdk_demo.Prelude.{
  Bool, true, false, ◌&&◌, Option, none, some, List, [], ◌∷◌, map, Text, codes, text_eq, filter,
  if◌then◌else◌, Exec, pure, lift, gets, ◌>>=◌,
}
use pl_backend_sdk_demo.Notes.Spendable.{CoinNote, is_some}
use pl_backend_sdk_demo.Notes.Delivery.{DeliveryRecord, truthy, nonempty}
use pl_backend_sdk_demo.Sdk.{
  Sdk, Prepared, OutputDetails, DisplayMetadata, OutboxEntry, RelayOperation,
}

-- What the relay reads of the environment; the nonce as its text.
pub record RelayEnv : Type 0 where
  pub zk_config_nonce : Text
  pub relayer_origin : Text
  pub pool_contract : Text

abbrev pub text_or_empty : Option Text → Text
text_or_empty none = []
text_or_empty (some s) = s

abbrev pub note_or_blank : Option CoinNote → CoinNote
note_or_blank none = record { value = none }
note_or_blank (some c) = c

-- `x ? { x } : {}`
abbrev pub if_truthy : Option Text → Option Text
if_truthy none = none
if_truthy (some s) = nonempty s

module _ {D : Type 0} where
  unfoldable pub goes_out : DeliveryRecord (OutputDetails D) → Bool
  goes_out r =
      truthy r.private_address
      && truthy r.commitment_hex
      && is_some r.coin_note
      && truthy r.rest.deposit_scalar_hex

module _ {D F : Type 0} where
  unfoldable pub outbox_entry : F → DeliveryRecord (OutputDetails D) → OutboxEntry F
  outbox_entry amount_display r = record {
    recipient_private_address = text_or_empty r.private_address;
    commitment_hex = text_or_empty r.commitment_hex;
    coin_note = note_or_blank r.coin_note;
    deposit_scalar_hex = text_or_empty r.rest.deposit_scalar_hex;
    asset_id = r.rest.asset;
    amount_display = amount_display;
    precommitement_hex = if_truthy r.rest.precommitement_hex;
  }

  unfoldable pub outbox : F → List (DeliveryRecord (OutputDetails D)) → List (OutboxEntry F)
  outbox amount_display records = map (outbox_entry amount_display) (filter goes_out records)

module _ (sdk : Sdk) (env : RelayEnv) where
  abbrev pub relay_operation :
      Text
      → Text
      → Text
      → Prepared sdk.Consumed sdk.Details
      → DisplayMetadata sdk.Float
      → RelayOperation sdk.Float
  relay_operation method id wallet_public_key prepared display =
      let out = outbox display.amount_display prepared.output_records in
      record {
        id = id;
        wallet_public_key = wallet_public_key;
        submission_path = method;
        display = display;
        consumed_record_ids = map (λ r. r.id) prepared.consumed_records;
        output_records = out;
        delivery_outbox = out;
        relay_package = sdk.relay_package prepared env.pool_contract env.zk_config_nonce;
        poll_interval_ms = 250;
        max_attempts = 40;
      }

  abbrev pub through_relay :
      Text
      → Text
      → Prepared sdk.Consumed sdk.Details
      → Exec sdk.World Text
      → DisplayMetadata sdk.Float
      → Exec sdk.World Text
  through_relay method wallet_public_key prepared execute display = do
    id ← gets sdk.random_id
    outcome ←
        sdk.submit_and_await (sdk.resolve_origin env.relayer_origin)
          (relay_operation method id wallet_public_key prepared display) execute
    lift (sdk.throw_if_unsuccessful outcome)

  unfoldable pub submit_prepared :
      Text
      → Prepared sdk.Consumed sdk.Details
      → Exec sdk.World Text
      → DisplayMetadata sdk.Float
      → Exec sdk.World Text
  submit_prepared wallet_public_key prepared execute display =
      let method = sdk.submission_method prepared env.zk_config_nonce in
      elim (text_eq method (codes "direct")) [
        | true ↦ execute
        | false ↦ through_relay method wallet_public_key prepared execute display
      ]
