-- ===== src/Operations/Finalize.antt =====
-- privacy/operations/privacy-job-runner.ts: `submitRelayAndFinalize` and the two methods it calls. The
-- state is the two tables and the world of the SDK.
pub mod Kept
pub mod Items
pub mod Reaches
pub mod Retires
use pl_backend_sdk_demo.Prelude.{
  Bool, true, false, Option, none, some, List, [], ◌∷◌, ◌++◌, map, ℤ, Text, codes, text_eq, Dict,
  filter, find, if◌then◌else◌, Thrown, plain_error, Result, ok, thrown, Exec, pure, raise, lift,
  gets, catch, on_throw, continue, ◌>>=◌, ◌>>◌, when, for_each,
}
use pl_backend_sdk_demo.Persistence.{HdAccount}
use pl_backend_sdk_demo.Notes.Spendable.{map_results}
use pl_backend_sdk_demo.Notes.Spent.{SpendableRecord, mark_records_spent, is_nullifiers_spent_error}
use pl_backend_sdk_demo.Notes.Delivery.{
  DeliveryRecord, DeliveryAccount, amount_from_coin_note, group_records_by_owner,
  is_deliverable_output_record, nonempty, remap_recipient_owners,
}
use pl_backend_sdk_demo.Sdk.{Sdk, Prepared, OutputDetails, DisplayMetadata}
use pl_backend_sdk_demo.Relay.{RelayEnv, submit_prepared}

pub record WalletScalar : Type 0 where
  pub owner : Text
  pub private_address : Text
  pub scalar_hex : Text

pub record Worker (W : Type 0) : Type 0 where
  pub accounts : List HdAccount
  pub scalars : List WalletScalar
  pub world : W

-- `AccountClientRegistry`: which accounts have a client and a key pair, and `refresh`.
pub record Registry (W : Type 0) : Type 0 where
  pub has_client : Text → Bool
  pub has_keypair : Text → Bool
  pub refresh : List Text → Exec W (Unit {0})

-- `rows.filter((row) => row.privateAddress).map(…)`
abbrev pub if_registered : HdAccount → Option Text → List DeliveryAccount → List DeliveryAccount
if_registered a none rows = rows
if_registered a (some address) rows =
    record { public_key = a.public_key; private_address = address } ∷ rows

abbrev pub address_or_none : Option Text → Option Text
address_or_none none = none
address_or_none (some s) = nonempty s

unfoldable pub delivery_accounts : List HdAccount → List DeliveryAccount
delivery_accounts [] = []
delivery_accounts (a ∷ rows) =
    if_registered a (address_or_none a.private_address) (delivery_accounts rows)

module _ {D : Type 0} where
  abbrev pub finalized_with :
      Text → ℤ → DeliveryRecord (OutputDetails D) → DeliveryRecord (OutputDetails D)
  finalized_with tx_id amount r = record r {
    amount = some amount;
    rest = record r.rest { status = some (codes "finalized"); tx_hash = some tx_id };
  }

  unfoldable pub finalize_record :
      Text → DeliveryRecord (OutputDetails D) → Result (DeliveryRecord (OutputDetails D))
  finalize_record tx_id r = elim (amount_from_coin_note r) [
    | thrown e ↦ thrown e
    | ok amount ↦ ok (finalized_with tx_id amount r)
  ]

  unfoldable pub deliverable_of :
      List HdAccount
      → Text
      → List (DeliveryRecord (OutputDetails D))
      → List (DeliveryRecord (OutputDetails D))
  deliverable_of accounts sender outputs =
      filter is_deliverable_output_record
        (remap_recipient_owners outputs (delivery_accounts accounts) sender)

module _ (sdk : Sdk) (env : RelayEnv) (registry : Registry sdk.World) where
  abbrev pub on_world : {A : Type 0} → Exec sdk.World A → Exec (Worker sdk.World) A
  on_world m s = let (r, w) = m s.world in (r, record s { world = w })

  -- `this.clients.getClient(key)`, of which only the throw is seen here: a call names its client.
  unfoldable pub get_client : Text → Exec (Worker sdk.World) (Unit {0})
  get_client key =
      if registry.has_client key
      then pure tt
      else raise (plain_error (codes "No privacy client for " ++ key))

  -- The two calls on the client of the sender.
  abbrev pub retire_records :
      Text → List (SpendableRecord sdk.Consumed) → Exec (Worker sdk.World) (Unit {0})
  retire_records sender consumed = do
    get_client sender
    on_world (sdk.mark_records_status sender consumed (codes "spent"))
    on_world (sdk.prune_consumed sender)

  abbrev pub retire_marked :
      Text → List (SpendableRecord sdk.Consumed) → Exec (Worker sdk.World) (Unit {0})
  retire_marked sender [] = pure tt
  retire_marked sender (r ∷ consumed) = retire_records sender (r ∷ consumed)

  unfoldable pub retire_consumed_records :
      Prepared sdk.Consumed sdk.Details → Text → Exec (Worker sdk.World) (Unit {0})
  retire_consumed_records prepared sender =
      retire_marked sender (mark_records_spent prepared.consumed_records)

  -- One turn of the loop over the groups.
  unfoldable pub deliver_group :
      Text × List (DeliveryRecord (OutputDetails sdk.Details)) → Exec (Worker sdk.World) (Unit {0})
  deliver_group (owner, records) = get_client owner >> on_world (sdk.upsert_records owner records)

  abbrev pub deliver_records :
      Text → List (DeliveryRecord (OutputDetails sdk.Details)) → Exec (Worker sdk.World) (Unit {0})
  deliver_records tx_id [] = pure tt
  deliver_records tx_id (r ∷ deliverable) = do
    finalized ← lift (map_results (finalize_record tx_id) (r ∷ deliverable))
    for_each deliver_group (group_records_by_owner finalized)

  unfoldable pub deliver_outputs :
      Prepared sdk.Consumed sdk.Details → Text → Text → Exec (Worker sdk.World) (Unit {0})
  deliver_outputs prepared sender tx_id = do
    rows ← gets (λ s. s.accounts)
    deliver_records tx_id (deliverable_of rows sender prepared.output_records)

  -- The body of the `try`.
  abbrev pub submit_and_settle :
      Text
      → Prepared sdk.Consumed sdk.Details
      → Exec sdk.World Text
      → DisplayMetadata sdk.Float
      → Exec (Worker sdk.World) Text
  submit_and_settle wallet prepared execute display = do
    tx_id ← on_world (submit_prepared sdk env wallet prepared execute display)
    deliver_outputs prepared wallet tx_id
    retire_consumed_records prepared wallet
    pure tx_id

  abbrev pub retire_if_spent :
      Text → Prepared sdk.Consumed sdk.Details → Thrown → Exec (Worker sdk.World) Text
  retire_if_spent wallet prepared e =
      when (is_nullifiers_spent_error e) (retire_consumed_records prepared wallet) >> raise e

  unfoldable pub submit_relay_and_finalize :
      Text
      → Prepared sdk.Consumed sdk.Details
      → Exec sdk.World Text
      → DisplayMetadata sdk.Float
      → Exec (Worker sdk.World) Text
  submit_relay_and_finalize wallet prepared execute display =
      catch (submit_and_settle wallet prepared execute display) (retire_if_spent wallet prepared)
