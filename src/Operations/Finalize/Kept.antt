-- ===== src/Operations/Finalize/Kept.antt =====
-- privacy/operations/privacy-job-runner.ts: what the submission leaves of the two tables.
use pl_backend_sdk_demo.Prelude.{
  Bool, true, false, List, [], ◌∷◌, Text, if◌then◌else◌, Exec, pure, raise, lift, when,
  for_each-keeps, Keeps, Keeps-bind, Keeps-catch, plain_error, codes, ◌++◌,
}
use pl_backend_sdk_demo.Notes.Spendable.{map_results}
use pl_backend_sdk_demo.Notes.Spent.{SpendableRecord, mark_records_spent, is_nullifiers_spent_error}
use pl_backend_sdk_demo.Notes.Delivery.{DeliveryRecord, group_records_by_owner}
use pl_backend_sdk_demo.Persistence.{HdAccount}
use pl_backend_sdk_demo.Sdk.{Sdk, Prepared, OutputDetails, DisplayMetadata}
use pl_backend_sdk_demo.Relay.{RelayEnv, submit_prepared}
use pl_backend_sdk_demo.Operations.Finalize.{
  Worker, WalletScalar, Registry, on_world, get_client, retire_marked, retire_consumed_records,
  deliver_group, deliver_records, deliver_outputs, deliverable_of, finalize_record,
  submit_and_settle, retire_if_spent, submit_relay_and_finalize,
}

module _ (sdk : Sdk) (env : RelayEnv) (registry : Registry sdk.World)
    (Q : List HdAccount → List WalletScalar → Type 0) where
  abbrev pub Tables : Worker sdk.World → Type 0
  Tables s = Q s.accounts s.scalars

  pub world-Keeps : {A : Type 0} (m : Exec sdk.World A) → Keeps Tables (on_world sdk env registry m)
  world-Keeps m s p = p

  pub Keeps-if :
      {A : Type 0} (b : Bool) (m n : Exec (Worker sdk.World) A)
      → Keeps Tables m
      → Keeps Tables n
      → Keeps Tables (if b then m else n)
  Keeps-if true m n h k = h
  Keeps-if false m n h k = k

  pub client-Keeps : (key : Text) → Keeps Tables (get_client sdk env registry key)
  unfolding get_client
  client-Keeps key =
      Keeps-if (registry.has_client key) (pure tt)
        (raise (plain_error (codes "No privacy client for " ++ key))) (λ s p. p) (λ s p. p)

  retire-Keeps :
      (sender : Text) (consumed : List (SpendableRecord sdk.Consumed))
      → Keeps Tables (retire_marked sdk env registry sender consumed)
  retire-Keeps sender [] = λ s p. p
  retire-Keeps sender (r ∷ consumed) =
      Keeps-bind Tables (get_client sdk env registry sender) _ (client-Keeps sender) (λ _.
        Keeps-bind Tables
          (on_world sdk env registry
            (sdk.mark_records_status sender (r ∷ consumed) (codes "spent")))
          _ (λ s p. p) (λ _ s p. p))

  pub retire_consumed-Keeps :
      (prepared : Prepared sdk.Consumed sdk.Details) (sender : Text)
      → Keeps Tables (retire_consumed_records sdk env registry prepared sender)
  unfolding retire_consumed_records
  retire_consumed-Keeps prepared sender =
      retire-Keeps sender (mark_records_spent prepared.consumed_records)

  group-Keeps :
      (g : Text × List (DeliveryRecord (OutputDetails sdk.Details)))
      → Keeps Tables (deliver_group sdk env registry g)
  unfolding deliver_group
  group-Keeps (owner, records) =
      Keeps-bind Tables (get_client sdk env registry owner) _ (client-Keeps owner) (λ _ s p. p)

  deliver-Keeps :
      (tx_id : Text) (records : List (DeliveryRecord (OutputDetails sdk.Details)))
      → Keeps Tables (deliver_records sdk env registry tx_id records)
  deliver-Keeps tx_id [] = λ s p. p
  deliver-Keeps tx_id (r ∷ records) =
      Keeps-bind Tables (lift (map_results (finalize_record tx_id) (r ∷ records))) _ (λ s p. p)
        (λ finalized.
          for_each-keeps Tables (deliver_group sdk env registry) group-Keeps
            (group_records_by_owner finalized))

  pub outputs-Keeps :
      (prepared : Prepared sdk.Consumed sdk.Details) (sender tx_id : Text)
      → Keeps Tables (deliver_outputs sdk env registry prepared sender tx_id)
  unfolding deliver_outputs
  outputs-Keeps prepared sender tx_id s p =
      deliver-Keeps tx_id (deliverable_of s.accounts sender prepared.output_records) s p

  -- A submission and what follows it touch no table.
  pub submit-Keeps :
      (wallet : Text) (prepared : Prepared sdk.Consumed sdk.Details) (execute : Exec sdk.World Text)
      (display : DisplayMetadata sdk.Float)
      → Keeps Tables (submit_relay_and_finalize sdk env registry wallet prepared execute display)
  unfolding submit_relay_and_finalize
  submit-Keeps wallet prepared execute display =
      Keeps-catch Tables (submit_and_settle sdk env registry wallet prepared execute display)
        (retire_if_spent sdk env registry wallet prepared)
        (Keeps-bind Tables
          (on_world sdk env registry (submit_prepared sdk env wallet prepared execute display)) _
          (λ s p. p)
          (λ tx_id.
            Keeps-bind Tables (deliver_outputs sdk env registry prepared wallet tx_id) _
              (outputs-Keeps prepared wallet tx_id)
              (λ _.
                Keeps-bind Tables (retire_consumed_records sdk env registry prepared wallet) _
                  (retire_consumed-Keeps prepared wallet) (λ _ s p. p))))
        (λ e.
          Keeps-bind Tables
            (when (is_nullifiers_spent_error e)
              (retire_consumed_records sdk env registry prepared wallet))
            _ (when-Keeps (is_nullifiers_spent_error e) _ (retire_consumed-Keeps prepared wallet))
            (λ _ s p. p))
    where
      when-Keeps :
          (b : Bool) (m : Exec (Worker sdk.World) (Unit {0}))
          → Keeps Tables m
          → Keeps Tables (when b m)
      when-Keeps true m k = k
      when-Keeps false m k = λ s p. p
