-- ===== src/Operations/Finalize/Reaches.antt =====
-- privacy/operations/privacy-job-runner.ts: to which client an output record goes.
use pl_backend_sdk_demo.Prelude.{
  ◌⊎◌, codes, true, ◌≡◌, some, List, ℤ, Text, Dict, lookup, Among, Thrown, Result, ok, thrown,
  for_each,
}
use pl_backend_sdk_demo.Notes.Delivery.{
  DeliveryRecord, amount_from_coin_note, is_deliverable_output_record,
}
use pl_backend_sdk_demo.Sdk.{Sdk, OutputDetails}
use pl_backend_sdk_demo.Relay.{RelayEnv}
use pl_backend_sdk_demo.Operations.Finalize.{Worker, Registry, deliver_group}

-- An output as its recipient `key` gets it: its own fields, the recipient for its owner, an amount, and
-- the mark of a finalized transaction.
abbrev pub received :
    {D : Type 0}
    → Text
    → Text
    → ℤ
    → DeliveryRecord (OutputDetails D)
    → DeliveryRecord (OutputDetails D)
received tx_id key amount r = record r {
  owner = key;
  amount = some amount;
  rest = record r.rest { status = some (codes "finalized"); tx_hash = some tx_id };
}

-- The account `key` is given an output `r`.
abbrev pub GivenTo :
    {D : Type 0}
    → Text
    → Text
    → DeliveryRecord (OutputDetails D)
    → Dict (List (DeliveryRecord (OutputDetails D)))
    → Type 0
GivenTo tx_id key r groups =
    (records : List (DeliveryRecord (OutputDetails _))) × (amount : ℤ) × (lookup key groups
      ≡ some records)
    × (amount_from_coin_note r ≡ ok amount)
    × Among (received tx_id key amount r) records

module _ (sdk : Sdk) (env : RelayEnv) (registry : Registry sdk.World) where
  -- How a delivery goes: nothing is delivered, since an output's amount cannot be read, or each group
  -- is.
  abbrev pub Delivers :
      List (DeliveryRecord (OutputDetails sdk.Details))
      → Text
      → Text
      → DeliveryRecord (OutputDetails sdk.Details)
      → Worker sdk.World
      → Result (Unit {0}) × Worker sdk.World
      → Type 0
  Delivers outputs tx_id key r s outcome =
      ((e : Thrown) × (q : DeliveryRecord (OutputDetails sdk.Details)) × Among q outputs
        × (is_deliverable_output_record q ≡ true)
        × (amount_from_coin_note q ≡ thrown e)
        × (outcome ≡ (thrown e, s)))
      ⊎ ((groups : Dict (List (DeliveryRecord (OutputDetails sdk.Details)))) × (outcome
            ≡ for_each (deliver_group sdk env registry) groups s)
          × GivenTo tx_id key r groups)
