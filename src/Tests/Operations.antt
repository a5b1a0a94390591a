-- ===== src/Tests/Operations.antt =====
-- Jobs, their runner and the service, over an SDK that does nothing but succeed.
use pl_backend_sdk_demo.Prelude.{
  ℕ, ◌≡◌, refl, true, false, Option, none, some, [], ◌∷◌, ℤ, pos, Text, codes, text_eq, numbers,
  trim, trim_start, trim_end, is_white, Result, ok, Exec, pure, continue, lookup, insert, thrown,
  plain_error,
}
use pl_backend_sdk_demo.Jobs.{PrivacyWorkerJob, transfer_job, PrivacyWorkerSuccess, success}
use pl_backend_sdk_demo.Persistence.{HdAccount}
use pl_backend_sdk_demo.Accounts.{save_row}
use pl_backend_sdk_demo.Notes.Spendable.{value_or, map_results}
use pl_backend_sdk_demo.Notes.Spent.{mark_records_spent}
use pl_backend_sdk_demo.Notes.Delivery.{
  DeliveryRecord, DeliveryAccount, is_deliverable_output_record,
}
use pl_backend_sdk_demo.Sdk.{
  DisplayMetadata, Sdk, OutputDetails, Prepared, StellarOperation, prepared,
}
use pl_backend_sdk_demo.Relay.{RelayEnv}
use pl_backend_sdk_demo.ProtocolFee.Spend.{required_fee_stroops}
use pl_backend_sdk_demo.Operations.Finalize.{
  submit_relay_and_finalize, Worker, Registry, delivery_accounts, deliver_outputs,
}
use pl_backend_sdk_demo.Operations.Finalize
use pl_backend_sdk_demo.Relay
use pl_backend_sdk_demo.Notes.Delivery
use pl_backend_sdk_demo.Operations.Finalize.Retires.{RetiresUnless, submit-RetiresUnless}
use pl_backend_sdk_demo.Operations.Runner
use pl_backend_sdk_demo.Operations.Runner.{RunnerEnv, handle, find_by_key}
use pl_backend_sdk_demo.Operations.Runner.Recorded.{Recorded, run-Recorded}
use pl_backend_sdk_demo.ProtocolFee.Quote.{ProtocolFeeQuote}
use pl_backend_sdk_demo.Proving
use pl_backend_sdk_demo.Operations.Service.{
  OperationPorts, deposit_with, deposit_stroops, run_job, transfer_stroops,
}
use pl_backend_sdk_demo.Operations.Service.Surfaces.{in_worker, surfaced, run_job-surfaced}
use pl_backend_sdk_demo.Operations.Service
use pl_backend_sdk_demo.Operations.Service.CountsOne.{
  OverWorker, ShowsOne, transfer_stroops-ShowsOne,
}
use pl_backend_sdk_demo.Operations.Service.LeavesNote.{FeeChecked, deposit_stroops-FeeChecked}

abbrev nothing : Exec ℕ (Unit {0})
nothing = pure tt

abbrev details : OutputDetails (Unit {0})
details = record {
  deposit_scalar_hex = none;
  asset = codes "XLM";
  precommitement_hex = none;
  status = none;
  tx_hash = none;
  details = tt;
}

-- An output at the address of the second account.
abbrev output : DeliveryRecord (OutputDetails (Unit {0}))
output = record {
  owner = codes "GA";
  private_address = some (codes "stpl1b");
  commitment_hex = some (codes "c0");
  coin_note = some (record { value = some (codes "5") });
  amount = none;
  rest = details;
}

abbrev plan : Prepared (Unit {0}) (Unit {0})
plan = record { consumed_records = []; output_records = output ∷ [] }

abbrev ready_operation : StellarOperation ℕ (Unit {0}) (Unit {0})
ready_operation = prepared plan (pure (some (codes "tx1")))

-- The world counts the calls that upsert records.
abbrev sdk : Sdk
sdk = record {
  World = ℕ;
  Consumed = Unit {0};
  Details = Unit {0};
  Float = ℤ;
  Outcome = Text;
  amount_display = λ z. z;
  default_nonce = 0;
  sign_message = λ key domain nonce. key;
  sign = λ key m. m;
  generate_private_address = λ signature domain. pure signature;
  spend_scalar_hex = λ signature domain. pure signature;
  now = λ w. 0;
  save_address_record = λ key r. nothing;
  save_address_scalar = λ key owner nonce scalar. nothing;
  set_default_nonce = λ key owner nonce. nothing;
  register_private_address = λ key wallet address. nothing;
  check_registration_status =
      λ key wallet. pure (record { status = codes "registered"; private_address = none });
  save_registry_lookup = λ key owner address. nothing;
  sync_pool = λ key wallet. nothing;
  resolve_recipient = λ key recipient. pure (codes "stpl1b");
  deposit = λ key r. pure ready_operation;
  transfer = λ key r. pure ready_operation;
  withdraw = λ key r. pure ready_operation;
  mark_records_status = λ key records status. nothing;
  prune_consumed = λ key. nothing;
  upsert_records = λ key records w. (ok tt, ℕ.suc w);
  submission_method = λ p nonce. codes "direct";
  random_id = λ w. [];
  resolve_origin = λ origin. none;
  relay_package = λ p pool nonce. [];
  submit_and_await = λ origin operation execute. pure [];
  throw_if_unsuccessful = λ outcome. ok outcome;
}

abbrev relay_env : RelayEnv
relay_env = record { zk_config_nonce = codes "3"; relayer_origin = []; pool_contract = [] }

abbrev runner_env : RunnerEnv
runner_env = record {
  relay = relay_env;
  domain = record { network_passphrase = []; pool_contract = []; registry_contract = [] };
  asset_id = codes "XLM";
}

abbrev registry : Registry ℕ
registry = record { has_client = λ key. true; has_keypair = λ key. true; refresh = λ keys. nothing }

abbrev account : ℕ → Text → Text → Text → Text → HdAccount
account i key address sent volume = record {
  hd_index = i;
  public_key = key;
  private_address = some address;
  funded = true;
  registered = true;
  sent_count = sent;
  sent_volume_stroops = volume;
}

abbrev sender : HdAccount
sender = account 0 (codes "GA") (codes "stpl1a") (codes "2") (codes "30")

abbrev recipient : HdAccount
recipient = account 1 (codes "GB") (codes "stpl1b") (codes "0") (codes "0")

abbrev worker : Worker ℕ
worker = record { accounts = sender ∷ recipient ∷ []; scalars = []; world = 0 }

abbrev job : PrivacyWorkerJob
job = transfer_job (codes "GA") (codes "GB") (codes "5")

abbrev answer : PrivacyWorkerSuccess
answer = record {
  kind = codes "transfer";
  tx_id = some (codes "tx1");
  private_address = none;
  from_address = some (codes "GA");
  to_address = some (codes "GB");
  amount_stroops = some (codes "5");
}

-- The job sends the record to the recipient's client and counts the transfer.
transfer_runs : Runner.run sdk runner_env registry job worker ≡ (
  success answer,
  record worker {
    accounts = account 0 (codes "GA") (codes "stpl1a") (codes "3") (codes "35") ∷ recipient ∷ [];
    world = 1;
  },
)
unfolding Runner.run Runner.handle Finalize.submit_relay_and_finalize Finalize.get_client
    Finalize.deliver_outputs Finalize.deliverable_of Finalize.delivery_accounts
    Finalize.finalize_record Finalize.deliver_group Finalize.retire_consumed_records
    Relay.submit_prepared mark_records_spent map_results Delivery.remap_recipient_owners
    Delivery.remap Delivery.owner_of Delivery.is_deliverable_output_record
    Delivery.amount_from_coin_note value_or Delivery.group_records_by_owner Delivery.group_from
    Delivery.push lookup insert Runner.transfer Runner.require_account Runner.sent_one numbers
    text_eq trim trim_start trim_end is_white save_row
transfer_runs = refl

run-Recorded_example :
    Recorded job worker.accounts
      (Runner.run sdk runner_env registry job worker).0
      (Runner.run sdk runner_env registry job worker).1.accounts
run-Recorded_example = run-Recorded sdk runner_env registry job worker

-- The service over one worker, whose quote for a deposit of 10 has a fee of 3.
abbrev three : ProtocolFeeQuote
three = record {
  required_fee = codes "3";
  fee_asset = codes "XLM";
  fee_collector_private_address = [];
  fee_rate = [];
}

abbrev ports : OperationPorts (Worker ℕ)
ports = record {
  run_exclusive = λ keys m. m;
  run_worker = Proving.run true (in_worker sdk runner_env registry);
  worker_count = 1;
  append = λ e. pure tt;
  quote_or_undefined = λ kind amount. pure (some three);
  find_account = λ key. pure sender;
  private_balance = λ owner. pure (pos 0);
  spendable_private = λ owner address. pure (pos 0);
}

run_job-surfaced_example :
    run_job ports (codes "GA" ∷ codes "GB" ∷ []) job worker
    ≡ surfaced sdk runner_env registry (handle sdk runner_env registry job worker)
run_job-surfaced_example =
    run_job-surfaced sdk runner_env registry ports (codes "GA" ∷ codes "GB" ∷ []) job worker
      (λ m. refl) refl

deposit_stroops-FeeChecked_example :
    (checked : Result ℤ) × FeeChecked (pos 10) (some three) checked
    × (deposit_stroops ports sender (pos 10) worker
        ≡ continue (deposit_with ports sender (pos 10)) (checked, worker))
deposit_stroops-FeeChecked_example =
    deposit_stroops-FeeChecked (Worker ℕ) ports sender (pos 10) worker worker (some three) refl refl

-- A plan that consumes a record, over a client of which nothing is remembered.
abbrev spends : Prepared (Unit {0}) (Unit {0})
spends = record plan {
  consumed_records = record { id = codes "r"; consumed = false; status = none; rest = tt } ∷ [];
}

-- A world that a pruning client has set to 7.
abbrev pruning_sdk : Sdk
pruning_sdk = record sdk { prune_consumed = λ key w. (ok tt, 7) }

abbrev shown_transfer : DisplayMetadata ℤ
shown_transfer = record {
  kind = codes "transfer";
  asset_id = codes "XLM";
  amount_display = pos 5;
  counterparty = codes "GB";
  sender_private_address = codes "stpl1a";
}

submit-RetiresUnless_example :
    RetiresUnless
      (λ w. w ≡ 7)
      (submit_relay_and_finalize pruning_sdk relay_env registry
        (codes "GA")
        spends
        (pure (codes "tx1"))
        shown_transfer
        worker)
submit-RetiresUnless_example =
    submit-RetiresUnless pruning_sdk relay_env registry (codes "GA") spends (pure (codes "tx1"))
      shown_transfer worker (record { id = codes "r"; consumed = false; status = none; rest = tt })
      [] (λ w. Unit {0}) (λ w. w ≡ 7) refl refl
      (record { marks = λ w. (w, refl, tt); prunes = λ w m. (7, refl, refl) })

-- The same service, which finds an account in the worker's table.
abbrev found_in : Option HdAccount → Result HdAccount
found_in none = thrown (plain_error (codes "Could not find any entity"))
found_in (some a) = ok a

abbrev table_ports : OperationPorts (Worker ℕ)
table_ports = record ports { find_account = λ key s. (found_in (find_by_key key s.accounts), s) }

table_ports-OverWorker : OverWorker sdk runner_env registry table_ports
table_ports-OverWorker = record {
  exclusive = λ keys m s. refl;
  worker = λ job s. refl;
  finds = λ key a s e. rw e refl;
  quotes = λ kind amount s. refl;
  logs = λ e s. refl;
}

abbrev sender_shown : HdAccount
sender_shown = account 0 (codes "GA") (codes "stpl1a") (codes "3") (codes "35")

abbrev after_transfer : Worker ℕ
after_transfer = record worker { accounts = sender_shown ∷ recipient ∷ []; world = 1 }

service_transfers :
    transfer_stroops table_ports sender recipient (pos 5) worker
    ≡ (ok (sender_shown, codes "tx1"), after_transfer)
unfolding Service.transfer_stroops Service.run_job Service.quoted_fee_stroops required_fee_stroops
    Proving.run Proving.answer_of Runner.run Runner.handle Finalize.submit_relay_and_finalize
    Finalize.get_client Finalize.deliver_outputs Finalize.deliverable_of Finalize.delivery_accounts
    Finalize.finalize_record Finalize.deliver_group Finalize.retire_consumed_records
    Relay.submit_prepared mark_records_spent map_results Delivery.remap_recipient_owners
    Delivery.remap Delivery.owner_of Delivery.is_deliverable_output_record
    Delivery.amount_from_coin_note value_or Delivery.group_records_by_owner Delivery.group_from
    Delivery.push lookup insert Runner.transfer Runner.require_account Runner.sent_one numbers
    text_eq trim trim_start trim_end is_white save_row
service_transfers = refl

transfer_stroops-ShowsOne_example : ShowsOne worker.accounts sender (pos 5) sender_shown
transfer_stroops-ShowsOne_example =
    transfer_stroops-ShowsOne sdk runner_env registry table_ports sender recipient sender_shown
      (pos 5) worker after_transfer (codes "tx1") table_ports-OverWorker (((λ e. cc), tt), (tt, tt))
      service_transfers
