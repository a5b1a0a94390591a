-- ===== src/Simulator/Service.antt =====
-- simulator/simulator.service.ts. The services that it calls are `Ports` over a world `W`. A transfer
-- in flight is a `Work`, which is settled by a step of its own. The `Math.random` of a tick are three
-- draws.
pub mod Transfer
pub mod Tick
pub mod Busy
pub mod Kept
pub mod Launch
pub mod Live
pub mod Drain
pub mod Reached
pub mod Waited
pub mod Stats
use pl_backend_sdk_demo.Prelude.{
  ℕ, suc, ◌+◌, Bool, true, false, not, ◌&&◌, ◌||◌, Option, none, some, List, [], ◌∷◌, ◌++◌, ℤ, pos,
  ◌+ℤ◌, Text, codes, text_eq, big_int, big_text, leb, ltb, ◌==◌, if◌then◌else◌, filter, length,
  Thrown, thrown_text, plain_error, Result, ok, thrown, Exec, pure, raise, lift, gets, modify,
  catch, continue, ◌>>=◌, ◌>>◌, when, for_each, and_then,
}
use pl_backend_sdk_demo.Money.{Floats, Amount, number, string, xlm_to_stroops}
use pl_backend_sdk_demo.Persistence.{
  HdAccount, SimulatorRow, SimulatorStatus, running, stopped, LogEntry,
}
use pl_backend_sdk_demo.ProtocolFee.Quote.{ProtocolFeeQuote}
use pl_backend_sdk_demo.ProtocolFee.Spend.{can_cover_instructed_spend, required_fee_stroops}
use pl_backend_sdk_demo.Notes.Spendable.{big_int_or_throw}
use pl_backend_sdk_demo.Simulator.Rules.{
  Draw, assert_simulator_ready, is_missing_private_records_error, random_amount,
  simulator_not_ready_message,
}
use pl_backend_sdk_demo.Simulator.Occupancy.{
  has, max_simulator_concurrency, pick_disjoint_transfer_pair,
}
use pl_backend_sdk_demo.Simulator.Loop
use pl_backend_sdk_demo.Simulator.Loop.{OverlappingLoop, new_loop}

-- `accounts`, `operations`, `fees` and `logs` of the constructor.
pub record Ports (W : Type 0) : Type 0 where
  pub list : Exec W (List HdAccount)
  pub private_balance_stroops : Text → Exec W ℤ
  pub spendable_private_stroops : Text → Text → Exec W ℤ
  pub transfer : HdAccount → HdAccount → ℤ → Exec W Text
  pub prove_worker_count : ℕ
  pub quote_transfer : ℤ → Exec W ProtocolFeeQuote
  pub append : LogEntry → Exec W (Unit {0})

pub record SimulatorEnv (F : Type 0) : Type 0 where
  pub tx_interval_minutes : F
  pub tx_amount_xlm : F

-- A promise of `inFlight`; `id` is its identity.
pub record Work : Type 0 where
  pub id : ℕ
  pub sender : HdAccount
  pub recipient : HdAccount
  pub amount : ℤ

-- `next_id` is the identity of the next promise.
pub record Simulator (F W : Type 0) : Type 0 where
  pub row : Option (SimulatorRow F)
  pub loop : OverlappingLoop
  pub busy : List Text
  pub in_flight : List Work
  pub next_id : ℕ
  pub running : Bool
  pub world : W

-- `busy.add(key)` and `busy.delete(key)`.
unfoldable pub add : Text → List Text → List Text
add k busy = if has busy k then busy else k ∷ busy

unfoldable pub delete : Text → List Text → List Text
delete k busy = filter (λ j. not (text_eq j k)) busy

abbrev pub simulator_id : Text
simulator_id = codes "default"

abbrev pub entry : Text → Text → Option Text → LogEntry
entry kind message failure = record {
  kind = kind;
  message = message;
  from_address = none;
  to_address = none;
  amount_stroops = none;
  tx_id = none;
  error = failure;
}

-- The accounts whose address is registered: `account.registered && account.privateAddress`.
unfoldable pub has_address : Option Text → Bool
has_address none = false
has_address (some []) = false
has_address (some (c ∷ s)) = true

unfoldable pub can_receive : HdAccount → Bool
can_receive a = a.registered && has_address a.private_address

abbrev pub address_of : HdAccount → Text
address_of a = elim a.private_address [ none ↦ [] | some s ↦ s ]

module _ (floats : Floats) (env : SimulatorEnv floats.Float) {W : Type 0} (ports : Ports W) where
  abbrev pub State : Type 0
  State = Simulator floats.Float W

  abbrev pub on_world : {A : Type 0} → Exec W A → Exec State A
  on_world m s = let (r, w) = m s.world in (r, record s { world = w })

  abbrev pub log : Text → Text → Option Text → Exec State (Unit {0})
  log kind message failure = on_world (ports.append (entry kind message failure))

  abbrev pub save : SimulatorRow floats.Float → Exec State (Unit {0})
  save row = modify (λ s. record s { row = some row })

  abbrev pub first_row : SimulatorRow floats.Float
  first_row = record {
    id = simulator_id;
    status = stopped;
    transaction_count = codes "0";
    total_volume_stroops = codes "0";
    interval_minutes = env.tx_interval_minutes;
    min_amount_xlm = floats.show env.tx_amount_xlm;
    max_amount_xlm = floats.show env.tx_amount_xlm;
  }

  abbrev pub row_or_new :
      Option (SimulatorRow floats.Float) → Exec State (SimulatorRow floats.Float)
  row_or_new (some row) = pure row
  row_or_new none = save first_row >> pure first_row

  unfoldable pub get_state : Exec State (SimulatorRow floats.Float)
  get_state s = row_or_new s.row s

  unfoldable pub mark_status : SimulatorStatus → Exec State (Unit {0})
  mark_status status = get_state >>= λ row. save (record row { status = status })

  unfoldable pub stop_timer : Exec State (Unit {0})
  stop_timer = modify (λ s. record s { loop = Loop.stop s.loop; running = false })

  -- The row that `start` saves.
  abbrev pub started : SimulatorRow floats.Float → SimulatorRow floats.Float
  started row = record row {
    status = running;
    interval_minutes = env.tx_interval_minutes;
    min_amount_xlm = floats.show env.tx_amount_xlm;
    max_amount_xlm = floats.show env.tx_amount_xlm;
  }

  abbrev pub first_of : List HdAccount → Exec State HdAccount
  first_of [] = raise (plain_error simulator_not_ready_message)
  first_of (a ∷ r) = pure a

  abbrev pub turn_on : Exec State (Unit {0})
  turn_on = modify (λ s. record s { loop = Loop.start s.loop; running = true })

  unfoldable pub start : Exec State (SimulatorRow floats.Float)
  start = do
    accounts ← on_world ports.list
    let registered = filter (λ a. a.registered) accounts
    first ← first_of registered
    deposited ← on_world (ports.private_balance_stroops first.public_key)
    lift (assert_simulator_ready (length registered) deposited)
    row ← get_state
    save (started row)
    stop_timer
    turn_on
    log (codes "simulator")
        (codes "Started every " ++ floats.show env.tx_interval_minutes ++ codes " min") none
    pure (started row)

  unfoldable pub max_in_flight : ℕ → ℕ
  max_in_flight registered_count =
      max_simulator_concurrency registered_count ports.prove_worker_count
