-- ===== src/Tests/Simulator/Ticks.antt =====
-- A tick of the simulator from phase to phase, and a stop that comes while it waits for a balance.
use pl_backend_sdk_demo.Prelude.{
  ℕ, List, ◌+◌, ◌-◌, ◌≤◌, max, ◌≡◌, refl, none, some, [], ◌∷◌, pos, Text, codes, length, text_eq,
  numbers, ok,
}
use pl_backend_sdk_demo.Money.{xlm_to_stroops}
use pl_backend_sdk_demo.ProtocolFee.Spend.{required_fee_stroops, can_cover_instructed_spend}
use pl_backend_sdk_demo.Persistence.{HdAccount, SimulatorRow, SimulatorStatus}
use pl_backend_sdk_demo.Simulator.Rules.{random_amount, assert_simulator_ready}
use pl_backend_sdk_demo.Simulator.Occupancy.{
  has, max_simulator_concurrency, pick_disjoint_transfer_pair,
}
use pl_backend_sdk_demo.Simulator.Loop
use pl_backend_sdk_demo.Simulator.Loop.{OverlappingLoop, new_loop, fresh, next}
use pl_backend_sdk_demo.Simulator.Service.{Ports, SimulatorEnv, Simulator, State}
use pl_backend_sdk_demo.Simulator.Service.Transfer.{run_transfer}
use pl_backend_sdk_demo.Simulator.Service.Busy.{occurs, one_if}
use pl_backend_sdk_demo.Simulator.Service
use pl_backend_sdk_demo.Simulator.Service.Transfer
use pl_backend_sdk_demo.Simulator.Service.Tick
use pl_backend_sdk_demo.Simulator.Service.Tick.{
  Phase, reading, listing, quoting, checking, tick, on_tick,
}
use pl_backend_sdk_demo.Simulator.Service.Launch.{next_of}
use pl_backend_sdk_demo.Simulator.Service.Live
use pl_backend_sdk_demo.Simulator.Service.Live.{
  Ticking, goes_on, Live, Reached, Step, began, advanced, Steps, stay, more, started, stepped,
}
use pl_backend_sdk_demo.Simulator.Service.Waited.{stop_waits}
use pl_backend_sdk_demo.Simulator.Service.Reached.{transfers_are_disjoint, transfers_are_bounded}
use pl_backend_sdk_demo.Tests.Simulator.{floats, env, alice, bob, ports, first_one, on}

abbrev begun : Live floats env ports
begun = record { sim = on; ticks = goes_on 0 (tick floats env ports on) [] }

-- The tick of the first run goes on from a phase.
abbrev go : Phase floats env ports → Live floats env ports → Live floats env ports
go p s = record {
  sim = (on_tick floats env ports first_one first_one first_one p s.sim).1;
  ticks =
      goes_on 0
        (next_of floats env ports
          (on_tick floats env ports first_one first_one first_one p s.sim).0)
        [];
}

go-Step :
    (p : Phase floats env ports) (s : Live floats env ports)
    → s.ticks ≡ record { run = 0; phase = p } ∷ []
    → Step floats env ports s (go p s)
go-Step p s at = advanced [] [] (record { run = 0; phase = p }) first_one first_one first_one at

begun-Reached : Reached floats env ports begun
unfolding Service.start Service.get_state Service.stop_timer assert_simulator_ready Loop.start
    Loop.stop
begun-Reached = stepped (started (Live.constructed none tt)) (began 0 refl tt)

abbrev running_row : SimulatorRow ℕ
running_row = record {
  id = codes "default";
  status = SimulatorStatus.running;
  transaction_count = codes "0";
  total_volume_stroops = codes "0";
  interval_minutes = 30;
  min_amount_xlm = codes "3";
  max_amount_xlm = codes "3";
}

abbrev everyone : List HdAccount
everyone = alice ∷ bob ∷ []

-- The phases of the tick.
abbrev with_quote : Phase floats env ports
with_quote = quoting (pos 30_000_000) everyone

abbrev asks_alice : Phase floats env ports
asks_alice = checking (pos 30_000_000) (pos 25) everyone alice (bob ∷ []) []

abbrev asks_bob : Phase floats env ports
asks_bob = checking (pos 30_000_000) (pos 25) everyone bob [] (alice ∷ [])

abbrev nearly : Live floats env ports
nearly = go asks_alice (go with_quote (go (listing running_row) (go reading begun)))

nearly-Reached : Reached floats env ports nearly
unfolding Service.start Service.get_state Service.stop_timer Service.max_in_flight
    Service.can_receive Service.has_address tick on_tick Tick.advance Tick.proceed Tick.seek
    Tick.required_fee has max_simulator_concurrency random_amount assert_simulator_ready
    xlm_to_stroops required_fee_stroops can_cover_instructed_spend text_eq numbers Loop.start
    Loop.stop
nearly-Reached =
    stepped
      (stepped
        (stepped (stepped begun-Reached (go-Step reading begun refl))
          (go-Step (listing running_row) (go reading begun) refl))
        (go-Step with_quote (go (listing running_row) (go reading begun)) refl))
      (go-Step asks_alice (go with_quote (go (listing running_row) (go reading begun))) refl)

nearly_asks : nearly.ticks ≡ record { run = 0; phase = asks_bob } ∷ []
unfolding Service.start Service.get_state Service.stop_timer Service.max_in_flight
    Service.can_receive Service.has_address tick on_tick Tick.advance Tick.proceed Tick.seek
    Tick.required_fee has max_simulator_concurrency random_amount assert_simulator_ready
    xlm_to_stroops required_fee_stroops can_cover_instructed_spend text_eq numbers Loop.start
    Loop.stop
nearly_asks = refl

-- The tick launches its transfer.
abbrev one_tick : Live floats env ports
one_tick = go asks_bob nearly

one_tick-Reached : Reached floats env ports one_tick
one_tick-Reached = stepped nearly-Reached (go-Step asks_bob nearly nearly_asks)

transfers_are_disjoint_example :
    occurs (codes "GA") one_tick.sim.in_flight ≡ one_if (has one_tick.sim.busy (codes "GA"))
transfers_are_disjoint_example =
    transfers_are_disjoint floats env ports one_tick-Reached (codes "GA")

transfers_are_bounded_example :
    length one_tick.sim.in_flight ≤ max 1 2 + (length one_tick.sim.loop.runs - 1)
transfers_are_bounded_example = transfers_are_bounded floats env ports one_tick-Reached

-- A stop while the tick waits for a balance, which launches its transfer all the same.
abbrev stopping : Live floats env ports
stopping = record nearly { sim = (Transfer.stop floats env ports nearly.sim).1 }

abbrev launched : Live floats env ports
launched = go asks_bob stopping

abbrev off_row : SimulatorRow ℕ
off_row = record running_row { status = SimulatorStatus.stopped }

abbrev off : State floats env ports
off = record launched.sim { row = some off_row }

stop_finds_none : Transfer.stop floats env ports nearly.sim ≡ (ok [], stopping.sim)
unfolding Service.start Service.get_state Service.stop_timer Service.max_in_flight
    Service.can_receive Service.has_address tick on_tick Tick.advance Tick.proceed Tick.seek
    Tick.required_fee Transfer.stop has max_simulator_concurrency random_amount
    assert_simulator_ready xlm_to_stroops required_fee_stroops can_cover_instructed_spend text_eq
    numbers Loop.start Loop.stop
stop_finds_none = refl

stop_returns : Transfer.stop_rest floats env ports launched.sim ≡ (ok off_row, off)
unfolding Service.start Service.get_state Service.stop_timer Service.max_in_flight Service.add
    Service.can_receive Service.has_address tick on_tick Tick.advance Tick.proceed Tick.seek
    Tick.required_fee Tick.launch Transfer.stop Transfer.stop_rest has pick_disjoint_transfer_pair
    max_simulator_concurrency random_amount assert_simulator_ready xlm_to_stroops
    required_fee_stroops can_cover_instructed_spend text_eq numbers Loop.start Loop.stop
stop_returns = refl

stop_waits_example :
    (length off.in_flight ≤ length nearly.ticks)
    × ((k : Text) → occurs k off.in_flight ≡ one_if (has off.busy k))
    × (off_row.status ≡ SimulatorStatus.stopped)
stop_waits_example =
    stop_waits floats env ports nearly launched [] off off_row nearly-Reached stop_finds_none
      (more stay (go-Step asks_bob stopping nearly_asks)) (λ w m. elim m [ ]) stop_returns
