-- ===== src/Tests/Simulator.antt =====
-- The simulator: its rules, loops, statistics and bootstrap.
mod Ticks
use pl_backend_sdk_demo.Prelude.{
  ℕ, ◌⊎◌, List, ◌+◌, ◌*◌, ◌-◌, ◌≤◌, max, ◌≡◌, refl, true, false, none, some, [], ◌∷◌, pos, Text,
  codes, length, text_eq, numbers, big_int, ok, plain_error, pure, raise, first, if◌then◌else◌,
  arith,
}
use pl_backend_sdk_demo.Money.{Floats, Amount, xlm_to_stroops}
use pl_backend_sdk_demo.ProtocolFee.Spend.{required_fee_stroops, can_cover_instructed_spend}
use pl_backend_sdk_demo.Persistence.{HdAccount, SimulatorRow, SimulatorStatus}
use pl_backend_sdk_demo.Simulator.Rules.{Draw, IsDraw, random_amount, assert_simulator_ready}
use pl_backend_sdk_demo.Simulator.Occupancy.{
  has, max_simulator_concurrency, pick_disjoint_transfer_pair,
}
use pl_backend_sdk_demo.Simulator.Occupancy.Pairs.{IsFreePair, pick-IsFreePair, pick-none}
use pl_backend_sdk_demo.Simulator.Loop
use pl_backend_sdk_demo.Simulator.Interval
use pl_backend_sdk_demo.Simulator.Interval.{IntervalLoop}
use pl_backend_sdk_demo.Simulator.Interval.Exclusive.{ticks, one_tick_at_a_time}
use pl_backend_sdk_demo.Simulator.Loop.{OverlappingLoop, new_loop, fresh, next}
use pl_backend_sdk_demo.Simulator.Loop.OneRun.{ticking_of, only_current_ticks}
use pl_backend_sdk_demo.Simulator.Service.{Ports, SimulatorEnv, Simulator, State}
use pl_backend_sdk_demo.Simulator.Service.Transfer.{run_transfer}
use pl_backend_sdk_demo.Simulator.Service.Busy.{occurs, one_if}
use pl_backend_sdk_demo.Simulator.Service
use pl_backend_sdk_demo.Simulator.Service.Transfer
use pl_backend_sdk_demo.Simulator.Service.Tick
use pl_backend_sdk_demo.Simulator.Service.Tick.{
  Phase, reading, listing, quoting, checking, tick, on_tick,
}
use pl_backend_sdk_demo.Simulator.Service.Launch.{next_of}
use pl_backend_sdk_demo.Simulator.Service.Live
use pl_backend_sdk_demo.Simulator.Service.Live.{
  Ticking, goes_on, Live, Reached, Step, began, advanced, Steps, stay, more, started, stepped,
}
use pl_backend_sdk_demo.Simulator.Service.Waited.{stop_waits}
use pl_backend_sdk_demo.Simulator.Service.Reached.{transfers_are_disjoint, transfers_are_bounded}
use pl_backend_sdk_demo.Simulator.Service.Stats.{RowAfter, run_transfer-RowAfter}
use pl_backend_sdk_demo.Simulator.Bootstrap
use pl_backend_sdk_demo.Simulator.Bootstrap.{BootstrapPorts, Boot, run_simulator_bootstrap}
use pl_backend_sdk_demo.Simulator.Bootstrap.Outcome.{Ended, start-Ended}

-- Digits read as a number, for numbers that are natural.
abbrev digits : ℕ → Text → ℕ
digits n [] = n
digits n (c ∷ s) = digits (n * 10 + (c - 48)) s

abbrev pub floats : Floats
floats = record {
  Float = ℕ;
  parse_float = digits 0;
  is_finite = λ x. true;
  is_negative = λ x. false;
  times = λ x k. x * k;
  round = λ x. x;
  to_big = λ x. some (pos x);
  show = λ x. codes "3";
  times_nonneg = λ x k h. refl;
  round_nonneg = λ x h. refl;
  big_nonneg = λ x z h e. ground arith;
}

abbrev pub env : SimulatorEnv ℕ
env = record { tx_interval_minutes = 30; tx_amount_xlm = 3 }

abbrev account : ℕ → Text → HdAccount
account n key = record {
  hd_index = n;
  public_key = key;
  private_address = some (codes "tpl");
  funded = true;
  registered = true;
  sent_count = codes "0";
  sent_volume_stroops = codes "0";
}

abbrev pub alice : HdAccount
alice = account 0 (codes "GA")

abbrev pub bob : HdAccount
bob = account 1 (codes "GB")

abbrev pub ports : Ports (Unit {0})
ports = record {
  list = pure (alice ∷ bob ∷ []);
  private_balance_stroops = λ k. pure (pos 100_000_000);
  spendable_private_stroops = λ k a. pure (pos 100_000_000);
  transfer = λ s r z. pure (codes "tx");
  prove_worker_count = 2;
  quote_transfer = λ z. pure (record {
    required_fee = codes "25";
    fee_asset = codes "C";
    fee_collector_private_address = codes "tpl1";
    fee_rate = codes "0.1";
  });
  append = λ e. pure tt;
}

-- The first of `n`.
abbrev pub first_one : Draw
first_one n = 0

first_one-IsDraw : IsDraw first_one
first_one-IsDraw n h = h

abbrev pub constructed : State floats env ports
constructed = record {
  row = none;
  loop = new_loop;
  busy = [];
  in_flight = [];
  next_id = 0;
  running = false;
  world = tt;
}

abbrev pub on : State floats env ports
on = (Service.start floats env ports constructed).1

abbrev stopped_row : SimulatorRow ℕ
stopped_row = record {
  id = codes "default";
  status = SimulatorStatus.stopped;
  transaction_count = codes "1";
  total_volume_stroops = codes "30000000";
  interval_minutes = 30;
  min_amount_xlm = codes "3";
  max_amount_xlm = codes "3";
}

abbrev key : HdAccount → Text
key a = a.public_key

alice_to_bob :
    pick_disjoint_transfer_pair key first_one first_one (alice ∷ []) (alice ∷ bob ∷ []) []
    ≡ some (alice, bob)
unfolding pick_disjoint_transfer_pair has text_eq
alice_to_bob = refl

pick-IsFreePair_example : IsFreePair key (alice ∷ []) (alice ∷ bob ∷ []) [] alice bob
pick-IsFreePair_example =
    pick-IsFreePair key (alice ∷ []) (alice ∷ bob ∷ []) [] first_one first_one alice bob
      alice_to_bob

nobody :
    pick_disjoint_transfer_pair key first_one first_one
      (alice ∷ [])
      (alice ∷ bob ∷ [])
      (codes "GB" ∷ [])
    ≡ none
unfolding pick_disjoint_transfer_pair has text_eq
nobody = refl

alice_is_free : has (codes "GB" ∷ []) (codes "GA") ≡ false
unfolding has text_eq
alice_is_free = refl

pick-none_example : alice.public_key ≡ alice.public_key
pick-none_example =
    pick-none key (alice ∷ []) (alice ∷ bob ∷ []) (codes "GB" ∷ []) first_one first_one alice alice
      alice first_one-IsDraw first_one-IsDraw nobody first alice_is_free first alice_is_free first
      alice_is_free

abbrev on_again : OverlappingLoop
on_again = Loop.start (Loop.start new_loop)

only_current_ticks_example :
    (ticking_of on_again.generation on_again.runs ≤ (if on_again.stopped then 0 else 1))
    × ((1 ≡ on_again.generation)
        ⊎ (ticking_of 1 on_again.runs ≤ ticking_of 1 (Loop.start new_loop).runs))
only_current_ticks_example =
    only_current_ticks 1 (next fresh (Loop.started new_loop)) (Loop.started (Loop.start new_loop))

abbrev ready : State floats env ports
ready = record constructed { row = some (record stopped_row { status = SimulatorStatus.running }) }

one_transaction : big_int (codes "1") ≡ some (pos 1)
unfolding numbers
one_transaction = refl

three_lumens : big_int (codes "30000000") ≡ some (pos 30_000_000)
unfolding numbers
three_lumens = refl

run_transfer-RowAfter_example :
    RowAfter floats env ports
      (ok (codes "tx"))
      (record stopped_row { status = SimulatorStatus.running })
      (pos 1)
      (pos 30_000_000)
      (pos 5)
      (run_transfer floats env ports alice bob (pos 5) ready).1.row
run_transfer-RowAfter_example =
    run_transfer-RowAfter floats env ports alice bob (pos 5)
      (record stopped_row { status = SimulatorStatus.running }) (pos 1) (pos 30_000_000) ready refl
      one_transaction three_lumens

abbrev boot_ports : BootstrapPorts ℕ (Unit {0})
boot_ports = record {
  deposit_amount_xlm = Amount.number 10;
  setup = raise (plain_error (codes "no network"));
  private_balance_stroops = λ k. pure (pos 0);
  deposit = λ a z. pure (codes "tx");
  mark_status = λ s. pure tt;
  start = pure tt;
  append = λ e. pure tt;
}

abbrev before_boot : Boot (Unit {0})
before_boot = record { world = tt; errors = [] }

start-Ended_example :
    ((Bootstrap.start floats boot_ports before_boot).0 ≡ ok tt)
    × Ended floats boot_ports
        (run_simulator_bootstrap floats boot_ports tt)
        before_boot
        (Bootstrap.start floats boot_ports before_boot).1
start-Ended_example = start-Ended floats boot_ports before_boot

-- A loop that is started twice.
abbrev restarted : IntervalLoop
restarted = Interval.start (Interval.start Interval.new_loop)

one_tick_at_a_time_example : ticks restarted.runs ≤ 1
one_tick_at_a_time_example = one_tick_at_a_time (
    Interval.next (Interval.next Interval.fresh (Interval.started Interval.new_loop))
      (Interval.started (Interval.start Interval.new_loop)))
