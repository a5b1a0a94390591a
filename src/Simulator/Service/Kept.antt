-- ===== src/Simulator/Service/Kept.antt =====
-- simulator/simulator.service.ts: the parts that touch no transfer in flight and no busy account.
use pl_backend_sdk_demo.Prelude.{
  ℕ, Bool, true, false, Option, none, some, List, [], ◌∷◌, ◌++◌, ℤ, Text, codes, thrown_text, Exec,
  pure, lift, when, ◌>>=◌, Keeps, Keeps-bind, Keeps-catch, filter, length, if◌then◌else◌,
}
use pl_backend_sdk_demo.Money.{Floats}
use pl_backend_sdk_demo.Persistence.{HdAccount, SimulatorRow}
use pl_backend_sdk_demo.ProtocolFee.Spend.{required_fee_stroops}
use pl_backend_sdk_demo.Simulator.Rules.{assert_simulator_ready, is_missing_private_records_error}
use pl_backend_sdk_demo.Simulator.Loop
use pl_backend_sdk_demo.Simulator.Loop.{OverlappingLoop}
use pl_backend_sdk_demo.Simulator.Service.{
  Ports, SimulatorEnv, Work, State, on_world, log, get_state, row_or_new, mark_status, started,
  first_of, stop_timer, start,
}
use pl_backend_sdk_demo.Simulator.Service.Transfer.{
  transferred, run_transfer, add_to_stats, counted,
}
use pl_backend_sdk_demo.Simulator.Service.Tick.{
  required_fee, asked_fee, no_fee, log_if_idle, is_idle,
}

module _ (floats : Floats) (env : SimulatorEnv floats.Float) {W : Type 0} (ports : Ports W)
    (Q : List Text → List Work → ℕ → Bool → OverlappingLoop → Type 0) where
  abbrev pub Quiet : State floats env ports → Type 0
  Quiet s = Q s.busy s.in_flight s.next_id s.running s.loop

  row-Keeps :
      (row : Option (SimulatorRow floats.Float)) → Keeps Quiet (row_or_new floats env ports row)
  row-Keeps none s p = p
  row-Keeps (some row) s p = p

  pub get_state-Keeps : Keeps Quiet (get_state floats env ports)
  unfolding get_state
  get_state-Keeps s p = row-Keeps s.row s p

  pub Keeps-if :
      {A : Type 0} (b : Bool) (m n : Exec (State floats env ports) A)
      → Keeps Quiet m
      → Keeps Quiet n
      → Keeps Quiet (if b then m else n)
  Keeps-if true m n h k = h
  Keeps-if false m n h k = k

  stats-Keeps : (amount : ℤ) → Keeps Quiet (add_to_stats floats env ports amount)
  stats-Keeps amount = Keeps-bind Quiet (get_state floats env ports) _ get_state-Keeps (λ row.
      Keeps-bind Quiet (lift (counted floats env ports row amount)) _ (λ s p. p) (λ next s p. p))

  transferred-Keeps :
      (sender recipient : HdAccount) (amount : ℤ)
      → Keeps Quiet (transferred floats env ports sender recipient amount)
  transferred-Keeps sender recipient amount =
      Keeps-catch Quiet
        (on_world floats env ports (ports.transfer sender recipient amount) >>= λ _. pure true) _
        (Keeps-bind Quiet (on_world floats env ports (ports.transfer sender recipient amount)) _
          (λ s p. p) (λ _ s p. p))
        (λ e.
          Keeps-bind Quiet _ (λ _. pure false)
            (Keeps-if (is_missing_private_records_error e) _ _ (λ s p. p) (λ s p. p)) (λ _ s p. p))

  pub run_transfer-Keeps :
      (sender recipient : HdAccount) (amount : ℤ)
      → Keeps Quiet (run_transfer floats env ports sender recipient amount)
  unfolding run_transfer
  run_transfer-Keeps sender recipient amount =
      Keeps-bind Quiet (transferred floats env ports sender recipient amount) _
        (transferred-Keeps sender recipient amount)
        (λ done.
          Keeps-if done (add_to_stats floats env ports amount) (pure tt) (stats-Keeps amount)
            (λ s p. p))

  Keeps-when :
      (b : Bool) (m : Exec (State floats env ports) (Unit {0}))
      → Keeps Quiet m
      → Keeps Quiet (when b m)
  Keeps-when true m k = k
  Keeps-when false m k = λ s p. p

  pub log_if_idle-Keeps :
      (kind message : Text) (failure : Option Text)
      → Keeps Quiet (log_if_idle floats env ports kind message failure)
  log_if_idle-Keeps kind message failure s p =
      Keeps-when (is_idle floats env ports s) (log floats env ports kind message failure) (λ t q. q)
        s p

  pub required_fee-Keeps : (amount : ℤ) → Keeps Quiet (required_fee floats env ports amount)
  unfolding required_fee
  required_fee-Keeps amount =
      Keeps-catch Quiet (asked_fee floats env ports amount) (no_fee floats env ports)
        (Keeps-bind Quiet (on_world floats env ports (ports.quote_transfer amount))
          (λ quote. lift (required_fee_stroops quote.required_fee) >>= λ fee. pure (some fee))
          (λ s p. p)
          (λ quote.
            Keeps-bind Quiet (lift (required_fee_stroops quote.required_fee))
              (λ fee. pure (some fee)) (λ s p. p) (λ fee s p. p)))
        (λ e.
          Keeps-bind Quiet
            (log_if_idle floats env ports (codes "error") (codes "Protocol fee quote failed")
              (some (thrown_text e)))
            (λ _. pure none)
            (log_if_idle-Keeps (codes "error") (codes "Protocol fee quote failed")
              (some (thrown_text e)))
            (λ _ s p. p))

  pub mark_status-Keeps : (status : _) → Keeps Quiet (mark_status floats env ports status)
  unfolding mark_status
  mark_status-Keeps status =
      Keeps-bind Quiet (get_state floats env ports) _ get_state-Keeps (λ row s p. p)

  first-Keeps : (accounts : List HdAccount) → Keeps Quiet (first_of floats env ports accounts)
  first-Keeps [] s p = p
  first-Keeps (a ∷ accounts) s p = p

  -- A start may turn the simulator on, with a new run of the loop.
  pub start-Keeps :
      ((busy : List Text) (in_flight : List Work) (next_id : ℕ) (running : Bool)
          (loop : OverlappingLoop)
        → Q busy in_flight next_id running loop
        → Q busy in_flight next_id true (Loop.start (Loop.stop loop)))
      → Keeps Quiet (start floats env ports)
  unfolding start stop_timer
  start-Keeps turned_on =
      Keeps-bind Quiet (on_world floats env ports ports.list) _ (λ s p. p)
        λ accounts.
          Keeps-bind Quiet (first_of floats env ports (filter (λ a. a.registered) accounts)) _
            (first-Keeps (filter (λ a. a.registered) accounts))
            λ first.
              Keeps-bind Quiet
                (on_world floats env ports (ports.private_balance_stroops first.public_key)) _
                (λ s p. p)
                λ deposited.
                  Keeps-bind Quiet
                    (lift (
                      assert_simulator_ready (length (filter (λ a. a.registered) accounts))
                        deposited))
                    _ (λ s p. p)
                    λ _. Keeps-bind Quiet (get_state floats env ports) _ get_state-Keeps λ row s p.
                      Keeps-bind Quiet
                        (log floats env ports (codes "simulator")
                          (codes "Started every "
                            ++ floats.show env.tx_interval_minutes
                            ++ codes " min")
                          none)
                        (λ _. pure (started floats env ports row)) (λ t q. q) (λ _ t q. q)
                        (record s {
                          row = some (started floats env ports row);
                          loop = Loop.start (Loop.stop s.loop);
                          running = true;
                        })
                        (turned_on s.busy s.in_flight s.next_id s.running s.loop p)
