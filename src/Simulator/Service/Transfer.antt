-- ===== src/Simulator/Service/Transfer.antt =====
-- simulator/simulator.service.ts: `runTransfer`, the clean-up after it, and `stop`, held at
-- its `await` of the transfers in flight.
use pl_backend_sdk_demo.Prelude.{
  Bool, true, false, not, none, some, ℤ, pos, ◌+ℤ◌, codes, big_text, ◌==◌, if◌then◌else◌, filter,
  thrown_text, Result, ok, thrown, Exec, pure, lift, gets, catch, ◌>>=◌, ◌>>◌, List,
}
use pl_backend_sdk_demo.Money.{Floats}
use pl_backend_sdk_demo.Persistence.{HdAccount, SimulatorRow, stopped}
use pl_backend_sdk_demo.Notes.Spendable.{big_int_or_throw}
use pl_backend_sdk_demo.Simulator.Rules.{is_missing_private_records_error}
use pl_backend_sdk_demo.Simulator.Service.{
  Ports, SimulatorEnv, Work, State, delete, on_world, log, save, get_state, stop_timer,
}

module _ (floats : Floats) (env : SimulatorEnv floats.Float) {W : Type 0} (ports : Ports W) where
  -- The row with one more transfer.
  unfoldable pub counted : SimulatorRow floats.Float → ℤ → Result (SimulatorRow floats.Float)
  counted row amount = elim (big_int_or_throw row.transaction_count) [
    | thrown e ↦ thrown e
    | ok count ↦ elim (big_int_or_throw row.total_volume_stroops) [
      | thrown e ↦ thrown e
      | ok volume ↦ ok (record row {
        transaction_count = big_text (count +ℤ pos 1);
        total_volume_stroops = big_text (volume +ℤ amount);
      })
    ]
  ]

  -- The section under `statsMutex`.
  abbrev pub add_to_stats : ℤ → Exec (State floats env ports) (Unit {0})
  add_to_stats amount = do
    row ← get_state floats env ports
    next ← lift (counted row amount)
    save floats env ports next

  -- The transfer under `try`; a failure is logged, and `false` says that the method returns there.
  abbrev pub transferred : HdAccount → HdAccount → ℤ → Exec (State floats env ports) Bool
  transferred sender recipient amount =
      catch (on_world floats env ports (ports.transfer sender recipient amount) >>= λ _. pure true)
        (λ e.
          (if is_missing_private_records_error e
            then log floats env ports (codes "simulator")
                (codes "No spendable notes for this amount; skipping tick") none
            else log floats env ports (codes "error") (codes "Simulator transfer failed")
                (some (thrown_text e)))
          >>= λ _. pure false)

  unfoldable pub run_transfer : HdAccount → HdAccount → ℤ → Exec (State floats env ports) (Unit {0})
  run_transfer sender recipient amount =
      transferred sender recipient amount >>= λ done. if done then add_to_stats amount else pure tt

  -- The `finally` of a transfer.
  unfoldable pub finish : Work → State floats env ports → State floats env ports
  finish w s = record s {
    busy = delete w.recipient.public_key (delete w.sender.public_key s.busy);
    in_flight = filter (λ v. not (v.id == w.id)) s.in_flight;
  }

  abbrev pub finally : {S A : Type 0} → (S → S) → Result A × S → Result A × S
  finally f (r, s) = (r, f s)

  -- A transfer in flight runs to its end.
  unfoldable pub settle : Work → Exec (State floats env ports) (Unit {0})
  settle w s = finally (finish w) (run_transfer w.sender w.recipient w.amount s)

  -- `stop` to its `await`: the promises that it waits for. One that rejects rejects the stop.
  unfoldable pub stop : Exec (State floats env ports) (List Work)
  stop = stop_timer floats env ports >>= λ _. gets (λ s. s.in_flight)

  -- The rest of `stop`, once those have ended.
  unfoldable pub stop_rest : Exec (State floats env ports) (SimulatorRow floats.Float)
  stop_rest = do
    row ← get_state floats env ports
    let off = record row { status = stopped }
    save floats env ports off
    log floats env ports (codes "simulator") (codes "Stopped") none
    pure off
