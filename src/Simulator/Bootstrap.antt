-- ===== src/Simulator/Bootstrap.antt =====
-- simulator/simulator-bootstrap.ts and simulator-bootstrap.service.ts. The services are ports over a
-- world `W`, and what the logger was given is a list, the newest first.
pub mod Outcome
use pl_backend_sdk_demo.Prelude.{
  Bool, true, false, Option, none, some, List, [], ◌∷◌, ℤ, Text, codes, if◌then◌else◌, Thrown,
  thrown_text, plain_error, Result, ok, thrown, Exec, pure, raise, lift, modify, catch, continue,
  ◌>>=◌, ◌>>◌, when,
}
use pl_backend_sdk_demo.Money.{Floats, Amount, xlm_to_stroops}
use pl_backend_sdk_demo.Persistence.{HdAccount, SimulatorStatus, starting, LogEntry}
use pl_backend_sdk_demo.Simulator.Rules.{should_deposit_if_empty}
use pl_backend_sdk_demo.Simulator.Service.{entry}

pub record BootstrapPorts (F W : Type 0) : Type 0 where
  pub deposit_amount_xlm : Amount F
  pub setup : Exec W (List HdAccount)
  pub private_balance_stroops : Text → Exec W ℤ
  pub deposit : HdAccount → ℤ → Exec W Text
  pub mark_status : SimulatorStatus → Exec W (Unit {0})
  pub start : Exec W (Unit {0})
  pub append : LogEntry → Exec W (Unit {0})

pub record Boot (W : Type 0) : Type 0 where
  pub world : W
  pub errors : List Text

module _ (floats : Floats) {W : Type 0} (ports : BootstrapPorts floats.Float W) where
  abbrev pub first_account : List HdAccount → Exec W HdAccount
  first_account [] = raise (plain_error (codes "Setup did not produce any accounts."))
  first_account (a ∷ accounts) = pure a

  abbrev pub make_deposit : HdAccount → Exec W (Unit {0})
  make_deposit a = do
    stroops ← lift (xlm_to_stroops floats ports.deposit_amount_xlm)
    ports.deposit a stroops
    pure tt

  unfoldable pub run_simulator_bootstrap : Exec W (Unit {0})
  run_simulator_bootstrap = do
    ports.mark_status starting
    ports.append (entry (codes "simulator") (codes "Bootstrapping accounts") none)
    accounts ← ports.setup
    a ← first_account accounts
    balance ← ports.private_balance_stroops a.public_key
    when (should_deposit_if_empty balance) (make_deposit a)
    ports.start

  abbrev pub on_world : {A : Type 0} → Exec W A → Exec (Boot W) A
  on_world m s = let (r, w) = m s.world in (r, record s { world = w })

  abbrev pub log_error : Text → Exec (Boot W) (Unit {0})
  log_error message = modify (λ s. record s { errors = message ∷ s.errors })

  -- What the outer handler does under its own `try`.
  abbrev pub mark_failed : Text → Exec W (Unit {0})
  mark_failed message =
      ports.mark_status SimulatorStatus.error
      >> ports.append (entry (codes "error") (codes "Bootstrap failed") (some message))

  abbrev pub failed : Thrown → Exec (Boot W) (Unit {0})
  failed e =
      log_error (thrown_text e)
      >> catch (on_world (mark_failed (thrown_text e))) (λ x. log_error (thrown_text x))

  -- `start` of the service.
  unfoldable pub start : Exec (Boot W) (Unit {0})
  start = catch (on_world run_simulator_bootstrap) failed
