-- ===== src/Simulator/Service/Tick.antt =====
-- simulator/simulator.service.ts: `tick`. A tick is held at an `await`, its phase, and what comes after
-- is one step, to the next `await`; between its steps anything else may happen.
use pl_backend_sdk_demo.Prelude.{
  ℕ, suc, Bool, not, ◌||◌, ◌++◌, Option, none, some, List, [], ◌∷◌, ℤ, Text, codes, leb, ◌==◌,
  if◌then◌else◌, filter, length, Thrown, thrown_text, Exec, pure, lift, gets, modify, catch, ◌>>=◌,
  when,
}
use pl_backend_sdk_demo.Money.{Floats, string, xlm_to_stroops}
use pl_backend_sdk_demo.Persistence.{HdAccount, SimulatorRow}
use pl_backend_sdk_demo.ProtocolFee.Spend.{can_cover_instructed_spend, required_fee_stroops}
use pl_backend_sdk_demo.Simulator.Rules.{Draw, random_amount}
use pl_backend_sdk_demo.Simulator.Occupancy.{has, pick_disjoint_transfer_pair}
use pl_backend_sdk_demo.Simulator.Service.{
  Ports, SimulatorEnv, State, add, address_of, can_receive, has_address, on_world, log, get_state,
  max_in_flight,
}

-- At which `await` a tick is: of the row, of the accounts, of the quote for an amount, or of the balance
-- of an account, with the accounts that come after it and those found to have enough.
pub data TickPhase (F : Type 0) : Type 0 where
  reading : TickPhase F
  listing : SimulatorRow F → TickPhase F
  quoting : ℤ → List HdAccount → TickPhase F
  checking : ℤ → ℤ → List HdAccount → HdAccount → List HdAccount → List HdAccount → TickPhase F

module _ (floats : Floats) (env : SimulatorEnv floats.Float) {W : Type 0} (ports : Ports W) where
  abbrev pub Phase : Type 0
  Phase = TickPhase floats.Float

  abbrev pub is_idle : State floats env ports → Bool
  is_idle s = length s.in_flight == 0

  abbrev pub log_if_idle : Text → Text → Option Text → Exec (State floats env ports) (Unit {0})
  log_if_idle kind message failure =
      gets is_idle >>= λ idle. when idle (log floats env ports kind message failure)

  abbrev pub asked_fee : ℤ → Exec (State floats env ports) (Option ℤ)
  asked_fee amount = on_world floats env ports (ports.quote_transfer amount) >>= λ quote.
      lift (required_fee_stroops quote.required_fee) >>= λ fee. pure (some fee)

  abbrev pub no_fee : Thrown → Exec (State floats env ports) (Option ℤ)
  no_fee e =
      log_if_idle (codes "error") (codes "Protocol fee quote failed") (some (thrown_text e))
      >>= λ _. pure none

  -- The fee of the amount; where there is none, the failure has been logged.
  unfoldable pub required_fee : ℤ → Exec (State floats env ports) (Option ℤ)
  required_fee amount = catch (asked_fee amount) no_fee

  -- The accounts from the first on of which the loop asks a balance.
  unfoldable pub seek : List Text → List HdAccount → List HdAccount
  seek busy [] = []
  seek busy (a ∷ accounts) =
      if has busy a.public_key || not (has_address a.private_address)
      then seek busy accounts
      else a ∷ accounts

  -- The last lines: the accounts are taken and the transfer starts.
  unfoldable pub launch :
      HdAccount → HdAccount → ℤ → State floats env ports → State floats env ports
  launch sender recipient amount s = record s {
    busy = add recipient.public_key (add sender.public_key s.busy);
    in_flight =
        record { id = s.next_id; sender = sender; recipient = recipient; amount = amount }
        ∷ s.in_flight;
    next_id = suc s.next_id;
  }

  abbrev pub launch_pair :
      Option (HdAccount × HdAccount) → ℤ → Exec (State floats env ports) (Unit {0})
  launch_pair none amount =
      log_if_idle (codes "simulator") (codes "No pair with enough private balance; skipping tick")
        none
  launch_pair (some (sender, recipient)) amount = modify (launch sender recipient amount)

  abbrev pub pick_and_launch :
      Draw → Draw → List HdAccount → List HdAccount → ℤ → Exec (State floats env ports) (Unit {0})
  pick_and_launch draw_sender draw_recipient candidates registered amount =
      gets (λ s. s.busy) >>= λ busy.
      launch_pair
        (pick_disjoint_transfer_pair (λ a. a.public_key) draw_sender draw_recipient candidates
          registered busy)
        amount

  -- The loop over the accounts goes on to the next balance, or to the end of the tick.
  abbrev pub asked :
      Draw
      → Draw
      → ℤ
      → ℤ
      → List HdAccount
      → List HdAccount
      → List HdAccount
      → Exec (State floats env ports) (Option Phase)
  asked draw_sender draw_recipient amount fee registered funded [] =
      pick_and_launch draw_sender draw_recipient funded registered amount >>= λ _. pure none
  asked draw_sender draw_recipient amount fee registered funded (a ∷ todo) =
      pure (some (checking amount fee registered a todo funded))

  unfoldable pub proceed :
      Draw
      → Draw
      → ℤ
      → ℤ
      → List HdAccount
      → List HdAccount
      → List HdAccount
      → Exec (State floats env ports) (Option Phase)
  proceed draw_sender draw_recipient amount fee registered funded todo =
      gets (λ s. seek s.busy todo) >>= asked draw_sender draw_recipient amount fee registered funded

  abbrev pub with_fee :
      Draw → Draw → ℤ → List HdAccount → Option ℤ → Exec (State floats env ports) (Option Phase)
  with_fee draw_sender draw_recipient amount registered none = pure none
  with_fee draw_sender draw_recipient amount registered (some fee) =
      proceed draw_sender draw_recipient amount fee registered [] registered

  abbrev pub has_no_place : ℕ → State floats env ports → Bool
  has_no_place n s = leb (max_in_flight floats env ports n) (length s.in_flight)

  -- What follows the check of the places, to the quote.
  abbrev pub with_place :
      Draw
      → SimulatorRow floats.Float
      → List HdAccount
      → Exec (State floats env ports) (Option Phase)
  with_place draw_amount row registered = do
    min ← lift (xlm_to_stroops floats (string row.min_amount_xlm))
    max ← lift (xlm_to_stroops floats (string row.max_amount_xlm))
    pure (some (quoting (random_amount draw_amount min max) registered))

  abbrev pub found : Bool → HdAccount → List HdAccount → List HdAccount
  found covers a funded = if covers then funded ++ a ∷ [] else funded

  -- A tick goes on to its next `await`, or to its end.
  unfoldable pub advance : Draw → Draw → Draw → Phase → Exec (State floats env ports) (Option Phase)
  advance draw_amount draw_sender draw_recipient reading =
      get_state floats env ports >>= λ row. pure (some (listing row))
  advance draw_amount draw_sender draw_recipient (listing row) = do
    accounts ← on_world floats env ports ports.list
    full ← gets (has_no_place (length (filter can_receive accounts)))
    if full then pure none else with_place draw_amount row (filter can_receive accounts)
  advance draw_amount draw_sender draw_recipient (quoting amount registered) =
      required_fee amount >>= with_fee draw_sender draw_recipient amount registered
  advance draw_amount draw_sender draw_recipient (checking amount fee registered a todo funded) =
      on_world floats env ports (ports.spendable_private_stroops a.public_key (address_of a))
      >>= λ balance.
          proceed draw_sender draw_recipient amount fee registered
            (found (can_cover_instructed_spend balance amount fee) a funded) todo

  -- The loop's call of a tick: where the simulator runs, the tick comes to its first `await`.
  unfoldable pub tick : State floats env ports → Option Phase
  tick s = if s.running then some reading else none

  -- A tick that throws is logged, and has ended.
  unfoldable pub on_tick : Draw → Draw → Draw → Phase → Exec (State floats env ports) (Option Phase)
  on_tick draw_amount draw_sender draw_recipient phase =
      catch (advance draw_amount draw_sender draw_recipient phase) (λ e.
        log floats env ports (codes "error") (codes "Simulator tick failed") (some (thrown_text e))
        >>= λ _. pure none)
