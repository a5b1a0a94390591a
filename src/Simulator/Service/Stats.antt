-- ===== src/Simulator/Service/Stats.antt =====
-- simulator/simulator.service.ts: what a transfer adds to the statistics.
use pl_backend_sdk_demo.Prelude.{
  ◌≡◌, refl, sym, ◌∙◌, subst, Bool, true, false, Option, none, some, ℤ, pos, ◌+ℤ◌, Text, codes,
  big_int, big_text, big_int-big_text, thrown_text, Thrown, Result, ok, thrown, Exec, pure, lift,
  continue, on_throw, ◌>>=◌, if◌then◌else◌, arith,
}
use pl_backend_sdk_demo.Money.{Floats}
use pl_backend_sdk_demo.Persistence.{HdAccount, SimulatorRow}
use pl_backend_sdk_demo.Simulator.Rules.{is_missing_private_records_error}
use pl_backend_sdk_demo.Simulator.Service.{
  Ports, SimulatorEnv, State, log, get_state, row_or_new, save,
}
use pl_backend_sdk_demo.Simulator.Service.Transfer.{run_transfer, add_to_stats, counted}

module _ (floats : Floats) (env : SimulatorEnv floats.Float) {W : Type 0} (ports : Ports W) where
  -- The row that a transfer leaves, by what the transfer returned.
  abbrev pub RowAfter :
      {A : Type 0}
      → Result A
      → SimulatorRow floats.Float
      → ℤ
      → ℤ
      → ℤ
      → Option (SimulatorRow floats.Float)
      → Type 0
  RowAfter (thrown e) row n v amount after = after ≡ some row
  RowAfter (ok tx) row n v amount after =
      (next : SimulatorRow floats.Float) × (after ≡ some next)
      × (big_int next.transaction_count ≡ some (n +ℤ pos 1))
      × (big_int next.total_volume_stroops ≡ some (v +ℤ amount))

  counted_row :
      (row : SimulatorRow floats.Float) (n v amount : ℤ)
      → big_int row.transaction_count ≡ some n
      → big_int row.total_volume_stroops ≡ some v
      → counted floats env ports row amount
        ≡ ok (record row {
          transaction_count = big_text (n +ℤ pos 1);
          total_volume_stroops = big_text (v +ℤ amount);
        })
  unfolding counted
  counted_row row n v amount hn hv = ground (arith, hn, hv)

  stats-RowAfter :
      {A : Type 0} (tx : A) (row : SimulatorRow floats.Float) (n v amount : ℤ)
      (s : State floats env ports)
      → s.row ≡ some row
      → big_int row.transaction_count ≡ some n
      → big_int row.total_volume_stroops ≡ some v
      → RowAfter (ok tx) row n v amount (add_to_stats floats env ports amount s).1.row
  unfolding get_state
  stats-RowAfter tx row n v amount s e hn hv =
      subst
        (λ o.
          RowAfter (ok tx) row n v amount
            (continue with_row (row_or_new floats env ports o s)).1.row)
        (sym e)
        (subst
          (λ r.
            RowAfter (ok tx) row n v amount
              (continue {S = State floats env ports} (save floats env ports) (r, s)).1.row)
          (sym (counted_row row n v amount hn hv))
          (
            record row {
              transaction_count = big_text (n +ℤ pos 1);
              total_volume_stroops = big_text (v +ℤ amount);
            },
            refl,
            big_int-big_text (n +ℤ pos 1),
            big_int-big_text (v +ℤ amount),
          ))
    where
      with_row : SimulatorRow floats.Float → Exec (State floats env ports) (Unit {0})
      with_row row = lift (counted floats env ports row amount) >>= save floats env ports

  abbrev then_stats : ℤ → Bool → Exec (State floats env ports) (Unit {0})
  then_stats amount done = if done then add_to_stats floats env ports amount else pure tt

  after_log :
      (amount : ℤ) (r : Result (Unit {0})) (t : State floats env ports)
      → (continue
          (then_stats amount)
          (continue {S = State floats env ports} (λ _. pure false) (r, t))).1.row
        ≡ t.row
  after_log amount (ok _) t = refl
  after_log amount (thrown e) t = refl

  abbrev failed : Bool → Thrown → Exec (State floats env ports) (Unit {0})
  failed missing e =
      if missing
      then log floats env ports (codes "simulator")
          (codes "No spendable notes for this amount; skipping tick") none
      else log floats env ports (codes "error") (codes "Simulator transfer failed")
          (some (thrown_text e))

  after_failure :
      (amount : ℤ) (missing : Bool) (e : Thrown) (s : State floats env ports)
      → (continue (then_stats amount) (continue (λ _. pure false) (failed missing e s))).1.row
        ≡ s.row
  after_failure amount true e s = after_log amount _ _
  after_failure amount false e s = after_log amount _ _

  after_transfer :
      (r : Result Text) (row : SimulatorRow floats.Float) (n v amount : ℤ)
      (s : State floats env ports)
      → s.row ≡ some row
      → big_int row.transaction_count ≡ some n
      → big_int row.total_volume_stroops ≡ some v
      → RowAfter r row n v amount
          (continue (then_stats amount) (
            on_throw
              (λ e. failed (is_missing_private_records_error e) e >>= λ _. pure false)
              (continue {S = State floats env ports} (λ _. pure true) (r, s)))).1.row
  after_transfer (ok tx) row n v amount s e hn hv = stats-RowAfter tx row n v amount s e hn hv
  after_transfer (thrown x) row n v amount s e hn hv =
      after_failure amount (is_missing_private_records_error x) x s ∙ e

  -- Where the simulator's row is there and its count and volume are integers, a transfer that succeeds
  -- adds one to the count and its amount to the volume, and one that fails leaves the row as it is.
  pub run_transfer-RowAfter :
      (sender recipient : HdAccount) (amount : ℤ) (row : SimulatorRow floats.Float) (n v : ℤ)
      (s : State floats env ports)
      → s.row ≡ some row
      → big_int row.transaction_count ≡ some n
      → big_int row.total_volume_stroops ≡ some v
      → RowAfter
          (ports.transfer sender recipient amount s.world).0
          row
          n
          v
          amount
          (run_transfer floats env ports sender recipient amount s).1.row
  unfolding run_transfer
  run_transfer-RowAfter sender recipient amount row n v s e hn hv =
      let after = ports.transfer sender recipient amount s.world in
      after_transfer after.0 row n v amount (record s { world = after.1 }) e hn hv
