-- ===== src/Simulator/Service/Drain.antt =====
-- simulator/simulator.service.ts: transfers that end, and the lines of `stop`.
use pl_backend_sdk_demo.Prelude.{
  ℕ, ◌≡◌, refl, sym, ap, subst, Bool, some, none, Result, thrown, Post-raise, List, Text, codes,
  Among, ok, pure, Keeps, Keeps-bind, Post, Post-pure, Post-bind, Anyway,
}
use pl_backend_sdk_demo.Money.{Floats}
use pl_backend_sdk_demo.Persistence.{SimulatorStatus}
use pl_backend_sdk_demo.Simulator.Loop.{OverlappingLoop}
use pl_backend_sdk_demo.Simulator.Service.{Ports, SimulatorEnv, Work, State, get_state, log}
use pl_backend_sdk_demo.Simulator.Service.Transfer.{settle, finish, run_transfer, stop_rest}
use pl_backend_sdk_demo.Simulator.Service.Busy.{IsOccupied, finish-IsOccupied, remove}
use pl_backend_sdk_demo.Simulator.Service.Kept.{Quiet, get_state-Keeps, run_transfer-Keeps}

module _ (floats : Floats) (env : SimulatorEnv floats.Float) {W : Type 0} (ports : Ports W) where
  -- What the end of a transfer leaves of a state.
  pub record Settled (w : Work) (s t : State floats env ports) : Type 0 where
    pub occupied : IsOccupied t.busy t.in_flight t.next_id
    pub removed : t.in_flight ≡ remove w.id s.in_flight
    pub same_next : t.next_id ≡ s.next_id
    pub same_running : t.running ≡ s.running
    pub same_loop : t.loop ≡ s.loop

  pub settle-Settled :
      (w : Work) (s : State floats env ports)
      → Among w s.in_flight
      → IsOccupied s.busy s.in_flight s.next_id
      → Settled w s (settle floats env ports w s).1
  unfolding settle finish
  settle-Settled w s m h =
      let (i, f, n, r, l) =
        run_transfer-Keeps floats env ports
          (λ busy in_flight next_id running loop.
            IsOccupied busy in_flight next_id
            × (in_flight ≡ s.in_flight)
            × (next_id ≡ s.next_id)
            × (running ≡ s.running)
            × (loop ≡ s.loop))
          w.sender w.recipient w.amount s (h, refl, refl, refl, refl) in
      let after = run_transfer floats env ports w.sender w.recipient w.amount s in
      record {
        occupied =
            finish-IsOccupied after.1.busy after.1.in_flight after.1.next_id w
              (subst (Among w) (sym f) m) i;
        removed = ap (remove w.id) f;
        same_next = n;
        same_running = r;
        same_loop = l;
      }

  module _ (Q : List Text → List Work → ℕ → Bool → OverlappingLoop → Type 0) where
    pub stop_rest-Keeps : Keeps (Quiet floats env ports Q) (stop_rest floats env ports)
    unfolding stop_rest
    stop_rest-Keeps =
        Keeps-bind (Quiet floats env ports Q) (get_state floats env ports) _
          (get_state-Keeps floats env ports Q)
          (λ row s p.
            Keeps-bind (Quiet floats env ports Q)
              (log floats env ports (codes "simulator") (codes "Stopped") none)
              (λ _. pure (record row { status = SimulatorStatus.stopped })) (λ t q. q) (λ _ t q. q)
              (record s { row = some (record row { status = SimulatorStatus.stopped }) }) p)

  -- The row that a stop returns is stopped.
  pub stop_rest-status :
      (s : State floats env ports)
      → Post (λ row _. row.status ≡ SimulatorStatus.stopped) Anyway (stop_rest floats env ports s)
  unfolding stop_rest
  stop_rest-status s =
      Post-bind (get_state floats env ports s) _ (anything (get_state floats env ports s))
        (λ row t _.
          Post-bind
            (log floats env ports (codes "simulator") (codes "Stopped") none
              (record t { row = some (record row { status = SimulatorStatus.stopped }) }))
            _ (anything _) (λ _ u _. Post-pure _ u refl))
    where
      anything :
          {A : Type 0} (r : Result A × State floats env ports) → Post (λ _ _. Unit {0}) Anyway r
      anything (ok a, t) = Post-pure a t tt
      anything (thrown e, t) = Post-raise e t tt
