-- ===== src/Simulator/Service/Reached.antt =====
-- simulator/simulator.service.ts: the accounts and the places that transfers in flight take, whatever
-- ticks, ends of transfers, starts and stops come between each other.
use pl_backend_sdk_demo.Prelude.{
  ℕ, suc, ◌+◌, ◌-◌, ◌≤◌, max, ◌≡◌, ◌≢◌, refl, sym, ap, subst, ◌⊎◌, inl, inr, Bool, true, false, not,
  ◌==◌, Option, none, some, List, ◌∷◌, ◌++◌, Text, length, length-filter-le, All, if◌then◌else◌,
  arith,
}
use pl_backend_sdk_demo.Money.{Floats}
use pl_backend_sdk_demo.Simulator.Occupancy.{has}
use pl_backend_sdk_demo.Simulator.Loop
use pl_backend_sdk_demo.Simulator.Loop.{OverlappingLoop}
use pl_backend_sdk_demo.Simulator.Service.{Ports, SimulatorEnv, Work, State, stop_timer}
use pl_backend_sdk_demo.Simulator.Service.Tick.{TickPhase, Phase, tick, on_tick}
use pl_backend_sdk_demo.Simulator.Service.Transfer.{stop}
use pl_backend_sdk_demo.Simulator.Service.Busy.{occurs, one_if, IsOccupied}
use pl_backend_sdk_demo.Simulator.Service.Kept.{Quiet, mark_status-Keeps, start-Keeps}
use pl_backend_sdk_demo.Simulator.Service.Launch.{
  places, has_passed, passed_of, next_of, Stays, Launches, Advanced, on_tick-Advanced,
}
use pl_backend_sdk_demo.Simulator.Service.Drain.{settle-Settled, stop_rest-Keeps}
use pl_backend_sdk_demo.Simulator.Service.Live.{
  Ticking, goes_on, passed, Falls, passed-Falls, weaken-Falls, newest-Falls, passed-goes_on,
  Falls-goes_on, Live, Step, moved, began, advanced, settled, stopped, stop_ended, marked, Reached,
  constructed, started, stepped,
}

module _ (floats : Floats) (env : SimulatorEnv floats.Float) {W : Type 0} (ports : Ports W) where
  -- What holds of the service beside the ticks under way.
  abbrev pub Fits :
      List (Ticking floats.Float) → List Text → List Work → ℕ → Bool → OverlappingLoop → Type 0
  Fits ticks busy in_flight next_id running loop =
      IsOccupied busy in_flight next_id
      × Falls (length loop.runs) ticks
      × (length in_flight + passed ticks ≤ places floats env ports + (length loop.runs - 1))

  abbrev pub IsFine : Live floats env ports → Type 0
  IsFine s = Quiet floats env ports (Fits s.ticks) s.sim

  began-IsFine :
      (s : Live floats env ports) (run : ℕ) (b : Bool)
      → suc run ≡ length s.sim.loop.runs
      → All (λ (t : Ticking floats.Float). t.run ≢ run) s.ticks
      → IsFine s
      → IsFine
          (record s { ticks = goes_on run (if b then some TickPhase.reading else none) s.ticks })
  began-IsFine s run false newest other h = h
  began-IsFine s run true newest other (o, falls, most) =
      let below : Falls (suc run) s.ticks = subst (λ n. Falls n s.ticks) (sym newest) falls in
      (o, (omega arith, newest-Falls run s.ticks below other), omega (arith, most))

  advanced_fits :
      (s t : State floats env ports) (before after : List (Ticking floats.Float))
      (x : Ticking floats.Float) (o : Option (Phase floats env ports))
      → Falls (length s.loop.runs) (before ++ goes_on x.run o after)
      → length s.in_flight + passed (before ++ x ∷ after)
        ≤ places floats env ports + (length s.loop.runs - 1)
      → Stays floats env ports s (has_passed x.phase) o t
        ⊎ Launches floats env ports s (has_passed x.phase) o t
      → length t.in_flight + passed (before ++ goes_on x.run o after)
        ≤ places floats env ports + (length s.loop.runs - 1)
  advanced_fits s t before after x o falls most (inl (f, d, inl fewer)) =
      let sum = passed-goes_on before after x o in let same = ap (length) f in omega arith
  advanced_fits s t before after x o falls most (inl (f, d, inr room)) =
      let few = passed-Falls (length s.loop.runs) (before ++ goes_on x.run o after) falls in
      let same = ap (length) f in omega arith
  advanced_fits s t before after x o falls most (inr (w, f, i, d, e, one)) =
      let sum = passed-goes_on before after x o in
      let gone : passed_of o ≡ 0 = ap passed_of e in let same = ap (length) f in omega arith

  advanced-IsFine :
      (s : Live floats env ports) (t : State floats env ports)
      (before after : List (Ticking floats.Float)) (x : Ticking floats.Float)
      (o : Option (Phase floats env ports))
      → s.ticks ≡ before ++ x ∷ after
      → IsFine s
      → Advanced floats env ports s.sim (has_passed x.phase) o t
      → IsFine (record { sim = t; ticks = before ++ goes_on x.run o after })
  advanced-IsFine s t before after x o at (occupied, falls, most) a =
      let runs : length t.loop.runs ≡ length s.sim.loop.runs =
        ap (λ (l : OverlappingLoop). length l.runs) a.same_loop in
      let fallen =
        Falls-goes_on (length s.sim.loop.runs) before after x o
          (subst (Falls (length s.sim.loop.runs)) at falls) in
      (
        a.occupied,
        subst (λ n. Falls n (before ++ goes_on x.run o after)) (sym runs) fallen,
        subst
            (λ n.
              length t.in_flight + passed (before ++ goes_on x.run o after)
              ≤ places floats env ports + (n - 1))
            (sym runs)
            (advanced_fits s.sim t before after x o fallen
              (subst
                (λ ts.
                  length s.sim.in_flight + passed ts
                  ≤ places floats env ports + (length s.sim.loop.runs - 1))
                at most)
              a.change),
      )

  step-IsFine : {s t : Live floats env ports} → Step floats env ports s t → IsFine s → IsFine t
  unfolding tick stop stop_timer Loop.stop
  step-IsFine (moved world) h = h
  step-IsFine {s} (began run newest other) h = began-IsFine s run s.sim.running newest other h
  step-IsFine {s} (advanced before after x c d e at) h =
      advanced-IsFine s (on_tick floats env ports c d e x.phase s.sim).1 before after x
        (next_of floats env ports (on_tick floats env ports c d e x.phase s.sim).0) at h
        (on_tick-Advanced floats env ports c d e x.phase s.sim h.0)
  step-IsFine {s} (settled w m) (occupied, falls, most) =
      let after = settle-Settled floats env ports w s.sim m occupied in
      let runs = ap (λ (l : OverlappingLoop). length l.runs) after.same_loop in
      let fewer = length-filter-le (λ v. not (v.id == w.id)) s.sim.in_flight in
      let removed = ap (length) after.removed in
      (after.occupied, subst (λ n. Falls n s.ticks) (sym runs) falls, omega arith)
  step-IsFine stopped h = h
  step-IsFine {s} stop_ended h = stop_rest-Keeps floats env ports (Fits s.ticks) s.sim h
  step-IsFine {s} (marked status) h =
      mark_status-Keeps floats env ports (Fits s.ticks) status s.sim h

  started-Fits :
      (ticks : List (Ticking floats.Float)) (busy : List Text) (in_flight : List Work) (next_id : ℕ)
      (running : Bool) (loop : OverlappingLoop)
      → Fits ticks busy in_flight next_id running loop
      → Fits ticks busy in_flight next_id true (Loop.start (Loop.stop loop))
  unfolding Loop.start Loop.stop
  started-Fits ticks busy in_flight next_id running loop (o, falls, most) = (
    o,
    weaken-Falls (length loop.runs) (suc (length loop.runs)) ticks (omega arith) falls,
    omega arith,
  )

  pub reached-IsFine : {s : Live floats env ports} → Reached floats env ports s → IsFine s
  reached-IsFine (constructed row world) =
      (record { once = λ k. unfold has in refl; ids = tt }, tt, omega arith)
  reached-IsFine (started {s} r) =
      start-Keeps floats env ports (Fits s.ticks) (started-Fits s.ticks) s.sim (reached-IsFine r)
  reached-IsFine (stepped r step) = step-IsFine step (reached-IsFine r)

  -- In every state that the service reaches, with ticks under way while transfers end and while it is
  -- stopped and started, an account that is busy is the sender or the recipient of one transfer in
  -- flight, once, and any other account of none.
  pub transfers_are_disjoint :
      {s : Live floats env ports}
      → Reached floats env ports s
      → (k : Text) → occurs k s.sim.in_flight ≡ one_if (has s.sim.busy k)
  transfers_are_disjoint r k = (reached-IsFine r).0.once k

  -- In every state that the service reaches, with ticks under way while it is stopped and started, the
  -- transfers in flight are at most as many as the proving workers, of which none counts as one, plus
  -- one for each run of the loop after the first.
  pub transfers_are_bounded :
      {s : Live floats env ports}
      → Reached floats env ports s
      → length s.sim.in_flight ≤ max 1 ports.prove_worker_count + (length s.sim.loop.runs - 1)
  transfers_are_bounded {s} r = let (o, falls, most) = reached-IsFine r in omega arith
