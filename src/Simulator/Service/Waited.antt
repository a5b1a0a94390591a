-- ===== src/Simulator/Service/Waited.antt =====
-- simulator/simulator.service.ts: what is in flight when a stop returns.
use pl_backend_sdk_demo.Prelude.{
  ℕ, ◌+◌, ◌≤◌, ◌≡◌, refl, sym, ap, ◌∙◌, subst, ◌⊎◌, inl, inr, Bool, true, false, not, ◌==◌, Option,
  none, some, List, [], ◌∷◌, ◌++◌, Text, length, filter-kept, filter-dropped, Bool-cases, leb, All,
  Among, first, later, ok, Result, Keeps-Post, if◌then◌else◌, arith,
}
use pl_backend_sdk_demo.Money.{Floats}
use pl_backend_sdk_demo.Persistence.{SimulatorRow, SimulatorStatus}
use pl_backend_sdk_demo.Simulator.Occupancy.{has}
use pl_backend_sdk_demo.Simulator.Loop.{OverlappingLoop}
use pl_backend_sdk_demo.Simulator.Service.{Ports, SimulatorEnv, Work, State, stop_timer}
use pl_backend_sdk_demo.Simulator.Service.Tick.{TickPhase, Phase, tick, on_tick}
use pl_backend_sdk_demo.Simulator.Service.Transfer.{stop, stop_rest}
use pl_backend_sdk_demo.Simulator.Service.Busy.{occurs, one_if, IsOccupied, Below, remove}
use pl_backend_sdk_demo.Simulator.Service.Kept.{Quiet, mark_status-Keeps}
use pl_backend_sdk_demo.Simulator.Service.Launch.{
  has_passed, next_of, Stays, Launches, on_tick-Advanced,
}
use pl_backend_sdk_demo.Simulator.Service.Drain.{settle-Settled, stop_rest-Keeps, stop_rest-status}
use pl_backend_sdk_demo.Simulator.Service.Live.{
  Ticking, goes_on, length-goes_on, length_ended, Live, Step, moved, began, advanced, settled,
  stopped, stop_ended, marked, Steps, stay, more, Reached,
}
use pl_backend_sdk_demo.Simulator.Service.Reached.{reached-IsFine}

-- How many transfers are not older than the identity `n`.
abbrev pub newer : ℕ → List Work → ℕ
newer n [] = 0
newer n (w ∷ ws) = (if leb n w.id then 1 else 0) + newer n ws

newer-remove : (n id : ℕ) (ws : List Work) → newer n (remove id ws) ≤ newer n ws
newer-remove n id [] = omega arith
newer-remove n id (w ∷ ws) = ground (arith, newer-remove n id ws)

-- Each transfer is one of those that a stop waits for, or not older than `n`.
abbrev pub Known : ℕ → List Work → List Work → Type 0
Known n works ws = All (λ w. (n ≤ w.id) ⊎ Among w works) ws

Known-remove : (n id : ℕ) (works ws : List Work) → Known n works ws → Known n works (remove id ws)
Known-remove n id works [] h = tt
Known-remove n id works (w ∷ ws) (k, h) = elim (Bool-cases (not (w.id == id))) [
  | inl kept ↦
      subst (Known n works) (sym (filter-kept (λ v. not (v.id == id)) w ws kept))
        (k, Known-remove n id works ws h)
  | inr dropped ↦
      subst (Known n works) (sym (filter-dropped (λ v. not (v.id == id)) w ws dropped))
        (Known-remove n id works ws h)
]

Known-all :
    (n : ℕ) (works ws : List Work) → ((w : Work) → Among w ws → Among w works) → Known n works ws
Known-all n works [] h = tt
Known-all n works (w ∷ ws) h = (inr (h w first), Known-all n works ws (λ v m. h v (later m)))

-- Where none of those is left, all are new.
all_newer :
    (n : ℕ) (works ws : List Work)
    → Known n works ws
    → ((w : Work) → Among w works → ¬ (Among w ws))
    → length ws ≡ newer n ws
all_newer n works [] h gone = refl
all_newer n works (w ∷ ws) (inl new, h) gone =
    let rest = all_newer n works ws h (λ v m k. gone v m (later k)) in ground (arith, new, rest)
all_newer n works (w ∷ ws) (inr old, h) gone = absurd (gone w old first)

none_newer : (n : ℕ) (ws : List Work) → Below n ws → newer n ws ≡ 0
none_newer n [] h = refl
none_newer n (w ∷ ws) (b, h) = let rest = below n w.id ws (omega arith) h in ground (arith, rest)
  where
    below : (n m : ℕ) (ws : List Work) → m ≤ n → Below m ws → newer n ws ≡ 0
    below n m [] le h = refl
    below n m (w ∷ ws) le (b, h) =
        let rest = below n w.id ws (omega arith) h in ground (arith, rest)

module _ (floats : Floats) (env : SimulatorEnv floats.Float) {W : Type 0} (ports : Ports W)
    (works : List Work) (n ticks : ℕ) where
  -- While a stop waits, without a start: nothing runs, and what is new came from the ticks under way.
  abbrev Waiting :
      List (Ticking floats.Float) → List Text → List Work → ℕ → Bool → OverlappingLoop → Type 0
  Waiting under_way busy in_flight next_id running loop =
      IsOccupied busy in_flight next_id
      × (running ≡ false)
      × (n ≤ next_id)
      × Known n works in_flight
      × (newer n in_flight + length under_way ≤ ticks)

  abbrev IsWaiting : Live floats env ports → Type 0
  IsWaiting s = Quiet floats env ports (Waiting s.ticks) s.sim

  began_off :
      (s : Live floats env ports) (run : ℕ) (b : Bool)
      → b ≡ false
      → IsWaiting s
      → IsWaiting
          (record s { ticks = goes_on run (if b then some TickPhase.reading else none) s.ticks })
  began_off s run false off h = h
  began_off s run true off h = absurd (cc)

  change-IsWaiting :
      (s : Live floats env ports) (t : State floats env ports)
      (before after : List (Ticking floats.Float)) (x : Ticking floats.Float)
      (o : Option (Phase floats env ports))
      → s.ticks ≡ before ++ x ∷ after
      → IsWaiting s
      → IsOccupied t.busy t.in_flight t.next_id
      → t.running ≡ s.sim.running
      → Stays floats env ports s.sim (has_passed x.phase) o t
        ⊎ Launches floats env ports s.sim (has_passed x.phase) o t
      → IsWaiting (record { sim = t; ticks = before ++ goes_on x.run o after })
  change-IsWaiting s t before after x o at (_, off, from, known, few) occupied same
        (inl (f, d, _)) =
      let fewer = length-goes_on before after x o in
      let as_many = ap (length) at in
      let news = ap (newer n) f in
      (occupied, same ∙ off, omega arith, subst (Known n works) (sym f) known, omega arith)
  change-IsWaiting s t before after x o at (_, off, from, known, few) occupied same
        (inr (w, f, i, d, e, one)) =
      let less = length_ended before after x in
      let as_many = ap (length) at in
      let news = ap (newer n) f in
      let ended = ap (λ p. length (before ++ goes_on x.run p after)) e in
      (
        occupied,
        same ∙ off,
        omega arith,
        subst (Known n works) (sym f) (inl (omega arith), known),
        ground (arith, news, ended, less, as_many, few),
      )

  step-IsWaiting :
      {s t : Live floats env ports} → Step floats env ports s t → IsWaiting s → IsWaiting t
  unfolding tick stop stop_timer
  step-IsWaiting (moved world) h = h
  step-IsWaiting {s} (began run newest other) h = began_off s run s.sim.running h.1 h
  step-IsWaiting {s} (advanced before after x c d e at) h =
      let a = on_tick-Advanced floats env ports c d e x.phase s.sim h.0 in
      change-IsWaiting s (on_tick floats env ports c d e x.phase s.sim).1 before after x
        (next_of floats env ports (on_tick floats env ports c d e x.phase s.sim).0) at h a.occupied
        a.same_running a.change
  step-IsWaiting {s} (settled w m) (occupied, off, from, known, few) =
      let after = settle-Settled floats env ports w s.sim m occupied in
      let fewer = newer-remove n w.id s.sim.in_flight in
      let removed = ap (newer n) after.removed in
      let next = after.same_next in
      (
        after.occupied,
        after.same_running ∙ off,
        omega arith,
        subst (Known n works) (sym after.removed) (Known-remove n w.id works s.sim.in_flight known),
        omega arith,
      )
  step-IsWaiting stopped (occupied, off, from, known, few) = (occupied, refl, from, known, few)
  step-IsWaiting {s} stop_ended h = stop_rest-Keeps floats env ports (Waiting s.ticks) s.sim h
  step-IsWaiting {s} (marked status) h =
      mark_status-Keeps floats env ports (Waiting s.ticks) status s.sim h

  Steps-IsWaiting :
      {s t : Live floats env ports} → Steps floats env ports s t → IsWaiting s → IsWaiting t
  Steps-IsWaiting stay h = h
  Steps-IsWaiting (more steps step) h = step-IsWaiting step (Steps-IsWaiting steps h)

module _ (floats : Floats) (env : SimulatorEnv floats.Float) {W : Type 0} (ports : Ports W) where
  stop_awaits :
      (s after : State floats env ports) (works : List Work)
      → stop floats env ports s ≡ (ok works, after)
      → works ≡ s.in_flight
  unfolding stop stop_timer
  stop_awaits s after works e =
      let same : ◌≡◌ {A = Result (List Work)} (ok s.in_flight) (ok works) = ap (λ r. r.0) e in cc

  begins-IsWaiting :
      (s : Live floats env ports) (works : List Work)
      → works ≡ s.sim.in_flight
      → Reached floats env ports s
      → IsWaiting floats env ports works s.sim.next_id
          (length s.ticks)
          (record s { sim = (stop floats env ports s.sim).1 })
  unfolding stop stop_timer
  begins-IsWaiting s works same r =
      let occupied = (reached-IsFine floats env ports r).0 in
      let none_new = none_newer s.sim.next_id s.sim.in_flight occupied.ids in
      (
        occupied,
        refl,
        omega arith,
        Known-all s.sim.next_id works s.sim.in_flight (λ w m. subst (Among w) (sym same) m),
        omega arith,
      )

  -- Where the transfers that a stop waits for have ended, with no start in between, and it returns: no
  -- more transfers are in flight than ticks were under way when it was called, the busy accounts are
  -- theirs, once, and the row that it returns is stopped.
  pub stop_waits :
      (s t : Live floats env ports) (works : List Work) (u : State floats env ports)
      (row : SimulatorRow floats.Float)
      → Reached floats env ports s
      → stop floats env ports s.sim ≡ (ok works, (stop floats env ports s.sim).1)
      → Steps floats env ports (record s { sim = (stop floats env ports s.sim).1 }) t
      → ((w : Work) → Among w works → ¬ (Among w t.sim.in_flight))
      → stop_rest floats env ports t.sim ≡ (ok row, u)
      → (length u.in_flight ≤ length s.ticks)
        × ((k : Text) → occurs k u.in_flight ≡ one_if (has u.busy k))
        × (row.status ≡ SimulatorStatus.stopped)
  stop_waits s t works u row r called steps gone returned =
      let start = begins-IsWaiting s works (stop_awaits s.sim _ works called) r in
      let Q = Waiting floats env ports works s.sim.next_id (length s.ticks) t.ticks in
      let R : List Text → List Work → ℕ → Bool → OverlappingLoop → Type 0 =
        λ b f i run loop. Q b f i run loop × (f ≡ t.sim.in_flight) in
      let waited =
        Steps-IsWaiting floats env ports works s.sim.next_id (length s.ticks) steps start in
      let (q, same) =
        (Keeps-Post (Quiet floats env ports R) (stop_rest floats env ports)
            (stop_rest-Keeps floats env ports R) t.sim (waited, refl)).returns
          row u returned in
      let all_new =
        all_newer s.sim.next_id works u.in_flight q.3
          (λ w m k. gone w m (subst (Among w) same k)) in
      let few = q.4 in
      (
        omega (arith, all_new, few),
        q.0.once,
        (stop_rest-status floats env ports t.sim).returns row u returned,
      )
