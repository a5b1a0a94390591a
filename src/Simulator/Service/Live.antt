-- ===== src/Simulator/Service/Live.antt =====
-- simulator/simulator.service.ts in use: ticks under way beside transfers, starts and stops. A run of the
-- loop that is not the newest ends before a further tick (Simulator/Loop), so only the newest begins one,
-- and it waits for the one that it has begun.
use pl_backend_sdk_demo.Prelude.{
  ℕ, suc, ◌+◌, ◌≤◌, ◌<◌, ◌≡◌, ◌≢◌, refl, false, Option, none, some, List, [], ◌∷◌, ◌++◌, length,
  All, Among, arith,
}
use pl_backend_sdk_demo.Money.{Floats}
use pl_backend_sdk_demo.Persistence.{SimulatorRow, SimulatorStatus}
use pl_backend_sdk_demo.Simulator.Rules.{Draw}
use pl_backend_sdk_demo.Simulator.Loop.{new_loop}
use pl_backend_sdk_demo.Simulator.Service.{Ports, SimulatorEnv, Work, State, mark_status, start}
use pl_backend_sdk_demo.Simulator.Service.Transfer.{settle, stop, stop_rest}
use pl_backend_sdk_demo.Simulator.Service.Tick.{TickPhase, tick, on_tick}
use pl_backend_sdk_demo.Simulator.Service.Launch.{has_passed, passed_of, next_of}

-- A tick under way, by the number of its run: the loop's first run is 0.
pub record Ticking (F : Type 0) : Type 0 where
  pub run : ℕ
  pub phase : TickPhase F

-- The ticks of a run that go on, and those after.
abbrev pub goes_on : {F : Type 0} → ℕ → Option (TickPhase F) → List (Ticking F) → List (Ticking F)
goes_on run none ticks = ticks
goes_on run (some p) ticks = record { run = run; phase = p } ∷ ticks

-- How many ticks have passed the check of the places.
abbrev pub passed : {F : Type 0} → List (Ticking F) → ℕ
passed [] = 0
passed (t ∷ ticks) = has_passed t.phase + passed ticks

-- The runs fall along the list and are below `n`.
abbrev pub Falls : {F : Type 0} → ℕ → List (Ticking F) → Type 0
Falls n [] = Unit {0}
Falls n (t ∷ ticks) = (t.run < n) × Falls t.run ticks

module _ {F : Type 0} where
  passed_le : (ticks : List (Ticking F)) → passed ticks ≤ length ticks
  passed_le [] = omega arith
  passed_le (t ∷ ticks) = let rest = passed_le ticks in let one = at_most t.phase in omega arith
    where
      at_most : (p : TickPhase F) → has_passed p ≤ 1
      at_most TickPhase.reading = omega arith
      at_most (TickPhase.listing row) = omega arith
      at_most (TickPhase.quoting amount registered) = omega arith
      at_most (TickPhase.checking amount fee registered a todo funded) = omega arith

  length-Falls : (n : ℕ) (ticks : List (Ticking F)) → Falls n ticks → length ticks ≤ n
  length-Falls n [] h = omega arith
  length-Falls n (t ∷ ticks) (b, h) = let rest = length-Falls t.run ticks h in omega arith

  pub passed-Falls : (n : ℕ) (ticks : List (Ticking F)) → Falls n ticks → passed ticks ≤ n
  passed-Falls n ticks h = let a = passed_le ticks in let b = length-Falls n ticks h in omega arith

  pub weaken-Falls : (m n : ℕ) (ticks : List (Ticking F)) → m ≤ n → Falls m ticks → Falls n ticks
  weaken-Falls m n [] le h = tt
  weaken-Falls m n (t ∷ ticks) le (b, h) = (omega arith, h)

  pub newest-Falls :
      (run : ℕ) (ticks : List (Ticking F))
      → Falls (suc run) ticks
      → All (λ (t : Ticking F). t.run ≢ run) ticks
      → Falls run ticks
  newest-Falls run [] h other = tt
  newest-Falls run (t ∷ ticks) (b, h) (d, other) = (ground arith, h)

  pub passed-goes_on :
      (before after : List (Ticking F)) (t : Ticking F) (o : Option (TickPhase F))
      → passed (before ++ goes_on t.run o after) + has_passed t.phase
        ≡ passed (before ++ t ∷ after) + passed_of o
  passed-goes_on [] after t none = omega arith
  passed-goes_on [] after t (some p) = omega arith
  passed-goes_on (b ∷ before) after t o = let rest = passed-goes_on before after t o in omega arith

  pub length-goes_on :
      (before after : List (Ticking F)) (t : Ticking F) (o : Option (TickPhase F))
      → length (before ++ goes_on t.run o after) ≤ length (before ++ t ∷ after)
  length-goes_on [] after t none = omega arith
  length-goes_on [] after t (some p) = omega arith
  length-goes_on (b ∷ before) after t o = let rest = length-goes_on before after t o in omega arith

  pub length_ended :
      (before after : List (Ticking F)) (t : Ticking F)
      → suc (length (before ++ after)) ≡ length (before ++ t ∷ after)
  length_ended [] after t = refl
  length_ended (b ∷ before) after t = let rest = length_ended before after t in omega arith

  pub Falls-goes_on :
      (n : ℕ) (before after : List (Ticking F)) (t : Ticking F) (o : Option (TickPhase F))
      → Falls n (before ++ t ∷ after)
      → Falls n (before ++ goes_on t.run o after)
  Falls-goes_on n [] after t none (b, h) = weaken-Falls t.run n after (omega arith) h
  Falls-goes_on n [] after t (some p) h = h
  Falls-goes_on n (x ∷ before) after t o (b, h) = (b, Falls-goes_on x.run before after t o h)

module _ (floats : Floats) (env : SimulatorEnv floats.Float) {W : Type 0} (ports : Ports W) where
  pub record Live : Type 0 where
    pub sim : State floats env ports
    pub ticks : List (Ticking floats.Float)

  -- What may happen, in any order, but for a start.
  pub data Step (s : Live) : Live → Type 0 where
    -- the world of the other services changes
    moved : (world : W) → Step s (record s { sim = record s.sim { world = world } })
    began :
        (run : ℕ)
        → suc run ≡ length s.sim.loop.runs
        → All (λ (t : Ticking floats.Float). t.run ≢ run) s.ticks
        → Step s (record s { ticks = goes_on run (tick floats env ports s.sim) s.ticks })
    advanced :
        (before after : List (Ticking floats.Float)) (t : Ticking floats.Float)
        (draw_amount draw_sender draw_recipient : Draw)
        → s.ticks ≡ before ++ t ∷ after
        → Step s (record {
          sim = (on_tick floats env ports draw_amount draw_sender draw_recipient t.phase s.sim).1;
          ticks =
              before
              ++ goes_on t.run
                  (next_of floats env ports
                    (on_tick floats env ports draw_amount draw_sender draw_recipient t.phase
                      s.sim).0)
                  after;
        })
    settled :
        (w : Work)
        → Among w s.sim.in_flight
        → Step s (record s { sim = (settle floats env ports w s.sim).1 })
    stopped : Step s (record s { sim = (stop floats env ports s.sim).1 })
    stop_ended : Step s (record s { sim = (stop_rest floats env ports s.sim).1 })
    marked :
        (status : SimulatorStatus)
        → Step s (record s { sim = (mark_status floats env ports status s.sim).1 })

  pub data Steps (s : Live) : Live → Type 0 where
    stay : Steps s s
    more : {t u : Live} → Steps s t → Step t u → Steps s u

  -- A state of the service since its construction.
  pub data Reached : Live → Type 0 where
    constructed :
        (row : Option (SimulatorRow floats.Float)) (world : W)
        → Reached (record {
          sim = record {
            row = row;
            loop = new_loop;
            busy = [];
            in_flight = [];
            next_id = 0;
            running = false;
            world = world;
          };
          ticks = [];
        })
    started : {s : Live} → Reached s → Reached (record s { sim = (start floats env ports s.sim).1 })
    stepped : {s t : Live} → Reached s → Step s t → Reached t

  pub Reached-Steps : {s t : Live} → Reached s → Steps s t → Reached t
  Reached-Steps r stay = r
  Reached-Steps r (more steps step) = stepped (Reached-Steps r steps) step
