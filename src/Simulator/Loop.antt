-- ===== src/Simulator/Loop.antt =====
-- `OverlappingLoop` of simulator/simulator-rules.ts. A run is a call of the private `run`, held at an
-- `await`: of its tick, or of its sleep. When timers fire and when ticks end is any sequence of
-- steps; a wake that `stop` gives early is among them.
pub mod OneRun
use pl_backend_sdk_demo.Prelude.{
  ℕ, zero, suc, Bool, true, false, not, ◌&&◌, ◌||◌, ◌≡◌, Option, none, some, List, [], ◌∷◌, ◌==◌,
  get_elem?, if◌then◌else◌,
}

pub data Phase : Type 0 where
  ticking : Phase
  sleeping : Phase
  returned : Phase

pub record Run : Type 0 where
  pub generation : ℕ
  pub phase : Phase

pub record OverlappingLoop : Type 0 where
  pub stopped : Bool
  pub generation : ℕ
  pub runs : List Run

abbrev pub new_loop : OverlappingLoop
new_loop = record { stopped = true; generation = 0; runs = [] }

unfoldable pub stop : OverlappingLoop → OverlappingLoop
stop s = record s { stopped = true; generation = suc s.generation }

-- `this.stopped || this.generation !== generation`, negated.
unfoldable pub is_current : OverlappingLoop → ℕ → Bool
is_current s generation = not s.stopped && s.generation == generation

-- The loop's test, at which a run begins a tick or returns.
unfoldable pub test : OverlappingLoop → Run → Run
test s r =
    if is_current s r.generation
    then record r { phase = ticking }
    else record r { phase = returned }

-- A run goes on to its first tick before `start` returns.
unfoldable pub start : OverlappingLoop → OverlappingLoop
start s =
    let off = stop s in
    let on = record off { stopped = false } in
    record on { runs = test on (record { generation = off.generation; phase = ticking }) ∷ s.runs }

unfoldable pub is_active : OverlappingLoop → Bool
is_active s = not s.stopped

-- A run whose tick has ended sleeps or returns.
unfoldable pub after_tick : OverlappingLoop → Run → Run
after_tick s r =
    if is_current s r.generation
    then record r { phase = sleeping }
    else record r { phase = returned }

-- A run whose tick has thrown rejects.
unfoldable pub after_throw : OverlappingLoop → Run → Run
after_throw s r = record r { phase = returned }

-- The run at a place goes on.
unfoldable pub resume : (Run → Run) → ℕ → List Run → List Run
resume f i [] = []
resume f zero (r ∷ rs) = f r ∷ rs
resume f (suc i) (r ∷ rs) = r ∷ resume f i rs

abbrev pub phase_at : List Run → ℕ → Option Phase
phase_at rs i = elim (get_elem? rs i) [ none ↦ none | some r ↦ some r.phase ]

pub data Step : OverlappingLoop → OverlappingLoop → Type 0 where
  started : (s : OverlappingLoop) → Step s (start s)
  stopped_ : (s : OverlappingLoop) → Step s (stop s)
  ticked :
      (s : OverlappingLoop) (i : ℕ)
      → phase_at s.runs i ≡ some ticking
      → Step s (record s { runs = resume (after_tick s) i s.runs })
  threw :
      (s : OverlappingLoop) (i : ℕ)
      → phase_at s.runs i ≡ some ticking
      → Step s (record s { runs = resume (after_throw s) i s.runs })
  woke :
      (s : OverlappingLoop) (i : ℕ)
      → phase_at s.runs i ≡ some sleeping
      → Step s (record s { runs = resume (test s) i s.runs })

pub data Reached : OverlappingLoop → Type 0 where
  fresh : Reached new_loop
  next : {s t : OverlappingLoop} → Reached s → Step s t → Reached t
