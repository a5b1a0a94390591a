-- ===== src/Simulator/Interval.antt =====
-- `IntervalLoop` of simulator/simulator-rules.ts. A promise of a tick is a number, 0 the one that the
-- field is born with; a run waits for the promise that it read at its start. When timers fire and
-- ticks end is any sequence of steps.
pub mod Exclusive
use pl_backend_sdk_demo.Prelude.{
  ℕ, zero, suc, ◌+◌, ◌≡◌, Bool, true, false, not, ◌&&◌, ◌||◌, List, [], ◌∷◌, ◌==◌, if◌then◌else◌,
}

pub data Phase : Type 0 where
  awaiting : ℕ → Phase
  ticking : ℕ → Phase
  sleeping : Phase
  returned : Phase

pub record Run : Type 0 where
  pub generation : ℕ
  pub phase : Phase

-- `in_flight` is the last tick's promise, and `rejected` the promises of ticks that threw.
pub record IntervalLoop : Type 0 where
  pub stopped : Bool
  pub generation : ℕ
  pub in_flight : ℕ
  pub rejected : List ℕ
  pub runs : List Run

abbrev pub new_loop : IntervalLoop
new_loop = record { stopped = true; generation = 0; in_flight = 0; rejected = []; runs = [] }

unfoldable pub stop : IntervalLoop → IntervalLoop
stop s = record s { stopped = true; generation = suc s.generation }

unfoldable pub start : IntervalLoop → IntervalLoop
start s =
    let off = stop s in
    record off {
      stopped = false;
      runs = record { generation = off.generation; phase = awaiting s.in_flight } ∷ s.runs;
    }

unfoldable pub is_active : IntervalLoop → Bool
is_active s = not s.stopped

abbrev pub is_current : IntervalLoop → Run → Bool
is_current s r = not s.stopped && r.generation == s.generation

-- `rs'` is `rs` with one run `r` that has become `r'`.
pub data Becomes (r r' : Run) : List Run → List Run → Type 0 where
  here : {rs : List Run} → Becomes r r' (r ∷ rs) (r' ∷ rs)
  there : {x : Run} {rs rs' : List Run} → Becomes r r' rs rs' → Becomes r r' (x ∷ rs) (x ∷ rs')

abbrev pub to : Phase → Run → Run
to p r = record r { phase = p }

abbrev pub one_if : Bool → ℕ
one_if b = if b then 1 else 0

-- How many runs are in the tick of a promise, and in any tick.
abbrev pub in_tick : ℕ → Phase → ℕ
in_tick n (ticking m) = one_if (m == n)
in_tick n _ = 0

abbrev pub ticks_of : ℕ → List Run → ℕ
ticks_of n [] = 0
ticks_of n (r ∷ rs) = in_tick n r.phase + ticks_of n rs

abbrev pub is_rejected : ℕ → List ℕ → Bool
is_rejected n [] = false
is_rejected n (m ∷ rejected) = m == n || is_rejected n rejected

-- The `while` test lets a current run begin a tick, with a new promise.
abbrev pub begun : IntervalLoop → List Run → IntervalLoop
begun s runs = record s { in_flight = suc s.in_flight; runs = runs }

abbrev pub with_runs : IntervalLoop → List Run → IntervalLoop
with_runs s runs = record s { runs = runs }

pub data Step : IntervalLoop → IntervalLoop → Type 0 where
  started : (s : IntervalLoop) → Step s (start s)
  stopped_ : (s : IntervalLoop) → Step s (stop s)
  -- The wait of a run is over, or its sleep.
  began :
      (s : IntervalLoop) (n : ℕ) (r : Run) (runs : List Run)
      → r.phase ≡ awaiting n
      → ticks_of n s.runs ≡ 0
      → is_rejected n s.rejected ≡ false
      → is_current s r ≡ true
      → Becomes r (to (ticking (suc s.in_flight)) r) s.runs runs
      → Step s (begun s runs)
  woke :
      (s : IntervalLoop) (r : Run) (runs : List Run)
      → r.phase ≡ sleeping
      → is_current s r ≡ true
      → Becomes r (to (ticking (suc s.in_flight)) r) s.runs runs
      → Step s (begun s runs)
  -- A run that is not current, or waits for a tick that threw, is over when it goes on.
  gave_up :
      (s : IntervalLoop) (n : ℕ) (r : Run) (runs : List Run)
      → r.phase ≡ awaiting n
      → ticks_of n s.runs ≡ 0
      → (is_rejected n s.rejected || not (is_current s r)) ≡ true
      → Becomes r (to returned r) s.runs runs
      → Step s (with_runs s runs)
  woke_late :
      (s : IntervalLoop) (r : Run) (runs : List Run)
      → r.phase ≡ sleeping
      → is_current s r ≡ false
      → Becomes r (to returned r) s.runs runs
      → Step s (with_runs s runs)
  -- A tick ends, and its run sleeps or returns; or it throws, and its run is over.
  ticked :
      (s : IntervalLoop) (n : ℕ) (r : Run) (runs : List Run)
      → r.phase ≡ ticking n
      → Becomes r (if is_current s r then to sleeping r else to returned r) s.runs runs
      → Step s (with_runs s runs)
  threw :
      (s : IntervalLoop) (n : ℕ) (r : Run) (runs : List Run)
      → r.phase ≡ ticking n
      → Becomes r (to returned r) s.runs runs
      → Step s (record s { rejected = n ∷ s.rejected; runs = runs })

pub data Reached : IntervalLoop → Type 0 where
  fresh : Reached new_loop
  next : {s t : IntervalLoop} → Reached s → Step s t → Reached t
