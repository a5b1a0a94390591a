-- ===== src/Simulator/Loop/OneRun.antt =====
-- simulator/simulator-rules.ts: the runs of `OverlappingLoop` by their generation.
use pl_backend_sdk_demo.Prelude.{
  ℕ, zero, suc, ◌+◌, ◌≤◌, ◌≡◌, ◌≢◌, refl, ◌∙◌, subst, ◌⊎◌, inl, inr, ◌&&◌, Bool-cases, Bool, true,
  false, List, [], ◌∷◌, All, ◌==◌, if◌then◌else◌, arith,
}
use pl_backend_sdk_demo.Simulator.Loop.{
  Phase, Run, ticking, sleeping, returned, OverlappingLoop, start, stop, is_current, test,
  after_tick, after_throw, resume, Step, started, stopped_, ticked, threw, woke, Reached, fresh,
  next,
}

-- How many runs are of a generation.
abbrev pub runs_of : ℕ → List Run → ℕ
runs_of g [] = 0
runs_of g (r ∷ rs) = (if r.generation == g then 1 else 0) + runs_of g rs

record IsFine (s : OverlappingLoop) : Type 0 where
  past : All (λ r. r.generation ≤ s.generation) s.runs
  one : runs_of s.generation s.runs ≡ (if s.stopped then 0 else 1)

newer :
    (g : ℕ) (rs : List Run)
    → All (λ r. r.generation ≤ g) rs
    → All (λ r. r.generation ≤ suc g) rs × (runs_of (suc g) rs ≡ 0)
newer g [] h = (tt, refl)
newer g (r ∷ rs) (b, h) = let (past, one) = newer g rs h in ((omega arith, past), ground arith)

module _ (f : Run → Run) (same : (r : Run) → (f r).generation ≡ r.generation) where
  runs_of-resume : (g i : ℕ) (rs : List Run) → runs_of g (resume f i rs) ≡ runs_of g rs
  unfolding resume
  runs_of-resume g i [] = refl
  runs_of-resume g zero (r ∷ rs) = ground (arith, same r)
  runs_of-resume g (suc i) (r ∷ rs) = ground (arith, runs_of-resume g i rs)

  past-resume :
      (g i : ℕ) (rs : List Run)
      → All (λ r. r.generation ≤ g) rs
      → All (λ r. r.generation ≤ g) (resume f i rs)
  unfolding resume
  past-resume g i [] h = tt
  past-resume g zero (r ∷ rs) (b, h) = (omega (arith, same r), h)
  past-resume g (suc i) (r ∷ rs) (b, h) = (b, past-resume g i rs h)

  resume-IsFine :
      (s : OverlappingLoop) (i : ℕ) → IsFine s → IsFine (record s { runs = resume f i s.runs })
  resume-IsFine s i h = record {
    past = past-resume s.generation i s.runs h.past;
    one = runs_of-resume s.generation i s.runs ∙ h.one;
  }

generation-choice :
    (b : Bool) (r : Run) (x y : Run)
    → x.generation ≡ r.generation
    → y.generation ≡ r.generation
    → (if b then x else y).generation ≡ r.generation
generation-choice true r x y h k = h
generation-choice false r x y h k = k

test-generation : (s : OverlappingLoop) (r : Run) → (test s r).generation ≡ r.generation
unfolding test
test-generation s r = generation-choice (is_current s r.generation) r _ _ refl refl

step-IsFine : {s t : OverlappingLoop} → Step s t → IsFine s → IsFine t
unfolding start stop after_tick after_throw
step-IsFine (started s) h =
    let (past, one) = newer s.generation s.runs h.past in
    let same =
      test-generation (record s { stopped = false; generation = suc s.generation })
        (record { generation = suc s.generation; phase = ticking }) in
    record { past = (omega (arith, same), past); one = ground (arith, same, one) }
step-IsFine (stopped_ s) h =
    let (past, one) = newer s.generation s.runs h.past in record { past = past; one = one }
step-IsFine (ticked s i _) h =
    resume-IsFine (after_tick s)
      (λ r. generation-choice (is_current s r.generation) r _ _ refl refl) s i h
step-IsFine (threw s i _) h = resume-IsFine (after_throw s) (λ r. refl) s i h
step-IsFine (woke s i _) h = resume-IsFine (test s) (test-generation s) s i h

reached-IsFine : {s : OverlappingLoop} → Reached s → IsFine s
reached-IsFine fresh = record { past = tt; one = refl }
reached-IsFine (next before step) = step-IsFine step (reached-IsFine before)

one_current_run :
    {s : OverlappingLoop} → Reached s → runs_of s.generation s.runs ≡ (if s.stopped then 0 else 1)
one_current_run h = (reached-IsFine h).one

-- How many runs of a generation are in a tick.
abbrev pub is_ticking : Phase → Bool
is_ticking ticking = true
is_ticking sleeping = false
is_ticking returned = false

abbrev pub ticking_of : ℕ → List Run → ℕ
ticking_of g [] = 0
ticking_of g (r ∷ rs) =
    (if (r.generation == g) && is_ticking r.phase then 1 else 0) + ticking_of g rs

ticking-runs : (g : ℕ) (rs : List Run) → ticking_of g rs ≤ runs_of g rs
ticking-runs g [] = omega arith
ticking-runs g (r ∷ rs) = ground (arith, ticking-runs g rs)

ticking_one : Run → ℕ → ℕ
ticking_one r g = if (r.generation == g) && is_ticking r.phase then 1 else 0

-- A run that goes on in another way than into a tick of `g` adds none.
ticking-resume :
    (f : Run → Run) (g i : ℕ) (rs : List Run)
    → ((r : Run) → ticking_one (f r) g ≤ ticking_one r g)
    → ticking_of g (resume f i rs) ≤ ticking_of g rs
unfolding resume ticking_one
ticking-resume f g i [] h = omega arith
ticking-resume f g zero (r ∷ rs) h = let here = h r in omega (arith, here)
ticking-resume f g (suc i) (r ∷ rs) h = let rest = ticking-resume f g i rs h in omega (arith, rest)

test-no_tick :
    (s : OverlappingLoop) (g : ℕ) (r : Run)
    → g ≢ s.generation
    → ticking_one (test s r) g ≤ ticking_one r g
unfolding test is_current ticking_one
test-no_tick s g r n = ground arith

after-no_tick :
    (s : OverlappingLoop) (g : ℕ) (r : Run) → ticking_one (after_tick s r) g ≤ ticking_one r g
unfolding after_tick ticking_one
after-no_tick s g r = ground arith

old_ticks :
    {s t : OverlappingLoop} (g : ℕ)
    → Step s t
    → g ≢ t.generation
    → ticking_of g t.runs ≤ ticking_of g s.runs
unfolding start stop after_throw test is_current ticking_one
old_ticks g (started s) n = ground arith
old_ticks g (stopped_ s) n = omega arith
old_ticks g (ticked s i _) n = ticking-resume (after_tick s) g i s.runs (λ r. after-no_tick s g r)
old_ticks g (threw s i _) n = ticking-resume (after_throw s) g i s.runs (λ r. ground arith)
old_ticks g (woke s i _) n = ticking-resume (test s) g i s.runs (λ r. test-no_tick s g r n)

-- In whatever order starts, stops, wakes and the ends of ticks come: after each step at most one run
-- of the loop's generation is in a tick, and none where the loop is off; and of an older generation no
-- run begins a tick: those that are in one only become fewer.
pub only_current_ticks :
    {s t : OverlappingLoop} (g : ℕ)
    → Reached s
    → Step s t
    → (ticking_of t.generation t.runs ≤ (if t.stopped then 0 else 1))
      × ((g ≡ t.generation) ⊎ (ticking_of g t.runs ≤ ticking_of g s.runs))
only_current_ticks {s} {t} g h step =
    let most : ticking_of t.generation t.runs ≤ (if t.stopped then 0 else 1) =
      subst (λ n. ticking_of t.generation t.runs ≤ n) (one_current_run (next h step))
        (ticking-runs t.generation t.runs) in
    (
      most,
      elim (Bool-cases (g == t.generation)) [
        | inl same ↦ inl (ground arith)
        | inr other ↦ inr (old_ticks g step (ground arith))
      ],
    )
