-- ===== src/Simulator/Interval/Exclusive.antt =====
-- simulator/simulator-rules.ts: the ticks of `IntervalLoop` that are under way.
use pl_backend_sdk_demo.Prelude.{
  ℕ, suc, ◌+◌, ◌≤◌, ◌≡◌, refl, sym, ap, ◌∙◌, subst, Bool, true, false, List, [], ◌∷◌, All, ◌==◌,
  if◌then◌else◌, arith,
}
use pl_backend_sdk_demo.Simulator.Interval.{
  Phase, awaiting, ticking, sleeping, returned, Run, IntervalLoop, start, stop, is_current, Becomes,
  here, there, to, one_if, in_tick, ticks_of, begun, with_runs, Step, started, stopped_, began,
  woke, gave_up, woke_late, ticked, threw, Reached, fresh, next,
}

-- How many runs are in a tick.
abbrev pub in_any : Phase → ℕ
in_any (ticking m) = 1
in_any _ = 0

abbrev pub ticks : List Run → ℕ
ticks [] = 0
ticks (r ∷ rs) = in_any r.phase + ticks rs

abbrev runs_of : ℕ → List Run → ℕ
runs_of g [] = 0
runs_of g (r ∷ rs) = one_if (r.generation == g) + runs_of g rs

-- What holds of the phase of the current run.
abbrev PhaseOk : ℕ → ℕ → Phase → Type 0
PhaseOk f t (awaiting n) = n ≡ f
PhaseOk f t sleeping = t ≡ 0
PhaseOk f t _ = Unit {0}

abbrev CurrentOk : ℕ → ℕ → ℕ → Run → Type 0
CurrentOk g f t r = r.generation ≡ g → PhaseOk f t r.phase

record IsFine (s : IntervalLoop) : Type 0 where
  past : All (λ r. r.generation ≤ s.generation) s.runs
  one : runs_of s.generation s.runs ≤ 1
  single : ticks s.runs ≤ 1
  latest : ticks_of s.in_flight s.runs ≡ ticks s.runs
  current : All (CurrentOk s.generation s.in_flight (ticks s.runs)) s.runs

All-weaken : (P Q : Run → Type 0) → ((x : Run) → P x → Q x) → (rs : List Run) → All P rs → All Q rs
All-weaken P Q f [] h = tt
All-weaken P Q f (x ∷ rs) (p, h) = (f x p, All-weaken P Q f rs h)

nobody : (g f t : ℕ) (rs : List Run) → runs_of g rs ≡ 0 → All (CurrentOk g f t) rs
nobody g f t [] h = tt
nobody g f t (x ∷ rs) h = ((λ i. absurd (ground (arith, i))), nobody g f t rs (omega arith))

module _ {r r' : Run} where
  Becomes-ticks :
      {rs rs' : List Run}
      → Becomes r r' rs rs'
      → ticks rs' + in_any r.phase ≡ ticks rs + in_any r'.phase
  Becomes-ticks here = omega arith
  Becomes-ticks (there b) = omega (arith, Becomes-ticks b)

  Becomes-ticks_of :
      (n : ℕ) {rs rs' : List Run}
      → Becomes r r' rs rs'
      → ticks_of n rs' + in_tick n r.phase ≡ ticks_of n rs + in_tick n r'.phase
  Becomes-ticks_of n here = omega arith
  Becomes-ticks_of n (there b) = omega (arith, Becomes-ticks_of n b)

  module _ (same : r'.generation ≡ r.generation) where
    Becomes-runs_of :
        (g : ℕ) {rs rs' : List Run} → Becomes r r' rs rs' → runs_of g rs' ≡ runs_of g rs
    Becomes-runs_of g (here {rs}) = ap (λ n. one_if (n == g) + runs_of g rs) same
    Becomes-runs_of g (there b) = omega (arith, Becomes-runs_of g b)

    Becomes-past :
        (g : ℕ) {rs rs' : List Run}
        → Becomes r r' rs rs'
        → All (λ x. x.generation ≤ g) rs
        → All (λ x. x.generation ≤ g) rs'
    Becomes-past g here (b, h) = (omega (arith, same), h)
    Becomes-past g (there b) (c, h) = (c, Becomes-past g b h)

  -- A run that changes keeps a property of all runs if the new one has it.
  Becomes-All :
      (P Q : Run → Type 0) {rs rs' : List Run}
      → Becomes r r' rs rs'
      → ((x : Run) → P x → Q x)
      → (P r → Q r')
      → All P rs
      → All Q rs'
  Becomes-All P Q here weaken f (p, h) = (f p, All-weaken P Q weaken _ h)
  Becomes-All P Q (there b) weaken f (p, h) = (weaken _ p, Becomes-All P Q b weaken f h)

  has_one : (g : ℕ) {rs rs' : List Run} → Becomes r r' rs rs' → r.generation ≡ g → 1 ≤ runs_of g rs
  has_one g here e = ground arith
  has_one g (there b) e = omega (arith, has_one g b e)

  member : (P : Run → Type 0) {rs rs' : List Run} → Becomes r r' rs rs' → All P rs → P r
  member P here (p, h) = p
  member P (there b) (p, h) = member P b h

  -- The current run begins a tick: no other is current.
  begun-current :
      (g f t : ℕ) {rs rs' : List Run}
      → Becomes r r' rs rs'
      → r.generation ≡ g
      → PhaseOk f t r'.phase
      → runs_of g rs ≤ 1
      → All (CurrentOk g f t) rs'
  begun-current g f t here e p h = ((λ _. p), nobody g f t _ (ground arith))
  begun-current g f t (there {x} b) e p h =
      let more = has_one g b e in
      ((λ i. absurd (ground (arith, more, i))), begun-current g f t b e p (omega arith))

in_tick_le : (n : ℕ) (p : Phase) → (in_tick n p ≤ in_any p) × (in_any p ≤ 1)
in_tick_le n (ticking m) = (ground arith, omega arith)
in_tick_le n (awaiting m) = (omega arith, omega arith)
in_tick_le n sleeping = (omega arith, omega arith)
in_tick_le n returned = (omega arith, omega arith)

ticks_of_le : (n : ℕ) (rs : List Run) → ticks_of n rs ≤ ticks rs
ticks_of_le n [] = omega arith
ticks_of_le n (r ∷ rs) = omega (arith, in_tick_le n r.phase, ticks_of_le n rs)

in_tick_of_new : (n : ℕ) → in_tick n (ticking n) ≡ 1
in_tick_of_new n = ground arith

newer :
    (g : ℕ) (rs : List Run)
    → All (λ r. r.generation ≤ g) rs
    → All (λ r. r.generation ≤ suc g) rs × (runs_of (suc g) rs ≡ 0)
newer g [] h = (tt, refl)
newer g (r ∷ rs) (b, h) = let (past, one) = newer g rs h in ((omega arith, past), ground arith)

fewer_ok : (f t t' : ℕ) (p : Phase) → t' ≤ t → PhaseOk f t p → PhaseOk f t' p
fewer_ok f t t' (awaiting n) h ok = ok
fewer_ok f t t' (ticking n) h ok = tt
fewer_ok f t t' sleeping h ok = omega arith
fewer_ok f t t' returned h ok = tt

begun-IsFine :
    (s : IntervalLoop) (r : Run) (runs : List Run)
    → r.generation ≡ s.generation
    → in_any r.phase ≡ 0
    → ticks s.runs ≡ 0
    → Becomes r (to (ticking (suc s.in_flight)) r) s.runs runs
    → IsFine s
    → IsFine (begun s runs)
begun-IsFine s r runs e idle none_ticks b h =
    let counts = Becomes-ticks b in
    let counts_of = Becomes-ticks_of (suc s.in_flight) b in
    record {
      past = Becomes-past refl s.generation b h.past;
      one = omega (arith, Becomes-runs_of refl s.generation b, h.one);
      single = omega (arith, counts, idle, none_ticks);
      latest = omega (
        arith,
        counts,
        counts_of,
        idle,
        none_ticks,
        in_tick_le (suc s.in_flight) r.phase,
        ticks_of_le (suc s.in_flight) s.runs,
        in_tick_of_new (suc s.in_flight),
      );
      current = begun-current s.generation (suc s.in_flight) (ticks runs) b e tt h.one;
    }

changed-IsFine :
    (s : IntervalLoop) (r r' : Run) (runs : List Run) (rejected : List ℕ)
    → r'.generation ≡ r.generation
    → in_any r'.phase ≡ 0
    → PhaseOk s.in_flight (ticks runs) r'.phase
    → Becomes r r' s.runs runs
    → IsFine s
    → IsFine (record s { rejected = rejected; runs = runs })
changed-IsFine s r r' runs rejected same idle ok b h =
    let counts = Becomes-ticks b in
    let counts_of = Becomes-ticks_of s.in_flight b in
    let bounds = in_tick_le s.in_flight r.phase in
    let bounds' = in_tick_le s.in_flight r'.phase in
    let fewer : ticks runs ≤ ticks s.runs = omega (arith, counts, idle) in
    record {
      past = Becomes-past same s.generation b h.past;
      one = omega (arith, Becomes-runs_of same s.generation b, h.one);
      single = omega (arith, fewer, h.single);
      latest = omega (
        arith,
        counts,
        counts_of,
        idle,
        bounds,
        bounds',
        h.latest,
        h.single,
        ticks_of_le s.in_flight runs,
      );
      current =
          Becomes-All (CurrentOk s.generation s.in_flight (ticks s.runs))
            (CurrentOk s.generation s.in_flight (ticks runs)) b
            (λ x k i. fewer_ok s.in_flight (ticks s.runs) (ticks runs) x.phase fewer (k i))
            (λ _ _. ok) h.current;
    }

ticked-IsFine :
    (c : Bool) (s : IntervalLoop) (n : ℕ) (r : Run) (runs : List Run)
    → r.phase ≡ ticking n
    → Becomes r (if c then to sleeping r else to returned r) s.runs runs
    → IsFine s
    → IsFine (with_runs s runs)
ticked-IsFine true s n r runs p b h =
    let was : in_any r.phase ≡ 1 = ap in_any p in
    changed-IsFine s r (to sleeping r) runs s.rejected refl refl
      (omega (arith, Becomes-ticks b, was, h.single)) b h
ticked-IsFine false s n r runs p b h =
    changed-IsFine s r (to returned r) runs s.rejected refl refl tt b h

is_current-generation :
    (s : IntervalLoop) (r : Run) → is_current s r ≡ true → r.generation ≡ s.generation
is_current-generation s r h = ground arith

step-IsFine : {s t : IntervalLoop} → Step s t → IsFine s → IsFine t
unfolding start stop
step-IsFine (started s) h =
    let (past, one) = newer s.generation s.runs h.past in
    record {
      past = (omega arith, past);
      one = ground (arith, one);
      single = omega (arith, h.single);
      latest = omega (arith, h.latest);
      current = ((λ _. refl), nobody (suc s.generation) s.in_flight (0 + ticks s.runs) s.runs one);
    }
step-IsFine (stopped_ s) h =
    let (past, one) = newer s.generation s.runs h.past in
    record {
      past = past;
      one = omega (arith, one);
      single = h.single;
      latest = h.latest;
      current = nobody (suc s.generation) s.in_flight (ticks s.runs) s.runs one;
    }
step-IsFine (began s n r runs p settled _ c b) h =
    let e = is_current-generation s r c in
    let waits : n ≡ s.in_flight =
      subst (PhaseOk s.in_flight (ticks s.runs)) p
        (member (CurrentOk s.generation s.in_flight (ticks s.runs)) b h.current e) in
    let none_ticks : ticks s.runs ≡ 0 =
      sym h.latest ∙ ap (λ m. ticks_of m s.runs) (sym waits) ∙ settled in
    begun-IsFine s r runs e (ap in_any p) none_ticks b h
step-IsFine (woke s r runs p c b) h =
    let e = is_current-generation s r c in
    let none_ticks : ticks s.runs ≡ 0 =
      subst (PhaseOk s.in_flight (ticks s.runs)) p
        (member (CurrentOk s.generation s.in_flight (ticks s.runs)) b h.current e) in
    begun-IsFine s r runs e (ap in_any p) none_ticks b h
step-IsFine (gave_up s n r runs p _ _ b) h =
    changed-IsFine s r (to returned r) runs s.rejected refl refl tt b h
step-IsFine (woke_late s r runs p _ b) h =
    changed-IsFine s r (to returned r) runs s.rejected refl refl tt b h
step-IsFine (ticked s n r runs p b) h = ticked-IsFine (is_current s r) s n r runs p b h
step-IsFine (threw s n r runs p b) h =
    changed-IsFine s r (to returned r) runs (n ∷ s.rejected) refl refl tt b h

reached-IsFine : {s : IntervalLoop} → Reached s → IsFine s
reached-IsFine fresh = record {
  past = tt;
  one = omega arith;
  single = omega arith;
  latest = refl;
  current = tt;
}
reached-IsFine (next before step) = step-IsFine step (reached-IsFine before)

-- In whatever order starts, stops, wakes and the ends of ticks come, at most one tick of an interval
-- loop is under way.
pub one_tick_at_a_time : {s : IntervalLoop} → Reached s → ticks s.runs ≤ 1
one_tick_at_a_time h = (reached-IsFine h).single
