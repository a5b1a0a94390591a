-- ===== src/Async/Mutex/Counted.antt =====
-- lib/async/keyed-mutex.ts: how many moves the calls need.
use pl_backend_sdk_demo.Prelude.{
  ℕ, zero, suc, ◌+◌, ◌*◌, ◌≤◌, ◌<◌, ◌≡◌, ◌≢◌, refl, sym, ap, ◌∙◌, inl, inr, [], ◌∷◌, arith, length,
}
use pl_backend_sdk_demo.Async.Mutex.{
  Call, waiting, running, leaving, KeyedAsyncMutex, set_call, enter, finish, leave, Move, granted,
  finished, left, Reach, moved, Moves, stay, more,
}
use pl_backend_sdk_demo.Async.Mutex.Ordered.{IsOrdered, set_call-cases}
use pl_backend_sdk_demo.Async.Mutex.Exclusive.{Reach-IsOrdered, used_of}

-- The moves that a call has before it.
abbrev pub moves_of : Call → ℕ
moves_of (waiting held k keys) = length held + 2 * length keys + 3
moves_of (running held) = length held + 1
moves_of (leaving held) = length held

-- The moves of the first `n` calls.
abbrev pub total : ℕ → (ℕ → Call) → ℕ
total zero calls = 0
total (suc n) calls = total n calls + moves_of (calls n)

abbrev pub moves_left : KeyedAsyncMutex → ℕ
moves_left s = total s.next s.calls

abbrev pub AllFinished : KeyedAsyncMutex → Type 0
AllFinished s = (i : ℕ) → s.calls i ≡ leaving []

total-beyond :
    (n i : ℕ) (c : Call) (calls : ℕ → Call) → n ≤ i → total n (set_call i c calls) ≡ total n calls
total-beyond zero i c calls h = refl
total-beyond (suc n) i c calls h = ground (arith, total-beyond n i c calls)

total-set_call :
    (n i : ℕ) (c : Call) (calls : ℕ → Call)
    → i < n
    → total n (set_call i c calls) + moves_of (calls i) ≡ total n calls + moves_of c
total-set_call zero i c calls h = omega arith
total-set_call (suc n) i c calls h = elim (set_call-cases i c calls n) [
  | inl (e, same) ↦
      let here : moves_of (set_call i c calls n) ≡ moves_of c = ap moves_of same in
      let old : moves_of (calls i) ≡ moves_of (calls n) = ap (λ j. moves_of (calls j)) e in
      omega (arith, total-beyond n i c calls (omega arith))
  | inr (d, same) ↦
      let here : moves_of (set_call i c calls n) ≡ moves_of (calls n) = ap moves_of same in
      omega (arith, total-set_call n i c calls (omega arith))
]

module _ (s : KeyedAsyncMutex) (i : ℕ) (before : Call) (o : IsOrdered s) (now : s.calls i ≡ before)
    (busy : before ≢ leaving []) where
  total-step :
      (c : Call)
      → suc (moves_of c) ≡ moves_of before
      → suc (total s.next (set_call i c s.calls)) ≡ total s.next s.calls
  total-step c h =
      let used = used_of s i o (λ e. busy (sym now ∙ e)) in
      let was : moves_of (s.calls i) ≡ moves_of before = ap moves_of now in
      omega (arith, total-set_call s.next i c s.calls used)

-- Each move is one of those that are left.
pub Move-moves_left :
    {s t : KeyedAsyncMutex} → Move s t → IsOrdered s → suc (moves_left t) ≡ moves_left s
unfolding enter finish leave
Move-moves_left {s} (granted i held k [] queue waits at_head) o =
    total-step s i (waiting held k []) o waits (λ e. cc) (running (k ∷ held)) (omega arith)
Move-moves_left {s} (granted i held k (j ∷ keys) queue waits at_head) o =
    total-step s i (waiting held k (j ∷ keys)) o waits (λ e. cc) (waiting (k ∷ held) j keys)
      (omega arith)
Move-moves_left {s} (finished i held runs) o =
    total-step s i (running held) o runs (λ e. cc) (leaving held) (omega arith)
Move-moves_left {s} (left i k held queue leaves at_head) o =
    total-step s i (leaving (k ∷ held)) o leaves (λ e. cc) (leaving held) (omega arith)

pub Moves-Reach : {s t : KeyedAsyncMutex} {m : ℕ} → Moves s m t → Reach s → Reach t
Moves-Reach stay r = r
Moves-Reach (more ms m) r = moved (Moves-Reach ms r) m

pub Moves-moves_left :
    {s t : KeyedAsyncMutex} {m : ℕ} → Moves s m t → Reach s → m + moves_left t ≡ moves_left s
Moves-moves_left stay r = omega arith
Moves-moves_left (more ms m) r =
    omega (arith, Moves-moves_left ms r, Move-moves_left m (Reach-IsOrdered (Moves-Reach ms r)))
