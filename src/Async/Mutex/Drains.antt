-- ===== src/Async/Mutex/Drains.antt =====
-- lib/async/keyed-mutex.ts: how the calls end.
use pl_backend_sdk_demo.Prelude.{
  ℕ, zero, suc, ◌<◌, ◌≡◌, refl, ap, ◌⊎◌, inl, inr, [], Bool-cases, arith, ltb,
}
use pl_backend_sdk_demo.Async.Mutex.{leaving, KeyedAsyncMutex, Move, Reach, Moves}
use pl_backend_sdk_demo.Async.Mutex.Ordered.{IsOrdered}
use pl_backend_sdk_demo.Async.Mutex.Exclusive.{Reach-IsOrdered}
use pl_backend_sdk_demo.Async.Mutex.Counted.{
  total, moves_of, moves_left, AllFinished, Move-moves_left, Moves-Reach, Moves-moves_left,
}
use pl_backend_sdk_demo.Async.Mutex.Progress.{CanMove, progress}

module _ (s : KeyedAsyncMutex) (o : IsOrdered s) where
  done_at_zero : moves_left s ≡ 0 → AllFinished s
  done_at_zero h = elim (progress s o) [
    | inl done ↦ done
    | inr (t, m) ↦ absurd (omega (arith, Move-moves_left m o))
  ]

  moves_while_left : 0 < moves_left s → CanMove s o
  moves_while_left h = elim (progress s o) [
    | inl done ↦ absurd (omega (arith, finished_total s.next (λ i _. done i)))
    | inr m ↦ m
  ]
    where
      finished_total : (n : ℕ) → ((i : ℕ) → i < n → s.calls i ≡ leaving []) → total n s.calls ≡ 0
      finished_total zero h = refl
      finished_total (suc n) h =
          let here : moves_of (s.calls n) ≡ 0 = ap moves_of (h n (omega arith)) in
          omega (arith, finished_total n (λ i less. h i (omega arith)))

-- From whatever state the calls have come to, if no new call is made: a run of moves, in any order,
-- either is as long as the moves that were left at its start, and all calls have finished, or it is
-- shorter and some call can move. So the calls neither block one another nor go on for ever.
pub calls_finish :
    (s t : KeyedAsyncMutex) (m : ℕ)
    → Reach s
    → Moves s m t
    → ((m ≡ moves_left s) × AllFinished t) ⊎ ((m < moves_left s) × (u : KeyedAsyncMutex) × Move t u)
calls_finish s t m r ms =
    let spent = Moves-moves_left ms r in
    let o = Reach-IsOrdered (Moves-Reach ms r) in
    elim (Bool-cases (ltb 0 (moves_left t))) [
      | inl some_left ↦
          let positive : 0 < moves_left t = ground arith in
          let (u, move) = moves_while_left t o positive in inr (omega arith, u, move)
      | inr none_left ↦
          let spent_all : moves_left t ≡ 0 = ground arith in
          inl (omega arith, done_at_zero t o spent_all)
    ]
