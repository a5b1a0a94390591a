-- ===== src/Async/Mutex/Exclusive.antt =====
-- lib/async/keyed-mutex.ts: who runs at once.
use pl_backend_sdk_demo.Prelude.{
  ℕ, suc, ◌<◌, Bool, true, false, ◌≡◌, ◌≢◌, refl, sym, ap, ◌∙◌, subst, fun_ext, inl, inr, List, [],
  ◌∷◌, ◌++◌, Text, Bool-cases, ◌==◌, if◌then◌else◌, Among, first, later, arith, ltb,
}
use pl_backend_sdk_demo.Async.Mutex.{
  Call, waiting, running, leaving, KeyedAsyncMutex, set_queue, set_call, enter, finish, leave,
  text_ltb, unique_keys, run_exclusive, Move, granted, finished, left, Reach, start, called, moved,
}
use pl_backend_sdk_demo.Async.Mutex.Keys.{IsSorted, unique_keys-IsSorted, text_ltb_trans}
use pl_backend_sdk_demo.Async.Mutex.Ordered.{
  held_of, Over, TakesInOrder, Owns, IsOrdered, no_calls-IsOrdered, call-IsOrdered,
}
use pl_backend_sdk_demo.Async.Mutex.Steps.{queued-IsOrdered, gone-IsOrdered, some_inj}

pub set_set :
    (i : ℕ) (c d : Call) (calls : ℕ → Call) → set_call i c (set_call i d calls) ≡ set_call i c calls
set_set i c d calls = fun_ext (λ j. at j (i == j))
  where
    at :
        (j : ℕ) (b : Bool)
        → (if b then c else (if b then d else calls j)) ≡ (if b then c else calls j)
    at j true = refl
    at j false = refl

abbrev ComesNext : List Text → List Text → Type 0
ComesNext held [] = Unit {0}
ComesNext held (k ∷ keys) = Over k held × IsSorted (k ∷ keys)

Over-trans : (j k : Text) (held : List Text) → text_ltb k j ≡ true → Over k held → Over j held
Over-trans j k [] h o = tt
Over-trans j k (i ∷ held) h o = (text_ltb_trans i k j o.0 h, Over-trans j k held h o.1)

ComesNext-sorted :
    (k : Text) (held keys : List Text)
    → Over k held
    → IsSorted (k ∷ keys)
    → ComesNext (k ∷ held) keys
ComesNext-sorted k held [] o s = tt
ComesNext-sorted k held (j ∷ keys) o s = ((s.0.0, Over-trans j k held s.0.0 o), s.1)

ComesNext-first : (keys : List Text) → IsSorted keys → ComesNext [] keys
ComesNext-first [] s = tt
ComesNext-first (k ∷ keys) s = (tt, s)

enter-IsOrdered :
    (s : KeyedAsyncMutex) (i : ℕ) (held keys : List Text)
    → IsOrdered s
    → s.calls i ≡ running held
    → ComesNext held keys
    → i < s.next
    → IsOrdered (enter i held keys s)
unfolding enter
enter-IsOrdered s i held [] o runs c used =
    call-IsOrdered s i (running held) s.next o
      (record {
        holds = λ k m. o.holder k i (subst (λ x. Among k (held_of x)) (sym runs) m);
        waits = λ k w. cc;
        ordered = subst TakesInOrder runs (o.in_order i);
      })
      (λ k w. subst (λ x. Owns x k) runs w) (omega arith) used
enter-IsOrdered s i held (k ∷ keys) o runs c used =
    queued-IsOrdered s i held k keys o runs c.0 c.1 used

-- To enter from a table of calls in which the call has just been set to run.
enter-set :
    (s : KeyedAsyncMutex) (i : ℕ) (held keys : List Text)
    → enter i held keys (record s { calls = set_call i (running held) s.calls })
      ≡ enter i held keys s
unfolding enter
enter-set s i held [] =
    ap (λ f. record s { calls = f }) (set_set i (running held) (running held) s.calls)
enter-set s i held (k ∷ keys) =
    ap (λ f. record s { queues = set_queue k (s.queues k ++ i ∷ []) s.queues; calls = f })
      (set_set i (waiting held k keys) (running held) s.calls)

runs_at : (i : ℕ) (c : Call) (calls : ℕ → Call) → set_call i c calls i ≡ c
runs_at i c calls = ground arith

enter_from :
    (s : KeyedAsyncMutex) (i : ℕ) (held keys : List Text)
    → IsOrdered (record s { calls = set_call i (running held) s.calls })
    → ComesNext held keys
    → i < s.next
    → IsOrdered (enter i held keys s)
enter_from s i held keys o c used = subst IsOrdered (enter-set s i held keys) (
    enter-IsOrdered (record s { calls = set_call i (running held) s.calls }) i held keys o
      (runs_at i (running held) s.calls) c used)

pub used_of : (s : KeyedAsyncMutex) (i : ℕ) → IsOrdered s → s.calls i ≢ leaving [] → i < s.next
used_of s i o busy = elim (Bool-cases (ltb i s.next)) [
  | inl h ↦ ground arith
  | inr h ↦ absurd (busy (o.fresh i (ground arith)))
]

granted-IsOrdered :
    (s : KeyedAsyncMutex) (i : ℕ) (held : List Text) (k : Text) (keys : List Text) (queue : List ℕ)
    → IsOrdered s
    → s.calls i ≡ waiting held k keys
    → s.queues k ≡ i ∷ queue
    → IsOrdered (enter i (k ∷ held) keys s)
granted-IsOrdered s i held k keys queue o waits at_head =
    let order = subst TakesInOrder waits (o.in_order i) in
    let used : i < s.next =
      used_of s i o (λ e. let never : waiting held k keys ≡ leaving [] = sym waits ∙ e in cc) in
    enter_from s i (k ∷ held) keys
      (call-IsOrdered s i (running (k ∷ held)) s.next o
        (record { holds = λ j m. holds j m; waits = λ j w. cc; ordered = (order.0, order.1) })
        (λ j w. owns j (subst (λ x. Owns x j) waits w)) (omega arith) used)
      (ComesNext-sorted k held keys order.0 order.2) used
  where
    holds : (j : Text) → Among j (k ∷ held) → (q : List ℕ) × (s.queues j ≡ i ∷ q)
    holds j first = (queue, at_head)
    holds j (later m) = o.holder j i (subst (λ x. Among j (held_of x)) (sym waits) m)

    owns : (j : Text) → Owns (waiting held k keys) j → Owns (running (k ∷ held)) j
    owns j (inl m) = inl (later m)
    owns j (inr w) = inl (subst (λ x. Among x (k ∷ held)) (some_inj w) first)

Move-IsOrdered : {s t : KeyedAsyncMutex} → Move s t → IsOrdered s → IsOrdered t
unfolding finish leave
Move-IsOrdered {s} (granted i held k keys queue waits at_head) o =
    granted-IsOrdered s i held k keys queue o waits at_head
Move-IsOrdered {s} (finished i held runs) o =
    call-IsOrdered s i (leaving held) s.next o
      (record {
        holds = λ k m. o.holder k i (subst (λ x. Among k (held_of x)) (sym runs) m);
        waits = λ k w. cc;
        ordered = subst TakesInOrder runs (o.in_order i);
      })
      (λ k w. still k (subst (λ x. Owns x k) runs w)) (omega arith)
      (used_of s i o (λ e. let never : running held ≡ leaving [] = sym runs ∙ e in cc))
  where
    still : (k : Text) → Owns (running held) k → Owns (leaving held) k
    still k (inl m) = inl m
    still k (inr w) = cc
Move-IsOrdered {s} (left i k held queue leaves at_head) o =
    gone-IsOrdered s i held k queue o leaves at_head

called-IsOrdered :
    (s : KeyedAsyncMutex) (keys : List Text) → IsOrdered s → IsOrdered (run_exclusive keys s)
unfolding run_exclusive
called-IsOrdered s keys o =
    enter_from (record s { next = suc s.next }) s.next [] (unique_keys keys)
      (call-IsOrdered s s.next (running []) (suc s.next) o
        (record { holds = λ k m. elim m [ ]; waits = λ k w. cc; ordered = tt })
        (λ k w. nothing k (subst (λ x. Owns x k) (o.fresh s.next (omega arith)) w)) (omega arith)
        (omega arith))
      (ComesNext-first (unique_keys keys) (unique_keys-IsSorted keys)) (omega arith)
  where
    nothing : (k : Text) → Owns (leaving []) k → Owns (running []) k
    nothing k (inl m) = inl m
    nothing k (inr w) = cc

pub Reach-IsOrdered : {s : KeyedAsyncMutex} → Reach s → IsOrdered s
Reach-IsOrdered start = no_calls-IsOrdered
Reach-IsOrdered (called {s} r keys) = called-IsOrdered s keys (Reach-IsOrdered r)
Reach-IsOrdered (moved r m) = Move-IsOrdered m (Reach-IsOrdered r)

same_head : {i j : ℕ} {p q : List ℕ} → ◌≡◌ {A = List ℕ} (i ∷ p) (j ∷ q) → i ≡ j
same_head e = cc

-- Whatever calls are made and however they interleave, two calls that hold a key, in particular two
-- that run their functions under it, are the same call.
pub one_holder :
    (s : KeyedAsyncMutex) (k : Text) (i j : ℕ)
    → Reach s
    → Among k (held_of (s.calls i))
    → Among k (held_of (s.calls j))
    → i ≡ j
one_holder s k i j r m n =
    let o = Reach-IsOrdered r in
    let (p, e) = o.holder k i m in let (q, h) = o.holder k j n in same_head (sym e ∙ h)
