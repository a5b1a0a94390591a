-- ===== src/Async/Mutex.antt =====
-- lib/async/mutex.ts and keyed-mutex.ts. A call of `runExclusive` is known by its number. The chain
-- of a mutex is the queue of the calls that have entered it and not left, the first of them the one
-- whose function runs or is about to; a key that has no mutex yet has an empty queue.
pub mod Keys
pub mod Ordered
pub mod Steps
pub mod Exclusive
pub mod Requested
pub mod Counted
pub mod Progress
pub mod Drains
use pl_backend_sdk_demo.Prelude.{
  ℕ, suc, Bool, true, false, not, ◌≡◌, List, [], ◌∷◌, ◌++◌, Text, text_eq, filter, ltb, ◌==◌,
  if◌then◌else◌,
}

-- The order of `sort()`: by UTF-16 code units.
unfoldable pub text_ltb : Text → Text → Bool
text_ltb s [] = false
text_ltb [] (d ∷ t) = true
text_ltb (c ∷ s) (d ∷ t) = if c == d then text_ltb s t else ltb c d

-- `[...new Set(keys)]`
unfoldable pub distinct : List Text → List Text
distinct [] = []
distinct (k ∷ keys) = k ∷ filter (λ j. not (text_eq k j)) (distinct keys)

unfoldable pub insert : Text → List Text → List Text
insert k [] = k ∷ []
insert k (j ∷ keys) = if text_ltb k j then k ∷ j ∷ keys else j ∷ insert k keys

unfoldable pub sort : List Text → List Text
sort [] = []
sort (k ∷ keys) = insert k (sort keys)

unfoldable pub unique_keys : List Text → List Text
unique_keys keys = sort (distinct keys)

-- A call waits in the queue of a key, with keys that it holds and keys that come after; it runs its
-- function; or it leaves the mutexes that it still holds, the innermost first. One that has left all
-- has finished.
pub data Call : Type 0 where
  waiting : List Text → Text → List Text → Call
  running : List Text → Call
  leaving : List Text → Call

-- `next` is the number of the next call.
pub record KeyedAsyncMutex : Type 0 where
  pub queues : Text → List ℕ
  pub calls : ℕ → Call
  pub next : ℕ

abbrev pub no_calls : KeyedAsyncMutex
no_calls = record { queues = λ k. []; calls = λ i. leaving []; next = 0 }

abbrev pub set_queue : Text → List ℕ → (Text → List ℕ) → Text → List ℕ
set_queue k q queues j = if text_eq k j then q else queues j

abbrev pub set_call : ℕ → Call → (ℕ → Call) → ℕ → Call
set_call i c calls j = if i == j then c else calls j

-- The function that `reduceRight` nests: the mutex of the next key, or `fn` itself.
unfoldable pub enter : ℕ → List Text → List Text → KeyedAsyncMutex → KeyedAsyncMutex
enter i held [] s = record s { calls = set_call i (running held) s.calls }
enter i held (k ∷ keys) s = record s {
  queues = set_queue k (s.queues k ++ i ∷ []) s.queues;
  calls = set_call i (waiting held k keys) s.calls;
}

unfoldable pub run_exclusive : List Text → KeyedAsyncMutex → KeyedAsyncMutex
run_exclusive keys s = enter s.next [] (unique_keys keys) (record s { next = suc s.next })

-- `fn` has returned or thrown.
unfoldable pub finish : ℕ → List Text → KeyedAsyncMutex → KeyedAsyncMutex
finish i held s = record s { calls = set_call i (leaving held) s.calls }

-- The chain of `k` goes on to the calls `queue` after the first.
unfoldable pub leave : ℕ → Text → List Text → List ℕ → KeyedAsyncMutex → KeyedAsyncMutex
leave i k held queue s = record s {
  queues = set_queue k queue s.queues;
  calls = set_call i (leaving held) s.calls;
}

-- What may happen to the calls that are there, in any order.
pub data Move (s : KeyedAsyncMutex) : KeyedAsyncMutex → Type 0 where
  granted :
      (i : ℕ) (held : List Text) (k : Text) (keys : List Text) (queue : List ℕ)
      → s.calls i ≡ waiting held k keys
      → s.queues k ≡ i ∷ queue
      → Move s (enter i (k ∷ held) keys s)
  finished : (i : ℕ) (held : List Text) → s.calls i ≡ running held → Move s (finish i held s)
  left :
      (i : ℕ) (k : Text) (held : List Text) (queue : List ℕ)
      → s.calls i ≡ leaving (k ∷ held)
      → s.queues k ≡ i ∷ queue
      → Move s (leave i k held queue s)

pub data Reach : KeyedAsyncMutex → Type 0 where
  start : Reach no_calls
  called : {s : KeyedAsyncMutex} → Reach s → (keys : List Text) → Reach (run_exclusive keys s)
  moved : {s t : KeyedAsyncMutex} → Reach s → Move s t → Reach t

-- Moves of which none is a new call.
pub data Moves (s : KeyedAsyncMutex) : ℕ → KeyedAsyncMutex → Type 0 where
  stay : Moves s 0 s
  more : {n : ℕ} {t u : KeyedAsyncMutex} → Moves s n t → Move t u → Moves s (suc n) u
