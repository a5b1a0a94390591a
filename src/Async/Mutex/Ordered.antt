-- ===== src/Async/Mutex/Ordered.antt =====
-- lib/async/keyed-mutex.ts: who stands in the queues, and in which order a call takes its keys.
use pl_backend_sdk_demo.Prelude.{
  ℕ, ◌≤◌, ◌<◌, true, ◌≡◌, ◌≢◌, refl, sym, ap, ◌∙◌, subst, ◌⊎◌, inl, inr, Option, none, some, List,
  [], ◌∷◌, ◌++◌, Text, text_eq, text_eq_iff, text_eq-false_iff, Bool-cases, ◌==◌, Among, first,
  later, arith,
}
use pl_backend_sdk_demo.Async.Mutex.{
  Call, waiting, running, leaving, KeyedAsyncMutex, no_calls, set_queue, set_call, text_ltb,
}
use pl_backend_sdk_demo.Async.Mutex.Keys.{text_ltb_irrefl, IsSorted}

abbrev pub held_of : Call → List Text
held_of (waiting held k keys) = held
held_of (running held) = held
held_of (leaving held) = held

abbrev pub wanted : Call → Option Text
wanted (waiting held k keys) = some k
wanted (running held) = none
wanted (leaving held) = none

-- The keys held, the last taken first, are each above the ones before.
abbrev pub Over : Text → List Text → Type 0
Over k [] = Unit {0}
Over k (j ∷ held) = (text_ltb j k ≡ true) × Over k held

abbrev pub IsFalling : List Text → Type 0
IsFalling [] = Unit {0}
IsFalling (k ∷ held) = Over k held × IsFalling held

abbrev pub TakesInOrder : Call → Type 0
TakesInOrder (waiting held k keys) = Over k held × IsFalling held × IsSorted (k ∷ keys)
TakesInOrder (running held) = IsFalling held
TakesInOrder (leaving held) = IsFalling held

abbrev pub NotIn : ℕ → List ℕ → Type 0
NotIn i [] = Unit {0}
NotIn i (j ∷ queue) = (i ≢ j) × NotIn i queue

abbrev pub NoneTwice : List ℕ → Type 0
NoneTwice [] = Unit {0}
NoneTwice (i ∷ queue) = NotIn i queue × NoneTwice queue

abbrev pub Owns : Call → Text → Type 0
Owns c k = Among k (held_of c) ⊎ (wanted c ≡ some k)

pub record IsOrdered (s : KeyedAsyncMutex) : Type 0 where
  pub member : (k : Text) (i : ℕ) → Among i (s.queues k) → Owns (s.calls i) k
  pub holder :
      (k : Text) (i : ℕ)
      → Among k (held_of (s.calls i))
      → (queue : List ℕ) × (s.queues k ≡ i ∷ queue)
  pub waiter : (k : Text) (i : ℕ) → wanted (s.calls i) ≡ some k → Among i (s.queues k)
  pub once : (k : Text) → NoneTwice (s.queues k)
  pub in_order : (i : ℕ) → TakesInOrder (s.calls i)
  pub fresh : (i : ℕ) → s.next ≤ i → s.calls i ≡ leaving []

pub NotIn-Among : (i : ℕ) (queue : List ℕ) → NotIn i queue → ¬ (Among i queue)
NotIn-Among i [] n m = elim m [ ]
NotIn-Among i (j ∷ queue) n first = n.0 refl
NotIn-Among i (j ∷ queue) n (later m) = NotIn-Among i queue n.1 m

pub NotIn-of : (i : ℕ) (queue : List ℕ) → ¬ (Among i queue) → NotIn i queue
NotIn-of i [] n = tt
NotIn-of i (j ∷ queue) n =
    (λ e. n (subst (λ x. Among i (x ∷ queue)) e first), NotIn-of i queue (λ m. n (later m)))

NotIn-append : (i j : ℕ) (queue : List ℕ) → NotIn i queue → i ≢ j → NotIn i (queue ++ j ∷ [])
NotIn-append i j [] n d = (d, tt)
NotIn-append i j (x ∷ queue) n d = (n.0, NotIn-append i j queue n.1 d)

pub NoneTwice-append :
    (i : ℕ) (queue : List ℕ) → NotIn i queue → NoneTwice queue → NoneTwice (queue ++ i ∷ [])
NoneTwice-append i [] n h = (tt, tt)
NoneTwice-append i (j ∷ queue) n h =
    (NotIn-append j i queue h.0 (λ e. n.0 (sym e)), NoneTwice-append i queue n.1 h.1)

pub Among-append : (i j : ℕ) (queue : List ℕ) → Among i (queue ++ j ∷ []) → Among i queue ⊎ (i ≡ j)
Among-append i j [] first = inr refl
Among-append i j [] (later m) = elim m [ ]
Among-append i j (x ∷ queue) first = inl first
Among-append i j (x ∷ queue) (later m) = elim (Among-append i j queue m) [
  | inl n ↦ inl (later n)
  | inr e ↦ inr e
]

pub Among-before : (i j : ℕ) (queue : List ℕ) → Among i queue → Among i (queue ++ j ∷ [])
Among-before i j (x ∷ queue) first = first
Among-before i j (x ∷ queue) (later m) = later (Among-before i j queue m)
Among-before i j [] m = elim m [ ]

pub Among-end : (i : ℕ) (queue : List ℕ) → Among i (queue ++ i ∷ [])
Among-end i [] = first
Among-end i (x ∷ queue) = later (Among-end i queue)

pub Over-Among : (k j : Text) (held : List Text) → Over k held → Among j held → text_ltb j k ≡ true
Over-Among k j [] o m = elim m [ ]
Over-Among k j (x ∷ held) o first = o.0
Over-Among k j (x ∷ held) o (later m) = Over-Among k j held o.1 m

pub Over-other : (k j : Text) (held : List Text) → Over k held → Among j held → j ≢ k
Over-other k j held o m e =
    let less = Over-Among k j held o m in
    let never = text_ltb_irrefl k in
    let same : text_ltb k k ≡ true = subst (λ x. text_ltb x k ≡ true) e less in
    absurd (ground arith)

-- How an updated table of calls or of queues looks at one place.
pub set_call-cases :
    (i : ℕ) (c : Call) (calls : ℕ → Call) (j : ℕ)
    → ((i ≡ j) × (set_call i c calls j ≡ c)) ⊎ ((i ≢ j) × (set_call i c calls j ≡ calls j))
set_call-cases i c calls j = elim (Bool-cases (i == j)) [
  | inl h ↦ inl (ground arith, rw h refl)
  | inr h ↦ inr (ground arith, rw h refl)
]

pub set_queue-cases :
    (k : Text) (q : List ℕ) (queues : Text → List ℕ) (j : Text)
    → ((k ≡ j) × (set_queue k q queues j ≡ q)) ⊎ ((k ≢ j) × (set_queue k q queues j ≡ queues j))
set_queue-cases k q queues j = elim (Bool-cases (text_eq k j)) [
  | inl h ↦ inl ((text_eq_iff k j).0 h, rw h refl)
  | inr h ↦ inr ((text_eq-false_iff k j).0 h, rw h refl)
]

-- What a call needs to stand in the table, beside the queues.
pub record Fits (queues : Text → List ℕ) (i : ℕ) (c : Call) : Type 0 where
  pub holds : (k : Text) → Among k (held_of c) → (queue : List ℕ) × (queues k ≡ i ∷ queue)
  pub waits : (k : Text) → wanted c ≡ some k → Among i (queues k)
  pub ordered : TakesInOrder c

pub no_calls-IsOrdered : IsOrdered no_calls
no_calls-IsOrdered = record {
  member = λ k i m. elim m [ ];
  holder = λ k i m. elim m [ ];
  waiter = λ k i e. cc;
  once = λ k. tt;
  in_order = λ i. tt;
  fresh = λ i h. refl;
}

-- A call changes and the queues stay.
pub call-IsOrdered :
    (s : KeyedAsyncMutex) (i : ℕ) (c : Call) (next : ℕ)
    → IsOrdered s
    → Fits s.queues i c
    → ((k : Text) → Owns (s.calls i) k → Owns c k)
    → s.next ≤ next
    → i < next
    → IsOrdered (record { queues = s.queues; calls = set_call i c s.calls; next = next })
call-IsOrdered s i c next o f keeps later_next used = record {
  member = λ k j m. elim (set_call-cases i c s.calls j) [
    | inl (e, same) ↦
        subst (λ x. Owns x k) (sym same)
          (keeps k (subst (λ x. Owns (s.calls x) k) (sym e) (o.member k j m)))
    | inr (d, same) ↦ subst (λ x. Owns x k) (sym same) (o.member k j m)
  ];
  holder = λ k j m. elim (set_call-cases i c s.calls j) [
    | inl (e, same) ↦
        subst (λ x. (queue : List ℕ) × (s.queues k ≡ x ∷ queue)) e
          (f.holds k (subst (λ x. Among k (held_of x)) same m))
    | inr (d, same) ↦ o.holder k j (subst (λ x. Among k (held_of x)) same m)
  ];
  waiter = λ k j w. elim (set_call-cases i c s.calls j) [
    | inl (e, same) ↦ subst (λ x. Among x (s.queues k)) e (f.waits k (ap wanted (sym same) ∙ w))
    | inr (d, same) ↦ o.waiter k j (ap wanted (sym same) ∙ w)
  ];
  once = o.once;
  in_order = λ j. elim (set_call-cases i c s.calls j) [
    | inl (e, same) ↦ subst TakesInOrder (sym same) f.ordered
    | inr (d, same) ↦ subst TakesInOrder (sym same) (o.in_order j)
  ];
  fresh = λ j h. elim (set_call-cases i c s.calls j) [
    | inl (e, same) ↦ absurd (omega arith)
    | inr (d, same) ↦ same ∙ o.fresh j (omega arith)
  ];
}
