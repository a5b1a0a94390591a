-- ===== src/Proving/Settles.antt =====
-- privacy/proving/prove-worker-pool.ts: how the promises of a worker's jobs end.
use pl_backend_sdk_demo.Prelude.{
  ℕ, suc, ◌+◌, ◌≤◌, Bool, true, false, ◌≡◌, refl, ◌∙◌, subst, Option, none, some, List, [], ◌∷◌,
  ◌++◌, Text, text_eq, text_eq_iff, text_eq_refl, Bool-cases, inl, inr, ◌==◌, if◌then◌else◌, Thrown,
  arith,
}
use pl_backend_sdk_demo.Jobs.{PrivacyWorkerResponse, ready, result}
use pl_backend_sdk_demo.Proving.{
  Settled, resolved, rejected, WorkerSlot, is_pending, drop_pending, settle, dispatch, on_message,
  reject_all, fail_pending, exited, on_exit, channel_closed,
}

-- How often a key stands in a list, and among the settled.
abbrev pub times : Text → List Text → ℕ
times id [] = 0
times id (j ∷ ids) = if text_eq j id then suc (times id ids) else times id ids

abbrev pub times_settled : Text → List (Text × Settled) → ℕ
times_settled id [] = 0
times_settled id ((j, s) ∷ settled) =
    if text_eq j id then suc (times_settled id settled) else times_settled id settled

-- A slot after events in any order, with the ids that were dispatched to it; a new id is one that
-- was not dispatched before.
pub data Served : List Text → WorkerSlot → Type 0 where
  spawned : Served [] (record { pending = []; settled = [] })
  dispatched :
      {ids : List Text} {slot : WorkerSlot}
      → Served ids slot
      → (id : Text) (sent : Bool) → times id ids ≡ 0
      → Served (id ∷ ids) (dispatch id sent slot)
  told :
      {ids : List Text} {slot : WorkerSlot}
      → Served ids slot
      → (m : PrivacyWorkerResponse) → Served ids (on_message m slot)
  errored :
      {ids : List Text} {slot : WorkerSlot}
      → Served ids slot
      → (e : Thrown) → Served ids (fail_pending e slot)
  gone :
      {ids : List Text} {slot : WorkerSlot}
      → Served ids slot
      → (index : ℕ) (code : Option ℕ) → Served ids (on_exit index code slot)

abbrev seen : Text → WorkerSlot → ℕ
seen id slot = times id slot.pending + times_settled id slot.settled

times-drop :
    (id key : Text) (pending : List Text)
    → is_pending key pending ≡ true
    → times id pending ≡ (if text_eq key id then 1 else 0) + times id (drop_pending key pending)
times-drop id key [] h = cc
times-drop id key (j ∷ pending) h = elim (Bool-cases (text_eq j key)) [
  | inl same ↦ let e : j ≡ key = (text_eq_iff j key).0 same in ground (arith, e)
  | inr differs ↦ ground (arith, times-drop id key pending)
]

seen-settle :
    (id key : Text) (s : Settled) (slot : WorkerSlot)
    → is_pending key slot.pending ≡ true
    → seen id (settle key s slot) ≡ seen id slot
seen-settle id key s slot h = ground (arith, times-drop id key slot.pending h)

seen-message :
    (id : Text) (m : PrivacyWorkerResponse) (slot : WorkerSlot)
    → seen id (on_message m slot) ≡ seen id slot
unfolding on_message
seen-message id ready slot = refl
seen-message id (result key answer) slot = elim (Bool-cases (is_pending key slot.pending)) [
  | inl there ↦ rw there (seen-settle id key (resolved answer) slot there)
  | inr absent ↦ rw absent refl
]

times-reject_all :
    (id : Text) (e : Thrown) (pending : List Text) (settled : List (Text × Settled))
    → times_settled id (reject_all e pending settled) ≡ times id pending + times_settled id settled
times-reject_all id e [] settled = omega arith
times-reject_all id e (j ∷ pending) settled =
    times-reject_all id e pending ((j, rejected e) ∷ settled) ∙ ground arith

seen-fail_pending :
    (id : Text) (e : Thrown) (slot : WorkerSlot) → seen id (fail_pending e slot) ≡ seen id slot
unfolding fail_pending
seen-fail_pending id e slot = omega (arith, times-reject_all id e slot.pending slot.settled)

seen-exit :
    (id : Text) (index : ℕ) (code : Option ℕ) (slot : WorkerSlot)
    → seen id (on_exit index code slot) ≡ seen id slot
unfolding on_exit
seen-exit id index none slot = refl
seen-exit id index (some code) slot = elim (Bool-cases (code == 0)) [
  | inl zero_code ↦ rw zero_code refl
  | inr other_code ↦ rw other_code (seen-fail_pending id (exited index code) slot)
]

times-append :
    (id key : Text) (pending : List Text)
    → times id (pending ++ key ∷ []) ≡ (if text_eq key id then 1 else 0) + times id pending
times-append id key [] = ground arith
times-append id key (j ∷ pending) = ground (arith, times-append id key pending)

append-IsPending : (id : Text) (pending : List Text) → is_pending id (pending ++ id ∷ []) ≡ true
append-IsPending id [] = rw (text_eq_refl id) refl
append-IsPending id (j ∷ pending) = elim (Bool-cases (text_eq j id)) [
  | inl same ↦ rw same refl
  | inr differs ↦ rw differs (append-IsPending id pending)
]

seen-waiting :
    (id key : Text) (slot : WorkerSlot)
    → seen id (record slot { pending = slot.pending ++ key ∷ [] })
      ≡ (if text_eq key id then 1 else 0) + seen id slot
seen-waiting id key slot = ground (arith, times-append id key slot.pending)

seen-dispatch :
    (id key : Text) (sent : Bool) (slot : WorkerSlot)
    → seen id (dispatch key sent slot) ≡ (if text_eq key id then 1 else 0) + seen id slot
unfolding dispatch
seen-dispatch id key true slot = seen-waiting id key slot
seen-dispatch id key false slot =
    seen-settle id key (rejected channel_closed)
      (record slot { pending = slot.pending ++ key ∷ [] }) (append-IsPending key slot.pending)
    ∙ seen-waiting id key slot

-- Of the jobs dispatched to a worker under new ids, whatever messages, errors and ends of the process
-- come, each is pending or settled, once: no promise is lost, settled twice, or settled and still
-- pending; and no other id is there.
pub settles_once :
    (ids : List Text) (slot : WorkerSlot) (id : Text)
    → Served ids slot
    → (times id slot.pending + times_settled id slot.settled ≡ times id ids) × (times id ids ≤ 1)
settles_once ids slot id spawned = (refl, omega arith)
settles_once ids slot id (dispatched {ids = before} {slot = s} r key sent fresh) =
    let (e, once) = settles_once before s id r in
    let counted = seen-dispatch id key sent s in
    elim (Bool-cases (text_eq key id)) [
      | inl same ↦
          let at_id : times id before ≡ 0 =
            subst (λ x. times x before ≡ 0) ((text_eq_iff key id).0 same) fresh in
          ground arith
      | inr differs ↦ ground arith
    ]
settles_once ids slot id (told {slot = s} r m) =
    let (e, once) = settles_once ids s id r in (seen-message id m s ∙ e, once)
settles_once ids slot id (errored {slot = s} r x) =
    let (e, once) = settles_once ids s id r in (seen-fail_pending id x s ∙ e, once)
settles_once ids slot id (gone {slot = s} r index code) =
    let (e, once) = settles_once ids s id r in (seen-exit id index code s ∙ e, once)
