-- ===== src/Proving.antt =====
-- privacy/proving/prove-worker-pool.ts and prove-worker.ts. A slot is a worker process with the jobs
-- that wait for its answer; what a promise was settled with is kept beside. Forked processes and
-- their messages are events that come in any order.
pub mod Settles
use pl_backend_sdk_demo.Prelude.{
  ℕ, Bool, true, false, ◌&&◌, not, Option, none, some, List, [], ◌∷◌, ◌++◌, map, filter, Text,
  codes, text_eq, ◌==◌, to_decimal, if◌then◌else◌, Thrown, error, plain_error, Result, ok, thrown,
  Exec, raise, lift, ◌>>=◌,
}
use pl_backend_sdk_demo.Json.{Json, obj, has_own}
use pl_backend_sdk_demo.Jobs.{
  PrivacyWorkerJob, PrivacyWorkerSuccess, PrivacyWorkerResult, success, failure,
  PrivacyWorkerResponse, ready, result,
}

pub data Settled : Type 0 where
  resolved : PrivacyWorkerResult → Settled
  rejected : Thrown → Settled

-- `pending` holds the ids of the requests in the order of the map, `settled` what their promises ended with, the last first.
pub record WorkerSlot : Type 0 where
  pub pending : List Text
  pub settled : List (Text × Settled)

abbrev pub is_pending : Text → List Text → Bool
is_pending id [] = false
is_pending id (j ∷ pending) = if text_eq j id then true else is_pending id pending

abbrev pub drop_pending : Text → List Text → List Text
drop_pending id [] = []
drop_pending id (j ∷ pending) = if text_eq j id then pending else j ∷ drop_pending id pending

-- A promise of the map is settled and leaves it.
abbrev pub settle : Text → Settled → WorkerSlot → WorkerSlot
settle id with_it slot = record {
  pending = drop_pending id slot.pending;
  settled = (id, with_it) ∷ slot.settled;
}

abbrev pub channel_closed : Thrown
channel_closed = plain_error (codes "Prove worker IPC channel is closed.")

-- `dispatch` under a new id, where `sent` is what `worker.send` returned.
unfoldable pub dispatch : Text → Bool → WorkerSlot → WorkerSlot
dispatch id sent slot =
    let waiting = record slot { pending = slot.pending ++ id ∷ [] } in
    if sent then waiting else settle id (rejected channel_closed) waiting

-- The handler of `message`.
unfoldable pub on_message : PrivacyWorkerResponse → WorkerSlot → WorkerSlot
on_message ready slot = slot
on_message (result id answer) slot =
    if is_pending id slot.pending then settle id (resolved answer) slot else slot

abbrev pub reject_all : Thrown → List Text → List (Text × Settled) → List (Text × Settled)
reject_all e [] settled = settled
reject_all e (id ∷ pending) settled = reject_all e pending ((id, rejected e) ∷ settled)

unfoldable pub fail_pending : Thrown → WorkerSlot → WorkerSlot
fail_pending e slot = record { pending = []; settled = reject_all e slot.pending slot.settled }

abbrev pub exited : ℕ → ℕ → Thrown
exited index code =
    plain_error
      (codes "Prove worker " ++ to_decimal index ++ codes " exited with code " ++ to_decimal code)

-- The handler of `exit`; a worker that a signal ended has no code.
unfoldable pub on_exit : ℕ → Option ℕ → WorkerSlot → WorkerSlot
on_exit index none slot = slot
on_exit index (some code) slot = if code == 0 then slot else fail_pending (exited index code) slot

-- Lines 77 to 82: a failure becomes an error that has its flag.
unfoldable pub answer_of : PrivacyWorkerResult → Result PrivacyWorkerSuccess
answer_of (success a) = ok a
answer_of (failure f) = thrown (
    error (record {
      message = f.error;
      public_reason = none;
      kyt_unauthenticated = f.kyt_unauthenticated;
      status = none;
    }))

-- `run`, where `pool_run` is the pool's `run` with `dispatch` under it.
unfoldable pub run :
    {W : Type 0}
    → Bool
    → (PrivacyWorkerJob → Exec W PrivacyWorkerResult)
    → PrivacyWorkerJob
    → Exec W PrivacyWorkerSuccess
run is_ready pool_run job =
    if is_ready
    then (pool_run job >>= λ answer. lift (answer_of answer))
    else raise (plain_error (codes "Prove worker pool is not ready."))

-- What a new process does, in the order in which it does it.
pub data WorkerEvent : Type 0 where
  message : PrivacyWorkerResponse → WorkerEvent
  failed : Thrown → WorkerEvent
  ended : Text → WorkerEvent

-- `waitForReady`, which waits on where no event decides.
unfoldable pub wait_for_ready : List WorkerEvent → Option (Result (Unit {0}))
wait_for_ready [] = none
wait_for_ready (message ready ∷ events) = some (ok tt)
wait_for_ready (message (result id answer) ∷ events) = wait_for_ready events
wait_for_ready (failed e ∷ events) = some (thrown e)
wait_for_ready (ended code ∷ events) =
    some (thrown (plain_error (codes "Prove worker exited before ready with code " ++ code)))

-- `isPrivacyWorkerRequest`
unfoldable pub is_privacy_worker_request : Json → Bool
is_privacy_worker_request (obj t) = has_own (codes "id") t && has_own (codes "job") t
is_privacy_worker_request _ = false
