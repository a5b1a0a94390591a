-- ===== src/Operations/Service/Surfaces.antt =====
-- privacy/operations/privacy-operations.service.ts over prove-worker-pool.ts and
-- privacy-job-runner.ts: what a job that throws in a worker is for the caller of the service.
use pl_backend_sdk_demo.Prelude.{
  true, ◌≡◌, refl, ap, ◌∙◌, List, Text, includes, if◌then◌else◌, Bool-cases, inl, inr, Thrown,
  thrown_text, plain_error, Result, ok, thrown, Exec, on_throw,
}
use pl_backend_sdk_demo.Jobs.{PrivacyWorkerJob, PrivacyWorkerSuccess, PrivacyWorkerResult}
use pl_backend_sdk_demo.Sdk.{Sdk}
use pl_backend_sdk_demo.Proving
use pl_backend_sdk_demo.Proving.{answer_of}
use pl_backend_sdk_demo.Operations.Finalize.{Worker, Registry}
use pl_backend_sdk_demo.Operations.Runner
use pl_backend_sdk_demo.Operations.Runner.{RunnerEnv, handle, failed, settled, kyt_unauthenticated}
use pl_backend_sdk_demo.Operations.Service.{
  OperationPorts, has_kyt_flag, translated, unauthorized, rethrow, run_job,
}

module _ (sdk : Sdk) (env : RunnerEnv) (registry : Registry sdk.World) where
  -- A worker that runs the job and answers.
  abbrev pub in_worker : PrivacyWorkerJob → Exec (Worker sdk.World) PrivacyWorkerResult
  in_worker job s = let (answer, t) = Runner.run sdk env registry job s in (ok answer, t)

  -- What the service makes of what the handler of a job threw.
  abbrev pub surfaced_error : Thrown → Thrown
  surfaced_error e =
      if includes (thrown_text e) kyt_unauthenticated
      then unauthorized
      else plain_error (thrown_text e)

  abbrev pub surfaced :
      Result PrivacyWorkerSuccess × Worker sdk.World
      → Result PrivacyWorkerSuccess × Worker sdk.World
  surfaced (ok answer, t) = (ok answer, t)
  surfaced (thrown e, t) = (thrown (surfaced_error e), t)

  abbrev after_worker :
      PrivacyWorkerResult × Worker sdk.World → Result PrivacyWorkerSuccess × Worker sdk.World
  after_worker (answer, t) = (answer_of answer, t)

  abbrev rethrown :
      Result PrivacyWorkerSuccess × Worker sdk.World
      → Result PrivacyWorkerSuccess × Worker sdk.World
  rethrown (ok answer, t) = (ok answer, t)
  rethrown (thrown e, t) = (thrown (translated e), t)

  flagged :
      (e : Thrown) (t : Worker sdk.World)
      → rethrown (after_worker (failed sdk env registry e, t)) ≡ (thrown (surfaced_error e), t)
  unfolding failed answer_of translated has_kyt_flag
  flagged e t = elim (Bool-cases (includes (thrown_text e) kyt_unauthenticated)) [
    | inl h ↦ rw h refl
    | inr h ↦ rw h refl
  ]

  rethrown-surfaced :
      (r : Result PrivacyWorkerSuccess × Worker sdk.World)
      → rethrown (after_worker (settled sdk env registry r)) ≡ surfaced r
  rethrown-surfaced (ok answer, t) = unfold answer_of in refl
  rethrown-surfaced (thrown e, t) = flagged e t

  on_throw-rethrown :
      (ports : OperationPorts (Worker sdk.World))
      (r : Result PrivacyWorkerSuccess × Worker sdk.World)
      → on_throw (rethrow ports) r ≡ rethrown r
  on_throw-rethrown ports (ok answer, t) = refl
  on_throw-rethrown ports (thrown e, t) = refl

-- Where the lock runs what it is given and a ready pool runs a job in a worker, a job of the service
-- returns what its handler returns, with the state that the handler leaves; and where the handler
-- throws, the service throws an error with the same message, or, if the message says that a KYT
-- inspection was not authenticated, the exception of status 401.
pub run_job-surfaced :
    (sdk : Sdk) (env : RunnerEnv) (registry : Registry sdk.World)
    (ports : OperationPorts (Worker sdk.World)) (keys : List Text) (job : PrivacyWorkerJob)
    (s : Worker sdk.World)
    → ((m : Exec (Worker sdk.World) PrivacyWorkerSuccess) → ports.run_exclusive keys m s ≡ m s)
    → ports.run_worker job s ≡ Proving.run true (in_worker sdk env registry) job s
    → run_job ports keys job s ≡ surfaced sdk env registry (handle sdk env registry job s)
unfolding run_job Proving.run Runner.run
run_job-surfaced sdk env registry ports keys job s exclusive worker =
    ap (on_throw (rethrow ports)) (exclusive (ports.run_worker job) ∙ worker)
    ∙ on_throw-rethrown sdk env registry ports
        (after_worker sdk env registry (settled sdk env registry (handle sdk env registry job s)))
    ∙ rethrown-surfaced sdk env registry (handle sdk env registry job s)
