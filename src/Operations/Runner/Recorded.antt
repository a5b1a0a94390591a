-- ===== src/Operations/Runner/Recorded.antt =====
-- privacy/operations/privacy-job-runner.ts: what a job leaves in the table of accounts.
use pl_backend_sdk_demo.Prelude.{
  true, ◌≡◌, refl, some, List, ℤ, Text, big_int, Result, ok, thrown, Keeps, Keeps-Post, Post,
  Post-lift, Post-weaken,
}
use pl_backend_sdk_demo.Jobs.{
  PrivacyWorkerJob, register_job, deposit_job, transfer_job, withdraw_job, PrivacyWorkerSuccess,
  PrivacyWorkerResult, success, failure,
}
use pl_backend_sdk_demo.Persistence.{HdAccount}
use pl_backend_sdk_demo.Accounts.{save_row}
use pl_backend_sdk_demo.Notes.Spendable.{big_int_or_throw}
use pl_backend_sdk_demo.Sdk.{Sdk}
use pl_backend_sdk_demo.Operations.Finalize.{Worker, Registry}
use pl_backend_sdk_demo.Operations.Runner.{
  RunnerEnv, find_by_key, Handler, deposit, withdraw, handle, failed, settled, run,
}
use pl_backend_sdk_demo.Operations.Runner.Kept.{Same, Untouched, deposit-Keeps, withdraw-Keeps}
use pl_backend_sdk_demo.Operations.Runner.Sent.{OneMore, big_int_of_ok, transfer-Counted}
use pl_backend_sdk_demo.Operations.Runner.Registers.{register-Registered}

-- The table that a job returns with, beside the one that it found and its answer.
abbrev pub RecordedJob :
    PrivacyWorkerJob → List HdAccount → PrivacyWorkerSuccess → List HdAccount → Type 0
RecordedJob (register_job key) before answer after =
    (a : HdAccount) × (address : Text) × (find_by_key key before ≡ some a)
    × (answer.private_address ≡ some address)
    × (after ≡ save_row (record a { private_address = some address; registered = true }) before)
RecordedJob (transfer_job sender recipient amount) before answer after =
    (a : HdAccount) × (b : HdAccount) × (z : ℤ) × (find_by_key sender before ≡ some a)
    × (big_int amount ≡ some z)
    × OneMore a z b
    × (after ≡ save_row b before)
RecordedJob _ before answer after = after ≡ before

abbrev pub Recorded :
    PrivacyWorkerJob → List HdAccount → PrivacyWorkerResult → List HdAccount → Type 0
Recorded job before (success answer) after = RecordedJob job before answer after
Recorded job before (failure f) after = after ≡ before

module _ (sdk : Sdk) (env : RunnerEnv) (registry : Registry sdk.World)
    (before : List HdAccount) where
  then_Untouched :
      {P : PrivacyWorkerSuccess → Worker sdk.World → Type 0}
      (m : Handler sdk env registry PrivacyWorkerSuccess)
      → Keeps (Same sdk env registry before) m
      → ((answer : PrivacyWorkerSuccess) (t : Worker sdk.World)
          → Same sdk env registry before t
          → P answer t)
      → (s : Worker sdk.World) → Same sdk env registry before s
      → Post P (Untouched sdk env registry before) (m s)
  then_Untouched m k f s h =
      Post-weaken (Keeps-Post (Same sdk env registry before) m k s h) f (λ _ _ e. e)

  abbrev pub Left : PrivacyWorkerJob → PrivacyWorkerSuccess → Worker sdk.World → Type 0
  Left job answer s = RecordedJob job before answer s.accounts

  pub handle-Left :
      (job : PrivacyWorkerJob) (s : Worker sdk.World)
      → Same sdk env registry before s
      → Post (Left job) (Untouched sdk env registry before) (handle sdk env registry job s)
  unfolding handle
  handle-Left (register_job key) s h = register-Registered sdk env registry before key s h
  handle-Left (deposit_job key amount) s h =
      Post-lift (big_int_or_throw amount) _ s (λ _ _. h)
        (λ z _.
          then_Untouched (deposit sdk env registry key z)
            (deposit-Keeps sdk env registry before key z) (λ _ _ e. e) s h)
  handle-Left (withdraw_job key amount) s h =
      Post-lift (big_int_or_throw amount) _ s (λ _ _. h)
        (λ z _.
          then_Untouched (withdraw sdk env registry key z)
            (withdraw-Keeps sdk env registry before key z) (λ _ _ e. e) s h)
  handle-Left (transfer_job sender recipient amount) s h =
      Post-lift (big_int_or_throw amount) _ s (λ _ _. h)
        (λ z read.
          Post-weaken (transfer-Counted sdk env registry before sender recipient z s h)
            (λ answer t (a, b, found, more, saved).
              (a, b, z, found, big_int_of_ok amount z read, more, saved))
            (λ _ _ e. e))

  settled-Recorded :
      (job : PrivacyWorkerJob) (r : Result PrivacyWorkerSuccess × Worker sdk.World)
      → Post (Left job) (Untouched sdk env registry before) r
      → Recorded job before (settled sdk env registry r).0 (settled sdk env registry r).1.accounts
  unfolding failed
  settled-Recorded job (ok answer, t) h = h.returns answer t refl
  settled-Recorded job (thrown e, t) h = h.throws e t refl

-- A job always answers. A failed job leaves the table of accounts as it was; so do a deposit and a
-- withdrawal. A registration saves the account with the address that it answers, as registered, and
-- a transfer saves the sender with one more transfer and the job's amount more in volume; either
-- account was in the table, and no other row changes.
pub run-Recorded :
    (sdk : Sdk) (env : RunnerEnv) (registry : Registry sdk.World) (job : PrivacyWorkerJob)
    (s : Worker sdk.World)
    → Recorded job s.accounts (run sdk env registry job s).0 (run sdk env registry job s).1.accounts
unfolding run
run-Recorded sdk env registry job s =
    settled-Recorded sdk env registry s.accounts job (handle sdk env registry job s)
      (handle-Left sdk env registry s.accounts job s refl)
