-- ===== src/Operations/Service/CountsOne.antt =====
-- privacy/operations/privacy-operations.service.ts over the runner and the table of accounts: what a
-- transfer shows of its sender.
use pl_backend_sdk_demo.Prelude.{
  Bool, true, false, ◌≡◌, refl, sym, ap, ◌∙◌, subst, Option, some, List, [], ◌∷◌, ℤ, pos, ◌+ℤ◌,
  Text, big_int, big_text, big_int-big_text, Thrown, Result, ok, thrown, Exec, lift, Keeps,
  Keeps-bind, Post, Post-pure, Post-raise, Post-bind, Post-weaken, Keeps-Post, Anyway, arith,
}
use pl_backend_sdk_demo.Jobs.{PrivacyWorkerJob, transfer_job, PrivacyWorkerSuccess}
use pl_backend_sdk_demo.Persistence.{HdAccount, LogEntry}
use pl_backend_sdk_demo.Accounts.{save_row}
use pl_backend_sdk_demo.ProtocolFee.Request.{Kind, transfer}
use pl_backend_sdk_demo.Notes.Delivery.{truthy}
use pl_backend_sdk_demo.Sdk.{Sdk}
use pl_backend_sdk_demo.Proving
use pl_backend_sdk_demo.Operations.Finalize.{Worker, Registry}
use pl_backend_sdk_demo.Operations.Runner.{RunnerEnv, find_by_key, handle}
use pl_backend_sdk_demo.Operations.Runner.Kept.{Untouched}
use pl_backend_sdk_demo.Operations.Runner.Sent.{OneMore}
use pl_backend_sdk_demo.Operations.Runner.Recorded.{RecordedJob, Left, handle-Left}
use pl_backend_sdk_demo.Operations.Service.{
  OperationPorts, run_job, require_registered, both_not_registered, quoted_fee_stroops, fee_or_zero,
  transfer_stroops,
}
use pl_backend_sdk_demo.Operations.Service.Surfaces.{in_worker, surfaced, run_job-surfaced}
use pl_backend_sdk_demo.Operations.Runner.Rows.{HasDistinctIndices, find-save_row}

-- What the service's ports do with one worker: the lock runs its job, the pool runs it in the worker,
-- the account is read from the table, and quotes and the log touch no account.
pub record OverWorker (sdk : Sdk) (env : RunnerEnv) (registry : Registry sdk.World)
    (ports : OperationPorts (Worker sdk.World)) : Type 0 where
  pub exclusive :
      (keys : List Text) (m : Exec (Worker sdk.World) PrivacyWorkerSuccess) (s : Worker sdk.World)
      → ports.run_exclusive keys m s ≡ m s
  pub worker :
      (job : PrivacyWorkerJob) (s : Worker sdk.World)
      → ports.run_worker job s ≡ Proving.run true (in_worker sdk env registry) job s
  pub finds :
      (key : Text) (a : HdAccount) (s : Worker sdk.World)
      → find_by_key key s.accounts ≡ some a
      → ports.find_account key s ≡ (ok a, s)
  pub quotes :
      (kind : Kind) (amount : ℤ) (s : Worker sdk.World)
      → (ports.quote_or_undefined kind amount s).1.accounts ≡ s.accounts
  pub logs : (e : LogEntry) (s : Worker sdk.World) → (ports.append e s).1.accounts ≡ s.accounts

-- The sender as the service returns it: its counters are those of its row, with one more transfer.
abbrev pub ShowsOne : List HdAccount → HdAccount → ℤ → HdAccount → Type 0
ShowsOne table sender amount shown =
    (a : HdAccount) × (count : ℤ) × (volume : ℤ) × (find_by_key sender.public_key table ≡ some a)
    × (big_int a.sent_count ≡ some count)
    × (big_int a.sent_volume_stroops ≡ some volume)
    × (shown ≡ record sender {
      sent_count = big_text (count +ℤ pos 1);
      sent_volume_stroops = big_text (volume +ℤ amount);
    })

module _ (sdk : Sdk) (env : RunnerEnv) (registry : Registry sdk.World)
    (ports : OperationPorts (Worker sdk.World)) (over : OverWorker sdk env registry ports)
    (sender recipient : HdAccount) (amount : ℤ) (table : List HdAccount)
    (distinct : HasDistinctIndices table) where
  abbrev keys : List Text
  keys = sender.public_key ∷ recipient.public_key ∷ []

  abbrev job : PrivacyWorkerJob
  job = transfer_job sender.public_key recipient.public_key (big_text amount)

  abbrev Counted : Worker sdk.World → Type 0
  Counted t =
      (a : HdAccount) × (b : HdAccount) × (find_by_key sender.public_key table ≡ some a)
      × OneMore a amount b
      × (t.accounts ≡ save_row b table)

  same_amount : (z : ℤ) → big_int (big_text amount) ≡ some z → z ≡ amount
  same_amount z e =
      let both : ◌≡◌ {A = Option ℤ} (some z) (some amount) = sym e ∙ big_int-big_text amount in
      ground arith

  Counted-of :
      (answer : PrivacyWorkerSuccess) (t : Worker sdk.World)
      → RecordedJob job table answer t.accounts
      → Counted t
  Counted-of answer t (a, b, z, found, read, more, saved) =
      (a, b, found, subst (λ x. OneMore a x b) (same_amount z read) more, saved)

  surfaced-Counted :
      (r : Result PrivacyWorkerSuccess × Worker sdk.World)
      → Post (Left sdk env registry table job) (Untouched sdk env registry table) r
      → Post (λ _ t. Counted t) Anyway (surfaced sdk env registry r)
  surfaced-Counted (ok answer, t) h =
      Post-pure answer t (Counted-of answer t (h.returns answer t refl))
  surfaced-Counted (thrown e, t) h = Post-raise _ t tt

  job-Counted :
      (s : Worker sdk.World)
      → s.accounts ≡ table
      → Post (λ _ t. Counted t) Anyway (run_job ports keys job s)
  job-Counted s e =
      subst (λ r. Post (λ _ t. Counted t) Anyway r)
        (sym (
          run_job-surfaced sdk env registry ports keys job s (λ m. over.exclusive keys m s)
            (over.worker job s)))
        (surfaced-Counted (handle sdk env registry job s)
          (handle-Left sdk env registry table job s e))

  registered-Post :
      (e : Thrown) (b : Bool) (s : Worker sdk.World)
      → s.accounts ≡ table
      → Post (λ _ t. t.accounts ≡ table) Anyway (require_registered ports e b s)
  registered-Post e true s h = Post-pure tt s h
  registered-Post e false s h = Post-raise e s tt

  fee-Counted : Keeps Counted (quoted_fee_stroops ports transfer amount)
  unfolding quoted_fee_stroops
  fee-Counted =
      Keeps-bind Counted (ports.quote_or_undefined transfer amount)
        (λ quote. lift (fee_or_zero ports quote))
        (λ s (a, b, found, more, saved). (a, b, found, more, over.quotes transfer amount s ∙ saved))
        (λ quote s h. h)

  abbrev Fresh : HdAccount → Type 0
  Fresh fresh =
      (a : HdAccount) × (find_by_key sender.public_key table ≡ some a) × OneMore a amount fresh

  find-Fresh :
      (t : Worker sdk.World)
      → Counted t
      → Post (λ fresh _. Fresh fresh) Anyway (ports.find_account sender.public_key t)
  find-Fresh t (a, b, found, (count, volume, c, v, is), saved) =
      let index : b.hd_index ≡ a.hd_index = ap (λ (x : HdAccount). x.hd_index) is in
      let named : b.public_key ≡ a.public_key = ap (λ (x : HdAccount). x.public_key) is in
      let there : find_by_key sender.public_key t.accounts ≡ some b =
        ap (find_by_key sender.public_key) saved
        ∙ find-save_row sender.public_key table a b distinct found index named in
      subst (λ r. Post (λ fresh _. Fresh fresh) Anyway r)
        (sym (over.finds sender.public_key b t there))
        (Post-pure b t (a, found, (count, volume, c, v, is)))

  shown_of :
      (fresh : HdAccount)
      → Fresh fresh
      → ShowsOne table sender amount (record sender {
        sent_count = fresh.sent_count;
        sent_volume_stroops = fresh.sent_volume_stroops;
      })
  shown_of fresh (a, found, (count, volume, c, v, is)) = (
    a,
    count,
    volume,
    found,
    c,
    v,
    ap
        (λ (x : HdAccount). record sender {
          sent_count = x.sent_count;
          sent_volume_stroops = x.sent_volume_stroops;
        })
        is,
  )

  always :
      {A : Type 0} (Q : Type 0) (r : Result A × Worker sdk.World) → Q → Post (λ _ _. Q) Anyway r
  always Q (ok a, s) q = Post-pure a s q
  always Q (thrown e, s) q = Post-raise e s tt

  transfer-ShowsOne :
      (s : Worker sdk.World)
      → s.accounts ≡ table
      → Post
          (λ (shown, tx_id) _. ShowsOne table sender amount shown)
          Anyway
          (transfer_stroops ports sender recipient amount s)
  unfolding transfer_stroops
  transfer-ShowsOne s h =
      Post-bind (require_registered ports both_not_registered (truthy sender.private_address) s) _
        (registered-Post both_not_registered (truthy sender.private_address) s h)
        (λ _ s1 h1.
          Post-bind
            (require_registered ports both_not_registered (truthy recipient.private_address) s1) _
            (registered-Post both_not_registered (truthy recipient.private_address) s1 h1)
            (λ _ s2 h2. Post-bind (run_job ports keys job s2) _ (job-Counted s2 h2) (λ result s3 h3.
              Post-bind (quoted_fee_stroops ports transfer amount s3) _
                (Post-weaken
                  (Keeps-Post Counted (quoted_fee_stroops ports transfer amount) fee-Counted s3 h3)
                  (λ _ _ k. k) (λ _ _ _. tt))
                (λ fee s4 h4.
                  Post-bind (ports.find_account sender.public_key s4) _ (find-Fresh s4 h4)
                    (λ fresh s5 f.
                      Post-bind (ports.append _ s5) _
                        (always
                          (ShowsOne table sender amount (record sender {
                            sent_count = fresh.sent_count;
                            sent_volume_stroops = fresh.sent_volume_stroops;
                          }))
                          (ports.append _ s5) (shown_of fresh f))
                        (λ _ s6 shown. Post-pure _ s6 shown))))))

-- Over one worker, with no index twice in the table: a transfer that returns shows its sender with the
-- counters of the sender's row before it, one transfer and the amount more, as decimal texts. (The
-- amount goes to the worker as a text and is read back there.)
pub transfer_stroops-ShowsOne :
    (sdk : Sdk) (env : RunnerEnv) (registry : Registry sdk.World)
    (ports : OperationPorts (Worker sdk.World)) (sender recipient shown : HdAccount) (amount : ℤ)
    (s t : Worker sdk.World) (tx_id : Text)
    → OverWorker sdk env registry ports
    → HasDistinctIndices s.accounts
    → transfer_stroops ports sender recipient amount s ≡ (ok (shown, tx_id), t)
    → ShowsOne s.accounts sender amount shown
transfer_stroops-ShowsOne sdk env registry ports sender recipient shown amount s t tx_id over
      distinct e =
    (transfer-ShowsOne sdk env registry ports over sender recipient amount s.accounts distinct s
        refl).returns
      (shown, tx_id) t e
