-- ===== src/Operations/Runner/Sent.antt =====
-- privacy/operations/privacy-job-runner.ts: the row of the sender after a transfer.
use pl_backend_sdk_demo.Prelude.{
  inl, inr, arith, ◌≡◌, ap, some, List, [], ◌∷◌, ℤ, pos, ◌+ℤ◌, Text, big_int, big_text, ok,
  Result-cases, ◌>>=◌, Keeps, Post, Post-pure, Post-bind, Post-lift, Keeps-bind,
}
use pl_backend_sdk_demo.Jobs.{PrivacyWorkerSuccess, private_transfer_disclosure}
use pl_backend_sdk_demo.Persistence.{HdAccount}
use pl_backend_sdk_demo.Accounts.{save_row}
use pl_backend_sdk_demo.Notes.Spendable.{big_int_or_throw}
use pl_backend_sdk_demo.Sdk.{Sdk}
use pl_backend_sdk_demo.Operations.Finalize.{Worker, Registry}
use pl_backend_sdk_demo.Operations.Finalize.Kept.{client-Keeps}
use pl_backend_sdk_demo.Operations.Runner.{
  RunnerEnv, find_by_key, sent_one, Handler, world, client, require_account, require_address,
  request, both_registered, transfer, send_to,
}
use pl_backend_sdk_demo.Operations.Runner.Kept.{
  IsBefore, Same, Untouched, then_Post, require_account-Post, require_account-Keeps, address-Keeps,
  submit-Same,
}

-- A sender's row with one more transfer of an amount.
abbrev pub OneMore : HdAccount → ℤ → HdAccount → Type 0
OneMore a amount b =
    (count : ℤ) × (volume : ℤ) × (big_int a.sent_count ≡ some count)
    × (big_int a.sent_volume_stroops ≡ some volume)
    × (b ≡ record a {
      sent_count = big_text (count +ℤ pos 1);
      sent_volume_stroops = big_text (volume +ℤ amount);
    })

pub big_int_of_ok : (s : Text) (z : ℤ) → big_int_or_throw s ≡ ok z → big_int s ≡ some z
big_int_of_ok s z e = ground arith

sent_one-OneMore : (a b : HdAccount) (amount : ℤ) → sent_one a amount ≡ ok b → OneMore a amount b
unfolding sent_one
sent_one-OneMore a b amount e = elim (Result-cases (big_int_or_throw a.sent_count)) [
  | inl (x, h) ↦ absurd (ground arith)
  | inr (count, h) ↦ elim (Result-cases (big_int_or_throw a.sent_volume_stroops)) [
    | inl (x, k) ↦ absurd (ground arith)
    | inr (volume, k) ↦ (
      count,
      volume,
      big_int_of_ok a.sent_count count h,
      big_int_of_ok a.sent_volume_stroops volume k,
      ground arith,
    )
  ]
]

module _ (sdk : Sdk) (env : RunnerEnv) (registry : Registry sdk.World)
    (before : List HdAccount) where
  abbrev pub Counted : Text → Text → ℤ → PrivacyWorkerSuccess → Worker sdk.World → Type 0
  Counted sender recipient amount answer s =
      (a : HdAccount) × (b : HdAccount) × (find_by_key sender before ≡ some a)
      × OneMore a amount b
      × (s.accounts ≡ save_row b before)

  step :
      {A B : Type 0} {P : B → Worker sdk.World → Type 0} (m : Handler sdk env registry A)
      (f : A → Handler sdk env registry B)
      → Keeps (Same sdk env registry before) m
      → ((a : A) (s : Worker sdk.World)
          → Same sdk env registry before s
          → Post P (Untouched sdk env registry before) (f a s))
      → (s : Worker sdk.World) → Same sdk env registry before s
      → Post P (Untouched sdk env registry before) ((m >>= f) s)
  step = then_Post sdk env registry before

  send_to-Keeps :
      (sender recipient from : Text) (amount : ℤ)
      → Keeps (Same sdk env registry before) (send_to sdk env registry sender recipient from amount)
  send_to-Keeps sender recipient from amount =
      Keeps-bind (Same sdk env registry before)
        (world sdk env registry (sdk.resolve_recipient sender recipient)) _ (λ s h. h)
        (λ to.
          Keeps-bind (Same sdk env registry before)
            (world sdk env registry (
              sdk.transfer sender
                (request sdk env registry from to amount private_transfer_disclosure)))
            _ (λ s h. h) (λ o. submit-Same sdk env registry before _ sender _ o))

  pub transfer-Counted :
      (sender recipient : Text) (amount : ℤ) (s : Worker sdk.World)
      → Same sdk env registry before s
      → Post
          (Counted sender recipient amount)
          (Untouched sdk env registry before)
          (transfer sdk env registry sender recipient amount s)
  unfolding transfer
  transfer-Counted sender recipient amount =
      step (world sdk env registry (registry.refresh (sender ∷ recipient ∷ []))) _ (λ s h. h)
        (λ _ s1 h1.
          Post-bind (require_account sdk env registry sender s1) _
            (require_account-Post sdk env registry before sender s1 h1)
            (λ a s2 (found, h2).
              step (require_account sdk env registry recipient) _
                (require_account-Keeps sdk env registry before recipient)
                (λ b.
                  step
                    (require_address sdk env registry (both_registered sdk env registry)
                      a.private_address)
                    _ (address-Keeps sdk env registry before _ a.private_address)
                    (λ from.
                      step
                        (require_address sdk env registry (both_registered sdk env registry)
                          b.private_address)
                        _ (address-Keeps sdk env registry before _ b.private_address)
                        (λ _.
                          step (client sdk env registry sender) _
                            (client-Keeps sdk env.relay registry (IsBefore sdk env registry before)
                              sender)
                            (λ _.
                              step (world sdk env registry (sdk.sync_pool sender sender)) _
                                (λ s h. h)
                                (λ _.
                                  step (send_to sdk env registry sender recipient from amount) _
                                    (send_to-Keeps sender recipient from amount)
                                    (λ tx_id s3 h3.
                                      Post-lift (sent_one a amount) _ s3 (λ _ _. h3)
                                        (λ counted e. Post-pure _ _ (
                                          a,
                                          counted,
                                          found,
                                          sent_one-OneMore a counted amount e,
                                          ap (save_row counted) h3,
                                        ))))))))
                s2 h2))
