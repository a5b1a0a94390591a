-- ===== src/Operations/Runner/Registers.antt =====
-- privacy/operations/privacy-job-runner.ts: the row of an account that registers.
use pl_backend_sdk_demo.Prelude.{
  true, ◌≡◌, refl, ap, some, List, [], ◌∷◌, Text, ◌>>=◌, Keeps, Post, Post-pure, Post-bind,
  Keeps-bind, Exec,
}
use pl_backend_sdk_demo.Jobs.{PrivacyWorkerSuccess}
use pl_backend_sdk_demo.Persistence.{HdAccount}
use pl_backend_sdk_demo.Accounts.{save_row}
use pl_backend_sdk_demo.Sdk.{Sdk}
use pl_backend_sdk_demo.Operations.Finalize.{Worker, Registry}
use pl_backend_sdk_demo.Operations.Finalize.Kept.{client-Keeps}
use pl_backend_sdk_demo.Operations.Runner.{
  RunnerEnv, find_by_key, Handler, world, client, keypair, require_account, register, sign_in,
  address_record, record_registered, save_wallet, register_address,
}
use pl_backend_sdk_demo.Operations.Runner.Kept.{
  IsBefore, Same, Untouched, then_Post, require_account-Post, keypair-Keeps, lookup-Keeps,
}

module _ (sdk : Sdk) (env : RunnerEnv) (registry : Registry sdk.World)
    (before : List HdAccount) where
  step :
      {A B : Type 0} {P : B → Worker sdk.World → Type 0} (m : Handler sdk env registry A)
      (f : A → Handler sdk env registry B)
      → Keeps (Same sdk env registry before) m
      → ((a : A) (s : Worker sdk.World)
          → Same sdk env registry before s
          → Post P (Untouched sdk env registry before) (f a s))
      → (s : Worker sdk.World) → Same sdk env registry before s
      → Post P (Untouched sdk env registry before) ((m >>= f) s)
  step = then_Post sdk env registry before

  save_wallet-Keeps :
      (key address scalar : Text)
      → Keeps (Same sdk env registry before) (save_wallet sdk env registry key address scalar)
  save_wallet-Keeps key address scalar s h =
      kept
        (sdk.save_address_record key
          (address_record sdk env registry key address (sdk.now s.world)))
        _
        (kept (sdk.save_address_scalar key key sdk.default_nonce scalar) _
          (kept (sdk.set_default_nonce key key sdk.default_nonce) _ (λ s h. h)))
        s h
    where
      kept :
          (m : Exec sdk.World (Unit {0})) (rest : Handler sdk env registry (Unit {0}))
          → Keeps (Same sdk env registry before) rest
          → Keeps (Same sdk env registry before) (world sdk env registry m >>= λ _. rest)
      kept m rest k =
          Keeps-bind (Same sdk env registry before) (world sdk env registry m) _ (λ s h. h) (λ _. k)

  register_address-Keeps :
      (key address : Text)
      → Keeps (Same sdk env registry before) (register_address sdk env registry key address)
  register_address-Keeps key address =
      Keeps-bind (Same sdk env registry before)
        (world sdk env registry (sdk.register_private_address key key address)) _ (λ s h. h)
        (λ _.
          Keeps-bind (Same sdk env registry before)
            (world sdk env registry (sdk.check_registration_status key key)) _ (λ s h. h)
            (λ status. lookup-Keeps sdk env registry before key status))

  -- The account of the key, with the address that the job answers.
  abbrev pub Registered : Text → PrivacyWorkerSuccess → Worker sdk.World → Type 0
  Registered key answer s =
      (a : HdAccount) × (address : Text) × (find_by_key key before ≡ some a)
      × (answer.private_address ≡ some address)
      × (s.accounts
          ≡ save_row (record a { private_address = some address; registered = true }) before)

  pub register-Registered :
      (key : Text) (s : Worker sdk.World)
      → Same sdk env registry before s
      → Post (Registered key) (Untouched sdk env registry before) (register sdk env registry key s)
  unfolding register
  register-Registered key =
      step (world sdk env registry (registry.refresh (key ∷ []))) _ (λ s h. h)
        (λ _ s1 h1.
          Post-bind (require_account sdk env registry key s1) _
            (require_account-Post sdk env registry before key s1 h1)
            (λ a s2 (found, h2).
              step (client sdk env registry key) _
                (client-Keeps sdk env.relay registry (IsBefore sdk env registry before) key)
                (λ _.
                  step (keypair sdk env registry key) _ (keypair-Keeps sdk env registry before key)
                    (λ _.
                      step
                        (world sdk env registry
                          (sdk.generate_private_address (sign_in sdk env registry key) env.domain))
                        _ (λ s h. h)
                        (λ address.
                          step
                            (world sdk env registry
                              (sdk.spend_scalar_hex (sign_in sdk env registry key) env.domain))
                            _ (λ s h. h)
                            (λ scalar.
                              step (save_wallet sdk env registry key address scalar) _
                                (save_wallet-Keeps key address scalar)
                                (λ _.
                                  step (register_address sdk env registry key address)
                                    (λ _. record_registered sdk env registry key a address)
                                    (register_address-Keeps key address)
                                    (λ _ s3 h3. Post-pure _ _ (
                                      a,
                                      address,
                                      found,
                                      refl,
                                      ap
                                          (save_row (record a {
                                            private_address = some address;
                                            registered = true;
                                          }))
                                          h3,
                                    )))))))
                s2 h2))
