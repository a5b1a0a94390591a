-- ===== src/Operations/Runner/Kept.antt =====
-- privacy/operations/privacy-job-runner.ts: the steps of a job that leave the table of accounts alone,
-- and the jobs that have no others.
use pl_backend_sdk_demo.Prelude.{
  Bool, true, false, ◌≡◌, ap, sym, Option, none, some, List, [], ◌∷◌, ◌++◌, ℤ, Text, codes, Thrown,
  plain_error, pure, raise, when, ◌>>=◌, Keeps, Keeps-bind, Keeps-Post, Post, Post-pure, Post-raise,
  Post-bind,
}
use pl_backend_sdk_demo.Jobs.{deposit_disclosure, public_withdraw_disclosure}
use pl_backend_sdk_demo.Persistence.{HdAccount}
use pl_backend_sdk_demo.Notes.Delivery.{truthy}
use pl_backend_sdk_demo.Sdk.{
  Sdk, StellarOperation, prepared, rejected, DisplayMetadata, RegistrationStatus,
}
use pl_backend_sdk_demo.Relay.{text_or_empty}
use pl_backend_sdk_demo.Operations.Finalize.{Worker, WalletScalar, Registry}
use pl_backend_sdk_demo.Operations.Finalize.Kept.{client-Keeps, Keeps-if, submit-Keeps}
use pl_backend_sdk_demo.Operations.Runner.{
  RunnerEnv, find_by_key, Handler, world, client, keypair, found_or_unknown, require_account,
  save_lookup, not_registered, require_address, request, receipt_id, execute_now, deposit, display,
  submit, withdraw,
}

module _ (sdk : Sdk) (env : RunnerEnv) (registry : Registry sdk.World)
    (before : List HdAccount) where
  abbrev pub IsBefore : List HdAccount → List WalletScalar → Type 0
  IsBefore accounts scalars = accounts ≡ before

  abbrev pub Same : Worker sdk.World → Type 0
  Same s = s.accounts ≡ before

  abbrev pub Untouched : Thrown → Worker sdk.World → Type 0
  Untouched e s = s.accounts ≡ before

  -- A step that keeps the table, before the rest.
  pub then_Post :
      {A B : Type 0} {P : B → Worker sdk.World → Type 0} (m : Handler sdk env registry A)
      (f : A → Handler sdk env registry B)
      → Keeps Same m
      → ((a : A) (s : Worker sdk.World) → Same s → Post P Untouched (f a s))
      → (s : Worker sdk.World) → Same s
      → Post P Untouched ((m >>= f) s)
  then_Post m f k rest s h = Post-bind (m s) f (Keeps-Post Same m k s h) rest

  account-found :
      (key : Text) (o : Option HdAccount) (s : Worker sdk.World)
      → find_by_key key before ≡ o
      → Same s
      → Post
          (λ a t. (find_by_key key before ≡ some a) × Same t)
          Untouched
          (found_or_unknown sdk env registry key o s)
  account-found key none s e h = Post-raise _ s h
  account-found key (some a) s e h = Post-pure a s (e, h)

  pub require_account-Post :
      (key : Text) (s : Worker sdk.World)
      → Same s
      → Post
          (λ a t. (find_by_key key before ≡ some a) × Same t)
          Untouched
          (require_account sdk env registry key s)
  unfolding require_account
  require_account-Post key s h =
      account-found key (find_by_key key s.accounts) s (ap (find_by_key key) (sym h)) h

  pub require_account-Keeps : (key : Text) → Keeps Same (require_account sdk env registry key)
  unfolding require_account
  require_account-Keeps key s h = found (find_by_key key s.accounts)
    where
      found : (o : Option HdAccount) → Same (found_or_unknown sdk env registry key o s).1
      found none = h
      found (some a) = h

  pub keypair-Keeps : (key : Text) → Keeps Same (keypair sdk env registry key)
  keypair-Keeps key =
      Keeps-if sdk env.relay registry IsBefore (registry.has_keypair key) (pure tt)
        (raise (plain_error (codes "No keypair for " ++ key))) (λ s p. p) (λ s p. p)

  pub address-Keeps :
      (m : Text) (address : Option Text) → Keeps Same (require_address sdk env registry m address)
  address-Keeps m address =
      Keeps-if sdk env.relay registry IsBefore (truthy address) (pure (text_or_empty address))
        (raise (plain_error m)) (λ s p. p) (λ s p. p)

  pub lookup-Keeps :
      (key : Text) (status : RegistrationStatus)
      → Keeps Same (save_lookup sdk env registry key status)
  lookup-Keeps key status =
      when-Keeps _
        (world sdk env registry
          (sdk.save_registry_lookup key key (text_or_empty status.private_address)))
        (λ s p. p)
    where
      when-Keeps :
          (b : Bool) (m : Handler sdk env registry (Unit {0}))
          → Keeps Same m
          → Keeps Same (when b m)
      when-Keeps true m k = k
      when-Keeps false m k = λ s p. p

  pub execute-Keeps :
      (o : StellarOperation sdk.World sdk.Consumed sdk.Details)
      → Keeps Same (execute_now sdk env registry o)
  execute-Keeps (prepared p execute) = λ s h. h
  execute-Keeps (rejected errors) = λ s h. h

  pub submit-Same :
      (m key : Text) (shown : DisplayMetadata sdk.Float)
      (o : StellarOperation sdk.World sdk.Consumed sdk.Details)
      → Keeps Same (submit sdk env registry m key shown o)
  submit-Same m key shown (prepared p execute) =
      submit-Keeps sdk env.relay registry IsBefore key p (receipt_id sdk env registry execute) shown
  submit-Same m key shown (rejected errors) = λ s h. h

  -- What a deposit and a withdrawal begin with, before what they do with the address.
  ready-Keeps :
      {A : Type 0} (key : Text) (m : Text) (rest : Text → Handler sdk env registry A)
      → ((address : Text) → Keeps Same (rest address))
      → Keeps Same (
          world sdk env registry (registry.refresh (key ∷ [])) >>= λ _.
          require_account sdk env registry key >>= λ account.
          require_address sdk env registry m account.private_address >>= λ address.
          client sdk env registry key >>= λ _.
          world sdk env registry (sdk.sync_pool key key) >>= λ _. rest address)
  ready-Keeps key m rest k =
      Keeps-bind Same (world sdk env registry (registry.refresh (key ∷ []))) _ (λ s h. h)
        (λ _.
          Keeps-bind Same (require_account sdk env registry key) _ (require_account-Keeps key)
            (λ account.
              Keeps-bind Same (require_address sdk env registry m account.private_address) _
                (address-Keeps m account.private_address)
                (λ address.
                  Keeps-bind Same (client sdk env registry key) _
                    (client-Keeps sdk env.relay registry IsBefore key)
                    (λ _.
                      Keeps-bind Same (world sdk env registry (sdk.sync_pool key key)) _ (λ s h. h)
                        (λ _. k address)))))

  pub deposit-Keeps : (key : Text) (amount : ℤ) → Keeps Same (deposit sdk env registry key amount)
  unfolding deposit
  deposit-Keeps key amount = ready-Keeps key (not_registered sdk env registry) _ (λ address.
      Keeps-bind Same
        (world sdk env registry
          (sdk.deposit key (request sdk env registry key address amount deposit_disclosure)))
        _ (λ s h. h)
        (λ o. Keeps-bind Same (execute_now sdk env registry o) _ (execute-Keeps o) (λ _ s h. h)))

  pub withdraw-Keeps : (key : Text) (amount : ℤ) → Keeps Same (withdraw sdk env registry key amount)
  unfolding withdraw
  withdraw-Keeps key amount = ready-Keeps key (not_registered sdk env registry) _ (λ address.
      Keeps-bind Same
        (world sdk env registry (
          sdk.withdraw key
            (request sdk env registry address key amount public_withdraw_disclosure)))
        _ (λ s h. h)
        (λ o.
          Keeps-bind Same
            (submit sdk env registry (codes "Withdraw prepare failed") key
              (display sdk env registry (codes "withdraw") amount key address) o)
            _ (submit-Same _ key _ o) (λ _ s h. h)))
