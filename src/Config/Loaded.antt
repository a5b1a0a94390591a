-- ===== src/Config/Loaded.antt =====
-- config/env.ts: the environment that `loadDemoEnv` returns.
use pl_backend_sdk_demo.Prelude.{
  ℕ, true, ◌&&◌, ◌∷◌, ◌++◌, leb, ◌≡◌, ◌≢◌, refl, sym, ap, ◌∙◌, ◌⊎◌, inl, inr, Option, none, some,
  [], ◌∷◌, ℤ, pos, ◌≤ℤ◌, ltb_ℤ, Text, codes, big_int, Bool-cases, Option-cases, ok, Post, Post-pure,
  Post-lift, Post-bind, Post-raise, Anyway, Result, thrown, lift, arith,
}
use pl_backend_sdk_demo.Config.{
  Env, optional_env, required_env, require_decimal_application_id, trimmed, nonempty,
}
use pl_backend_sdk_demo.Kyt.{without_slash}
use pl_backend_sdk_demo.Config.Accepted.{application_id_lem}
use pl_backend_sdk_demo.Notes.Spendable.{big_int_or_throw}
use pl_backend_sdk_demo.Config.Load.{
  Reals, DemoEnv, number_text, default_workers, parse_int, at_least_one, parse_positive_number,
  load_demo_env, read_contracts, read_application_id, read_amounts,
}

abbrev SomeWorker : Option ℤ → Option ℤ → Type 0
SomeWorker read o = ((o ≡ none) × (read ≡ none)) ⊎ ((z : ℤ) × (o ≡ some z) × (pos 1 ≤ℤ z))

abbrev IsPositive : (reals : Reals) → reals.Number → Type 0
IsPositive reals x = (reals.is_finite x ≡ true) × (reals.is_positive x ≡ true)

-- A value that its variable has, after trimming, and that is not empty.
abbrev pub Given : Env → Text → Text → Type 0
Given env name v = (trimmed (env name) ≡ some v) × (v ≢ [])

-- An origin that its variable has, but for a slash at the end.
abbrev pub Origin : Env → Text → Text → Type 0
Origin env name x = (raw : Text) × Given env name raw × ((raw ≡ x ++ codes "/") ⊎ (raw ≡ x))

-- The text that is read for the number of workers.
abbrev pub workers_text : Env → Text
workers_text env = optional_env env (codes "PROVE_WORKERS") (
    number_text
      (default_workers (parse_int (optional_env env (codes "ACCOUNT_COUNT") (codes "5")))))

-- What the rest of the program may rely on.
pub record IsLoaded (reals : Reals) (env : Env) (e : DemoEnv reals.Number) : Type 0 where
  pub given :
      Given env (codes "DATABASE_URL") e.database_url
      × Given env (codes "STELLAR_MNEMONIC") e.mnemonic
      × Given env (codes "POOL_CONTRACT") e.pool_contract
      × Given env (codes "REGISTRY_CONTRACT") e.registry_contract
      × Given env (codes "KYT_PASSAGE_REGISTRY_CONTRACT") e.kyt_passage_registry_contract
      × Given env (codes "STELLAR_AUDIT_PUBLIC_KEY") e.audit_public_key_hex
  pub relayer : Origin env (codes "RELAYER_ORIGIN") e.relayer_origin
  pub kyt : Origin env (codes "KYT_API_BASE_URL") e.kyt_api_base_url
  pub workers :
      ((e.prove_workers ≡ none) × (parse_int (workers_text env) ≡ none))
      ⊎ ((z : ℤ) × (e.prove_workers ≡ some z) × (pos 1 ≤ℤ z))
  pub application : (n : ℕ) × (big_int e.application_id ≡ some (pos n))
  pub interval : IsPositive reals e.tx_interval_minutes
  pub amount : IsPositive reals e.tx_amount_xlm
  pub deposit : IsPositive reals e.deposit_amount_xlm

nonempty-some : (s v : Text) → nonempty s ≡ some v → v ≢ []
nonempty-some [] v e = cc
nonempty-some (c ∷ s) v e = λ h. cc

trimmed-some : (o : Option Text) (v : Text) → trimmed o ≡ some v → v ≢ []
trimmed-some none v e = cc
trimmed-some (some s) v e = nonempty-some _ v e

required-Given : (env : Env) (name v : Text) → required_env env name ≡ ok v → Given env name v
unfolding required_env
required-Given env name v e = elim (Option-cases (trimmed (env name))) [
  | inl missing ↦ absurd (ground arith)
  | inr (w, there) ↦
      let same : w ≡ v = ground arith in
      let at : trimmed (env name) ≡ some v = there ∙ ap some same in
      (at, trimmed-some (env name) v at)
]

-- The same, of an environment that has stayed.
stayed-Given :
    (env s : Env) (name v : Text) → s ≡ env → required_env s name ≡ ok v → Given env name v
stayed-Given env s name v same e =
    required-Given env name v (ap (λ x. required_env x name) (sym same) ∙ e)

slash_or_none : (s : Text) → (s ≡ without_slash s ++ codes "/") ⊎ (s ≡ without_slash s)
unfolding without_slash
slash_or_none [] = inr refl
slash_or_none (c ∷ []) = elim (Bool-cases (leb c b'/' && leb b'/' c)) [
  | inl slash ↦ let e : c ≡ b'/' = ground (arith, slash) in inl (rw slash (ap (λ x. x ∷ []) e))
  | inr letter ↦ inr (rw letter refl)
]
slash_or_none (c ∷ d ∷ s) = elim (slash_or_none (d ∷ s)) [
  | inl e ↦ inl (ap (λ l. c ∷ l) e)
  | inr e ↦ inr (ap (λ l. c ∷ l) e)
]

Origin-of : (env : Env) (name raw : Text) → Given env name raw → Origin env name (without_slash raw)
Origin-of env name raw g = (raw, g, slash_or_none raw)

at_least_one-ge : (o : Option ℤ) → SomeWorker o (at_least_one o)
at_least_one-ge none = inl (refl, refl)
at_least_one-ge (some z) = elim (Bool-cases (ltb_ℤ z (pos 1))) [
  | inl low ↦ inr (pos 1, rw low refl, ground arith)
  | inr high ↦ inr (z, rw high refl, ground arith)
]

module _ (reals : Reals) where
  positive-IsPositive :
      (name raw : Text) (x : reals.Number)
      → parse_positive_number reals name raw ≡ ok x
      → IsPositive reals x
  unfolding parse_positive_number
  positive-IsPositive name raw x e = elim (Bool-cases (reals.is_finite (reals.read raw))) [
    | inr infinite ↦ absurd (ground arith)
    | inl finite ↦ elim (Bool-cases (reals.is_positive (reals.read raw))) [
      | inr low ↦ absurd (ground arith)
      | inl above ↦
          let same : reals.read raw ≡ x = ground arith in
          (ap reals.is_finite (sym same) ∙ finite, ap reals.is_positive (sym same) ∙ above)
    ]
  ]

  contracts-Post :
      (env : Env)
      → Post
          (λ c t.
            (t ≡ env)
            × Given env (codes "POOL_CONTRACT") c.0
            × Given env (codes "REGISTRY_CONTRACT") c.1
            × Given env (codes "KYT_PASSAGE_REGISTRY_CONTRACT") c.2)
          Anyway
          (read_contracts env)
  contracts-Post env =
      Post-lift (required_env env (codes "POOL_CONTRACT")) _ env (λ _ _. tt)
        (λ pool e1.
          Post-lift (required_env env (codes "REGISTRY_CONTRACT")) _ env (λ _ _. tt)
            (λ registry e2.
              Post-lift (required_env env (codes "KYT_PASSAGE_REGISTRY_CONTRACT")) _ env (λ _ _. tt)
                (λ passages e3. Post-pure _ env (
                  refl,
                  required-Given env _ pool e1,
                  required-Given env _ registry e2,
                  required-Given env _ passages e3,
                ))))

  abbrev IsNatural : Text → Type 0
  IsNatural id = (n : ℕ) × (big_int id ≡ some (pos n))

  application-Post :
      (env : Env) → Post (λ id t. (t ≡ env) × IsNatural id) Anyway (read_application_id env)
  application-Post env =
      Post-lift (required_env env (codes "APPLICATION_ID")) _ env (λ _ _. tt)
        (λ text _. decimal text (require_decimal_application_id text) refl)
    where
      decimal :
          (text : Text) (r : Result Text)
          → require_decimal_application_id text ≡ r
          → Post (λ id t. (t ≡ env) × IsNatural id) Anyway (lift r env)
      decimal text (ok id) e = Post-pure id env (refl, (application_id_lem text id e).1)
      decimal text (thrown x) e = Post-raise x env tt

  abbrev ArePositive : reals.Number × reals.Number × reals.Number → Type 0
  ArePositive a = IsPositive reals a.0 × IsPositive reals a.1 × IsPositive reals a.2

  amounts-Post : (env : Env) → Post (λ a _. ArePositive a) Anyway (read_amounts reals env)
  amounts-Post env =
      Post-lift
        (parse_positive_number reals (codes "TX_INTERVAL_MINUTES")
          (optional_env env (codes "TX_INTERVAL_MINUTES") (codes "30")))
        _ env (λ _ _. tt)
        (λ interval e1.
          Post-lift
            (parse_positive_number reals (codes "TX_AMOUNT_XLM")
              (optional_env env (codes "TX_AMOUNT_XLM") (codes "1")))
            _ env (λ _ _. tt)
            (λ amount e2.
              Post-lift
                (parse_positive_number reals (codes "DEPOSIT_AMOUNT_XLM")
                  (optional_env env (codes "DEPOSIT_AMOUNT_XLM") (codes "10")))
                _ env (λ _ _. tt)
                (λ deposit e3. Post-pure _ env (
                  positive-IsPositive _ _ interval e1,
                  positive-IsPositive _ _ amount e2,
                  positive-IsPositive _ _ deposit e3,
                ))))

  loaded : (env : Env) → Post (λ e _. IsLoaded reals env e) Anyway (load_demo_env reals env)
  unfolding load_demo_env
  loaded env =
      Post-lift (required_env env (codes "DATABASE_URL")) _ env (λ _ _. tt)
        (λ url e1.
          Post-lift (required_env env (codes "RELAYER_ORIGIN")) _ env (λ _ _. tt)
            (λ relayer er.
              Post-lift (required_env env (codes "STELLAR_MNEMONIC")) _ env (λ _ _. tt)
                (λ mnemonic e2.
                  Post-bind (read_contracts env) _ (contracts-Post env)
                    (λ contracts s (same_s, g1, g2, g3).
                      Post-lift (required_env s (codes "KYT_API_BASE_URL")) _ s (λ _ _. tt)
                        (λ kyt ek.
                          Post-bind (read_application_id s) _ (application-Post s)
                            (λ id t (same_t, natural).
                              Post-lift (required_env t (codes "STELLAR_AUDIT_PUBLIC_KEY")) _ t
                                (λ _ _. tt)
                                (λ key e3.
                                  Post-lift
                                    (big_int_or_throw
                                      (optional_env t (codes "ZK_CONFIG_NONCE") (codes "3")))
                                    _ t (λ _ _. tt)
                                    (λ nonce _.
                                      Post-bind (read_amounts reals t) _ (amounts-Post t)
                                        (λ amounts u (a1, a2, a3). Post-pure _ u (record {
                                          given = (
                                            required-Given env _ url e1,
                                            required-Given env _ mnemonic e2,
                                            g1,
                                            g2,
                                            g3,
                                            stayed-Given env t _ key (same_t ∙ same_s) e3,
                                          );
                                          relayer =
                                              Origin-of env _ relayer
                                                (required-Given env _ relayer er);
                                          kyt =
                                              Origin-of env _ kyt
                                                (stayed-Given env s _ kyt same_s ek);
                                          workers = at_least_one-ge (parse_int (workers_text env));
                                          application = natural;
                                          interval = a1;
                                          amount = a2;
                                          deposit = a3;
                                        }))))))))))

-- An environment that loads: the database's address, the mnemonic, the three contracts and the audit
-- key are what their variables have, trimmed, and not empty; the relayer's and the KYT service's
-- origins are what their variables have, trimmed and not empty, but for a slash at the end; the number
-- of proving workers is 1 or more, unless the text read for it is no number; the application id is the
-- text of a natural number; and the interval and the two amounts are positive and finite.
pub load_demo_env-IsLoaded :
    (reals : Reals) (env after : Env) (e : DemoEnv reals.Number)
    → load_demo_env reals env ≡ (ok e, after)
    → IsLoaded reals env e
load_demo_env-IsLoaded reals env after e h = (loaded reals env).returns e after h
