-- ===== src/Config/Load.antt =====
-- config/env.ts: `loadDemoEnv` and what it calls on numbers. An integer that `parseInt` reads is exact
-- here, and none is `NaN`; other JavaScript numbers are a parameter.
use pl_backend_sdk_demo.Prelude.{
  ℕ, ◌+◌, ◌-◌, ◌*◌, Bool, ◌&&◌, ◌||◌, not, Option, none, some, [], ◌∷◌, ◌++◌, ℤ, pos, negsuc, sub_ℕ,
  ltb_ℤ, Text, codes, trim_start, big_text, leb, ◌==◌, if◌then◌else◌, Result, ok, thrown,
  plain_error, Exec, pure, lift, gets, ◌>>=◌,
}
use pl_backend_sdk_demo.Config.{
  Env, default_prove_workers, optional_env, optional_nonempty_env, require_decimal_application_id,
  required_env, trimmed,
}
use pl_backend_sdk_demo.Kyt.{without_slash}
use pl_backend_sdk_demo.Notes.Spendable.{big_int_or_throw}

-- `Number(text)` and the rest that is asked of numbers.
pub record Reals : Type 1 where
  pub Number : Type 0
  pub read : Text → Number
  pub of_nat : ℕ → Number
  pub is_finite : Number → Bool
  pub is_positive : Number → Bool
  pub times : Number → ℕ → Number
  pub round : Number → Number
  pub max : Number → Number → Number

abbrev is_digit : ℕ → Bool
is_digit c = leb b'0' c && leb c b'9'

-- The digits in front, if there are any.
abbrev digits_from : ℕ → Text → ℕ
digits_from acc [] = acc
digits_from acc (c ∷ s) =
    let rest = digits_from (acc * 10 + (c - b'0')) s in if is_digit c then rest else acc

abbrev digits_in_front : Text → Option ℕ
digits_in_front [] = none
digits_in_front (c ∷ s) = if is_digit c then some (digits_from 0 (c ∷ s)) else none

abbrev positive : Option ℕ → Option ℤ
positive none = none
positive (some n) = some (pos n)

abbrev negative : Option ℕ → Option ℤ
negative none = none
negative (some n) = some (sub_ℕ 0 n)

abbrev signed : Text → Option ℤ
signed [] = none
signed (c ∷ s) =
    if c == b'-'
    then negative (digits_in_front s)
    else if c == b'+'
    then positive (digits_in_front s)
    else positive (digits_in_front (c ∷ s))

-- `Number.parseInt(text, 10)`
unfoldable pub parse_int : Text → Option ℤ
parse_int s = signed (trim_start s)

-- `String(number)`
abbrev pub number_text : Option ℤ → Text
number_text none = codes "NaN"
number_text (some z) = big_text z

-- `defaultProveWorkers` of what was read: half of a negative number is below 1.
abbrev pub default_workers : Option ℤ → Option ℤ
default_workers none = none
default_workers (some (pos n)) = some (pos (default_prove_workers n))
default_workers (some (negsuc n)) = some (pos 1)

-- `Math.max(1, number)`
abbrev pub at_least_one : Option ℤ → Option ℤ
at_least_one none = none
at_least_one (some z) = if ltb_ℤ z (pos 1) then some (pos 1) else some z

pub record DemoEnv (F : Type 0) : Type 0 where
  pub port : Option ℤ
  pub database_url : Text
  pub relayer_origin : Text
  pub mnemonic : Text
  pub account_count : Option ℤ
  pub prove_workers : Option ℤ
  pub network_passphrase : Text
  pub horizon_url : Text
  pub soroban_rpc_url : Text
  pub friendbot_url : Text
  pub pool_contract : Text
  pub registry_contract : Text
  pub kyt_passage_registry_contract : Text
  pub kyt_api_base_url : Text
  pub kyt_inspect_token : Option Text
  pub application_id : Text
  pub audit_public_key_hex : Text
  pub zk_config_nonce : ℤ
  pub zk_artifact_base_url : Option Text
  pub asset_id : Text
  pub token_contract : Text
  pub asset_name : Text
  pub asset_decimals : Option ℤ
  pub database_ca : Option Text
  pub tx_interval_minutes : F
  pub tx_amount_xlm : F
  pub deposit_amount_xlm : F

abbrev pub required : Text → Exec Env Text
required name env = (required_env env name, env)

abbrev pub optional : Text → Text → Exec Env Text
optional name fallback = gets (λ env. optional_env env name fallback)

abbrev pub read_workers : Option ℤ → Exec Env (Option ℤ)
read_workers account_count =
    optional (codes "PROVE_WORKERS") (number_text (default_workers account_count)) >>= λ text.
    pure (at_least_one (parse_int text))

-- The three contracts, and the application id.
abbrev pub read_contracts : Exec Env (Text × Text × Text)
read_contracts = do
  pool ← required (codes "POOL_CONTRACT")
  registry ← required (codes "REGISTRY_CONTRACT")
  passages ← required (codes "KYT_PASSAGE_REGISTRY_CONTRACT")
  pure (pool, registry, passages)

abbrev pub read_application_id : Exec Env Text
read_application_id =
    required (codes "APPLICATION_ID") >>= λ text. lift (require_decimal_application_id text)

module _ (reals : Reals) where
  unfoldable pub parse_positive_number : Text → Text → Result reals.Number
  parse_positive_number name raw =
      let value = reals.read raw in
      if not (reals.is_finite value) || not (reals.is_positive value)
      then thrown (plain_error (name ++ codes " must be a positive number"))
      else ok value

  unfoldable pub interval_ms_from_minutes : reals.Number → reals.Number
  interval_ms_from_minutes minutes =
      reals.max (reals.of_nat 1000) (reals.round (reals.times minutes 60000))

  abbrev pub positive_number : Text → Text → Exec Env reals.Number
  positive_number name fallback =
      optional name fallback >>= λ raw. lift (parse_positive_number name raw)

  -- The interval and the two amounts.
  abbrev pub read_amounts : Exec Env (reals.Number × reals.Number × reals.Number)
  read_amounts = do
    interval ← positive_number (codes "TX_INTERVAL_MINUTES") (codes "30")
    tx_amount ← positive_number (codes "TX_AMOUNT_XLM") (codes "1")
    deposit_amount ← positive_number (codes "DEPOSIT_AMOUNT_XLM") (codes "10")
    pure (interval, tx_amount, deposit_amount)

  unfoldable pub load_demo_env : Exec Env (DemoEnv reals.Number)
  load_demo_env = do
    artifacts ← gets (λ env. trimmed (env (codes "ZK_ARTIFACT_BASE_URL")))
    inspect_token ← gets (λ env. optional_nonempty_env env (codes "KYT_INSPECT_TOKEN"))
    count_text ← optional (codes "ACCOUNT_COUNT") (codes "5")
    port_text ← optional (codes "PORT") (codes "3000")
    database_url ← required (codes "DATABASE_URL")
    relayer ← required (codes "RELAYER_ORIGIN")
    mnemonic ← required (codes "STELLAR_MNEMONIC")
    workers ← read_workers (parse_int count_text)
    passphrase ←
        optional (codes "STELLAR_NETWORK_PASSPHRASE") (codes "Test SDF Network ; September 2015")
    horizon ← optional (codes "HORIZON_URL") (codes "https://horizon-testnet.stellar.org")
    soroban ← optional (codes "SOROBAN_RPC_URL") (codes "https://soroban-testnet.stellar.org")
    friendbot ← optional (codes "FRIENDBOT_URL") (codes "https://friendbot.stellar.org")
    contracts ← read_contracts
    kyt ← required (codes "KYT_API_BASE_URL")
    application_id ← read_application_id
    audit_key ← required (codes "STELLAR_AUDIT_PUBLIC_KEY")
    nonce_text ← optional (codes "ZK_CONFIG_NONCE") (codes "3")
    nonce ← lift (big_int_or_throw nonce_text)
    asset ← optional (codes "ASSET_ID") (codes "XLM")
    token ←
        optional (codes "TOKEN_CONTRACT")
          (codes "CDLZFC3SYJYDZT7K67VZ75HPJVIEUVNIXF47ZG2FB2RMQQVU2HHGCYSC")
    asset_name ← optional (codes "ASSET_NAME") (codes "Stellar")
    decimals ← optional (codes "ASSET_DECIMALS") (codes "7")
    ca ← gets (λ env. optional_nonempty_env env (codes "DATABASE_CA"))
    amounts ← read_amounts
    pure (record {
      port = parse_int port_text;
      database_url = database_url;
      relayer_origin = without_slash relayer;
      mnemonic = mnemonic;
      account_count = parse_int count_text;
      prove_workers = workers;
      network_passphrase = passphrase;
      horizon_url = horizon;
      soroban_rpc_url = soroban;
      friendbot_url = friendbot;
      pool_contract = contracts.0;
      registry_contract = contracts.1;
      kyt_passage_registry_contract = contracts.2;
      kyt_api_base_url = without_slash kyt;
      kyt_inspect_token = inspect_token;
      application_id = application_id;
      audit_public_key_hex = audit_key;
      zk_config_nonce = nonce;
      zk_artifact_base_url = artifacts;
      asset_id = asset;
      token_contract = token;
      asset_name = asset_name;
      asset_decimals = parse_int decimals;
      database_ca = ca;
      tx_interval_minutes = amounts.0;
      tx_amount_xlm = amounts.1;
      deposit_amount_xlm = amounts.2;
    })
