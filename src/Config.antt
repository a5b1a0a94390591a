-- ===== src/Config.antt =====
-- config/env.ts: how variables of the environment are read. The environment is a parameter.
pub mod Accepted
pub mod Load
pub mod Loaded
use pl_backend_sdk_demo.Prelude.{
  ℕ, ◌/◌, min, max, Bool, true, false, ◌&&◌, Option, none, some, [], ◌∷◌, ◌++◌, Text, codes, trim,
  leb, text_eq, Result, ok, thrown, plain_error, if◌then◌else◌,
}

-- `process.env`
abbrev pub Env : Type 0
Env = Text → Option Text

abbrev pub nonempty : Text → Option Text
nonempty [] = none
nonempty (c ∷ s) = some (c ∷ s)

-- `process.env[name]?.trim()`, absent when it is empty.
abbrev pub trimmed : Option Text → Option Text
trimmed none = none
trimmed (some s) = nonempty (trim s)

unfoldable pub required_env : Env → Text → Result Text
required_env env name = elim (trimmed (env name)) [
  | none ↦ thrown (plain_error (codes "Missing " ++ name ++ codes " environment variable"))
  | some value ↦ ok value
]

unfoldable pub optional_env : Env → Text → Text → Text
optional_env env name fallback = elim (trimmed (env name)) [ none ↦ fallback | some value ↦ value ]

unfoldable pub optional_nonempty_env : Env → Text → Option Text
optional_nonempty_env env name = trimmed (env name)

abbrev pub are_digits : Text → Bool
are_digits [] = true
are_digits (c ∷ s) = (leb b'0' c && leb c b'9') && are_digits s

-- /^\d+$/u
abbrev pub is_decimal : Text → Bool
is_decimal [] = false
is_decimal (c ∷ s) = are_digits (c ∷ s)

unfoldable pub require_decimal_application_id : Text → Result Text
require_decimal_application_id value =
    if is_decimal value
    then ok value
    else thrown (
        plain_error (
          codes
            "APPLICATION_ID must be association.audit_id (decimal Fr), not a UUID or foreignId."))

unfoldable pub default_prove_workers : ℕ → ℕ
default_prove_workers account_count = min 2 (max 1 (account_count / 2))

-- load-env.ts, after `config()`: the variables that the file `.env` owns take its values where it has
-- them, and none changes where the file cannot be read.
abbrev pub set_env : Text → Text → Env → Env
set_env name value env key = if text_eq name key then some value else env key

abbrev pub owned_by : Text → Option Text → Env → Env
owned_by name none env = env
owned_by name (some []) env = env
owned_by name (some (c ∷ s)) env = set_env name (c ∷ s) env

unfoldable pub refresh_stand_keys : Option Env → Env → Env
refresh_stand_keys none env = env
refresh_stand_keys (some parsed) env =
    owned_by (codes "KYT_API_BASE_URL") (parsed (codes "KYT_API_BASE_URL"))
      (owned_by (codes "APPLICATION_ID") (parsed (codes "APPLICATION_ID")) env)
