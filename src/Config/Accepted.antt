-- ===== src/Config/Accepted.antt =====
-- config/env.ts: what is accepted, and the default number of workers.
use pl_backend_sdk_demo.Prelude.{
  ℕ, ◌≤◌, ◌≡◌, true, some, [], ◌∷◌, Text, AllDigits, ok, inl, inr, Bool-cases, arith,
  big_int_of_digits, big_int, pos,
}
use pl_backend_sdk_demo.Config.{
  are_digits, is_decimal, require_decimal_application_id, default_prove_workers,
}
use pl_backend_sdk_demo.Simulator.Occupancy.{max_simulator_concurrency}

are_digits-AllDigits : (s : Text) → are_digits s ≡ true → AllDigits s
are_digits-AllDigits [] h = tt
are_digits-AllDigits (c ∷ s) h =
    ((ground arith, ground arith), are_digits-AllDigits s (ground arith))

decimal_number : (s : Text) → is_decimal s ≡ true → (n : ℕ) × (big_int s ≡ some (pos n))
decimal_number [] h = cc
decimal_number (c ∷ s) h = big_int_of_digits (c ∷ s) (are_digits-AllDigits (c ∷ s) h) (λ e. cc)

-- An application id that is accepted is left as it is, and is the text of a natural number.
pub application_id_lem :
    (value accepted : Text)
    → require_decimal_application_id value ≡ ok accepted
    → (accepted ≡ value) × ((n : ℕ) × (big_int accepted ≡ some (pos n)))
unfolding require_decimal_application_id
application_id_lem value accepted e = elim (Bool-cases (is_decimal value)) [
  | inl digits ↦
      let same : accepted ≡ value = ground arith in (same, rw same (decimal_number value digits))
  | inr other ↦ absurd (ground arith)
]

-- With the default number of proving workers, and all accounts registered, the simulator may have as many
-- transfers in flight as there are workers, one or two.
pub default_prove_workers_lem :
    (accounts : ℕ)
    → (max_simulator_concurrency accounts (default_prove_workers accounts)
        ≡ default_prove_workers accounts)
      × (1 ≤ default_prove_workers accounts)
      × (default_prove_workers accounts ≤ 2)
unfolding max_simulator_concurrency default_prove_workers
default_prove_workers_lem accounts = (omega arith, omega arith, omega arith)
