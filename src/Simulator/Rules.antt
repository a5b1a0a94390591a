-- ===== src/Simulator/Rules.antt =====
-- simulator/simulator-rules.ts, all but the loops, and `randomAmount` of simulator.service.ts.
use pl_backend_sdk_demo.Prelude.{
  ℕ, ◌<◌, Bool, ◌||◌, List, ℤ, pos, pos_part, ◌+ℤ◌, ◌-ℤ◌, ◌≤ℤ◌, ◌<ℤ◌, leb_ℤ, int_laws, one_part,
  Text, codes, includes, ltb, leb, filter, length, Thrown, error, string, other, plain_error,
  Result, ok, thrown, if◌then◌else◌, Bool-cases, inl, inr, arith,
}
use pl_backend_sdk_demo.Persistence.{HdAccount}

unfoldable pub can_run_simulator : List HdAccount → Bool
can_run_simulator accounts = leb 2 (length (filter (λ a. a.registered) accounts))

abbrev pub simulator_not_ready_message : Text
simulator_not_ready_message = codes "Need at least two registered accounts with a private deposit."

unfoldable pub assert_simulator_ready : ℕ → ℤ → Result (Unit {0})
assert_simulator_ready registered_count deposited =
    if ltb registered_count 2 || leb_ℤ deposited (pos 0)
    then thrown (plain_error simulator_not_ready_message)
    else ok tt

unfoldable pub should_deposit_if_empty : ℤ → Bool
should_deposit_if_empty balance = leb_ℤ balance (pos 0)

-- `errorMessage(error)`
abbrev pub error_message : Thrown → Text
error_message (error f) = f.message
error_message (string s) = s
error_message (other f) = codes ""

unfoldable pub is_missing_private_records_error : Thrown → Bool
is_missing_private_records_error e =
    let message = error_message e in
    includes message (codes "enough private records")
    || includes message (codes "Instructed amount and Required Fee exceed available note value")
    || includes message (codes "Required Fee leaves no spendable deposit note")

-- `Math.floor(Math.random() * n)` as a function of `n`: one draw, below `n`.
abbrev pub Draw : Type 0
Draw = ℕ → ℕ

abbrev pub IsDraw : Draw → Type 0
IsDraw draw = (n : ℕ) → 0 < n → draw n < n

unfoldable pub random_amount : Draw → ℤ → ℤ → ℤ
random_amount draw min max =
    if leb_ℤ max min
    then min
    else let span = max -ℤ min in min +ℤ pos (draw (pos_part (span +ℤ pos 1)))

jittered :
    (min max : ℤ) (j : ℕ)
    → min <ℤ max
    → (0 < pos_part (max -ℤ min +ℤ pos 1) → j < pos_part (max -ℤ min +ℤ pos 1))
    → (min ≤ℤ min +ℤ pos j) × (min +ℤ pos j ≤ℤ max)
jittered min max j more h =
    let difference = one_part (max -ℤ min) in
    let count = one_part (max -ℤ min +ℤ pos 1) in (omega int_laws, grind (int_laws, one_part))

-- An amount that is drawn lies between the bounds, if they do not cross and a draw is below its limit.
pub random_amount_bounds :
    (draw : Draw) (min max : ℤ)
    → IsDraw draw
    → min ≤ℤ max
    → (min ≤ℤ random_amount draw min max) × (random_amount draw min max ≤ℤ max)
unfolding random_amount
random_amount_bounds draw min max is_draw h = elim (Bool-cases (leb_ℤ max min)) [
  | inl crossed ↦ rw crossed (omega arith, h)
  | inr open_range ↦
      rw open_range
        (jittered min max (draw (pos_part (max -ℤ min +ℤ pos 1))) (ground arith) (is_draw _))
]
