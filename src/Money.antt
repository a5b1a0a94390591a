-- ===== src/Money.antt =====
-- lib/money/money.ts. A JavaScript number is a parameter (`Floats`), a `bigint` is an integer.
pub mod RoundTrip
use pl_backend_sdk_demo.Prelude.{
  ℕ, ◌-◌, ◌/◌, ◌%◌, ◌≡◌, refl, Bool, true, false, ◌||◌, not, Option, none, some, List, [], ◌∷◌,
  ◌++◌, ℤ, pos, negsuc, pos_part, neg_part, ltb_ℤ, ◌≤ℤ◌, Text, codes, to_decimal, numbers, Result,
  ok, thrown, plain_error, if◌then◌else◌, length, arith, ltb,
}

-- The operations on floating-point numbers that the module uses, and the facts that hold of them.
-- `to_big` is `BigInt(x)`, which throws (`none`) at what is no integer,
-- and `show` is `String(x)`.
pub record Floats : Type 1 where
  pub Float : Type 0
  pub parse_float : Text → Float
  pub is_finite : Float → Bool
  pub is_negative : Float → Bool
  pub times : Float → ℕ → Float
  pub round : Float → Float
  pub to_big : Float → Option ℤ
  pub show : Float → Text
  pub times_nonneg : (x : Float) (k : ℕ) → is_negative x ≡ false → is_negative (times x k) ≡ false
  pub round_nonneg : (x : Float) → is_negative x ≡ false → is_negative (round x) ≡ false
  pub big_nonneg : (x : Float) (z : ℤ) → is_negative x ≡ false → to_big x ≡ some z → pos 0 ≤ℤ z

abbrev pub stroops_per_xlm : ℕ
stroops_per_xlm = 10_000_000

-- The argument `number | string`.
pub data Amount (F : Type 0) : Type 0 where
  number : F → Amount F
  string : Text → Amount F

abbrev not_an_amount : Text
not_an_amount = codes "Amount must be a non-negative number of XLM"

module _ (floats : Floats) where
  open floats use {Float, parse_float, is_finite, is_negative, times, round, to_big}

  as_number : Amount Float → Float
  as_number (number x) = x
  as_number (string s) = parse_float s

  -- `BigInt(Math.round(…))`
  big_round : Float → Result ℤ
  big_round x = elim (to_big (round x)) [
    | none ↦ thrown (plain_error (codes "cannot be converted to a BigInt"))
    | some z ↦ ok z
  ]

  unfoldable pub xlm_to_stroops : Amount Float → Result ℤ
  unfolding as_number big_round
  xlm_to_stroops amount =
      let x = as_number amount in
      if not (is_finite x) || is_negative x
      then thrown (plain_error not_an_amount)
      else big_round (times x stroops_per_xlm)

unfoldable pub replicate : ℕ → ℕ → Text
replicate ℕ.zero c = []
replicate (ℕ.suc n) c = c ∷ replicate n c

-- `text.padStart(width, "0")`
unfoldable pub pad_start : ℕ → Text → Text
unfolding replicate
pad_start width s = replicate (width - length s) b'0' ++ s

abbrev abs : ℤ → ℕ
abs (pos n) = n
abs (negsuc n) = ℕ.suc n

abbrev sign : ℤ → Text → Text
sign (pos n) s = s
sign (negsuc n) s = b'-' ∷ s

unfoldable pub stroops_to_xlm : ℤ → Text
stroops_to_xlm z = sign z (
    to_decimal (abs z / stroops_per_xlm)
    ++ b'.' ∷ pad_start 7 (to_decimal (abs z % stroops_per_xlm)))

stroops_to_xlm_tests :
    (stroops_to_xlm (pos 10_000_000) ≡ codes "1.0000000")
    × (stroops_to_xlm (negsuc 4) ≡ codes "-0.0000005")
    × (stroops_to_xlm (pos 123_456_789_012) ≡ codes "12345.6789012")
unfolding stroops_to_xlm pad_start numbers
stroops_to_xlm_tests = (refl, refl, refl)
