-- ===== src/Money/RoundTrip.antt =====
-- lib/money/money.ts: what `stroopsToXlm` prints, read back, and the sign of `xlmToStroops`.
use pl_backend_sdk_demo.Prelude.{
  ℕ, zero, suc, ◌+◌, ◌-◌, ◌*◌, ◌/◌, ◌%◌, ◌<◌, ◌≤◌, ◌≡◌, refl, sym, ap, ◌∙◌, Bool, ◌&&◌, Option,
  none, some, [], ◌∷◌, ◌++◌, ℤ, pos, negsuc, ◌≤ℤ◌, Text, to_decimal, read-to_decimal,
  length-to_decimal-le, length-append, ok, if◌then◌else◌, length, arith, leb, ◌==◌, Bool-cases, inl,
  inr,
}
use mathlib.Core.List.{append-nil}
use pl_backend_sdk_demo.Money.{
  Floats, Amount, xlm_to_stroops, stroops_per_xlm, replicate, pad_start, stroops_to_xlm,
}

abbrev is_digit : ℕ → Bool
is_digit c = leb b'0' c && leb c b'9'

-- The value of decimal digits, read from the left.
read_digits : ℕ → Text → Option ℕ
read_digits acc [] = some acc
read_digits acc (c ∷ s) =
    let rest = read_digits (acc * 10 + (c - b'0')) s in if is_digit c then rest else none

-- A decimal with exactly seven places, in units of the last place.
read_places : ℕ → Text → Option ℕ
read_places whole s =
    if length s == 7
    then elim (read_digits 0 s) [ none ↦ none | some f ↦ some (whole * 10_000_000 + f) ]
    else none

read_whole : ℕ → Text → Option ℕ
read_whole acc [] = none
read_whole acc (c ∷ s) =
    let rest = read_whole (acc * 10 + (c - b'0')) s in
    if c == b'.' then read_places acc s else if is_digit c then rest else none

abbrev negate : Option ℕ → Option ℤ
negate none = none
negate (some zero) = some (pos 0)
negate (some (suc n)) = some (negsuc n)

abbrev positive : Option ℕ → Option ℤ
positive none = none
positive (some n) = some (pos n)

-- What a fixed-point decimal text means, in units of 10^-7.
pub read_fixed : Text → Option ℤ
read_fixed [] = none
read_fixed (c ∷ s) = if c == b'-' then negate (read_whole 0 s) else positive (read_whole 0 (c ∷ s))

read_digits_step :
    (acc d : ℕ) (s : Text)
    → d < 10
    → read_digits acc ((b'0' + d) ∷ s) ≡ read_digits (acc * 10 + d) s
unfolding read_digits
read_digits_step acc d s h = let same : b'0' + d - b'0' ≡ d = omega arith in ground (arith, same)

read_whole_step :
    (acc d : ℕ) (s : Text) → d < 10 → read_whole acc ((b'0' + d) ∷ s) ≡ read_whole (acc * 10 + d) s
unfolding read_whole
read_whole_step acc d s h = let same : b'0' + d - b'0' ≡ d = omega arith in ground (arith, same)

read_digits-replicate : (n : ℕ) (s : Text) → read_digits 0 (replicate n b'0' ++ s) ≡ read_digits 0 s
unfolding read_digits replicate
read_digits-replicate zero s = refl
read_digits-replicate (suc n) s = read_digits-replicate n s

read_digits-to_decimal : (n : ℕ) → read_digits 0 (to_decimal n) ≡ some n
unfolding read_digits
read_digits-to_decimal n =
    ap (read_digits 0) (sym (append-nil (to_decimal n)))
    ∙ read-to_decimal read_digits read_digits_step n []

length-replicate : (n c : ℕ) → length (replicate n c) ≡ n
unfolding replicate
length-replicate zero c = refl
length-replicate (suc n) c = ap suc (length-replicate n c)

length-pad_start : (width : ℕ) (s : Text) → length s ≤ width → length (pad_start width s) ≡ width
unfolding pad_start
length-pad_start width s h = omega (
  arith,
  length-append (replicate (width - length s) b'0') s,
  length-replicate (width - length s) b'0',
)

read_digits-pad_start : (width f : ℕ) → read_digits 0 (pad_start width (to_decimal f)) ≡ some f
unfolding pad_start
read_digits-pad_start width f =
    read_digits-replicate (width - length (to_decimal f)) (to_decimal f) ∙ read_digits-to_decimal f

read_whole-point : (n : ℕ) (s : Text) → read_whole n (b'.' ∷ s) ≡ read_places n s
unfolding read_whole
read_whole-point n s = refl

read_places_of_fraction :
    (whole f : ℕ)
    → f < 10_000_000
    → read_places whole (pad_start 7 (to_decimal f)) ≡ some (whole * 10_000_000 + f)
unfolding read_places
read_places_of_fraction whole f h =
    rw (length-pad_start 7 (to_decimal f) (length-to_decimal-le 6 f h))
      (rw (read_digits-pad_start 7 f))

read_whole_of_abs :
    (n : ℕ)
    → read_whole 0
        (to_decimal (n / stroops_per_xlm) ++ b'.' ∷ pad_start 7 (to_decimal (n % stroops_per_xlm)))
      ≡ some n
read_whole_of_abs n =
    let whole : (n / stroops_per_xlm) * 10_000_000 + n % stroops_per_xlm ≡ n = omega arith in
    read-to_decimal read_whole read_whole_step (n / stroops_per_xlm) _
    ∙ read_whole-point (n / stroops_per_xlm) _
    ∙ read_places_of_fraction (n / stroops_per_xlm) (n % stroops_per_xlm) (omega arith)
    ∙ ap some whole

read_fixed_of_whole : (s : Text) (n : ℕ) → read_whole 0 s ≡ some n → read_fixed s ≡ some (pos n)
unfolding read_fixed read_whole
read_fixed_of_whole [] n e = cc
read_fixed_of_whole (c ∷ s) n e = elim (Bool-cases (c == b'-')) [
  | inl minus ↦ ground arith
  | inr plus ↦ rw (plus, e) refl
]

-- Reading a printed amount as a decimal with seven places gives the amount, also below zero.
pub read_fixed-stroops_to_xlm : (z : ℤ) → read_fixed (stroops_to_xlm z) ≡ some z
unfolding read_fixed stroops_to_xlm
read_fixed-stroops_to_xlm (pos n) = read_fixed_of_whole _ n (read_whole_of_abs n)
read_fixed-stroops_to_xlm (negsuc n) = ap negate (read_whole_of_abs (suc n))

-- A successful conversion is not negative.
pub xlm_to_stroops_nonneg :
    (floats : Floats) (amount : Amount floats.Float) (z : ℤ)
    → xlm_to_stroops floats amount ≡ ok z
    → pos 0 ≤ℤ z
unfolding xlm_to_stroops
xlm_to_stroops_nonneg floats amount z e =
    grind (arith, floats.big_nonneg, floats.round_nonneg, floats.times_nonneg)
