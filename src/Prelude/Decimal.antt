-- ===== src/Prelude/Decimal.antt =====
-- `bigint.toString()` and `BigInt(text)`.
use Prim.Native.Nat.{ℕ, zero, suc, ◌+◌, ◌-◌, ◌*◌, ◌/◌, ◌%◌, ◌^◌, ◌≤◌, ◌<◌}
use mathlib.Core.Path.{◌≡◌, refl, sym, ap, ◌∙◌}
use mathlib.Core.Logic.{◌≢◌, inl, inr}
use mathlib.Core.Bool.{Bool, false, ◌&&◌, ◌||◌}
use mathlib.Core.Option
use mathlib.Core.Option.{Option, none, some}
use mathlib.Core.List.{[], ◌∷◌, ◌++◌}
use native.Mathlib.Omega.{arith}
use native.Mathlib.Nat.{pow-suc}
use pl_backend_sdk_demo.Prelude.Lists.{length}
use pl_backend_sdk_demo.Prelude.Tests.{ltb, leb, ltb→lt, ◌==◌, ==_iff, if◌then◌else◌, Bool-cases}
use pl_backend_sdk_demo.Prelude.Int.{◌+ℤ◌, ℤ, pos, negsuc}
use pl_backend_sdk_demo.Prelude.Strings.{Text, codes, is_white, trim, IsSolid, trim-IsSolid}

digits : ℕ → ℕ → Text → Text
digits zero n out = out
digits (suc f) n out =
    let more = digits f (n / 10) ((b'0' + n % 10) ∷ out) in
    if ltb n 10 then (b'0' + n) ∷ out else more

-- The decimal digits; the fuel is more than the number of digits.
unfoldable pub to_decimal : ℕ → Text
unfolding digits
to_decimal n = digits (suc n) n []

unfoldable pub negate : ℕ → ℤ
negate zero = pos 0
negate (suc n) = negsuc n

unfoldable pub big_text : ℤ → Text
big_text (pos n) = to_decimal n
big_text (negsuc n) = b'-' ∷ to_decimal (suc n)

-- The value of a digit in any radix, 99 for what is no digit.
unfoldable pub digit_value : ℕ → ℕ
digit_value c =
    if leb b'0' c && leb c b'9'
    then c - b'0'
    else if leb b'a' c && leb c b'z'
    then c - b'a' + 10
    else if leb b'A' c && leb c b'Z'
    then c - b'A' + 10
    else 99

unfoldable pub scan : ℕ → ℕ → Text → Option ℕ
scan radix acc [] = some acc
scan radix acc (c ∷ s) =
    let d = digit_value c in
    let rest = scan radix (acc * radix + d) s in if ltb d radix then rest else none

-- At least one digit.
unfoldable pub scan_digits : ℕ → Text → Option ℕ
scan_digits radix [] = none
scan_digits radix (c ∷ s) = scan radix 0 (c ∷ s)

abbrev is_letter : ℕ → ℕ → ℕ → Bool
is_letter lower upper c = c == lower || c == upper

unfoldable pub after_zero : Text → Option ℕ
after_zero [] = some 0
after_zero (c ∷ s) =
    if is_letter b'x' b'X' c
    then scan_digits 16 s
    else if is_letter b'o' b'O' c
    then scan_digits 8 s
    else if is_letter b'b' b'B' c
    then scan_digits 2 s
    else scan 10 0 (c ∷ s)

unfoldable pub literal : Text → Option ℤ
literal [] = some (pos 0)
literal (c ∷ s) =
    if c == b'-'
    then Option.map negate (scan_digits 10 s)
    else if c == b'+'
    then Option.map pos (scan_digits 10 s)
    else if c == b'0'
    then Option.map pos (after_zero s)
    else Option.map pos (scan 10 0 (c ∷ s))

-- `none` stands for the SyntaxError.
unfoldable pub big_int : Text → Option ℤ
unfolding literal
big_int s = literal (trim s)

abbrev pub AllDigits : Text → Type 0
AllDigits [] = Unit {0}
AllDigits (c ∷ s) = ((b'0' ≤ c) × (c ≤ b'9')) × AllDigits s

digits-AllDigits : (f n : ℕ) (out : Text) → AllDigits out → AllDigits (digits f n out)
unfolding digits
digits-AllDigits zero n out h = h
digits-AllDigits (suc f) n out h =
    ground (arith, digits-AllDigits f (n / 10) ((b'0' + n % 10) ∷ out))

digits-ne-nil : (f n : ℕ) (out : Text) → out ≢ [] → digits f n out ≢ []
unfolding digits
digits-ne-nil zero n out h = h
digits-ne-nil (suc f) n out h = ground (arith, digits-ne-nil f (n / 10) ((b'0' + n % 10) ∷ out))

to_decimal-ne-nil : (n : ℕ) → to_decimal n ≢ []
unfolding to_decimal
to_decimal-ne-nil n = ground (arith, digits-ne-nil n (n / 10) ((b'0' + n % 10) ∷ []))

digit_is_solid : (c : ℕ) → b'0' ≤ c → c ≤ b'9' → is_white c ≡ false
unfolding is_white
digit_is_solid c h k = ground arith

AllDigits-IsSolid : (s : Text) → AllDigits s → IsSolid s
AllDigits-IsSolid [] h = tt
AllDigits-IsSolid (c ∷ s) ((h, k), r) = (digit_is_solid c h k, AllDigits-IsSolid s r)

digit_value_of_digit : (d : ℕ) → d < 10 → digit_value (b'0' + d) ≡ d
unfolding digit_value
digit_value_of_digit d h = ground arith

scan_step : (n : ℕ) (out : Text) → scan 10 (n / 10) ((b'0' + n % 10) ∷ out) ≡ scan 10 n out
unfolding scan
scan_step n out =
    let last : digit_value (b'0' + n % 10) ≡ n % 10 = digit_value_of_digit (n % 10) (omega arith) in
    let whole : (n / 10) * 10 + n % 10 ≡ n = omega arith in ground (arith, last, whole)

scan-digits : (f n : ℕ) (out : Text) → n < f → scan 10 0 (digits f n out) ≡ scan 10 n out
unfolding digits scan
scan-digits zero n out h = elim h [ ]
scan-digits (suc f) n out h = elim (Bool-cases (ltb n 10)) [
  | inl small ↦ rw small (ground (arith, digit_value_of_digit n))
  | inr large ↦
      rw large (scan-digits f (n / 10) ((b'0' + n % 10) ∷ out) (ground arith) ∙ scan_step n out)
]

scan-to_decimal : (n : ℕ) → scan 10 0 (to_decimal n) ≡ some n
unfolding to_decimal
scan-to_decimal n = scan-digits (suc n) n [] (omega arith) ∙ unfold scan in refl

to_decimal-AllDigits : (n : ℕ) → AllDigits (to_decimal n)
unfolding to_decimal
to_decimal-AllDigits n = digits-AllDigits (suc n) n [] tt

-- Digits after a `0` are read as decimal digits.
after_zero_of_digits : (s : Text) → AllDigits s → after_zero s ≡ scan 10 0 s
unfolding after_zero
after_zero_of_digits [] h = unfold scan in refl
after_zero_of_digits (c ∷ s) h = ground arith

scan_zero : (s : Text) → scan 10 0 (b'0' ∷ s) ≡ scan 10 0 s
unfolding scan digit_value
scan_zero s = refl

literal_of_digits :
    (s : Text) (n : ℕ) → AllDigits s → s ≢ [] → scan 10 0 s ≡ some n → literal s ≡ some (pos n)
unfolding literal
literal_of_digits [] n h k e = absurd (k refl)
literal_of_digits (c ∷ s) n h k e = elim (Bool-cases (c == b'0')) [
  | inl zero_first ↦
      let same : c ≡ b'0' = (==_iff c b'0').0 zero_first in
      let rest : after_zero s ≡ some n =
        after_zero_of_digits s h.1 ∙ sym (scan_zero s) ∙ (rw same at e) in
      rw same (rw rest refl)
  | inr other ↦ ground arith
]

literal_of_minus :
    (s : Text) (n : ℕ) → s ≢ [] → scan 10 0 s ≡ some n → literal (b'-' ∷ s) ≡ some (negate n)
unfolding literal scan_digits
literal_of_minus [] n k e = absurd (k refl)
literal_of_minus (c ∷ s) n k e = rw e refl

big_int-to_decimal : (n : ℕ) → big_int (to_decimal n) ≡ some (pos n)
unfolding big_int
big_int-to_decimal n =
    ap literal (trim-IsSolid (to_decimal n) (AllDigits-IsSolid _ (to_decimal-AllDigits n)))
    ∙ literal_of_digits _ n (to_decimal-AllDigits n) (to_decimal-ne-nil n) (scan-to_decimal n)

minus_is_solid : is_white b'-' ≡ false
unfolding is_white
minus_is_solid = refl

big_int-minus : (n : ℕ) → big_int (b'-' ∷ to_decimal (suc n)) ≡ some (negsuc n)
unfolding big_int negate
big_int-minus n =
    ap literal (
      trim-IsSolid (b'-' ∷ to_decimal (suc n))
        (minus_is_solid, AllDigits-IsSolid _ (to_decimal-AllDigits (suc n))))
    ∙ literal_of_minus _ (suc n) (to_decimal-ne-nil (suc n)) (scan-to_decimal (suc n))

-- Reading back what was printed gives the number.
pub big_int-big_text : (z : ℤ) → big_int (big_text z) ≡ some z
unfolding big_text
big_int-big_text (pos n) = big_int-to_decimal n
big_int-big_text (negsuc n) = big_int-minus n

-- What a test that prints or reads numbers unfolds.
unfoldable pub numbers : Unit {0}
unfolding big_int big_text to_decimal literal after_zero scan_digits scan digit_value negate trim
    is_white ◌+ℤ◌
numbers = tt

big_int_tests :
    (big_int (codes " -12 ") ≡ some (negsuc 11))
    × (big_int (codes "") ≡ some (pos 0))
    × (big_int (codes "0x1F") ≡ some (pos 31))
    × (big_int (codes "1.5") ≡ none)
    × (big_text (negsuc 104) ≡ codes "-105")
unfolding numbers
big_int_tests = (refl, refl, refl, refl, refl)

digits-append : (f n : ℕ) (out rest : Text) → digits f n out ++ rest ≡ digits f n (out ++ rest)
unfolding digits
digits-append zero n out rest = refl
digits-append (suc f) n out rest =
    ground (arith, digits-append f (n / 10) ((b'0' + n % 10) ∷ out) rest)

-- A left-to-right reader that takes a digit as `acc * 10 + d` reads a printed number as itself.
module _ {ℓ} {R : Type ℓ} (go : ℕ → Text → R)
    (step : (acc d : ℕ) (s : Text) → d < 10 → go acc ((b'0' + d) ∷ s) ≡ go (acc * 10 + d) s) where
  go-digits : (f n : ℕ) (out : Text) → n < f → go 0 (digits f n out) ≡ go n out
  unfolding digits
  go-digits zero n out h = elim h [ ]
  go-digits (suc f) n out h = elim (Bool-cases (ltb n 10)) [
    | inl small ↦
        let alone : 0 * 10 + n ≡ n = omega arith in
        rw small (step 0 n out (ltb→lt n 10 small) ∙ ap (λ k. go k out) alone)
    | inr large ↦
        let whole : (n / 10) * 10 + n % 10 ≡ n = omega arith in
        rw large (
          go-digits f (n / 10) ((b'0' + n % 10) ∷ out) (ground arith)
          ∙ step (n / 10) (n % 10) out (omega arith)
          ∙ ap (λ k. go k out) whole)
  ]

  pub read-to_decimal : (n : ℕ) (rest : Text) → go 0 (to_decimal n ++ rest) ≡ go n rest
  unfolding to_decimal
  read-to_decimal n rest =
      ap (go 0) (digits-append (suc n) n [] rest) ∙ go-digits (suc n) n rest (omega arith)

pow_ten_zero : 10 ^ 1 ≡ 10
pow_ten_zero = refl

pow_ten_suc : (k : ℕ) → 10 ^ suc (suc k) ≡ 10 * 10 ^ suc k
pow_ten_suc k = omega (arith, pow-suc 10 (suc k))

length-digits :
    (k f n : ℕ) (out : Text) → n < 10 ^ suc k → length (digits f n out) ≤ suc k + length out
unfolding digits
length-digits k zero n out h = omega arith
length-digits zero (suc f) n out h = ground (arith, pow_ten_zero)
length-digits (suc k) (suc f) n out h =
    ground (arith, pow_ten_suc k, length-digits k f (n / 10) ((b'0' + n % 10) ∷ out))

-- A number below a power of ten has at most that many digits.
pub length-to_decimal-le : (k n : ℕ) → n < 10 ^ suc k → length (to_decimal n) ≤ suc k
unfolding to_decimal
length-to_decimal-le k n h = omega (arith, length-digits k (suc n) n [] h)

-- A printed number holds no white space.
pub big_text-IsSolid : (z : ℤ) → IsSolid (big_text z)
unfolding big_text
big_text-IsSolid (pos n) = AllDigits-IsSolid _ (to_decimal-AllDigits n)
big_text-IsSolid (negsuc n) = (minus_is_solid, AllDigits-IsSolid _ (to_decimal-AllDigits (suc n)))

pub big_text-ne-nil : (z : ℤ) → big_text z ≢ []
unfolding big_text
big_text-ne-nil (pos n) = to_decimal-ne-nil n
big_text-ne-nil (negsuc n) = λ e. cc

pub big_text-inj : (y z : ℤ) → big_text y ≡ big_text z → y ≡ z
big_text-inj y z e = cc (big_int-big_text y, big_int-big_text z)

digit_value-lt : (c : ℕ) → b'0' ≤ c → c ≤ b'9' → digit_value c < 10
unfolding digit_value
digit_value-lt c h k = ground arith

scan_of_digits : (acc : ℕ) (s : Text) → AllDigits s → (n : ℕ) × (scan 10 acc s ≡ some n)
unfolding scan
scan_of_digits acc [] h = (acc, refl)
scan_of_digits acc (c ∷ s) ((low, high), h) =
    let d = digit_value c in
    let small : d < 10 = digit_value-lt c low high in
    let (n, e) = scan_of_digits (acc * 10 + d) s h in (n, ground arith)

-- A text of digits only is read as a number that is not negative.
pub big_int_of_digits : (s : Text) → AllDigits s → s ≢ [] → (n : ℕ) × (big_int s ≡ some (pos n))
unfolding big_int
big_int_of_digits s h k =
    let (n, e) = scan_of_digits 0 s h in
    (n, ap literal (trim-IsSolid s (AllDigits-IsSolid s h)) ∙ literal_of_digits s n h k e)
