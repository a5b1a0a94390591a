-- ===== src/Prelude/Strings.antt =====
-- JavaScript strings as lists of UTF-16 code units, with the methods that the sources call.
use Prim.Native.Nat.{ℕ}
use Prim.Native.Char.{code}
use Prim.Native.String.{String}
use mathlib.Core.Path.{◌≡◌, refl}
use mathlib.Core.Logic.{◌↔◌, ◌≢◌}
use mathlib.Core.Bool.{Bool, true, false, ◌&&◌, ◌||◌}
use mathlib.Core.List.{List, [], ◌∷◌, ◌++◌}
use native.Mathlib.Omega.{arith}
use pl_backend_sdk_demo.Prelude.Tests.{leb, ◌==◌, if◌then◌else◌}

abbrev pub Text : Type 0
Text = List ℕ

-- The code units of a literal of the source (all are in the basic plane).
abbrev pub codes : String → Text
codes String.[] = []
codes (String.◌∷◌ c s) = code c ∷ codes s

-- `===` on strings.
unfoldable pub text_eq : Text → Text → Bool
text_eq [] [] = true
text_eq (c ∷ s) (d ∷ t) = (c == d) && text_eq s t
text_eq _ _ = false

pub text_eq_iff : (s t : Text) → (text_eq s t ≡ true) ↔ (s ≡ t)
unfolding text_eq
text_eq_iff [] [] = ground arith
text_eq_iff [] (d ∷ t) = ground arith
text_eq_iff (c ∷ s) [] = ground arith
text_eq_iff (c ∷ s) (d ∷ t) = ground (arith, text_eq_iff s t)

pub text_eq_refl : (s : Text) → text_eq s s ≡ true
text_eq_refl s = (text_eq_iff s s).1 refl

pub text_eq-false_iff : (s t : Text) → (text_eq s t ≡ false) ↔ (s ≢ t)
text_eq-false_iff s t = ground (arith, text_eq_iff s t)

-- White space and line terminators of ECMAScript.
unfoldable pub is_white : ℕ → Bool
is_white c =
    (leb 9 c && leb c 13)
    || c == 32
    || c == 160
    || c == 0x1680
    || (leb 0x2000 c && leb c 0x200a)
    || c == 0x2028
    || c == 0x2029
    || c == 0x202f
    || c == 0x205f
    || c == 0x3000
    || c == 0xfeff

unfoldable pub trim_start : Text → Text
trim_start [] = []
trim_start (c ∷ s) = if is_white c then trim_start s else c ∷ s

unfoldable pub keep_end : ℕ → Text → Text
keep_end c [] = if is_white c then [] else c ∷ []
keep_end c (d ∷ s) = c ∷ d ∷ s

unfoldable pub trim_end : Text → Text
unfolding keep_end
trim_end [] = []
trim_end (c ∷ s) = keep_end c (trim_end s)

unfoldable pub trim : Text → Text
unfolding trim_start trim_end
trim s = trim_end (trim_start s)

-- `s.trim() === ""`.
abbrev pub is_blank : Text → Bool
is_blank s = elim (trim s) [ [] ↦ true | c ∷ r ↦ false ]

unfoldable pub starts_with : Text → Text → Bool
starts_with s [] = true
starts_with [] (d ∷ t) = false
starts_with (c ∷ s) (d ∷ t) = (c == d) && starts_with s t

unfoldable pub includes : Text → Text → Bool
unfolding starts_with
includes [] t = starts_with [] t
includes (c ∷ s) t = starts_with (c ∷ s) t || includes s t

pub starts_with-append : (s t : Text) → starts_with (s ++ t) s ≡ true
unfolding starts_with
starts_with-append [] [] = refl
starts_with-append [] (d ∷ t) = refl
starts_with-append (c ∷ s) t = ground (arith, starts_with-append s t)

-- A text with no white space at all, which `trim` leaves alone.
abbrev pub IsSolid : Text → Type 0
IsSolid [] = Unit {0}
IsSolid (c ∷ s) = (is_white c ≡ false) × IsSolid s

trim_end-IsSolid : (s : Text) → IsSolid s → trim_end s ≡ s
unfolding trim_end
trim_end-IsSolid [] h = refl
trim_end-IsSolid (c ∷ []) h = ground arith
trim_end-IsSolid (c ∷ d ∷ s) h = ground (arith, trim_end-IsSolid (d ∷ s) h.1)

pub trim-IsSolid : (s : Text) → IsSolid s → trim s ≡ s
unfolding trim
trim-IsSolid [] h = refl
trim-IsSolid (c ∷ s) h = ground (arith, trim_end-IsSolid (c ∷ s) h)
