-- ===== src/Prelude/Maps.antt =====
-- A JavaScript `Map` with string keys, in insertion order, and a table with a text key.
use mathlib.Core.Path.{◌≡◌, refl, sym}
use mathlib.Core.List.{List, [], ◌∷◌}
use mathlib.Core.Logic.{inl, inr, ◌≢◌}
use mathlib.Core.Option.{Option, none, some}
use native.Mathlib.Omega.{arith}
use pl_backend_sdk_demo.Prelude.Tests.{if◌then◌else◌, Bool-cases}
use pl_backend_sdk_demo.Prelude.Strings.{Text, text_eq, text_eq_iff, text_eq-false_iff}

abbrev pub Dict : Type 0 → Type 0
Dict V = List (Text × V)

module _ {V : Type 0} where
  unfoldable pub lookup : Text → Dict V → Option V
  lookup k [] = none
  lookup k ((j, v) ∷ m) = if text_eq j k then some v else lookup k m

  -- `map.set(k, v)`
  unfoldable pub insert : Text → V → Dict V → Dict V
  insert k v [] = (k, v) ∷ []
  insert k v ((j, w) ∷ m) = if text_eq j k then (j, v) ∷ m else (j, w) ∷ insert k v m

  -- `map.delete(k)`
  unfoldable pub erase : Text → Dict V → Dict V
  erase k [] = []
  erase k ((j, w) ∷ m) = if text_eq j k then m else (j, w) ∷ erase k m

  pub lookup-insert :
      (k j : Text) (v : V) (m : Dict V)
      → lookup j (insert k v m) ≡ (if text_eq k j then some v else lookup j m)
  unfolding lookup insert
  lookup-insert k j v [] = refl
  lookup-insert k j v ((i, w) ∷ m) =
      ground (arith, text_eq_iff k j, text_eq_iff i k, text_eq_iff i j, lookup-insert k j v m)

  pub lookup-insert_self : (k : Text) (v : V) (m : Dict V) → lookup k (insert k v m) ≡ some v
  lookup-insert_self k v m = ground (arith, lookup-insert k k v m, text_eq_iff k k)

-- What holds of every value.
module _ {V : Type 0} (P : V → Type 0) where
  abbrev pub AllValues : Dict V → Type 0
  AllValues [] = Unit {0}
  AllValues ((k, v) ∷ m) = P v × AllValues m

  pub lookup-AllValues : (k : Text) (v : V) (m : Dict V) → AllValues m → lookup k m ≡ some v → P v
  unfolding lookup
  lookup-AllValues k v [] h e = cc
  lookup-AllValues k v ((j, w) ∷ m) h e = elim (Bool-cases (text_eq j k)) [
    | inl hit ↦ let same : w ≡ v = ground arith in rw (← same) h.0
    | inr miss ↦ lookup-AllValues k v m h.1 (ground arith)
  ]

  pub insert-AllValues :
      (k : Text) (v : V) (m : Dict V) → P v → AllValues m → AllValues (insert k v m)
  unfolding insert
  insert-AllValues k v [] p h = (p, tt)
  insert-AllValues k v ((j, w) ∷ m) p h = elim (Bool-cases (text_eq j k)) [
    | inl hit ↦ rw hit (p, h.1)
    | inr miss ↦ rw miss (h.0, insert-AllValues k v m p h.1)
  ]

module _ {V : Type 0} where
  -- The key is not there.
  abbrev pub Absent : Text → Dict V → Type 0
  Absent k [] = Unit {0}
  Absent k ((j, v) ∷ m) = (j ≢ k) × Absent k m

  -- No key stands twice.
  abbrev pub HasDistinctKeys : Dict V → Type 0
  HasDistinctKeys [] = Unit {0}
  HasDistinctKeys ((j, v) ∷ m) = Absent j m × HasDistinctKeys m

  insert-Absent : (k j : Text) (v : V) (m : Dict V) → k ≢ j → Absent j m → Absent j (insert k v m)
  unfolding insert
  insert-Absent k j v [] h a = (h, tt)
  insert-Absent k j v ((i, w) ∷ m) h a = elim (Bool-cases (text_eq i k)) [
    | inl hit ↦ rw hit a
    | inr miss ↦ rw miss (a.0, insert-Absent k j v m h a.1)
  ]

  pub insert-HasDistinctKeys :
      (k : Text) (v : V) (m : Dict V) → HasDistinctKeys m → HasDistinctKeys (insert k v m)
  unfolding insert
  insert-HasDistinctKeys k v [] h = (tt, tt)
  insert-HasDistinctKeys k v ((i, w) ∷ m) h = elim (Bool-cases (text_eq i k)) [
    | inl hit ↦ rw hit h
    | inr miss ↦ rw miss (
      insert-Absent k i v m (λ e. (text_eq-false_iff i k).0 miss (sym e)) h.0,
      insert-HasDistinctKeys k v m h.1,
    )
  ]
