-- ===== src/Notes/Delivery/Groups.antt =====
-- privacy/notes/delivery-remap.ts: `groupRecordsByOwner` beside a filter for each owner.
use mathlib.Core.List.{append_assoc, append-nil}
use pl_backend_sdk_demo.Prelude.{
  ◌≡◌, refl, ◌∙◌, Option, none, some, List, [], ◌∷◌, ◌++◌, Text, text_eq, text_eq_iff, Dict, lookup,
  insert, lookup-insert, filter, filter-append, Option-cases, inl, inr, if◌then◌else◌, arith,
}
use pl_backend_sdk_demo.Notes.Delivery.{DeliveryRecord, push, group_from, group_records_by_owner}

-- A group that has no record is not there.
abbrev pub group {ℓ} : {A : Type ℓ} → List A → Option (List A)
group [] = none
group (a ∷ r) = some (a ∷ r)

abbrev pub owned : {X : Type 0} → Text → List (DeliveryRecord X) → List (DeliveryRecord X)
owned owner records = filter (λ r. text_eq r.owner owner) records

module _ {X : Type 0} where
  -- The groups so far are those of the records so far.
  abbrev Grouped : Dict (List (DeliveryRecord X)) → List (DeliveryRecord X) → Type 0
  Grouped m records = (o : Text) → lookup o m ≡ group (owned o records)

  owned-concat :
      (o : Text) (records : List (DeliveryRecord X)) (r : DeliveryRecord X)
      → owned o (records ++ r ∷ [])
        ≡ (if text_eq r.owner o then owned o records ++ r ∷ [] else owned o records)
  owned-concat o records r =
      filter-append (λ x. text_eq x.owner o) records (r ∷ [])
      ∙ ground (arith, append-nil (owned o records))

  group-eq-some : (xs ys : List (DeliveryRecord X)) → group xs ≡ some ys → xs ≡ ys
  group-eq-some [] ys e = cc
  group-eq-some (x ∷ xs) ys e = ground arith

  group-concat :
      (xs : List (DeliveryRecord X)) (r : DeliveryRecord X)
      → group (xs ++ r ∷ []) ≡ some (xs ++ r ∷ [])
  group-concat [] r = refl
  group-concat (x ∷ xs) r = refl

  push-fresh :
      (m : Dict (List (DeliveryRecord X))) (r : DeliveryRecord X)
      → lookup r.owner m ≡ none
      → push m r ≡ insert r.owner (r ∷ []) m
  unfolding push
  push-fresh m r e = ground arith

  push-found :
      (m : Dict (List (DeliveryRecord X))) (r : DeliveryRecord X)
      (existing : List (DeliveryRecord X))
      → lookup r.owner m ≡ some existing
      → push m r ≡ insert r.owner (existing ++ r ∷ []) m
  unfolding push
  push-found m r existing e = ground arith

  push-Grouped :
      (m : Dict (List (DeliveryRecord X))) (records : List (DeliveryRecord X))
      (r : DeliveryRecord X)
      → Grouped m records
      → Grouped (push m r) (records ++ r ∷ [])
  push-Grouped m records r h o = elim (Option-cases (lookup r.owner m)) [
    | inl fresh ↦
        rw (push-fresh m r fresh, owned-concat o records r)
          (ground (arith, h o, lookup-insert r.owner o (r ∷ []) m, text_eq_iff r.owner o))
    | inr (existing, found) ↦
        rw (push-found m r existing found, owned-concat o records r)
          (ground (
            arith,
            h o,
            lookup-insert r.owner o (existing ++ r ∷ []) m,
            group-eq-some (owned o records) existing,
            group-concat existing r,
            text_eq_iff r.owner o,
          ))
  ]

  group_from-Grouped :
      (m : Dict (List (DeliveryRecord X))) (before records : List (DeliveryRecord X))
      → Grouped m before
      → Grouped (group_from m records) (before ++ records)
  unfolding group_from
  group_from-Grouped m before [] h = rw (append-nil before) h
  group_from-Grouped m before (r ∷ records) h =
      rw (← append_assoc before (r ∷ []) records)
        (group_from-Grouped (push m r) (before ++ r ∷ []) records (push-Grouped m before r h))

  -- The group of an owner is the owner's records in their order, and an owner with no record has no
  -- group.
  pub lookup-group_records_by_owner :
      (o : Text) (records : List (DeliveryRecord X))
      → lookup o (group_records_by_owner records) ≡ group (owned o records)
  unfolding group_records_by_owner
  lookup-group_records_by_owner o records =
      group_from-Grouped [] [] records (λ o. unfold lookup in refl) o
