-- ===== src/State/Snapshot/Owner.antt =====
-- privacy/state/sdk-state-snapshot.ts: `filterMapByOwner`.
use pl_backend_sdk_demo.Prelude.{
  ◌≡◌, refl, ap, ◌∙◌, inl, inr, Bool, true, false, ◌||◌, [], ◌∷◌, ◌++◌, Text, codes, text_eq,
  text_eq_iff, subst, starts_with, if◌then◌else◌, Bool-cases, arith,
}
use pl_backend_sdk_demo.Json.{Json, undef, obj, Tree, end, field, get, put, get-put, get-put_self}
use pl_backend_sdk_demo.State.Snapshot.{
  as_record, record_or, owner_fields, filter_map_by_owner, put_filtered,
}

-- A key of the owner: the owner itself, or the owner and a colon in front.
abbrev pub belongs : Text → Text → Bool
belongs owner k = text_eq k owner || starts_with k (owner ++ b':' ∷ [])

-- A map of the tree after the partition: the owner's fields as they were, and no others.
pub record OwnedMap (owner : Text) (before after : Json) : Type 0 where
  pub map : Tree
  pub is_object : after ≡ obj map
  pub fields :
      (k : Text)
      → get k map ≡ (if belongs owner k then get k (record_or (as_record before) end) else undef)

get-owner_fields_hit :
    (owner k j : Text) (v : Json) (t : Tree)
    → j ≡ k
    → text_eq j k ≡ true
    → get k (owner_fields owner t) ≡ (if belongs owner k then get k t else undef)
    → get k (owner_fields owner (field j v t))
      ≡ (if belongs owner k then get k (field j v t) else undef)
unfolding get owner_fields
get-owner_fields_hit owner k j v t same hit ih =
    let as_k : belongs owner j ≡ belongs owner k = ap (belongs owner) same in
    elim (Bool-cases (belongs owner k)) [
      | inl mine ↦ rw (as_k ∙ mine) (rw mine (rw hit refl))
      | inr other ↦ rw (as_k ∙ other) (ih ∙ rw other refl)
    ]

get-owner_fields :
    (owner k : Text) (t : Tree)
    → get k (owner_fields owner t) ≡ (if belongs owner k then get k t else undef)
unfolding get owner_fields
get-owner_fields owner k end = ground arith
get-owner_fields owner k (field j v t) = elim (Bool-cases (text_eq j k)) [
  | inl hit ↦
      get-owner_fields_hit owner k j v t ((text_eq_iff j k).0 hit) hit (get-owner_fields owner k t)
  | inr miss ↦ elim (Bool-cases (belongs owner j)) [
    | inl mine ↦ rw mine (rw miss (get-owner_fields owner k t))
    | inr other ↦ rw other (rw miss (get-owner_fields owner k t))
  ]
]

filtered-OwnedMap : (owner : Text) (m : Json) → OwnedMap owner m (obj (filter_map_by_owner m owner))
unfolding filter_map_by_owner
filtered-OwnedMap owner (obj t) = record {
  map = owner_fields owner t;
  is_object = refl;
  fields = λ k. get-owner_fields owner k t;
}
filtered-OwnedMap owner _ = record {
  map = end;
  is_object = refl;
  fields = λ k. unfold get in ground arith;
}

abbrev pub wallet_of : Tree → Tree
wallet_of t = record_or (as_record (get (codes "wallet") t)) end

abbrev pub registry_of : Tree → Tree
registry_of t = record_or (as_record (get (codes "registry") t)) end

pub get-put_other :
    (k j : Text) (v : Json) (t : Tree) → text_eq k j ≡ false → get j (put k v t) ≡ get j t
get-put_other k j v t h = get-put k j v t ∙ rw h refl

put_filtered-OwnedMap :
    (owner k : Text) (t : Tree) → OwnedMap owner (get k t) (get k (put_filtered owner k t))
put_filtered-OwnedMap owner k t =
    rw (get-put_self k (obj (filter_map_by_owner (get k t) owner)) t)
      (filtered-OwnedMap owner (get k t))

module _ (owner a b c : Text) (ab : text_eq a b ≡ false) (ac : text_eq a c ≡ false)
    (ba : text_eq b a ≡ false) (bc : text_eq b c ≡ false) (ca : text_eq c a ≡ false)
    (cb : text_eq c b ≡ false) (t : Tree) where
  abbrev all_filtered : Tree
  all_filtered = put_filtered owner c (put_filtered owner b (put_filtered owner a t))

  pub all_filtered-OwnedMap :
      OwnedMap owner (get a t) (get a all_filtered)
      × OwnedMap owner (get b t) (get b all_filtered)
      × OwnedMap owner (get c t) (get c all_filtered)
  all_filtered-OwnedMap =
      let one = put_filtered owner a t in
      let two = put_filtered owner b one in
      (
        rw (get-put_other c a (obj (filter_map_by_owner (get c two) owner)) two ca) (
            rw (get-put_other b a (obj (filter_map_by_owner (get b one) owner)) one ba)
              (put_filtered-OwnedMap owner a t)),
        rw (get-put_other c b (obj (filter_map_by_owner (get c two) owner)) two cb) (
            subst (λ v. OwnedMap owner v (get b two))
              (get-put_other a b (obj (filter_map_by_owner (get a t) owner)) t ab)
              (put_filtered-OwnedMap owner b one)),
        subst (λ v. OwnedMap owner v (get c all_filtered))
            (get-put_other b c (obj (filter_map_by_owner (get b one) owner)) one bc
              ∙ get-put_other a c (obj (filter_map_by_owner (get a t) owner)) t ac)
            (put_filtered-OwnedMap owner c two),
      )
