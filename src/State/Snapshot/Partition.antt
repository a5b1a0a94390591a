-- ===== src/State/Snapshot/Partition.antt =====
-- privacy/state/sdk-state-snapshot.ts: `partitionSdkStateTree`.
use pl_backend_sdk_demo.Prelude.{
  ◌≡◌, refl, sym, ap, ◌∙◌, ◌≢◌, true, false, Text, codes, text_eq, text_eq-false_iff, subst,
}
use pl_backend_sdk_demo.Json.{Json, arr, obj, Tree, end, get, put, filter, AllItems, get-put_self}
use pl_backend_sdk_demo.State.Snapshot.{
  records_key, as_record, as_array, record_or, items_or_nil, is_owned, partition_wallet,
  partition_registry, partition_sdk_state_tree,
}
use pl_backend_sdk_demo.State.Snapshot.Prune.{filter-AllItems}
use pl_backend_sdk_demo.State.Snapshot.Owner.{
  OwnedMap, get-put_other, all_filtered-OwnedMap, wallet_of, registry_of,
}

-- What the partition of `t` for an owner is.
pub record Partitioned (owner : Text) (t t' : Tree) : Type 0 where
  pub records :
      get records_key t'
      ≡ arr (filter (is_owned owner) (items_or_nil (as_array (get records_key t))))
  pub records_owned :
      AllItems (λ v. is_owned owner v ≡ true) (items_or_nil (as_array (get records_key t')))
  pub scalars :
      OwnedMap owner
        (get (codes "privateAddressScalars") (wallet_of t))
        (get (codes "privateAddressScalars") (wallet_of t'))
  pub address_records :
      OwnedMap owner
        (get (codes "privateAddressRecords") (wallet_of t))
        (get (codes "privateAddressRecords") (wallet_of t'))
  pub nonces :
      OwnedMap owner
        (get (codes "defaultPrivateAddressNonce") (wallet_of t))
        (get (codes "defaultPrivateAddressNonce") (wallet_of t'))
  pub lookups :
      OwnedMap owner
        (get (codes "lookups") (registry_of t))
        (get (codes "lookups") (registry_of t'))
  pub addresses :
      OwnedMap owner
        (get (codes "privateAddresses") (registry_of t))
        (get (codes "privateAddresses") (registry_of t'))
  pub registered :
      OwnedMap owner
        (get (codes "registeredAddresses") (registry_of t))
        (get (codes "registeredAddresses") (registry_of t'))
  pub others :
      (k : Text) → k ≢ records_key → k ≢ codes "wallet" → k ≢ codes "registry" → get k t' ≡ get k t

differs : (k j : Text) → k ≢ j → text_eq k j ≡ false
differs k j h = (text_eq-false_iff k j).1 h

wallet-OwnedMap :
    (owner : Text) (w : Tree)
    → OwnedMap owner
        (get (codes "privateAddressScalars") w)
        (get (codes "privateAddressScalars") (partition_wallet w owner))
      × OwnedMap owner
          (get (codes "privateAddressRecords") w)
          (get (codes "privateAddressRecords") (partition_wallet w owner))
      × OwnedMap owner
          (get (codes "defaultPrivateAddressNonce") w)
          (get (codes "defaultPrivateAddressNonce") (partition_wallet w owner))
unfolding partition_wallet text_eq
wallet-OwnedMap owner w =
    all_filtered-OwnedMap owner (codes "privateAddressScalars") (codes "privateAddressRecords")
      (codes "defaultPrivateAddressNonce") refl refl refl refl refl refl w

registry-OwnedMap :
    (owner : Text) (w : Tree)
    → OwnedMap owner (get (codes "lookups") w) (get (codes "lookups") (partition_registry w owner))
      × OwnedMap owner
          (get (codes "privateAddresses") w)
          (get (codes "privateAddresses") (partition_registry w owner))
      × OwnedMap owner
          (get (codes "registeredAddresses") w)
          (get (codes "registeredAddresses") (partition_registry w owner))
unfolding partition_registry text_eq
registry-OwnedMap owner w =
    all_filtered-OwnedMap owner (codes "lookups") (codes "privateAddresses")
      (codes "registeredAddresses") refl refl refl refl refl refl w

module _ (r w g : Json) (t : Tree) where
  abbrev updated : Tree
  updated = put (codes "registry") g (put (codes "wallet") w (put records_key r t))

  get-updated :
      (get records_key updated ≡ r)
      × (get (codes "wallet") updated ≡ w)
      × (get (codes "registry") updated ≡ g)
  unfolding text_eq
  get-updated =
      let inner = put records_key r t in
      let outer = put (codes "wallet") w inner in
      (
        get-put_other (codes "registry") records_key g outer refl
            ∙ get-put_other (codes "wallet") records_key w inner refl
            ∙ get-put_self records_key r t,
        get-put_other (codes "registry") (codes "wallet") g outer refl
            ∙ get-put_self (codes "wallet") w inner,
        get-put_self (codes "registry") g outer,
      )

  get-updated_other :
      (k : Text)
      → k ≢ records_key
      → k ≢ codes "wallet"
      → k ≢ codes "registry"
      → get k updated ≡ get k t
  get-updated_other k h i j =
      let inner = put records_key r t in
      let outer = put (codes "wallet") w inner in
      get-put_other (codes "registry") k g outer (differs (codes "registry") k (λ e. j (sym e)))
      ∙ get-put_other (codes "wallet") k w inner (differs (codes "wallet") k (λ e. i (sym e)))
      ∙ get-put_other records_key k r t (differs records_key k (λ e. h (sym e)))

-- The partition for an owner holds that owner's records in their order and no other; each map of the
-- wallet and of the registry that is kept by owner holds the owner's fields as they were and no
-- other; and every other field of the tree stays.
pub partition-Partitioned :
    (t : Tree) (owner : Text) → Partitioned owner t (partition_sdk_state_tree t owner)
unfolding partition_sdk_state_tree
partition-Partitioned t owner =
    let mine = filter (is_owned owner) (items_or_nil (as_array (get records_key t))) in
    let w = partition_wallet (wallet_of t) owner in
    let g = partition_registry (registry_of t) owner in
    let at = get-updated (arr mine) (obj w) (obj g) t in
    let in_wallet = wallet-OwnedMap owner (wallet_of t) in
    let in_registry = registry-OwnedMap owner (registry_of t) in
    let after = partition_sdk_state_tree t owner in
    let to_wallet : w ≡ wallet_of after = ap (λ v. record_or (as_record v) end) (sym at.1) in
    let to_registry : g ≡ registry_of after = ap (λ v. record_or (as_record v) end) (sym at.2) in
    record {
      records = at.0;
      records_owned =
          subst (λ v. AllItems (λ x. is_owned owner x ≡ true) (items_or_nil (as_array v)))
            (sym at.0)
            (filter-AllItems (is_owned owner) (items_or_nil (as_array (get records_key t))));
      scalars =
          subst
            (λ x.
              OwnedMap owner (get (codes "privateAddressScalars") (wallet_of t))
                (get (codes "privateAddressScalars") x))
            to_wallet in_wallet.0;
      address_records =
          subst
            (λ x.
              OwnedMap owner (get (codes "privateAddressRecords") (wallet_of t))
                (get (codes "privateAddressRecords") x))
            to_wallet in_wallet.1;
      nonces =
          subst
            (λ x.
              OwnedMap owner (get (codes "defaultPrivateAddressNonce") (wallet_of t))
                (get (codes "defaultPrivateAddressNonce") x))
            to_wallet in_wallet.2;
      lookups =
          subst
            (λ x. OwnedMap owner (get (codes "lookups") (registry_of t)) (get (codes "lookups") x))
            to_registry in_registry.0;
      addresses =
          subst
            (λ x.
              OwnedMap owner (get (codes "privateAddresses") (registry_of t))
                (get (codes "privateAddresses") x))
            to_registry in_registry.1;
      registered =
          subst
            (λ x.
              OwnedMap owner (get (codes "registeredAddresses") (registry_of t))
                (get (codes "registeredAddresses") x))
            to_registry in_registry.2;
      others = get-updated_other (arr mine) (obj w) (obj g) t;
    }
