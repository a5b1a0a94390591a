-- ===== src/Relay/Store/Map.antt =====
-- relay/pending-operation.store.ts beside a map from ids to operations.
use pl_backend_sdk_demo.Prelude.{
  true, false, ◌&&◌, ◌≡◌, ◌≢◌, refl, sym, ap, ◌∙◌, subst, inl, inr, ◌⊎◌, Option, none, some, List,
  [], ◌∷◌, Text, text_eq, text_eq_iff, text_eq-false_iff, find, Bool-cases, if◌then◌else◌, Among,
  first, later, ◌↔◌, arith,
}
use pl_backend_sdk_demo.Relay.Store.{
  PendingRow, PendingOperation, PendingTable, row_of, save_pending, save, list, read,
}

-- The abstract store: at most one operation under an id.
abbrev pub OperationMap : Type 0 → Type 0
OperationMap P = Text → Option (PendingOperation P)

module _ {P : Type 0} where
  abbrev pub updated : PendingOperation P → OperationMap P → OperationMap P
  updated o m id = if text_eq o.id id then some o else m id

  abbrev pub of_wallet : Text → Option (PendingOperation P) → Option (PendingOperation P)
  of_wallet wallet none = none
  of_wallet wallet (some o) = if text_eq o.wallet_public_key wallet then some o else none

  -- The map that a table stands for.
  unfoldable pub operation_map : PendingTable P → OperationMap P
  operation_map [] id = none
  operation_map (r ∷ table) id =
      if text_eq r.payload.id id then some r.payload else operation_map table id

  abbrev NoRow : Text → PendingTable P → Type 0
  NoRow id [] = Unit {0}
  NoRow id (r ∷ table) = (r.id ≢ id) × NoRow id table

  -- The rows that `save` makes: each has its operation's id and wallet, and no id stands twice.
  abbrev pub IsTable : PendingTable P → Type 0
  IsTable [] = Unit {0}
  IsTable (r ∷ table) = (r ≡ row_of r.payload) × NoRow r.id table × IsTable table

  save-NoRow :
      (id : Text) (row : PendingRow (PendingOperation P)) (table : PendingTable P)
      → row.id ≢ id
      → NoRow id table
      → NoRow id (save_pending row table)
  unfolding save_pending
  save-NoRow id row [] d n = (d, tt)
  save-NoRow id row (r ∷ table) d n = elim (Bool-cases (text_eq r.id row.id)) [
    | inl same ↦ rw same (d, n.1)
    | inr differs ↦ rw differs (n.0, save-NoRow id row table d n.1)
  ]

  save_pending-IsTable :
      (o : PendingOperation P) (table : PendingTable P)
      → IsTable table
      → IsTable (save_pending (row_of o) table)
  unfolding save_pending
  save_pending-IsTable o [] h = (refl, tt, tt)
  save_pending-IsTable o (r ∷ table) h = elim (Bool-cases (text_eq r.id o.id)) [
    | inl same ↦
        rw same (refl, subst (λ x. NoRow x table) ((text_eq_iff r.id o.id).0 same) h.1, h.2)
    | inr differs ↦ rw differs (
      h.0,
      save-NoRow r.id (row_of o) table (λ e. (text_eq-false_iff r.id o.id).0 differs (sym e)) h.1,
      save_pending-IsTable o table h.2,
    )
  ]

  save_pending-map :
      (o : PendingOperation P) (table : PendingTable P) (id : Text)
      → IsTable table
      → operation_map (save_pending (row_of o) table) id ≡ updated o (operation_map table) id
  unfolding save_pending operation_map
  save_pending-map o [] id h = refl
  save_pending-map o (r ∷ table) id h =
      let key : r.id ≡ r.payload.id = ap (λ (x : PendingRow (PendingOperation P)). x.id) h.0 in
      ground (
        arith,
        key,
        text_eq_iff r.id o.id,
        text_eq_iff o.id id,
        text_eq_iff r.payload.id id,
        save_pending-map o table id h.2,
      )

  filter-none :
      (wallet id : Text) (table : PendingTable P)
      → NoRow id table
      → find (λ r. text_eq r.id id && text_eq r.wallet_public_key wallet) table ≡ none
  filter-none wallet id [] n = refl
  filter-none wallet id (r ∷ table) n =
      ground (arith, text_eq_iff r.id id, filter-none wallet id table n.1)

  map-none :
      (id : Text) (table : PendingTable P)
      → IsTable table
      → NoRow id table
      → operation_map table id ≡ none
  unfolding operation_map
  map-none id [] h n = refl
  map-none id (r ∷ table) h n =
      let key : r.id ≡ r.payload.id = ap (λ (x : PendingRow (PendingOperation P)). x.id) h.0 in
      ground (arith, key, text_eq_iff r.payload.id id, map-none id table h.2 n.1)

  read-map :
      (wallet id : Text) (table : PendingTable P)
      → IsTable table
      → read wallet id table ≡ of_wallet wallet (operation_map table id)
  unfolding read operation_map
  read-map wallet id [] h = refl
  read-map wallet id (r ∷ table) h =
      let key : r.id ≡ r.payload.id = ap (λ (x : PendingRow (PendingOperation P)). x.id) h.0 in
      let owner : r.wallet_public_key ≡ r.payload.wallet_public_key =
        ap (λ (x : PendingRow (PendingOperation P)). x.wallet_public_key) h.0 in
      elim (Bool-cases (text_eq r.id id)) [
        | inl same ↦
            let at_key : r.id ≡ id = (text_eq_iff r.id id).0 same in
            ground (
              arith,
              key,
              owner,
              text_eq_iff r.payload.id id,
              filter-none wallet id table (subst (λ x. NoRow x table) at_key h.1),
            )
        | inr differs ↦
            ground (arith, key, text_eq_iff r.payload.id id, read-map wallet id table h.2)
      ]

  list-kept :
      (wallet : Text) (r : PendingRow (PendingOperation P)) (table : PendingTable P)
      → text_eq r.wallet_public_key wallet ≡ true
      → list wallet (r ∷ table) ≡ r.payload ∷ list wallet table
  unfolding list
  list-kept wallet r table h = rw h refl

  list-dropped :
      (wallet : Text) (r : PendingRow (PendingOperation P)) (table : PendingTable P)
      → text_eq r.wallet_public_key wallet ≡ false
      → list wallet (r ∷ table) ≡ list wallet table
  unfolding list
  list-dropped wallet r table h = rw h refl

  map-first :
      (r : PendingRow (PendingOperation P)) (table : PendingTable P) (id : Text)
      → text_eq r.payload.id id ≡ true
      → operation_map (r ∷ table) id ≡ some r.payload
  unfolding operation_map
  map-first r table id h = rw h refl

  map-later :
      (r : PendingRow (PendingOperation P)) (table : PendingTable P) (id : Text)
      → text_eq r.payload.id id ≡ false
      → operation_map (r ∷ table) id ≡ operation_map table id
  unfolding operation_map
  map-later r table id h = rw h refl

  id_of : (r : PendingRow (PendingOperation P)) → r ≡ row_of r.payload → r.id ≡ r.payload.id
  id_of r e = ap (λ (x : PendingRow (PendingOperation P)). x.id) e

  wallet_of :
      (r : PendingRow (PendingOperation P))
      → r ≡ row_of r.payload
      → r.wallet_public_key ≡ r.payload.wallet_public_key
  wallet_of r e = ap (λ (x : PendingRow (PendingOperation P)). x.wallet_public_key) e

  -- An operation further on is under no earlier id.
  elsewhere :
      (wallet : Text) (o : PendingOperation P) (r : PendingRow (PendingOperation P))
      (table : PendingTable P)
      → IsTable (r ∷ table)
      → of_wallet wallet (operation_map table o.id) ≡ some o
      → of_wallet wallet (operation_map (r ∷ table) o.id) ≡ some o
  elsewhere wallet o r table h e = elim (Bool-cases (text_eq r.payload.id o.id)) [
    | inl same ↦
        let at_key : r.id ≡ o.id = id_of r h.0 ∙ (text_eq_iff r.payload.id o.id).0 same in
        let gone = map-none o.id table h.2 (subst (λ x. NoRow x table) at_key h.1) in
        let never : ◌≡◌ {A = Option (PendingOperation P)} none (some o) =
          ap (of_wallet wallet) (sym gone) ∙ e in
        absurd (cc)
    | inr differs ↦ rw (map-later r table o.id differs) e
  ]

  first_or_later :
      (o x : PendingOperation P) (xs : List (PendingOperation P))
      → Among o (x ∷ xs)
      → (x ≡ o) ⊎ Among o xs
  first_or_later o x xs first = inl refl
  first_or_later o x xs (later m) = inr m

  first_row :
      (wallet : Text) (o : PendingOperation P) (r : PendingRow (PendingOperation P))
      (table : PendingTable P)
      → IsTable (r ∷ table)
      → text_eq r.wallet_public_key wallet ≡ true
      → r.payload ≡ o
      → of_wallet wallet (operation_map (r ∷ table) o.id) ≡ some o
  first_row wallet o r table h kept e =
      let same : text_eq r.payload.id o.id ≡ true =
        (text_eq_iff r.payload.id o.id).1 (ap (λ (x : PendingOperation P). x.id) e) in
      let owner = wallet_of r h.0 in
      ap (of_wallet wallet) (map-first r table o.id same) ∙ ground (arith, kept, owner, e)

  listed :
      (wallet : Text) (o : PendingOperation P) (table : PendingTable P)
      → IsTable table
      → Among o (list wallet table)
      → of_wallet wallet (operation_map table o.id) ≡ some o
  listed wallet o [] h m = unfold list in elim m [ ]
  listed wallet o (r ∷ table) h m = elim (Bool-cases (text_eq r.wallet_public_key wallet)) [
    | inl kept ↦
        elim (first_or_later o r.payload (list wallet table)
          (subst (Among o) (list-kept wallet r table kept) m)) [
            | inl e ↦ first_row wallet o r table h kept e
            | inr n ↦ elsewhere wallet o r table h (listed wallet o table h.2 n)
          ]
    | inr dropped ↦
        elsewhere wallet o r table h
          (listed wallet o table h.2 (subst (Among o) (list-dropped wallet r table dropped) m))
  ]

  of_wallet-some :
      (wallet : Text) (p o : PendingOperation P)
      → of_wallet wallet (some p) ≡ some o
      → (text_eq p.wallet_public_key wallet ≡ true) × (p ≡ o)
  of_wallet-some wallet p o e = elim (Bool-cases (text_eq p.wallet_public_key wallet)) [
    | inl same ↦ (same, ground arith)
    | inr differs ↦ absurd (ground arith)
  ]

  kept_later :
      (wallet : Text) (o : PendingOperation P) (r : PendingRow (PendingOperation P))
      (table : PendingTable P)
      → Among o (list wallet table)
      → Among o (list wallet (r ∷ table))
  kept_later wallet o r table m = elim (Bool-cases (text_eq r.wallet_public_key wallet)) [
    | inl kept ↦ subst (Among o) (sym (list-kept wallet r table kept)) (later m)
    | inr dropped ↦ subst (Among o) (sym (list-dropped wallet r table dropped)) m
  ]

  in_list :
      (wallet : Text) (o : PendingOperation P) (table : PendingTable P)
      → IsTable table
      → of_wallet wallet (operation_map table o.id) ≡ some o
      → Among o (list wallet table)
  in_list wallet o [] h e = unfold operation_map in cc
  in_list wallet o (r ∷ table) h e = elim (Bool-cases (text_eq r.payload.id o.id)) [
    | inl same ↦
        let (mine, is) =
          of_wallet-some wallet r.payload o
            (ap (of_wallet wallet) (sym (map-first r table o.id same)) ∙ e) in
        let kept : text_eq r.wallet_public_key wallet ≡ true =
          ap (λ x. text_eq x wallet) (wallet_of r h.0) ∙ mine in
        subst (Among o) (sym (list-kept wallet r table kept))
          (subst (λ x. Among o (x ∷ list wallet table)) (sym is) first)
    | inr differs ↦ kept_later wallet o r table (
        in_list wallet o table h.2
          (ap (of_wallet wallet) (sym (map-later r table o.id differs)) ∙ e))
  ]

-- How the store stands to a map from ids to operations.
pub record IsMap {P : Type 0} (table : PendingTable P) : Type 0 where
  pub saves :
      (o : PendingOperation P) (id : Text)
      → operation_map (save o table) id ≡ updated o (operation_map table) id
  pub saves_table : (o : PendingOperation P) → IsTable (save o table)
  pub reads : (wallet id : Text) → read wallet id table ≡ of_wallet wallet (operation_map table id)
  pub lists :
      (wallet : Text) (o : PendingOperation P)
      → Among o (list wallet table) ↔ (of_wallet wallet (operation_map table o.id) ≡ some o)

-- A table that the store has saved refines a map with at most one operation under an id: a save is an
-- update of the map, and leaves such a table; a read is the map's operation where the wallet is its
-- own; and a wallet's list has exactly the map's operations of the wallet.
pub table-IsMap : (P : Type 0) (table : PendingTable P) → IsTable table → IsMap table
unfolding save
table-IsMap P table h = record {
  saves = λ o id. save_pending-map o table id h;
  saves_table = λ o. save_pending-IsTable o table h;
  reads = λ wallet id. read-map wallet id table h;
  lists = λ wallet o. (listed wallet o table h, in_list wallet o table h);
}
