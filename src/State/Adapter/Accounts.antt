-- ===== src/State/Adapter/Accounts.antt =====
-- privacy/state/postgres-state-adapter.ts: the account rows, and what is loaded from them.
use pl_backend_sdk_demo.Prelude.{
  ◌≡◌, refl, sym, ap, ◌∙◌, ◌≢◌, inl, inr, true, false, Option, none, some, Text, text_eq,
  text_eq-false_iff, ltb, if◌then◌else◌, Dict, lookup, lookup-insert, Bool-cases,
}
use pl_backend_sdk_demo.Json.{Items, Tree, end, get, has_own, AllItems}
use pl_backend_sdk_demo.State.Snapshot.{
  account_snapshot_id, legacy_snapshot_id, pool_snapshot_id, pool_commitment_count, pools_key,
  pools_of, pool_branch_from_tree, is_kept, as_array, records_key, merge_pool_branch,
}
use pl_backend_sdk_demo.State.Snapshot.Branch.{get-merge_pool_branch}
use pl_backend_sdk_demo.State.Snapshot.Prune.{
  IsClean, clean, clean-IsClean, records_of, records-ne-pools,
}
use pl_backend_sdk_demo.State.Adapter.{
  account_of, account_tree_from_memory, load_account_state_tree, load_hydrated_state_tree,
  load_pool_state_tree, persist_account_snapshot, persist_pool_tree, pool_tree_from_memory,
  persist_pool_snapshot_if_newer, persist_snapshot, save,
}

end-IsClean : IsClean end
unfolding has_own get
end-IsClean = record { no_pools = refl; no_spent = λ r e. cc }

account_of-IsClean :
    (row legacy : Option Tree) (public_key : Text) → IsClean (account_of row legacy public_key)
account_of-IsClean (some t) legacy public_key = clean-IsClean t
account_of-IsClean none (some t) public_key = clean-IsClean _
account_of-IsClean none none public_key = end-IsClean

account-IsClean :
    (rows : Dict Tree) (public_key : Text) → IsClean (load_account_state_tree rows public_key)
unfolding load_account_state_tree
account-IsClean rows public_key = account_of-IsClean _ (lookup legacy_snapshot_id rows) public_key

-- What a hydrated memory starts with: the account's own fields, with no spent record among its private
-- records, and the pools of the shared snapshot that was loaded.
pub record IsLoaded (rows : Dict Tree) (public_key : Text) (tree : Tree) : Type 0 where
  pub account : Tree
  pub is_clean : IsClean account
  pub is_account : account ≡ load_account_state_tree rows public_key
  pub no_spent : (r : Items) → records_of tree ≡ some r → AllItems (λ v. is_kept v ≡ true) r
  pub fields :
      (k : Text)
      → get k tree ≡ (
          if text_eq pools_key k
          then pools_of
              (pool_branch_from_tree (load_pool_state_tree rows))
              (pool_branch_from_tree (some account))
          else get k account)

-- A hydrated memory starts with the account's own fields, none of its private records spent, and with
-- the pools of the loaded shared snapshot in place of any of its own.
pub load_hydrated-IsLoaded :
    (rows : Dict Tree) (public_key : Text)
    → IsLoaded rows public_key (load_hydrated_state_tree rows public_key)
unfolding load_hydrated_state_tree
load_hydrated-IsLoaded rows public_key =
    let account = load_account_state_tree rows public_key in
    let pool = load_pool_state_tree rows in
    let at : (k : Text)
        → get k (merge_pool_branch account pool) ≡ (
            if text_eq pools_key k
            then pools_of (pool_branch_from_tree pool) (pool_branch_from_tree (some account))
            else get k account) =
      λ k. get-merge_pool_branch k account pool in
    let is_clean = account-IsClean rows public_key in
    let kept : (k : Text) → k ≢ pools_key → get k (merge_pool_branch account pool) ≡ get k account =
      λ k h. at k ∙ rw ((text_eq-false_iff pools_key k).1 (λ e. h (sym e))) refl in
    record {
      account = account;
      is_clean = is_clean;
      is_account = refl;
      no_spent =
          λ r e. is_clean.no_spent r (sym (ap as_array (kept records_key records-ne-pools)) ∙ e);
      fields = at;
    }

lookup-save :
    (id j : Text) (tree : Tree) (rows : Dict Tree)
    → lookup j (save id tree rows) ≡ (if text_eq id j then some tree else lookup j rows)
unfolding save
lookup-save id j tree rows = lookup-insert id j tree rows

lookup-persist_pool :
    (j : Text) (rows : Dict Tree) (incoming : Option Tree)
    → text_eq pool_snapshot_id j ≡ false
    → lookup j (persist_pool_tree rows incoming) ≡ lookup j rows
unfolding persist_pool_tree
lookup-persist_pool j rows none h = refl
lookup-persist_pool j rows (some t) h =
    elim (Bool-cases (
      ltb (pool_commitment_count (some t))
        (pool_commitment_count (lookup pool_snapshot_id rows)))) [
          | inl fewer ↦ rw fewer refl
          | inr more ↦ rw more (lookup-save pool_snapshot_id j t rows ∙ rw h refl)
        ]

lookup-persist_snapshot :
    (id j : Text) (state : Tree) (rows : Dict Tree)
    → text_eq pool_snapshot_id j ≡ false
    → lookup j (persist_snapshot rows state id)
      ≡ (if text_eq id j then some (account_tree_from_memory state) else lookup j rows)
unfolding persist_snapshot persist_pool_snapshot_if_newer persist_account_snapshot
lookup-persist_snapshot id j state rows h =
    lookup-persist_pool j (persist_account_snapshot rows state id) (pool_tree_from_memory state) h
    ∙ lookup-save id j (account_tree_from_memory state) rows

text_eq-account :
    (a b : Text) → text_eq (account_snapshot_id a) (account_snapshot_id b) ≡ text_eq a b
unfolding account_snapshot_id text_eq
text_eq-account a b = refl

reserved :
    (a : Text)
    → (text_eq pool_snapshot_id (account_snapshot_id a) ≡ false)
      × (text_eq (account_snapshot_id a) legacy_snapshot_id ≡ false)
      × (text_eq pool_snapshot_id legacy_snapshot_id ≡ false)
unfolding account_snapshot_id text_eq
reserved a = (refl, refl, refl)

abbrev row_after : Dict Tree → Tree → Text → Text → Option Tree
row_after rows state saved loaded =
    if text_eq saved loaded
    then some (account_tree_from_memory state)
    else lookup (account_snapshot_id loaded) rows

account_of-row_after :
    (rows : Dict Tree) (state : Tree) (saved loaded : Text)
    → account_of (row_after rows state saved loaded) (lookup legacy_snapshot_id rows) loaded ≡ (
        if text_eq saved loaded
        then clean (account_tree_from_memory state)
        else load_account_state_tree rows loaded)
unfolding load_account_state_tree
account_of-row_after rows state saved loaded = elim (Bool-cases (text_eq saved loaded)) [
  | inl same ↦ rw same refl
  | inr differs ↦ rw differs refl
]

-- After an account's snapshot is persisted, the account loads as the memory's tree without pools and
-- spent records, copied through JSON; and every other account loads as before.
pub load-persist_snapshot :
    (rows : Dict Tree) (state : Tree) (saved loaded : Text)
    → load_account_state_tree (persist_snapshot rows state (account_snapshot_id saved)) loaded ≡ (
        if text_eq saved loaded
        then clean (account_tree_from_memory state)
        else load_account_state_tree rows loaded)
unfolding load_account_state_tree
load-persist_snapshot rows state saved loaded =
    let after = persist_snapshot rows state (account_snapshot_id saved) in
    let row : lookup (account_snapshot_id loaded) after ≡ row_after rows state saved loaded =
      lookup-persist_snapshot (account_snapshot_id saved) (account_snapshot_id loaded) state rows
        (reserved loaded).0
      ∙ ap
          (λ b.
            if b
            then some (account_tree_from_memory state)
            else lookup (account_snapshot_id loaded) rows)
          (text_eq-account saved loaded) in
    let legacy : lookup legacy_snapshot_id after ≡ lookup legacy_snapshot_id rows =
      lookup-persist_snapshot (account_snapshot_id saved) legacy_snapshot_id state rows
        (reserved loaded).2
      ∙ ap
          (λ b. if b then some (account_tree_from_memory state) else lookup legacy_snapshot_id rows)
          (reserved saved).1 in
    ap (λ r. account_of r (lookup legacy_snapshot_id after) loaded) row
    ∙ ap (λ r. account_of (row_after rows state saved loaded) r loaded) legacy
    ∙ account_of-row_after rows state saved loaded
