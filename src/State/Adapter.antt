-- ===== src/State/Adapter.antt =====
-- privacy/state/postgres-state-adapter.ts. The table is an association list of snapshot ids and
-- trees, in the order in which the database returns the rows. The memory adapter is a package: its
-- state and its write are parameters.
pub mod Shared
pub mod Grows
pub mod Accounts
use pl_backend_sdk_demo.Prelude.{
  ℕ, Bool, true, false, Option, none, some, List, [], ◌∷◌, Text, codes, text_eq, ltb, if◌then◌else◌,
  Dict, lookup, insert, Thrown, plain_error, Result, ok, thrown, Exec, pure, raise, lift, gets,
  modify, when, for_each, ◌>>=◌, ◌>>◌, continue, big_text,
}
use pl_backend_sdk_demo.Json.{
  Json, undef, null, bool, num, big, str, arr, obj, Items, nil, cons, Tree, end, field, get,
  stringify,
}
use pl_backend_sdk_demo.State.Snapshot.{
  account_snapshot_id, legacy_snapshot_id, merge_pool_branch, partition_sdk_state_tree,
  pool_commitment_count, pool_snapshot_id, prune_spent_private_records, richer_pool_branch,
  without_pool_branch, pools_key, as_record, branch,
}

-- `JSON.parse(JSON.stringify(value, …))` with `bigint` as text: an `undefined` field is dropped and an
-- `undefined` item is `null`.
unfoldable mutual
  pub clone_value : Json → Json
  clone_value undef = null
  clone_value null = null
  clone_value (bool b) = bool b
  clone_value (num z) = num z
  clone_value (big z) = str (big_text z)
  clone_value (str s) = str s
  clone_value (arr r) = arr (clone_items r)
  clone_value (obj t) = obj (json_safe_clone t)

  pub clone_items : Items → Items
  clone_items nil = nil
  clone_items (cons v r) = cons (clone_value v) (clone_items r)

  pub json_safe_clone : Tree → Tree
  json_safe_clone end = end
  json_safe_clone (field k undef t) = json_safe_clone t
  json_safe_clone (field k v t) = field k (clone_value v) (json_safe_clone t)

unfoldable pub account_tree_from_memory : Tree → Tree
account_tree_from_memory state =
    json_safe_clone (prune_spent_private_records (without_pool_branch state))

abbrev pub cloned : Option Tree → Option Tree
cloned none = none
cloned (some t) = some (json_safe_clone t)

unfoldable pub pool_tree_from_memory : Tree → Option Tree
pool_tree_from_memory state = cloned (branch (as_record (get pools_key state)))

-- A call through the bridge, by its type.
pub record BridgeCall : Type 0 where
  pub type : Text
  pub input : Json

unfoldable pub is_pool_persist_write : BridgeCall → Bool
is_pool_persist_write call = text_eq call.type (codes "setPoolMerkleState")

-- The memory adapter: `getState` and `write`, which may throw.
pub record Memory : Type 1 where
  pub State : Type 0
  pub get_state : State → Tree
  pub write : BridgeCall → Exec State (Unit {0})

-- The rows and the memory of one adapter.
pub record Store (M : Memory) : Type 0 where
  pub rows : Dict Tree
  pub memory : M.State

-- `repository.save({ id, tree })`
unfoldable pub save : Text → Tree → Dict Tree → Dict Tree
save id tree rows = insert id tree rows

unfoldable pub persist_account_snapshot : Dict Tree → Tree → Text → Dict Tree
persist_account_snapshot rows state snapshot_id =
    save snapshot_id (account_tree_from_memory state) rows

unfoldable pub persist_pool_tree : Dict Tree → Option Tree → Dict Tree
persist_pool_tree rows none = rows
persist_pool_tree rows (some incoming) =
    if ltb (pool_commitment_count (some incoming))
      (pool_commitment_count (lookup pool_snapshot_id rows))
    then rows
    else save pool_snapshot_id incoming rows

unfoldable pub persist_pool_snapshot_if_newer : Dict Tree → Tree → Dict Tree
persist_pool_snapshot_if_newer rows state = persist_pool_tree rows (pool_tree_from_memory state)

unfoldable pub persist_snapshot : Dict Tree → Tree → Text → Dict Tree
persist_snapshot rows state snapshot_id =
    persist_pool_snapshot_if_newer (persist_account_snapshot rows state snapshot_id) state

module _ (M : Memory) where
  abbrev pub write_memory : BridgeCall → Exec (Store M) (Unit {0})
  write_memory call s = let (r, m) = M.write call s.memory in (r, record s { memory = m })

  abbrev pub on_rows : (Dict Tree → Tree → Dict Tree) → Exec (Store M) (Unit {0})
  on_rows f = modify (λ s. record s { rows = f s.rows (M.get_state s.memory) })

  -- `write(call)` of the adapter.
  unfoldable pub write : Text → BridgeCall → Exec (Store M) (Unit {0})
  write snapshot_id call =
      write_memory call
      >> on_rows (λ rows state. persist_account_snapshot rows state snapshot_id)
      >> when (is_pool_persist_write call) (on_rows persist_pool_snapshot_if_newer)

-- `row?.tree`, and the legacy row where there is none.
abbrev pub account_of : Option Tree → Option Tree → Text → Tree
account_of (some tree) legacy public_key = prune_spent_private_records (without_pool_branch tree)
account_of none (some tree) public_key =
    prune_spent_private_records (without_pool_branch (partition_sdk_state_tree tree public_key))
account_of none none public_key = end

unfoldable pub load_account_state_tree : Dict Tree → Text → Tree
load_account_state_tree rows public_key =
    account_of (lookup (account_snapshot_id public_key) rows) (lookup legacy_snapshot_id rows)
      public_key

-- The loop over the rows.
unfoldable pub best_pool : Option Tree → Dict Tree → Option Tree
best_pool best [] = best
best_pool best ((id, tree) ∷ rows) = best_pool (richer_pool_branch best (some tree)) rows

unfoldable pub load_pool_state_tree : Dict Tree → Option Tree
load_pool_state_tree rows =
    let shared = lookup pool_snapshot_id rows in
    if ltb 0 (pool_commitment_count shared) then shared else best_pool none rows

unfoldable pub load_hydrated_state_tree : Dict Tree → Text → Tree
load_hydrated_state_tree rows public_key =
    merge_pool_branch (load_account_state_tree rows public_key) (load_pool_state_tree rows)

abbrev pub tree_or_empty : Option Tree → Tree
tree_or_empty none = end
tree_or_empty (some t) = t

-- `JSON.stringify(next) === JSON.stringify(row.tree)`; a row holds no `bigint`, and where one did the
-- comparison would throw.
abbrev pub same_text : Option Text → Option Text → Result Bool
same_text (some a) (some b) = ok (text_eq a b)
same_text _ _ = thrown (plain_error (codes "Do not know how to serialize a BigInt"))

-- One turn of the second loop of the promotion.
unfoldable pub clean_row : Text × Tree → Exec (Dict Tree) (Unit {0})
clean_row (id, tree) =
    if text_eq id pool_snapshot_id
    then pure tt
    else let next = prune_spent_private_records (without_pool_branch tree) in
      lift (same_text (stringify (obj next)) (stringify (obj tree))) >>= λ same.
      if same then pure tt else modify (save id next)

unfoldable pub promote_pool : Dict Tree → Dict Tree
promote_pool rows =
    let shared = lookup pool_snapshot_id rows in
    let promoted = richer_pool_branch shared (best_pool none rows) in
    if ltb (pool_commitment_count shared) (pool_commitment_count promoted)
    then save pool_snapshot_id (tree_or_empty promoted) rows
    else rows

-- Both loops go over the rows that were found first.
unfoldable pub promote_shared_pool_snapshot : Exec (Dict Tree) (Unit {0})
promote_shared_pool_snapshot =
    gets (λ rows. rows) >>= λ found. modify promote_pool >> for_each clean_row found
