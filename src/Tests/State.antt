-- ===== src/Tests/State.antt =====
-- Snapshots and the adapter.
use pl_backend_sdk_demo.Prelude.{
  ◌≡◌, ◌≤◌, Bool, true, false, some, [], ◌∷◌, pos, Text, codes, text_eq, Dict, ok, if◌then◌else◌,
  first, later,
}
use pl_backend_sdk_demo.Json.{Json, bool, num, str, arr, obj, Items, nil, cons, Tree, end, field}
use pl_backend_sdk_demo.State.Snapshot.{
  account_snapshot_id, pool_snapshot_id, partition_sdk_state_tree,
}
use pl_backend_sdk_demo.State.Snapshot.Prune.{clean}
use pl_backend_sdk_demo.State.Snapshot.Partition.{Partitioned, partition-Partitioned}
use pl_backend_sdk_demo.State.Adapter.{
  Memory, BridgeCall, account_tree_from_memory, load_account_state_tree, load_hydrated_state_tree,
  persist_snapshot, promote_shared_pool_snapshot, write,
}
use pl_backend_sdk_demo.State.Adapter.Shared.{branch_count, shared_count, promote_richest}
use pl_backend_sdk_demo.State.Adapter.Grows.{written, none_yet, followed, shared_count_grows}
use pl_backend_sdk_demo.State.Adapter.Accounts.{
  IsLoaded, load_hydrated-IsLoaded, load-persist_snapshot,
}

abbrev pools : Items → Json
pools commitments = obj (
    field (codes "byContract")
      (obj (field (codes "C1") (obj (field (codes "commitments") (arr commitments) end)) end)) end)

abbrev note : Text → Bool → Json
note owner consumed =
    obj (field (codes "owner") (str owner) (field (codes "consumed") (bool consumed) end))

abbrev state : Tree
state = field (codes "pools") (pools (cons (str (codes "c1")) (cons (str (codes "c2")) nil))) (
    field (codes "privateRecords")
      (arr (cons (note (codes "GA") true) (cons (note (codes "GB") false) nil))) end)

abbrev poorer : Tree
poorer = field (codes "pools") (pools (cons (str (codes "c1")) nil)) end

abbrev rows : Dict Tree
rows = (pool_snapshot_id, poorer) ∷ (account_snapshot_id (codes "GA"), state) ∷ []

-- A memory whose writes replace its tree.
abbrev memory : Memory
memory = record { State = Tree; get_state = λ t. t; write = λ call t. (ok tt, state) }

abbrev call : BridgeCall
call = record { type = codes "setPoolMerkleState"; input = num (pos 1) }

abbrev after_write : Dict Tree
after_write =
    (write memory (account_snapshot_id (codes "GB")) call
      (record { rows = rows; memory = poorer })).1.rows

shared_count_grows_example : shared_count rows ≤ shared_count after_write
shared_count_grows_example =
    shared_count_grows (
      followed none_yet
        (written memory (codes "GB") call (record { rows = rows; memory = poorer })))

promote_richest_example :
    branch_count (some state) ≤ shared_count (promote_shared_pool_snapshot rows).1
promote_richest_example =
    promote_richest rows (account_snapshot_id (codes "GA")) state (later first)

load_hydrated-IsLoaded_example :
    IsLoaded rows (codes "GA") (load_hydrated_state_tree rows (codes "GA"))
load_hydrated-IsLoaded_example = load_hydrated-IsLoaded rows (codes "GA")

load-persist_snapshot_example :
    load_account_state_tree
      (persist_snapshot rows state (account_snapshot_id (codes "GB")))
      (codes "GB")
    ≡ (if text_eq (codes "GB") (codes "GB")
        then clean (account_tree_from_memory state)
        else load_account_state_tree rows (codes "GB"))
load-persist_snapshot_example = load-persist_snapshot rows state (codes "GB") (codes "GB")

partition-Partitioned_example :
    Partitioned (codes "GA") state (partition_sdk_state_tree state (codes "GA"))
partition-Partitioned_example = partition-Partitioned state (codes "GA")
