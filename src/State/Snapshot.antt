-- ===== src/State/Snapshot.antt =====
-- privacy/state/sdk-state-snapshot.ts, all but the amounts.
pub mod Branch
pub mod Prune
pub mod Owner
pub mod Partition
use pl_backend_sdk_demo.Prelude.{
  ℕ, max, Bool, true, false, not, ◌&&◌, ◌||◌, Option, none, some, [], ◌∷◌, ◌++◌, ℤ, pos_part, Text,
  codes, text_eq, starts_with, ltb, ◌==◌, if◌then◌else◌,
}
use pl_backend_sdk_demo.Json.{
  Json, undef, num, arr, obj, Items, nil, Tree, end, field, get, has_own, put, length, filter,
  is_text, is_true,
}

abbrev pub legacy_snapshot_id : Text
legacy_snapshot_id = codes "default"

abbrev pub pool_snapshot_id : Text
pool_snapshot_id = codes "pool:shared"

unfoldable pub account_snapshot_id : Text → Text
account_snapshot_id public_key = codes "account:" ++ public_key

abbrev pub pools_key : Text
pools_key = codes "pools"

abbrev pub records_key : Text
records_key = codes "privateRecords"

-- The loop that copies every field but one.
unfoldable pub without : Text → Tree → Tree
without k end = end
without k (field j v t) = if text_eq j k then without k t else field j v (without k t)

unfoldable pub without_pool_branch : Tree → Tree
without_pool_branch tree = if not (has_own pools_key tree) then tree else without pools_key tree

-- `isRecord(value)`, with the record.
abbrev pub as_record : Json → Option Tree
as_record (obj t) = some t
as_record _ = none

-- `Array.isArray(value)`, with the items.
abbrev pub as_array : Json → Option Items
as_array (arr r) = some r
as_array _ = none

abbrev pub record_or : Option Tree → Tree → Tree
record_or none t = t
record_or (some s) t = s

-- `{ pools: tree.pools }`
abbrev pub branch : Option Tree → Option Tree
branch none = none
branch (some pools) = some (field pools_key (obj pools) end)

unfoldable pub pool_branch_from_tree : Option Tree → Option Tree
pool_branch_from_tree none = none
pool_branch_from_tree (some tree) = branch (as_record (get pools_key tree))

-- `branch?.pools ?? other?.pools`
abbrev pub pools_of : Option Tree → Option Tree → Json
pools_of (some b) other = get pools_key b
pools_of none (some b) = get pools_key b
pools_of none none = undef

-- Without pools the account stays as it is, and `pools` is always an object otherwise.
abbrev pub with_pools : Tree → Json → Tree
with_pools account undef = account
with_pools account pools = put pools_key pools account

unfoldable pub merge_pool_branch : Tree → Option Tree → Tree
merge_pool_branch account pool =
    with_pools (without_pool_branch account)
      (pools_of (pool_branch_from_tree pool) (pool_branch_from_tree (some account)))

-- `Array.isArray(value.commitments) ? value.commitments.length : 0`
abbrev pub array_length : Json → ℕ
array_length (arr r) = length r
array_length _ = 0

-- `typeof value.commitmentCount === "number" ? … : 0`; a negative count is below the others.
abbrev pub declared_count : Json → ℕ
declared_count (num z) = pos_part z
declared_count _ = 0

abbrev pub contract_count : Json → ℕ
contract_count (obj t) =
    max (array_length (get (codes "commitments") t))
      (declared_count (get (codes "commitmentCount") t))
contract_count _ = 0

-- The loop over the values of `byContract`.
unfoldable pub greatest_count : ℕ → Tree → ℕ
greatest_count most end = most
greatest_count most (field k v t) = greatest_count (max most (contract_count v)) t

abbrev pub counted : Option Tree → ℕ
counted none = 0
counted (some by_contract) = greatest_count 0 by_contract

unfoldable pub pool_commitment_count : Option Tree → ℕ
pool_commitment_count none = 0
pool_commitment_count (some tree) =
    counted (as_record (get (codes "byContract") (record_or (as_record (get pools_key tree)) tree)))

abbrev pub or_else : Option Tree → Option Tree → Option Tree
or_else (some t) other = some t
or_else none other = other

unfoldable pub richer_pool_branch : Option Tree → Option Tree → Option Tree
richer_pool_branch left right =
    let left_pool = pool_branch_from_tree left in
    let right_pool = pool_branch_from_tree right in
    if ltb (pool_commitment_count left_pool) (pool_commitment_count right_pool)
    then right_pool
    else or_else left_pool right_pool

-- The test of a record that is kept.
unfoldable pub is_kept : Json → Bool
is_kept (obj t) =
    not (is_true (get (codes "consumed") t))
    && not (is_text (get (codes "status") t) (codes "spent"))
is_kept _ = true

abbrev pub pruned : Tree → Option Items → Tree
pruned tree none = tree
pruned tree (some items) =
    let records = filter is_kept items in
    if length records == length items then tree else put records_key (arr records) tree

unfoldable pub prune_spent_private_records : Tree → Tree
prune_spent_private_records tree = pruned tree (as_array (get records_key tree))

-- The fields that belong to an owner.
unfoldable pub owner_fields : Text → Tree → Tree
owner_fields owner end = end
owner_fields owner (field k v t) =
    if text_eq k owner || starts_with k (owner ++ b':' ∷ [])
    then field k v (owner_fields owner t)
    else owner_fields owner t

unfoldable pub filter_map_by_owner : Json → Text → Tree
filter_map_by_owner (obj map) owner = owner_fields owner map
filter_map_by_owner _ owner = end

-- `isRecord(record) && record.owner === owner`
unfoldable pub is_owned : Text → Json → Bool
is_owned owner (obj t) = is_text (get (codes "owner") t) owner
is_owned owner _ = false

abbrev pub items_or_nil : Option Items → Items
items_or_nil none = nil
items_or_nil (some r) = r

abbrev pub put_filtered : Text → Text → Tree → Tree
put_filtered owner k t = put k (obj (filter_map_by_owner (get k t) owner)) t

unfoldable pub partition_wallet : Tree → Text → Tree
partition_wallet wallet owner = put_filtered owner (codes "defaultPrivateAddressNonce") (
    put_filtered owner (codes "privateAddressRecords")
      (put_filtered owner (codes "privateAddressScalars") wallet))

unfoldable pub partition_registry : Tree → Text → Tree
partition_registry registry owner =
    put_filtered owner (codes "registeredAddresses") (
      put_filtered owner (codes "privateAddresses") (put_filtered owner (codes "lookups") registry))

unfoldable pub partition_sdk_state_tree : Tree → Text → Tree
partition_sdk_state_tree tree owner =
    let records = filter (is_owned owner) (items_or_nil (as_array (get records_key tree))) in
    let wallet = record_or (as_record (get (codes "wallet") tree)) end in
    let registry = record_or (as_record (get (codes "registry") tree)) end in
    put (codes "registry") (obj (partition_registry registry owner)) (
      put (codes "wallet") (obj (partition_wallet wallet owner))
        (put records_key (arr records) tree))
