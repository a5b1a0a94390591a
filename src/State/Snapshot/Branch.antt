-- ===== src/State/Snapshot/Branch.antt =====
-- privacy/state/sdk-state-snapshot.ts: the pools branch.
use pl_backend_sdk_demo.Prelude.{
  max, ◌≡◌, refl, ◌∙◌, inl, inr, false, Option, none, some, Text, text_eq, text_eq_iff,
  text_eq_refl, ltb, if◌then◌else◌, Bool-cases, arith,
}
use pl_backend_sdk_demo.Json.{Json, undef, Tree, end, field, get, has_own, get-put}
use pl_backend_sdk_demo.State.Snapshot.{
  pools_key, without, without_pool_branch, as_record, branch, or_else, with_pools, pools_of,
  pool_branch_from_tree, merge_pool_branch, pool_commitment_count, richer_pool_branch,
}

get-without :
    (k j : Text) (t : Tree) → get j (without k t) ≡ (if text_eq k j then undef else get j t)
unfolding get without
get-without k j end = ground arith
get-without k j (field i v t) =
    ground (arith, get-without k j t, text_eq_iff i k, text_eq_iff i j, text_eq_iff k j)

get_of_absent : (k : Text) (t : Tree) → has_own k t ≡ false → get k t ≡ undef
unfolding get has_own
get_of_absent k end h = refl
get_of_absent k (field j v t) h = ground (arith, get_of_absent k t)

has_own-without : (k : Text) (t : Tree) → has_own k (without k t) ≡ false
unfolding has_own without
has_own-without k end = refl
has_own-without k (field j v t) = ground (arith, has_own-without k t)

pub has_own-without_pool_branch : (t : Tree) → has_own pools_key (without_pool_branch t) ≡ false
unfolding without_pool_branch
has_own-without_pool_branch t = elim (Bool-cases (has_own pools_key t)) [
  | inl there ↦ rw there (has_own-without pools_key t)
  | inr absent ↦ rw absent absent
]

-- Every other field stays.
pub get-without_pool_branch :
    (k : Text) (t : Tree)
    → get k (without_pool_branch t) ≡ (if text_eq pools_key k then undef else get k t)
unfolding without_pool_branch
get-without_pool_branch k t = elim (Bool-cases (has_own pools_key t)) [
  | inl there ↦ rw there (get-without pools_key k t)
  | inr absent ↦
      rw absent (ground (arith, get_of_absent pools_key t absent, text_eq_iff pools_key k))
]

branch-again : (o : Option Tree) → pool_branch_from_tree (branch o) ≡ branch o
unfolding pool_branch_from_tree get text_eq
branch-again none = refl
branch-again (some pools) = refl

-- The branch of a branch is the branch.
pub pool_branch_idem :
    (t : Option Tree) → pool_branch_from_tree (pool_branch_from_tree t) ≡ pool_branch_from_tree t
unfolding pool_branch_from_tree
pool_branch_idem none = refl
pool_branch_idem (some t) = branch-again (as_record (get pools_key t))

count-none : pool_commitment_count none ≡ 0
unfolding pool_commitment_count
count-none = refl

count-choice :
    (left right : Option Tree)
    → pool_commitment_count (
        if ltb (pool_commitment_count left) (pool_commitment_count right)
        then right
        else or_else left right)
      ≡ max (pool_commitment_count left) (pool_commitment_count right)
count-choice none right = ground (arith, count-none)
count-choice (some left) right = ground arith

-- The richer of two trees' pools branches has as many commitments as the branch that has more.
pub count-richer :
    (left right : Option Tree)
    → pool_commitment_count (richer_pool_branch left right)
      ≡ max
          (pool_commitment_count (pool_branch_from_tree left))
          (pool_commitment_count (pool_branch_from_tree right))
unfolding richer_pool_branch
count-richer left right = count-choice (pool_branch_from_tree left) (pool_branch_from_tree right)

get-with_pools :
    (k : Text) (account : Tree) (pools : Json)
    → get pools_key account ≡ undef
    → get k (with_pools account pools) ≡ (if text_eq pools_key k then pools else get k account)
get-with_pools k account undef h = ground (arith, text_eq_iff pools_key k)
get-with_pools k account _ h = get-put pools_key k _ account

-- A merged tree has the pool's branch, or else the account's, and the account's other fields.
pub get-merge_pool_branch :
    (k : Text) (account : Tree) (pool : Option Tree)
    → get k (merge_pool_branch account pool) ≡ (
        if text_eq pools_key k
        then pools_of (pool_branch_from_tree pool) (pool_branch_from_tree (some account))
        else get k account)
unfolding merge_pool_branch
get-merge_pool_branch k account pool =
    get-with_pools k (without_pool_branch account)
      (pools_of (pool_branch_from_tree pool) (pool_branch_from_tree (some account)))
      (get-without_pool_branch pools_key account ∙ rw (text_eq_refl pools_key) refl)
    ∙ ground (arith, get-without_pool_branch k account)
