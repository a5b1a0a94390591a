-- ===== src/State/Adapter/Shared.antt =====
-- privacy/state/postgres-state-adapter.ts: the commitments of the shared pool snapshot.
use pl_backend_sdk_demo.Prelude.{
  ℕ, max, ◌≤◌, ◌≡◌, refl, ap, ◌∙◌, inl, inr, Bool, true, false, Option, none, some, [], ◌∷◌, Text,
  text_eq, ltb, if◌then◌else◌, Dict, lookup, lookup-insert, lookup-insert_self, Among, first, later,
  Result, ok, thrown, continue, for_each, for_each-keeps, pure, modify, Bool-cases, arith,
}
use pl_backend_sdk_demo.Json.{Tree}
use pl_backend_sdk_demo.State.Snapshot.{
  or_else, pool_branch_from_tree, pool_commitment_count, pool_snapshot_id, richer_pool_branch,
}
use pl_backend_sdk_demo.State.Snapshot.Branch.{pool_branch_idem, count-richer}
use pl_backend_sdk_demo.State.Adapter.{
  best_pool, clean_row, save, promote_pool, promote_shared_pool_snapshot, tree_or_empty, same_text,
}

-- How many commitments the shared snapshot holds, and how many the pools branch of a row does.
abbrev pub shared_count : Dict Tree → ℕ
shared_count rows = pool_commitment_count (lookup pool_snapshot_id rows)

abbrev pub branch_count : Option Tree → ℕ
branch_count t = pool_commitment_count (pool_branch_from_tree t)

count_none : pool_commitment_count none ≡ 0
unfolding pool_commitment_count
count_none = refl

branch-choice :
    (b : Bool) (left right : Option Tree)
    → pool_branch_from_tree left ≡ left
    → pool_branch_from_tree right ≡ right
    → pool_branch_from_tree (if b then right else or_else left right)
      ≡ (if b then right else or_else left right)
branch-choice true left right h k = k
branch-choice false (some t) right h k = h
branch-choice false none right h k = k

branch-richer :
    (left right : Option Tree)
    → pool_branch_from_tree (richer_pool_branch left right) ≡ richer_pool_branch left right
unfolding richer_pool_branch
branch-richer left right =
    branch-choice _ (pool_branch_from_tree left) (pool_branch_from_tree right)
      (pool_branch_idem left) (pool_branch_idem right)

count-branch-richer :
    (left right : Option Tree)
    → branch_count (richer_pool_branch left right) ≡ max (branch_count left) (branch_count right)
count-branch-richer left right =
    ap pool_commitment_count (branch-richer left right) ∙ count-richer left right

best_pool_ge :
    (best : Option Tree) (rows : Dict Tree) → branch_count best ≤ branch_count (best_pool best rows)
unfolding best_pool
best_pool_ge best [] = omega arith
best_pool_ge best ((id, tree) ∷ rows) = omega (
  arith,
  best_pool_ge (richer_pool_branch best (some tree)) rows,
  count-branch-richer best (some tree),
)

best_pool_ge_row :
    (best : Option Tree) (rows : Dict Tree) (id : Text) (tree : Tree)
    → Among (id, tree) rows
    → branch_count (some tree) ≤ branch_count (best_pool best rows)
unfolding best_pool
best_pool_ge_row best [] id tree m = elim m [ ]
best_pool_ge_row best ((_, _) ∷ rows) id tree first = omega (
  arith,
  best_pool_ge (richer_pool_branch best (some tree)) rows,
  count-branch-richer best (some tree),
)
best_pool_ge_row best ((_, other) ∷ rows) id tree (later m) =
    best_pool_ge_row (richer_pool_branch best (some other)) rows id tree m

count-tree_or_empty :
    (t : Option Tree) (n : ℕ)
    → ltb n (pool_commitment_count t) ≡ true
    → pool_commitment_count (some (tree_or_empty t)) ≡ pool_commitment_count t
count-tree_or_empty none n h = absurd (ground (arith, count_none, h))
count-tree_or_empty (some t) n h = refl

pub shared_count-save :
    (tree : Tree) (rows : Dict Tree)
    → shared_count (save pool_snapshot_id tree rows) ≡ pool_commitment_count (some tree)
unfolding save
shared_count-save tree rows =
    ap pool_commitment_count (lookup-insert_self pool_snapshot_id tree rows)

pub shared_count-promote_pool :
    (rows : Dict Tree)
    → shared_count (promote_pool rows)
      ≡ max (shared_count rows) (
          pool_commitment_count
            (richer_pool_branch (lookup pool_snapshot_id rows) (best_pool none rows)))
unfolding promote_pool
shared_count-promote_pool rows =
    let shared = lookup pool_snapshot_id rows in
    let promoted = richer_pool_branch shared (best_pool none rows) in
    elim (Bool-cases (ltb (pool_commitment_count shared) (pool_commitment_count promoted))) [
      | inl more ↦ rw more (
          shared_count-save (tree_or_empty promoted) rows
          ∙ count-tree_or_empty promoted (pool_commitment_count shared) more
          ∙ ground arith)
      | inr fewer ↦ rw fewer (ground arith)
    ]

-- A save under another key.
pub shared-save :
    (id : Text) (tree : Tree) (rows : Dict Tree)
    → text_eq id pool_snapshot_id ≡ false
    → lookup pool_snapshot_id (save id tree rows) ≡ lookup pool_snapshot_id rows
unfolding save
shared-save id tree rows h = lookup-insert id pool_snapshot_id tree rows ∙ rw h refl

shared-rewritten :
    (r : Result Bool) (id : Text) (next : Tree) (rows : Dict Tree)
    → text_eq id pool_snapshot_id ≡ false
    → lookup pool_snapshot_id
        (continue {S = Dict Tree}
          (λ same. if same then pure tt else modify (save id next))
          (r, rows)).1
      ≡ lookup pool_snapshot_id rows
shared-rewritten (thrown e) id next rows h = refl
shared-rewritten (ok true) id next rows h = refl
shared-rewritten (ok false) id next rows h = shared-save id next rows h

shared-clean_row :
    (row : Text × Tree) (rows : Dict Tree)
    → lookup pool_snapshot_id (clean_row row rows).1 ≡ lookup pool_snapshot_id rows
unfolding clean_row
shared-clean_row (id, tree) rows = elim (Bool-cases (text_eq id pool_snapshot_id)) [
  | inl shared ↦ rw shared refl
  | inr other ↦ rw other (shared-rewritten (same_text _ _) id _ rows other)
]

shared-clean_rows :
    (found rows : Dict Tree)
    → lookup pool_snapshot_id (for_each clean_row found rows).1 ≡ lookup pool_snapshot_id rows
shared-clean_rows found rows =
    for_each-keeps (λ s. lookup pool_snapshot_id s ≡ lookup pool_snapshot_id rows) clean_row
      (λ row s h. shared-clean_row row s ∙ h) found rows refl

pub shared-promote :
    (rows : Dict Tree)
    → shared_count (promote_shared_pool_snapshot rows).1 ≡ shared_count (promote_pool rows)
unfolding promote_shared_pool_snapshot
shared-promote rows = ap pool_commitment_count (shared-clean_rows rows (promote_pool rows))

-- After a promotion, whether or not it throws on the way, the shared snapshot holds at least as many
-- commitments as the pools branch of every row that the table held.
pub promote_richest :
    (rows : Dict Tree) (id : Text) (tree : Tree)
    → Among (id, tree) rows
    → branch_count (some tree) ≤ shared_count (promote_shared_pool_snapshot rows).1
promote_richest rows id tree m = omega (
  arith,
  shared-promote rows,
  shared_count-promote_pool rows,
  count-richer (lookup pool_snapshot_id rows) (best_pool none rows),
  best_pool_ge_row none rows id tree m,
)
