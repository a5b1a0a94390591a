-- ===== src/Async/ResourcePool.antt =====
-- lib/async/resource-pool.ts. A job is a call of `run`, by its number; it holds a resource from the
-- moment its promise of one is resolved until its `finally`.
pub mod Conserves
pub mod Fair
use pl_backend_sdk_demo.Prelude.{
  ℕ, suc, Bool, true, false, not, Option, none, some, List, [], ◌∷◌, ◌++◌, length, filter, ◌==◌,
  Among, if◌then◌else◌, All, ◌≡◌,
}

-- `idle` with its last element first, `waiters` with the longest wait first.
pub record ResourcePool (R : Type 0) : Type 0 where
  pub idle : List R
  pub waiters : List ℕ
  pub size : ℕ

-- The pool and the jobs that hold a resource.
pub record Use (R : Type 0) : Type 0 where
  pub pool : ResourcePool R
  pub held : List (ℕ × R)

module _ {R : Type 0} where
  -- `[...resources]`, of which the last is popped first.
  abbrev pub reverse_onto : List R → List R → List R
  reverse_onto acc [] = acc
  reverse_onto acc (r ∷ rs) = reverse_onto (r ∷ acc) rs

  unfoldable pub new_pool : List R → ResourcePool R
  new_pool resources = record {
    idle = reverse_onto [] resources;
    waiters = [];
    size = length resources;
  }

  unfoldable pub idle_count : ResourcePool R → ℕ
  idle_count p = length p.idle

  abbrev pub wait : ℕ → Use R → Use R
  wait job u = record u { pool = record u.pool { waiters = u.pool.waiters ++ job ∷ [] } }

  abbrev pub hold : ℕ → R → Use R → Use R
  hold job r u = record u { held = (job, r) ∷ u.held }

  abbrev pub with_idle : List R → Use R → Use R
  with_idle idle u = record u { pool = record u.pool { idle = idle } }

  -- `truthy r` is `Boolean(r)`, which the test on the popped resource reads.
  abbrev pub acquire_from : (R → Bool) → ℕ → List R → Use R → Use R
  acquire_from truthy job [] u = wait job u
  acquire_from truthy job (r ∷ idle) u =
      if truthy r then hold job r (with_idle idle u) else wait job (with_idle idle u)

  unfoldable pub acquire : (R → Bool) → ℕ → Use R → Use R
  acquire truthy job u = acquire_from truthy job u.pool.idle u

  abbrev pub release_to : R → List ℕ → Use R → Use R
  release_to r [] u = with_idle (r ∷ u.pool.idle) u
  release_to r (job ∷ waiters) u =
      hold job r (record u { pool = record u.pool { waiters = waiters } })

  -- A job that holds `r` ends: `finally { this.release(resource) }`.
  abbrev pub drop_job : ℕ → List (ℕ × R) → List (ℕ × R)
  drop_job job [] = []
  drop_job job ((j, r) ∷ held) = if j == job then held else (j, r) ∷ drop_job job held

  unfoldable pub release : ℕ → R → Use R → Use R
  release job r u = release_to r u.pool.waiters (record u { held = drop_job job u.held })
