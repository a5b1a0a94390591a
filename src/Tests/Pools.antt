-- ===== src/Tests/Pools.antt =====
-- A pool of two resources, and one of a single resource that three jobs ask for.
use pl_backend_sdk_demo.Prelude.{
  ℕ, suc, zero, ◌+◌, ◌<◌, ◌≡◌, refl, ◌⊎◌, Bool, true, false, List, [], ◌∷◌,
}
use pl_backend_sdk_demo.Async.ResourcePool.{Use, new_pool, acquire, release}
use pl_backend_sdk_demo.Async.ResourcePool.Conserves
use pl_backend_sdk_demo.Async.ResourcePool.Conserves.{
  count, resources_of, pool_conserves, Reached, created, acquired, top,
}
use pl_backend_sdk_demo.Async.ResourcePool.Fair.{
  Run, unmoved, asks, ends, Waits, Given, served_in_turn,
}

abbrev nonzero : ℕ → Bool
nonzero zero = false
nonzero (suc n) = true

abbrev workers : List ℕ
workers = 3 ∷ 4 ∷ []

abbrev busy_pool : Use ℕ
busy_pool = acquire nonzero 0 (record { pool = new_pool workers; held = [] })

pool_conserves_example :
    ((p : ℕ → Bool)
      → count p busy_pool.pool.idle + count p (resources_of busy_pool.held) ≡ count p workers)
    × ((busy_pool.pool.waiters ≡ []) ⊎ (busy_pool.pool.idle ≡ []))
pool_conserves_example =
    pool_conserves nonzero workers (refl, (refl, tt)) (Conserves.acquired 0 Conserves.created)

abbrev one_worker : Use ℕ
one_worker = record { pool = new_pool (5 ∷ []); held = [] }

-- Job 0 holds the resource; jobs 1 and 2 wait.
abbrev two_wait : Use ℕ
two_wait = acquire nonzero 2 (acquire nonzero 1 (acquire nonzero 0 one_worker))

-- Job 0 ends, job 3 asks, and job 1 ends.
abbrev two_ended : Use ℕ
two_ended = release 1 5 (acquire nonzero 3 (release 0 5 two_wait))

two_ended-Run : Run nonzero two_wait 2 two_ended
unfolding acquire release new_pool
two_ended-Run = ends (asks (ends unmoved 0 5 top) 3) 1 5 top

two_wait-Reached : Reached nonzero (5 ∷ []) two_wait
two_wait-Reached = acquired 2 (acquired 1 (acquired 0 created))

served_in_turn_example :
    Waits nonzero 2 1 2 two_ended ⊎ ((1 < 2) × Given nonzero two_wait 2 1 two_ended)
unfolding acquire new_pool
served_in_turn_example =
    served_in_turn nonzero 5 [] (refl, tt) two_wait two_ended 2 2 (1 ∷ []) [] two_wait-Reached refl
      two_ended-Run
