-- ===== src/State/Adapter/Grows.antt =====
-- privacy/state/postgres-state-adapter.ts: the shared pool snapshot over a run of operations.
use pl_backend_sdk_demo.Prelude.{
  ◌≤◌, ◌≡◌, refl, ap, inl, inr, Bool, true, false, Option, none, some, Text, text_eq, ltb, Dict,
  Result, ok, thrown, continue, when, Bool-cases, arith,
}
use pl_backend_sdk_demo.Json.{Tree}
use pl_backend_sdk_demo.State.Snapshot.{
  account_snapshot_id, pool_commitment_count, pool_snapshot_id,
}
use pl_backend_sdk_demo.State.Adapter.{
  Memory, Store, BridgeCall, persist_account_snapshot, persist_pool_tree,
  persist_pool_snapshot_if_newer, persist_snapshot, pool_tree_from_memory, is_pool_persist_write,
  promote_shared_pool_snapshot, write, on_rows,
}
use pl_backend_sdk_demo.State.Adapter.Shared.{
  shared_count, shared-save, shared_count-save, shared_count-promote_pool, shared-promote,
}

-- One operation on the table, by an adapter of some account or at the start of the program.
pub data Step : Dict Tree → Dict Tree → Type 1 where
  written :
      (M : Memory) (public_key : Text) (call : BridgeCall) (s : Store M)
      → Step s.rows (write M (account_snapshot_id public_key) call s).1.rows
  persisted :
      (public_key : Text) (state : Tree) (rows : Dict Tree)
      → Step rows (persist_snapshot rows state (account_snapshot_id public_key))
  promoted : (rows : Dict Tree) → Step rows (promote_shared_pool_snapshot rows).1

pub data Steps : Dict Tree → Dict Tree → Type 1 where
  none_yet : {rows : Dict Tree} → Steps rows rows
  followed : {a b c : Dict Tree} → Steps a b → Step b c → Steps a c

account_is_not_shared :
    (public_key : Text) → text_eq (account_snapshot_id public_key) pool_snapshot_id ≡ false
unfolding account_snapshot_id text_eq
account_is_not_shared public_key = refl

persist_pool_tree_ge :
    (rows : Dict Tree) (incoming : Option Tree)
    → shared_count rows ≤ shared_count (persist_pool_tree rows incoming)
unfolding persist_pool_tree
persist_pool_tree_ge rows none = omega arith
persist_pool_tree_ge rows (some t) =
    elim (Bool-cases (ltb (pool_commitment_count (some t)) (shared_count rows))) [
      | inl fewer ↦ rw fewer (omega arith)
      | inr more ↦ rw more (ground (arith, shared_count-save t rows, more))
    ]

persist_account-shared :
    (public_key : Text) (state : Tree) (rows : Dict Tree)
    → shared_count (persist_account_snapshot rows state (account_snapshot_id public_key))
      ≡ shared_count rows
unfolding persist_account_snapshot
persist_account-shared public_key state rows =
    ap pool_commitment_count
      (shared-save (account_snapshot_id public_key) _ rows (account_is_not_shared public_key))

persist_newer_ge :
    (rows : Dict Tree) (state : Tree)
    → shared_count rows ≤ shared_count (persist_pool_snapshot_if_newer rows state)
unfolding persist_pool_snapshot_if_newer
persist_newer_ge rows state = persist_pool_tree_ge rows (pool_tree_from_memory state)

write-saved :
    (M : Memory) (public_key : Text) (pool : Bool) (r : Result (Unit {0})) (s : Store M)
    → shared_count s.rows
      ≤ shared_count
          (continue {S = Store M}
            (λ _. when pool (on_rows M persist_pool_snapshot_if_newer))
            (continue {S = Store M}
              (λ _. on_rows M (λ rows state.
                persist_account_snapshot rows state (account_snapshot_id public_key)))
              (r, s))).1.rows
write-saved M public_key pool (thrown e) s = omega arith
write-saved M public_key false (ok _) s =
    omega (arith, persist_account-shared public_key (M.get_state s.memory) s.rows)
write-saved M public_key true (ok _) s =
    let state = M.get_state s.memory in
    omega (
      arith,
      persist_account-shared public_key state s.rows,
      persist_newer_ge (persist_account_snapshot s.rows state (account_snapshot_id public_key))
          state,
    )

write_ge :
    (M : Memory) (public_key : Text) (call : BridgeCall) (s : Store M)
    → shared_count s.rows ≤ shared_count (write M (account_snapshot_id public_key) call s).1.rows
unfolding write
write_ge M public_key call s =
    let after = M.write call s.memory in
    write-saved M public_key (is_pool_persist_write call) after.0 (record s { memory = after.1 })

step_ge : {a b : Dict Tree} → Step a b → shared_count a ≤ shared_count b
unfolding persist_snapshot
step_ge (written M public_key call s) = write_ge M public_key call s
step_ge (persisted public_key state rows) = omega (
  arith,
  persist_account-shared public_key state rows,
  persist_newer_ge (persist_account_snapshot rows state (account_snapshot_id public_key)) state,
)
step_ge (promoted rows) = omega (arith, shared-promote rows, shared_count-promote_pool rows)

-- However many operations run one after the other, writes whose memory throws included, the shared
-- snapshot never holds fewer commitments than before.
pub shared_count_grows : {a b : Dict Tree} → Steps a b → shared_count a ≤ shared_count b
shared_count_grows none_yet = omega arith
shared_count_grows (followed before step) = omega (arith, shared_count_grows before, step_ge step)
