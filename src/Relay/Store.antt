-- ===== src/Relay/Store.antt =====
-- relay/pending-operation.store.ts. The table is the list of its rows; the payload `P` of a row is the
-- operation, of which the store reads the id and the wallet.
pub mod Map
use pl_backend_sdk_demo.Prelude.{
  Bool, true, false, ◌&&◌, Option, none, some, List, [], ◌∷◌, map, Text, text_eq, filter, find,
  if◌then◌else◌,
}

pub record PendingRow (P : Type 0) : Type 0 where
  pub id : Text
  pub wallet_public_key : Text
  pub payload : P

pub record PendingOperation (P : Type 0) : Type 0 where
  pub id : Text
  pub wallet_public_key : Text
  pub details : P

abbrev pub PendingTable : Type 0 → Type 0
PendingTable P = List (PendingRow (PendingOperation P))

module _ {P : Type 0} where
  abbrev pub row_of : PendingOperation P → PendingRow (PendingOperation P)
  row_of o = record { id = o.id; wallet_public_key = o.wallet_public_key; payload = o }

  -- `repo.save`, whose key is the id.
  unfoldable pub save_pending : PendingRow (PendingOperation P) → PendingTable P → PendingTable P
  save_pending row [] = row ∷ []
  save_pending row (r ∷ table) =
      if text_eq r.id row.id then row ∷ table else r ∷ save_pending row table

  unfoldable pub save : PendingOperation P → PendingTable P → PendingTable P
  save operation table = save_pending (row_of operation) table

  unfoldable pub list : Text → PendingTable P → List (PendingOperation P)
  list wallet_public_key table =
      map (λ r. r.payload) (filter (λ r. text_eq r.wallet_public_key wallet_public_key) table)

  abbrev pub payload_of : Option (PendingRow (PendingOperation P)) → Option (PendingOperation P)
  payload_of none = none
  payload_of (some r) = some r.payload

  unfoldable pub read : Text → Text → PendingTable P → Option (PendingOperation P)
  read wallet_public_key operation_id table =
      payload_of (
        find (λ r. text_eq r.id operation_id && text_eq r.wallet_public_key wallet_public_key)
          table)
