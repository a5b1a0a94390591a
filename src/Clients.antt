-- ===== src/Clients.antt =====
-- privacy/clients/: the registry of privacy-account-clients.ts, privacy-client.service.ts and
-- wrap-transact-engine.ts. The SDK that makes a client is a parameter, and so is the state adapter in
-- memory (State/Adapter), with what `resetState` makes of a tree.
pub mod Refreshed
use pl_backend_sdk_demo.Prelude.{
  ℕ, Bool, true, false, ◌&&◌, ◌||◌, not, Option, none, some, List, [], ◌∷◌, ◌++◌, ℤ, Text, codes,
  text_eq, find, Dict, lookup, insert, ◌==◌, to_decimal, if◌then◌else◌, Thrown, plain_error, Result,
  ok, thrown, Exec, pure, raise, lift, gets, modify, continue, ◌>>=◌, ◌>>◌, for_each,
}
use pl_backend_sdk_demo.Json.{Json, Tree, end, field, get, put}
use pl_backend_sdk_demo.Notes.Spendable.{
  SpendableNote, TransactionNoteLayout, spendable_transfer_stroops,
}
use pl_backend_sdk_demo.Notes.Delivery.{truthy}
use pl_backend_sdk_demo.Operations.Finalize.{WalletScalar}
use pl_backend_sdk_demo.State.Snapshot.{richer_pool_branch}
use pl_backend_sdk_demo.State.Balance.{BalanceRecord, private_balance_stroops_from_records}
use pl_backend_sdk_demo.State.Adapter.{
  Memory, load_account_state_tree, load_hydrated_state_tree, promote_shared_pool_snapshot,
}

-- `sessions`, by what the memory of each holds, and the rows of the table.
pub record Sessions (M : Memory) : Type 0 where
  pub memories : Dict M.State
  pub rows : Dict Tree

-- `{ ...tree, ...more }`
unfoldable pub spread : Tree → Tree → Tree
spread tree end = tree
spread tree (field k v more) = spread (put k v tree) more

abbrev pub with_branch : Tree → Option Tree → Tree
with_branch loaded none = loaded
with_branch loaded (some pool) = spread loaded pool

module _ (M : Memory) (reset : Tree → M.State) where
  -- The tree that a session is reset to.
  unfoldable pub refreshed : Tree → Dict Tree → Text → Tree
  refreshed memory rows key =
      let loaded = load_hydrated_state_tree rows key in
      with_branch loaded (richer_pool_branch (some memory) (some loaded))

  abbrev pub refresh_session : Text → Option M.State → Sessions M → Sessions M
  refresh_session key none s = s
  refresh_session key (some memory) s = record s {
    memories = insert key (reset (refreshed (M.get_state memory) s.rows key)) s.memories;
  }

  unfoldable pub refresh : List Text → Sessions M → Sessions M
  refresh [] s = s
  refresh (key ∷ keys) s = refresh keys (refresh_session key (lookup key s.memories) s)

module _ (M : Memory) where
  abbrev pub session_or_throw : Text → Option M.State → Result M.State
  session_or_throw key none = thrown (plain_error (codes "No privacy client for " ++ key))
  session_or_throw key (some memory) = ok memory

  unfoldable pub get_client : Text → Sessions M → Result M.State
  get_client key s = session_or_throw key (lookup key s.memories)

-- `ensureSenderPrivKeyScalarHex` of a session, over the table of scalars, and `resolveTokenContractId`,
-- whose two branches return the same.
abbrev pub scalar_or_throw : Text → Option WalletScalar → Result Text
scalar_or_throw address none = thrown (plain_error (codes "Missing spend scalar for " ++ address))
scalar_or_throw address (some row) = ok row.scalar_hex

unfoldable pub ensure_sender_scalar_hex : List WalletScalar → Text → Result Text
ensure_sender_scalar_hex scalars address =
    scalar_or_throw address (find (λ r. text_eq r.private_address address) scalars)

unfoldable pub resolve_token_contract_id : Text → Text → Text → Text
resolve_token_contract_id asset token_contract id =
    if text_eq id asset || text_eq id token_contract then token_contract else token_contract

-- The layout that `resolveTransactionLayout` returns, and its warning, for the nonce's text.
abbrev pub shown_layout : TransactionNoteLayout → Text
shown_layout l = to_decimal l.n_ins ++ b'x' ∷ to_decimal l.n_outs

unfoldable pub resolve_transaction_layout :
    Text → TransactionNoteLayout → TransactionNoteLayout → TransactionNoteLayout × Option Text
resolve_transaction_layout nonce from_nonce live =
    if not (from_nonce.n_ins == live.n_ins) || not (from_nonce.n_outs == live.n_outs)
    then (
      live,
      some (
          codes "Nonce "
          ++ nonce
          ++ codes " table is "
          ++ shown_layout from_nonce
          ++ codes ", initialized SDK is "
          ++ shown_layout live),
    )
    else (live, none)

-- `PrivacyClientService`: the layout, whether it is ready, and the rows of the table.
pub record PrivacyClient : Type 0 where
  pub layout : Option TransactionNoteLayout
  pub ready : Bool
  pub rows : Dict Tree

-- What the SDK reads of a record, for the balance and for what can be spent.
pub record PrivateRecord : Type 0 where
  pub balance : BalanceRecord
  pub note : SpendableNote

abbrev pub balances : List PrivateRecord → List BalanceRecord
balances [] = []
balances (r ∷ records) = r.balance ∷ balances records

abbrev pub notes : List PrivateRecord → List SpendableNote
notes [] = []
notes (r ∷ records) = r.note ∷ notes records

abbrev pub layout_or_throw : Option TransactionNoteLayout → Result TransactionNoteLayout
layout_or_throw none = thrown (plain_error (codes "Transaction layout is not ready."))
layout_or_throw (some l) = ok l

unfoldable pub get_transaction_layout : PrivacyClient → Result TransactionNoteLayout
get_transaction_layout s = layout_or_throw s.layout

-- `read` is `readPrivateRecordsFromStateSnapshot`.
module _ (read : Tree → Result (List PrivateRecord)) where
  unfoldable pub read_private_records : Text → Exec PrivacyClient (List PrivateRecord)
  read_private_records owner =
      gets (λ s. load_account_state_tree s.rows owner) >>= λ tree. lift (read tree)

  unfoldable pub private_balance_stroops : Text → Exec PrivacyClient ℤ
  private_balance_stroops owner = read_private_records owner >>= λ records.
      lift (private_balance_stroops_from_records (balances records) owner)

  unfoldable pub spendable_private_stroops : Text → Text → Exec PrivacyClient ℤ
  spendable_private_stroops owner address = do
    records ← read_private_records owner
    layout ← gets get_transaction_layout
    known ← lift layout
    lift (spendable_transfer_stroops (notes records) address known.n_ins)

abbrev pub on_rows : {A : Type 0} → Exec (Dict Tree) A → Exec PrivacyClient A
on_rows m s = let (r, rows) = m s.rows in (r, record s { rows = rows })

-- `onModuleInit`, after the test of the KYT address, for the layout of the nonce; `log` is its last
-- line.
unfoldable pub on_module_init :
    Result (Unit {0}) → Result TransactionNoteLayout → Exec PrivacyClient (Unit {0})
on_module_init kyt_looks_like_json layout_for_nonce = do
  lift kyt_looks_like_json
  layout ← lift layout_for_nonce
  modify (λ s. record s { layout = some layout })
  on_rows promote_shared_pool_snapshot
  modify (λ s. record s { ready = true })

-- The engine that proves when it prepares: `proof_hex` is that of the artifacts.
unfoldable pub prepare :
    {W P : Type 0} → (P → Option Text) → (P → Exec W P) → (P → Exec W P) → P → Exec W P
prepare proof_hex engine_prepare finalize prepared = engine_prepare prepared >>= λ after_prepare.
    if truthy (proof_hex after_prepare) then pure after_prepare else finalize after_prepare
