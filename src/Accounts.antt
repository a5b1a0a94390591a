-- ===== src/Accounts.antt =====
-- accounts/friendbot.ts and accounts.service.ts. The key pairs of the mnemonic are a parameter, and so
-- are `fetch` and `registerAccount` of the privacy operations. The table is the list of its rows.
pub mod Friendbot
pub mod Setup
use pl_backend_sdk_demo.Prelude.{
  ℕ, zero, suc, ◌+◌, Bool, true, false, Option, none, some, List, [], ◌∷◌, ◌++◌, Text, codes, leb,
  ltb, ◌==◌, to_decimal, if◌then◌else◌, Thrown, plain_error, http_error, Result, ok, thrown, Exec,
  pure, raise, lift, gets, modify, ◌>>=◌, ◌>>◌, when,
}
use pl_backend_sdk_demo.Persistence.{HdAccount}
use pl_backend_sdk_demo.Accounts.Friendbot.{Fetch, fund_native_via_friendbot}

-- The table and the world behind the other services.
pub record Accounts (W : Type 0) : Type 0 where
  pub table : List HdAccount
  pub world : W

-- `findOneBy({ hdIndex })`
unfoldable pub find_by_index : ℕ → List HdAccount → Option HdAccount
find_by_index i [] = none
find_by_index i (a ∷ table) = if a.hd_index == i then some a else find_by_index i table

-- `save(row)`
unfoldable pub save_row : HdAccount → List HdAccount → List HdAccount
save_row row [] = row ∷ []
save_row row (a ∷ table) =
    if a.hd_index == row.hd_index then row ∷ table else a ∷ save_row row table

-- `order: { hdIndex: "ASC" }`
unfoldable pub insert_row : HdAccount → List HdAccount → List HdAccount
insert_row row [] = row ∷ []
insert_row row (a ∷ rows) =
    if leb row.hd_index a.hd_index then row ∷ a ∷ rows else a ∷ insert_row row rows

unfoldable pub sort_rows : List HdAccount → List HdAccount
sort_rows [] = []
sort_rows (a ∷ rows) = insert_row a (sort_rows rows)

abbrev pub new_row : ℕ → Text → HdAccount
new_row i key = record {
  hd_index = i;
  public_key = key;
  private_address = none;
  funded = false;
  registered = false;
  sent_count = codes "0";
  sent_volume_stroops = codes "0";
}

abbrev pub row_or_new : Option HdAccount → HdAccount → HdAccount
row_or_new none row = row
row_or_new (some a) row = a

module _ {W : Type 0} (fetch : Fetch W) (friendbot_url : Text)
    (register_account : HdAccount → Exec (Accounts W) (Unit {0})) where
  abbrev pub on_world : {A : Type 0} → Exec W A → Exec (Accounts W) A
  on_world m s = let (r, w) = m s.world in (r, record s { world = w })

  abbrev pub found_or_fail : Option HdAccount → Exec (Accounts W) HdAccount
  found_or_fail none =
      raise (plain_error (codes "Could not find any entity of type \"HdAccountEntity\""))
  found_or_fail (some a) = pure a

  -- `if (!row.funded) { … }`, with the row afterwards.
  abbrev pub fund : Text → HdAccount → Exec (Accounts W) HdAccount
  fund key row =
      if row.funded
      then pure row
      else (on_world (fund_native_via_friendbot fetch key friendbot_url) >>= λ _.
          pure (record row { funded = true }))

  abbrev pub register_if_new : HdAccount → Exec (Accounts W) (Unit {0})
  register_if_new row = if row.registered then pure tt else register_account row

  -- One turn of the loop of `setup`.
  unfoldable pub setup_one : ℕ → Text → Exec (Accounts W) HdAccount
  setup_one i key = do
    found ← gets (λ s. find_by_index i s.table)
    row ← fund key (row_or_new found (new_row i key))
    modify (λ s. record s { table = save_row row s.table })
    register_if_new row
    saved ← gets (λ s. find_by_index i s.table)
    found_or_fail saved

  unfoldable pub setup_from : ℕ → List Text → Exec (Accounts W) (List HdAccount)
  setup_from i [] = pure []
  setup_from i (key ∷ keys) =
      setup_one i key >>= λ row. setup_from (suc i) keys >>= λ rows. pure (row ∷ rows)

  -- `setup`, for the public keys of the derived key pairs.
  unfoldable pub setup : List Text → Exec (Accounts W) (List HdAccount)
  setup keys = setup_from 0 keys

  unfoldable pub list : Exec (Accounts W) (List HdAccount)
  list = gets (λ s. sort_rows s.table)

  abbrev pub found_or_404 : ℕ → Option HdAccount → Exec (Accounts W) HdAccount
  found_or_404 i none = raise (
      http_error 404
        (codes "Account " ++ to_decimal i ++ codes " does not exist. Run setup first."))
  found_or_404 i (some a) = pure a

  unfoldable pub get_by_index : ℕ → Exec (Accounts W) HdAccount
  get_by_index i = gets (λ s. find_by_index i s.table) >>= found_or_404 i
