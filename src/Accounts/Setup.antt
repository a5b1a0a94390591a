-- ===== src/Accounts/Setup.antt =====
-- accounts/accounts.service.ts: the rows that `setup` returns.
use pl_backend_sdk_demo.Prelude.{
  ℕ, suc, ◌≡◌, refl, ap, ◌∙◌, inl, inr, Option, none, some, List, [], ◌∷◌, map, Text, ◌==◌, ==_iff,
  Bool-cases, Result, ok, Exec, Post, Anyway, Post-pure, Post-raise, Post-bind, arith,
}
use pl_backend_sdk_demo.Persistence.{HdAccount}
use pl_backend_sdk_demo.Accounts.Friendbot.{Fetch}
use pl_backend_sdk_demo.Accounts.{
  Accounts, find_by_index, found_or_fail, fund, register_if_new, row_or_new, new_row, save_row,
  setup_one, setup_from, setup,
}

found-index :
    (i : ℕ) (table : List HdAccount) (a : HdAccount)
    → find_by_index i table ≡ some a
    → a.hd_index ≡ i
unfolding find_by_index
found-index i [] a e = cc
found-index i (b ∷ table) a e = elim (Bool-cases (b.hd_index == i)) [
  | inl hit ↦ let same : b ≡ a = ground arith in rw (← same) ((==_iff b.hd_index i).0 hit)
  | inr miss ↦ found-index i table a (ground arith)
]

-- The numbers from `i`, one for each key.
abbrev pub indices : ℕ → List Text → List ℕ
indices i [] = []
indices i (key ∷ keys) = i ∷ indices (suc i) keys

module _ {W : Type 0} (fetch : Fetch W) (friendbot_url : Text)
    (register_account : HdAccount → Exec (Accounts W) (Unit {0})) where
  abbrev HasIndex : ℕ → HdAccount → Accounts W → Type 0
  HasIndex i a s = (a.hd_index ≡ i) × (find_by_index i s.table ≡ some a)

  found_or_fail-Post :
      (i : ℕ) (o : Option HdAccount) (s : Accounts W)
      → find_by_index i s.table ≡ o
      → Post (HasIndex i) Anyway (found_or_fail fetch friendbot_url register_account o s)
  found_or_fail-Post i none s e = Post-raise _ s tt
  found_or_fail-Post i (some a) s e = Post-pure a s (found-index i s.table a e, e)

  trivially : {A : Type 0} (r : Result A × Accounts W) → Post (λ _ _. Unit {0}) Anyway r
  trivially r = record { returns = λ a s e. tt; throws = λ x s e. tt }

  setup_one-Post :
      (i : ℕ) (key : Text) (s : Accounts W)
      → Post (HasIndex i) Anyway (setup_one fetch friendbot_url register_account i key s)
  unfolding setup_one
  setup_one-Post i key s =
      Post-bind
        (fund fetch friendbot_url register_account key
          (row_or_new (find_by_index i s.table) (new_row i key)) s)
        _ (trivially _)
        λ row t _.
          let saved = record t { table = save_row row t.table } in
          Post-bind (register_if_new fetch friendbot_url register_account row saved) _ (trivially _)
            λ _ u _. found_or_fail-Post i (find_by_index i u.table) u refl

  setup_from-Post :
      (i : ℕ) (keys : List Text) (s : Accounts W)
      → Post
          (λ rows _. map (λ a. a.hd_index) rows ≡ indices i keys)
          Anyway
          (setup_from fetch friendbot_url register_account i keys s)
  unfolding setup_from
  setup_from-Post i [] s = Post-pure [] s refl
  setup_from-Post i (key ∷ keys) s =
      Post-bind (setup_one fetch friendbot_url register_account i key s) _ (setup_one-Post i key s)
        λ row t h.
          Post-bind (setup_from fetch friendbot_url register_account (suc i) keys t) _
            (setup_from-Post (suc i) keys t)
            λ rows u k.
              Post-pure (row ∷ rows) u
                (ap (λ n. n ∷ map (λ a. a.hd_index) rows) h.0 ∙ ap (λ l. i ∷ l) k)

  -- A setup that returns gives one row for each key, with the keys' numbers in order, whatever
  -- registering does to the table.
  pub setup-indices :
      (keys : List Text) (s t : Accounts W) (rows : List HdAccount)
      → setup fetch friendbot_url register_account keys s ≡ (ok rows, t)
      → map (λ a. a.hd_index) rows ≡ indices 0 keys
  unfolding setup
  setup-indices keys s t rows e = (setup_from-Post 0 keys s).returns rows t e
