-- ===== src/Clients/Refreshed.antt =====
-- privacy/clients/privacy-account-clients.ts: the memory of a session after `refresh`.
use pl_backend_sdk_demo.Prelude.{
  ℕ, ◌≤◌, max, Bool, true, false, ◌≡◌, refl, sym, ap, ◌∙◌, subst, inl, inr, ◌⊎◌, Option, none, some,
  List, [], ◌∷◌, Text, text_eq, text_eq_iff, text_eq_refl, Dict, lookup, insert, lookup-insert,
  lookup-insert_self, Bool-cases, ltb, if◌then◌else◌, Among, first, later, arith,
}
use pl_backend_sdk_demo.Json.{obj, Tree, end, field, get, put, get-put_self}
use pl_backend_sdk_demo.State.Snapshot.{
  pools_key, as_record, branch, or_else, pool_branch_from_tree, pool_commitment_count,
  richer_pool_branch,
}
use pl_backend_sdk_demo.State.Snapshot.Branch.{count-richer}
use pl_backend_sdk_demo.State.Adapter.{Memory, load_hydrated_state_tree}
use pl_backend_sdk_demo.Clients.{Sessions, spread, with_branch, refreshed, refresh_session, refresh}

abbrev pub pools_count : Tree → ℕ
pools_count t = pool_commitment_count (pool_branch_from_tree (some t))

-- A branch is none, or the field `pools` alone.
from_record :
    (o : Option Tree)
    → (branch o ≡ none) ⊎ ((p : Tree) × (branch o ≡ some (field pools_key (obj p) end)))
from_record none = inl refl
from_record (some p) = inr (p, refl)

from_tree :
    (t : Option Tree)
    → (pool_branch_from_tree t ≡ none)
      ⊎ ((p : Tree) × (pool_branch_from_tree t ≡ some (field pools_key (obj p) end)))
unfolding pool_branch_from_tree
from_tree none = inl refl
from_tree (some t) = from_record (as_record (get pools_key t))

choice_cases :
    (b : Bool) (l r : Option Tree)
    → ((l ≡ none) ⊎ ((p : Tree) × (l ≡ some (field pools_key (obj p) end))))
    → ((r ≡ none) ⊎ ((p : Tree) × (r ≡ some (field pools_key (obj p) end))))
    → (((if b then r else or_else l r) ≡ none) × (r ≡ none))
      ⊎ ((p : Tree) × ((if b then r else or_else l r) ≡ some (field pools_key (obj p) end)))
choice_cases true l r h (inl k) = inl (k, k)
choice_cases true l r h (inr k) = inr k
choice_cases false l r (inr (q, h)) k = inr (q, rw h refl)
choice_cases false l r (inl h) (inl k) = inl (rw h k, k)
choice_cases false l r (inl h) (inr (p, k)) = inr (p, rw h k)

richer_cases :
    (l r : Option Tree)
    → ((richer_pool_branch l r ≡ none) × (pool_branch_from_tree r ≡ none))
      ⊎ ((p : Tree) × (richer_pool_branch l r ≡ some (field pools_key (obj p) end)))
unfolding richer_pool_branch
richer_cases l r =
    choice_cases
      (ltb (pool_commitment_count (pool_branch_from_tree l))
        (pool_commitment_count (pool_branch_from_tree r)))
      (pool_branch_from_tree l) (pool_branch_from_tree r) (from_tree l) (from_tree r)

branch-put :
    (p loaded : Tree)
    → branch (as_record (get pools_key (put pools_key (obj p) loaded)))
      ≡ some (field pools_key (obj p) end)
branch-put p loaded = rw (get-put_self pools_key (obj p) loaded) refl

-- The pools of the tree that a session is reset to are the richer of the memory's and the rows'.
merged :
    (l : Option Tree) (loaded : Tree)
    → pool_branch_from_tree (some (with_branch loaded (richer_pool_branch l (some loaded))))
      ≡ richer_pool_branch l (some loaded)
merged l loaded = elim (richer_cases l (some loaded)) [
  | inl (h, k) ↦ rw h k
  | inr (p, h) ↦ rw h (unfold pool_branch_from_tree spread in branch-put p loaded)
]

pools_count-refreshed :
    (M : Memory) (reset : Tree → M.State) (memory : Tree) (rows : Dict Tree) (key : Text)
    → pools_count (refreshed M reset memory rows key)
      ≡ max (pools_count memory) (pools_count (load_hydrated_state_tree rows key))
unfolding refreshed
pools_count-refreshed M reset memory rows key =
    ap pool_commitment_count (merged (some memory) (load_hydrated_state_tree rows key))
    ∙ count-richer (some memory) (some (load_hydrated_state_tree rows key))

-- What a refresh of `keys` makes of the memory of the account `key`.
pub record NoPoorer (M : Memory) (keys : List Text) (key : Text) (rows : Dict Tree)
    (before after : M.State) : Type 0 where
  pub grows : pools_count (M.get_state before) ≤ pools_count (M.get_state after)
  pub covers :
      Among key keys
      → pools_count (load_hydrated_state_tree rows key) ≤ pools_count (M.get_state after)

abbrev pub Refreshed : (M : Memory) → List Text → Text → Dict Tree → M.State → Sessions M → Type 0
Refreshed M keys key rows before t =
    (after : M.State) × (lookup key t.memories ≡ some after) × NoPoorer M keys key rows before after

not_first :
    (key k : Text) (keys : List Text)
    → text_eq k key ≡ false
    → Among key (k ∷ keys)
    → Among key keys
not_first key k keys h first = let same = text_eq_refl key in absurd (ground arith)
not_first key k keys h (later m) = m

module _ (M : Memory) (reset : Tree → M.State) (law : (t : Tree) → M.get_state (reset t) ≡ t) where
  rows-session :
      (k : Text) (o : Option M.State) (s : Sessions M)
      → (refresh_session M reset k o s).rows ≡ s.rows
  rows-session k none s = refl
  rows-session k (some m) s = refl

  other_session :
      (k key : Text) (o : Option M.State) (s : Sessions M)
      → text_eq k key ≡ false
      → lookup key (refresh_session M reset k o s).memories ≡ lookup key s.memories
  other_session k key none s h = refl
  other_session k key (some m) s h =
      lookup-insert k key (reset (refreshed M reset (M.get_state m) s.rows k)) s.memories
      ∙ rw h refl

  count-reset :
      (k : Text) (before : M.State) (rows : Dict Tree)
      → pools_count (M.get_state (reset (refreshed M reset (M.get_state before) rows k)))
        ≡ max (pools_count (M.get_state before)) (pools_count (load_hydrated_state_tree rows k))
  count-reset k before rows =
      ap pools_count (law (refreshed M reset (M.get_state before) rows k))
      ∙ pools_count-refreshed M reset (M.get_state before) rows k

  skipped :
      (k key : Text) (keys : List Text) (rows : Dict Tree) (before : M.State) (t : Sessions M)
      → text_eq k key ≡ false
      → Refreshed M keys key rows before t
      → Refreshed M (k ∷ keys) key rows before t
  skipped k key keys rows before t h (after, e, p) =
      (after, e, record { grows = p.grows; covers = λ m. p.covers (not_first key k keys h m) })

  reset_first :
      (key : Text) (keys : List Text) (rows : Dict Tree) (before : M.State) (t : Sessions M)
      → Refreshed M keys key rows (reset (refreshed M reset (M.get_state before) rows key)) t
      → Refreshed M (key ∷ keys) key rows before t
  reset_first key keys rows before t (after, e, p) =
      let counted = count-reset key before rows in
      let more = p.grows in
      (
        after,
        e,
        record { grows = omega (arith, counted, more); covers = λ _. omega (arith, counted, more) },
      )

  refresh-goes :
      (keys : List Text) (key : Text) (rows : Dict Tree) (s : Sessions M) (before : M.State)
      → s.rows ≡ rows
      → lookup key s.memories ≡ some before
      → Refreshed M keys key rows before (refresh M reset keys s)
  unfolding refresh
  refresh-goes [] key rows s before r e =
      (before, e, record { grows = omega arith; covers = λ m. elim m [ ] })
  refresh-goes (k ∷ keys) key rows s before r e = elim (Bool-cases (text_eq k key)) [
    | inr differs ↦
        skipped k key keys rows before
          (refresh M reset keys (refresh_session M reset k (lookup k s.memories) s)) differs
          (refresh-goes keys key rows (refresh_session M reset k (lookup k s.memories) s) before
            (rows-session k (lookup k s.memories) s ∙ r)
            (other_session k key (lookup k s.memories) s differs ∙ e))
    | inl same ↦
        let k_is : k ≡ key = (text_eq_iff k key).0 same in
        let here : lookup k s.memories ≡ some before =
          subst (λ x. lookup x s.memories ≡ some before) (sym k_is) e in
        let next = record s {
          memories = insert k (reset (refreshed M reset (M.get_state before) s.rows k)) s.memories;
        } in
        let step : refresh_session M reset k (lookup k s.memories) s ≡ next =
          ap (λ o. refresh_session M reset k o s) here in
        subst (λ t. Refreshed M (k ∷ keys) key rows before (refresh M reset keys t)) (sym step)
          (subst (λ x. Refreshed M (k ∷ keys) x rows before (refresh M reset keys next)) k_is
            (subst (λ x. Refreshed M (k ∷ keys) k x before (refresh M reset keys next)) r
              (reset_first k keys s.rows before (refresh M reset keys next) (
                refresh-goes keys k s.rows next
                  (reset (refreshed M reset (M.get_state before) s.rows k)) refl
                  (lookup-insert_self k (reset (refreshed M reset (M.get_state before) s.rows k))
                    s.memories)))))
  ]

-- Where the memory gives back the tree that it was reset to: after a refresh of accounts, an account
-- with a session still has one, whose pools have no fewer commitments than before, and, if it is one
-- of those accounts, no fewer than the rows' own.
pub refresh-Refreshed :
    (M : Memory) (reset : Tree → M.State) (keys : List Text) (key : Text) (s : Sessions M)
    (before : M.State)
    → ((t : Tree) → M.get_state (reset t) ≡ t)
    → lookup key s.memories ≡ some before
    → Refreshed M keys key s.rows before (refresh M reset keys s)
refresh-Refreshed M reset keys key s before law e =
    refresh-goes M reset law keys key s.rows s before refl e
