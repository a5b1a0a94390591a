-- ===== src/State/Snapshot/Prune.antt =====
-- privacy/state/sdk-state-snapshot.ts: `pruneSpentPrivateRecords`.
use pl_backend_sdk_demo.Prelude.{
  ◌≡◌, refl, sym, ap, ◌∙◌, ◌≢◌, inl, inr, Bool, true, false, Option, none, some, Text, text_eq_iff,
  ◌==◌, ==_iff, Bool-cases, arith,
}
use pl_backend_sdk_demo.Json.{
  Json, arr, Items, nil, cons, Tree, end, field, get, has_own, put, length, filter, AllItems,
  get-put, get-put_self, filter_of_length,
}
use pl_backend_sdk_demo.State.Snapshot.{
  pools_key, records_key, as_array, is_kept, pruned, prune_spent_private_records,
  without_pool_branch,
}
use pl_backend_sdk_demo.State.Snapshot.Branch.{has_own-without_pool_branch}

pub filter-AllItems : (p : Json → Bool) (r : Items) → AllItems (λ v. p v ≡ true) (filter p r)
unfolding filter
filter-AllItems p nil = tt
filter-AllItems p (cons v r) = elim (Bool-cases (p v)) [
  | inl kept ↦ rw kept (kept, filter-AllItems p r)
  | inr dropped ↦ rw dropped (filter-AllItems p r)
]

filter_of_AllItems : (p : Json → Bool) (r : Items) → AllItems (λ v. p v ≡ true) r → filter p r ≡ r
unfolding filter
filter_of_AllItems p nil h = refl
filter_of_AllItems p (cons v r) h = ground (arith, filter_of_AllItems p r h.1)

-- The records as an array, if they are one.
abbrev pub records_of : Tree → Option Items
records_of t = as_array (get records_key t)

abbrev map_items : (Items → Items) → Option Items → Option Items
map_items f none = none
map_items f (some r) = some (f r)

records_of-pruned :
    (t : Tree) (o : Option Items)
    → records_of t ≡ o
    → records_of (pruned t o) ≡ map_items (filter is_kept) o
records_of-pruned t none e = e
records_of-pruned t (some r) e = elim (Bool-cases (length (filter is_kept r) == length r)) [
  | inl same ↦ rw same (e ∙ ap some (sym (filter_of_length is_kept r ((==_iff _ _).0 same))))
  | inr fewer ↦ rw fewer (ap as_array (get-put_self records_key (arr (filter is_kept r)) t))
]

-- After pruning the records are the unspent ones in their order.
pub records_of-prune :
    (t : Tree)
    → records_of (prune_spent_private_records t) ≡ map_items (filter is_kept) (records_of t)
unfolding prune_spent_private_records
records_of-prune t = records_of-pruned t (records_of t) refl

get-pruned :
    (k : Text) (t : Tree) (o : Option Items) → k ≢ records_key → get k (pruned t o) ≡ get k t
get-pruned k t none h = refl
get-pruned k t (some r) h = elim (Bool-cases (length (filter is_kept r) == length r)) [
  | inl same ↦ rw same refl
  | inr fewer ↦
      rw fewer (
        get-put records_key k (arr (filter is_kept r)) t
        ∙ ground (arith, text_eq_iff records_key k))
]

-- No other field changes.
pub get-prune :
    (k : Text) (t : Tree) → k ≢ records_key → get k (prune_spent_private_records t) ≡ get k t
unfolding prune_spent_private_records
get-prune k t h = get-pruned k t (records_of t) h

-- A tree that holds no pools branch and no spent record.
pub record IsClean (t : Tree) : Type 0 where
  pub no_pools : has_own pools_key t ≡ false
  pub no_spent : (r : Items) → records_of t ≡ some r → AllItems (λ v. is_kept v ≡ true) r

-- What the adapter stores for an account, and what it gives back.
abbrev pub clean : Tree → Tree
clean t = prune_spent_private_records (without_pool_branch t)

has_own-put :
    (k j : Text) (v : Json) (t : Tree) → k ≢ j → has_own j t ≡ false → has_own j (put k v t) ≡ false
unfolding has_own put
has_own-put k j v end h a = ground (arith, text_eq_iff k j)
has_own-put k j v (field i w t) h a =
    ground (arith, has_own-put k j v t h, text_eq_iff i k, text_eq_iff i j, text_eq_iff k j)

pub records-ne-pools : ◌≢◌ {A = Text} records_key pools_key
records-ne-pools e = absurd (cc)

has_own-pruned :
    (t : Tree) (o : Option Items)
    → has_own pools_key t ≡ false
    → has_own pools_key (pruned t o) ≡ false
has_own-pruned t none h = h
has_own-pruned t (some r) h = elim (Bool-cases (length (filter is_kept r) == length r)) [
  | inl same ↦ rw same h
  | inr fewer ↦ rw fewer (has_own-put records_key pools_key _ t records-ne-pools h)
]

filtered_are_kept :
    (o : Option Items) (r : Items)
    → map_items (filter is_kept) o ≡ some r
    → AllItems (λ v. is_kept v ≡ true) r
filtered_are_kept none r e = absurd (cc)
filtered_are_kept (some s) r e =
    let same : filter is_kept s ≡ r = ground arith in rw (← same) (filter-AllItems is_kept s)

-- A cleaned tree has no pools branch and, if its private records are an array, no spent one.
pub clean-IsClean : (t : Tree) → IsClean (clean t)
unfolding prune_spent_private_records
clean-IsClean t =
    let base = without_pool_branch t in
    record {
      no_pools = has_own-pruned base (records_of base) (has_own-without_pool_branch t);
      no_spent = λ r e. filtered_are_kept (records_of base) r (sym (records_of-prune base) ∙ e);
    }

pruned_of_kept :
    (t : Tree) (o : Option Items)
    → ((r : Items) → o ≡ some r → AllItems (λ v. is_kept v ≡ true) r)
    → pruned t o ≡ t
pruned_of_kept t none h = refl
pruned_of_kept t (some r) h =
    let same = filter_of_AllItems is_kept r (h r refl) in rw same (ground arith)

without_pool_branch_of_absent : (t : Tree) → has_own pools_key t ≡ false → without_pool_branch t ≡ t
unfolding without_pool_branch
without_pool_branch_of_absent t h = rw h refl

-- A clean tree is left as it is.
pub clean_of_IsClean : (t : Tree) → IsClean t → clean t ≡ t
unfolding prune_spent_private_records
clean_of_IsClean t h =
    let same = without_pool_branch_of_absent t h.no_pools in
    rw same (pruned_of_kept t (records_of t) h.no_spent)
