-- ===== src/Simulator/Service/Busy.antt =====
-- simulator/simulator.service.ts: the accounts that transfers in flight occupy.
use pl_backend_sdk_demo.Prelude.{
  ℕ, suc, ◌+◌, ◌<◌, ◌≡◌, refl, sym, ap, ◌∙◌, ◌≢◌, inl, inr, Bool, false, not, ◌&&◌, ◌||◌, List, [],
  ◌∷◌, Text, text_eq, text_eq_iff, text_eq-false_iff, subst, ◌==◌, filter, filter-kept,
  filter-dropped, Among, first, later, if◌then◌else◌, Bool-cases, arith,
}
use pl_backend_sdk_demo.Simulator.Occupancy.{has}
use pl_backend_sdk_demo.Simulator.Service.{Work, add, delete}

abbrev pub one_if : Bool → ℕ
one_if b = if b then 1 else 0

-- How often a transfer, and how often all in flight, have an account as sender or recipient.
abbrev pub takes : Text → Work → ℕ
takes k w = one_if (text_eq w.sender.public_key k) + one_if (text_eq w.recipient.public_key k)

abbrev pub occurs : Text → List Work → ℕ
occurs k [] = 0
occurs k (w ∷ ws) = takes k w + occurs k ws

-- The identities fall along the list and are below `n`.
abbrev pub Below : ℕ → List Work → Type 0
Below n [] = Unit {0}
Below n (w ∷ ws) = (w.id < n) × Below w.id ws

abbrev pub remove : ℕ → List Work → List Work
remove id ws = filter (λ v. not (v.id == id)) ws

has-add : (k j : Text) (busy : List Text) → has (add k busy) j ≡ (text_eq k j || has busy j)
unfolding add has
has-add k j busy = elim (Bool-cases (has busy k)) [
  | inl there ↦ elim (Bool-cases (text_eq k j)) [
    | inl same ↦ rw there (rw same (ap (has busy) (sym ((text_eq_iff k j).0 same)) ∙ there))
    | inr other ↦ rw there (rw other refl)
  ]
  | inr absent ↦ rw absent refl
]

has-delete :
    (k j : Text) (busy : List Text) → has (delete k busy) j ≡ (not (text_eq k j) && has busy j)
unfolding delete has
has-delete k j [] = ground arith
has-delete k j (i ∷ busy) =
    ground (arith, has-delete k j busy, text_eq_iff i k, text_eq_iff i j, text_eq_iff k j)

weaken-Below : (m n : ℕ) (ws : List Work) → m < n → Below m ws → Below n ws
weaken-Below m n [] h b = tt
weaken-Below m n (w ∷ ws) h (i, b) = (omega arith, b)

remove-Below : (m n : ℕ) (ws : List Work) → m < suc n → Below m ws → remove n ws ≡ ws
remove-Below m n [] h b = refl
remove-Below m n (w ∷ ws) h (i, b) =
    filter-kept _ w ws (ground arith) ∙ ap (λ l. w ∷ l) (remove-Below w.id n ws (omega arith) b)

Below-remove : (m n : ℕ) (ws : List Work) → Below m ws → Below m (remove n ws)
Below-remove m n [] b = tt
Below-remove m n (w ∷ ws) (i, b) = elim (Bool-cases (w.id == n)) [
  | inl hit ↦ rw hit (Below-remove m n ws (weaken-Below w.id m ws i b))
  | inr miss ↦ rw miss (i, Below-remove w.id n ws b)
]

Among-Below : (n : ℕ) (w : Work) (ws : List Work) → Below n ws → Among w ws → w.id < n
Among-Below n w [] b m = elim m [ ]
Among-Below n w (v ∷ ws) (i, b) first = i
Among-Below n w (v ∷ ws) (i, b) (later m) = omega (arith, Among-Below v.id w ws b m)

launched_once :
    (busy : List Text) (w : Work) (k : Text) (n : ℕ)
    → has busy w.sender.public_key ≡ false
    → has busy w.recipient.public_key ≡ false
    → w.sender.public_key ≢ w.recipient.public_key
    → n ≡ one_if (has busy k)
    → takes k w + n ≡ one_if (has (add w.recipient.public_key (add w.sender.public_key busy)) k)
launched_once busy w k n s r differ h =
    let adds = has-add w.recipient.public_key k (add w.sender.public_key busy) in
    let adds_sender = has-add w.sender.public_key k busy in
    elim (Bool-cases (text_eq w.sender.public_key k)) [
      | inl is_s ↦
          let e = (text_eq_iff w.sender.public_key k).0 is_s in
          let free : has busy k ≡ false = ap (has busy) (sym e) ∙ s in
          let not_r : text_eq w.recipient.public_key k ≡ false =
            (text_eq-false_iff w.recipient.public_key k).1 (λ f. differ (e ∙ sym f)) in
          ground (arith, adds, adds_sender, h, free, not_r, is_s)
      | inr not_s ↦ elim (Bool-cases (text_eq w.recipient.public_key k)) [
        | inl is_r ↦
            let free : has busy k ≡ false =
              ap (has busy) (sym ((text_eq_iff w.recipient.public_key k).0 is_r)) ∙ r in
            ground (arith, adds, adds_sender, h, free, is_r, not_s)
        | inr not_r ↦ ground (arith, adds, adds_sender, h, not_r, not_s)
      ]
    ]

finished_once :
    (busy : List Text) (w : Work) (k : Text) (n : ℕ)
    → n + takes k w ≡ one_if (has busy k)
    → n ≡ one_if (has (delete w.recipient.public_key (delete w.sender.public_key busy)) k)
finished_once busy w k n h = ground (
  arith,
  has-delete w.recipient.public_key k (delete w.sender.public_key busy),
  has-delete w.sender.public_key k busy,
  h,
)

-- What a transfer took is free again when it is removed.
occurs-remove :
    (k : Text) (n : ℕ) (w : Work) (ws : List Work)
    → Below n ws
    → Among w ws
    → occurs k (remove w.id ws) + takes k w ≡ occurs k ws
occurs-remove k n w [] b m = elim m [ ]
occurs-remove k n w (v ∷ ws) (i, b) first =
    let same : remove w.id (w ∷ ws) ≡ ws =
      filter-dropped _ w ws (ground arith) ∙ remove-Below w.id w.id ws (omega arith) b in
    let counts = ap (occurs k) same in omega (arith, counts)
occurs-remove k n w (v ∷ ws) (i, b) (later m) =
    let below = Among-Below v.id w ws b m in
    let counts =
      ap (occurs k) (filter-kept (λ u. not (u.id == w.id)) v ws (ground (arith, below))) in
    omega (arith, counts, occurs-remove k v.id w ws b m)

-- Every busy account stands in one transfer in flight, once, and no other account in any.
pub record IsOccupied (busy : List Text) (in_flight : List Work) (next_id : ℕ) : Type 0 where
  pub once : (k : Text) → occurs k in_flight ≡ one_if (has busy k)
  pub ids : Below next_id in_flight

pub launch-IsOccupied :
    (busy : List Text) (in_flight : List Work) (next_id : ℕ) (w : Work)
    → w.id ≡ next_id
    → has busy w.sender.public_key ≡ false
    → has busy w.recipient.public_key ≡ false
    → w.sender.public_key ≢ w.recipient.public_key
    → IsOccupied busy in_flight next_id
    → IsOccupied
        (add w.recipient.public_key (add w.sender.public_key busy))
        (w ∷ in_flight)
        (suc next_id)
launch-IsOccupied busy in_flight next_id w new s r differ h = record {
  once = λ k. launched_once busy w k (occurs k in_flight) s r differ (h.once k);
  ids = (omega arith, subst (λ n. Below n in_flight) (sym new) h.ids);
}

pub finish-IsOccupied :
    (busy : List Text) (in_flight : List Work) (next_id : ℕ) (w : Work)
    → Among w in_flight
    → IsOccupied busy in_flight next_id
    → IsOccupied
        (delete w.recipient.public_key (delete w.sender.public_key busy))
        (remove w.id in_flight)
        next_id
finish-IsOccupied busy in_flight next_id w m h = record {
  once = λ k.
      finished_once busy w k (occurs k (remove w.id in_flight))
        (occurs-remove k next_id w in_flight h.ids m ∙ h.once k);
  ids = Below-remove next_id w.id in_flight h.ids;
}
