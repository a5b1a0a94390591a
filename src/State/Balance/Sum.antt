-- ===== src/State/Balance/Sum.antt =====
-- privacy/state/sdk-state-snapshot.ts: the balance beside a sum over the records.
use pl_backend_sdk_demo.Prelude.{
  ◌≡◌, refl, sym, ap, ◌∙◌, subst, inl, inr, Bool, true, false, Option, none, some, codes, is_blank,
  text_eq_iff, big_int, List, [], ◌∷◌, ℤ, pos, ◌+ℤ◌, +ℤ_assoc, +ℤ-zero, zero-+ℤ, ◌≢◌, ◌↔◌, Thrown,
  Text, ok, thrown, filter, Bool-cases, Result-cases, arith,
}
use pl_backend_sdk_demo.Json.{Json, undef, null, bool, num, big, str, arr, obj}
use pl_backend_sdk_demo.Notes.Spendable.{CoinNote, coin_value, is_text, flag, big_int_or_throw}
use pl_backend_sdk_demo.State.Balance.{
  amount_of, coin_or_amount, BalanceRecord, record_amount_stroops, counts, add_amounts,
  private_balance_stroops_from_records,
}

-- A record that counts for an owner: it is the owner's, not consumed and not spent.
abbrev pub IsUnspentOf : Text → BalanceRecord → Type 0
IsUnspentOf owner r =
    (r.owner ≡ some owner) × (r.consumed ≢ some true) × (r.status ≢ some (codes "spent"))

-- What an amount that is no big integer, number or text is worth: nothing.
abbrev IsOther : Json → Type 0
IsOther (big z) = ⊥
IsOther (num z) = ⊥
IsOther (str s) = ⊥
IsOther _ = Unit {0}

-- The amount `z` that stands in the field of a record.
pub data Amounts : Json → ℤ → Type 0 where
  as_big : (z : ℤ) → Amounts (big z) z
  as_number : (z : ℤ) → Amounts (num z) z
  as_text : {s : Text} {z : ℤ} → is_blank s ≡ false → big_int s ≡ some z → Amounts (str s) z
  as_blank : {s : Text} → is_blank s ≡ true → Amounts (str s) (pos 0)
  as_nothing : {j : Json} → IsOther j → Amounts j (pos 0)

-- What a record is worth: the value of its coin note, or where that is missing or blank its amount.
pub data Worth : Option CoinNote → Json → ℤ → Type 0 where
  of_note :
      {c : CoinNote} {v : Text} {j : Json} {z : ℤ}
      → c.value ≡ some v
      → is_blank v ≡ false
      → big_int v ≡ some z
      → Worth (some c) j z
  of_blank :
      {c : CoinNote} {v : Text} {j : Json} {z : ℤ}
      → c.value ≡ some v
      → is_blank v ≡ true
      → Amounts j z
      → Worth (some c) j z
  of_empty : {c : CoinNote} {j : Json} {z : ℤ} → c.value ≡ none → Amounts j z → Worth (some c) j z
  of_none : {j : Json} {z : ℤ} → Amounts j z → Worth none j z

-- `total` is what the unspent records of the owner are worth together.
pub data Holds (owner : Text) : List BalanceRecord → ℤ → Type 0 where
  empty : Holds owner [] (pos 0)
  skipped :
      {r : BalanceRecord} {rs : List BalanceRecord} {t : ℤ}
      → ¬ (IsUnspentOf owner r)
      → Holds owner rs t
      → Holds owner (r ∷ rs) t
  counted :
      {r : BalanceRecord} {rs : List BalanceRecord} {t : ℤ} (amount : ℤ)
      → IsUnspentOf owner r
      → Worth r.coin_note r.amount amount
      → Holds owner rs t
      → Holds owner (r ∷ rs) (amount +ℤ t)

is_text_iff : (o : Option Text) (t : Text) → (is_text o t ≡ true) ↔ (o ≡ some t)
is_text_iff none t = (λ e. cc, λ e. cc)
is_text_iff (some s) t =
    (λ e. ap some ((text_eq_iff s t).0 e), λ e. (text_eq_iff s t).1 (ground (arith, e)))

flag_iff : (o : Option Bool) → (flag o ≡ true) ↔ (o ≡ some true)
flag_iff none = (λ e. cc, λ e. cc)
flag_iff (some true) = (λ e. refl, λ e. refl)
flag_iff (some false) = (λ e. cc, λ e. cc)

counts-IsUnspentOf :
    (owner : Text) (r : BalanceRecord) → counts owner r ≡ true → IsUnspentOf owner r
unfolding counts
counts-IsUnspentOf owner r h =
    let mine : is_text r.owner owner ≡ true = ground (arith, h) in
    let kept : flag r.consumed ≡ false = ground (arith, h) in
    let unspent : is_text r.status (codes "spent") ≡ false = ground (arith, h) in
    (
      (is_text_iff r.owner owner).0 mine,
      (λ e. let f : flag r.consumed ≡ true = (flag_iff r.consumed).1 e in ground (arith, f, kept)),
      (λ e.
          let f : is_text r.status (codes "spent") ≡ true =
            (is_text_iff r.status (codes "spent")).1 e in
          ground (arith, f, unspent)),
    )

IsUnspentOf-counts :
    (owner : Text) (r : BalanceRecord) → IsUnspentOf owner r → counts owner r ≡ true
unfolding counts
IsUnspentOf-counts owner r (mine, kept, unspent) =
    let m = (is_text_iff r.owner owner).1 mine in
    elim (Bool-cases (flag r.consumed)) [
      | inl consumed ↦ absurd (kept ((flag_iff r.consumed).0 consumed))
      | inr fresh ↦ elim (Bool-cases (is_text r.status (codes "spent"))) [
        | inl spent ↦ absurd (unspent ((is_text_iff r.status (codes "spent")).0 spent))
        | inr other ↦ rw m (rw fresh (rw other refl))
      ]
    ]

big_int_of_ok : (s : Text) (z : ℤ) → big_int_or_throw s ≡ ok z → big_int s ≡ some z
big_int_of_ok s z e = ground arith

amount-Amounts : (j : Json) (z : ℤ) → amount_of j ≡ ok z → Amounts j z
amount-Amounts (big x) z e = let same : x ≡ z = cc in subst (Amounts (big x)) same (as_big x)
amount-Amounts (num x) z e = let same : x ≡ z = cc in subst (Amounts (num x)) same (as_number x)
amount-Amounts (str s) z e = elim (Bool-cases (is_blank s)) [
  | inl blank ↦
      let same : pos 0 ≡ z = ground (arith, e, blank) in
      subst (Amounts (str s)) same (as_blank blank)
  | inr text ↦ as_text text (big_int_of_ok s z (ground (arith, e, text)))
]
amount-Amounts undef z e = let same : pos 0 ≡ z = cc in subst (Amounts undef) same (as_nothing tt)
amount-Amounts null z e = let same : pos 0 ≡ z = cc in subst (Amounts null) same (as_nothing tt)
amount-Amounts (bool b) z e =
    let same : pos 0 ≡ z = cc in subst (Amounts (bool b)) same (as_nothing tt)
amount-Amounts (arr l) z e =
    let same : pos 0 ≡ z = cc in subst (Amounts (arr l)) same (as_nothing tt)
amount-Amounts (obj t) z e =
    let same : pos 0 ≡ z = cc in subst (Amounts (obj t)) same (as_nothing tt)

other-amount : (j : Json) → IsOther j → amount_of j ≡ ok (pos 0)
other-amount (big x) h = elim h [ ]
other-amount (num x) h = elim h [ ]
other-amount (str s) h = elim h [ ]
other-amount undef h = refl
other-amount null h = refl
other-amount (bool b) h = refl
other-amount (arr l) h = refl
other-amount (obj t) h = refl

Amounts-amount : {j : Json} {z : ℤ} → Amounts j z → amount_of j ≡ ok z
Amounts-amount (as_big z) = refl
Amounts-amount (as_number z) = refl
Amounts-amount (as_text text read) = ground (arith, text, read)
Amounts-amount (as_blank blank) = ground (arith, blank)
Amounts-amount (as_nothing {j} h) = other-amount j h

note-Worth :
    (c : CoinNote) (o : Option Text) (j : Json) (z : ℤ)
    → c.value ≡ o
    → coin_or_amount o j ≡ ok z
    → Worth (some c) j z
note-Worth c none j z v e = of_empty v (amount-Amounts j z e)
note-Worth c (some s) j z v e = elim (Bool-cases (is_blank s)) [
  | inl blank ↦ of_blank v blank (amount-Amounts j z (ground (arith, e, blank)))
  | inr text ↦ of_note v text (big_int_of_ok s z (ground (arith, e, text)))
]

coin-Worth :
    (o : Option CoinNote) (j : Json) (z : ℤ) → coin_or_amount (coin_value o) j ≡ ok z → Worth o j z
coin-Worth none j z e = of_none (amount-Amounts j z e)
coin-Worth (some c) j z e = note-Worth c c.value j z refl e

Worth-coin :
    {o : Option CoinNote} {j : Json} {z : ℤ} → Worth o j z → coin_or_amount (coin_value o) j ≡ ok z
Worth-coin (of_note v text read) = ground (arith, v, text, read)
Worth-coin (of_blank {j} v blank a) = rw v (rw blank (Amounts-amount a))
Worth-coin (of_empty v a) = rw v (Amounts-amount a)
Worth-coin (of_none a) = Amounts-amount a

read-Worth :
    (r : BalanceRecord) (z : ℤ) → (record_amount_stroops r ≡ ok z) ↔ Worth r.coin_note r.amount z
unfolding record_amount_stroops
read-Worth r z = (coin-Worth r.coin_note r.amount z, λ w. Worth-coin w)

step_added :
    (r : BalanceRecord) (rs : List BalanceRecord) (start amount : ℤ)
    → record_amount_stroops r ≡ ok amount
    → add_amounts start (r ∷ rs) ≡ add_amounts (start +ℤ amount) rs
unfolding add_amounts
step_added r rs start amount e = ground (arith, e)

step_thrown :
    (r : BalanceRecord) (rs : List BalanceRecord) (start t : ℤ) (x : Thrown)
    → record_amount_stroops r ≡ thrown x
    → add_amounts start (r ∷ rs) ≢ ok t
unfolding add_amounts
step_thrown r rs start t x e h = ground (arith, e, h)

clash : {b : Bool} → b ≡ true → ¬ (b ≡ false)
clash e h = cc

added-Holds :
    (owner : Text) (rs : List BalanceRecord) (start t : ℤ)
    → add_amounts start (filter (counts owner) rs) ≡ ok t
    → (u : ℤ) × Holds owner rs u × (t ≡ start +ℤ u)
unfolding add_amounts
added-Holds owner [] start t e = (pos 0, empty, ground (arith, +ℤ-zero start))
added-Holds owner (r ∷ rs) start t e = elim (Bool-cases (counts owner r)) [
  | inl counting ↦ elim (Result-cases (record_amount_stroops r)) [
    | inl (x, failed) ↦
        absurd
          (step_thrown r (filter (counts owner) rs) start t x failed (sym (rw counting refl) ∙ e))
    | inr (a, read) ↦
        let (u, h, sum) =
          added-Holds owner rs (start +ℤ a) t
            (sym (rw counting (step_added r (filter (counts owner) rs) start a read)) ∙ e) in
        (
          a +ℤ u,
          counted a (counts-IsUnspentOf owner r counting) ((read-Worth r a).0 read) h,
          sum ∙ +ℤ_assoc start a u,
        )
  ]
  | inr passed ↦
      let (u, h, sum) = added-Holds owner rs start t (sym (rw passed refl) ∙ e) in
      (u, skipped (λ c. clash (IsUnspentOf-counts owner r c) passed) h, sum)
]

Holds-added :
    {owner : Text} {rs : List BalanceRecord} {u : ℤ}
    → Holds owner rs u
    → (start : ℤ) → add_amounts start (filter (counts owner) rs) ≡ ok (start +ℤ u)
unfolding add_amounts
Holds-added empty start = ap ok (sym (+ℤ-zero start))
Holds-added {owner} (skipped {r} {rs} passed h) start = elim (Bool-cases (counts owner r)) [
  | inl counting ↦ absurd (passed (counts-IsUnspentOf owner r counting))
  | inr passing ↦ rw passing (Holds-added h start)
]
Holds-added {owner} (counted {r} {rs} {t} a mine worth h) start =
    rw (IsUnspentOf-counts owner r mine) (
      step_added r _ start a ((read-Worth r a).1 worth)
      ∙ Holds-added h (start +ℤ a)
      ∙ ap ok (+ℤ_assoc start a t))

-- The balance of an owner is `t` exactly when `t` is the sum of what the records are worth that are the
-- owner's, not consumed and not spent, each of them its coin note's value, read as an integer, or where
-- that is missing or blank its own amount, an integer or a text that reads as one, and nothing where
-- that is blank or of another kind.
pub balance_iff :
    (records : List BalanceRecord) (owner : Text) (t : ℤ)
    → (private_balance_stroops_from_records records owner ≡ ok t) ↔ Holds owner records t
unfolding private_balance_stroops_from_records
balance_iff records owner t = (
  λ e. let (u, h, sum) = added-Holds owner records (pos 0) t e in rw (sum ∙ zero-+ℤ u) h,
  λ h. Holds-added h (pos 0) ∙ ap ok (zero-+ℤ t),
)
