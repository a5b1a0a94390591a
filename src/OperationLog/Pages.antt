-- ===== src/OperationLog/Pages.antt =====
-- operation-log/operation-log.service.ts: the pages one after the other.
use native.Mathlib.Nat.{div-add-mod', mod-lt}
use pl_backend_sdk_demo.Prelude.{
  ℕ, zero, suc, ◌+◌, ◌-◌, ◌*◌, ◌/◌, ◌%◌, ◌≤◌, ◌<◌, min, max, ◌≡◌, refl, sym, ap, ◌∙◌, some, List,
  [], ◌∷◌, ◌++◌, length, take, drop, ltb, if◌then◌else◌, arith,
}
use pl_backend_sdk_demo.OperationLog.{LogRow, page, log_page_count, clamp_log_page}

-- The items of the pages 1 to `n`, one after the other.
abbrev pub pages : (List LogRow → List LogRow) → ℕ → List LogRow → ℕ → List LogRow
pages newest_first page_size rows zero = []
pages newest_first page_size rows (suc n) =
    pages newest_first page_size rows n ++ (page newest_first (suc n) page_size rows).items

taken_none : {A : Type 0} (n : ℕ) → take {A = A} n [] ≡ []
taken_none zero = refl
taken_none (suc n) = refl

take-add : {A : Type 0} (m n : ℕ) (l : List A) → take (m + n) l ≡ take m l ++ take n (drop m l)
take-add zero n l = let same : 0 + n ≡ n = omega arith in ap (λ m. take m l) same
take-add (suc m) zero [] = taken_none (suc m + 0)
take-add (suc m) (suc n) [] = taken_none (suc m + suc n)
take-add (suc m) n (x ∷ l) =
    let same : suc m + n ≡ suc (m + n) = omega arith in
    ap (λ k. take k (x ∷ l)) same ∙ ap (λ r. x ∷ r) (take-add m n l)

take-all : {A : Type 0} (n : ℕ) (l : List A) → length l ≤ n → take n l ≡ l
take-all zero [] h = refl
take-all zero (x ∷ l) h = absurd (omega arith)
take-all (suc n) [] h = refl
take-all (suc n) (x ∷ l) h = ap (λ r. x ∷ r) (take-all n l (omega arith))

clamped_inside :
    (n count : ℕ) → suc n ≤ count → (if ltb (suc n) 1 then 1 else min (suc n) count) ≡ suc n
clamped_inside n count h = ground arith

in_range :
    (n total k : ℕ)
    → suc n ≤ max 1 ((total + k) / suc k)
    → clamp_log_page (suc n) total (suc k) ≡ suc n
unfolding clamp_log_page log_page_count
in_range n total k h = clamped_inside n (max 1 ((total + k) / suc k)) h

before : (n : ℕ) → suc n - 1 ≡ n
before n = omega arith

times_suc : (n m : ℕ) → n * m + m ≡ suc n * m
times_suc n m = omega arith

pages-take :
    (newest_first : List LogRow → List LogRow) (k : ℕ) (rows : List LogRow) (n : ℕ)
    → n ≤ max 1 ((length rows + k) / suc k)
    → pages newest_first (suc k) rows n ≡ take (n * suc k) (newest_first rows)
unfolding page
pages-take newest_first k rows zero h =
    let none_taken : 0 * suc k ≡ 0 = omega arith in
    ap (λ m. take m (newest_first rows)) (sym none_taken)
pages-take newest_first k rows (suc n) h =
    let l = newest_first rows in
    ap (λ r. r ++ (page newest_first (suc n) (suc k) rows).items)
      (pages-take newest_first k rows n (omega arith))
    ∙ ap (λ c. take (n * suc k) l ++ take (suc k) (drop ((c - 1) * suc k) l))
        (in_range n (length rows) k h)
    ∙ ap (λ c. take (n * suc k) l ++ take (suc k) (drop (c * suc k) l)) (before n)
    ∙ sym (take-add (n * suc k) (suc k) l)
    ∙ ap (λ m. take m l) (times_suc n (suc k))

enough_of : (q r total k : ℕ) → q * suc k + r ≡ total + k → r < suc k → total ≤ max 1 q * suc k
enough_of zero r total k e h = omega arith
enough_of (suc q) r total k e h =
    let same : max 1 (suc q) ≡ suc q = omega arith in rw same (omega (arith, e, h))

enough : (total k : ℕ) → total ≤ max 1 ((total + k) / suc k) * suc k
enough total k =
    enough_of ((total + k) / suc k) ((total + k) % suc k) total k (div-add-mod' (total + k) (suc k))
      (mod-lt (total + k) (omega arith))

-- For a positive page size, the pages from the first to the last, one after the other, are the rows in
-- the order of the database, if the database returns as many rows as there are.
pub pages-newest_first :
    (newest_first : List LogRow → List LogRow) (rows : List LogRow) (k count : ℕ)
    → length (newest_first rows) ≡ length rows
    → log_page_count (length rows) (suc k) ≡ some count
    → pages newest_first (suc k) rows count ≡ newest_first rows
unfolding log_page_count
pages-newest_first newest_first rows k count same e =
    let total = length rows in
    let is_count : max 1 ((total + k) / suc k) ≡ count = ground (arith, e) in
    rw (← is_count) (
      pages-take newest_first k rows (max 1 ((total + k) / suc k)) (omega arith)
      ∙ take-all (max 1 ((total + k) / suc k) * suc k) (newest_first rows)
          (omega (arith, same, enough total k)))
