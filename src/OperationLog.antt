-- ===== src/OperationLog.antt =====
-- operation-log/paging.ts and operation-log.service.ts. The order in which the database returns the
-- rows is a parameter, and so are JavaScript numbers.
pub mod Bounds
pub mod Pages
use pl_backend_sdk_demo.Prelude.{
  ℕ, zero, suc, ◌+◌, ◌-◌, ◌*◌, ◌/◌, ◌≤◌, ◌<◌, min, max, ◌≡◌, refl, Bool, true, false, ◌||◌, not,
  Option, none, some, List, [], ◌∷◌, ◌++◌, Text, codes, ltb, ◌==◌, length, take, drop,
  if◌then◌else◌, arith,
}
use pl_backend_sdk_demo.Persistence.{LogEntry}

abbrev pub default_log_page_size : ℕ
default_log_page_size = 20

abbrev pub max_log_page_size : ℕ
max_log_page_size = 50

-- `Number(text)` and what is asked of it; `floor` is read only of what is finite and not below 1.
pub record Numbers : Type 1 where
  pub Number : Type 0
  pub read : Text → Number
  pub is_finite : Number → Bool
  pub is_below_one : Number → Bool
  pub floor : Number → ℕ
  pub floor_positive : (x : Number) → is_finite x ≡ true → is_below_one x ≡ false → 1 ≤ floor x

module _ (numbers : Numbers) where
  unfoldable pub parse_positive_int : Option Text → ℕ → ℕ
  parse_positive_int none fallback = fallback
  parse_positive_int (some value) fallback =
      let parsed = numbers.read value in
      if not (numbers.is_finite parsed) || numbers.is_below_one parsed
      then fallback
      else numbers.floor parsed

  unfoldable pub log_page_size : Option Text → ℕ
  log_page_size value = min max_log_page_size (parse_positive_int value default_log_page_size)

-- `Math.max(1, Math.ceil(total / pageSize) || 1)`, where none is infinity: a page size of 0, which
-- `logPageSize` never gives, divides a positive total.
unfoldable pub log_page_count : ℕ → ℕ → Option ℕ
log_page_count total zero = if total == 0 then some 1 else none
log_page_count total (suc k) = some (max 1 ((total + k) / suc k))

abbrev at_most : Option ℕ → ℕ → ℕ
at_most none page = page
at_most (some last) page = min page last

unfoldable pub clamp_log_page : ℕ → ℕ → ℕ → ℕ
clamp_log_page page total page_size =
    if ltb page 1 then 1 else at_most (log_page_count total page_size) page

pub record LogRow : Type 0 where
  pub at : ℕ
  pub entry : LogEntry

-- `append` at a time.
unfoldable pub append : ℕ → LogEntry → List LogRow → List LogRow
append now entry rows = rows ++ record { at = now; entry = entry } ∷ []

pub record LogPage : Type 0 where
  pub items : List LogRow
  pub total : ℕ
  pub page : ℕ

-- `newest_first` is `order: { at: "DESC" }`.
unfoldable pub page : (List LogRow → List LogRow) → ℕ → ℕ → List LogRow → LogPage
page newest_first number page_size rows =
    let total = length rows in
    let clamped = clamp_log_page number total page_size in
    record {
      items = take page_size (drop ((clamped - 1) * page_size) (newest_first rows));
      total = total;
      page = clamped;
    }
