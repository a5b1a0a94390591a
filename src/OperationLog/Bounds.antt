-- ===== src/OperationLog/Bounds.antt =====
-- operation-log/paging.ts: the sizes and the numbers of pages.
use pl_backend_sdk_demo.Prelude.{
  ℕ, suc, ◌+◌, ◌/◌, ◌≤◌, min, max, ◌≡◌, refl, Option, none, some, Text, ltb, if◌then◌else◌, arith,
}
use pl_backend_sdk_demo.OperationLog.{
  Numbers, max_log_page_size, parse_positive_int, log_page_size, log_page_count, clamp_log_page,
}

-- A page holds at least one entry and at most fifty, whatever the query says.
pub log_page_size-bounds :
    (numbers : Numbers) (value : Option Text)
    → (1 ≤ log_page_size numbers value) × (log_page_size numbers value ≤ max_log_page_size)
unfolding log_page_size parse_positive_int
log_page_size-bounds numbers none = (omega arith, omega arith)
log_page_size-bounds numbers (some value) = (grind (arith, numbers.floor_positive), omega arith)

clamped :
    (number count : ℕ)
    → 1 ≤ count
    → (if ltb number 1 then 1 else min number count) ≡ max 1 (min number count)
clamped number count h = ground arith

-- For a positive page size there is at least one page, and a page number is clamped to the pages there
-- are.
pub clamp_log_page_lem :
    (number total k : ℕ)
    → (count : ℕ) × (log_page_count total (suc k) ≡ some count)
      × (1 ≤ count)
      × (clamp_log_page number total (suc k) ≡ max 1 (min number count))
unfolding log_page_count clamp_log_page
clamp_log_page_lem number total k = (
  max 1 ((total + k) / suc k),
  refl,
  omega arith,
  clamped number (max 1 ((total + k) / suc k)) (omega arith),
)
