-- ===== src/Dashboard/Page/Latest.antt =====
-- public/app.js: which answer is on the page.
use pl_backend_sdk_demo.Prelude.{
  ℕ, suc, ◌≤◌, ◌-◌, ◌+◌, ◌≡◌, Option, none, some, List, [], ◌∷◌, Bool-cases, inl, inr, ◌==◌, leb,
  All, arith,
}
use pl_backend_sdk_demo.Dashboard.Page.{
  LogsAnswer, LogPane, opened, refresh, render_logs, drop_asked, answered, request_failed,
  logs_prev, logs_next,
}

-- The page after events in any order: the timer, the buttons, and answers and failures of requests.
-- An answer has a page from 1 on.
pub data Visited : LogPane → Type 0 where
  opens : Visited opened
  refreshes : {p : LogPane} → Visited p → Visited (refresh p)
  goes_back : {p : LogPane} → Visited p → Visited (logs_prev p)
  goes_on : {p : LogPane} → Visited p → Visited (logs_next p)
  hears :
      {p : LogPane}
      → Visited p
      → (seq : ℕ) (logs : LogsAnswer) → 1 ≤ logs.page
      → Visited (answered seq logs p)
  fails : {p : LogPane} → Visited p → (seq : ℕ) → Visited (request_failed seq p)

-- The number of the request whose answer is shown, 0 if there is none yet.
abbrev seq_or_zero : Option (ℕ × LogsAnswer) → ℕ
seq_or_zero none = 0
seq_or_zero (some (seq, logs)) = seq

abbrev pub shown_seq : LogPane → ℕ
shown_seq p = seq_or_zero p.shown

-- A request out is no newer than the last, and asks for a page from 1 on.
abbrev pub IsOut : ℕ → ℕ × ℕ → Type 0
IsOut last (seq, page) = (seq ≤ last) × (1 ≤ page)

pub record ShowsInOrder (p : LogPane) : Type 0 where
  pub page_from_one : 1 ≤ p.log_page
  pub shown_asked : shown_seq p ≤ p.log_refresh_seq
  pub asked_known : All (IsOut p.log_refresh_seq) p.asked
  pub never_older : (seq : ℕ) (logs : LogsAnswer) → shown_seq p ≤ shown_seq (answered seq logs p)

abbrev InBounds : LogPane → Type 0
InBounds p =
    (1 ≤ p.log_page) × (shown_seq p ≤ p.log_refresh_seq) × All (IsOut p.log_refresh_seq) p.asked

later-IsOut : (n m : ℕ) (asked : List (ℕ × ℕ)) → n ≤ m → All (IsOut n) asked → All (IsOut m) asked
later-IsOut n m [] h a = tt
later-IsOut n m ((seq, page) ∷ asked) h a =
    ((omega (arith, a.0.0), a.0.1), later-IsOut n m asked h a.1)

drop-IsOut :
    (n seq : ℕ) (asked : List (ℕ × ℕ)) → All (IsOut n) asked → All (IsOut n) (drop_asked seq asked)
drop-IsOut n seq [] a = tt
drop-IsOut n seq ((m, page) ∷ asked) a = elim (Bool-cases (m == seq)) [
  | inl same ↦ rw same a.1
  | inr differs ↦ rw differs (a.0, drop-IsOut n seq asked a.1)
]

refresh-InBounds : (p : LogPane) → InBounds p → InBounds (refresh p)
unfolding refresh
refresh-InBounds p (page, shown, out) = (
  page,
  omega (arith, shown),
  (
    (omega arith, page),
    later-IsOut p.log_refresh_seq (suc p.log_refresh_seq) p.asked (omega arith) out,
  ),
)

prev-InBounds : (p : LogPane) → InBounds p → InBounds (logs_prev p)
unfolding logs_prev
prev-InBounds p (page, shown, out) = elim (Bool-cases (leb p.log_page 1)) [
  | inl first_page ↦ rw first_page (page, shown, out)
  | inr further ↦
      let two : 1 ≤ p.log_page - 1 = ground arith in
      rw further (refresh-InBounds (record p { log_page = p.log_page - 1 }) (two, shown, out))
]

answered-InBounds :
    (p : LogPane) (seq : ℕ) (logs : LogsAnswer)
    → 1 ≤ logs.page
    → InBounds p
    → InBounds (answered seq logs p)
unfolding answered render_logs
answered-InBounds p seq logs h (page, shown, out) =
    let kept = drop-IsOut p.log_refresh_seq seq p.asked out in
    elim (Bool-cases (seq == p.log_refresh_seq)) [
      | inl last ↦ let same : seq ≤ p.log_refresh_seq = ground arith in rw last (h, same, kept)
      | inr older ↦ rw older (page, shown, kept)
    ]

Visited-InBounds : {p : LogPane} → Visited p → InBounds p
unfolding request_failed logs_next
Visited-InBounds opens = (omega arith, omega arith, tt)
Visited-InBounds (refreshes {p} v) = refresh-InBounds p (Visited-InBounds v)
Visited-InBounds (goes_back {p} v) = prev-InBounds p (Visited-InBounds v)
Visited-InBounds (goes_on {p} v) =
    let (page, shown, out) = Visited-InBounds v in
    refresh-InBounds (record p { log_page = p.log_page + 1 }) (omega arith, shown, out)
Visited-InBounds (hears {p} v seq logs h) = answered-InBounds p seq logs h (Visited-InBounds v)
Visited-InBounds (fails {p} v seq) =
    let (page, shown, out) = Visited-InBounds v in
    (page, shown, drop-IsOut p.log_refresh_seq seq p.asked out)

newer :
    (p : LogPane) (seq : ℕ) (logs : LogsAnswer)
    → shown_seq p ≤ p.log_refresh_seq
    → shown_seq p ≤ shown_seq (answered seq logs p)
unfolding answered render_logs
newer p seq logs h = elim (Bool-cases (seq == p.log_refresh_seq)) [
  | inl last ↦ let same : seq ≡ p.log_refresh_seq = ground arith in rw last (omega (arith, h, same))
  | inr older ↦ rw older (omega arith)
]

-- Whatever the timer, the buttons and the answers do in whatever order, where the server's pages
-- count from 1: a page from 1 on is asked for, the answer shown is of a request that was made, and
-- no answer that comes replaces it by that of an older request.
pub Visited-ShowsInOrder : (p : LogPane) → Visited p → ShowsInOrder p
Visited-ShowsInOrder p v =
    let (page, shown, out) = Visited-InBounds v in
    record {
      page_from_one = page;
      shown_asked = shown;
      asked_known = out;
      never_older = λ seq logs. newer p seq logs shown;
    }
