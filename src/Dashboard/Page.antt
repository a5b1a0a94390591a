-- ===== src/Dashboard/Page.antt =====
-- public/app.js: the lines of the log, and which answers of the server are rendered. A request is
-- known by its number; answers come in any order, and a request may fail.
pub mod Latest
use pl_backend_sdk_demo.Prelude.{
  ℕ, suc, ◌+◌, ◌-◌, Bool, true, false, not, Option, none, some, List, [], ◌∷◌, ◌++◌, Text, codes,
  to_decimal, leb, ltb, ◌==◌, if◌then◌else◌,
}

abbrev pub dash : ℕ
dash = 0x2014

abbrev pub arrow : ℕ
arrow = 0x2192

unfoldable pub format_account_index : Option ℕ → Text
format_account_index none = []
format_account_index (some index) = b'#' ∷ to_decimal index

abbrev pub both_or_one : Text → Text → Text
both_or_one [] to = to
both_or_one (c ∷ from) [] = c ∷ from
both_or_one (c ∷ from) (d ∷ to) = (c ∷ from) ++ b' ' ∷ arrow ∷ b' ' ∷ d ∷ to

unfoldable pub format_log_parties : Option ℕ → Option ℕ → Text
format_log_parties from to = both_or_one (format_account_index from) (format_account_index to)

-- `text ? prefix + text : ""`
abbrev pub after : Text → Text → Text
after prefix [] = []
after prefix (c ∷ s) = prefix ++ c ∷ s

abbrev pub or_empty : Option Text → Text
or_empty none = []
or_empty (some s) = s

pub record LogItem : Type 0 where
  pub at : Text
  pub kind : Text
  pub message : Text
  pub from_index : Option ℕ
  pub to_index : Option ℕ
  pub tx_id : Option Text
  pub error : Option Text

unfoldable pub format_log_line : LogItem → Text
format_log_line entry =
    let parties = format_log_parties entry.from_index entry.to_index in
    entry.at
    ++ codes " ["
    ++ entry.kind
    ++ codes "]"
    ++ after (codes " ") parties
    ++ b' ' ∷ entry.message
    ++ after (codes " ") (or_empty entry.tx_id)
    ++ after (b' ' ∷ dash ∷ b' ' ∷ []) (or_empty entry.error)

-- The minutes of an interval, by their text.
unfoldable pub format_interval : Option Text → Text
format_interval none = dash ∷ []
format_interval (some []) = dash ∷ []
format_interval (some (c ∷ minutes)) = codes "Every " ++ c ∷ minutes ++ codes " min"

-- The error of `api` for a response that is not ok: `body.message || body.error || statusText`.
abbrev pub text_or : Text → Text → Text
text_or [] other = other
text_or (c ∷ s) other = c ∷ s

unfoldable pub api_error : Option Text → Option Text → Text → Text
api_error message error status_text =
    text_or (or_empty message) (text_or (or_empty error) status_text)

-- What an answer of `/api/state` says of the log.
pub record LogsAnswer : Type 0 where
  pub page : ℕ
  pub page_count : ℕ
  pub total : ℕ
  pub lines : List LogItem

-- `shown` is the answer on the page, with the number of its request; `asked` are the requests that no
-- answer has come to.
pub record LogPane : Type 0 where
  pub log_page : ℕ
  pub log_refresh_seq : ℕ
  pub asked : List (ℕ × ℕ)
  pub shown : Option (ℕ × LogsAnswer)

abbrev pub opened : LogPane
opened = record { log_page = 1; log_refresh_seq = 0; asked = []; shown = none }

-- `refresh` up to its `await`.
unfoldable pub refresh : LogPane → LogPane
refresh p = record p {
  log_refresh_seq = suc p.log_refresh_seq;
  asked = (suc p.log_refresh_seq, p.log_page) ∷ p.asked;
}

unfoldable pub render_logs : ℕ → LogsAnswer → LogPane → LogPane
render_logs seq logs p = record p { log_page = logs.page; shown = some (seq, logs) }

abbrev pub drop_asked : ℕ → List (ℕ × ℕ) → List (ℕ × ℕ)
drop_asked seq [] = []
drop_asked seq ((n, page) ∷ asked) = if n == seq then asked else (n, page) ∷ drop_asked seq asked

-- `refresh` after its `await`: the answer to a request, or its failure.
unfoldable pub answered : ℕ → LogsAnswer → LogPane → LogPane
answered seq logs p =
    let q = record p { asked = drop_asked seq p.asked } in
    if not (seq == p.log_refresh_seq) then q else render_logs seq logs q

unfoldable pub request_failed : ℕ → LogPane → LogPane
request_failed seq p = record p { asked = drop_asked seq p.asked }

-- The two buttons.
unfoldable pub logs_prev : LogPane → LogPane
logs_prev p = if leb p.log_page 1 then p else refresh (record p { log_page = p.log_page - 1 })

unfoldable pub logs_next : LogPane → LogPane
logs_next p = refresh (record p { log_page = p.log_page + 1 })

abbrev pub prev_disabled : LogsAnswer → Bool
prev_disabled logs = leb logs.page 1

abbrev pub next_disabled : LogsAnswer → Bool
next_disabled logs = leb logs.page_count logs.page
