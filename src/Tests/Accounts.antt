-- ===== src/Tests/Accounts.antt =====
-- Accounts, the operation log and the configuration.
use pl_backend_sdk_demo.Prelude.{
  ℕ, ◌≡◌, refl, true, none, some, List, [], ◌∷◌, ◌++◌, map, Text, codes, text_eq, length, ok, Exec,
  ltb, arith,
}
use pl_backend_sdk_demo.Json.{str, obj, end, field, get, is_text}
use pl_backend_sdk_demo.Web.{HttpResponse}
use pl_backend_sdk_demo.Config.{require_decimal_application_id}
use pl_backend_sdk_demo.Persistence.{HdAccount}
use pl_backend_sdk_demo.Accounts
use pl_backend_sdk_demo.Accounts.{Accounts, setup}
use pl_backend_sdk_demo.Accounts.Friendbot.{
  Fetch, fund_native_via_friendbot, outcome, friendbot_outcome,
}
use pl_backend_sdk_demo.Accounts.Setup.{indices, setup-indices}
use pl_backend_sdk_demo.OperationLog.{Numbers, LogRow, log_page_count}
use pl_backend_sdk_demo.OperationLog.Pages.{pages, pages-newest_first}

-- A Friendbot that refuses, and not because the account is funded.
abbrev refusal : HttpResponse
refusal = record {
  status = 400;
  text = [];
  json = ok (obj (field (codes "detail") (str (codes "invalid address")) end));
}

abbrev fetch : Fetch (Unit {0})
fetch url w = (ok refusal, w)

friendbot_outcome_example :
    fund_native_via_friendbot fetch (codes "GA") (codes "https://friendbot/") tt ≡ (outcome 400, tt)
friendbot_outcome_example =
    friendbot_outcome fetch (codes "GA") (codes "https://friendbot/") tt tt refusal refl

abbrev mark : HdAccount → List HdAccount → List HdAccount
mark a table = Accounts.save_row (record a { registered = true }) table

abbrev register : HdAccount → Exec (Accounts (Unit {0})) (Unit {0})
register a s = (ok tt, record s { table = mark a s.table })

abbrev empty : Accounts (Unit {0})
empty = record { table = []; world = tt }

abbrev keys : List Text
keys = codes "GA" ∷ codes "GB" ∷ []

abbrev registered_row : ℕ → Text → HdAccount
registered_row i key = record (Accounts.new_row i key) { funded = true; registered = true }

abbrev both : List HdAccount
both = registered_row 0 (codes "GA") ∷ registered_row 1 (codes "GB") ∷ []

setup_returns :
    setup fetch (codes "https://friendbot/") register keys empty
    ≡ (ok both, record { table = both; world = tt })
unfolding setup Accounts.setup_from Accounts.setup_one Accounts.find_by_index Accounts.save_row
    fund_native_via_friendbot get is_text text_eq
setup_returns = refl

setup-indices_example : map (λ a. a.hd_index) both ≡ indices 0 keys
setup-indices_example =
    setup-indices fetch (codes "https://friendbot/") register keys empty
      (record { table = both; world = tt }) both setup_returns

abbrev digits : Numbers
digits = record {
  Number = ℕ;
  read = λ s. length s;
  is_finite = λ x. true;
  is_below_one = λ x. ltb x 1;
  floor = λ x. x;
  floor_positive = λ x h k. ground arith;
}

abbrev log_row : ℕ → LogRow
log_row n = record {
  at = n;
  entry = record {
    kind = codes "simulator";
    message = codes "Stopped";
    from_address = none;
    to_address = none;
    amount_stroops = none;
    tx_id = none;
    error = none;
  };
}

abbrev log_rows : List LogRow
log_rows = log_row 1 ∷ log_row 2 ∷ log_row 3 ∷ []

abbrev newest_first : List LogRow → List LogRow
newest_first [] = []
newest_first (r ∷ rows) = newest_first rows ++ r ∷ []

two_pages : log_page_count 3 2 ≡ some 2
unfolding log_page_count
two_pages = refl

pages-newest_first_example : pages newest_first 2 log_rows 2 ≡ newest_first log_rows
pages-newest_first_example = pages-newest_first newest_first log_rows 1 2 refl two_pages

accepted : require_decimal_application_id (codes "123") ≡ ok (codes "123")
unfolding require_decimal_application_id
accepted = refl
