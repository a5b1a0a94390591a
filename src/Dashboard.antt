-- ===== src/Dashboard.antt =====
-- dashboard/dashboard-view.ts and dashboard.controller.ts, over ports for the services; Page is the
-- script of public/app.js.
pub mod Page
use pl_backend_sdk_demo.Prelude.{
  ℕ, Bool, true, false, ◌||◌, Option, none, some, List, [], ◌∷◌, map, find, ℤ, pos, Text, codes,
  text_eq, if◌then◌else◌, Result, ok, thrown, Exec, pure, lift, ◌>>=◌,
}
use pl_backend_sdk_demo.Money.{Floats, number, xlm_to_stroops, stroops_to_xlm}
use pl_backend_sdk_demo.Persistence.{HdAccount, SimulatorRow, SimulatorStatus}
use pl_backend_sdk_demo.ProtocolFee.Request.{Kind, transfer}
use pl_backend_sdk_demo.ProtocolFee.Quote.{ProtocolFeeQuote}
use pl_backend_sdk_demo.ProtocolFee.Spend.{required_fee_stroops}
use pl_backend_sdk_demo.Notes.Spendable.{big_int_or_throw, is_text}
use pl_backend_sdk_demo.Notes.Delivery.{nonempty}
use pl_backend_sdk_demo.OperationLog.{
  Numbers, LogRow, LogPage, log_page_count, log_page_size, parse_positive_int,
}

abbrev pub index_of : Option HdAccount → Option ℕ
index_of none = none
index_of (some a) = some a.hd_index

abbrev pub has_either_address : Text → HdAccount → Bool
has_either_address address a = text_eq a.public_key address || is_text a.private_address address

abbrev pub index_at : Option Text → List HdAccount → Option ℕ
index_at none accounts = none
index_at (some address) accounts = index_of (find (has_either_address address) accounts)

-- A null or an empty address has no index.
abbrev pub present : Option Text → Option Text
present none = none
present (some s) = nonempty s

unfoldable pub account_index_for_address : Option Text → List HdAccount → Option ℕ
account_index_for_address address accounts = index_at (present address) accounts

pub record AccountView : Type 0 where
  pub index : ℕ
  pub public_key : Text
  pub private_address : Option Text
  pub funded : Bool
  pub registered : Bool
  pub private_balance_xlm : Text
  pub sent_count : Text
  pub sent_volume_xlm : Text

pub record LogView : Type 0 where
  pub at : Text
  pub kind : Text
  pub message : Text
  pub from_address : Option Text
  pub to_address : Option Text
  pub from_index : Option ℕ
  pub to_index : Option ℕ
  pub tx_id : Option Text
  pub error : Option Text

-- `page_count` is none where it is infinite.
pub record LogsView : Type 0 where
  pub page : ℕ
  pub page_size : ℕ
  pub total : ℕ
  pub page_count : Option ℕ
  pub items : List LogView

pub record StateView (F : Type 0) : Type 0 where
  pub status : SimulatorStatus
  pub asset_id : Text
  pub interval_minutes : F
  pub tx_amount_xlm : Text
  pub protocol_fee_xlm : Option Text
  pub transaction_count : Text
  pub total_volume_xlm : Text
  pub accounts : List AccountView
  pub logs : LogsView

pub record DashboardPorts (F W : Type 0) : Type 0 where
  pub get_state : Exec W (SimulatorRow F)
  pub list : Exec W (List HdAccount)
  pub quote_or_undefined : Kind → ℤ → Exec W (Option ProtocolFeeQuote)
  pub page : ℕ → ℕ → Exec W LogPage
  pub private_balance_stroops : Text → Exec W ℤ
  -- `at.toISOString()`
  pub iso : ℕ → Text

pub record DashboardEnv (F : Type 0) : Type 0 where
  pub asset_id : Text
  pub tx_interval_minutes : F
  pub tx_amount_xlm : F

-- The fee of a quote, if there is one, in XLM.
unfoldable pub fee_xlm : Option ProtocolFeeQuote → Result (Option Text)
fee_xlm none = ok none
fee_xlm (some quote) = elim (required_fee_stroops quote.required_fee) [
  | thrown e ↦ thrown e
  | ok fee ↦ ok (some (stroops_to_xlm fee))
]

unfoldable pub log_view : (ℕ → Text) → List HdAccount → LogRow → LogView
log_view iso accounts r = record {
  at = iso r.at;
  kind = r.entry.kind;
  message = r.entry.message;
  from_address = r.entry.from_address;
  to_address = r.entry.to_address;
  from_index = account_index_for_address r.entry.from_address accounts;
  to_index = account_index_for_address r.entry.to_address accounts;
  tx_id = r.entry.tx_id;
  error = r.entry.error;
}

module _ (floats : Floats) (numbers : Numbers) {W : Type 0} (ports : DashboardPorts floats.Float W)
    (env : DashboardEnv floats.Float) where
  -- One turn of the loop over the accounts; an account that is not registered has no balance.
  abbrev pub balance_of : HdAccount → Exec W ℤ
  balance_of a = if a.registered then ports.private_balance_stroops a.public_key else pure (pos 0)

  abbrev pub view_with : HdAccount → ℤ → ℤ → AccountView
  view_with a balance volume = record {
    index = a.hd_index;
    public_key = a.public_key;
    private_address = a.private_address;
    funded = a.funded;
    registered = a.registered;
    private_balance_xlm = stroops_to_xlm balance;
    sent_count = a.sent_count;
    sent_volume_xlm = stroops_to_xlm volume;
  }

  unfoldable pub account_view : HdAccount → Exec W AccountView
  account_view a = balance_of a >>= λ balance.
      lift (big_int_or_throw a.sent_volume_stroops) >>= λ volume. pure (view_with a balance volume)

  unfoldable pub account_views : List HdAccount → Exec W (List AccountView)
  account_views [] = pure []
  account_views (a ∷ accounts) =
      account_view a >>= λ view. account_views accounts >>= λ views. pure (view ∷ views)

  abbrev pub logs_view : List HdAccount → ℕ → LogPage → LogsView
  logs_view accounts page_size p = record {
    page = p.page;
    page_size = page_size;
    total = p.total;
    page_count = log_page_count p.total page_size;
    items = map (log_view ports.iso accounts) p.items;
  }

  unfoldable pub state : Option Text → Option Text → Exec W (StateView floats.Float)
  state log_page_raw log_limit_raw = do
    simulator ← ports.get_state
    accounts ← ports.list
    amount ← lift (xlm_to_stroops floats (number env.tx_amount_xlm))
    quote ← ports.quote_or_undefined transfer amount
    fee ← lift (fee_xlm quote)
    let page_size = log_page_size numbers log_limit_raw
    logs ← ports.page (parse_positive_int numbers log_page_raw 1) page_size
    views ← account_views accounts
    volume ← lift (big_int_or_throw simulator.total_volume_stroops)
    pure (record {
      status = simulator.status;
      asset_id = env.asset_id;
      interval_minutes = env.tx_interval_minutes;
      tx_amount_xlm = floats.show env.tx_amount_xlm;
      protocol_fee_xlm = fee;
      transaction_count = simulator.transaction_count;
      total_volume_xlm = stroops_to_xlm volume;
      accounts = views;
      logs = logs_view accounts page_size logs;
    })
