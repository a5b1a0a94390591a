-- ===== src/Tests/Fees.antt =====
-- Amounts and protocol fees.
use pl_backend_sdk_demo.Prelude.{
  ◌≡◌, refl, none, some, [], pos, negsuc, Text, codes, text_eq, lookup, numbers, ok, Post, arith,
  is_white, trim, trim_start, trim_end,
}
use pl_backend_sdk_demo.Json.{show, str, obj, Tree, end, field, get}
use pl_backend_sdk_demo.Web.{Server, field_of}
use pl_backend_sdk_demo.Money.{stroops_to_xlm}
use pl_backend_sdk_demo.Money.RoundTrip.{read_fixed, read_fixed-stroops_to_xlm}
use pl_backend_sdk_demo.ProtocolFee.Request.{transfer, protocol_fee_quote_request}
use pl_backend_sdk_demo.ProtocolFee.Quote.{
  ProtocolFeeQuote, quote_protocol_fee, fetch, read_quote, parse_required_fee, digits_only,
  require_quote_string, required_text, all_digits,
}
use pl_backend_sdk_demo.ProtocolFee.Quote.Sound.{IsSound, Sound, quote_protocol_fee-Sound}
use pl_backend_sdk_demo.ProtocolFee.Service.{FeeEnv, FeeState, cache_key, quote, answer, ask, store}
use pl_backend_sdk_demo.ProtocolFee.Service.Cache.{CacheIsSound, quote-IsSound}

read_fixed-stroops_to_xlm_example :
    read_fixed (stroops_to_xlm (negsuc 12_345_678)) ≡ some (negsuc 12_345_678)
read_fixed-stroops_to_xlm_example = read_fixed-stroops_to_xlm (negsuc 12_345_678)

abbrev token : Text
token = codes "CDLZ"

-- A server that answers every request with the same quote.
abbrev payload : Tree
payload = field (codes "requiredFee") (str (codes "25")) (
    field (codes "feeAsset") (str token) (
      field (codes "feeCollectorPrivateAddress") (str (codes "tpl1"))
        (field (codes "feeRate") (str (codes "0.1")) end)))

abbrev server : Server
server sent request = ok (record { status = 200; text = []; json = ok (obj payload) })

abbrev env : FeeEnv
env = record {
  token_contract = token;
  kyt_api_base_url = codes "https://kyt";
  kyt_inspect_token = some (codes " secret ");
}

abbrev fresh : FeeState
fresh = record { cache = []; sent = [] }

abbrev served : ProtocolFeeQuote
served = record {
  required_fee = codes "25";
  fee_asset = token;
  fee_collector_private_address = codes "tpl1";
  fee_rate = codes "0.1";
}

quote_protocol_fee-Sound_example : Sound (
    quote_protocol_fee server
      (codes "https://kyt")
      (protocol_fee_quote_request transfer token (codes "5"))
      none
      [])
quote_protocol_fee-Sound_example =
    quote_protocol_fee-Sound server (codes "https://kyt")
      (protocol_fee_quote_request transfer token (codes "5")) none []

served-IsSound : IsSound served
served-IsSound = record {
  fee_digits = ((omega arith, omega arith), ((omega arith, omega arith), tt));
  fee_present = λ e. absurd (cc);
  asset_present = λ e. absurd (cc);
  collector_present = λ e. absurd (cc);
  rate_present = λ e. absurd (cc);
}

quote-IsSound_example :
    Post
      (λ q t. IsSound q × CacheIsSound t)
      (λ _ t. CacheIsSound t)
      (quote server env transfer (pos 5) fresh)
quote-IsSound_example = quote-IsSound server env transfer (pos 5) fresh tt

-- The answer is served.
abbrev after_quote : FeeState
after_quote = (quote server env transfer (pos 5) fresh).1

quote_is_served : quote server env transfer (pos 5) fresh ≡ (ok served, after_quote)
unfolding quote answer ask store fetch quote_protocol_fee read_quote parse_required_fee digits_only
    require_quote_string required_text all_digits field_of get text_eq lookup trim is_white
    trim_start trim_end numbers cache_key show
quote_is_served = refl
