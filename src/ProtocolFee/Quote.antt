-- ===== src/ProtocolFee/Quote.antt =====
-- privacy/protocol-fee/quote-protocol-fee.ts and privacy/kyt/kyt-inspect-auth.ts.
pub mod Sound
use pl_backend_sdk_demo.Prelude.{
  Bool, true, false, ◌&&◌, Option, none, some, List, [], ◌∷◌, ◌++◌, Text, codes, trim, Result, ok,
  thrown, plain_error, Exec, pure, raise, lift, ◌>>=◌, ◌>>◌, leb, if◌then◌else◌,
}
use pl_backend_sdk_demo.Json.{Json, undef, null, bool, str, obj, Tree, end, field, show, stringify}
use pl_backend_sdk_demo.Web.{HttpRequest, HttpResponse, is_ok, Server, field_of}
use pl_backend_sdk_demo.ProtocolFee.Request.{QuoteRequest}

pub record ProtocolFeeQuote : Type 0 where
  pub required_fee : Text
  pub fee_asset : Text
  pub fee_collector_private_address : Text
  pub fee_rate : Text

-- A text that counts as absent when it is empty.
abbrev pub nonempty : Text → Option Text
nonempty [] = none
nonempty (c ∷ s) = some (c ∷ s)

abbrev trimmed : Option Text → Option Text
trimmed none = none
trimmed (some s) = nonempty (trim s)

-- `kytInspectAuthorization`
unfoldable pub kyt_inspect_authorization : Option Text → Option Text
kyt_inspect_authorization inspect_token = trimmed inspect_token

unfoldable pub quote_headers : Option Text → List (Text × Text)
quote_headers inspect_authorization =
    (codes "content-type", codes "application/json") ∷ (elim (trimmed inspect_authorization) [
      | none ↦ []
      | some token ↦ (codes "authorization", codes "Bearer " ++ token) ∷ []
    ])

-- `${raw ?? ""}`
abbrev template : Json → Text
template undef = []
template null = []
template v = show v

unfoldable pub required_text : Text → Text → Result Text
required_text [] name = thrown (plain_error (codes "Fee Quote is missing " ++ name ++ codes "."))
required_text (c ∷ s) name = ok (c ∷ s)

unfoldable pub require_quote_string : Json → Text → Result Text
unfolding required_text
require_quote_string raw name = required_text (trim (template raw)) name

-- /^\d+$/ on a text that is not empty.
unfoldable pub all_digits : Text → Bool
all_digits [] = true
all_digits (c ∷ s) = (leb b'0' c && leb c b'9') && all_digits s

unfoldable pub digits_only : Result Text → Result Text
digits_only (ok s) =
    if all_digits s
    then ok s
    else thrown (plain_error (codes "Fee Quote Required Fee must be an integer minor-unit string."))
digits_only (thrown e) = thrown e

unfoldable pub parse_required_fee : Json → Result Text
unfolding digits_only
parse_required_fee raw = digits_only (require_quote_string raw (codes "Required Fee"))

-- `JSON.stringify(request)`: an absent amount is left out.
abbrev amount_field : Text → Option Text → Tree → Tree
amount_field k none t = t
amount_field k (some s) t = field k (str s) t

request_tree : QuoteRequest → Tree
request_tree r = field (codes "feeAsset") (str r.fee_asset) (
    field (codes "spendsNotes") (bool r.spends_notes) (
      amount_field (codes "publicDepositAmount") r.public_deposit_amount (
        amount_field (codes "transferInstructedAmount") r.transfer_instructed_amount
          (amount_field (codes "publicWithdrawalAmount") r.public_withdrawal_amount end))))

unfoldable pub quote_http_request : Text → QuoteRequest → Option Text → HttpRequest
unfolding request_tree
quote_http_request api_base_url request inspect_authorization = record {
  url = api_base_url ++ codes "/kyt/fees/quote";
  method = codes "POST";
  headers = quote_headers inspect_authorization;
  body = stringify (obj (request_tree request));
}

-- `${JSON.stringify(payload)}`
abbrev pub or_undefined : Option Text → Text
or_undefined none = codes "undefined"
or_undefined (some s) = s

module _ {S : Type 0} where
  -- The quote that is read from the payload.
  unfoldable pub read_quote : Json → Exec S ProtocolFeeQuote
  read_quote payload = do
    raw_fee ← lift (field_of payload (codes "requiredFee"))
    required_fee ← lift (parse_required_fee raw_fee)
    raw_asset ← lift (field_of payload (codes "feeAsset"))
    fee_asset ← lift (require_quote_string raw_asset (codes "Fee Asset"))
    raw_collector ← lift (field_of payload (codes "feeCollectorPrivateAddress"))
    collector ← lift (require_quote_string raw_collector (codes "Fee Collector Private Address"))
    raw_rate ← lift (field_of payload (codes "feeRate"))
    fee_rate ← lift (require_quote_string raw_rate (codes "Fee Rate"))
    pure (record {
      required_fee = required_fee;
      fee_asset = fee_asset;
      fee_collector_private_address = collector;
      fee_rate = fee_rate;
    })

module _ (server : Server) where
  unfoldable pub fetch : HttpRequest → Exec (List HttpRequest) HttpResponse
  fetch request sent = (server sent request, request ∷ sent)

  unfoldable pub quote_protocol_fee :
      Text → QuoteRequest → Option Text → Exec (List HttpRequest) ProtocolFeeQuote
  unfolding fetch
  quote_protocol_fee api_base_url request inspect_authorization = do
    response ← fetch (quote_http_request api_base_url request inspect_authorization)
    payload ← lift response.json
    if is_ok response
        then read_quote payload
        else raise (plain_error (codes "Fee Quote failed: " ++ or_undefined (stringify payload)))
