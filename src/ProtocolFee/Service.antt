-- ===== src/ProtocolFee/Service.antt =====
-- privacy/protocol-fee/protocol-fee.service.ts. The state is the cache and the requests that were
-- sent, the newest first.
pub mod Cache
use pl_backend_sdk_demo.Prelude.{
  Option, none, some, List, ◌++◌, ◌∷◌, ℤ, Text, codes, big_text, Dict, lookup, insert, Result, ok,
  thrown, Exec, pure, modify, catch, ◌>>=◌, ◌>>◌,
}
use pl_backend_sdk_demo.Web.{HttpRequest, Server}
use pl_backend_sdk_demo.ProtocolFee.Request.{
  Kind, deposit, transfer, withdraw, protocol_fee_quote_request,
}
use pl_backend_sdk_demo.ProtocolFee.Quote.{
  ProtocolFeeQuote, kyt_inspect_authorization, quote_protocol_fee,
}

-- What the service reads of the environment.
pub record FeeEnv : Type 0 where
  pub token_contract : Text
  pub kyt_api_base_url : Text
  pub kyt_inspect_token : Option Text

pub record FeeState : Type 0 where
  pub cache : Dict ProtocolFeeQuote
  pub sent : List HttpRequest

abbrev pub kind_text : Kind → Text
kind_text deposit = codes "deposit"
kind_text transfer = codes "transfer"
kind_text withdraw = codes "withdraw"

unfoldable pub cache_key : FeeEnv → Kind → ℤ → Text
cache_key env kind instructed =
    kind_text kind ++ b':' ∷ (big_text instructed ++ b':' ∷ env.token_contract)

module _ (server : Server) (env : FeeEnv) where
  -- A call of `quoteProtocolFee` from the service.
  unfoldable pub ask : Kind → ℤ → Exec FeeState ProtocolFeeQuote
  ask kind instructed s =
      let (r, sent) =
        quote_protocol_fee server env.kyt_api_base_url
          (protocol_fee_quote_request kind env.token_contract (big_text instructed))
          (kyt_inspect_authorization env.kyt_inspect_token) s.sent in
      (r, record s { sent = sent })

  unfoldable pub store : Text → ProtocolFeeQuote → FeeState → FeeState
  store key q s = record s { cache = insert key q s.cache }

  unfoldable pub answer : Option ProtocolFeeQuote → Kind → ℤ → Exec FeeState ProtocolFeeQuote
  answer (some q) kind instructed = pure q
  answer none kind instructed = do
    q ← ask kind instructed
    modify (store (cache_key env kind instructed) q)
    pure q

  unfoldable pub quote : Kind → ℤ → Exec FeeState ProtocolFeeQuote
  unfolding answer ask store
  quote kind instructed s =
      answer (lookup (cache_key env kind instructed) s.cache) kind instructed s

  abbrev give : ProtocolFeeQuote → Exec FeeState (Option ProtocolFeeQuote)
  give q = pure (some q)

  unfoldable pub quote_or_undefined : Kind → ℤ → Exec FeeState (Option ProtocolFeeQuote)
  quote_or_undefined kind instructed = catch (quote kind instructed >>= give) λ _. pure none
