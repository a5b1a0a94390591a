-- ===== src/ProtocolFee/Quote/Sound.antt =====
-- privacy/protocol-fee/quote-protocol-fee.ts: the fields of a quote that is returned.
use pl_backend_sdk_demo.Prelude.{
  ℕ, ◌≡◌, refl, ◌≢◌, true, List, [], ◌∷◌, pos, Text, Result, ok, thrown, arith, AllDigits, codes,
  Bool-cases, inl, inr, Post, Anyway, Post-lift, Post-pure, Post-raise, raise, plain_error, ◌++◌,
  if◌then◌else◌, big_int_of_digits, Option,
}
use pl_backend_sdk_demo.Json.{Json, stringify}
use pl_backend_sdk_demo.Web.{HttpRequest, HttpResponse, Server, field_of, is_ok}
use pl_backend_sdk_demo.ProtocolFee.Request.{QuoteRequest}
use pl_backend_sdk_demo.ProtocolFee.Spend.{required_fee_stroops}
use pl_backend_sdk_demo.ProtocolFee.Quote.{
  ProtocolFeeQuote, required_text, require_quote_string, digits_only, all_digits,
  parse_required_fee, read_quote, or_undefined, quote_protocol_fee,
}

-- Every field is there, and the fee is a text of digits.
pub record IsSound (q : ProtocolFeeQuote) : Type 0 where
  pub fee_digits : AllDigits q.required_fee
  pub fee_present : q.required_fee ≢ []
  pub asset_present : q.fee_asset ≢ []
  pub collector_present : q.fee_collector_private_address ≢ []
  pub rate_present : q.fee_rate ≢ []

all_digits-AllDigits : (s : Text) → all_digits s ≡ true → AllDigits s
unfolding all_digits
all_digits-AllDigits [] h = tt
all_digits-AllDigits (c ∷ s) h = ground (arith, all_digits-AllDigits s)

required_text-ne-nil : (t name s : Text) → required_text t name ≡ ok s → s ≢ []
unfolding required_text
required_text-ne-nil [] name s e = cc
required_text-ne-nil (c ∷ t) name s e = λ k. cc

require_quote_string-ne-nil :
    (raw : Json) (name s : Text) → require_quote_string raw name ≡ ok s → s ≢ []
unfolding require_quote_string
require_quote_string-ne-nil raw name s e = required_text-ne-nil _ name s e

digits_only-AllDigits :
    (r : Result Text) (s : Text)
    → ((t : Text) → r ≡ ok t → t ≢ [])
    → digits_only r ≡ ok s
    → AllDigits s × (s ≢ [])
unfolding digits_only
digits_only-AllDigits (thrown x) s h e = cc
digits_only-AllDigits (ok t) s h e = elim (Bool-cases (all_digits t)) [
  | inl yes_digits ↦
      let same : t ≡ s = ground arith in rw (← same) (all_digits-AllDigits t yes_digits, h t refl)
  | inr other ↦ ground arith
]

parse_required_fee-AllDigits :
    (raw : Json) (s : Text) → parse_required_fee raw ≡ ok s → AllDigits s × (s ≢ [])
unfolding parse_required_fee
parse_required_fee-AllDigits raw s e =
    digits_only-AllDigits _ s (require_quote_string-ne-nil raw _) e

abbrev pub Sound : {S : Type 0} → Result ProtocolFeeQuote × S → Type 0
Sound = Post (λ q _. IsSound q) Anyway

read_quote-Sound : {S : Type 0} (payload : Json) (s : S) → Sound (read_quote payload s)
unfolding read_quote
read_quote-Sound payload s =
    Post-lift (field_of payload _) _ s (λ _ _. tt)
      λ raw_fee _.
        Post-lift (parse_required_fee raw_fee) _ s (λ _ _. tt)
          λ fee fee_read.
            Post-lift (field_of payload _) _ s (λ _ _. tt)
              λ raw_asset _.
                Post-lift (require_quote_string raw_asset _) _ s (λ _ _. tt)
                  λ asset asset_read.
                    Post-lift (field_of payload _) _ s (λ _ _. tt)
                      λ raw_collector _.
                        Post-lift (require_quote_string raw_collector _) _ s (λ _ _. tt)
                          λ collector collector_read.
                            Post-lift (field_of payload _) _ s (λ _ _. tt)
                              λ raw_rate _.
                                Post-lift (require_quote_string raw_rate _) _ s (λ _ _. tt)
                                  λ rate rate_read. Post-pure _ s (record {
                                    fee_digits =
                                        (parse_required_fee-AllDigits raw_fee fee fee_read).0;
                                    fee_present =
                                        (parse_required_fee-AllDigits raw_fee fee fee_read).1;
                                    asset_present =
                                        require_quote_string-ne-nil raw_asset _ asset asset_read;
                                    collector_present =
                                        require_quote_string-ne-nil raw_collector _ collector
                                          collector_read;
                                    rate_present =
                                        require_quote_string-ne-nil raw_rate _ rate rate_read;
                                  })

answer-Sound :
    {S : Type 0} (response : HttpResponse) (payload : Json) (s : S)
    → Sound (
        (if is_ok response
            then read_quote payload
            else raise
                (plain_error (codes "Fee Quote failed: " ++ or_undefined (stringify payload))))
          s)
answer-Sound response payload s = elim (Bool-cases (is_ok response)) [
  | inl accepted ↦ rw accepted (read_quote-Sound payload s)
  | inr refused ↦ rw refused (Post-raise _ s tt)
]

-- A quote that is returned, whatever the server answers, has all its fields, and its fee is a text of
-- digits.
pub quote_protocol_fee-Sound :
    (server : Server) (base : Text) (request : QuoteRequest) (token : Option Text)
    (s : List HttpRequest)
    → Sound (quote_protocol_fee server base request token s)
unfolding quote_protocol_fee
quote_protocol_fee-Sound server base request token s =
    Post-lift (server s _) _ _ (λ _ _. tt)
      λ response _.
        Post-lift response.json _ _ (λ _ _. tt) λ payload _. answer-Sound response payload _

-- The fee of a quote that has all its fields and a text of digits as its fee is read without a throw,
-- and is not negative.
pub required_fee_stroops_of_IsSound :
    (q : ProtocolFeeQuote)
    → IsSound q
    → (n : ℕ) × (required_fee_stroops q.required_fee ≡ ok (pos n))
unfolding required_fee_stroops
required_fee_stroops_of_IsSound q h =
    let (n, e) = big_int_of_digits q.required_fee h.fee_digits h.fee_present in
    (n, rw (e, required_fee_stroops) refl)
