-- ===== src/ProtocolFee/Service/Cache.antt =====
-- privacy/protocol-fee/protocol-fee.service.ts: the cache of quotes and its keys.
use mathlib.Core.List.{append_cancel_right}
use pl_backend_sdk_demo.Prelude.{
  ℕ, ◌≡◌, refl, ◌≢◌, ◌⊎◌, inl, inr, List, [], ◌++◌, ◌∷◌, ℤ, Text, big_text, big_text-inj, lookup,
  insert, lookup-insert, text_eq_iff, Result, ok, thrown, AllValues, lookup-AllValues,
  insert-AllValues, Post, Post-bind, Post-pure, Post-raise, Post-weaken, continue, modify, pure,
  ◌>>◌, arith, Option-cases, drop, ap, ◌∙◌,
}
use pl_backend_sdk_demo.Web.{HttpRequest, Server}
use pl_backend_sdk_demo.ProtocolFee.Request.{Kind, deposit, transfer, withdraw}
use pl_backend_sdk_demo.ProtocolFee.Quote.{ProtocolFeeQuote}
use pl_backend_sdk_demo.ProtocolFee.Quote.Sound.{IsSound, Sound, quote_protocol_fee-Sound}
use pl_backend_sdk_demo.ProtocolFee.Service.{FeeEnv, FeeState, cache_key, ask, store, quote}

-- Every cached quote is sound.
abbrev pub CacheIsSound : FeeState → Type 0
CacheIsSound s = AllValues IsSound s.cache

abbrev first : Text → ℕ
first [] = 0
first (c ∷ s) = c

rest-inj :
    (env : FeeEnv) (y z : ℤ)
    → ◌≡◌ {A = Text}
        (big_text y ++ b':' ∷ env.token_contract)
        (big_text z ++ b':' ∷ env.token_contract)
    → y ≡ z
rest-inj env y z e = big_text-inj y z (append_cancel_right (big_text y) (big_text z) _ e)

-- Two keys are equal only for the same kind and amount.
pub cache_key-inj :
    (env : FeeEnv) (k j : Kind) (y z : ℤ)
    → cache_key env k y ≡ cache_key env j z
    → (k ≡ j) × (y ≡ z)
unfolding cache_key
cache_key-inj env deposit deposit y z e = (refl, rest-inj env y z (ap (drop 8) e))
cache_key-inj env transfer transfer y z e = (refl, rest-inj env y z (ap (drop 9) e))
cache_key-inj env withdraw withdraw y z e = (refl, rest-inj env y z (ap (drop 9) e))
cache_key-inj env _ _ y z e = absurd (omega (arith, ap first e))

abbrev Kept : FeeState → Result ProtocolFeeQuote × FeeState → Type 0
Kept s = Post (λ q t. IsSound q × (t.cache ≡ s.cache)) (λ _ t. t.cache ≡ s.cache)

module _ (server : Server) (env : FeeEnv) where
  sent-Kept :
      (s : FeeState) (r : Result ProtocolFeeQuote × List HttpRequest)
      → Sound r
      → Kept s (r.0, record s { sent = r.1 })
  sent-Kept s (ok q, sent) h = Post-pure q _ (h.returns q sent refl, refl)
  sent-Kept s (thrown e, sent) h = Post-raise e _ refl

  -- A request leaves the cache alone.
  ask-Kept : (kind : Kind) (z : ℤ) (s : FeeState) → Kept s (ask server env kind z s)
  unfolding ask
  ask-Kept kind z s = sent-Kept s _ (quote_protocol_fee-Sound server _ _ _ s.sent)

  -- If every cached quote has all its fields and a text of digits as its fee, so has a quote that is
  -- given out and every quote cached afterwards, also when the call throws.
  pub quote-IsSound :
      (kind : Kind) (z : ℤ) (s : FeeState)
      → CacheIsSound s
      → Post (λ q t. IsSound q × CacheIsSound t) (λ _ t. CacheIsSound t) (quote server env kind z s)
  unfolding quote
  quote-IsSound kind z s h = elim (Option-cases (lookup (cache_key env kind z) s.cache)) [
    | inl missed ↦ rw missed (
        Post-bind (ask server env kind z s) _
          (Post-weaken (ask-Kept kind z s) (λ _ _ kept. kept) (λ _ t same. rw same h))
          λ q t kept.
            Post-pure q _ (kept.0, insert-AllValues IsSound _ q t.cache kept.0 (rw kept.1 h)))
    | inr (q, found) ↦ rw found (Post-pure q s (lookup-AllValues IsSound _ q s.cache h found, h))
  ]

  -- A quote that was given out is given out again from the cache: the state stays as it is, so no
  -- request is sent.
  pub quote_again :
      (kind : Kind) (z : ℤ) (s t : FeeState) (q : ProtocolFeeQuote)
      → quote server env kind z s ≡ (ok q, t)
      → quote server env kind z t ≡ (ok q, t)
  unfolding quote
  quote_again kind z s t q e = ground (
    arith,
    lookup-insert (cache_key env kind z) (cache_key env kind z) q s.cache,
    text_eq_iff (cache_key env kind z) (cache_key env kind z),
  )

  abbrev Stored : Text → FeeState → FeeState → Type 0
  Stored key s t = (t.cache ≡ s.cache) ⊎ ((q : ProtocolFeeQuote) × (t.cache ≡ insert key q s.cache))

  sent-Stored :
      (key : Text) (s : FeeState) (r : Result ProtocolFeeQuote × List HttpRequest)
      → Stored key s
          (continue
            (λ q. modify (store server env key q) >> pure q)
            (r.0, record s { sent = r.1 })).1
  unfolding store
  sent-Stored key s (ok q, sent) = inr (q, refl)
  sent-Stored key s (thrown e, sent) = inl refl

  quote-Stored :
      (kind : Kind) (z : ℤ) (s : FeeState)
      → Stored (cache_key env kind z) s (quote server env kind z s).1
  unfolding quote
  quote-Stored kind z s = elim (Option-cases (lookup (cache_key env kind z) s.cache)) [
    | inl missed ↦ rw missed (sent-Stored _ s _)
    | inr (q, found) ↦ rw found (inl refl)
  ]

  -- A quote for one kind and amount leaves what is cached for any other alone.
  pub quote_frame :
      (k j : Kind) (y z : ℤ) (s : FeeState)
      → (k ≢ j) ⊎ (y ≢ z)
      → lookup (cache_key env j z) (quote server env k y s).1.cache
        ≡ lookup (cache_key env j z) s.cache
  quote_frame k j y z s h = elim (quote-Stored k y s) [
    | inl same ↦ ap (lookup (cache_key env j z)) same
    | inr (q, e) ↦
        ap (lookup (cache_key env j z)) e
        ∙ ground (
          arith,
          lookup-insert (cache_key env k y) (cache_key env j z) q s.cache,
          cache_key-inj env k j y z,
          text_eq_iff (cache_key env k y) (cache_key env j z),
        )
  ]
