-- ===== src/Accounts/Friendbot.antt =====
-- accounts/friendbot.ts.
use pl_backend_sdk_demo.Prelude.{
  ℕ, ◌+◌, ◌-◌, ◌/◌, ◌%◌, ◌≡◌, refl, ap, ◌∙◌, Bool, true, false, ◌||◌, ◌&&◌, inl, inr, [], ◌∷◌, ◌++◌,
  Text, codes, leb, ltb, ◌==◌, to_decimal, if◌then◌else◌, Bool-cases, plain_error, Result, ok,
  thrown, Exec, pure, raise, ◌>>=◌, continue,
}
use pl_backend_sdk_demo.Json.{Json, undef, obj, get, is_text}
use pl_backend_sdk_demo.Web.{HttpResponse, is_ok}

abbrev pub Fetch : Type 0 → Type 0
Fetch W = Text → Exec W HttpResponse

pub data FriendbotFundingResult : Type 0 where
  funded already_funded : FriendbotFundingResult

abbrev pub already_funded_detail : Text
already_funded_detail = codes "account already funded to starting balance"

-- `url.replace(/\/$/u, "")`
unfoldable pub without_slash : Text → Text
without_slash [] = []
without_slash (c ∷ []) = if c == b'/' then [] else c ∷ []
without_slash (c ∷ d ∷ s) = c ∷ without_slash (d ∷ s)

abbrev upper_hex : ℕ → ℕ
upper_hex d = if ltb d 10 then b'0' + d else b'A' + (d - 10)

abbrev percent : ℕ → Text
percent byte = b'%' ∷ upper_hex (byte / 16) ∷ upper_hex (byte % 16) ∷ []

abbrev is_unreserved : ℕ → Bool
is_unreserved c =
    (leb b'a' c && leb c b'z')
    || (leb b'A' c && leb c b'Z')
    || (leb b'0' c && leb c b'9')
    || c == b'-'
    || c == b'_'
    || c == b'.'
    || c == b'!'
    || c == b'~'
    || c == b'*'
    || c == 39
    || c == b'('
    || c == b')'

abbrev encode_unit : ℕ → Text
encode_unit c =
    if is_unreserved c
    then c ∷ []
    else if ltb c 128
    then percent c
    else if ltb c 2048
    then percent (192 + c / 64) ++ percent (128 + c % 64)
    else percent (224 + c / 4096) ++ percent (128 + c / 64 % 64) ++ percent (128 + c % 64)

-- `encodeURIComponent(text)` of a text without surrogates.
unfoldable pub encode_uri_component : Text → Text
encode_uri_component [] = []
encode_uri_component (c ∷ s) = encode_unit c ++ encode_uri_component s

-- `await response.json()`, or undefined where it throws.
abbrev pub body_of : Result Json → Json
body_of (ok v) = v
body_of (thrown e) = undef

abbrev pub says_already_funded : Json → Bool
says_already_funded (obj t) = is_text (get (codes "detail") t) already_funded_detail
says_already_funded _ = false

module _ {W : Type 0} (fetch : Fetch W) where
  abbrev pub read_answer : HttpResponse → Exec W FriendbotFundingResult
  read_answer response =
      if is_ok response
      then pure funded
      else if response.status == 400
      then (if says_already_funded (body_of response.json)
          then pure already_funded
          else pure already_funded)
      else raise (plain_error (codes "Friendbot error: " ++ to_decimal response.status))

  unfoldable pub fund_native_via_friendbot : Text → Text → Exec W FriendbotFundingResult
  fund_native_via_friendbot public_key friendbot_url =
      fetch (without_slash friendbot_url ++ codes "?addr=" ++ encode_uri_component public_key)
      >>= read_answer

-- What an answer counts as, by its status alone.
abbrev pub outcome : ℕ → Result FriendbotFundingResult
outcome status =
    if leb 200 status && leb status 299
    then ok funded
    else if status == 400
    then ok already_funded
    else thrown (plain_error (codes "Friendbot error: " ++ to_decimal status))

same_either_way :
    {W : Type 0} (b : Bool) (w : W)
    → (if b then pure {S = W} already_funded else pure already_funded) w ≡ (ok already_funded, w)
same_either_way true w = refl
same_either_way false w = refl

answered :
    {W : Type 0} (fetch : Fetch W) (response : HttpResponse) (w : W)
    → read_answer fetch response w ≡ (outcome response.status, w)
answered fetch response w = elim (Bool-cases (is_ok response)) [
  | inl accepted ↦ rw accepted refl
  | inr refused ↦ elim (Bool-cases (response.status == 400)) [
    | inl bad ↦
        rw refused (rw bad (same_either_way (says_already_funded (body_of response.json)) w))
    | inr other ↦ rw refused (rw other refl)
  ]
]

-- An answer of Friendbot, whatever its body says, counts as funded for a status in the two hundreds, as
-- already funded for any 400, and as a failure for any other.
pub friendbot_outcome :
    {W : Type 0} (fetch : Fetch W) (public_key friendbot_url : Text) (w v : W)
    (response : HttpResponse)
    → fetch (without_slash friendbot_url ++ codes "?addr=" ++ encode_uri_component public_key) w
      ≡ (ok response, v)
    → fund_native_via_friendbot fetch public_key friendbot_url w ≡ (outcome response.status, v)
unfolding fund_native_via_friendbot
friendbot_outcome fetch public_key friendbot_url w v response e =
    ap (continue (read_answer fetch)) e ∙ answered fetch response v
