-- ===== src/Kyt.antt =====
-- privacy/kyt/kyt-inspect-fetch-guard.ts. `fetch` is a parameter. Of a request the guard reads the
-- address, of a response the status and the text.
pub mod Guarded
use pl_backend_sdk_demo.Prelude.{
  ℕ, ◌+◌, Bool, true, false, ◌&&◌, ◌||◌, not, Option, none, some, List, [], ◌∷◌, ◌++◌, map, take,
  Text, codes, trim_start, starts_with, includes, leb, to_decimal, pos, if◌then◌else◌, Thrown,
  plain_error, Result, ok, thrown, Exec, pure, lift, continue, ◌>>=◌,
}
use pl_backend_sdk_demo.Json.{Json, num, str, obj, end, field}
use pl_backend_sdk_demo.Web.{HttpRequest}

abbrev pub kyt_inspect_path : Text
kyt_inspect_path = codes "/kyt/passages/inspect"

-- `toLowerCase`, of the letters A to Z: no other character becomes one of the letters that the tests
-- below look for.
abbrev pub lower : ℕ → ℕ
lower c = if leb b'A' c && leb c b'Z' then c + 32 else c

unfoldable pub is_non_json_document : Text → Bool
is_non_json_document body =
    let head = map lower (take 64 (trim_start body)) in
    starts_with head (codes "<?xml")
    || starts_with head (codes "<!doctype")
    || starts_with head (codes "<html")
    || starts_with head (codes "<error")

-- A response by its status, its text and, where the guard builds it, its JSON.
pub data InspectResponse : Type 0 where
  received : ℕ → Text → InspectResponse
  built : ℕ → Json → InspectResponse

abbrev pub status_of : InspectResponse → ℕ
status_of (received status text) = status
status_of (built status body) = status

abbrev pub safe_status : ℕ → ℕ
safe_status status = if leb 400 status then status else 502

abbrev pub document_body : ℕ → Text → Text → Json
document_body status url preview =
    (obj (
      field (codes "message")
        (str (
          codes "KYT inspect at "
          ++ url
          ++ codes " returned XML/HTML instead of JSON (HTTP "
          ++ to_decimal status
          ++ codes
              "). KYT_API_BASE_URL must be the inspect API origin (same as the payment client VITE_API_BASE_URL), not the Compliance portal."))
        (field (codes "error") (str (codes "Bad Gateway")) (
          field (codes "statusCode") (num (pos (safe_status status)))
            (field (codes "preview") (str (take 180 preview)) end)))))

unfoldable pub build_document_as_json_response : ℕ → Text → Text → InspectResponse
build_document_as_json_response status url preview =
    built (safe_status status) (document_body status url preview)

abbrev pub guarded : Text → ℕ → Text → InspectResponse
guarded url status text =
    if not (includes url kyt_inspect_path)
    then received status text
    else if not (is_non_json_document text)
    then received status text
    else build_document_as_json_response status url text

-- The `fetch` that `installKytInspectFetchGuard` puts in place of `inner`.
unfoldable pub guarded_fetch :
    {W : Type 0} → (Text → Exec W (ℕ × Text)) → Text → Exec W InspectResponse
guarded_fetch inner url = inner url >>= λ (status, text). pure (guarded url status text)

-- `.replace(/\/$/u, "")`
unfoldable pub without_slash : Text → Text
without_slash [] = []
without_slash (c ∷ []) = if leb c b'/' && leb b'/' c then [] else c ∷ []
without_slash (c ∷ d ∷ s) = c ∷ without_slash (d ∷ s)

abbrev pub inspect_request : Text → HttpRequest
inspect_request url = record {
  url = url;
  method = codes "POST";
  headers = (codes "content-type", codes "application/json") ∷ [];
  body = some (codes "{}");
}

abbrev pub checked : Text → Text → Result Text → Result (Unit {0})
checked base url (thrown e) = ok tt
checked base url (ok preview) =
    if is_non_json_document preview
    then thrown (
        plain_error (
          codes "KYT_API_BASE_URL ("
          ++ base
          ++ codes ") is not an inspect API. "
          ++ url
          ++ codes " returned "
          ++ take 48 (trim_start preview)
          ++ codes ". Use the payment/audit API origin, not the Compliance portal."))
    else ok tt

-- `fetch_text` is `fetch` with the text of its response; a throw of it is no failure.
unfoldable pub assert_kyt_inspect_looks_like_json :
    {W : Type 0} → (HttpRequest → Exec W Text) → Text → Exec W (Unit {0})
assert_kyt_inspect_looks_like_json fetch_text base s =
    let url = without_slash base ++ kyt_inspect_path in
    let (r, t) = fetch_text (inspect_request url) s in (checked base url r, t)
