-- ===== src/Web.antt =====
-- HTTP as the sources use it. The server is a parameter: what it answers to a request may depend on
-- the requests that it has had before.
use pl_backend_sdk_demo.Prelude.{
  ℕ, Bool, ◌&&◌, Option, List, Text, codes, Result, ok, thrown, plain_error, leb,
}
use pl_backend_sdk_demo.Json.{Json, undef, null, obj, get}

pub record HttpRequest : Type 0 where
  pub url : Text
  pub method : Text
  pub headers : List (Text × Text)
  pub body : Option Text

pub record HttpResponse : Type 0 where
  pub status : ℕ
  pub text : Text
  pub json : Result Json

-- `response.ok`
abbrev pub is_ok : HttpResponse → Bool
is_ok r = leb 200 r.status && leb r.status 299

abbrev pub Server : Type 0
Server = List HttpRequest → HttpRequest → Result HttpResponse

-- `value[key]`, which throws at `null` and `undefined`.
unfoldable pub field_of : Json → Text → Result Json
field_of undef k = thrown (plain_error (codes "Cannot read properties of undefined"))
field_of null k = thrown (plain_error (codes "Cannot read properties of null"))
field_of (obj t) k = ok (get k t)
field_of _ k = ok undef
