-- ===== src/Http.antt =====
-- http/json-error.filter.ts. `JSON.stringify` and `String` of an exception are its fields; one
-- whose `JSON.stringify` is undefined, as where its `toJSON` returns that, is left out.
pub mod Answered
use pl_backend_sdk_demo.Prelude.{
  ℕ, Bool, true, false, Option, none, some, [], ◌∷◌, Text, codes, pos, leb, if◌then◌else◌,
}
use pl_backend_sdk_demo.Json.{Json, undef, num, str, obj, Tree, end, field}

-- `json` is none where `JSON.stringify` throws.
pub record Described : Type 0 where
  pub json : Option Text
  pub string : Text

pub data Exception : Type 0 where
  -- an `HttpException` with its message, status and response, and any other `Error`
  http : Text → Text → Described → ℕ → Json → Exception
  error : Text → Text → Described → Exception
  -- any other object, with its `message`
  object : Json → Described → Exception
  string : Text → Exception
  -- a number, a boolean, `null` or `undefined`, by what `String` makes of it
  primitive : Text → Exception

abbrev pub internal_server_error : Text
internal_server_error = codes "Internal server error"

abbrev pub json_or_string : Described → Text
json_or_string d = elim d.json [ none ↦ d.string | some s ↦ s ]

abbrev pub message_or : Text → Described → Text
message_or [] d = json_or_string d
message_or (c ∷ s) d = c ∷ s

abbrev pub text_of : Json → Text
text_of (str s) = s
text_of _ = []

abbrev pub string_or : Text → Text
string_or [] = internal_server_error
string_or (c ∷ s) = c ∷ s

unfoldable pub exception_message : Exception → Text
exception_message (http m stack d status payload) = message_or m d
exception_message (error m stack d) = message_or m d
exception_message (object m d) = message_or (text_of m) d
exception_message (string s) = string_or s
exception_message (primitive s) = internal_server_error

-- `exception instanceof Error ? exception.stack : String(exception)`
abbrev pub stack_or_string : Exception → Text
stack_or_string (http m stack d status payload) = stack
stack_or_string (error m stack d) = stack
stack_or_string (object m d) = d.string
stack_or_string (string s) = s
stack_or_string (primitive s) = s

pub record Reply : Type 0 where
  pub logged : Option (Text × Text)
  pub status : ℕ
  pub body : Json

abbrev pub body_of : ℕ → Text → Json
body_of status m =
    obj (field (codes "statusCode") (num (pos status)) (field (codes "message") (str m) end))

-- The payload of an `HttpException`, which is a text or an object.
abbrev pub payload_of : ℕ → Json → Json
payload_of status (str s) = body_of status s
payload_of status payload = payload

abbrev pub log_of : Exception → Option (Text × Text)
log_of e = some (exception_message e, stack_or_string e)

-- Whether the exception is logged.
abbrev pub is_logged : Exception → Bool
is_logged (http m stack d status payload) = leb 500 status
is_logged _ = true

abbrev pub status_of : Exception → ℕ
status_of (http m stack d status payload) = status
status_of _ = 500

abbrev pub reply_body : Exception → Json
reply_body (http m stack d status payload) = payload_of status payload
reply_body e = body_of 500 (exception_message e)

-- `catch`
unfoldable pub handle_exception : Exception → Reply
handle_exception e = record {
  logged = if is_logged e then log_of e else none;
  status = status_of e;
  body = reply_body e;
}
