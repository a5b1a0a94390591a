-- ===== src/Http/Answered.antt =====
-- http/json-error.filter.ts: the reply to an exception.
use pl_backend_sdk_demo.Prelude.{
  Bool, true, false, ◌≡◌, ◌≢◌, refl, ◌⊎◌, inl, inr, none, some, [], ◌∷◌, Text, leb, if◌then◌else◌,
  arith,
}
use pl_backend_sdk_demo.Notes.Spendable.{is_some}
use pl_backend_sdk_demo.Json.{Json, obj, get}
use pl_backend_sdk_demo.Http.{
  Described, Exception, http, error, object, string, primitive, json_or_string, message_or, text_of,
  string_or, exception_message, body_of, payload_of, handle_exception, Reply,
}

-- Whether an exception has a text to show: `JSON.stringify` and `String` of an object are not empty.
abbrev pub IsDescribed : Exception → Type 0
IsDescribed (http m stack d status payload) = json_or_string d ≢ []
IsDescribed (error m stack d) = json_or_string d ≢ []
IsDescribed (object m d) = json_or_string d ≢ []
IsDescribed _ = Unit {0}

-- The status code and the message in a reply's body.
abbrev pub field_in : Text → Json → Json
field_in k (obj t) = get k t
field_in k _ = Json.undef

pub record IsAnswered (e : Exception) (r : Reply) : Type 0 where
  pub logged_iff : is_some r.logged ≡ leb 500 r.status
  pub message_shown : exception_message e ≢ []
  pub body :
      (r.body ≡ body_of r.status (exception_message e))
      ⊎ ((m : Text) × (stack : Text) × (d : Described) × (payload : Json) × (e
            ≡ http m stack d r.status payload)
          × (r.body ≡ payload_of r.status payload))

message-ne-nil : (m : Text) (d : Described) → json_or_string d ≢ [] → message_or m d ≢ []
message-ne-nil [] d h = h
message-ne-nil (c ∷ m) d h = λ e. cc

string-ne-nil : (s : Text) → string_or s ≢ []
string-ne-nil [] = λ e. cc
string-ne-nil (c ∷ s) = λ e. cc

exception_message-ne-nil : (e : Exception) → IsDescribed e → exception_message e ≢ []
unfolding exception_message
exception_message-ne-nil (http m stack d status payload) h = message-ne-nil m d h
exception_message-ne-nil (error m stack d) h = message-ne-nil m d h
exception_message-ne-nil (object m d) h = message-ne-nil (text_of m) d h
exception_message-ne-nil (string s) h = string-ne-nil s
exception_message-ne-nil (primitive s) h = λ e. cc

logged-http : (b : Bool) (l : Text × Text) → is_some (if b then some l else none) ≡ b
logged-http true l = refl
logged-http false l = refl

-- The reply to an exception, where its JSON or its text is not empty if it is an object: it is logged
-- exactly when the status is 500 or more, its message is never empty, and its body has the status and
-- the message, unless the exception is an `HttpException`, whose own payload it then has.
pub handle_exception-IsAnswered :
    (e : Exception) → IsDescribed e → IsAnswered e (handle_exception e)
unfolding handle_exception
handle_exception-IsAnswered (http m stack d status payload) h = record {
  logged_iff = logged-http (leb 500 status) _;
  message_shown = exception_message-ne-nil (http m stack d status payload) h;
  body = inr (m, stack, d, payload, refl, refl);
}
handle_exception-IsAnswered (error m stack d) h = record {
  logged_iff = ground arith;
  message_shown = exception_message-ne-nil (error m stack d) h;
  body = inl refl;
}
handle_exception-IsAnswered (object m d) h = record {
  logged_iff = ground arith;
  message_shown = exception_message-ne-nil (object m d) h;
  body = inl refl;
}
handle_exception-IsAnswered (string s) h = record {
  logged_iff = ground arith;
  message_shown = exception_message-ne-nil (string s) h;
  body = inl refl;
}
handle_exception-IsAnswered (primitive s) h = record {
  logged_iff = ground arith;
  message_shown = exception_message-ne-nil (primitive s) h;
  body = inl refl;
}
