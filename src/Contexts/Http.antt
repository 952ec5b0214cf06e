-- ===== src/Contexts/Http.antt =====
-- lib/contexts/http.context.ts: `HttpContextAdapter`, what it reads of a request. The request is a
-- record; Responses is about the handler's response.
pub mod Responses
pub mod Headers
pub mod Fidelity
pub mod Safe
use idempotency.Base.Dict
use idempotency.Base.{
  ℕ, Bool, true, false, not, ◌&&◌, ◌||◌, List, [], ◌∷◌, Option, none, some, if◌then◌else◌, ite,
  ◌==◌, Text, text, text_eq,
}
use idempotency.Json.{Json, JsonFields}
use idempotency.Key.{trim}
use idempotency.Fingerprint.{decimal}
use idempotency.Value.{Value, Fields, finite}
use idempotency.Result.{encode_result, unreplayable_reason}
use idempotency.Result.Decoding.{decode_result}
use idempotency.Options.Startup.{has}
use idempotency.Interceptor.{StoredResponse, HeaderValue, one, ErrorKind, Rejection}
use idempotency.Interceptor.Execution.{Capture, not_final, unreplayable}
use idempotency.Interceptor.Worlds.{Returned, returned, thrown}
use idempotency.Contexts.Picking.{or_value, property}
use idempotency.Contexts.{
  DeclarativeKeySource, default_source, header, Thrown, Host, StoreIf, Raised, Delivered, raises,
  whole, capture_http_or_unknown_error, success_record, delivered, rebuild_http_exception,
  code_text,
}

pub record HttpRequest : Type 0 where
  pub method : Text
  pub url : Text
  -- By their names in lower case.
  pub headers : List (Text × Value)
  pub body : Value
  pub has_user : Bool

abbrev pub safe_methods : List Text
safe_methods = text "GET" ∷ text "HEAD" ∷ text "OPTIONS" ∷ []

-- `.split(c)[0]`.
unfoldable pub before : (c : ℕ) → Text → Text
before c [] = []
before c (d ∷ s) = if d == c then [] else d ∷ before c s

unfoldable pub starts_with : (prefix : Text) → Text → Bool
starts_with [] s = true
starts_with (c ∷ p) [] = false
starts_with (c ∷ p) (d ∷ s) = d == c && starts_with p s

abbrev is_missing : Value → Bool
is_missing Value.undefined = true
is_missing Value.null = true
is_missing v = false

abbrev is_undefined : Value → Bool
is_undefined Value.undefined = true
is_undefined v = false

abbrev is_empty_object : Value → Bool
is_empty_object (Value.object Fields.no_field) = true
is_empty_object v = false

abbrev pub some_text : Text → Text → Text
some_text [] fallback = fallback
some_text (c ∷ s) fallback = c ∷ s

module _ (host : Host) where
  unfoldable pub covered_by_class : HttpRequest → Bool
  unfolding has
  covered_by_class q = not (has (host.upper q.method) safe_methods)

  unfoldable pub header_of : HttpRequest → Text → Value
  unfolding Dict.get
  header_of q name = or_value (Dict.get name q.headers) Value.undefined

  unfoldable pub read_key : HttpRequest → DeclarativeKeySource → (header : Text) → Returned Value
  unfolding header_of
  read_key q default_source h = returned (header_of q (host.lower h))
  read_key q (header name) h = returned (header_of q (host.lower name))
  read_key q source h = thrown

  -- `describe`'s identity; its payload is the body.
  unfoldable pub identity : HttpRequest → List Text
  identity q = host.upper q.method ∷ q.url ∷ []

  abbrev media_type : Value → Text
  media_type v = if is_missing v then [] else host.lower (trim (before b';' (host.to_text v)))

  unfoldable pub unread_body : HttpRequest → Option Text
  unfolding header_of trim before starts_with
  unread_body q =
      let type = media_type (header_of q (text "content-type")) in
      if not (host.is_positive (header_of q (text "content-length")))
        && is_undefined (header_of q (text "transfer-encoding"))
      then none
      else if is_missing q.body
      then some (some_text type (text "no content type"))
      else if is_empty_object q.body && starts_with (text "multipart/") type
      then some type
      else none
