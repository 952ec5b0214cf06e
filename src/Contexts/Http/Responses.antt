-- ===== src/Contexts/Http/Responses.antt =====
-- lib/contexts/http.context.ts: what `HttpContextAdapter` makes of a handler's result, and a replay's
-- response. The response and the handler's metadata are records; a header's value on the response
-- is read as `String` gives it.
use idempotency.Base.Dict
use idempotency.Base.{
  ℕ, Bool, false, not, ◌&&◌, ◌||◌, List, [], ◌∷◌, Option, none, some, if◌then◌else◌, ◌==◌, Text,
  text,
}
use idempotency.Json.{Json, JsonFields}
use idempotency.Fingerprint.{decimal}
use idempotency.Value.{Value, finite}
use idempotency.Result.{encode_result, unreplayable_reason}
use idempotency.Result.Decoding.{decode_result}
use idempotency.Options.Startup.{has}
use idempotency.Interceptor.{StoredResponse, HeaderValue, one, ErrorKind, Rejection}
use idempotency.Interceptor.Execution.{Capture, not_final, unreplayable}
use idempotency.Contexts.Picking.{property}
use idempotency.Contexts.{
  Thrown, Host, StoreIf, Raised, Delivered, whole, capture_http_or_unknown_error, success_record,
  delivered, rebuild_http_exception, code_text,
}
use idempotency.Contexts.Http.{before}

-- What `@Redirect()`, or the handler's result, says.
pub record Redirect : Type 0 where
  pub url : Option Text
  pub status_code : Option ℕ

-- The handler's metadata: `@Sse()`, `@Redirect()`, the keys of its parameters' metadata, and
-- `passthrough`.
pub record HttpHandler : Type 0 where
  pub sse : Bool
  pub redirect : Option Redirect
  pub params : List Text
  pub passthrough : Bool

pub record HttpResponse : Type 0 where
  pub status : ℕ
  pub sent : Bool
  pub headers : List (Text × HeaderValue)

abbrev pub replayed_header : Text
replayed_header = text "Idempotent-Replayed"

unfoldable pub pass_through : HttpHandler → Bool
pass_through h = h.sse

abbrev pub or_else {ℓ} : {A : Type ℓ} → Option A → Option A → Option A
or_else none b = b
or_else (some a) b = some a

abbrev pub located : Option Text → List (Text × HeaderValue)
located none = []
located (some url) = (text "location", one url) ∷ []

module _ (host : Host) where
  -- `handlerWritesResponse`.
  unfoldable pub takes_response : List Text → Bool
  unfolding before has
  takes_response [] = false
  takes_response (key ∷ keys) = has (before b':' key) host.response_params || takes_response keys

  unfoldable pub handler_writes_response : HttpHandler → Bool
  unfolding takes_response
  handler_writes_response h = takes_response h.params && not h.passthrough

  -- What a result that redirects asks for; a `url` that is no string and a `statusCode` that is no
  -- whole number are not modelled.
  abbrev text_in : Value → Option Text
  text_in (Value.string s) = some s
  text_in v = none

  abbrev number_in : Value → Option ℕ
  number_in (Value.number (finite s)) = whole s
  number_in v = none

  unfoldable pub redirect_in : Value → Redirect
  unfolding property whole
  redirect_in Value.undefined = record { url = none; status_code = none }
  redirect_in Value.null = record { url = none; status_code = none }
  redirect_in v = record {
    url = text_in (property host v (text "url"));
    status_code = number_in (property host v (text "statusCode"));
  }

  abbrev or_found : Option ℕ → ℕ
  or_found none = 302
  or_found (some status) = status

  -- The status, and the header that `@Redirect()` sets.
  unfoldable pub redirected : Option Redirect → (status : ℕ) → Value → ℕ × List (Text × HeaderValue)
  unfolding redirect_in
  redirected none status v = (status, [])
  redirected (some r) status v =
      let own = redirect_in v in
      (or_found (or_else own.status_code r.status_code), located (or_else own.url r.url))

  -- The loop over `replayHeaders`.
  abbrev pub keep_header :
      Text
      → Option HeaderValue
      → Option HeaderValue
      → List (Text × HeaderValue)
      → List (Text × HeaderValue)
  keep_header name none kept headers = headers
  keep_header name (some v) (some w) headers = headers
  keep_header name (some v) none headers = Dict.set name v headers

  unfoldable pub captured_headers :
      (names : List Text) → HttpResponse → List (Text × HeaderValue) → List (Text × HeaderValue)
  unfolding Dict.get Dict.set
  captured_headers [] res headers = headers
  captured_headers (name ∷ names) res headers =
      captured_headers names res
        (keep_header name (Dict.get name res.headers) (Dict.get name headers) headers)

  -- `captureSuccess`, once the result can be replayed.
  unfoldable pub capture_replayable :
      (replay_headers : List Text) → HttpHandler → HttpResponse → StoreIf → Value → Capture
  unfolding redirected captured_headers encode_result
  capture_replayable names h res store_if v =
      let (status, headers) = redirected h.redirect res.status v in
      if store_if status none
      then success_record status (captured_headers names res headers)
          (encode_result host.platform false v)
      else not_final

  unfoldable pub capture_success :
      (replay_headers : List Text) → HttpHandler → HttpResponse → StoreIf → Value → Capture
  unfolding handler_writes_response unreplayable_reason capture_replayable
  capture_success names h res store_if v =
      if handler_writes_response h || res.sent then unreplayable else elim (unreplayable_reason v) [
        | some reason ↦ unreplayable
        | none ↦ capture_replayable names h res store_if v
      ]

  unfoldable pub capture_error : StoreIf → Thrown → Capture
  unfolding capture_http_or_unknown_error
  capture_error = capture_http_or_unknown_error host

  unfoldable pub set_headers : List (Text × HeaderValue) → HttpResponse → HttpResponse
  unfolding Dict.set
  set_headers [] res = res
  set_headers ((name, v) ∷ headers) res =
      set_headers headers (record res { headers = Dict.set (host.lower name) v res.headers })

  -- `replay`, once the headers are set.
  abbrev pub replay_body :
      StoredResponse → HttpResponse → Option ErrorKind → HttpResponse × Delivered
  replay_body r res none =
      (record res { status = r.status }, delivered (decode_result host.platform r.body))
  replay_body r res (some kind) = (res, rebuild_http_exception r)

  unfoldable pub replay : StoredResponse → HttpResponse → HttpResponse × Delivered
  unfolding set_headers decode_result
  replay r res =
      replay_body r
        (set_headers ((replayed_header, one (text "true")) ∷ []) (set_headers r.headers res))
        r.error

  -- `reject`, the message left out.
  abbrev with_retry_after : Option ℕ → HttpResponse → HttpResponse
  with_retry_after none res = res
  with_retry_after (some seconds) res =
      set_headers ((text "Retry-After", one (decimal seconds)) ∷ []) res

  -- `REASON`.
  unfoldable pub reason : ℕ → Option Text
  reason status =
      if status == 400
      then some (text "Bad Request")
      else if status == 409
      then some (text "Conflict")
      else if status == 422
      then some (text "Unprocessable Entity")
      else if status == 500
      then some (text "Internal Server Error")
      else none

  abbrev with_reason : Option Text → JsonFields → JsonFields
  with_reason none fs = fs
  with_reason (some s) fs = JsonFields.field (text "error") (Json.string s) fs

  unfoldable pub reject : Rejection → HttpResponse → HttpResponse × Raised
  unfolding set_headers decimal reason
  reject r res = (
    with_retry_after r.retry_after res,
    Raised.http_error
        (some (
          Json.object (
            JsonFields.field (text "statusCode") (Json.number (decimal r.status)) (
              with_reason (reason r.status) (
                JsonFields.field (text "code") (Json.string (code_text r.code))
                  JsonFields.no_field)))))
        r.status,
  )
