-- ===== src/Contexts.antt =====
-- lib/contexts/context.adapter.ts: what the three context adapters share. An error that a handler
-- throws is known by what the adapters look at. What the platform, Nest and the app decide is a
-- parameter (`Host`); the messages of rejections and of unsupported key sources are left out.
pub mod Picking
pub mod Http
pub mod Graphql
pub mod Rpc
pub mod Requests
pub mod Adapters
pub mod Errors
pub mod Sites
pub mod Retries
use idempotency.Base.{
  ℕ, ◌+◌, ◌-◌, ◌*◌, Bool, true, false, ◌&&◌, List, [], ◌∷◌, Option, none, some, leb, if◌then◌else◌,
  ite, Text, text, text_eq,
}
use idempotency.Json.{Json, JsonFields}
use idempotency.Value.{Value, Fields, finite}
use idempotency.Result.{Platform, Encoding, omitted, encoded, encode_result, unreplayable_reason}
use idempotency.Encryption.{split_dots}
use idempotency.Interceptor.{StoredResponse, HeaderValue, ErrorKind, ErrorCode}
use idempotency.Interceptor.Execution.{
  Capture, stored, not_final, unreplayable, threw_unreplayable, threw,
}

-- A declarative key source, or `'default'`.
pub data DeclarativeKeySource : Type 0 where
  default_source : DeclarativeKeySource
  header arg payload : Text → DeclarativeKeySource

-- What a handler throws.
pub data Thrown : Type 0 where
  -- An `HttpException`, by `getStatus()` and `getResponse()`.
  http_exception : (status : ℕ) (response : Value) → Thrown
  -- An `RpcException`, by `getError()` and that error's numeric `statusCode`.
  rpc_exception : (status_code : Option ℕ) (error : Value) → Thrown
  -- A `GraphQLError`, by its message, its extensions, and their string `code` and `http.status`.
  graphql_error :
      (message : Text) (code : Option Text) (http_status : Option ℕ) (extensions : Fields) → Thrown
  -- Another object, by its `status` and `statusCode`.
  other_object : (status status_code : Value) → Thrown
  no_object : Thrown

-- What the platform and Nest decide.
pub record Host : Type 0 where
  pub platform : Platform
  -- `JSON.parse(JSON.stringify(value))`; `none` is an exception.
  pub json_clone : Value → Option Json
  -- The response of Nest's own exception for a status, and of an `HttpException` with a message.
  pub nest_response : ℕ → Value
  pub message_response : Text → ℕ → Value
  -- `STATUS_CODES`.
  pub status_text : ℕ → Option Text
  pub lower : Text → Text
  pub upper : Text → Text
  -- `String(value)`, and whether `Number(value) > 0`.
  pub to_text : Value → Text
  pub is_positive : Value → Bool
  -- `RouteParamtypes.RESPONSE` and `NEXT`, as text.
  pub response_params : List Text
  -- A property that a value has from its prototype, or as no plain object.
  pub inherited : Value → Text → Value

-- `storeIf`, with the status and the error.
abbrev pub StoreIf : Type 0
StoreIf = ℕ → Option Thrown → Bool

-- What a caller gets of a replay or a rejection: a value, an error, or an exception on the way.
pub data Raised : Type 0 where
  http_error : (body : Option Json) (status : ℕ) → Raised
  rpc_error : (body : Option Json) → Raised
  graphql_failure : (message extensions : Option Json) → Raised

pub data Delivered : Type 0 where
  delivers : Value → Delivered
  raises : Raised → Delivered
  breaks : Delivered

-- `value ?? other`.
abbrev pub or_nullish : Value → Value → Value
or_nullish Value.undefined w = w
or_nullish Value.null w = w
or_nullish v w = v

-- A number in decimal digits, by its value.
abbrev is_digit : ℕ → Bool
is_digit c = leb b'0' c && leb c b'9'

unfoldable pub digits_value : (so_far : ℕ) → Text → Option ℕ
digits_value n [] = some n
digits_value n (c ∷ s) = if is_digit c then digits_value (n * 10 + (c - b'0')) s else none

unfoldable pub whole : Text → Option ℕ
unfolding digits_value
whole [] = none
whole (c ∷ s) = digits_value 0 (c ∷ s)

-- `typeof status === 'number' ? status : statusCode`, if it is a whole number.
unfoldable pub code_of : (status status_code : Value) → Option ℕ
unfolding whole
code_of (Value.number (finite s)) code = whole s
code_of (Value.number n) code = none
code_of status (Value.number (finite s)) = whole s
code_of status code = none

-- The statuses of `NEST_EXCEPTIONS`.
abbrev nest_statuses : List ℕ
nest_statuses =
    400 ∷ 401 ∷ 403 ∷ 404 ∷ 405 ∷ 406 ∷ 408 ∷ 409 ∷ 410 ∷ 412 ∷ 413 ∷ 415 ∷ 418 ∷ 421 ∷ 422 ∷ []

unfoldable pub is_listed : ℕ → List ℕ → Bool
is_listed n [] = false
is_listed n (m ∷ ms) = if leb m n && leb n m then true else is_listed n ms

-- A stored error; `threw` if its body can't be copied.
abbrev pub error_record : ErrorKind → ℕ → Option (Option Json) → Capture
error_record kind status none = threw
error_record kind status (some body) =
    stored (record { status = status; headers = []; body = body; error = some kind })

abbrev pub internal_error : Json
internal_error = Json.object (
    JsonFields.field (text "statusCode") (Json.number (text "500")) (
      JsonFields.field (text "message") (Json.string (text "Internal server error"))
        JsonFields.no_field))

-- A stored success, its body encoded.
abbrev pub success_record : ℕ → List (Text × HeaderValue) → Encoding → Capture
success_record status headers omitted =
    stored (record { status = status; headers = headers; body = none; error = none })
success_record status headers (encoded j) =
    stored (record { status = status; headers = headers; body = some j; error = none })
success_record status headers Encoding.unreplayable = threw_unreplayable

module _ (host : Host) where
  abbrev or_error : Option Text → Text
  or_error none = text "Error"
  or_error (some message) = message

  -- The response of the `HttpException` for a client error's code.
  unfoldable pub client_response : ℕ → Value
  unfolding is_listed
  client_response code =
      if is_listed code nest_statuses
      then host.nest_response code
      else host.message_response (or_error (host.status_text code)) code

  abbrev client_exception : Option ℕ → Option (ℕ × Value)
  client_exception none = none
  client_exception (some code) =
      if leb 400 code && leb code 499 then some (code, client_response code) else none

  -- An `HttpException`, or `clientErrorException`: its status and response.
  unfoldable pub exception_of : Thrown → Option (ℕ × Value)
  unfolding code_of client_response
  exception_of (Thrown.http_exception status response) = some (status, response)
  exception_of (Thrown.other_object status status_code) =
      client_exception (code_of status status_code)
  exception_of e = none

  -- `jsonClone`.
  unfoldable pub clone_or_undefined : Value → Option (Option Json)
  clone_or_undefined Value.undefined = some none
  clone_or_undefined v = elim (host.json_clone v) [ none ↦ none | some j ↦ some (some j) ]

  unfoldable pub capture_exception : StoreIf → Thrown → Option (ℕ × Value) → Capture
  unfolding clone_or_undefined
  capture_exception store_if e (some (status, response)) =
      if store_if status (some e)
      then error_record ErrorKind.http status (clone_or_undefined response)
      else not_final
  capture_exception store_if e none =
      if store_if 500 (some e)
      then error_record ErrorKind.http 500 (some (some internal_error))
      else not_final

  -- `captureHttpOrUnknownError`.
  unfoldable pub capture_http_or_unknown_error : StoreIf → Thrown → Capture
  unfolding capture_exception exception_of
  capture_http_or_unknown_error store_if e = capture_exception store_if e (exception_of e)

  -- `successCapture`.
  unfoldable pub success_capture : (strict : Bool) → StoreIf → Value → Capture
  unfolding unreplayable_reason encode_result
  success_capture strict store_if v = elim (unreplayable_reason v) [
    | some reason ↦ unreplayable
    | none ↦
        if store_if 200 none
        then success_record 200 [] (encode_result host.platform strict v)
        else not_final
  ]

-- `rebuildHttpException`.
abbrev pub rebuild_http_exception : StoredResponse → Delivered
rebuild_http_exception r = raises (Raised.http_error r.body r.status)

abbrev pub delivered : Option Value → Delivered
delivered none = breaks
delivered (some v) = delivers v

abbrev pub code_text : ErrorCode → Text
code_text ErrorCode.key_required = text "IDEMPOTENCY_KEY_REQUIRED"
code_text ErrorCode.key_invalid = text "IDEMPOTENCY_KEY_INVALID"
code_text ErrorCode.key_reused = text "IDEMPOTENCY_KEY_REUSED"
code_text ErrorCode.key_in_use = text "IDEMPOTENCY_KEY_IN_USE"
code_text ErrorCode.record_unreadable = text "IDEMPOTENCY_RECORD_UNREADABLE"
