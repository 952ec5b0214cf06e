-- ===== src/Contexts/Errors.antt =====
-- What a handler throws, captured and replayed.
use idempotency.Base.{
  ℕ, ◌≡◌, refl, Bool, true, false, ◌&&◌, leb, Option, none, some, arith, [], if◌then◌else◌, Text,
  text, text_eq,
}
use idempotency.Json.{Json, JsonFields, lookup}
use idempotency.Value.{Value, Fields}
use idempotency.Interceptor.{ContextType, StoredResponse, ErrorKind}
use idempotency.Interceptor.Execution.{Capture, stored, not_final}
use idempotency.Contexts.{
  Host, StoreIf, Thrown, Raised, raises, exception_of, clone_or_undefined, internal_error,
  capture_http_or_unknown_error, capture_exception, or_nullish, code_of, client_response,
}
use idempotency.Contexts.Http.Responses as Http
use idempotency.Contexts.Http.Responses.{HttpResponse}
use idempotency.Contexts.Graphql as Graphql
use idempotency.Contexts.Rpc as Rpc
use idempotency.Contexts.Adapters.{capture_error, replay}

-- The JSON of a `GraphQLError`.
abbrev pub error_json : (message : Text) (extensions : Json) → Json
error_json message extensions = Json.object (
    JsonFields.field (text "message") (Json.string message)
      (JsonFields.field (text "extensions") extensions JsonFields.no_field))

-- The status that an error stands for in a context, and the error that a caller gets for it.
pub data Shown (host : Host) : Thrown → ContextType → ℕ → Raised → Type 0 where
  http_exception :
      {c : ContextType} {status : ℕ} {response : Value} {body : Option Json}
      → clone_or_undefined host response ≡ some body
      → Shown host (Thrown.http_exception status response) c status (Raised.http_error body status)
  client_error :
      {c : ContextType} {s s' : Value} {code : ℕ} {body : Option Json}
      → code_of s s' ≡ some code
      → leb 400 code && leb code 499 ≡ true
      → clone_or_undefined host (client_response host code) ≡ some body
      → Shown host (Thrown.other_object s s') c code (Raised.http_error body code)
  other_error :
      {c : ContextType} {s s' : Value}
      → exception_of host (Thrown.other_object s s') ≡ none
      → Shown host (Thrown.other_object s s') c 500 (Raised.http_error (some internal_error) 500)
  no_object :
      {c : ContextType}
      → Shown host Thrown.no_object c 500 (Raised.http_error (some internal_error) 500)
  rpc_exception :
      {code : Option ℕ} {error : Value} {body : Json}
      → host.json_clone (or_nullish error Value.null) ≡ some body
      → Shown host
          (Thrown.rpc_exception code error)
          ContextType.rpc
          (Rpc.status_of code)
          (Raised.rpc_error (some body))
  graphql_error :
      {message : Text} {code : Option Text} {http_status : Option ℕ} {fs : Fields}
      {extensions : Json}
      → host.json_clone (Graphql.error_body message fs) ≡ some (error_json message extensions)
      → Shown host
          (Thrown.graphql_error message code http_status fs)
          ContextType.graphql
          (Graphql.status_of code http_status)
          (Raised.graphql_failure (some (Json.string message)) (some extensions))

module _ (host : Host) (store_if : StoreIf) (res : HttpResponse) where
  -- Stored if `storeIf` accepts it, and raised again; else not final.
  abbrev pub Handled : Capture → ContextType → Bool → Raised → Type 0
  Handled a c true raised =
      (r : StoredResponse) × (a ≡ stored r) × ((replay host c r res).1 ≡ raises raised)
  Handled a c false raised = a ≡ not_final

  handled :
      (a : Capture) (c : ContextType) (b : Bool) (r : StoredResponse) (raised : Raised)
      → a ≡ (if b then stored r else not_final)
      → (replay host c r res).1 ≡ raises raised
      → Handled a c b raised
  handled a c true r raised e d = (r, e, d)
  handled a c false r raised e d = e

  abbrev failed_record : ErrorKind → ℕ → Option Json → StoredResponse
  failed_record kind status body = record {
    status = status;
    headers = [];
    body = body;
    error = some kind;
  }

  rebuilt_lem :
      (c : ContextType) (status : ℕ) (body : Option Json)
      → (replay host c (failed_record ErrorKind.http status body) res).1
        ≡ raises (Raised.http_error body status)
  unfolding replay Http.replay Graphql.replay Rpc.replay
  rebuilt_lem ContextType.http status body = refl
  rebuilt_lem ContextType.graphql status body = refl
  rebuilt_lem ContextType.rpc status body = refl

  by_exception :
      (e : Thrown) (c : ContextType) (status : ℕ) (response : Value) (body : Option Json)
      → capture_error host c store_if e ≡ capture_http_or_unknown_error host store_if e
      → exception_of host e ≡ some (status, response)
      → clone_or_undefined host response ≡ some body
      → Handled
          (capture_error host c store_if e)
          c
          (store_if status (some e))
          (Raised.http_error body status)
  unfolding capture_http_or_unknown_error capture_exception
  by_exception e c status response body o x k =
      handled _ c (store_if status (some e)) (failed_record ErrorKind.http status body) _
        (ground arith) (rebuilt_lem c status body)

  by_unknown :
      (e : Thrown) (c : ContextType)
      → capture_error host c store_if e ≡ capture_http_or_unknown_error host store_if e
      → exception_of host e ≡ none
      → Handled
          (capture_error host c store_if e)
          c
          (store_if 500 (some e))
          (Raised.http_error (some internal_error) 500)
  unfolding capture_http_or_unknown_error capture_exception
  by_unknown e c o x =
      handled _ c (store_if 500 (some e)) (failed_record ErrorKind.http 500 (some internal_error)) _
        (ground arith) (rebuilt_lem c 500 (some internal_error))

  -- The errors that belong to no protocol.
  abbrev IsOrdinary : Thrown → Type 0
  IsOrdinary (Thrown.rpc_exception code error) = ⊥
  IsOrdinary (Thrown.graphql_error message code http_status fs) = ⊥
  IsOrdinary e = Unit

  ordinary_lem :
      (e : Thrown) (c : ContextType)
      → IsOrdinary e
      → capture_error host c store_if e ≡ capture_http_or_unknown_error host store_if e
  unfolding capture_error Http.capture_error Graphql.capture_error Rpc.capture_error
  ordinary_lem e ContextType.http h = refl
  ordinary_lem (Thrown.http_exception status response) ContextType.graphql h = refl
  ordinary_lem (Thrown.http_exception status response) ContextType.rpc h = refl
  ordinary_lem (Thrown.other_object s s') ContextType.graphql h = refl
  ordinary_lem (Thrown.other_object s s') ContextType.rpc h = refl
  ordinary_lem Thrown.no_object ContextType.graphql h = refl
  ordinary_lem Thrown.no_object ContextType.rpc h = refl
  ordinary_lem (Thrown.rpc_exception code error) c h = absurd h
  ordinary_lem (Thrown.graphql_error message code http_status fs) c h = absurd h

  -- What a handler throws is captured, if `storeIf` accepts it with the status that it stands for,
  -- as a record whose replay in the same context raises the error again that a caller gets for it;
  -- else it is not recorded as final. Covered are an `HttpException`, an error with a client error's
  -- code and any other in every context, an `RpcException` in RPC and a `GraphQLError` in GraphQL,
  -- where the error's body can be copied.
  pub replay-capture_error :
      (e : Thrown) (c : ContextType) (status : ℕ) (raised : Raised)
      → Shown host e c status raised
      → Handled (capture_error host c store_if e) c (store_if status (some e)) raised
  unfolding exception_of capture_error Graphql.capture_error Rpc.capture_error replay Graphql.replay
      Rpc.replay lookup text_eq
  replay-capture_error _ c _ _ (http_exception k) =
      by_exception _ c _ _ _ (ordinary_lem _ c tt) refl k
  replay-capture_error _ c _ _ (client_error e b k) =
      by_exception _ c _ _ _ (ordinary_lem _ c tt) (ground arith) k
  replay-capture_error _ c _ _ (other_error e) = by_unknown _ c (ordinary_lem _ c tt) e
  replay-capture_error _ c _ _ no_object = by_unknown _ c (ordinary_lem _ c tt) refl
  replay-capture_error _ ContextType.rpc _ _ (rpc_exception {code} {error} {body} k) =
      handled _ ContextType.rpc
        (store_if (Rpc.status_of code) (some (Thrown.rpc_exception code error)))
        (failed_record ErrorKind.rpc (Rpc.status_of code) (some body)) _ (ground arith) refl
  replay-capture_error _ ContextType.graphql _ _
        (graphql_error {message} {code} {http_status} {fs} {extensions} k) =
      handled _ ContextType.graphql
        (store_if (Graphql.status_of code http_status)
          (some (Thrown.graphql_error message code http_status fs)))
        (failed_record ErrorKind.graphql (Graphql.status_of code http_status)
          (some (error_json message extensions)))
        _ (ground arith) refl
