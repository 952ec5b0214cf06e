-- ===== src/Contexts/Graphql.antt =====
-- lib/contexts/graphql.context.ts: `GraphqlContextAdapter`. A resolver's arguments are a record.
pub mod Paths
use idempotency.Base.Dict
use idempotency.Base.{
  ℕ, Bool, true, false, ◌&&◌, List, [], ◌∷◌, ◌++◌, Option, none, some, if◌then◌else◌, ite, Text,
  text, text_eq,
}
use idempotency.Json.{Json, JsonFields, lookup}
use idempotency.Fingerprint.{decimal}
use idempotency.Value.{Value, Fields, field, no_field}
use idempotency.Result.Decoding.{decode_result}
use idempotency.Encryption.{join_dots}
use idempotency.Interceptor.{StoredResponse, ErrorKind, Rejection}
use idempotency.Interceptor.Execution.{Capture, not_final}
use idempotency.Interceptor.Worlds.{Returned, returned, thrown}
use idempotency.Contexts.Picking.{or_value, pick}
use idempotency.Contexts.{
  DeclarativeKeySource, default_source, header, arg, Thrown, Host, StoreIf, Raised, Delivered,
  raises, breaks, error_record, capture_http_or_unknown_error, success_capture, delivered,
  rebuild_http_exception, code_text,
}

-- `info.path`, the last key first; a key is a response key or an index.
pub data FieldPath : Type 0 where
  root : FieldPath
  step : (key : Text) (prev : FieldPath) → FieldPath

pub record ResolverCall : Type 0 where
  -- The field's arguments.
  pub args : Value
  -- `context.req.headers`, by their names in lower case; none where one of these is missing.
  pub headers : List (Text × Value)
  pub has_user : Bool
  pub path : FieldPath
  -- `info.parentType.name`, `info.fieldName` and `info.schema.getMutationType().name`.
  pub parent_type : Option Text
  pub field_name : Option Text
  pub mutation_type : Option Text

abbrev pub default_key_field : Text
default_key_field = text "idempotencyKey"

-- The loop of `fieldPath`.
unfoldable pub path_keys : (keys : List Text) → FieldPath → List Text
path_keys keys root = keys
path_keys keys (step key prev) = path_keys (key ∷ keys) prev

unfoldable pub field_path : FieldPath → Text
unfolding path_keys join_dots
field_path p = join_dots (path_keys [] p)

abbrev pub same_name : Option Text → Option Text → Bool
same_name none m = false
same_name (some p) none = false
same_name (some p) (some m) = ite (text_eq p m) true false

-- Root mutation fields only.
unfoldable pub covered_by_class : ResolverCall → Bool
covered_by_class q = same_name q.parent_type q.mutation_type

abbrev or_undefined_text : Option Text → Text
or_undefined_text none = text "undefined"
or_undefined_text (some s) = s

unfoldable pub identity : ResolverCall → List Text
identity q =
    text "graphql" ∷ (or_undefined_text q.parent_type ++ b'.' ∷ or_undefined_text q.field_name) ∷ []

-- `describe`'s payload: `args ?? {}`.
unfoldable pub payload : ResolverCall → Value
payload q = elim q.args [
  | Value.undefined ↦ Value.object no_field
  | Value.null ↦ Value.object no_field
  | v ↦ v
]

unfoldable pub key_suffix : ResolverCall → Text
unfolding field_path
key_suffix q = field_path q.path

-- A code other than `INTERNAL_SERVER_ERROR` marks a deliberate rejection.
unfoldable pub status_of : (code : Option Text) (http_status : Option ℕ) → ℕ
status_of code (some status) = status
status_of none none = 500
status_of (some code) none = ite (text_eq code (text "INTERNAL_SERVER_ERROR")) 500 400

-- What is stored of a `GraphQLError`.
abbrev pub error_body : (message : Text) (extensions : Fields) → Value
error_body message extensions = Value.object (
    field (text "message") (Value.string message)
      (field (text "extensions") (Value.object extensions) no_field))

module _ (host : Host) where
  abbrev header_of : ResolverCall → Text → Value
  header_of q name = or_value (Dict.get name q.headers) Value.undefined

  -- An argument, or the header where it is missing or empty.
  abbrev or_header : Value → Value → Value
  or_header Value.undefined h = h
  or_header Value.null h = h
  or_header (Value.string []) h = h
  or_header v h = v

  unfoldable pub read_key : ResolverCall → DeclarativeKeySource → (header : Text) → Returned Value
  unfolding pick Dict.get
  read_key q default_source h =
      returned (or_header (pick host q.args default_key_field) (header_of q (host.lower h)))
  read_key q (header name) h = returned (header_of q (host.lower name))
  read_key q (arg path) h = returned (pick host q.args path)
  read_key q source h = thrown

  unfoldable pub capture_success : StoreIf → Value → Capture
  unfolding success_capture
  capture_success = success_capture host true

  abbrev cloned : Option Json → Option (Option Json)
  cloned none = none
  cloned (some j) = some (some j)

  unfoldable pub capture_error : StoreIf → Thrown → Capture
  unfolding status_of capture_http_or_unknown_error
  capture_error store_if (Thrown.graphql_error message code http_status extensions) =
      let e = Thrown.graphql_error message code http_status extensions in
      let status = status_of code http_status in
      if store_if status (some e)
      then error_record ErrorKind.graphql status
          (cloned (host.json_clone (error_body message extensions)))
      else not_final
  capture_error store_if e = capture_http_or_unknown_error host store_if e

  -- The members of a stored `GraphQLError`; of a body that is no object nothing can be read if it is
  -- `undefined` or `null`.
  abbrev rebuilt : Option Json → Delivered
  rebuilt none = breaks
  rebuilt (some Json.null) = breaks
  rebuilt (some (Json.object fs)) =
      raises (Raised.graphql_failure (lookup (text "message") fs) (lookup (text "extensions") fs))
  rebuilt (some j) = raises (Raised.graphql_failure none none)

  abbrev replay_kind : StoredResponse → Option ErrorKind → Delivered
  replay_kind r none = delivered (decode_result host.platform r.body)
  replay_kind r (some ErrorKind.graphql) = rebuilt r.body
  replay_kind r (some kind) = rebuild_http_exception r

  unfoldable pub replay : StoredResponse → Delivered
  unfolding decode_result lookup
  replay r = replay_kind r r.error

abbrev pub with_number : Text → Option ℕ → JsonFields → JsonFields
with_number k none fs = fs
with_number k (some n) fs = JsonFields.field k (Json.number (decimal n)) fs

-- `reject`, the message left out.
unfoldable pub reject : Rejection → Raised
unfolding decimal
reject r = Raised.graphql_failure none (
    some (
      Json.object (
        JsonFields.field (text "code") (Json.string (code_text r.code)) (
          with_number (text "httpStatus") (some r.status)
            (with_number (text "retryAfter") r.retry_after JsonFields.no_field)))))
