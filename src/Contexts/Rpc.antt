-- ===== src/Contexts/Rpc.antt =====
-- lib/contexts/rpc.context.ts: `RpcContextAdapter`. A message, its transport's headers and the
-- handler are a record; a lookup that throws is one that its transport does not have.
use idempotency.Base.{
  ℕ, Bool, true, false, ◌&&◌, List, [], ◌∷◌, Option, none, some, leb, if◌then◌else◌, ite, text_eq,
  Text, text,
}
use idempotency.Json.{Json, JsonFields}
use idempotency.Fingerprint.{decimal, canonical_json}
use idempotency.Value.{Value, Items, finite, non_finite}
use idempotency.Result.Decoding.{decode_result}
use idempotency.Interceptor.{StoredResponse, ErrorKind, Rejection}
use idempotency.Interceptor.Execution.{Capture, not_final}
use idempotency.Interceptor.Worlds.{Returned, returned, thrown}
use idempotency.Contexts.Picking.{pick}
use idempotency.Contexts.{
  DeclarativeKeySource, default_source, header, payload, Thrown, Host, StoreIf, Raised, Delivered,
  raises, or_nullish, error_record, capture_http_or_unknown_error, success_capture, delivered,
  rebuild_http_exception, code_text,
}
use idempotency.Contexts.Graphql.{default_key_field, with_number}

-- Each transport's headers, by a name: `undefined` where there are none.
pub record Transport : Type 0 where
  pub nats : Text → Returned Value
  pub kafka : Text → Returned Value
  pub rabbitmq : Text → Returned Value
  pub mqtt : Text → Returned Value
  pub grpc : Text → Returned Value

pub record Message : Type 0 where
  pub content : Value
  pub transport : Transport
  pub has_user : Bool
  -- `ClassName.methodName`.
  pub handler : Text
  -- `getPattern()` of the transport's context, and the pattern in the handler's metadata.
  pub pattern : Returned Value
  pub metadata_pattern : Value

-- `a || b` and `a ?? b`, where the second is looked up only if need be.
abbrev is_falsy : Value → Bool
is_falsy Value.undefined = true
is_falsy Value.null = true
is_falsy (Value.boolean false) = true
is_falsy (Value.number (finite s)) = ite (text_eq s (text "0")) true false
is_falsy (Value.number (non_finite s)) = ite (text_eq s (text "NaN")) true false
is_falsy (Value.bigint s) = ite (text_eq s (text "0")) true false
is_falsy (Value.string []) = true
is_falsy v = false

abbrev is_nullish : Value → Bool
is_nullish Value.undefined = true
is_nullish Value.null = true
is_nullish v = false

unfoldable pub fall_back : (Value → Bool) → Returned Value → Returned Value → Returned Value
fall_back test thrown b = thrown
fall_back test (returned v) b = if test v then b else returned v

unfoldable pub candidates : Transport → (name lower : Text) → List (Returned Value)
unfolding fall_back
candidates t name lower =
    fall_back is_falsy (t.nats name) (t.nats lower)
    ∷ fall_back is_nullish (t.kafka name) (t.kafka lower)
    ∷ fall_back is_nullish (t.rabbitmq name) (t.rabbitmq lower)
    ∷ fall_back is_nullish (t.mqtt name) (t.mqtt lower)
    ∷ t.grpc lower
    ∷ []

abbrev first_item : Value → Value
first_item (Value.array (Items.item v xs)) = v
first_item (Value.array Items.nil) = Value.undefined
first_item v = v

module _ (host : Host) (utf8_text : List ℕ → Text) where
  -- The bytes of a `Buffer` as text.
  abbrev unbuffered : Value → Value
  unbuffered (Value.buffer bytes) = Value.string (utf8_text bytes)
  unbuffered v = v

  unfoldable pub header_value : Value → Value
  header_value v = unbuffered (first_item v)

  abbrev is_blank : Value → Bool
  is_blank Value.undefined = true
  is_blank Value.null = true
  is_blank (Value.string []) = true
  is_blank v = false

  -- The loop of `transportHeader`.
  unfoldable pub first_present : List (Returned Value) → Value
  unfolding header_value
  first_present [] = Value.undefined
  first_present (thrown ∷ rest) = first_present rest
  first_present (returned v ∷ rest) =
      let later = first_present rest in if is_blank (header_value v) then later else header_value v

  unfoldable pub transport_header : Transport → Text → Value
  unfolding first_present candidates
  transport_header t name = first_present (candidates t name (host.lower name))

  unfoldable pub read_key : Message → DeclarativeKeySource → (header : Text) → Returned Value
  unfolding transport_header pick
  read_key m default_source h =
      returned (or_nullish (pick host m.content default_key_field) (transport_header m.transport h))
  read_key m (header name) h = returned (transport_header m.transport name)
  read_key m (payload path) h = returned (pick host m.content path)
  read_key m source h = thrown

abbrev known : Returned Value → Value
known thrown = Value.undefined
known (returned v) = v

abbrev pattern_text : (hash_of_bytes : List ℕ → Text) → Value → Text
pattern_text hash (Value.string s) = s
pattern_text hash v = canonical_json hash v

unfoldable pub identity : (hash_of_bytes : List ℕ → Text) → Message → List Text
unfolding canonical_json
identity hash m =
    text "rpc" ∷ pattern_text hash (or_nullish (known m.pattern) m.metadata_pattern) ∷ []

unfoldable pub key_suffix : Message → Text
key_suffix m = m.handler

-- The status of an `RpcException`: a 400, unless it says otherwise.
unfoldable pub status_of : Option ℕ → ℕ
status_of none = 400
status_of (some status) = if leb 400 status && leb status 599 then status else 400

module _ (host : Host) where
  unfoldable pub capture_success : StoreIf → Value → Capture
  unfolding success_capture
  capture_success = success_capture host false

  -- `body ?? null`.
  abbrev cloned : Option Json → Option (Option Json)
  cloned none = none
  cloned (some j) = some (some j)

  unfoldable pub capture_error : StoreIf → Thrown → Capture
  unfolding status_of capture_http_or_unknown_error
  capture_error store_if (Thrown.rpc_exception code error) =
      if store_if (status_of code) (some (Thrown.rpc_exception code error))
      then error_record ErrorKind.rpc (status_of code)
          (cloned (host.json_clone (or_nullish error Value.null)))
      else not_final
  capture_error store_if e = capture_http_or_unknown_error host store_if e

  abbrev replay_kind : StoredResponse → Option ErrorKind → Delivered
  replay_kind r none = delivered (decode_result host.platform r.body)
  replay_kind r (some ErrorKind.rpc) = raises (Raised.rpc_error r.body)
  replay_kind r (some kind) = rebuild_http_exception r

  unfoldable pub replay : StoredResponse → Delivered
  unfolding decode_result
  replay r = replay_kind r r.error

-- `reject`, the message left out.
unfoldable pub reject : Rejection → Raised
unfolding decimal
reject r = Raised.rpc_error (
    some (
      Json.object (
        JsonFields.field (text "status") (Json.string (text "error")) (
          JsonFields.field (text "code") (Json.string (code_text r.code)) (
            with_number (text "statusCode") (some r.status)
              (with_number (text "retryAfter") r.retry_after JsonFields.no_field))))))
