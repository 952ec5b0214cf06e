-- ===== src/Tests/Adapters.antt =====
-- Calls by context: what is captured of them and replayed.
use mathlib.Core.List
use mathlib.Core.Option
use idempotency.Base.Dict
use idempotency.Base.{
  ascii_lower, ℕ, ◌≡◌, refl, true, false, not, [], ◌∷◌, Option, none, some, Text, text, text_eq,
  arith, ite, leb, if◌then◌else◌,
}
use idempotency.Json.{Json}
use idempotency.Value.{Value}
use idempotency.Key.{store_key}
use idempotency.Key.Uri.{encode_uri_component, is_unreserved}
use idempotency.Key.Unique.{IsPart}
use idempotency.Options.Startup.{has, default_header}
use idempotency.Interceptor.{ContextType, StoredResponse, one}
use idempotency.Interceptor.Execution.{stored}
use idempotency.Contexts.{Host, StoreIf, Thrown, Raised, delivers, clone_or_undefined}
use idempotency.Contexts.Http.Responses as Http
use idempotency.Contexts.Http.Responses.{HttpHandler, HttpResponse, or_else, replayed_header}
use idempotency.Contexts.Http.Fidelity.{replay-capture_success}
use idempotency.Contexts.Http.Safe.{HasAllowedHeaders, capture_success-HasAllowedHeaders}
use idempotency.Contexts.Http.{before}
use idempotency.Contexts.Adapters as Adapters
use idempotency.Contexts.Errors.{Shown, Handled, replay-capture_error}
use idempotency.Contexts.Graphql.{root, step, field_path, path_keys, key_suffix, ResolverCall}
use idempotency.Contexts.Requests.{App, graphql_request}
use idempotency.Interceptor.Worlds.{Request, returned, thrown}
use idempotency.Options.{resolve}
use idempotency.Tests.Startup as Startup
use idempotency.Contexts.Graphql.Paths.{one_record_per_field}
use idempotency.Tests.Results.{platform, result, result-IsData}
use idempotency.Encryption.{join_dots}
use idempotency.Tests.Sealing.{crypto}
use idempotency.Tests.Startup.{rounded, options, expected, configured, lowered}

abbrev cloned : Value → Option Json
cloned (Value.string s) = some (Json.string s)
cloned v = none

abbrev pub host : Host
host = record {
  platform = platform;
  json_clone = cloned;
  nest_response = λ n. Value.null;
  message_response = λ s n. Value.null;
  status_text = λ n. none;
  lower = ascii_lower;
  upper = λ s. s;
  to_text = λ v. [];
  is_positive = λ v. false;
  response_params = text "1" ∷ text "2" ∷ [];
  inherited = λ v k. Value.undefined;
}

abbrev pub handler : HttpHandler
handler = record { sse = false; redirect = none; params = text "0:0" ∷ []; passthrough = false }

abbrev pub etag : Text
etag = text "etag"

abbrev pub response : HttpResponse
response = record {
  status = 201;
  sent = false;
  headers = (etag, one (text "v1")) ∷ (text "x-other", one (text "a")) ∷ [];
}

abbrev pub later_response : HttpResponse
later_response = record { status = 200; sent = false; headers = [] }

abbrev pub below_500 : StoreIf
below_500 status e = not (leb 500 status)

replay-capture_success_example :
    (r : StoredResponse) × (Http.capture_success host (etag ∷ []) handler response below_500 result
      ≡ stored r)
    × (let done = Http.replay host r later_response in
        (done.1 ≡ delivers result)
        × (done.0.status ≡ 201)
        × (Dict.get etag done.0.headers
            ≡ ite (text_eq replayed_header etag) (some (one (text "true"))) (
                or_else
                  (if has etag (etag ∷ []) then Dict.get etag response.headers else none)
                  none)))
unfolding Dict.get Http.handler_writes_response has before text_eq
replay-capture_success_example =
    replay-capture_success host (etag ∷ []) handler response later_response below_500 result etag
      result-IsData refl refl refl (refl, tt)

abbrev redirecting : HttpHandler
redirecting = record handler {
  redirect = some (record { url = some (text "/new"); status_code = none });
}

capture_success-HasAllowedHeaders_example :
    HasAllowedHeaders host
      (Http.capture_success host expected.replay_headers redirecting response below_500 result)
capture_success-HasAllowedHeaders_example =
    capture_success-HasAllowedHeaders host rounded crypto options expected redirecting response
      below_500 result lowered configured

abbrev refusal : Thrown
refusal = Thrown.http_exception 404 (Value.string (text "no such order"))

refusal-Shown :
    Shown host refusal ContextType.graphql 404
      (Raised.http_error (some (Json.string (text "no such order"))) 404)
unfolding clone_or_undefined
refusal-Shown = Shown.http_exception refl

replay-capture_error_example :
    Handled host below_500 later_response
      (Adapters.capture_error host ContextType.graphql below_500 refusal)
      ContextType.graphql
      true
      (Raised.http_error (some (Json.string (text "no such order"))) 404)
replay-capture_error_example =
    replay-capture_error host below_500 later_response refusal ContextType.graphql 404
      (Raised.http_error (some (Json.string (text "no such order"))) 404) refusal-Shown

abbrev app : App ℕ
app = record { key = λ f. thrown; scope = λ f. thrown; fingerprint = λ f. thrown }

-- The field of the first item of a list.
abbrev paying : ResolverCall
paying = record {
  args = Value.undefined;
  headers = [];
  has_user = false;
  path = step (text "pay") (step (text "0") (step (text "b") root));
  parent_type = some (text "Mutation");
  field_name = some (text "pay");
  mutation_type = some (text "Mutation");
}

abbrev paying_request : Request
paying_request =
    graphql_request host app (resolve expected.defaults none (some Startup.handler)) default_header
      (text "Payments.pay") (returned tt) paying

paying-named : store_key none (text "k1") paying_request.key_suffix ≡ some (text "k1:b.0.pay")
unfolding store_key Option.bind encode_uri_component List.flat_map is_unreserved field_path
    path_keys join_dots graphql_request key_suffix
paying-named = refl

paying-IsPart : IsPart paying_request.key_suffix
unfolding field_path path_keys join_dots graphql_request key_suffix
paying-IsPart = ((λ e. cc), ground arith)

one_record_per_field_example : paying.path ≡ paying.path
one_record_per_field_example =
    one_record_per_field host app (resolve expected.defaults none (some Startup.handler))
      default_header (text "Payments.pay") (returned tt) paying paying none (text "k1")
      (text "k1:b.0.pay") tt (ground arith) (ground arith) (ground arith) paying-IsPart
      paying-IsPart paying-named paying-named
