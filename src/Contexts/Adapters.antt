-- ===== src/Contexts/Adapters.antt =====
-- The adapters of lib/interceptors/idempotency.interceptor.ts, by the context that each serves. Only
-- the HTTP adapter touches the response.
use idempotency.Base.{Bool, true, false, List, Text}
use idempotency.Value.{Value}
use idempotency.Interceptor.{ContextType, StoredResponse}
use idempotency.Interceptor.Execution.{Capture}
use idempotency.Contexts.{Host, StoreIf, Thrown, Delivered}
use idempotency.Contexts.Http.Responses as Http
use idempotency.Contexts.Http.Responses.{HttpHandler, HttpResponse}
use idempotency.Contexts.Graphql as Graphql
use idempotency.Contexts.Rpc as Rpc

unfoldable pub capture_error : Host → ContextType → StoreIf → Thrown → Capture
unfolding Http.capture_error Graphql.capture_error Rpc.capture_error
capture_error host ContextType.http = Http.capture_error host
capture_error host ContextType.graphql = Graphql.capture_error host
capture_error host ContextType.rpc = Rpc.capture_error host

unfoldable pub replay :
    Host → ContextType → StoredResponse → HttpResponse → HttpResponse × Delivered
unfolding Http.replay Graphql.replay Rpc.replay
replay host ContextType.http r res = Http.replay host r res
replay host ContextType.graphql r res = (res, Graphql.replay host r)
replay host ContextType.rpc r res = (res, Rpc.replay host r)

-- `sendsEveryValue`.
unfoldable pub sends_every_value : ContextType → Bool
sends_every_value ContextType.http = false
sends_every_value ContextType.graphql = false
sends_every_value ContextType.rpc = true

unfoldable pub capture_success :
    Host
    → ContextType
    → (replay_headers : List Text) → HttpHandler
    → HttpResponse
    → StoreIf
    → Value
    → Capture
unfolding Http.capture_success Graphql.capture_success Rpc.capture_success
capture_success host ContextType.http names h res = Http.capture_success host names h res
capture_success host ContextType.graphql names h res = Graphql.capture_success host
capture_success host ContextType.rpc names h res = Rpc.capture_success host
