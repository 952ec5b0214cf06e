-- ===== src/Tests/Retries.antt =====
-- A call and its retry.
use idempotency.Base.{◌≡◌, refl, false, List, [], ◌∷◌, some, text, text_eq, arith, ℕ}
use idempotency.Encryption.{plaintext_codec}
use idempotency.Store.History.{Call, acquire, run}
use idempotency.Interceptor.{ContextType, StoredPayload, StoredResponse, replay, opened, answers}
use idempotency.Interceptor.Worlds.{World, planned}
use idempotency.Interceptor.Planning.{plan}
use idempotency.Interceptor.Recording.{record_outcome}
use idempotency.Interceptor.Execution as Execution
use idempotency.Interceptor.Execution.{
  outcome_of, emits, completes, record_settles, start, sends, sends_complete, records, settles,
  Capture,
}
use idempotency.Contexts.{delivers}
use idempotency.Contexts.Http.{before}
use idempotency.Contexts.Http.Responses as Http
use idempotency.Contexts.Retries.{IsPlain, retry_gets_the_result}
use idempotency.Contexts.Adapters as Adapters
use idempotency.Contexts.Adapters.{sends_every_value, capture_success}
use idempotency.Options.Startup.{has}
use idempotency.Tests.{hash, options, request, call, at, store, running, fingerprint, asked, held}
use idempotency.Tests.Results.{result, result-IsData}
use idempotency.Tests.Adapters.{host, handler, etag, response, later_response, below_500}

abbrev captured : Capture
captured = capture_success host ContextType.http (etag ∷ []) handler response below_500 result

abbrev recorded : World store.State
recorded =
    record_outcome store plaintext_codec running call (text "o1") (outcome_of captured) 1000 false
      [] 10 answers

abbrev retrying : List (ℕ × Call StoredPayload)
retrying = (20, acquire (text "k1") (text "o2") fingerprint 50) ∷ []

abbrev retried : World store.State
retried = record { store = (run store recorded.store retrying).0; events = []; warnings = [] }

opens :
    (r : StoredResponse)
    → plaintext_codec.open_payload (text "k1") (plaintext_codec.seal [] (text "k1") r) ≡ opened r
unfolding plaintext_codec
opens r = refl

plain : IsPlain host (etag ∷ []) handler response later_response below_500 result ContextType.http
unfolding Http.handler_writes_response has before text_eq
plain = (refl, refl, refl, (refl, tt))

retry_gets_the_result_example :
    (r : StoredResponse) × (((Execution.run
          (sends_every_value ContextType.http)
          start
          (emits result ∷ completes captured ∷ record_settles ∷ [])).effects
        ≡ sends_complete ∷ sends result ∷ settles ∷ records (some r) ∷ [])
      × ((plan store plaintext_codec hash hash options (at 60) (text "o3") retried request).1
          ≡ planned (replay call r))
      × ((Adapters.replay host ContextType.http r later_response).1 ≡ delivers result)
      × ((Adapters.replay host ContextType.http r later_response).0.status ≡ 201))
retry_gets_the_result_example =
    retry_gets_the_result host (etag ∷ []) handler response later_response below_500 result store
      plaintext_codec hash hash ContextType.http running call (text "o1") fingerprint 90 1000 10
      false [] retrying options (at 60) (text "o3") retried request result-IsData plain held opens
      (omega arith, tt) (omega arith, tt) asked refl (omega arith) (omega arith) refl
