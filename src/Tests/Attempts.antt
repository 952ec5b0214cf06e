-- ===== src/Tests/Attempts.antt =====
-- One request sent again: while its first attempt runs, and after it.
use mathlib.Core.List
use mathlib.Core.Option
use idempotency.Base.Dict
use idempotency.Memory as Mem
use idempotency.Key.Uri.{encode_uri_component, is_unreserved}
use idempotency.Key.{normalize_key, normalize_scope, store_key}
use idempotency.Fingerprint.{sha256, canonical_json}
use idempotency.Base.{ℕ, ◌≡◌, ◌≢◌, refl, false, List, [], ◌∷◌, none, some, text, arith, text_eq}
use idempotency.Encryption.{plaintext_codec}
use idempotency.Store.{Entry}
use idempotency.Store.History.{Call, acquire, release, run}
use idempotency.Interceptor.{
  ContextType, StoredPayload, plain, execute, replay, answers, opened, key_in_use, Event,
}
use idempotency.Interceptor.Worlds.{World, planned, failure, rejection}
use idempotency.Interceptor.Planning.{fingerprint_of, plan}
use idempotency.Interceptor.Planning.Locking.{plan-Locked, Locked}
use idempotency.Interceptor.Recording.{record_outcome}
use idempotency.Interceptor.Recording.Retry.{plan_refuses, plan_replays}
use idempotency.Interceptor.Recording.Once.{runs_once, stored_result_is_replayed}
use idempotency.Tests.{
  hash, options, request, call, at, store, empty, running, fingerprint, response, runs, asked, held,
}

abbrev meddling : List (ℕ × Call StoredPayload)
meddling = (30, release (text "k1") (text "o2")) ∷ []

abbrev meddled : World store.State
meddled = record { store = (run store running.store meddling).0; events = []; warnings = [] }

runs_once_example :
    (plan store plaintext_codec hash hash options (at 60) (text "o2") meddled request).1
    ≢ planned (execute call (text "o2"))
runs_once_example =
    runs_once store plaintext_codec hash hash options (at 0) (text "o1") empty request call meddling
      options (at 60) (text "o2") meddled request call runs (omega arith, tt)
      ((omega arith, λ _ e. ground arith), tt) refl (omega arith) (omega arith) refl

abbrev recorded : World store.State
recorded =
    record_outcome store plaintext_codec running call (text "o1") (some response) 1000 false [] 10
      answers

abbrev retrying : List (ℕ × Call StoredPayload)
retrying = (20, acquire (text "k1") (text "o2") fingerprint 50) ∷ []

abbrev retried : World store.State
retried = record { store = (run store recorded.store retrying).0; events = []; warnings = [] }

opens :
    plaintext_codec.open_payload (text "k1") (plaintext_codec.seal [] (text "k1") response)
    ≡ opened response
unfolding plaintext_codec
opens = refl

stored_result_is_replayed_example :
    (plan store plaintext_codec hash hash options (at 60) (text "o3") retried request).1
    ≡ planned (replay call response)
stored_result_is_replayed_example =
    stored_result_is_replayed store plaintext_codec hash hash running call (text "o1") fingerprint
      90 1000 10 false [] held retrying (omega arith, tt) response opens (omega arith, tt) options
      (at 60) (text "o3") retried request asked refl refl (omega arith) (omega arith)

plan-Locked_example :
    (text "o1" ≡ text "o1")
    × Locked store plaintext_codec hash hash options (at 0) (text "o1") empty running call
plan-Locked_example =
    plan-Locked store plaintext_codec hash hash options (at 0) (text "o1") empty request call
      (text "o1") runs

plan_refuses_example :
    (plan store plaintext_codec hash hash options (at 10) (text "o2") running request).1
    ≡ failure (rejection (record { code = key_in_use; status = 409; retry_after = some 2 }))
unfolding text_eq fingerprint_of sha256 List.flat_map canonical_json
plan_refuses_example =
    plan_refuses store plaintext_codec hash hash options (at 10) (text "o2") running request call
      fingerprint asked refl fingerprint (text "o1") 90 held

stored :
    store.view recorded.store 60 (text "k1")
    ≡ some (Entry.completed fingerprint (plain response) 1010)
unfolding plan record_outcome Dict.get Mem.complete normalize_key normalize_scope store_key
    Option.bind encode_uri_component Mem.acquire Dict.set text_eq List.flat_map is_unreserved
    plaintext_codec
stored = refl

unsealed : plaintext_codec.open_payload (text "k1") (plain response) ≡ opened response
unfolding plaintext_codec
unsealed = refl

plan_replays_example :
    let done = plan store plaintext_codec hash hash options (at 60) (text "o2") recorded request in
    (done.1 ≡ planned (replay call response))
    × (done.0.events
        ≡ Event.replayed ContextType.http (text "Payments.create") (text "k1") none 201
          ∷ recorded.events)
unfolding text_eq fingerprint_of sha256 List.flat_map canonical_json
plan_replays_example =
    plan_replays store plaintext_codec hash hash options (at 60) (text "o2") recorded request call
      fingerprint asked refl fingerprint (plain response) 1010 response stored unsealed
