-- ===== src/Tests/Leaving.antt =====
-- A caller that leaves, and a key that is used for two requests.
use mathlib.Core.List
use mathlib.Core.Option
use idempotency.Base.{◌≡◌, ◌≢◌, refl, List, [], ◌∷◌, none, some, inl, text, ℕ, arith, map}
use idempotency.Value.{Value}
use idempotency.Key.Uri.{encode_uri_component, is_unreserved}
use idempotency.Key.{normalize_key, normalize_scope, store_key}
use idempotency.Fingerprint.{utf8_bytes, canonical_json}
use idempotency.Encryption.{plaintext_codec}
use idempotency.Store.History.{Call, acquire, run}
use idempotency.Interceptor.{StoredPayload, execute, answers, key_reused}
use idempotency.Interceptor.Worlds.{Request, World, planned, failure, rejection}
use idempotency.Interceptor.Planning.{plan, refusing, fingerprint_of, both, call_of}
use idempotency.Interceptor.Planning.Asking.{asks}
use idempotency.Interceptor.Recording.Misuse.{parts_of, other_request_is_refused}
use idempotency.Interceptor.Interception as Interception
use idempotency.Interceptor.Interception.{Step, Subscription, subscribe, plan_ends, caller_leaves}
use idempotency.Interceptor.Interception.Leaving.{left_call_frees_key}
use idempotency.Tests.{
  hash, options, request, call, at, store, empty, running, fingerprint, runs, asked, held,
}

abbrev trying : List (ℕ × Call StoredPayload)
trying = (20, acquire (text "k1") (text "o2") fingerprint 50) ∷ []

abbrev tried : World store.State
tried = record { store = (run store running.store trying).0; events = []; warnings = [] }

abbrev left : Subscription store.State
left = Interception.run store (subscribe store tried) (
    caller_leaves
    ∷ plan_ends (plan store plaintext_codec hash hash options (at 0) (text "o1") empty request).1 30
        answers
    ∷ caller_leaves
    ∷ [])

left_call_frees_key_example :
    (left.reaction ≡ none)
    × ((plan store plaintext_codec hash hash options (at 40) (text "o2") left.world request).1
        ≡ planned (execute call (text "o2")))
left_call_frees_key_example =
    left_call_frees_key store plaintext_codec hash hash options (at 0) (text "o1") empty request
      call trying tried 30 (caller_leaves ∷ []) options (at 40) (text "o2") request call fingerprint
      runs (omega arith, tt) ((omega arith, λ _ e. ground arith), tt) refl (omega arith) asked refl
      (omega arith) (omega arith) refl

abbrev other_request : Request
other_request = record request { payload = Value.string (text "more") }

other_asked :
    asks store plaintext_codec hash hash other_request
    ≡ some (
      call,
      fingerprint_of store plaintext_codec hash hash none other_request
          (Value.string (text "more")),
    )
unfolding asks normalize_key normalize_scope store_key Option.bind encode_uri_component
    List.flat_map is_unreserved both call_of
other_asked = refl

differ :
    map utf8_bytes (parts_of store plaintext_codec hash hash none request Value.null)
    ≢ map utf8_bytes
        (parts_of store plaintext_codec hash hash none other_request (Value.string (text "more")))
unfolding utf8_bytes canonical_json List.flat_map
differ e = ground arith

other_request_is_refused_example :
    (plan store plaintext_codec hash hash options (at 10) (text "o2") running other_request).1
    ≡ failure (rejection (refusing key_reused 422))
other_request_is_refused_example =
    other_request_is_refused store plaintext_codec hash hash options (at 10) (text "o2") running
      request other_request call none none Value.null (Value.string (text "more")) other_asked refl
      (inl (text "o1", 90, held)) differ (λ e. e)
