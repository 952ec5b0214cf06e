-- ===== src/Tests.antt =====
-- The values of the tests and of the examples, and what the definitions compute on them.
mod Attempts
mod Stores
mod Renewals
mod Keys
mod Sealing
mod Startup
mod Deliveries
mod Results
mod Adapters
mod Leaving
mod Retries
mod Sites
mod Suites
use mathlib.Core.List
use mathlib.Core.Option
use idempotency.Base.Dict
use idempotency.Base.{ℕ, ◌≡◌, refl, true, List, [], ◌∷◌, none, some, Text, text, text_eq}
use idempotency.Value.{Value}
use idempotency.Key.Uri.{encode_uri_component, is_unreserved}
use idempotency.Key.{normalize_key, normalize_scope, store_key}
use idempotency.Encryption.{plaintext_codec}
use idempotency.Store.{Store, Entry}
use idempotency.Memory.{acquire}
use idempotency.Memory.Refinement.{memory_store}
use idempotency.Json.{Json}
use idempotency.Interceptor.{
  ContextType, StoredPayload, StoredResponse, Resolved, execute, answers, Call,
}
use idempotency.Interceptor.Worlds.{Request, returned, unset, World, Timing, planned}
use idempotency.Interceptor.Planning.{plan, fingerprint_of, both, call_of}
use idempotency.Interceptor.Planning.Asking.{asks}

abbrev pub hash : List ℕ → Text
hash b = b

abbrev pub options : Resolved
options = record {
  required = true;
  ttl = 1000;
  lock_ttl = 90;
  max_lock_hold = 500;
  retry_after = 1500;
}

abbrev pub request : Request
request = record {
  context = ContextType.http;
  handler = text "Payments.create";
  prepared = returned tt;
  raw_key = returned (Value.string (text "k1"));
  scope = unset;
  has_user = true;
  has_unread_body = true;
  identity = text "POST" ∷ [];
  payload = Value.null;
  selected = none;
  key_suffix = none;
}

abbrev pub call : Call
call = record {
  context = ContextType.http;
  handler = text "Payments.create";
  key = text "k1";
  scope = none;
  store_key = text "k1";
}

abbrev pub at : ℕ → Timing
at now = record { now = now; acquiring = answers; later = now; releasing = answers }

abbrev pub store : Store StoredPayload
store = memory_store StoredPayload

abbrev pub empty : World store.State
empty = record { store = (record { entries = []; operations = 0 }, tt); events = []; warnings = [] }

-- The world after the first attempt took its lock.
abbrev pub running : World store.State
running = (plan store plaintext_codec hash hash options (at 0) (text "o1") empty request).0

abbrev pub fingerprint : Text
fingerprint = fingerprint_of store plaintext_codec hash hash none request Value.null

abbrev pub response : StoredResponse
response = record { status = 201; headers = []; body = some Json.null; error = none }

pub runs :
    (plan store plaintext_codec hash hash options (at 0) (text "o1") empty request).1
    ≡ planned (execute call (text "o1"))
unfolding plan normalize_key normalize_scope store_key Option.bind encode_uri_component
    plaintext_codec acquire text_eq Dict.get List.flat_map is_unreserved
runs = refl

pub asked : asks store plaintext_codec hash hash request ≡ some (call, fingerprint)
unfolding asks normalize_key normalize_scope store_key Option.bind encode_uri_component
    List.flat_map is_unreserved both call_of
asked = refl

pub held :
    store.view running.store 10 (text "k1") ≡ some (Entry.in_flight fingerprint (text "o1") 90)
unfolding plan normalize_key normalize_scope store_key Option.bind encode_uri_component
    plaintext_codec acquire text_eq Dict.get Dict.set List.flat_map is_unreserved
held = refl
