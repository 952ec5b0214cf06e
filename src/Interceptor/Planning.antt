-- ===== src/Interceptor/Planning.antt =====
-- `plan`: what is to become of one call of a handler marked with `@Idempotent()`.
pub mod Asking
pub mod Laws
pub mod Locking
use idempotency.Base.{
  ℕ, ◌+◌, ◌/◌, ◌≡◌, Bool, true, false, not, ◌&&◌, ite, List, [], ◌∷◌, ◌++◌, Option, none, some,
  if◌then◌else◌, Text, text_eq,
}
use idempotency.Value.{Value}
use idempotency.Key.{
  KeyResult, missing, invalid, valid, normalize_key, ScopeResult, global, scoped, refused,
  normalize_scope, store_key,
}
use idempotency.Fingerprint.{canonical_json, sha256}
use idempotency.Store.{Store, AcquireResult}
use idempotency.Interceptor.{
  ContextType, ErrorCode, key_required, key_invalid, key_reused, key_in_use, record_unreadable,
  Rejection, Event, StoredResponse, StoredPayload, Opened, opened, unreadable, threw, Codec,
  Resolved, Call, Plan, passthrough, execute, replay, Outcome, answered, failed, Reply, ask,
}
use idempotency.Interceptor.Worlds.{
  Returned, ScopeSetting, Request, Planned, World, Timing, emit, warn_if, reject_early, reject,
  returned, thrown, unset, off, function, unscoped, unread_body, store_error, exception, planned,
  failure,
}

abbrev pub refusing : ErrorCode → ℕ → Rejection
refusing code status = record { code = code; status = status; retry_after = none }

-- `Promise.all` on the raw scope and the selected payload.
unfoldable pub both : Returned Value → Returned Value → Returned (Value × Value)
both (returned a) (returned b) = returned (a, b)
both (returned a) thrown = thrown
both thrown b = thrown

abbrev pub raw_scope : ScopeSetting → Returned Value
raw_scope unset = returned Value.undefined
raw_scope off = returned Value.undefined
raw_scope (function r) = r

abbrev pub or_payload : Option (Returned Value) → Value → Returned Value
or_payload none payload = returned payload
or_payload (some r) payload = r

abbrev pub is_unset : ScopeSetting → Bool
is_unset unset = true
is_unset off = false
is_unset (function r) = false

abbrev pub is_none {ℓ} : {A : Type ℓ} → Option A → Bool
is_none none = true
is_none (some a) = false

abbrev pub scope_text : Option Text → Text
scope_text none = []
scope_text (some s) = s

module _ (store : Store StoredPayload) (codec : Codec)
    (hash_of_bytes hash_hex : List ℕ → Text) where
  open store use {State}

  unfoldable pub fingerprint_of : Option Text → Request → Value → Text
  fingerprint_of scope q selected =
      sha256 hash_hex
        (scope_text scope ∷ (q.identity ++ canonical_json hash_of_bytes selected ∷ []))

  -- A stored record, once its fingerprint is the call's.
  unfoldable pub open_record : World State → Call → StoredPayload → World State × Planned
  unfolding reject
  open_record w c response = elim (codec.open_payload c.store_key response) [
    | opened r ↦
        (emit w (Event.replayed c.context c.handler c.key c.scope r.status), planned (replay c r))
    | unreadable ↦ reject w c (refusing record_unreadable 500)
    | threw ↦ (w, failure exception)
  ]

  -- From `if (acquired.state === 'acquired')` on.
  unfoldable pub on_acquired :
      Resolved
      → World State
      → Call
      → (owner fingerprint : Text) → AcquireResult StoredPayload
      → World State × Planned
  unfolding reject open_record
  on_acquired o w c owner fingerprint AcquireResult.acquired = (w, planned (execute c owner))
  on_acquired o w c owner fingerprint (AcquireResult.in_flight f) =
      ite (text_eq f fingerprint)
        (reject w c (record {
          code = key_in_use;
          status = 409;
          retry_after = some ((o.retry_after + 999) / 1000);
        }))
        (reject w c (refusing key_reused 422))
  on_acquired o w c owner fingerprint (AcquireResult.completed f response) =
      ite (text_eq f fingerprint) (open_record w c response) (reject w c (refusing key_reused 422))

  -- After the `try` around `acquire()`: on an error the lock is released, should the store have
  -- taken it.
  unfoldable pub settle :
      Resolved
      → Timing
      → World State
      → Call
      → (owner fingerprint : Text) → State × Outcome (AcquireResult StoredPayload)
      → World State × Planned
  unfolding on_acquired ask
  settle o t w c owner fingerprint (s, answered result) =
      on_acquired o (record w { store = s }) c owner fingerprint result
  settle o t w c owner fingerprint (s, failed) =
      let released = ask t.releasing (λ x. store.release x t.later c.store_key owner) s in
      (record w { store = released.0 }, failure store_error)

  unfoldable pub take_lock :
      Resolved → Timing → World State → Call → (owner fingerprint : Text) → World State × Planned
  unfolding settle ask
  take_lock o t w c owner fingerprint = settle o t w c owner fingerprint (
      ask t.acquiring (λ s. store.acquire s t.now c.store_key owner fingerprint o.lock_ttl) w.store)

  unfoldable pub call_of : Request → Text → Option Text → Text → Call
  call_of q key scope name = record {
    context = q.context;
    handler = q.handler;
    key = key;
    scope = scope;
    store_key = name;
  }

  -- Once key, scope and selection are known.
  unfoldable pub with_scope :
      Resolved
      → Timing
      → (owner : Text) → World State
      → Request
      → Text
      → Value
      → Option Text
      → World State × Planned
  unfolding take_lock fingerprint_of call_of
  with_scope o t owner w q key selected scope = elim (store_key scope key q.key_suffix) [
    | none ↦ (w, failure exception)
    | some name ↦ take_lock o t w (call_of q key scope name) owner (fingerprint_of scope q selected)
  ]

  unfoldable pub with_normal_scope :
      Resolved
      → Timing
      → (owner : Text) → World State
      → Request
      → Text
      → Value
      → ScopeResult
      → World State × Planned
  unfolding with_scope
  with_normal_scope o t owner w q key selected global = with_scope o t owner w q key selected none
  with_normal_scope o t owner w q key selected (scoped s) =
      with_scope o t owner w q key selected (some s)
  with_normal_scope o t owner w q key selected refused = (w, failure exception)

  unfoldable pub with_inputs :
      Resolved
      → Timing
      → (owner : Text) → World State
      → Request
      → Text
      → Returned (Value × Value)
      → World State × Planned
  unfolding with_normal_scope
  with_inputs o t owner w q key thrown = (w, failure exception)
  with_inputs o t owner w q key (returned (raw, selected)) =
      with_normal_scope o t owner w q key selected (normalize_scope raw)

  unfoldable pub with_key :
      Resolved → Timing → (owner : Text) → World State → Request → KeyResult → World State × Planned
  unfolding with_inputs both reject_early
  with_key o t owner w q invalid = reject_early w q key_invalid
  with_key o t owner w q missing =
      if o.required then reject_early w q key_required else (w, planned passthrough)
  with_key o t owner w q (valid key) =
      let warned =
        warn_if (is_none q.selected && q.has_unread_body) unread_body
          (warn_if (is_unset q.scope && q.has_user) unscoped w) in
      with_inputs o t owner warned q key
        (both (raw_scope q.scope) (or_payload q.selected q.payload))

  unfoldable pub with_raw_key :
      Resolved
      → Timing
      → (owner : Text) → World State
      → Request
      → Returned Value
      → World State × Planned
  unfolding with_key
  with_raw_key o t owner w q thrown = (w, failure exception)
  with_raw_key o t owner w q (returned raw) = with_key o t owner w q (normalize_key raw)

  unfoldable pub when_prepared :
      Resolved
      → Timing
      → (owner : Text) → World State
      → Request
      → Returned (Unit {0})
      → World State × Planned
  unfolding with_raw_key
  when_prepared o t owner w q thrown = (w, failure exception)
  when_prepared o t owner w q (returned u) = with_raw_key o t owner w q q.raw_key

  unfoldable pub plan :
      Resolved → Timing → (owner : Text) → World State → Request → World State × Planned
  unfolding when_prepared
  plan o t owner w q = when_prepared o t owner w q q.prepared
