-- ===== src/Interceptor/Worlds.antt =====
-- What `plan` is given, what it may come to, and the interceptor's side of the world.
use idempotency.Base.{ℕ, Bool, true, false, List, ◌∷◌, Option, none, some, Text}
use idempotency.Value.{Value}
use idempotency.Interceptor.{ContextType, ErrorCode, Rejection, Event, Call, Plan, Reply}

-- What a function of the application does: it returns, or it throws (or its promise rejects).
pub data Returned (A : Type 0) : Type 0 where
  returned : A → Returned A
  thrown : Returned A

-- What `scopeFor` finds: nothing configured, unscoped on purpose, or a function, by its result here.
pub data ScopeSetting : Type 0 where
  unset off : ScopeSetting
  function : Returned Value → ScopeSetting

-- One call, by what the context adapter and the functions among the options return for it.
pub record Request : Type 0 where
  pub context : ContextType
  pub handler : Text
  -- `adapter.prepare`, `readKey`.
  pub prepared : Returned (Unit {0})
  pub raw_key : Returned Value
  pub scope : ScopeSetting
  -- Whether `userLocation` and `unreadBody` find something to warn about.
  pub has_user : Bool
  pub has_unread_body : Bool
  pub identity : List Text
  pub payload : Value
  -- The `fingerprint` option applied to the payload, where it is set.
  pub selected : Option (Returned Value)
  pub key_suffix : Option Text

-- The warnings that `warnOnce` is called for.
pub data Topic : Type 0 where
  unscoped unread_body : Topic

pub data Failure : Type 0 where
  -- `reject`: what the adapter turns into the error of its protocol.
  rejection : Rejection → Failure
  -- An error of the store, or its timeout.
  store_error : Failure
  -- An exception of the application, of `normalizeScope`, `encodeURIComponent` or the codec.
  exception : Failure

pub data Planned : Type 0 where
  planned : Plan → Planned
  failure : Failure → Planned

-- The interceptor's side of the world: the store, the events sent, and the warnings given.
pub record World (S : Type 0) : Type 0 where
  pub store : S
  pub events : List Event
  pub warnings : List Topic

-- When the two store calls of a plan are made and what becomes of them.
pub record Timing : Type 0 where
  pub now : ℕ
  pub acquiring : Reply
  pub later : ℕ
  pub releasing : Reply

module _ {S : Type 0} where
  abbrev pub emit : World S → Event → World S
  emit w e = record w { events = e ∷ w.events }

  abbrev pub warn_if : Bool → Topic → World S → World S
  warn_if true t w = record w { warnings = t ∷ w.warnings }
  warn_if false t w = w

  -- `reject` before there is a call: the event has no key.
  unfoldable pub reject_early : World S → Request → ErrorCode → World S × Planned
  reject_early w q code = (
    emit w (Event.rejected q.context q.handler code 400 none none),
    failure (rejection (record { code = code; status = 400; retry_after = none })),
  )

  unfoldable pub reject : World S → Call → Rejection → World S × Planned
  reject w c r = (
    emit w (Event.rejected c.context c.handler r.code r.status (some c.key) c.scope),
    failure (rejection r),
  )
