-- ===== src/Interceptor.antt =====
-- lib/interceptors/idempotency.interceptor.ts and the interfaces that it shares with its parts: the
-- events, the rejections, the options of one handler, the stored responses and their codec. Message
-- texts and log lines are left out.
pub mod Worlds
pub mod Warnings
pub mod Planning
pub mod Recording
pub mod Renewal
pub mod Execution
pub mod Interception
use idempotency.Base.{ℕ, ◌≡◌, Bool, true, false, List, [], ◌∷◌, Option, none, some, Text}
use idempotency.Json.{Json}

pub data ContextType : Type 0 where
  http graphql rpc : ContextType

pub data ErrorCode : Type 0 where
  key_required key_invalid key_reused key_in_use record_unreadable : ErrorCode

pub record Rejection : Type 0 where
  pub code : ErrorCode
  pub status : ℕ
  -- Seconds.
  pub retry_after : Option ℕ

pub data Phase : Type 0 where
  extend complete release : Phase

pub data Event : Type 0 where
  replayed : (context : ContextType) (handler key : Text) (scope : Option Text) (status : ℕ) → Event
  rejected :
      (context : ContextType) (handler : Text) (code : ErrorCode) (status : ℕ)
      (key scope : Option Text)
      → Event
  lock_lost :
      (context : ContextType) (handler key : Text) (scope : Option Text) (phase : Phase) → Event

-- The exception type that a stored error is rebuilt as.
pub data ErrorKind : Type 0 where
  http rpc graphql : ErrorKind

-- A header's value: a string or an array of strings.
pub data HeaderValue : Type 0 where
  one : Text → HeaderValue
  several : List Text → HeaderValue

pub record StoredResponse : Type 0 where
  pub status : ℕ
  pub headers : List (Text × HeaderValue)
  -- `none` is `undefined`.
  pub body : Option Json
  pub error : Option ErrorKind

-- What a store persists: plaintext, or an object with a `sealed` property (a string or not).
pub data StoredPayload : Type 0 where
  plain : StoredResponse → StoredPayload
  sealed : Text → StoredPayload
  sealed_other : StoredPayload

-- How `open()` ends: the response, an `UnreadableRecordError`, or any other exception.
pub data Opened : Type 0 where
  opened : StoredResponse → Opened
  unreadable : Opened
  threw : Opened

-- `ResponseCodec`; `seal` takes the random bytes that it draws.
pub record Codec : Type 0 where
  pub seal : (random : List ℕ) (store_key : Text) → StoredResponse → StoredPayload
  pub open_payload : (store_key : Text) → StoredPayload → Opened

-- `Resolved`: the effective options of a handler, durations in milliseconds.
pub record Resolved : Type 0 where
  pub required : Bool
  pub ttl : ℕ
  pub lock_ttl : ℕ
  pub max_lock_hold : ℕ
  pub retry_after : ℕ

-- `Call`: one keyed call.
pub record Call : Type 0 where
  pub context : ContextType
  pub handler : Text
  pub key : Text
  pub scope : Option Text
  pub store_key : Text

pub data Plan : Type 0 where
  passthrough : Plan
  execute : Call → (owner : Text) → Plan
  replay : Call → StoredResponse → Plan

-- How a store call ends: its answer, or a rejection (an error of the store, or a timeout).
pub data Outcome (R : Type 0) : Type 0 where
  answered : R → Outcome R
  failed : Outcome R

-- What becomes of a store call: it is answered in time, it lands and its reply is lost or comes too
-- late, or it never lands.
pub data Reply : Type 0 where
  answers lost dropped : Reply

-- `ask`: one call of the store.
unfoldable pub ask : {S R : Type 0} → Reply → (S → S × R) → S → S × Outcome R
ask answers call s = let r = call s in (r.0, answered r.1)
ask lost call s = ((call s).0, failed)
ask dropped call s = (s, failed)
