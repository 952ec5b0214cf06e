-- ===== src/Interceptor/Execution.antt =====
-- `execute`: what becomes of the values that a handler emits. The adapter's captures and the app's
-- promise of `record` are steps of their own: a continuation of `record(…)` runs when it settles.
pub mod Delivery
pub mod Ending
use idempotency.Base.{
  Bool, true, false, not, ◌&&◌, ◌||◌, List, [], ◌∷◌, Option, none, some, if◌then◌else◌,
}
use idempotency.Value.{Value}
use idempotency.Interceptor.{StoredResponse}

-- How a capture ends: a record, `null`, a result that can't be replayed, or an exception of one of
-- the two kinds.
pub data Capture : Type 0 where
  stored : StoredResponse → Capture
  not_final unreplayable threw_unreplayable threw : Capture

-- `outcomeOf`, its warning and log line aside.
unfoldable pub outcome_of : Capture → Option StoredResponse
outcome_of (stored r) = some r
outcome_of c = none

-- What waits for the recording to settle.
pub data Continuation : Type 0 where
  fail : Continuation
  finish : (held : Option Value) → Continuation

-- What the caller and the store see: `records` is the call of `record(…)`, `settles` the end of the
-- store's call that it makes.
pub data Effect : Type 0 where
  sends : Value → Effect
  sends_error sends_complete : Effect
  records : Option StoredResponse → Effect
  settles : Effect

-- `ended` is set once the handler's observable has ended or was unsubscribed, `closed` once the
-- subscriber has; `settled` once `record(…)` has; `effects` are the newest first.
pub record Execution : Type 0 where
  pub held : Option Value
  pub streaming : Bool
  pub ended : Bool
  pub closed : Bool
  pub recorded : Bool
  pub settled : Bool
  pub waiting : Option Continuation
  pub effects : List Effect

pub data Action : Type 0 where
  emits : Value → Action
  -- With what the adapter makes of the error, or of the value that is held.
  fails completes : Capture → Action
  record_settles caller_leaves : Action

unfoldable pub start : Execution
start = record {
  held = none;
  streaming = false;
  ended = false;
  closed = false;
  recorded = false;
  settled = false;
  waiting = none;
  effects = [];
}

-- `subscriber.next`, and its two ends: nothing once it is closed.
abbrev send : Effect → Execution → Execution
send x a = if a.closed then a else record a { effects = x ∷ a.effects }

-- `recorded ??= this.record(…)`.
unfoldable pub record_once : Option StoredResponse → Execution → Execution
record_once outcome a =
    if a.recorded then a else record a { recorded = true; effects = records outcome ∷ a.effects }

unfoldable pub stop_stream : Execution → Execution
unfolding record_once
stop_stream a = record_once none (record a { ended = true })

abbrev send_held : Option Value → Execution → Execution
send_held none a = a
send_held (some v) a = send (sends v) a

abbrev is_some : Option Value → Bool
is_some none = false
is_some (some v) = true

-- `next`, once several values are a stream.
unfoldable pub stream : Value → Execution → Execution
unfolding stop_stream
stream v a =
    let opened =
      if a.streaming then a else send_held a.held (record a { streaming = true; held = none }) in
    let sent = send (sends v) opened in if sent.closed then stop_stream sent else sent

unfoldable pub on_next : (sends_every_value : Bool) → Value → Execution → Execution
unfolding stream
on_next sends_every_value v a =
    if not sends_every_value || (not a.streaming && not (is_some a.held))
    then record a { held = some v }
    else stream v a

unfoldable pub captured : Bool → Capture → Option StoredResponse
unfolding outcome_of
captured true c = none
captured false c = outcome_of c

-- The end of the subscriber runs its teardown.
abbrev close : Execution → Execution
close a =
    let closed = record a { closed = true } in if a.streaming then stop_stream closed else closed

unfoldable pub continue_with : Continuation → Execution → Execution
unfolding stop_stream
continue_with fail a = close (send sends_error a)
continue_with (finish held) a = close (send sends_complete (send_held held a))

unfoldable pub after_record : Option Continuation → Execution → Execution
unfolding continue_with
after_record none a = a
after_record (some k) a = continue_with k (record a { waiting = none })

-- The promise of `record(…)` settles once.
unfoldable pub settle : Execution → Execution
settle a = if a.settled then a else record a { settled = true; effects = settles ∷ a.effects }

unfoldable pub step : (sends_every_value : Bool) → Execution → Action → Execution
unfolding on_next captured record_once settle after_record stop_stream
step every a (emits v) = if a.ended then a else on_next every v a
step every a (fails c) =
    if a.ended
    then a
    else record (record_once (captured a.streaming c) a) { ended = true; waiting = some fail }
step every a (completes c) =
    if a.ended
    then a
    else record (record_once (captured (a.streaming || not (is_some a.held)) c) a) {
      ended = true;
      waiting = some (finish (if a.streaming then none else a.held));
    }
step every a record_settles = if a.recorded then after_record a.waiting (settle a) else a
step every a caller_leaves = if a.closed then a else close a

unfoldable pub run : (sends_every_value : Bool) → Execution → List Action → Execution
unfolding step
run every a [] = a
run every a (x ∷ xs) = run every (step every a x) xs
