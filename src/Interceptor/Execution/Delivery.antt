-- ===== src/Interceptor/Execution/Delivery.antt =====
-- The outcome is recorded once, and before the caller gets a result that is no stream.
use idempotency.Base.{
  if◌then◌else◌, as_number, ℕ, ◌+◌, ◌≤◌, ◌≡◌, refl, Bool, true, false, not, ◌&&◌, ◌||◌, List, [],
  ◌∷◌, Option, none, some, arith,
}
use idempotency.Value.{Value}
use idempotency.Interceptor.Execution.{
  Continuation, fail, finish, Effect, sends, sends_error, sends_complete, records, settles,
  Execution, Action, emits, fails, completes, record_settles, caller_leaves, start, record_once,
  stop_stream, settle, stream, on_next, continue_with, after_record, step, run,
}

abbrev pub recordings : List Effect → ℕ
recordings [] = 0
recordings (sends v ∷ es) = recordings es
recordings (sends_error ∷ es) = recordings es
recordings (sends_complete ∷ es) = recordings es
recordings (records o ∷ es) = recordings es + 1
recordings (settles ∷ es) = recordings es

abbrev pub has_record : List Effect → Bool
has_record [] = false
has_record (sends v ∷ es) = has_record es
has_record (sends_error ∷ es) = has_record es
has_record (sends_complete ∷ es) = has_record es
has_record (records o ∷ es) = true
has_record (settles ∷ es) = has_record es

-- Nothing reaches the caller before a recording.
abbrev pub recorded_first : List Effect → Bool
recorded_first [] = true
recorded_first (sends v ∷ es) = has_record es && recorded_first es
recorded_first (sends_error ∷ es) = has_record es && recorded_first es
recorded_first (sends_complete ∷ es) = has_record es && recorded_first es
recorded_first (records o ∷ es) = recorded_first es
recorded_first (settles ∷ es) = recorded_first es

abbrev pub has_settled : List Effect → Bool
has_settled [] = false
has_settled (sends v ∷ es) = has_settled es
has_settled (sends_error ∷ es) = has_settled es
has_settled (sends_complete ∷ es) = has_settled es
has_settled (records o ∷ es) = has_settled es
has_settled (settles ∷ es) = true

-- Nothing reaches the caller before a recording that has been made has settled.
abbrev pub settled_first : List Effect → Bool
settled_first [] = true
settled_first (sends v ∷ es) = has_settled es && settled_first es
settled_first (sends_error ∷ es) = has_settled es && settled_first es
settled_first (sends_complete ∷ es) = has_settled es && settled_first es
settled_first (records o ∷ es) = settled_first es
settled_first (settles ∷ es) = has_record es && settled_first es

abbrev pub waits : Option Continuation → Bool
waits none = false
waits (some k) = true

record Inv (a : Execution) : Type 0 where
  counted : recordings a.effects ≡ as_number a.recorded
  seen : has_record a.effects ≡ a.recorded
  waiting_recorded : waits a.waiting ≡ true → a.recorded ≡ true
  ended_recorded : not a.ended || a.recorded ≡ true
  ordered : a.streaming || recorded_first a.effects ≡ true
  settled_seen : has_settled a.effects ≡ a.settled
  settled_recorded : not a.settled || a.recorded ≡ true
  settled_ordered : a.streaming || settled_first a.effects ≡ true

start-Inv : Inv start
unfolding start
start-Inv = ground arith

record_once-Inv : (o : _) (a : Execution) → Inv a → Inv (record_once o a)
unfolding record_once
record_once-Inv o a v = ground arith

stop_stream-Inv : (a : Execution) → Inv a → Inv (stop_stream a)
unfolding stop_stream
stop_stream-Inv a v = ground arith

stream-Inv : (v : Value) (a : Execution) → Inv a → Inv (stream v a)
unfolding stream
stream-Inv v a i = ground arith

on_next-Inv : (every : Bool) (v : Value) (a : Execution) → Inv a → Inv (on_next every v a)
unfolding on_next
on_next-Inv every v a i = ground (arith, stream-Inv v a i)

continue_with-Inv :
    (k : Continuation) (a : Execution)
    → a.recorded ≡ true
    → a.settled ≡ true
    → Inv a
    → Inv (continue_with k a)
unfolding continue_with
continue_with-Inv fail a r s i = ground arith
continue_with-Inv (finish none) a r s i = ground arith
continue_with-Inv (finish (some v)) a r s i = ground arith

after_record-Inv :
    (k : Option Continuation) (a : Execution)
    → a.recorded ≡ true
    → a.settled ≡ true
    → Inv a
    → Inv (after_record k a)
unfolding after_record
after_record-Inv none a r s i = i
after_record-Inv (some k) a r s i =
    let idle : Execution = record a { waiting = none } in
    let kept : Inv idle = ground arith in continue_with-Inv k idle r s kept

settle-Inv : (a : Execution) → a.recorded ≡ true → Inv a → Inv (settle a)
unfolding settle
settle-Inv a r i = ground arith

pub settle-settled : (a : Execution) → (settle a).settled ≡ true
unfolding settle
settle-settled a = ground arith

settle-recorded : (a : Execution) → a.recorded ≡ true → (settle a).recorded ≡ true
unfolding settle
settle-recorded a r = ground arith

settles-Inv :
    (a : Execution) (b : Bool)
    → a.recorded ≡ b
    → Inv a
    → Inv (if b then after_record a.waiting (settle a) else a)
settles-Inv a true r i =
    after_record-Inv a.waiting (settle a) (settle-recorded a r) (settle-settled a)
      (settle-Inv a r i)
settles-Inv a false r i = i

step-Inv : (every : Bool) (a : Execution) (x : Action) → Inv a → Inv (step every a x)
unfolding step
step-Inv every a (emits v) i = ground (arith, on_next-Inv every v a i)
step-Inv every a (fails c) i = ground arith
step-Inv every a (completes c) i = ground arith
step-Inv every a record_settles i = settles-Inv a a.recorded refl i
step-Inv every a caller_leaves i = ground arith

run-Inv : (every : Bool) (a : Execution) (xs : List Action) → Inv a → Inv (run every a xs)
unfolding run
run-Inv every a [] i = i
run-Inv every a (x ∷ xs) i = run-Inv every (step every a x) xs (step-Inv every a x i)

-- Whatever the handler emits, and whenever the caller leaves, an attempt records its outcome at most
-- once, and has recorded it once the handler's observable has ended. Unless its values went out as
-- a stream, nothing reached the caller before that.
pub recorded_once :
    (sends_every_value : Bool) (xs : List Action)
    → let a = run sends_every_value start xs in
      (recordings a.effects ≤ 1)
      × (not a.ended || has_record a.effects ≡ true)
      × (a.streaming || recorded_first a.effects ≡ true)
recorded_once every xs =
    let i = run-Inv every start xs start-Inv in
    let a = run every start xs in
    (ground (arith, i.counted), ground (arith, i.seen, i.ended_recorded), i.ordered)

settled_single :
    (k : Option Continuation) (a : Execution)
    → a.streaming ≡ false
    → (after_record k a).streaming ≡ false
unfolding after_record
settled_single none a h = h
settled_single (some fail) a h = ground arith
settled_single (some (finish none)) a h = ground arith
settled_single (some (finish (some v))) a h = ground arith

settle_single : (a : Execution) → a.streaming ≡ false → (settle a).streaming ≡ false
unfolding settle
settle_single a h = ground arith

step_single :
    (a : Execution) (x : Action) → a.streaming ≡ false → (step false a x).streaming ≡ false
unfolding step
step_single a (emits v) h = ground arith
step_single a (fails c) h = ground arith
step_single a (completes c) h = ground arith
step_single a record_settles h = settles (a.recorded)
  where
    settles : (b : Bool) → (if b then after_record a.waiting (settle a) else a).streaming ≡ false
    settles true = settled_single a.waiting (settle a) (settle_single a h)
    settles false = h
step_single a caller_leaves h = ground arith

run_single :
    (a : Execution) (xs : List Action) → a.streaming ≡ false → (run false a xs).streaming ≡ false
unfolding run
run_single a [] h = h
run_single a (x ∷ xs) h = run_single (step false a x) xs (step_single a x h)

-- Where only the last value reaches the caller (HTTP, GraphQL), there is no stream: the caller gets
-- no value, error or completion before the outcome's recording has been made and the store's call
-- for it has ended.
pub single_result_waits : (xs : List Action) → settled_first (run false start xs).effects ≡ true
unfolding start
single_result_waits xs =
    ground (arith, (run-Inv false start xs start-Inv).settled_ordered, run_single start xs refl)
