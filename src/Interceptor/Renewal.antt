-- ===== src/Interceptor/Renewal.antt =====
-- `renew` and the renewal's part of `execute` and `record`: one attempt's flags and timers, moved by
-- the timers that fire, the store's answers, the outcome, and the app's shutdown.
pub mod Heartbeat
pub mod Reports
use idempotency.Base.{
  ℕ, ◌+◌, ◌/◌, Bool, true, false, not, ◌&&◌, ◌||◌, List, [], ◌∷◌, ltb, leb, if◌then◌else◌,
}
use idempotency.Interceptor.{Phase, extend, Outcome, answered, failed}

abbrev pub max_timeout : ℕ
max_timeout = 2_147_483_647

-- `Math.min` and `Math.max`.
abbrev min_of : ℕ → ℕ → ℕ
min_of a b = if leb a b then a else b

abbrev max_of : ℕ → ℕ → ℕ
max_of a b = if leb a b then b else a

-- The interval between two renewals, and the delay of the ceiling.
unfoldable pub interval : (lock_ttl : ℕ) → ℕ
interval lock_ttl = min_of (max_of 1 (lock_ttl / 3)) max_timeout

unfoldable pub ceiling_delay : (max_lock_hold : ℕ) → ℕ
ceiling_delay max_lock_hold = min_of max_lock_hold max_timeout

-- `recorded` is set once `record()` has been called, `settled` once the store has answered it;
-- `calls` and `replies` count the `extend()` calls, and `reports` are the events sent, newest first.
pub record Attempt : Type 0 where
  pub stopped : Bool
  pub recording : Bool
  pub pending : Bool
  pub lost : Bool
  pub recorded : Bool
  pub settled : Bool
  pub calls : ℕ
  pub replies : ℕ
  pub reports : List Phase

pub data Action : Type 0 where
  -- The interval's timer, and the ceiling's.
  beats ceiling_reached : Action
  -- The answer to `extend()`.
  extend_ends : Outcome Bool → Action
  -- The handler is done and `record()` is called; the store answers its call of the phase.
  records : Action
  record_ends : Phase → Outcome Bool → Action
  shuts_down : Action

unfoldable pub begin : Attempt
begin = record {
  stopped = false;
  recording = false;
  pending = false;
  lost = false;
  recorded = false;
  settled = false;
  calls = 0;
  replies = 0;
  reports = [];
}

-- `renewal.stop()`.
abbrev stop : Attempt → Attempt
stop a = record a { stopped = true }

-- What `beat` does with the answer, before its `finally`.
unfoldable pub after_extend : Attempt → Outcome Bool → Attempt
after_extend a (answered true) = a
after_extend a (answered false) = stop (
    if not a.stopped && not a.recording
    then record a { lost = true; reports = extend ∷ a.reports }
    else a)
after_extend a failed = a

-- What `record` reports, before its `finally`.
unfoldable pub after_record : Attempt → Phase → Outcome Bool → Attempt
after_record a phase (answered true) = a
after_record a phase (answered false) =
    if a.lost then a else record a { reports = phase ∷ a.reports }
after_record a phase failed = if a.lost then a else record a { reports = phase ∷ a.reports }

-- A cleared timer does not fire, a call ends once, and `recorded ??=` records once.
unfoldable pub step : Attempt → Action → Attempt
unfolding after_extend after_record
step a beats =
    if a.stopped || a.pending then a else record a { pending = true; calls = a.calls + 1 }
step a ceiling_reached = if a.stopped || a.recording then a else stop a
step a (extend_ends r) =
    if a.pending then record (after_extend a r) { pending = false; replies = a.replies + 1 } else a
step a records = if a.recorded then a else record a { recorded = true; recording = true }
step a (record_ends phase r) =
    if a.recorded && not a.settled
    then record (stop (after_record a phase r)) { settled = true }
    else a
step a shuts_down = stop a

unfoldable pub run : Attempt → List Action → Attempt
unfolding step
run a [] = a
run a (x ∷ xs) = run (step a x) xs

-- `onApplicationShutdown`, over the interceptor's renewals.
unfoldable pub on_application_shutdown : List Attempt → List Attempt
unfolding step
on_application_shutdown [] = []
on_application_shutdown (a ∷ renewals) = step a shuts_down ∷ on_application_shutdown renewals
