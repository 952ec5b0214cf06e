-- ===== src/Interceptor/Renewal/Reports.antt =====
-- One report of a lost lock at most, one renewal at a time, and none once the renewal has stopped.
use idempotency.Base.{
  All, as_number, ℕ, ◌+◌, ◌*◌, ◌≤◌, ◌≡◌, refl, ◌∙◌, true, false, List, [], ◌∷◌, arith, length,
}
use idempotency.Interceptor.{answered, failed}
use idempotency.Interceptor.Renewal.{
  max_timeout, interval, Attempt, Action, beats, ceiling_reached, extend_ends, records, record_ends,
  shuts_down, begin, step, run, on_application_shutdown,
}

pub record Inv (a : Attempt) : Type 0 where
  -- One report, by the renewal that found the lock gone or by the outcome's call.
  pub reported : length a.reports ≤ as_number a.lost + as_number a.settled
  pub once : length a.reports ≤ 1
  pub lost_stops : a.lost ≡ true → a.stopped ≡ true
  pub recording_recorded : a.recording ≡ a.recorded
  pub settled_recorded : a.settled ≡ true → (a.recorded ≡ true) × (a.stopped ≡ true)
  pub one_call : a.calls ≡ a.replies + as_number a.pending

begin-Inv : Inv begin
unfolding begin
begin-Inv = ground arith

step-Inv : (a : Attempt) (x : Action) → Inv a → Inv (step a x)
unfolding step
step-Inv a beats v = ground arith
step-Inv a ceiling_reached v = ground arith
step-Inv a (extend_ends (answered true)) v = ground arith
step-Inv a (extend_ends (answered false)) v = ground arith
step-Inv a (extend_ends failed) v = ground arith
step-Inv a records v = ground arith
step-Inv a (record_ends phase (answered true)) v = ground arith
step-Inv a (record_ends phase (answered false)) v = ground arith
step-Inv a (record_ends phase failed) v = ground arith
step-Inv a shuts_down v = ground arith

run-Inv : (a : Attempt) (xs : List Action) → Inv a → Inv (run a xs)
unfolding run
run-Inv a [] v = v
run-Inv a (x ∷ xs) v = run-Inv (step a x) xs (step-Inv a x v)

-- Whatever happens and in whatever order, one attempt reports at most one lost lock and has at most
-- one renewal call open; once its outcome's call has ended, the renewal has stopped.
pub reports_once :
    (xs : List Action)
    → let a = run begin xs in
      (length a.reports ≤ 1) × (a.calls ≤ a.replies + 1) × (a.settled ≡ true → a.stopped ≡ true)
reports_once xs =
    let v = run-Inv begin xs begin-Inv in
    (v.once, ground (arith, v.one_call), λ s. (v.settled_recorded s).1)

step_stopped :
    (a : Attempt) (x : Action)
    → a.stopped ≡ true
    → ((step a x).stopped ≡ true) × ((step a x).calls ≡ a.calls)
unfolding step
step_stopped a beats h = ground arith
step_stopped a ceiling_reached h = ground arith
step_stopped a (extend_ends (answered true)) h = ground arith
step_stopped a (extend_ends (answered false)) h = ground arith
step_stopped a (extend_ends failed) h = ground arith
step_stopped a records h = ground arith
step_stopped a (record_ends phase (answered true)) h = ground arith
step_stopped a (record_ends phase (answered false)) h = ground arith
step_stopped a (record_ends phase failed) h = ground arith
step_stopped a shuts_down h = ground arith

-- A renewal that has stopped (its lock was lost, its outcome's call has ended, the ceiling was
-- reached or the app shut down) stays stopped and calls the store no more.
pub stopped_for_good :
    (a : Attempt) (xs : List Action)
    → a.stopped ≡ true
    → ((run a xs).stopped ≡ true) × ((run a xs).calls ≡ a.calls)
unfolding run
stopped_for_good a [] h = (h, refl)
stopped_for_good a (x ∷ xs) h =
    let one = step_stopped a x h in
    let rest = stopped_for_good (step a x) xs one.0 in (rest.0, rest.1 ∙ one.1)

-- Once the app has shut down, no attempt renews its lock any more, whatever happens to it then.
shutdown_lem :
    (renewals : List Attempt) (xs : List Action)
    → All
        (λ a. ((run a xs).stopped ≡ true) × ((run a xs).calls ≡ a.calls))
        (on_application_shutdown renewals)
unfolding on_application_shutdown
shutdown_lem [] xs = tt
shutdown_lem (a ∷ renewals) xs =
    (stopped_for_good (step a shuts_down) xs refl, shutdown_lem renewals xs)

-- The interval is one that a timer takes, and a third of `lockTtl` at most, but for a `lockTtl`
-- below 3 ms.
pub interval_bounds :
    (lock_ttl : ℕ)
    → (1 ≤ interval lock_ttl)
      × (interval lock_ttl ≤ max_timeout)
      × (3 ≤ lock_ttl → 3 * interval lock_ttl ≤ lock_ttl)
unfolding interval
interval_bounds lock_ttl = ground arith
