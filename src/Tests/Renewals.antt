-- ===== src/Tests/Renewals.antt =====
-- One attempt's renewal, and the registry of the store.
use idempotency.Base.{◌+◌, ◌*◌, ◌≤◌, ◌≡◌, refl, true, false, List, [], ◌∷◌, some, length}
use idempotency.Interceptor.{answered, failed, complete}
use idempotency.Interceptor.Renewal.{
  max_timeout, interval, Attempt, Action, beats, extend_ends, records, record_ends, shuts_down,
  begin, run,
}
use idempotency.Interceptor.Renewal.Reports.{reports_once, stopped_for_good, interval_bounds}
use idempotency.Storage.{
  registered_store, Storage, Environment, Use, register, initialize, read, no_object, use_all,
}
use idempotency.Storage.Lifecycle.{use_all-active}

-- The lock is found gone while the outcome is recorded.
abbrev late_loss : List Action
late_loss =
    beats
    ∷ extend_ends failed
    ∷ beats
    ∷ records
    ∷ extend_ends (answered false)
    ∷ record_ends complete (answered false)
    ∷ []

reports_once_example :
    let a = run begin late_loss in
    (length a.reports ≤ 1) × (a.calls ≤ a.replies + 1) × (a.settled ≡ true → a.stopped ≡ true)
reports_once_example = reports_once late_loss

abbrev stopped : Attempt
stopped = run begin (shuts_down ∷ [])

shut_down : stopped.stopped ≡ true
unfolding run
shut_down = refl

stopped_for_good_example :
    ((run stopped late_loss).stopped ≡ true) × ((run stopped late_loss).calls ≡ stopped.calls)
stopped_for_good_example = stopped_for_good stopped late_loss shut_down

interval_bounds_example :
    (1 ≤ interval 90) × (interval 90 ≤ max_timeout) × (3 ≤ 90 → 3 * interval 90 ≤ 90)
interval_bounds_example = interval_bounds 90

abbrev production : Environment
production = record { production = true; allow_in_memory_storage = false }

abbrev chosen : Storage
chosen = record { registered = some 1; active = some (registered_store 1) }

abbrev later_uses : List Use
later_uses = initialize ∷ read ∷ register no_object true ∷ []

use_all-active_example : use_all production chosen later_uses ≡ chosen
use_all-active_example = use_all-active production chosen later_uses (registered_store 1) refl
