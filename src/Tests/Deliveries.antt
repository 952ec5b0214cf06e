-- ===== src/Tests/Deliveries.antt =====
-- What a caller gets of a handler that emits one value, and of one that emits two.
use idempotency.Base.{◌≤◌, ◌≡◌, refl, true, false, not, ◌||◌, List, [], ◌∷◌, none, some, text}
use idempotency.Value.{Value}
use idempotency.Interceptor.Execution.{
  Action, emits, completes, record_settles, caller_leaves, stored, sends, sends_complete, records,
  settles, start, run,
}
use idempotency.Interceptor.Execution.Delivery.{
  recordings, has_record, recorded_first, settled_first, recorded_once, single_result_waits,
}
use idempotency.Interceptor.Execution.Ending.{endings, leaves, always_ends}
use idempotency.Tests.{response}

abbrev single : List Action
single = emits Value.null ∷ completes (stored response) ∷ record_settles ∷ []

abbrev streamed : List Action
streamed =
    emits Value.null
    ∷ emits (Value.string (text "b"))
    ∷ completes (stored response)
    ∷ record_settles
    ∷ []

single_sent :
    (run false start single).effects
    ≡ sends_complete ∷ sends Value.null ∷ settles ∷ records (some response) ∷ []
unfolding run start
single_sent = refl

streamed_sent :
    (run true start streamed).effects
    ≡ sends_complete
      ∷ settles
      ∷ records none
      ∷ sends (Value.string (text "b"))
      ∷ sends Value.null
      ∷ []
unfolding run start
streamed_sent = refl

recorded_once_example :
    let a = run true start streamed in
    (recordings a.effects ≤ 1)
    × (not a.ended || has_record a.effects ≡ true)
    × (a.streaming || recorded_first a.effects ≡ true)
recorded_once_example = recorded_once true streamed

single_result_waits_example : settled_first (run false start single).effects ≡ true
single_result_waits_example = single_result_waits single

-- The caller leaves between the end and the recording.
always_ends_example :
    let all =
      emits Value.null ∷ completes (stored response) ∷ (caller_leaves ∷ record_settles ∷ []) in
    let a = run false start all in
    (a.closed ≡ true) × (endings a.effects ≤ 1) × (leaves all ≡ false → endings a.effects ≡ 1)
always_ends_example =
    always_ends false (emits Value.null ∷ []) (completes (stored response)) (caller_leaves ∷ [])
      refl
