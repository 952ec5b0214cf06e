-- ===== src/Contexts/Retries.antt =====
-- A call and its retry, from the handler's result to what the retry's caller gets.
use idempotency.Base.{
  ℕ, ◌+◌, ◌≤◌, ◌<◌, ◌≡◌, refl, ap, ◌∙◌, ◌||◌, Bool, false, true, List, [], ◌∷◌, none, some, All,
  Text, arith,
}
use idempotency.Json.{Json}
use idempotency.Value.{Value}
use idempotency.Result.{encode_result, encoded, unreplayable_reason}
use idempotency.Result.Replay.{IsData, decode_result-encode_result}
use idempotency.Store.{Store, Entry}
use idempotency.Store.History.{Call as StoreCall, InOrder, run}
use idempotency.Store.Exclusion.{finish}
use idempotency.Interceptor.{
  ContextType, StoredResponse, StoredPayload, Codec, opened, Resolved, Call, replay, answers,
}
use idempotency.Interceptor.Worlds.{Request, World, Timing, planned}
use idempotency.Interceptor.Planning.{plan}
use idempotency.Interceptor.Planning.Asking.{asks}
use idempotency.Interceptor.Recording.{record_outcome}
use idempotency.Interceptor.Recording.Once.{stored_result_is_replayed}
use idempotency.Interceptor.Execution as Execution
use idempotency.Interceptor.Execution.{
  Capture, stored, outcome_of, Action, emits, completes, record_settles, start, sends,
  sends_complete, records, settles,
}
use idempotency.Contexts.{Host, StoreIf, delivers, delivered, success_capture}
use idempotency.Contexts.Http.Responses.{HttpHandler, HttpResponse, handler_writes_response}
use idempotency.Contexts.Http.Fidelity.{replay-capture_success, IsData-replayable}
use idempotency.Contexts.Graphql as Graphql
use idempotency.Contexts.Rpc as Rpc
use idempotency.Contexts.Adapters as Adapters
use idempotency.Contexts.Adapters.{sends_every_value, capture_success}

-- What the first caller gets, and when.
execution_lem :
    (context : ContextType) (v : Value) (a : Capture)
    → (Execution.run
        (sends_every_value context)
        start
        (emits v ∷ completes a ∷ record_settles ∷ [])).effects
      ≡ sends_complete ∷ sends v ∷ settles ∷ records (outcome_of a) ∷ []
unfolding Execution.run start sends_every_value Execution.on_next
execution_lem ContextType.http v a = refl
execution_lem ContextType.graphql v a = refl
execution_lem ContextType.rpc v a = refl

module _ (host : Host) (names : List Text) (handler : HttpHandler) (res res' : HttpResponse)
    (store_if : StoreIf) (v : Value) where
  -- A success that is stored and replayed as it was: `storeIf` accepts its status, and over HTTP the
  -- handler leaves the response to Nest and does not redirect, and the names of the replayed headers
  -- are in lower case.
  abbrev pub IsPlain : ContextType → Type 0
  IsPlain ContextType.http =
      (handler_writes_response host handler || res.sent ≡ false)
      × (handler.redirect ≡ none)
      × (store_if res.status none ≡ true)
      × All (λ x. host.lower x ≡ x) names
  IsPlain ContextType.graphql = store_if 200 none ≡ true
  IsPlain ContextType.rpc = store_if 200 none ≡ true

  -- The status of the HTTP response after a replay.
  abbrev pub status_after : ContextType → ℕ
  status_after ContextType.http = res.status
  status_after ContextType.graphql = res'.status
  status_after ContextType.rpc = res'.status

  Faithful : ContextType → Type 0
  Faithful context =
      (r : StoredResponse) × (capture_success host context names handler res store_if v ≡ stored r)
      × ((Adapters.replay host context r res').1 ≡ delivers v)
      × ((Adapters.replay host context r res').0.status ≡ status_after context)

  success_capture_lem :
      (strict : Bool) (j : Json)
      → encode_result host.platform strict v ≡ encoded j
      → unreplayable_reason v ≡ none
      → store_if 200 none ≡ true
      → success_capture host strict store_if v
        ≡ stored (record { status = 200; headers = []; body = some j; error = none })
  unfolding success_capture
  success_capture_lem strict j e r k = ground arith

  capture-Faithful :
      (context : ContextType) → IsData host.platform v → IsPlain context → Faithful context
  unfolding Faithful capture_success Adapters.replay Graphql.capture_success Rpc.capture_success
      Graphql.replay Rpc.replay
  capture-Faithful ContextType.http h (writes, plain, accepts, low) =
      let (r, caught, (given, status, _)) =
        replay-capture_success host names handler res res' store_if v [] h writes plain accepts
          low in
      (r, caught, given, status)
  capture-Faithful ContextType.graphql h k =
      let (j, e, d) = decode_result-encode_result host.platform true v h in
      (
        record { status = 200; headers = []; body = some j; error = none },
        success_capture_lem true j e (IsData-replayable host.platform v h) k,
        ap delivered d,
        refl,
      )
  capture-Faithful ContextType.rpc h k =
      let (j, e, d) = decode_result-encode_result host.platform false v h in
      (
        record { status = 200; headers = []; body = some j; error = none },
        success_capture_lem false j e (IsData-replayable host.platform v h) k,
        ap delivered d,
        refl,
      )

  module _ (store : Store StoredPayload) (codec : Codec)
      (hash_of_bytes hash_hex : List ℕ → Text) where
    -- In each context the first caller of a keyed handler gets the result that it emits once its
    -- outcome is recorded, and a retry of the request within `ttl`, whatever store calls anyone makes
    -- in between, is planned as a replay, which gives the same result, over HTTP with the status of
    -- the first response. The result is data (JSON's values, and dates, big integers, `Buffer`s but no
    -- other `Uint8Array`, maps and sets); `storeIf` accepts its status; over HTTP the handler leaves
    -- the response to Nest and does not redirect, and the names of the replayed headers are in
    -- lower case; the attempt still held its lock when it recorded; the store answers, and the codec
    -- opens what it sealed.
    pub retry_gets_the_result :
        (context : ContextType) (w : World store.State) (c : Call) (owner fp : Text) (e : ℕ)
        (ttl now : ℕ) (lost : Bool) (random : List ℕ) (cs : List (ℕ × StoreCall StoredPayload))
        (o : Resolved) (t : Timing) (owner' : Text) (w' : World store.State) (q : Request)
        → IsData host.platform v
        → IsPlain context
        → store.view w.store now c.store_key ≡ some (Entry.in_flight fp owner e)
        → ((r : StoredResponse)
            → codec.open_payload c.store_key (codec.seal random c.store_key r) ≡ opened r)
        → InOrder now cs
        → All (λ x. x.0 < now + ttl) cs
        → asks store codec hash_of_bytes hash_hex q ≡ some (c, fp)
        → t.acquiring ≡ answers
        → finish now cs ≤ t.now
        → t.now < now + ttl
        → let captured = capture_success host context names handler res store_if v in
          w'.store
            ≡ (run store
                (record_outcome store codec w c owner
                  (outcome_of captured)
                  ttl
                  lost
                  random
                  now
                  answers).store
                cs).0
          → (r : StoredResponse) × (((Execution.run
                  (sends_every_value context)
                  start
                  (emits v ∷ completes captured ∷ record_settles ∷ [])).effects
                ≡ sends_complete ∷ sends v ∷ settles ∷ records (some r) ∷ [])
              × ((plan store codec hash_of_bytes hash_hex o t owner' w' q).1 ≡ planned (replay c r))
              × ((Adapters.replay host context r res').1 ≡ delivers v)
              × ((Adapters.replay host context r res').0.status ≡ status_after context))
    unfolding outcome_of Faithful
    retry_gets_the_result context w c owner fp e ttl now lost random cs o t owner' w' q is_data
          plain held opens ordered early asked in_time late before same =
        let (r, caught, given, status) = capture-Faithful context is_data plain in
        let found : outcome_of (capture_success host context names handler res store_if v)
            ≡ some r =
          ap outcome_of caught in
        (
          r,
          (
            execution_lem context v (capture_success host context names handler res store_if v)
                ∙ ap (λ x. sends_complete ∷ sends v ∷ settles ∷ records x ∷ []) found,
            stored_result_is_replayed store codec hash_of_bytes hash_hex w c owner fp e ttl now lost
                random held cs ordered r (opens r) early o t owner' w' q asked in_time
                (same
                  ∙ ap
                      (λ x.
                        (run store
                          (record_outcome store codec w c owner x ttl lost random now answers).store
                          cs).0)
                      found)
                late before,
            given,
            status,
          ),
        )
