-- ===== src/Interceptor/Recording/Retry.antt =====
-- What a retry gets, from the store's view of its key: while the first attempt runs, after its
-- result was stored, and after its key was released.
use idempotency.Base.{ℕ, ◌+◌, ◌/◌, ◌≡◌, ap, ◌∙◌, ite, List, ◌∷◌, none, some, arith, Text, text_eq}
use idempotency.Store.{Store, Entry, AcquireResult, on_acquire}
use idempotency.Interceptor.{
  StoredResponse, StoredPayload, opened, Codec, Resolved, Call, key_in_use, key_reused, replay,
  execute, answers, Event,
}
use idempotency.Interceptor.Worlds.{Request, World, Timing, planned, failure, rejection, reject}
use idempotency.Interceptor.Planning.{plan, on_acquired, open_record, refusing}
use idempotency.Interceptor.Planning.Asking.{asks, warned, plan-asks, warned-store}
use idempotency.Interceptor.Planning.Locking.{take_lock_answers}

warned-events : {S : Type 0} (q : Request) (w : World S) → (warned q w).events ≡ w.events
warned-events q w = ground arith

module _ (store : Store StoredPayload) (codec : Codec) (hash_of_bytes hash_hex : List ℕ → Text)
    (o : Resolved) (t : Timing) (owner : Text) (w : World store.State) (q : Request) (c : Call)
    (fp : Text) (asked : asks store codec hash_of_bytes hash_hex q ≡ some (c, fp))
    (answered_in_time : t.acquiring ≡ answers) where
  plan_settled :
      (x : AcquireResult StoredPayload)
      → (on_acquire owner fp (t.now + o.lock_ttl) (store.view w.store t.now c.store_key)).1 ≡ x
      → (w' : World store.State) × (plan store codec hash_of_bytes hash_hex o t owner w q
          ≡ on_acquired store codec hash_of_bytes hash_hex o w' c owner fp x)
        × (w'.events ≡ w.events)
  plan_settled x e =
      let v = warned q w in
      let same = warned-store q w in
      let r = store.acquire v.store t.now c.store_key owner fp o.lock_ttl in
      let result : r.1 ≡ x =
        store.acquire-result v.store t.now c.store_key owner fp o.lock_ttl
        ∙ ap (λ s. (on_acquire owner fp (t.now + o.lock_ttl) (store.view s t.now c.store_key)).1)
            same
        ∙ e in
      (
        record v { store = r.0 },
        plan-asks store codec hash_of_bytes hash_hex o t owner w c fp q asked
            ∙ take_lock_answers store codec hash_of_bytes hash_hex o t owner v c fp answered_in_time
            ∙ ap
                (on_acquired store codec hash_of_bytes hash_hex o (record v { store = r.0 }) c owner
                  fp)
                result,
        warned-events q w,
      )

  -- A plan for a free store key takes the lock and runs the handler, if the store answers.
  pub plan_acquires :
      store.view w.store t.now c.store_key ≡ none
      → (plan store codec hash_of_bytes hash_hex o t owner w q).1 ≡ planned (execute c owner)
  unfolding on_acquired on_acquire
  plan_acquires free =
      let (w', same, _) =
        plan_settled AcquireResult.acquired
          (ap (λ v. (on_acquire owner fp (t.now + o.lock_ttl) v).1) free) in
      ap (λ r. r.1) same

  -- While a lock on the store key that the request asks for is live, and the store answers, a plan
  -- refuses the call: with a 409 and the seconds to wait if the lock has the call's fingerprint,
  -- with a 422 otherwise.
  pub plan_refuses :
      (f holder : Text) (e : ℕ)
      → store.view w.store t.now c.store_key ≡ some (Entry.in_flight f holder e)
      → (plan store codec hash_of_bytes hash_hex o t owner w q).1
        ≡ failure (
            rejection (
              ite
                (text_eq f fp)
                (record {
                  code = key_in_use;
                  status = 409;
                  retry_after = some ((o.retry_after + 999) / 1000);
                })
                (record { code = key_reused; status = 422; retry_after = none })))
  unfolding on_acquired reject on_acquire
  plan_refuses f holder e shown =
      let (w', same, _) =
        plan_settled (AcquireResult.in_flight f)
          (ap (λ v. (on_acquire owner fp (t.now + o.lock_ttl) v).1) shown) in
      ap (λ r. r.1) same ∙ ground arith

  -- While a result that the codec opens is stored under the store key that the request asks for, and
  -- the store answers, a plan replays it to a call with the same fingerprint, and reports that; the
  -- handler does not run. A call with another fingerprint is refused with a 422, and that is
  -- reported.
  pub plan_replays :
      (f : Text) (p : StoredPayload) (e : ℕ) (r : StoredResponse)
      → store.view w.store t.now c.store_key ≡ some (Entry.completed f p e)
      → codec.open_payload c.store_key p ≡ opened r
      → let done = plan store codec hash_of_bytes hash_hex o t owner w q in
        (done.1
          ≡ ite
              (text_eq f fp)
              (planned (replay c r))
              (failure (rejection (refusing key_reused 422))))
        × (done.0.events
            ≡ ite
                (text_eq f fp)
                (Event.replayed c.context c.handler c.key c.scope r.status)
                (Event.rejected c.context c.handler key_reused 422 (some c.key) c.scope)
              ∷ w.events)
  unfolding on_acquired reject on_acquire open_record
  plan_replays f p e r shown opens =
      let (w', same, sent) =
        plan_settled (AcquireResult.completed f p)
          (ap (λ v. (on_acquire owner fp (t.now + o.lock_ttl) v).1) shown) in
      (ap (λ x. x.1) same ∙ ground arith, ap (λ x. x.0.events) same ∙ ground arith)
