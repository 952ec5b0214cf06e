-- ===== src/Interceptor/Recording/Once.antt =====
-- From one attempt to the next, whatever other store calls come between.
use idempotency.Base.{
  ℕ, ◌+◌, ◌≤◌, ◌<◌, ◌≡◌, ◌≢◌, refl, sym, ap, ◌∙◌, if_pos, Bool, true, false, List, none, some,
  arith, Text, text_eq, All,
}
use native.Mathlib.Nat.{le_refl, le_trans}
use idempotency.Store.{Store, Entry, on_lock}
use idempotency.Store.History.{Call as StoreCall, InOrder, run, key_of, owner_of}
use idempotency.Store.Exclusion.{finish, lock-holds, record_is_final}
use idempotency.Interceptor.{
  StoredResponse, StoredPayload, opened, Codec, Resolved, Call, execute, replay, answers, ask,
  Outcome, answered, failed, complete,
}
use idempotency.Interceptor.Worlds.{Request, World, Timing, planned}
use idempotency.Interceptor.Planning.{plan}
use idempotency.Interceptor.Planning.Asking.{asks}
use idempotency.Interceptor.Planning.Locking.{plan-Locked}
use idempotency.Interceptor.Recording.{record_outcome, report}
use idempotency.Interceptor.Recording.Retry.{plan_replays}

pub finish-le :
    {P : Type 0} (now : ℕ) (cs : List (ℕ × StoreCall P)) → InOrder now cs → now ≤ finish now cs
finish-le now List.[] h = le_refl now
finish-le now (List.◌∷◌ c cs) h = le_trans h.0 (finish-le c.0 cs h.1)

module _ (store : Store StoredPayload) (codec : Codec)
    (hash_of_bytes hash_hex : List ℕ → Text) where
  -- A handler runs once at a time for a store key: after one plan ran it, and any store calls by
  -- other owners (or for other keys) before the lock's expiry, no plan of any request, made before
  -- that expiry too, runs a handler under the same store key.
  pub runs_once :
      (o : Resolved) (t : Timing) (owner : Text) (w : World store.State) (q : Request) (c : Call)
      (cs : List (ℕ × StoreCall StoredPayload)) (o' : Resolved) (t' : Timing) (owner' : Text)
      (w' : World store.State) (q' : Request) (c' : Call)
      → let first = plan store codec hash_of_bytes hash_hex o t owner w q in
        first.1 ≡ planned (execute c owner)
        → InOrder t.now cs
        → All
            (λ x. (x.0 < t.now + o.lock_ttl) × (key_of x.1 ≡ c.store_key → owner_of x.1 ≢ owner))
            cs
        → w'.store ≡ (run store first.0.store cs).0
        → finish t.now cs ≤ t'.now
        → t'.now < t.now + o.lock_ttl
        → c'.store_key ≡ c.store_key
        → (plan store codec hash_of_bytes hash_hex o' t' owner' w' q').1
          ≢ planned (execute c' owner')
  runs_once o t owner w q c cs o' t' owner' w' q' c' ran ordered others same late early key e =
      let first = plan store codec hash_of_bytes hash_hex o t owner w q in
      let (_, (fp, _, held)) =
        plan-Locked store codec hash_of_bytes hash_hex o t owner w q c owner ran in
      let (_, (_, free, _)) =
        plan-Locked store codec hash_of_bytes hash_hex o' t' owner' w' q' c' owner' e in
      let begins = finish-le t.now cs ordered in
      let locked : store.view first.0.store t.now c.store_key
          ≡ some (Entry.in_flight fp owner (t.now + o.lock_ttl)) =
        ground (arith, held t.now (le_refl t.now)) in
      let kept =
        (lock-holds store first.0.store t.now c.store_key fp owner (t.now + o.lock_ttl) cs locked
            ordered others).1
          t'.now late in
      let seen : store.view (run store first.0.store cs).0 t'.now c.store_key ≡ none =
        ap (λ s. store.view s t'.now c.store_key) (sym same)
        ∙ ap (store.view w'.store t'.now) (sym key)
        ∙ free in
      ground (arith, kept, seen)

  module _ (w : World store.State) (c : Call) (owner fp : Text) (e : ℕ) (ttl now : ℕ) (lost : Bool)
      (random : List ℕ)
      (held : store.view w.store now c.store_key ≡ some (Entry.in_flight fp owner e))
      (cs : List (ℕ × StoreCall StoredPayload)) (ordered : InOrder now cs) where
    report-store :
        (ph : _) (r : store.State × Outcome Bool) → (report store codec w c ph lost r).store ≡ r.0
    unfolding report
    report-store ph (s, answered true) = refl
    report-store ph (s, answered false) = ground arith
    report-store ph (s, failed) = ground arith

    stored :
        (r : StoredResponse)
        → 0 < ttl
        → store.view
            (record_outcome store codec w c owner (some r) ttl lost random now answers).store
            now
            c.store_key
          ≡ some (Entry.completed fp (codec.seal random c.store_key r) (now + ttl))
    unfolding record_outcome ask on_lock
    stored r pos =
        let p = codec.seal random c.store_key r in
        ap (λ s. store.view s now c.store_key)
          (report-store complete
            (ask answers (λ s. store.complete s now c.store_key owner p ttl) w.store))
        ∙ ground (
          arith,
          held,
          store.complete-view w.store now c.store_key owner p ttl now c.store_key (le_refl now),
        )

    -- The result of an attempt that still holds its lock is replayed to every retry of its request
    -- within `ttl`, whatever store calls anyone makes in between, if the codec opens what it sealed
    -- and the store answers.
    pub stored_result_is_replayed :
        (r : StoredResponse)
        → codec.open_payload c.store_key (codec.seal random c.store_key r) ≡ opened r
        → All (λ x. x.0 < now + ttl) cs
        → (o : Resolved) (t : Timing) (owner' : Text) (w' : World store.State) (q : Request)
        → asks store codec hash_of_bytes hash_hex q ≡ some (c, fp)
        → t.acquiring ≡ answers
        → w'.store
          ≡ (run store
              (record_outcome store codec w c owner (some r) ttl lost random now answers).store
              cs).0
        → finish now cs ≤ t.now
        → t.now < now + ttl
        → (plan store codec hash_of_bytes hash_hex o t owner' w' q).1 ≡ planned (replay c r)
    stored_result_is_replayed r opens all o t owner' w' q asked in_time same late early =
        let p = codec.seal random c.store_key r in
        let begins = finish-le now cs ordered in
        let kept =
          (record_is_final store _ now c.store_key fp p (now + ttl) cs (stored r (omega arith))
              ordered all).1
            t.now late in
        let shown : store.view w'.store t.now c.store_key
            ≡ some (Entry.completed fp p (now + ttl)) =
          ap (λ s. store.view s t.now c.store_key) same ∙ ground (arith, kept) in
        (plan_replays store codec hash_of_bytes hash_hex o t owner' w' q c fp asked in_time fp p
          (now + ttl) r shown opens).0
        ∙ if_pos (text_eq fp fp) refl _ _
