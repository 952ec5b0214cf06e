-- ===== src/Interceptor/Planning/Locking.antt =====
-- The lock under which a handler runs: what a plan that runs it found in the store, and left there.
use idempotency.Base.{
  ℕ, ◌+◌, ◌≤◌, ◌≡◌, refl, sym, ap, ◌∙◌, subst, ◌⊎◌, inl, inr, List, Option, none, some, arith, Text,
}
use idempotency.Store.{Store, Entry, AcquireResult, live, on_acquire}
use idempotency.Interceptor.{
  StoredPayload, Codec, Resolved, Call, Reply, execute, answers, lost, dropped, ask,
}
use idempotency.Interceptor.Worlds.{Request, World, Timing, planned, failure, store_error, reject}
use idempotency.Interceptor.Planning.{plan, settle, take_lock, on_acquired, open_record}
use idempotency.Interceptor.Planning.Laws.{IsIdle, plan_cases}

module _ (store : Store StoredPayload) (codec : Codec) (hash_of_bytes hash_hex : List ℕ → Text)
    (o : Resolved) (t : Timing) (owner : Text) where
  on_acquired-executes :
      (w : World store.State) (c : Call) (fp : Text) (x : AcquireResult StoredPayload) {d : Call}
      {own : Text}
      → (on_acquired store codec hash_of_bytes hash_hex o w c owner fp x).1
        ≡ planned (execute d own)
      → (x ≡ AcquireResult.acquired) × (c ≡ d) × (owner ≡ own)
  unfolding on_acquired reject open_record
  on_acquired-executes w c fp AcquireResult.acquired e = ground arith
  on_acquired-executes w c fp (AcquireResult.in_flight f) e = absurd (ground arith)
  on_acquired-executes w c fp (AcquireResult.completed f r) e = absurd (ground arith)

  pub on_acquired-store :
      (w : World store.State) (c : Call) (fp : Text) (x : AcquireResult StoredPayload)
      → (on_acquired store codec hash_of_bytes hash_hex o w c owner fp x).0.store ≡ w.store
  unfolding on_acquired reject open_record
  on_acquired-store w c fp AcquireResult.acquired = refl
  on_acquired-store w c fp (AcquireResult.in_flight f) = ground arith
  on_acquired-store w c fp (AcquireResult.completed f r) = ground arith

  acquired-free :
      (fp : Text) (until : ℕ) (cell : Option (Entry StoredPayload))
      → (on_acquire owner fp until cell).1 ≡ AcquireResult.acquired
      → (cell ≡ none) × ((on_acquire owner fp until cell).0 ≡ some (Entry.in_flight fp owner until))
  unfolding on_acquire
  acquired-free fp until none e = (refl, refl)
  acquired-free fp until (some (Entry.in_flight f x y)) e = absurd (ground arith)
  acquired-free fp until (some (Entry.completed f x y)) e = absurd (ground arith)

  -- The lock of the call was free, and is the attempt's now.
  abbrev pub Locked : World store.State → World store.State → Call → Type 0
  Locked w w' c =
      (fp : Text) × (store.view w.store t.now c.store_key ≡ none)
      × ((u : ℕ)
          → t.now ≤ u
          → store.view w'.store u c.store_key
            ≡ live u (some (Entry.in_flight fp owner (t.now + o.lock_ttl))))

  pub take_lock_answers :
      (w : World store.State) (c : Call) (fp : Text)
      → t.acquiring ≡ answers
      → take_lock store codec hash_of_bytes hash_hex o t w c owner fp ≡ (
          let r = store.acquire w.store t.now c.store_key owner fp o.lock_ttl in
          on_acquired store codec hash_of_bytes hash_hex o
            (record w { store = r.0 })
            c
            owner
            fp
            r.1)
  unfolding take_lock ask
  take_lock_answers w c fp e =
      ap
        (λ r.
          settle store codec hash_of_bytes hash_hex o t w c owner fp
            (ask r (λ s. store.acquire s t.now c.store_key owner fp o.lock_ttl) w.store))
        e

  take_lock_fails :
      (w : World store.State) (c : Call) (fp : Text)
      → (t.acquiring ≡ answers)
        ⊎ ((take_lock store codec hash_of_bytes hash_hex o t w c owner fp).1 ≡ failure store_error)
  unfolding take_lock ask
  take_lock_fails w c fp = by_reply t.acquiring
    where
      by_reply :
          (r : Reply)
          → (r ≡ answers)
            ⊎ ((settle store codec hash_of_bytes hash_hex o t w c owner fp
                  (ask r (λ s. store.acquire s t.now c.store_key owner fp o.lock_ttl) w.store)).1
                ≡ failure store_error)
      by_reply answers = inl refl
      by_reply lost = inr refl
      by_reply dropped = inr refl

  take_lock-Locked :
      (w : World store.State) (c : Call) (fp : Text) (d : Call) (own : Text)
      → (take_lock store codec hash_of_bytes hash_hex o t w c owner fp).1 ≡ planned (execute d own)
      → (owner ≡ own) × Locked w (take_lock store codec hash_of_bytes hash_hex o t w c owner fp).0 d
  take_lock-Locked w c fp d own e = elim (take_lock_fails w c fp) [
    | inr bad ↦ absurd (ground arith)
    | inl good ↦
        let r = store.acquire w.store t.now c.store_key owner fp o.lock_ttl in
        let same = take_lock_answers w c fp good in
        let (won, here, mine) =
          on_acquired-executes (record w { store = r.0 }) c fp r.1 {d = d} {own = own}
            (sym (ap (λ x. x.1) same) ∙ e) in
        let free =
          acquired-free fp (t.now + o.lock_ttl) (store.view w.store t.now c.store_key)
            (sym (store.acquire-result w.store t.now c.store_key owner fp o.lock_ttl) ∙ won) in
        let after_store =
          ap (λ x. x.0.store) same ∙ on_acquired-store (record w { store = r.0 }) c fp r.1 in
        (
          mine,
          (
            fp,
            subst (λ x. store.view w.store t.now x.store_key ≡ none) here free.0,
            λ u le.
                subst
                  (λ x.
                    store.view
                      (take_lock store codec hash_of_bytes hash_hex o t w c owner fp).0.store u
                      x.store_key
                    ≡ live u (some (Entry.in_flight fp owner (t.now + o.lock_ttl))))
                  here
                  (ap (λ s. store.view s u c.store_key) after_store
                    ∙ ground (
                      arith,
                      free.1,
                      store.acquire-view w.store t.now c.store_key owner fp o.lock_ttl u c.store_key
                          le,
                    )),
          ),
        )
  ]

  -- A plan that runs the handler does so under this attempt's owner, and under a lock on the call's
  -- store key that no one held when it was asked for; from then on the store shows that lock, with
  -- this owner, until `lockTtl` has passed.
  pub plan-Locked :
      (w : World store.State) (q : Request) (c : Call) (own : Text)
      → (plan store codec hash_of_bytes hash_hex o t owner w q).1 ≡ planned (execute c own)
      → (owner ≡ own) × Locked w (plan store codec hash_of_bytes hash_hex o t owner w q).0 c
  plan-Locked w q c own =
      plan_cases store codec hash_of_bytes hash_hex o t owner
        (λ r. r.1 ≡ planned (execute c own) → (owner ≡ own) × Locked w r.0 c) w
        (λ w' p same idle e. absurd (subst IsIdle e idle))
        (λ w' d fp same e.
          let (mine, (fp', free, held)) = take_lock-Locked w' d fp c own e in
          (mine, (fp', ap (λ s. store.view s t.now c.store_key) (sym same) ∙ free, held)))
        q
