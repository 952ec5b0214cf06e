-- ===== src/Interceptor/Interception/Leaving.antt =====
-- A caller that leaves while its call is planned, and the key that it leaves behind.
use idempotency.Base.{
  ℕ, ◌+◌, ◌≤◌, ◌<◌, ◌≡◌, ◌≢◌, refl, ap, ◌∙◌, false, List, [], ◌∷◌, none, some, arith, Text, All,
}
use native.Mathlib.Nat.{le_refl}
use idempotency.Store.{Store, Entry, on_lock, live}
use idempotency.Store.History.{Call as StoreCall, InOrder, key_of, owner_of}
use idempotency.Store.History as History
use idempotency.Store.Exclusion.{finish, lock-holds}
use idempotency.Interceptor.{StoredPayload, Codec, Resolved, Call, execute, answers, ask}
use idempotency.Interceptor.Worlds.{Request, World, Timing, planned}
use idempotency.Interceptor.Planning.{plan}
use idempotency.Interceptor.Planning.Asking.{asks}
use idempotency.Interceptor.Planning.Locking.{plan-Locked}
use idempotency.Interceptor.Recording.Retry.{plan_acquires}
use idempotency.Interceptor.Interception.{
  Subscription, Step, plan_ends, caller_leaves, subscribe, step, run, cancel,
}

module _ (store : Store StoredPayload) where
  -- Once the plan has ended, nothing more is started, and the store is left alone.
  abbrev Over : Subscription store.State → Subscription store.State → Type 0
  Over a b = (b.reaction ≡ a.reaction) × (b.world ≡ a.world)

  step-Over :
      (a : Subscription store.State) (x : Step)
      → a.waiting ≡ false
      → Over a (step store a x) × ((step store a x).waiting ≡ false)
  unfolding step
  step-Over a (plan_ends p now r) h = ground arith
  step-Over a caller_leaves h = ground arith

  run-Over :
      (a : Subscription store.State) (xs : List Step) → a.waiting ≡ false → Over a (run store a xs)
  unfolding run
  run-Over a [] h = (refl, refl)
  run-Over a (x ∷ xs) h =
      let ((reaction, world), over) = step-Over a x h in
      let (reaction', world') = run-Over (step store a x) xs over in
      (reaction' ∙ reaction, world' ∙ world)

  -- A lock that is released, by its owner, leaves the key free.
  released :
      (s : store.State) (now : ℕ) (key owner fp : Text) (e : ℕ)
      → store.view s now key ≡ live now (some (Entry.in_flight fp owner e))
      → (t : ℕ) → now ≤ t
      → store.view (store.release s now key owner).0 t key ≡ none
  unfolding on_lock
  released s now key owner fp e shown t le =
      store.release-view s now key owner t key le ∙ ground (arith, shown)

module _ (store : Store StoredPayload) (codec : Codec)
    (hash_of_bytes hash_hex : List ℕ → Text) where
  -- A caller that leaves before its plan ends, one that took the lock, gets nothing: the handler is
  -- not run for it, whatever comes later. If the store answers, the lock is released when the plan
  -- ends, whatever other owners called in between before its expiry, and the next call for the same
  -- store key, should the store answer it, takes the lock and runs its handler. `lockTtl` is positive.
  pub left_call_frees_key :
      (o : Resolved) (t : Timing) (owner : Text) (w : World store.State) (q : Request) (c : Call)
      (cs : List (ℕ × StoreCall StoredPayload)) (w' : World store.State) (now : ℕ) (xs : List Step)
      (o' : Resolved) (t' : Timing) (owner' : Text) (q' : Request) (c' : Call) (fp' : Text)
      → let first = plan store codec hash_of_bytes hash_hex o t owner w q in
        first.1 ≡ planned (execute c owner)
        → InOrder t.now cs
        → All
            (λ x. (x.0 < t.now + o.lock_ttl) × (key_of x.1 ≡ c.store_key → owner_of x.1 ≢ owner))
            cs
        → w'.store ≡ (History.run store first.0.store cs).0
        → finish t.now cs ≤ now
        → asks store codec hash_of_bytes hash_hex q' ≡ some (c', fp')
        → c'.store_key ≡ c.store_key
        → now ≤ t'.now
        → 0 < o.lock_ttl
        → t'.acquiring ≡ answers
        → let a =
            run store (subscribe store w') (caller_leaves ∷ plan_ends first.1 now answers ∷ xs) in
          (a.reaction ≡ none)
          × ((plan store codec hash_of_bytes hash_hex o' t' owner' a.world q').1
              ≡ planned (execute c' owner'))
  unfolding run step subscribe cancel ask
  left_call_frees_key o t owner w q c cs w' now xs o' t' owner' q' c' fp' ran ordered others same
        late asked key later positive in_time =
      let first = plan store codec hash_of_bytes hash_hex o t owner w q in
      let (_, (fp, _, held)) =
        plan-Locked store codec hash_of_bytes hash_hex o t owner w q c owner ran in
      let locked : store.view first.0.store t.now c.store_key
          ≡ some (Entry.in_flight fp owner (t.now + o.lock_ttl)) =
        ground (arith, held t.now (le_refl t.now)) in
      let kept =
        (lock-holds store first.0.store t.now c.store_key fp owner (t.now + o.lock_ttl) cs locked
            ordered others).1
          now late in
      let ended =
        step store (step store (subscribe store w') caller_leaves)
          (plan_ends first.1 now answers) in
      let (nothing, world) = run-Over store ended xs refl in
      let after = world ∙ ap (cancel store now answers w') ran in
      (
        nothing,
        plan_acquires store codec hash_of_bytes hash_hex o' t' owner' (run store ended xs).world q'
            c' fp' asked in_time
            (ap (λ x. store.view x.store t'.now c'.store_key) after
              ∙ ap (store.view (store.release w'.store now c.store_key owner).0 t'.now) key
              ∙ released store w'.store now c.store_key owner fp (t.now + o.lock_ttl)
                  (ap (λ s. store.view s now c.store_key) same ∙ kept) t'.now later),
      )
