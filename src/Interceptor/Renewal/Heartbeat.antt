-- ===== src/Interceptor/Renewal/Heartbeat.antt =====
-- Renewals against the store: while each lands before the lock's expiry, no one else takes the key.
use idempotency.Base.{
  ℕ, ◌+◌, ◌<◌, ◌≡◌, ◌≢◌, sym, subst, ◌⊎◌, inl, inr, true, List, [], ◌∷◌, some, arith, Text,
}
use native.Mathlib.Nat.{le_refl, le_trans}
use idempotency.Store.{Store, Entry, AcquireResult, on_lock}
use idempotency.Store.History.{
  Call, extend, Answer, done, key_of, owner_of, InOrder, step, run, step-answer, step-view,
}
use idempotency.Store.Exclusion.{refusal, lock_stays, step-Stays, Stays, Inert}

module _ {P : Type 0} (store : Store P) (k f owner : Text) (ttl : ℕ) where
  -- Calls on the key: renewals by the owner, and calls of others, each made before the lock that
  -- was last renewed expires.
  abbrev pub Renewed : ℕ → List (ℕ × Call P) → Type 0
  Renewed last [] = Unit
  Renewed last ((t, c) ∷ cs) =
      (t < last + ttl)
      × (((c ≡ extend k owner ttl) × Renewed t cs)
          ⊎ ((key_of c ≡ k → owner_of c ≢ owner) × Renewed last cs))

  -- The answers: every renewal succeeds, and every other call on the key is refused.
  abbrev pub Answers : List (ℕ × Call P) → List (Answer P) → Type 0
  Answers [] [] = Unit
  Answers [] (x ∷ xs) = ⊥
  Answers (c ∷ cs) [] = ⊥
  Answers ((t, c) ∷ cs) (x ∷ xs) =
      (((c ≡ extend k owner ttl) × (x ≡ done true))
        ⊎ ((key_of c ≡ k → owner_of c ≢ owner)
            × (key_of c ≡ k → x ≡ refusal (AcquireResult.in_flight f) c)))
      × Answers cs xs

  abbrev pub lock : ℕ → Entry P
  lock last = Entry.in_flight f owner (last + ttl)

  own_renewal :
      (s : store.State) (t last : ℕ)
      → t < last + ttl
      → Stays store k (lock last) (AcquireResult.in_flight f) s t
      → let next = step store s t (extend k owner ttl) in
        (next.1 ≡ done true) × Stays store k (lock t) (AcquireResult.in_flight f) next.0 t
  unfolding on_lock
  own_renewal s t last h stays =
      let call : Call P = extend k owner ttl in
      let shown : store.view s t k ≡ some (lock last) = ground (arith, stays t (le_refl t)) in
      (
        ground (arith, step-answer store s t call, shown),
        λ u le. ground (arith, step-view store s t call u k le, shown),
      )

  -- A lock that is renewed in time is held throughout: each renewal succeeds, and no call by
  -- anyone else on its key does, whatever `acquire()` finds is the lock's fingerprint.
  pub own_lock_lasts :
      (s : store.State) (now last : ℕ) (cs : List (ℕ × Call P))
      → InOrder now cs
      → Renewed last cs
      → Stays store k (lock last) (AcquireResult.in_flight f) s now
      → Answers cs (run store s cs).1
  unfolding run Inert
  own_lock_lasts s now last [] ok h stays = tt
  own_lock_lasts s now last ((t, c) ∷ cs) ok (h, inr (other, more)) stays =
      let next =
        step-Stays store k (lock last) (AcquireResult.in_flight f) s t c h
          (λ q. lock_stays t c f owner (last + ttl) (other q))
          (λ u le. stays u (le_trans ok.0 le)) in
      (inr (other, next.0), own_lock_lasts (step store s t c).0 t last cs ok.1 more next.1)
  own_lock_lasts s now last ((t, c) ∷ cs) ok (h, inl (mine, more)) stays =
      let next = own_renewal s t last h (λ u le. stays u (le_trans ok.0 le)) in
      let moved =
        subst
          (λ d.
            ((step store s t d).1 ≡ done true)
            × Stays store k (lock t) (AcquireResult.in_flight f) (step store s t d).0 t)
          (sym mine) next in
      (inl (mine, moved.0), own_lock_lasts (step store s t c).0 t t cs ok.1 more moved.1)
