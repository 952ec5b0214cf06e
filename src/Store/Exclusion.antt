-- ===== src/Store/Exclusion.antt =====
-- What the contract guarantees whoever calls, in any interleaving: a live lock answers to its owner
-- only, and a completed record is final.
use idempotency.Base.{
  ℕ, ◌+◌, ◌≤◌, ◌<◌, ◌≡◌, ◌≢◌, refl, ap, ◌∙◌, false, List, [], ◌∷◌, none, some, arith, All, All-map,
  Text, text_eq, if_pos, if_neg,
}
use native.Mathlib.Nat.{le_refl, le_trans}
use idempotency.Store.{Store, Entry, AcquireResult, expires_at, live, on_acquire, on_lock}
use idempotency.Store.History.{
  Call, acquire, complete, release, extend, Answer, found, done, key_of, owner_of, on_call, InOrder,
  step, run, step-answer, step-view,
}

module _ {P : Type 0} where
  -- The answer of a call that changes nothing.
  abbrev pub refusal : AcquireResult P → Call P → Answer P
  refusal r (acquire k o f ttl) = found r
  refusal r (complete k o x ttl) = done false
  refusal r (release k o) = done false
  refusal r (extend k o ttl) = done false

  -- Every call on the key was refused, and `acquire()` was told `r`.
  abbrev pub Refused : Text → AcquireResult P → List (ℕ × Call P) → List (Answer P) → Type 0
  Refused k r [] [] = Unit
  Refused k r [] (x ∷ xs) = ⊥
  Refused k r (c ∷ cs) [] = ⊥
  Refused k r (c ∷ cs) (x ∷ xs) = (key_of c.1 ≡ k → x ≡ refusal r c.1) × Refused k r cs xs

  -- When the last call was made.
  abbrev pub finish : ℕ → List (ℕ × Call P) → ℕ
  finish now [] = now
  finish now (c ∷ cs) = finish c.0 cs

  pub lock_stays :
      (t : ℕ) (c : Call P) (f o : Text) (e : ℕ)
      → owner_of c ≢ o
      → on_call t c (some (Entry.in_flight f o e))
        ≡ (some (Entry.in_flight f o e), refusal (AcquireResult.in_flight f) c)
  unfolding on_acquire on_lock
  lock_stays t (acquire k o' f' ttl) f o e h = refl
  lock_stays t (complete k o' r ttl) f o e h = ground arith
  lock_stays t (release k o') f o e h = ground arith
  lock_stays t (extend k o' ttl) f o e h = ground arith

  record_stays :
      (t : ℕ) (c : Call P) (f : Text) (r : P) (e : ℕ)
      → on_call t c (some (Entry.completed f r e))
        ≡ (some (Entry.completed f r e), refusal (AcquireResult.completed f r) c)
  unfolding on_acquire on_lock
  record_stays t (acquire k o' f' ttl) f r e = refl
  record_stays t (complete k o' x ttl) f r e = refl
  record_stays t (release k o') f r e = refl
  record_stays t (extend k o' ttl) f r e = refl

module _ {P : Type 0} (store : Store P) (k : Text) (entry : Entry P) (r : AcquireResult P) where
  unfoldable pub Inert : ℕ → Call P → Type 0
  Inert t c = key_of c ≡ k → on_call t c (some entry) ≡ (some entry, refusal r c)

  abbrev pub Stays : store.State → ℕ → Type 0
  Stays s now = (t : ℕ) → now ≤ t → store.view s t k ≡ live t (some entry)

  pub step-Stays :
      (s : store.State) (t : ℕ) (c : Call P)
      → t < expires_at entry
      → Inert t c
      → Stays s t
      → (key_of c ≡ k → (step store s t c).1 ≡ refusal r c) × Stays (step store s t c).0 t
  unfolding Inert
  step-Stays s t c h inert stays =
      let shown : store.view s t k ≡ some entry = ground (arith, stays t (le_refl t)) in
      let cell = on_call t c (store.view s t (key_of c)) in
      let here = λ (q : key_of c ≡ k).
        ap (λ j. on_call t c (store.view s t j)) q ∙ ap (on_call t c) shown ∙ inert q in
      (
        λ q. step-answer store s t c ∙ ap (λ p. p.1) (here q),
        λ u h'. elim (text_eq (key_of c) k) [
          | yes q ↦
              step-view store s t c u k h'
              ∙ if_pos (text_eq (key_of c) k) q _ (store.view s u k)
              ∙ ap (λ p. live u p.0) (here q)
          | no n ↦
              step-view store s t c u k h'
              ∙ if_neg (text_eq (key_of c) k) n (live u cell.0) _
              ∙ stays u h'
        ],
      )

  run-Stays :
      (s : store.State) (now : ℕ) (cs : List (ℕ × Call P))
      → InOrder now cs
      → All (λ c. (c.0 < expires_at entry) × Inert c.0 c.1) cs
      → Stays s now
      → Refused k r cs (run store s cs).1 × Stays (run store s cs).0 (finish now cs)
  unfolding run
  run-Stays s now [] ok h stays = (tt, stays)
  run-Stays s now ((t, c) ∷ cs) ok h stays =
      let next = step-Stays s t c h.0.0 h.0.1 (λ u le. stays u (le_trans ok.0 le)) in
      let rest = run-Stays (step store s t c).0 t cs ok.1 h.1 next.1 in ((next.0, rest.0), rest.1)

module _ {P : Type 0} (store : Store P) (s : store.State) (now : ℕ) (k : Text) where
  -- While a lock is live, every call by anyone else on its key is refused, and shown the
  -- lock's fingerprint; afterwards the lock is as it was, until it expires.
  pub lock-holds :
      (f o : Text) (e : ℕ) (cs : List (ℕ × Call P))
      → store.view s now k ≡ some (Entry.in_flight f o e)
      → InOrder now cs
      → All (λ c. (c.0 < e) × (key_of c.1 ≡ k → owner_of c.1 ≢ o)) cs
      → Refused k (AcquireResult.in_flight f) cs (run store s cs).1
        × ((t : ℕ)
            → finish now cs ≤ t
            → store.view (run store s cs).0 t k ≡ live t (some (Entry.in_flight f o e)))
  unfolding Inert
  lock-holds f o e cs shown ok h =
      run-Stays store k (Entry.in_flight f o e) (AcquireResult.in_flight f) s now cs ok
        (All-map (λ c g. (g.0, λ q. lock_stays c.0 c.1 f o e (g.1 q))) cs h)
        (λ t le. store.fades s now t k le ∙ ap (live t) shown)

  -- A completed record is final: until it expires every call on its key, by anyone, changes nothing,
  -- and every `acquire()` is given the stored fingerprint and response.
  pub record_is_final :
      (f : Text) (r : P) (e : ℕ) (cs : List (ℕ × Call P))
      → store.view s now k ≡ some (Entry.completed f r e)
      → InOrder now cs
      → All (λ c. c.0 < e) cs
      → Refused k (AcquireResult.completed f r) cs (run store s cs).1
        × ((t : ℕ)
            → finish now cs ≤ t
            → store.view (run store s cs).0 t k ≡ live t (some (Entry.completed f r e)))
  unfolding Inert
  record_is_final f r e cs shown ok h =
      run-Stays store k (Entry.completed f r e) (AcquireResult.completed f r) s now cs ok
        (All-map (λ c g. (g, λ q. record_stays c.0 c.1 f r e)) cs h)
        (λ t le. store.fades s now t k le ∙ ap (live t) shown)

  -- Of any number of `acquire()` calls for a free or expired key, by different owners and before
  -- the winner's lock expires, the first takes the lock and no other does.
  pub one_winner :
      (o f : Text) (ttl : ℕ) (cs : List (ℕ × Call P))
      → store.view s now k ≡ none
      → InOrder now cs
      → All (λ c. (c.0 < now + ttl) × (key_of c.1 ≡ k → owner_of c.1 ≢ o)) cs
      → 0 < ttl
      → let r = run store s ((now, acquire k o f ttl) ∷ cs) in
        (xs : List (Answer P)) × (r.1 ≡ found AcquireResult.acquired ∷ xs)
        × Refused k (AcquireResult.in_flight f) cs xs
  unfolding run on_acquire Inert
  one_winner o f ttl cs free ok h pos =
      let won : Call P = acquire k o f ttl in
      let next = (step store s now won).0 in
      let shown : store.view next now k ≡ some (Entry.in_flight f o (now + ttl)) =
        ground (arith, step-view store s now won now k (le_refl now), free) in
      (
        (run store next cs).1,
        ground (arith, step-answer store s now won, free),
        (run-Stays store k (Entry.in_flight f o (now + ttl)) (AcquireResult.in_flight f) next now cs
            ok (All-map (λ c g. (g.0, λ q. lock_stays c.0 c.1 f o (now + ttl) (g.1 q))) cs h)
            (λ t le. store.fades next now t k le ∙ ap (live t) shown)).0,
      )
