-- ===== src/Store/History.antt =====
-- Sequences of store calls, from any number of callers, as one process or many make them.
use idempotency.Base.{ℕ, ◌+◌, ◌≤◌, ◌≡◌, ap, Bool, List, [], ◌∷◌, Option, Text}
use idempotency.Store.{
  Store, Entry, AcquireResult, after, on_acquire, on_lock, completing, releasing, extending,
}

pub data Call (P : Type 0) : Type 0 where
  acquire : (key owner fingerprint : Text) (ttl : ℕ) → Call P
  complete : (key owner : Text) (response : P) (ttl : ℕ) → Call P
  release : (key owner : Text) → Call P
  extend : (key owner : Text) (ttl : ℕ) → Call P

pub data Answer (P : Type 0) : Type 0 where
  found : AcquireResult P → Answer P
  done : Bool → Answer P

module _ {P : Type 0} where
  abbrev pub key_of : Call P → Text
  key_of (acquire k o f ttl) = k
  key_of (complete k o r ttl) = k
  key_of (release k o) = k
  key_of (extend k o ttl) = k

  abbrev pub owner_of : Call P → Text
  owner_of (acquire k o f ttl) = o
  owner_of (complete k o r ttl) = o
  owner_of (release k o) = o
  owner_of (extend k o ttl) = o

  abbrev answer_by : {S R : Type 0} → (R → Answer P) → S × R → S × Answer P
  answer_by f r = (r.0, f r.1)

  -- What a call does to the live record of its key, by the contract.
  abbrev pub on_call : ℕ → Call P → Option (Entry P) → Option (Entry P) × Answer P
  on_call now (acquire k o f ttl) c = answer_by found (on_acquire o f (now + ttl) c)
  on_call now (complete k o r ttl) c = answer_by done (on_lock o (completing r (now + ttl)) c)
  on_call now (release k o) c = answer_by done (on_lock o releasing c)
  on_call now (extend k o ttl) c = answer_by done (on_lock o (extending o (now + ttl)) c)

  -- Each call comes at its time, none before the one ahead of it.
  abbrev pub InOrder : ℕ → List (ℕ × Call P) → Type 0
  InOrder now [] = Unit
  InOrder now ((t, c) ∷ cs) = (now ≤ t) × InOrder t cs

-- A store by its operations alone, whether it keeps the contract or not.
pub record Implementation (P : Type 0) : Type 1 where
  pub State : Type 0
  pub acquire : State → ℕ → Text → Text → Text → ℕ → State × AcquireResult P
  pub complete : State → ℕ → Text → Text → P → ℕ → State × Bool
  pub release : State → ℕ → Text → Text → State × Bool
  pub extend : State → ℕ → Text → Text → ℕ → State × Bool

abbrev pub operations : {P : Type 0} → Store P → Implementation P
operations store = record {
  State = store.State;
  acquire = store.acquire;
  complete = store.complete;
  release = store.release;
  extend = store.extend;
}

module _ {P : Type 0} (impl : Implementation P) where
  unfoldable pub perform : impl.State → ℕ → Call P → impl.State × Answer P
  perform s now (acquire k o f ttl) = answer_by found (impl.acquire s now k o f ttl)
  perform s now (complete k o r ttl) = answer_by done (impl.complete s now k o r ttl)
  perform s now (release k o) = answer_by done (impl.release s now k o)
  perform s now (extend k o ttl) = answer_by done (impl.extend s now k o ttl)

module _ {P : Type 0} (store : Store P) where
  open store use {State, view}

  abbrev pub step : State → ℕ → Call P → State × Answer P
  step s now c = perform (operations store) s now c

  unfoldable pub run : State → List (ℕ × Call P) → State × List (Answer P)
  run s [] = (s, [])
  run s ((now, c) ∷ cs) = let r = step s now c in let rest = run r.0 cs in (rest.0, r.1 ∷ rest.1)

  pub step-answer :
      (s : State) (now : ℕ) (c : Call P)
      → (step s now c).1 ≡ (on_call now c (view s now (key_of c))).1
  unfolding perform
  step-answer s now (acquire k o f ttl) = ap found (store.acquire-result s now k o f ttl)
  step-answer s now (complete k o r ttl) = ap done (store.complete-result s now k o r ttl)
  step-answer s now (release k o) = ap done (store.release-result s now k o)
  step-answer s now (extend k o ttl) = ap done (store.extend-result s now k o ttl)

  pub step-view :
      (s : State) (now : ℕ) (c : Call P) (t : ℕ) (j : Text)
      → now ≤ t
      → view (step s now c).0 t j
        ≡ after (key_of c) (on_call now c (view s now (key_of c))).0 (view s) t j
  unfolding perform
  step-view s now (acquire k o f ttl) = store.acquire-view s now k o f ttl
  step-view s now (complete k o r ttl) = store.complete-view s now k o r ttl
  step-view s now (release k o) = store.release-view s now k o
  step-view s now (extend k o ttl) = store.extend-view s now k o ttl
