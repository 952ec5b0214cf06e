-- ===== src/Store.antt =====
-- lib/interfaces/idempotency-store.interface.ts: the contract that a store implements, as a
-- specification on the record of one key and as an interface of operations and laws. Time is in
-- milliseconds, and each call happens at one instant.
pub mod History
pub mod Exclusion
use idempotency.Base.{
  ℕ, ◌+◌, ◌≤◌, ◌≡◌, Bool, true, false, ite, Option, none, some, ltb, if◌then◌else◌, Text, text_eq,
}

-- A record: a lock with its owner, or a stored response.
pub data Entry {ℓ} (P : Type ℓ) : Type ℓ where
  in_flight : (fingerprint owner : Text) (expires_at : ℕ) → Entry P
  completed : (fingerprint : Text) (response : P) (expires_at : ℕ) → Entry P

-- What `acquire()` found.
pub data AcquireResult {ℓ} (P : Type ℓ) : Type ℓ where
  acquired : AcquireResult P
  in_flight : (fingerprint : Text) → AcquireResult P
  completed : (fingerprint : Text) (response : P) → AcquireResult P

module _ {ℓ} {P : Type ℓ} where
  abbrev pub expires_at : Entry P → ℕ
  expires_at (Entry.in_flight fingerprint owner e) = e
  expires_at (Entry.completed fingerprint response e) = e

  -- An expired lock or record doesn't exist.
  abbrev pub live : ℕ → Option (Entry P) → Option (Entry P)
  live now none = none
  live now (some e) = if ltb now (expires_at e) then some e else none

  -- The four operations on the live record of the key that they name.
  unfoldable pub on_acquire :
      (owner fingerprint : Text) (until : ℕ) → Option (Entry P) → Option (Entry P) × AcquireResult P
  on_acquire owner fingerprint until none =
      (some (Entry.in_flight fingerprint owner until), AcquireResult.acquired)
  on_acquire owner fingerprint until (some (Entry.in_flight f o e)) =
      (some (Entry.in_flight f o e), AcquireResult.in_flight f)
  on_acquire owner fingerprint until (some (Entry.completed f r e)) =
      (some (Entry.completed f r e), AcquireResult.completed f r)

  -- The three compare-and-sets: `write` says what becomes of the owner's live lock.
  unfoldable pub on_lock :
      (owner : Text) → (Text → Option (Entry P)) → Option (Entry P) → Option (Entry P) × Bool
  on_lock owner write none = (none, false)
  on_lock owner write (some (Entry.completed f r e)) = (some (Entry.completed f r e), false)
  on_lock owner write (some (Entry.in_flight f o e)) =
      ite (text_eq o owner) (write f, true) (some (Entry.in_flight f o e), false)

  abbrev pub completing : P → ℕ → Text → Option (Entry P)
  completing response until f = some (Entry.completed f response until)

  abbrev pub releasing : Text → Option (Entry P)
  releasing f = none

  abbrev pub extending : Text → ℕ → Text → Option (Entry P)
  extending owner until f = some (Entry.in_flight f owner until)

  -- A view shows each key's live record at a time; `after` is the view in which `key`'s cell is
  -- replaced, and expires in its turn.
  abbrev pub after :
      Text → Option (Entry P) → (ℕ → Text → Option (Entry P)) → ℕ → Text → Option (Entry P)
  after key cell view t j = ite (text_eq key j) (live t cell) (view t j)

-- A store: its operations at a time `now`, and the contract that they keep from `now` on.
pub record Store (P : Type 0) : Type 1 where
  pub State : Type 0
  pub view : State → ℕ → Text → Option (Entry P)
  pub acquire : State → ℕ → Text → Text → Text → ℕ → State × AcquireResult P
  pub complete : State → ℕ → Text → Text → P → ℕ → State × Bool
  pub release : State → ℕ → Text → Text → State × Bool
  pub extend : State → ℕ → Text → Text → ℕ → State × Bool
  pub fades : (s : State) (now t : ℕ) (j : Text) → now ≤ t → view s t j ≡ live t (view s now j)
  pub acquire-result :
      (s : State) (now : ℕ) (key owner fingerprint : Text) (ttl : ℕ)
      → (acquire s now key owner fingerprint ttl).1
        ≡ (on_acquire owner fingerprint (now + ttl) (view s now key)).1
  pub acquire-view :
      (s : State) (now : ℕ) (key owner fingerprint : Text) (ttl t : ℕ) (j : Text)
      → now ≤ t
      → view (acquire s now key owner fingerprint ttl).0 t j
        ≡ after key (on_acquire owner fingerprint (now + ttl) (view s now key)).0 (view s) t j
  pub complete-result :
      (s : State) (now : ℕ) (key owner : Text) (response : P) (ttl : ℕ)
      → (complete s now key owner response ttl).1
        ≡ (on_lock owner (completing response (now + ttl)) (view s now key)).1
  pub complete-view :
      (s : State) (now : ℕ) (key owner : Text) (response : P) (ttl t : ℕ) (j : Text)
      → now ≤ t
      → view (complete s now key owner response ttl).0 t j
        ≡ after key
            (on_lock owner (completing response (now + ttl)) (view s now key)).0
            (view s)
            t
            j
  pub release-result :
      (s : State) (now : ℕ) (key owner : Text)
      → (release s now key owner).1 ≡ (on_lock owner releasing (view s now key)).1
  pub release-view :
      (s : State) (now : ℕ) (key owner : Text) (t : ℕ) (j : Text)
      → now ≤ t
      → view (release s now key owner).0 t j
        ≡ after key (on_lock owner releasing (view s now key)).0 (view s) t j
  pub extend-result :
      (s : State) (now : ℕ) (key owner : Text) (ttl : ℕ)
      → (extend s now key owner ttl).1
        ≡ (on_lock owner (extending owner (now + ttl)) (view s now key)).1
  pub extend-view :
      (s : State) (now : ℕ) (key owner : Text) (ttl t : ℕ) (j : Text)
      → now ≤ t
      → view (extend s now key owner ttl).0 t j
        ≡ after key (on_lock owner (extending owner (now + ttl)) (view s now key)).0 (view s) t j
