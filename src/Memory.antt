-- ===== src/Memory.antt =====
-- lib/stores/in-memory-idempotency.store.ts: `InMemoryIdempotencyStore`. A method returns the new
-- store with its result; `Date.now()` is the argument `now`. Values are copied, as
-- `structuredClone` does, because a value of the model cannot be changed in place.
pub mod Expiry
pub mod Operations
pub mod Calls
pub mod Refinement
use idempotency.Base.Dict
use idempotency.Base.{
  ℕ, ◌+◌, ◌%◌, Bool, true, false, ite, List, [], ◌∷◌, Option, none, some, leb, ◌==◌, length,
  if◌then◌else◌, Text, text_eq,
}
use idempotency.Store.{Entry, AcquireResult, expires_at}

abbrev sweep_every : ℕ
sweep_every = 1_000

pub record Memory (P : Type 0) : Type 0 where
  pub entries : List (Text × Entry P)
  pub operations : ℕ

module _ {P : Type 0} where
  pub new : Memory P
  new = record { entries = []; operations = 0 }

  -- `read`: an expired entry is deleted on the way.
  unfoldable pub read : Memory P → ℕ → Text → Memory P × Option (Entry P)
  read m now key = elim (Dict.get key m.entries) [
    | none ↦ (m, none)
    | some entry ↦
        if leb (expires_at entry) now
        then (record m { entries = Dict.delete key m.entries }, none)
        else (m, some entry)
  ]

  -- The loop of `sweep`.
  unfoldable pub drop_expired : ℕ → List (Text × Entry P) → List (Text × Entry P)
  drop_expired now [] = []
  drop_expired now ((key, entry) ∷ rest) =
      let kept = drop_expired now rest in
      if leb (expires_at entry) now then kept else (key, entry) ∷ kept

  pub sweep : Memory P → ℕ → Memory P
  unfolding drop_expired
  sweep m now = record m { entries = drop_expired now m.entries }

  pub maybe_sweep : Memory P → ℕ → Memory P
  unfolding sweep
  maybe_sweep m now =
      let counted = record m { operations = m.operations + 1 } in
      if counted.operations % sweep_every == 0 then sweep counted now else counted

  pub taken :
      Memory P × Option (Entry P)
      → ℕ
      → (key owner fingerprint : Text) (lock_ttl : ℕ) → Memory P × AcquireResult P
  taken (m, some (Entry.completed f response e)) now key owner fingerprint lock_ttl =
      (m, AcquireResult.completed f response)
  taken (m, some (Entry.in_flight f o e)) now key owner fingerprint lock_ttl =
      (m, AcquireResult.in_flight f)
  taken (m, none) now key owner fingerprint lock_ttl =
      let entry : Entry P = Entry.in_flight fingerprint owner (now + lock_ttl) in
      (record m { entries = Dict.set key entry m.entries }, AcquireResult.acquired)

  unfoldable pub acquire :
      Memory P → ℕ → (key owner fingerprint : Text) (lock_ttl : ℕ) → Memory P × AcquireResult P
  unfolding maybe_sweep read taken
  acquire m now key owner fingerprint lock_ttl =
      taken (read (maybe_sweep m now) now key) now key owner fingerprint lock_ttl

  -- `existing?.state !== 'in-flight' || existing.owner !== owner` returns false; otherwise `write`
  -- acts on the entries, given the lock's fingerprint.
  owned :
      Memory P × Option (Entry P)
      → (owner : Text) → (Text → List (Text × Entry P) → List (Text × Entry P))
      → Memory P × Bool
  owned (m, none) owner write = (m, false)
  owned (m, some (Entry.completed f response e)) owner write = (m, false)
  owned (m, some (Entry.in_flight f o e)) owner write =
      ite (text_eq o owner) (record m { entries = write f m.entries }, true) (m, false)

  unfoldable pub complete : Memory P → ℕ → (key owner : Text) → P → (ttl : ℕ) → Memory P × Bool
  unfolding read owned
  complete m now key owner response ttl =
      owned (read m now key) owner (λ f. Dict.set key (Entry.completed f response (now + ttl)))

  unfoldable pub release : Memory P → ℕ → (key owner : Text) → Memory P × Bool
  unfolding read owned
  release m now key owner = owned (read m now key) owner (λ f. Dict.delete key)

  -- `existing.expiresAt = …` changes the entry in the map.
  unfoldable pub extend : Memory P → ℕ → (key owner : Text) (lock_ttl : ℕ) → Memory P × Bool
  unfolding read owned
  extend m now key owner lock_ttl =
      owned (read m now key) owner (λ f. Dict.set key (Entry.in_flight f owner (now + lock_ttl)))

  pub size : Memory P → ℕ → Memory P × ℕ
  unfolding sweep
  size m now = let swept = sweep m now in (swept, length swept.entries)

  pub peek : Memory P → ℕ → Text → Memory P × Option (Entry P)
  unfolding read
  peek = read

  pub clear : Memory P → Memory P
  clear m = record m { entries = [] }
