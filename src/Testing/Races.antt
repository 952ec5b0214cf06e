-- ===== src/Testing/Races.antt =====
-- The callers of the cases of `idempotencyStoreContract` with concurrency, and what is expected of
-- their results. `Promise.all` makes the calls at once, and the store takes them one at a time, in
-- some order: a case takes that order, the callers by their index, and its results are in the order
-- of the calls.
use idempotency.Base.{
  ℕ, suc, zero, ◌+◌, Bool, true, false, List, [], ◌∷◌, ◌++◌, Option, ite, if◌then◌else◌, Text, text,
  text_eq, ◌&&◌,
}
use idempotency.Fingerprint.{decimal}
use idempotency.Store.{AcquireResult}
use idempotency.Store.History.{Implementation}
use idempotency.Interceptor.{StoredPayload}
use idempotency.Testing.{long_lock_ttl, same_result}
use idempotency.Testing.Cases.{response}

-- A caller of `acquire()`, with `LONG_LOCK_TTL`.
pub record Racer : Type 0 where
  pub name : Text
  pub owner : Text
  pub fingerprint : Text

-- The callers' results.
abbrev pub Results : Type 0
Results = List (Racer × AcquireResult StoredPayload)

abbrev pub fp : ℕ → Text
fp i = text "fp-" ++ decimal i

abbrev pub racer : Text → ℕ → Racer
racer k i = record { name = k; owner = text "owner-" ++ decimal i; fingerprint = fp i }

unfoldable pub winners : Results → List Racer
winners [] = []
winners ((r, AcquireResult.acquired) ∷ rest) = r ∷ winners rest
winners ((r, AcquireResult.in_flight f) ∷ rest) = winners rest
winners ((r, AcquireResult.completed f p) ∷ rest) = winners rest

-- The results of the calls on one key.
unfoldable pub on_name : Text → Results → Results
on_name k [] = []
on_name k ((r, a) ∷ rest) = ite (text_eq r.name k) ((r, a) ∷ on_name k rest) (on_name k rest)

abbrev pub race_name : Text
race_name = text "race"

abbrev pub key_name : ℕ → Text
key_name i = text "key-" ++ decimal i

-- The two callers on one of several keys.
abbrev pub paired : ℕ × Bool → Racer
paired (i, true) = record {
  name = key_name i;
  owner = text "owner-" ++ decimal i ++ text "-a";
  fingerprint = fp i ++ text "-a";
}
paired (i, false) = record {
  name = key_name i;
  owner = text "owner-" ++ decimal i ++ text "-b";
  fingerprint = fp i ++ text "-b";
}

-- The state, the time and the number of calls that a case has reached; `none` is a failed one.
abbrev pub Reached : Implementation StoredPayload → Type 0
Reached impl = Option (impl.State × ℕ × ℕ)

module _ (impl : Implementation StoredPayload) (lag : ℕ → ℕ) (prefix : Text) where
  unfoldable pub acquires : impl.State → (at calls : ℕ) → List Racer → impl.State × ℕ × Results
  acquires s at calls [] = (s, calls, [])
  acquires s at calls (r ∷ rest) =
      let taken =
        impl.acquire s (at + lag calls) (prefix ++ r.name) r.owner r.fingerprint long_lock_ttl in
      let (end, calls', results) = acquires taken.0 at (suc calls) rest in
      (end, calls', (r, taken.1) ∷ results)

module _ (same_payload : StoredPayload → StoredPayload → Bool) where
  abbrev sees_lock : Text → AcquireResult StoredPayload → Bool
  sees_lock f r = same_result same_payload r (AcquireResult.in_flight f)

  -- `expectResult` of each caller that did not win.
  unfoldable pub all_lost : Text → Results → Bool
  unfolding same_result
  all_lost f [] = true
  all_lost f ((r, AcquireResult.acquired) ∷ rest) = all_lost f rest
  all_lost f ((r, AcquireResult.in_flight g) ∷ rest) =
      sees_lock f (AcquireResult.in_flight g) && all_lost f rest
  all_lost f ((r, AcquireResult.completed g p) ∷ rest) =
      sees_lock f (AcquireResult.completed g p) && all_lost f rest

  -- `expectOneWinner`.
  abbrev pub lost_to : List Racer → Results → Bool
  lost_to [] rs = false
  lost_to (w ∷ []) rs = all_lost w.fingerprint rs
  lost_to (w ∷ x ∷ more) rs = false

  unfoldable pub expect_one_winner : Results → Bool
  unfolding winners all_lost
  expect_one_winner rs = lost_to (winners rs) rs

  unfoldable pub one_winner_each : (keys : ℕ) → Results → Bool
  unfolding expect_one_winner on_name
  one_winner_each zero rs = true
  one_winner_each (suc i) rs = one_winner_each i rs && expect_one_winner (on_name (key_name i) rs)

  -- What a racer of `release()` may see: no winner yet, or the one.
  abbrev pub of_lock : List Racer → AcquireResult StoredPayload → Bool
  of_lock ws AcquireResult.acquired = true
  of_lock [] (AcquireResult.in_flight f) = sees_lock (text "fp-owner") (AcquireResult.in_flight f)
  of_lock (w ∷ ws) (AcquireResult.in_flight f) =
      if sees_lock (text "fp-owner") (AcquireResult.in_flight f)
      then true
      else sees_lock w.fingerprint (AcquireResult.in_flight f)
  of_lock ws (AcquireResult.completed f p) = false

  unfoldable pub all_of_lock : List Racer → Results → Bool
  unfolding same_result
  all_of_lock ws [] = true
  all_of_lock ws ((r, a) ∷ rest) = of_lock ws a && all_of_lock ws rest

  abbrev pub of_owner : AcquireResult StoredPayload → Bool
  of_owner (AcquireResult.completed f p) =
      same_result same_payload (AcquireResult.completed f p)
        (AcquireResult.completed (text "fp-owner") response)
  of_owner AcquireResult.acquired = sees_lock (text "fp-owner") AcquireResult.acquired
  of_owner (AcquireResult.in_flight f) = sees_lock (text "fp-owner") (AcquireResult.in_flight f)

  unfoldable pub all_of_owner : Results → Bool
  unfolding same_result
  all_of_owner [] = true
  all_of_owner ((r, a) ∷ rest) = of_owner a && all_of_owner rest
