-- ===== src/Testing/Handover.antt =====
-- What the callers of `acquire()` see around the owner's call, and the owner's and the late caller's scripts.
use idempotency.Base.{
  ℕ, suc, ◌+◌, ◌≤◌, ◌≡◌, refl, ap, ◌∙◌, subst, true, false, Bool, List, [], ◌∷◌, ◌++◌, map, none,
  some, arith, Text, text, text_eq, if_pos, if◌then◌else◌,
}
use idempotency.Store.{Store, Entry, AcquireResult, expires_at, on_acquire, on_lock}
use idempotency.Interceptor.{StoredPayload}
use idempotency.Testing.{
  complete, release, long_lock_ttl, long_record_ttl, same_result, same_answer,
}
use idempotency.Testing.Cells.{Shows, run_cell}
use idempotency.Testing.Cases.{response, expects_that}
use idempotency.Testing.Passing.{Setting}
use idempotency.Testing.Winners.{seen, AllSee, acquires-occupied, Then}
use idempotency.Testing.Fairness.{on_name-Named, racers-Named, racing, results}
use idempotency.Testing.Races.{
  Racer, Results, racer, race_name, winners, all_of_lock, of_lock, all_of_owner, of_owner,
}
use idempotency.Testing.Contests.{owner_first, late}

abbrev pub fp_owner : Text
fp_owner = text "fp-owner"

-- What the callers saw before and after the owner's call.
pub winners-append :
    (f : Text) (rs more : Results)
    → AllSee (AcquireResult.in_flight f) rs
    → winners (rs ++ more) ≡ winners more
unfolding winners
winners-append f [] more h = refl
winners-append f ((r, AcquireResult.acquired) ∷ rest) more (e, h) = cc
winners-append f ((r, AcquireResult.in_flight g) ∷ rest) more (e, h) = winners-append f rest more h
winners-append f ((r, AcquireResult.completed g p) ∷ rest) more (e, h) = cc

module _ (same_payload : StoredPayload → StoredPayload → Bool) where
  pub all_of_lock-append :
      (ws : List Racer) (rs more : Results)
      → all_of_lock same_payload ws rs ≡ true
      → all_of_lock same_payload ws more ≡ true
      → all_of_lock same_payload ws (rs ++ more) ≡ true
  unfolding all_of_lock
  all_of_lock-append ws [] more h h' = h'
  all_of_lock-append ws ((r, a) ∷ rest) more h h' =
      let tail = all_of_lock-append ws rest more (ground arith) h' in ground arith

  pub all_of_owner-append :
      (rs more : Results)
      → all_of_owner same_payload rs ≡ true
      → all_of_owner same_payload more ≡ true
      → all_of_owner same_payload (rs ++ more) ≡ true
  unfolding all_of_owner
  all_of_owner-append [] more h h' = h'
  all_of_owner-append ((r, a) ∷ rest) more h h' =
      let tail = all_of_owner-append rest more (ground arith) h' in ground arith

  pub all_of_lock-AllSee :
      (ws : List Racer) (answer : AcquireResult StoredPayload) (rs : Results)
      → of_lock same_payload ws answer ≡ true
      → AllSee answer rs
      → all_of_lock same_payload ws rs ≡ true
  unfolding all_of_lock
  all_of_lock-AllSee ws answer [] one h = refl
  all_of_lock-AllSee ws answer ((r, a) ∷ rest) one (e, h) =
      let head : of_lock same_payload ws a ≡ true = ap (of_lock same_payload ws) e ∙ one in
      let tail = all_of_lock-AllSee ws answer rest one h in ground (arith, head, tail)

  pub all_of_owner-AllSee :
      (answer : AcquireResult StoredPayload) (rs : Results)
      → of_owner same_payload answer ≡ true
      → AllSee answer rs
      → all_of_owner same_payload rs ≡ true
  unfolding all_of_owner
  all_of_owner-AllSee answer [] one h = refl
  all_of_owner-AllSee answer ((r, a) ∷ rest) one (e, h) =
      let head : of_owner same_payload a ≡ true = ap (of_owner same_payload) e ∙ one in
      let tail = all_of_owner-AllSee answer rest one h in ground (arith, head, tail)

  pub of_lock-owner :
      (ws : List Racer) → of_lock same_payload ws (AcquireResult.in_flight fp_owner) ≡ true
  unfolding same_result text_eq
  of_lock-owner [] = refl
  of_lock-owner (w ∷ ws) = refl

  pub of_lock-winner :
      (w : Racer) → of_lock same_payload (w ∷ []) (AcquireResult.in_flight w.fingerprint) ≡ true
  unfolding same_result
  of_lock-winner w =
      or_else
        (same_result same_payload (AcquireResult.in_flight w.fingerprint)
          (AcquireResult.in_flight fp_owner))
        _ (if_pos (text_eq w.fingerprint w.fingerprint) refl true false)
    where
      or_else : (a b : Bool) → b ≡ true → (if a then true else b) ≡ true
      or_else true b h = refl
      or_else false b h = h

pub owner_lock :
    (same_payload : StoredPayload → StoredPayload → Bool)
    → of_owner same_payload (AcquireResult.in_flight fp_owner) ≡ true
unfolding same_result text_eq
owner_lock same_payload = refl

pub owner_record :
    (g : Setting) → of_owner g.same_payload (AcquireResult.completed fp_owner response) ≡ true
unfolding same_result text_eq
owner_record g = g.same response

module _ (store : Store StoredPayload) (g : Setting) (prefix : Text) where
  open g use {lag, later, soon, same_payload, same}

  -- The callers while the key is occupied all see what stands there.
  pub occupied-AllSee :
      (s : store.State) (at calls : ℕ) (order : List ℕ) (cell : Entry StoredPayload)
      → at + long_lock_ttl ≤ expires_at cell
      → Shows store s (at + lag calls) (prefix ++ race_name) (some cell)
      → AllSee (seen cell) (
          results store g prefix at
            (racing store g prefix at s calls (map (racer race_name) order)))
        × Then store g prefix at
            (racing store g prefix at s calls (map (racer race_name) order))
            race_name
            (some cell)
  occupied-AllSee s at calls order cell long shows =
      let racers = map (racer race_name) order in
      let (all, end) =
        acquires-occupied store g prefix at s calls racers race_name cell long shows in
      (
        subst (AllSee (seen cell))
            (on_name-Named store g prefix at s calls race_name racers
              (racers-Named store g prefix at race_name order))
            all,
        end,
      )

  pub owner_first_lem :
      (at : ℕ)
      → run_cell same_payload lag none at 0 owner_first
        ≡ some (some (Entry.in_flight fp_owner (text "owner") (at + lag 0 + long_lock_ttl)), at, 1)
  unfolding run_cell on_acquire
  owner_first_lem at = refl

  pub releases_lem :
      (at calls e : ℕ)
      → at + long_lock_ttl ≤ e
      → run_cell same_payload lag
          (some (Entry.in_flight fp_owner (text "owner") e))
          at
          calls
          (expects_that true (release (text "owner")) ∷ [])
        ≡ some (none, at, suc calls)
  unfolding run_cell on_lock same_answer text_eq
  releases_lem at calls e long = ground (arith, soon calls, long)

  pub completes_lem :
      (at calls e : ℕ)
      → at + long_lock_ttl ≤ e
      → run_cell same_payload lag
          (some (Entry.in_flight fp_owner (text "owner") e))
          at
          calls
          (expects_that true (complete (text "owner") response long_record_ttl) ∷ [])
        ≡ some (
          some (Entry.completed fp_owner response (at + lag calls + long_record_ttl)),
          at,
          suc calls,
        )
  unfolding run_cell on_lock same_answer text_eq
  completes_lem at calls e long = ground (arith, soon calls, long)

  pub late_free :
      (at calls : ℕ)
      → run_cell same_payload lag none at calls (late [] ∷ [])
        ≡ some (
          some (Entry.in_flight (text "fp-late") (text "late") (at + lag calls + long_lock_ttl)),
          at,
          suc calls,
        )
  unfolding run_cell on_acquire same_answer
  late_free at calls = refl

  pub late_locked :
      (at calls : ℕ) (w : Racer) (e : ℕ)
      → at + long_lock_ttl ≤ e
      → run_cell same_payload lag
          (some (Entry.in_flight w.fingerprint w.owner e))
          at
          calls
          (late (w ∷ []) ∷ [])
        ≡ some (some (Entry.in_flight w.fingerprint w.owner e), at, suc calls)
  unfolding run_cell on_acquire same_answer
  late_locked at calls w e long = ground (arith, soon calls, long)
