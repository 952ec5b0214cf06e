-- ===== src/Testing/Contests.antt =====
-- The cases of `idempotencyStoreContract` with concurrent callers, each with the order in which the
-- store takes their calls.
use idempotency.Base.{
  ℕ, suc, zero, ◌+◌, ◌/◌, Bool, true, false, List, [], ◌∷◌, ◌++◌, map, none, some, if◌then◌else◌,
  Text, text, ◌&&◌,
}
use idempotency.Store.History.{Implementation}
use idempotency.Interceptor.{StoredPayload}
use idempotency.Testing.{
  Operation, acquire, complete, release, Command, does, advances, margin, record_ttl, long_lock_ttl,
  long_record_ttl, run_script,
}
use idempotency.Testing.Cases.{response, expects_acquired, expects_lock, expects_that}
use idempotency.Testing.Races.{
  Racer, Reached, Results, acquires, all_of_lock, all_of_owner, expect_one_winner, one_winner_each,
  paired, race_name, racer, winners,
}

-- What stands before and after some races.
unfoldable pub crashes : (lock_ttl : ℕ) → List (Command StoredPayload)
unfolding margin
crashes lock_ttl =
    does (acquire (text "crashed") (text "fp-crashed") lock_ttl)
    ∷ advances (lock_ttl + margin lock_ttl)
    ∷ []

unfoldable pub stale : (lock_ttl : ℕ) → List (Command StoredPayload)
unfolding record_ttl
stale lock_ttl = expects_that false (complete (text "crashed") response (record_ttl lock_ttl)) ∷ []

unfoldable pub leaves_a_record : (lock_ttl : ℕ) → List (Command StoredPayload)
unfolding margin record_ttl
leaves_a_record lock_ttl =
    does (acquire (text "first") (text "fp-first") lock_ttl)
    ∷ does (complete (text "first") response (record_ttl lock_ttl))
    ∷ advances (record_ttl lock_ttl + margin lock_ttl)
    ∷ []

abbrev pub owner_first : List (Command StoredPayload)
owner_first = does (acquire (text "owner") (text "fp-owner") long_lock_ttl) ∷ []

abbrev pub late : List Racer → Command StoredPayload
late [] = expects_acquired (text "late") (text "fp-late") long_lock_ttl
late (w ∷ ws) = expects_lock (text "late") (text "fp-late") long_lock_ttl w.fingerprint

abbrev pub at_most_one : List Racer → Bool
at_most_one [] = true
at_most_one (w ∷ []) = true
at_most_one (w ∷ x ∷ more) = false

module _ (same_payload : StoredPayload → StoredPayload → Bool) where
  module _ (impl : Implementation StoredPayload) (lag : ℕ → ℕ) (prefix : Text) where
    abbrev pub script : Reached impl → List (Command StoredPayload) → Reached impl
    script none cs = none
    script (some (s, at, calls)) cs =
        run_script same_payload impl lag s at calls (prefix ++ race_name) cs

    -- What stands before a race, the race, and what stands after it.
    abbrev pub raced : (Results → Bool) → List Racer → Reached impl → Reached impl
    raced expected order none = none
    raced expected order (some (s, at, calls)) =
        let (s', calls', results) = acquires impl lag prefix s at calls order in
        if expected results then some (s', at, calls') else none

    abbrev pub one_race : List ℕ → Reached impl → Reached impl
    one_race order r = raced (expect_one_winner same_payload) (map (racer race_name) order) r

    unfoldable pub race_for_a_free_key : List ℕ → Reached impl → Reached impl
    unfolding expect_one_winner acquires
    race_for_a_free_key order r = one_race order r

    unfoldable pub race_for_an_expired_lock : (lock_ttl : ℕ) → List ℕ → Reached impl → Reached impl
    unfolding expect_one_winner acquires crashes stale run_script
    race_for_an_expired_lock lock_ttl order r =
        script (one_race order (script r (crashes lock_ttl))) (stale lock_ttl)

    unfoldable pub race_for_an_expired_record :
        (lock_ttl : ℕ) → List ℕ → Reached impl → Reached impl
    unfolding expect_one_winner acquires leaves_a_record run_script
    race_for_an_expired_record lock_ttl order r =
        one_race order (script r (leaves_a_record lock_ttl))

    -- `Math.ceil(callers / 2)` keys, and two callers on each.
    unfoldable pub race_on_several_keys :
        (callers : ℕ) → List (ℕ × Bool) → Reached impl → Reached impl
    unfolding one_winner_each acquires
    race_on_several_keys callers order r =
        raced (one_winner_each same_payload ((callers + 1) / 2)) (map paired order) r

    -- The callers before the owner's call, the call, and the callers after it.
    module _ (before behind : List ℕ) where
      abbrev pub settled :
          (Results → Reached impl → Reached impl) → Results → Reached impl → Reached impl
      settled expected rs none = none
      settled expected rs (some (s, at, calls)) =
          let (s', calls', more) =
            acquires impl lag prefix s at calls (map (racer race_name) behind) in
          expected (rs ++ more) (some (s', at, calls'))

      abbrev pub against :
          Operation StoredPayload
          → (Results → Reached impl → Reached impl)
          → Reached impl
          → Reached impl
      against op expected none = none
      against op expected (some (s, at, calls)) =
          let (s', calls', rs) =
            acquires impl lag prefix s at calls (map (racer race_name) before) in
          settled expected rs (script (some (s', at, calls')) (expects_that true op ∷ []))

      abbrev pub after_release : Results → Reached impl → Reached impl
      after_release rs end =
          if at_most_one (winners rs) && all_of_lock same_payload (winners rs) rs
          then script end (late (winners rs) ∷ [])
          else none

      unfoldable pub race_with_release : Reached impl → Reached impl
      unfolding run_script acquires winners all_of_lock
      race_with_release r = against (release (text "owner")) after_release (script r owner_first)

      abbrev pub after_complete : Results → Reached impl → Reached impl
      after_complete rs end = if all_of_owner same_payload rs then end else none

      unfoldable pub race_with_complete : Reached impl → Reached impl
      unfolding run_script acquires all_of_owner
      race_with_complete r =
          against (complete (text "owner") response long_record_ttl) after_complete
            (script r owner_first)

      -- The cases with concurrent callers, in their order, each in a fresh store; without
      -- `concurrent`, there are none.
      unfoldable pub concurrent_cases :
          (lock_ttl callers : ℕ) (order : List ℕ) (pairs : List (ℕ × Bool))
          → Reached impl
          → List (Reached impl)
      unfolding race_for_a_free_key race_for_an_expired_lock race_for_an_expired_record
          race_on_several_keys race_with_release race_with_complete
      concurrent_cases lock_ttl zero order pairs r = []
      concurrent_cases lock_ttl (suc n) order pairs r =
          race_for_a_free_key order r
          ∷ race_for_an_expired_lock lock_ttl order r
          ∷ race_for_an_expired_record lock_ttl order r
          ∷ race_on_several_keys (suc n) pairs r
          ∷ race_with_release r
          ∷ race_with_complete r
          ∷ []
