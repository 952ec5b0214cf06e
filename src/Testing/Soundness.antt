-- ===== src/Testing/Soundness.antt =====
-- What passing the published test cases takes of a store: to keep the contract.
use idempotency.Base.{
  some_not_none, cons_not_nil, ℕ, zero, suc, ◌+◌, ◌/◌, ◌<◌, ◌≡◌, Bool, ◌≢◌, refl, ap, List, [], ◌∷◌,
  ◌++◌, none, some, All, Text, text_eq, among, true, Option-cases, inl, inr,
}
use idempotency.Fingerprint.{decimal}
use idempotency.Store.{Store}
use idempotency.Store.History.{operations}
use idempotency.Interceptor.{StoredPayload}
use idempotency.Testing.{Command, Case, run_case}
use idempotency.Testing.Cells.{Shows, run_cell, run_script-Ends}
use idempotency.Testing.Keys.{
  sequential_cases, distinct_texts, similar_names, similar_names-distinct, keeps_keys_apart,
  stores_every_payload, payloads,
}
use idempotency.Testing.Cases.{
  takes_a_free_key, completes_for_the_owner, a_record_is_final, releases_for_the_owner,
  needs_a_record, extends_for_the_owner, leaves_a_ttl_alone, fences_a_stale_owner,
  ends_with_the_lock, expires_a_record, takes_weeks,
}
use idempotency.Testing.Passing.{
  Setting, Passes, takes_a_free_key-Passes, completes_for_the_owner-Passes,
  a_record_is_final-Passes, releases_for_the_owner-Passes, needs_a_record-Passes,
  extends_for_the_owner-Passes, leaves_a_ttl_alone-Passes, fences_a_stale_owner-Passes,
  ends_with_the_lock-Passes, expires_a_record-Passes, takes_weeks-Passes,
}
use idempotency.Testing.Races.{race_name, key_name}
use idempotency.Testing.Contests.{concurrent_cases}
use idempotency.Testing.Concurrency.{
  Called, race_for_a_free_key-passes, race_for_an_expired_lock-passes,
  race_for_an_expired_record-passes, race_on_several_keys-passes,
}
use idempotency.Testing.Owner.{race_with_release-passes, race_with_complete-passes}
use idempotency.Testing.Payloads.{payload_names, payload_calls-pass}
use idempotency.Testing.Apart.{Free, distinct_texts-AllApart, keeps_apart-passes}

payloads-distinct : distinct_texts (payload_names 0 payloads) ≡ true
unfolding payloads distinct_texts among text_eq decimal
payloads-distinct = refl

module _ (store : Store StoredPayload) (g : Setting) (prefix : Text) (s : store.State) (at : ℕ)
    (free : (name : Text) → Shows store s (at + g.lag 0) (prefix ++ name) none) where
  all-Free : (names : List Text) → Free store g prefix at s 0 names
  all-Free [] = tt
  all-Free (name ∷ names) = (free name, all-Free names)

  alone :
      (name : Text) (script : List (Command StoredPayload))
      → run_cell g.same_payload g.lag none at 0 script ≢ none
      → run_case g.same_payload
          (operations store)
          g.lag
          prefix
          (some (s, at, 0))
          ((name, script) ∷ [])
        ≢ none
  unfolding run_case
  alone name script ok failed =
      let ends = Option-cases (run_cell g.same_payload g.lag none at 0 script) in
      elim ends [
        | inl bad ↦ ok bad
        | inr (end, e) ↦
            let (s', ran, _, _, _) =
              run_script-Ends store g.same_payload g.lag g.later (prefix ++ name) s none at 0 script
                end (free name) e in
            some_not_none
              (ap (λ r. run_case g.same_payload (operations store) g.lag prefix r []) ran) failed
      ]

  passes :
      (c : Case StoredPayload)
      → Passes g at c
      → run_case g.same_payload (operations store) g.lag prefix (some (s, at, 0)) c ≢ none
  passes [] h = absurd h
  passes ((name, script) ∷ []) h = alone name script h.0
  passes ((name, script) ∷ (x ∷ rest)) h = absurd (cons_not_nil h.1)

  every_case-passes :
      All
        (λ c. run_case g.same_payload (operations store) g.lag prefix (some (s, at, 0)) c ≢ none)
        (sequential_cases g.lock_ttl)
  unfolding sequential_cases keeps_keys_apart stores_every_payload
  every_case-passes = (
    passes takes_a_free_key (takes_a_free_key-Passes g at),
    (
      passes completes_for_the_owner (completes_for_the_owner-Passes g at),
      (
        passes a_record_is_final (a_record_is_final-Passes g at),
        (
          passes releases_for_the_owner (releases_for_the_owner-Passes g at),
          (
            passes needs_a_record (needs_a_record-Passes g at),
            (
              passes (extends_for_the_owner g.lock_ttl) (extends_for_the_owner-Passes g at),
              (
                passes (leaves_a_ttl_alone g.lock_ttl) (leaves_a_ttl_alone-Passes g at),
                (
                  passes (fences_a_stale_owner g.lock_ttl) (fences_a_stale_owner-Passes g at),
                  (
                    passes (ends_with_the_lock g.lock_ttl) (ends_with_the_lock-Passes g at),
                    (
                      passes (expires_a_record g.lock_ttl) (expires_a_record-Passes g at),
                      (
                        passes (takes_weeks g.lock_ttl) (takes_weeks-Passes g at),
                        (
                          keeps_apart-passes store g prefix at s similar_names
                              (distinct_texts-AllApart similar_names similar_names-distinct)
                              (all-Free similar_names),
                          (
                            payload_calls-pass store g prefix at s 0 0 payloads
                                (distinct_texts-AllApart (payload_names 0 payloads)
                                  payloads-distinct)
                                (all-Free (payload_names 0 payloads)),
                            tt,
                          ),
                        ),
                      ),
                    ),
                  ),
                ),
              ),
            ),
          ),
        ),
      ),
    ),
  )

  every_race-passes :
      (callers first : ℕ) (rest before behind : List ℕ) (pairs : List (ℕ × Bool))
      → ((i : ℕ) → i < (callers + 1) / 2 → Called i pairs)
      → All
          (λ end. end ≢ none)
          (concurrent_cases g.same_payload
            (operations store)
            g.lag
            prefix
            before
            behind
            g.lock_ttl
            callers
            (first ∷ rest)
            pairs
            (some (s, at, 0)))
  unfolding concurrent_cases
  every_race-passes zero first rest before behind pairs called = tt
  every_race-passes (suc n) first rest before behind pairs called =
      let one_key = free race_name in
      (
        race_for_a_free_key-passes store g prefix s at one_key first rest,
        (
          race_for_an_expired_lock-passes store g prefix s at one_key first rest,
          (
            race_for_an_expired_record-passes store g prefix s at one_key first rest,
            (
              race_on_several_keys-passes store g prefix at s (suc n) pairs
                  (λ i h. free (key_name i)) called,
              (
                race_with_release-passes store g prefix s at one_key before behind,
                (race_with_complete-passes store g prefix s at one_key before behind, tt),
              ),
            ),
          ),
        ),
      )

  -- A store that keeps the contract passes every published case: each case that makes its calls one
  -- by one and each case with concurrent callers ends without an `AssertionError`, in whatever order
  -- the store takes the concurrent calls. It starts in a state that shows no key of the case's prefix,
  -- with options that the suite accepts, a comparison that takes a payload for itself, and delays of
  -- the calls that never fall and stay below the suite's margin and below an hour; where callers race
  -- on several keys, each key has one.
  pub suite_passes :
      (first : ℕ) (rest before behind : List ℕ) (pairs : List (ℕ × Bool))
      → ((i : ℕ) → i < (g.callers + 1) / 2 → Called i pairs)
      → All
          (λ c. run_case g.same_payload (operations store) g.lag prefix (some (s, at, 0)) c ≢ none)
          (sequential_cases g.lock_ttl)
        × All
            (λ end. end ≢ none)
            (concurrent_cases g.same_payload
              (operations store)
              g.lag
              prefix
              before
              behind
              g.lock_ttl
              g.callers
              (first ∷ rest)
              pairs
              (some (s, at, 0)))
  suite_passes first rest before behind pairs called =
      (every_case-passes, every_race-passes g.callers first rest before behind pairs called)
