-- ===== src/Testing/Owner.antt =====
-- A store that keeps the contract passes the cases in which `acquire()` races the owner's `release()` and
-- `complete()`, wherever the owner's call comes among them.
use idempotency.Base.{
  some_not_none, ℕ, suc, ◌+◌, ◌≤◌, ◌≡◌, ◌≢◌, inl, inr, sym, ap, ◌∙◌, true, List, [], ◌∷◌, ◌++◌, map,
  Option, none, some, arith, Text, text, ◌&&◌, if◌then◌else◌,
}
use idempotency.Store.{Store, Entry, AcquireResult}
use idempotency.Store.History.{operations}
use idempotency.Interceptor.{StoredPayload}
use idempotency.Testing.{Operation, complete, release, long_lock_ttl, long_record_ttl}
use idempotency.Testing.Cells.{Shows, run_cell, run_script-Ends}
use idempotency.Testing.Cases.{response, expects_that}
use idempotency.Testing.Passing.{Setting}
use idempotency.Testing.Winners.{AllSee, acquires-free}
use idempotency.Testing.Fairness.{
  winners-AllSee, on_name-Named, racers-Named, racing, state_of, calls_of, results,
}
use idempotency.Testing.Races.{Racer, Results, Reached, racer, race_name, winners, all_of_lock}
use idempotency.Testing.Contests.{
  script, at_most_one, owner_first, late, settled, against, after_release, after_complete,
  race_with_release, race_with_complete,
}
use idempotency.Testing.Handover.{
  fp_owner, winners-append, all_of_lock-append, all_of_owner-append, all_of_lock-AllSee,
  all_of_owner-AllSee, of_lock-owner, of_lock-winner, owner_lock, owner_record, occupied-AllSee,
  owner_first_lem, releases_lem, completes_lem, late_free, late_locked,
}

module _ (store : Store StoredPayload) (g : Setting) (prefix : Text) (s : store.State) (at : ℕ)
    (free : Shows store s (at + g.lag 0) (prefix ++ race_name) none) (before behind : List ℕ) where
  open g use {lag, later, soon, same_payload, same}

  abbrev after : store.State → ℕ → List ℕ → store.State × ℕ × Results
  after s calls order = racing store g prefix at s calls (map (racer race_name) order)

  -- Up to the owner's call, which answers `true`: the callers see its lock.
  abbrev Settles : Operation StoredPayload → (ℕ → Option (Entry StoredPayload)) → Type 0
  Settles op cell =
      (rs : Results) × (s' : store.State) × (calls : ℕ) × (n : ℕ) × ((expected : Results
          → Reached (operations store)
          → Reached (operations store))
        → against same_payload (operations store) lag prefix before behind op expected
            (script same_payload (operations store) lag prefix (some (s, at, 0)) owner_first)
          ≡ settled same_payload (operations store) lag prefix before behind expected rs
              (some (s', at, calls)))
      × AllSee (AcquireResult.in_flight fp_owner) rs
      × Shows store s' (at + lag calls) (prefix ++ race_name) (cell n)

  owner-Settles :
      (op : Operation StoredPayload) (cell : ℕ → Option (Entry StoredPayload))
      → ((calls e : ℕ)
          → at + long_lock_ttl ≤ e
          → run_cell same_payload lag
              (some (Entry.in_flight fp_owner (text "owner") e))
              at
              calls
              (expects_that true op ∷ [])
            ≡ some (cell calls, at, suc calls))
      → Settles op cell
  owner-Settles op cell op_lem =
      let e = at + lag 0 + long_lock_ttl in
      let lock : Entry StoredPayload = Entry.in_flight fp_owner (text "owner") e in
      let long : at + long_lock_ttl ≤ e = omega arith in
      let key = prefix ++ race_name in
      let (s₁, ran, shows, _, _) =
        run_script-Ends store same_payload lag later key s none at 0 owner_first (some lock, at, 1)
          free (owner_first_lem store g prefix at) in
      let (all, held) = occupied-AllSee store g prefix s₁ at 1 before lock long shows in
      let raced = after s₁ 1 before in
      let s₂ = state_of store g prefix at raced in
      let calls = calls_of store g prefix at raced in
      let (s₃, ended, shows', _, _) =
        run_script-Ends store same_payload lag later key s₂ (some lock) at calls
          (expects_that true op ∷ []) (cell calls, at, suc calls) held (op_lem calls e long) in
      (
        results store g prefix at raced,
        s₃,
        suc calls,
        calls,
        λ expected.
            ap (against same_payload (operations store) lag prefix before behind op expected) ran
            ∙ ap
                (settled same_payload (operations store) lag prefix before behind expected
                  (results store g prefix at raced))
                ended,
        all,
        shows',
      )

  pub race_with_complete-passes :
      race_with_complete same_payload (operations store) lag prefix before behind (some (s, at, 0))
      ≢ none
  unfolding race_with_complete
  race_with_complete-passes =
      let cell : ℕ → Entry StoredPayload =
        λ n. Entry.completed fp_owner response (at + lag n + long_record_ttl) in
      let (rs, s', calls, n, ran, all, shows) =
        owner-Settles (complete (text "owner") response long_record_ttl) (λ n. some (cell n))
          (completes_lem store g prefix at) in
      let (more, _) =
        occupied-AllSee store g prefix s' at calls behind (cell n) (omega arith) shows in
      let rs' = results store g prefix at (after s' calls behind) in
      let ok =
        all_of_owner-append same_payload rs rs'
          (all_of_owner-AllSee same_payload _ rs (owner_lock same_payload) all)
          (all_of_owner-AllSee same_payload _ rs' (owner_record g) more) in
      some_not_none (
        ran (after_complete same_payload (operations store) lag prefix before behind)
        ∙ ap
            (λ b.
              if b
              then some (
                state_of store g prefix at (after s' calls behind),
                at,
                calls_of store g prefix at (after s' calls behind),
              )
              else none)
            ok)

  -- The end of the case with `release()`, by who won.
  released :
      (rs : Results) (ws : List Racer) (end : Reached (operations store)) (x : store.State × ℕ × ℕ)
      → winners rs ≡ ws
      → at_most_one ws && all_of_lock same_payload ws rs ≡ true
      → script same_payload (operations store) lag prefix end (late ws ∷ []) ≡ some x
      → after_release same_payload (operations store) lag prefix before behind rs end ≢ none
  released rs ws end x e ok final = some_not_none (
      ap
        (λ v.
          if at_most_one v && all_of_lock same_payload v rs
          then script same_payload (operations store) lag prefix end (late v ∷ [])
          else none)
        e
      ∙ ap
          (λ b.
            if b
            then script same_payload (operations store) lag prefix end (late ws ∷ [])
            else none)
          ok
      ∙ final)

  pub race_with_release-passes :
      race_with_release same_payload (operations store) lag prefix before behind (some (s, at, 0))
      ≢ none
  unfolding race_with_release
  race_with_release-passes failed =
      let (rs, s', calls, n, ran, all, shows) =
        owner-Settles (release (text "owner")) (λ n. none) (releases_lem store g prefix at) in
      let key = prefix ++ race_name in
      let raced = after s' calls behind in
      let rs' = results store g prefix at raced in
      let end = calls_of store g prefix at raced in
      let s₂ = state_of store g prefix at raced in
      let racers = map (racer race_name) behind in
      let all_of_them =
        on_name-Named store g prefix at s' calls race_name racers
          (racers-Named store g prefix at race_name behind) in
      let bad =
        sym (ran (after_release same_payload (operations store) lag prefix before behind))
        ∙ failed in
      let before_lem = λ (ws : List Racer).
        all_of_lock-AllSee same_payload ws (AcquireResult.in_flight fp_owner) rs
          (of_lock-owner same_payload ws) all in
      elim (acquires-free store g prefix at s' calls racers race_name shows) [
        | inl (nobody, open_key) ↦
            let none_more : rs' ≡ [] = sym all_of_them ∙ nobody in
            let (_, ended, _, _, _) =
              run_script-Ends store same_payload lag later key s₂ none at end (late [] ∷ []) _
                open_key (late_free store g prefix at end) in
            let nobody_won = winners-append fp_owner rs rs' all ∙ ap winners none_more in
            released (rs ++ rs') [] (some (s₂, at, end)) _ nobody_won
              (all_of_lock-append same_payload [] rs rs' (before_lem [])
                (ap (all_of_lock same_payload []) none_more))
              ended bad
        | inr (w, more, e, won, lost, long, held) ↦
            let first_won = sym all_of_them ∙ won in
            let (_, ended, _, _, _) =
              run_script-Ends store same_payload lag later key s₂ _ at end (late (w ∷ []) ∷ []) _
                held (late_locked store g prefix at end w e long) in
            let w_won =
              winners-append fp_owner rs rs' all
              ∙ ap winners first_won
              ∙ ap (λ ws. w ∷ ws) (winners-AllSee w.fingerprint more lost) in
            released (rs ++ rs') (w ∷ []) (some (s₂, at, end)) _ w_won
              (all_of_lock-append same_payload (w ∷ []) rs rs' (before_lem (w ∷ [])) (
                ap (all_of_lock same_payload (w ∷ [])) first_won
                ∙ all_of_lock-AllSee same_payload (w ∷ []) (AcquireResult.in_flight w.fingerprint)
                    more (of_lock-winner same_payload w) lost))
              ended bad
      ]
