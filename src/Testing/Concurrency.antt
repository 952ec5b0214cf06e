-- ===== src/Testing/Concurrency.antt =====
-- A store that keeps the contract passes the cases with concurrent callers, in whatever order it takes
-- their calls.
use idempotency.Base.{
  some_not_none, cons_not_nil, ℕ, zero, suc, ◌+◌, ◌/◌, ◌≤◌, ◌<◌, ◌≡◌, ◌≢◌, ◌⊎◌, inl, inr, refl, sym,
  ap, ◌∙◌, true, false, Bool, List, [], ◌∷◌, ◌++◌, map, none, some, arith, Text, text, text_eq,
}
use idempotency.Fingerprint.{decimal}
use idempotency.Store.{Store, Entry, on_acquire, on_lock}
use idempotency.Store.History.{operations}
use idempotency.Interceptor.{StoredPayload}
use idempotency.Testing.{long_lock_ttl, same_answer, margin, record_ttl}
use idempotency.Testing.Cells.{Shows, run_cell, run_script-Ends}
use idempotency.Testing.Cases.{response}
use idempotency.Testing.Passing.{Setting, enough}
use idempotency.Testing.Winners.{acquires-free, on_name-same, on_name-other}
use idempotency.Testing.Fairness.{
  won-expected, expired_lem, raced-some, one_race-WonBy, racing, state_of, calls_of, results,
}
use idempotency.Testing.Races.{
  Reached, racer, fp, race_name, key_name, paired, on_name, expect_one_winner, one_winner_each,
  acquires,
}
use idempotency.Testing.Contests.{
  script, one_race, crashes, stale, leaves_a_record, race_for_a_free_key, race_for_an_expired_lock,
  race_for_an_expired_record, race_on_several_keys,
}

module _ (store : Store StoredPayload) (g : Setting) (prefix : Text) (s : store.State) (at : ℕ)
    (free : Shows store s (at + g.lag 0) (prefix ++ race_name) none) (first : ℕ)
    (rest : List ℕ) where
  open g use {lag, later, soon, within, same_payload, lock_ttl, same}

  abbrev start : Reached (operations store)
  start = some (s, at, 0)

  pub race_for_a_free_key-passes :
      race_for_a_free_key same_payload (operations store) lag prefix (first ∷ rest) start ≢ none
  unfolding race_for_a_free_key
  race_for_a_free_key-passes = some_not_none (
      raced-some store g prefix at (expect_one_winner same_payload)
        (map (racer race_name) (first ∷ rest)) s 0
        (one_race-WonBy store g prefix at s 0 first rest free).0)

  -- The record has expired before the race.
  abbrev old_record : Entry StoredPayload
  old_record = Entry.completed (text "fp-first") response (at + lag 1 + record_ttl lock_ttl)

  leaves_a_record_lem :
      run_cell same_payload lag none at 0 (leaves_a_record lock_ttl)
      ≡ some (some old_record, at + (record_ttl lock_ttl + margin lock_ttl), 2)
  unfolding leaves_a_record run_cell on_acquire on_lock margin record_ttl text_eq
  leaves_a_record_lem = ground (arith, within 1, enough g at)

  pub race_for_an_expired_record-passes :
      race_for_an_expired_record same_payload
        (operations store)
        lag
        prefix
        lock_ttl
        (first ∷ rest)
        start
      ≢ none
  unfolding race_for_an_expired_record
  race_for_an_expired_record-passes =
      let at' = at + (record_ttl lock_ttl + margin lock_ttl) in
      let (s', ran, shows, _, _) =
        run_script-Ends store same_payload lag later (prefix ++ race_name) s none at 0
          (leaves_a_record lock_ttl) (some old_record, at', 2) free leaves_a_record_lem in
      let later_still : at + lag 1 + record_ttl lock_ttl ≤ at' + lag 2 = omega (arith, later 1) in
      let shows' =
        expired_lem store s' (at' + lag 2) (prefix ++ race_name) old_record later_still shows in
      some_not_none (
        ap (one_race same_payload (operations store) lag prefix (first ∷ rest)) ran
        ∙ raced-some store g prefix at' (expect_one_winner same_payload)
            (map (racer race_name) (first ∷ rest)) s' 2
            (one_race-WonBy store g prefix at' s' 2 first rest shows').0)

  abbrev old_lock : Entry StoredPayload
  old_lock = Entry.in_flight (text "fp-crashed") (text "crashed") (at + lag 0 + lock_ttl)

  crashes_lem :
      run_cell same_payload lag none at 0 (crashes lock_ttl)
      ≡ some (some old_lock, at + (lock_ttl + margin lock_ttl), 1)
  unfolding crashes run_cell on_acquire margin
  crashes_lem = refl

  stale_lem :
      (now calls : ℕ) (f n : Text) (e : ℕ)
      → now + long_lock_ttl ≤ e
      → run_cell same_payload lag
          (some (Entry.in_flight f (text "owner-" ++ n) e))
          now
          calls
          (stale lock_ttl)
        ≡ some (some (Entry.in_flight f (text "owner-" ++ n) e), now, suc calls)
  unfolding stale run_cell on_lock same_answer record_ttl text_eq
  stale_lem now calls f n e long = ground (arith, soon calls, long)

  pub race_for_an_expired_lock-passes :
      race_for_an_expired_lock same_payload
        (operations store)
        lag
        prefix
        lock_ttl
        (first ∷ rest)
        start
      ≢ none
  unfolding race_for_an_expired_lock
  race_for_an_expired_lock-passes =
      let at' = at + (lock_ttl + margin lock_ttl) in
      let (s₁, ran, shows, _, _) =
        run_script-Ends store same_payload lag later (prefix ++ race_name) s none at 0
          (crashes lock_ttl) (some old_lock, at', 1) free crashes_lem in
      let later_still : at + lag 0 + lock_ttl ≤ at' + lag 1 = omega (arith, later 0) in
      let gone =
        expired_lem store s₁ (at' + lag 1) (prefix ++ race_name) old_lock later_still shows in
      let (won, e, long, held) = one_race-WonBy store g prefix at' s₁ 1 first rest gone in
      let racers = map (racer race_name) (first ∷ rest) in
      let after = racing store g prefix at' s₁ 1 racers in
      let s₂ = state_of store g prefix at' after in
      let calls = calls_of store g prefix at' after in
      let cell = Entry.in_flight (fp first) (racer race_name first).owner e in
      let (s₃, ended, _, _, _) =
        run_script-Ends store same_payload lag later (prefix ++ race_name) s₂ (some cell) at' calls
          (stale lock_ttl) (some cell, at', suc calls) held
          (stale_lem at' calls (fp first) (decimal first) e long) in
      some_not_none (
        ap
          (λ r.
            script same_payload (operations store) lag prefix
              (one_race same_payload (operations store) lag prefix (first ∷ rest) r)
              (stale lock_ttl))
          ran
        ∙ ap (λ r. script same_payload (operations store) lag prefix r (stale lock_ttl))
            (raced-some store g prefix at' (expect_one_winner same_payload) racers s₁ 1 won)
        ∙ ended)

-- A caller on the key is among them.
abbrev pub Called : ℕ → List (ℕ × Bool) → Type 0
Called i [] = ⊥
Called i ((j, b) ∷ order) = (j ≡ i) ⊎ Called i order

module _ (store : Store StoredPayload) (g : Setting) (prefix : Text) (at : ℕ) where
  open g use {lag, later, soon, within, same_payload, lock_ttl, same}

  paired_name : (i : ℕ) (b : Bool) → (paired (i, b)).name ≡ key_name i
  paired_name i true = refl
  paired_name i false = refl

  on_name-Called :
      (s : store.State) (calls i : ℕ) (order : List (ℕ × Bool))
      → Called i order
      → on_name
          (key_name i)
          (results store g prefix at (racing store g prefix at s calls (map paired order)))
        ≢ []
  unfolding acquires
  on_name-Called s calls i [] h nothing = absurd h
  on_name-Called s calls i ((j, b) ∷ order) h nothing =
      let r = paired (j, b) in
      let t =
        store.acquire s (at + lag calls) (prefix ++ r.name) r.owner r.fingerprint long_lock_ttl in
      let more =
        results store g prefix at (racing store g prefix at t.0 (suc calls) (map paired order)) in
      elim (text_eq r.name (key_name i)) [
        | yes e ↦ cons_not_nil (sym (on_name-same (key_name i) r t.1 more e) ∙ nothing)
        | no n ↦ elim h [
          | inl e ↦ absurd (n (paired_name j b ∙ ap key_name e))
          | inr h ↦
              on_name-Called t.0 (suc calls) i order h
                (sym (on_name-other (key_name i) r t.1 more n) ∙ nothing)
        ]
      ]

  one_winner_each-paired :
      (s : store.State) (calls keys : ℕ) (order : List (ℕ × Bool))
      → ((i : ℕ) → i < keys → Shows store s (at + lag calls) (prefix ++ key_name i) none)
      → ((i : ℕ) → i < keys → Called i order)
      → one_winner_each same_payload keys
          (results store g prefix at (racing store g prefix at s calls (map paired order)))
        ≡ true
  unfolding one_winner_each
  one_winner_each-paired s calls zero order free called = refl
  one_winner_each-paired s calls (suc i) order free called =
      let more =
        one_winner_each-paired s calls i order (λ j h. free j (omega (arith, h)))
          (λ j h. called j (omega (arith, h))) in
      let rs = results store g prefix at (racing store g prefix at s calls (map paired order)) in
      let one : expect_one_winner same_payload (on_name (key_name i) rs) ≡ true =
        elim (acquires-free store g prefix at s calls (map paired order) (key_name i)
          (free i (omega arith))) [
            | inl (nobody, _) ↦
                absurd (on_name-Called s calls i order (called i (omega arith)) nobody)
            | inr (w, others, e, won, all, long, end) ↦
                ap (expect_one_winner same_payload) won ∙ won-expected same_payload w others all
          ] in
      ground (arith, more, one)

  pub race_on_several_keys-passes :
      (s : store.State) (callers : ℕ) (order : List (ℕ × Bool))
      → ((i : ℕ) → i < (callers + 1) / 2 → Shows store s (at + lag 0) (prefix ++ key_name i) none)
      → ((i : ℕ) → i < (callers + 1) / 2 → Called i order)
      → race_on_several_keys same_payload
          (operations store)
          lag
          prefix
          callers
          order
          (some (s, at, 0))
        ≢ none
  unfolding race_on_several_keys
  race_on_several_keys-passes s callers order free called = some_not_none (
      raced-some store g prefix at (one_winner_each same_payload ((callers + 1) / 2))
        (map paired order) s 0 (one_winner_each-paired s 0 ((callers + 1) / 2) order free called))
