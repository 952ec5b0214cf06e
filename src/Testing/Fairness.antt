-- ===== src/Testing/Fairness.antt =====
-- A store that keeps the contract passes the cases with concurrent callers, in whatever order it takes
-- their calls.
use idempotency.Base.{
  ℕ, suc, ◌+◌, ◌≤◌, ◌≡◌, ◌≢◌, inl, inr, refl, sym, ap, ◌∙◌, subst, true, Bool, List, [], ◌∷◌, ◌++◌,
  map, none, some, arith, All, Text, if◌then◌else◌,
}
use native.Mathlib.Nat.{le_trans}
use idempotency.Store.{Store, Entry, AcquireResult, live, expires_at}
use idempotency.Store.History.{operations}
use idempotency.Interceptor.{StoredPayload}
use idempotency.Testing.{long_lock_ttl, same_result}
use idempotency.Testing.Cells.{Shows}
use idempotency.Testing.Passing.{Setting}
use idempotency.Testing.Winners.{AllSee, acquires-free, results_of, Then, on_name-same}
use idempotency.Testing.Races.{
  Racer, Results, racer, race_name, winners, on_name, all_lost, lost_to, expect_one_winner,
  acquires,
}
use idempotency.Testing.Contests.{raced}

-- Losers' results.
pub winners-AllSee :
    (f : Text) (rs : Results) → AllSee (AcquireResult.in_flight f) rs → winners rs ≡ []
unfolding winners
winners-AllSee f [] h = refl
winners-AllSee f ((r, AcquireResult.acquired) ∷ rest) (e, h) = cc
winners-AllSee f ((r, AcquireResult.in_flight g) ∷ rest) (e, h) = winners-AllSee f rest h
winners-AllSee f ((r, AcquireResult.completed g p) ∷ rest) (e, h) = cc

module _ (same_payload : StoredPayload → StoredPayload → Bool) where
  all_lost-AllSee :
      (f : Text) (rs : Results)
      → AllSee (AcquireResult.in_flight f) rs
      → all_lost same_payload f rs ≡ true
  unfolding all_lost same_result
  all_lost-AllSee f [] h = refl
  all_lost-AllSee f ((r, AcquireResult.acquired) ∷ rest) (e, h) = cc
  all_lost-AllSee f ((r, AcquireResult.in_flight g) ∷ rest) (e, h) =
      let g_is_f : g ≡ f = cc in let rest_lost = all_lost-AllSee f rest h in ground arith
  all_lost-AllSee f ((r, AcquireResult.completed g p) ∷ rest) (e, h) = cc

  pub won-expected :
      (w : Racer) (rs : Results)
      → AllSee (AcquireResult.in_flight w.fingerprint) rs
      → expect_one_winner same_payload ((w, AcquireResult.acquired) ∷ rs) ≡ true
  unfolding expect_one_winner winners all_lost
  won-expected w rs h =
      ap (λ ws. lost_to same_payload (w ∷ ws) ((w, AcquireResult.acquired) ∷ rs))
        (winners-AllSee w.fingerprint rs h)
      ∙ all_lost-AllSee w.fingerprint rs h

module _ (store : Store StoredPayload) (g : Setting) (prefix : Text) (at : ℕ) where
  open g use {lag, later, soon, same_payload}

  abbrev pub Named : Text → List Racer → Type 0
  Named k = All (λ r. r.name ≡ k)

  -- Where all callers are on one key, its results are all of them.
  pub on_name-Named :
      (s : store.State) (calls : ℕ) (k : Text) (order : List Racer)
      → Named k order
      → on_name k
          (results_of store g prefix at (acquires (operations store) lag prefix s at calls order))
        ≡ results_of store g prefix at (acquires (operations store) lag prefix s at calls order)
  unfolding acquires on_name
  on_name-Named s calls k [] h = refl
  on_name-Named s calls k (r ∷ order) (e, h) =
      let t =
        store.acquire s (at + lag calls) (prefix ++ r.name) r.owner r.fingerprint long_lock_ttl in
      on_name-same k r t.1 _ e ∙ ap (λ rs. (r, t.1) ∷ rs) (on_name-Named t.0 (suc calls) k order h)

  pub racers-Named : (k : Text) (order : List ℕ) → Named k (map (racer k) order)
  racers-Named k [] = tt
  racers-Named k (i ∷ order) = (refl, racers-Named k order)

  abbrev pub racing : store.State → ℕ → List Racer → store.State × ℕ × Results
  racing s calls order = acquires (operations store) lag prefix s at calls order

  abbrev pub state_of : store.State × ℕ × Results → store.State
  state_of (s, calls, rs) = s

  abbrev pub calls_of : store.State × ℕ × Results → ℕ
  calls_of (s, calls, rs) = calls

  abbrev pub results : store.State × ℕ × Results → Results
  results r = results_of store g prefix at r

  -- The first of the callers wins, and holds the lock for longer than the case takes.
  abbrev pub WonBy : Racer → store.State × ℕ × Results → Type 0
  WonBy w r =
      (expect_one_winner same_payload (results r) ≡ true)
      × (e : ℕ) × (at + long_lock_ttl ≤ e)
      × Then store g prefix at r race_name (some (Entry.in_flight w.fingerprint w.owner e))

  pub one_race-WonBy :
      (s : store.State) (calls i : ℕ) (order : List ℕ)
      → Shows store s (at + lag calls) (prefix ++ race_name) none
      → WonBy (racer race_name i) (racing s calls (map (racer race_name) (i ∷ order)))
  unfolding acquires
  one_race-WonBy s calls i order shows =
      let racers = map (racer race_name) (i ∷ order) in
      let all_of_them =
        on_name-Named s calls race_name racers (racers-Named race_name (i ∷ order)) in
      elim (acquires-free store g prefix at s calls racers race_name shows) [
        | inl (nobody, end) ↦ absurd (called s calls i order (sym all_of_them ∙ nobody))
        | inr (w, more, e, won, all, long, end) ↦
            let same = sym all_of_them ∙ won in
            let w_first : w ≡ racer race_name i = sym (first_won s calls i order w more same) in
            (
              ap (expect_one_winner same_payload) same ∙ won-expected same_payload w more all,
              e,
              long,
              subst
                  (λ x.
                    Then store g prefix at (racing s calls racers) race_name
                      (some (Entry.in_flight x.fingerprint x.owner e)))
                  w_first end,
            )
      ]
    where
      called :
          (s : store.State) (calls i : ℕ) (order : List ℕ)
          → results (racing s calls (map (racer race_name) (i ∷ order))) ≢ []
      called s calls i order e = cc

      first_won :
          (s : store.State) (calls i : ℕ) (order : List ℕ) (w : Racer) (more : Results)
          → results (racing s calls (map (racer race_name) (i ∷ order)))
            ≡ (w, AcquireResult.acquired) ∷ more
          → racer race_name i ≡ w
      first_won s calls i order w more e = cc

  pub raced-some :
      (expected : Results → Bool) (order : List Racer) (s : store.State) (calls : ℕ)
      → expected (results (racing s calls order)) ≡ true
      → raced same_payload (operations store) lag prefix expected order (some (s, at, calls))
        ≡ some (state_of (racing s calls order), at, calls_of (racing s calls order))
  raced-some expected order s calls e =
      ap
        (λ b.
          if b
          then some (state_of (racing s calls order), at, calls_of (racing s calls order))
          else none)
        e

pub expired_lem :
    (store : Store StoredPayload) (s : store.State) (now : ℕ) (key : Text)
    (cell : Entry StoredPayload)
    → expires_at cell ≤ now
    → Shows store s now key (some cell)
    → Shows store s now key none
expired_lem store s now key cell gone shows t h = shows t h ∙ dead t cell (le_trans gone h)
  where
    dead : (t : ℕ) (cell : Entry StoredPayload) → expires_at cell ≤ t → live t (some cell) ≡ none
    dead t cell h = ground (arith, h)
