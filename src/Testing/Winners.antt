-- ===== src/Testing/Winners.antt =====
-- Callers that race `acquire()` against the contract: what each of them sees, on each key.
use idempotency.Base.{
  ℕ, suc, ◌+◌, ◌≤◌, ◌<◌, ◌≡◌, ◌≢◌, ◌⊎◌, inl, inr, refl, sym, ap, ◌∙◌, subst, List, [], ◌∷◌, ◌++◌,
  Option, none, some, arith, All, Text, text_eq, if_pos, if_neg,
}
use native.Mathlib.Nat.{le_refl}
use idempotency.Store.{Store, Entry, AcquireResult, live, expires_at, on_acquire}
use idempotency.Store.History.{operations}
use idempotency.Interceptor.{StoredPayload}
use idempotency.Testing.{long_lock_ttl}
use idempotency.Testing.Cells.{Shows, Shows-later}
use idempotency.Testing.Passing.{Setting}
use idempotency.Testing.Apart.{prefixed}
use idempotency.Testing.Races.{Racer, Results, on_name, acquires}

-- What `acquire()` finds where a live record stands.
abbrev pub seen : Entry StoredPayload → AcquireResult StoredPayload
seen (Entry.in_flight f o e) = AcquireResult.in_flight f
seen (Entry.completed f p e) = AcquireResult.completed f p

occupied_lem :
    (owner f : Text) (until : ℕ) (cell : Entry StoredPayload)
    → on_acquire owner f until (some cell) ≡ (some cell, seen cell)
unfolding on_acquire
occupied_lem owner f until (Entry.in_flight g o e) = refl
occupied_lem owner f until (Entry.completed g p e) = refl

pub live_lem :
    (now : ℕ) (cell : Entry StoredPayload)
    → now < expires_at cell
    → live now (some cell) ≡ some cell
live_lem now cell h = ground (arith, h)

-- Every result is this one.
abbrev pub AllSee : AcquireResult StoredPayload → Results → Type 0
AllSee answer = All (λ ra. ra.1 ≡ answer)

pub on_name-same :
    (j : Text) (r : Racer) (a : AcquireResult StoredPayload) (rest : Results)
    → r.name ≡ j
    → on_name j ((r, a) ∷ rest) ≡ (r, a) ∷ on_name j rest
unfolding on_name
on_name-same j r a rest e = if_pos (text_eq r.name j) e _ _

pub on_name-other :
    (j : Text) (r : Racer) (a : AcquireResult StoredPayload) (rest : Results)
    → r.name ≢ j
    → on_name j ((r, a) ∷ rest) ≡ on_name j rest
unfolding on_name
on_name-other j r a rest n = if_neg (text_eq r.name j) n _ _

module _ (store : Store StoredPayload) (g : Setting) (prefix : Text) (at : ℕ) where
  open g use {lag, later, soon}

  module _ (s : store.State) (calls : ℕ) (r : Racer) where
    abbrev took : store.State × AcquireResult StoredPayload
    took = store.acquire s (at + lag calls) (prefix ++ r.name) r.owner r.fingerprint long_lock_ttl

    abbrev cell_after :
        Option (Entry StoredPayload) → Option (Entry StoredPayload) × AcquireResult StoredPayload
    cell_after cell =
        on_acquire r.owner r.fingerprint (at + lag calls + long_lock_ttl)
          (live (at + lag calls) cell)

    took-own :
        (cell : Option (Entry StoredPayload))
        → Shows store s (at + lag calls) (prefix ++ r.name) cell
        → (took.1 ≡ (cell_after cell).1)
          × Shows store took.0 (at + lag (suc calls)) (prefix ++ r.name) (cell_after cell).0
    took-own cell shows =
        let now = at + lag calls in
        let e =
          ap (on_acquire r.owner r.fingerprint (now + long_lock_ttl)) (shows now (le_refl now)) in
        (
          store.acquire-result s now (prefix ++ r.name) r.owner r.fingerprint long_lock_ttl
              ∙ ap (λ x. x.1) e,
          Shows-later store took.0 now (at + lag (suc calls)) (prefix ++ r.name) (cell_after cell).0
              (omega (arith, later calls))
              (λ t h.
                store.acquire-view s now (prefix ++ r.name) r.owner r.fingerprint long_lock_ttl t
                  (prefix ++ r.name) h
                ∙ if_pos (text_eq (prefix ++ r.name) (prefix ++ r.name)) refl _ _
                ∙ ap (λ x. live t x.0) e),
        )

    took-other :
        (j : Text) (cell : Option (Entry StoredPayload))
        → r.name ≢ j
        → Shows store s (at + lag calls) (prefix ++ j) cell
        → Shows store took.0 (at + lag (suc calls)) (prefix ++ j) cell
    took-other j cell apart shows =
        let now = at + lag calls in
        Shows-later store took.0 now (at + lag (suc calls)) (prefix ++ j) cell
          (omega (arith, later calls))
          (λ t h.
            store.acquire-view s now (prefix ++ r.name) r.owner r.fingerprint long_lock_ttl t
              (prefix ++ j) h
            ∙ if_neg (text_eq (prefix ++ r.name) (prefix ++ j)) (prefixed prefix r.name j apart) _ _
            ∙ shows t h)

    took-occupied :
        (cell : Entry StoredPayload)
        → at + long_lock_ttl ≤ expires_at cell
        → Shows store s (at + lag calls) (prefix ++ r.name) (some cell)
        → (took.1 ≡ seen cell)
          × Shows store took.0 (at + lag (suc calls)) (prefix ++ r.name) (some cell)
    took-occupied cell long shows =
        let now = at + lag calls in
        let (answer, own) = took-own (some cell) shows in
        let e =
          ap (on_acquire r.owner r.fingerprint (now + long_lock_ttl))
            (live_lem now cell (omega (arith, soon calls, long)))
          ∙ occupied_lem r.owner r.fingerprint (now + long_lock_ttl) cell in
        (
          answer ∙ ap (λ x. x.1) e,
          subst (Shows store took.0 (at + lag (suc calls)) (prefix ++ r.name)) (ap (λ x. x.0) e)
              own,
        )

    took-free :
        Shows store s (at + lag calls) (prefix ++ r.name) none
        → (took.1 ≡ AcquireResult.acquired)
          × Shows store took.0
              (at + lag (suc calls))
              (prefix ++ r.name)
              (some (Entry.in_flight r.fingerprint r.owner (at + lag calls + long_lock_ttl)))
    unfolding on_acquire
    took-free shows = took-own none shows

  abbrev pub results_of : store.State × ℕ × Results → Results
  results_of (s, calls, rs) = rs

  -- The key shows this record after the calls.
  abbrev pub Then : store.State × ℕ × Results → Text → Option (Entry StoredPayload) → Type 0
  Then (s, calls, rs) j cell = Shows store s (at + lag calls) (prefix ++ j) cell

  pub acquires-occupied :
      (s : store.State) (calls : ℕ) (order : List Racer) (j : Text) (cell : Entry StoredPayload)
      → at + long_lock_ttl ≤ expires_at cell
      → Shows store s (at + lag calls) (prefix ++ j) (some cell)
      → AllSee
          (seen cell)
          (on_name j (results_of (acquires (operations store) lag prefix s at calls order)))
        × Then (acquires (operations store) lag prefix s at calls order) j (some cell)
  unfolding acquires on_name
  acquires-occupied s calls [] j cell long shows = (tt, shows)
  acquires-occupied s calls (r ∷ order) j cell long shows =
      let t = took s calls r in
      let rest = results_of (acquires (operations store) lag prefix t.0 at (suc calls) order) in
      elim (text_eq r.name j) [
        | yes e ↦
            let (answer, own) = took-occupied s calls r cell long (
              subst (λ n. Shows store s (at + lag calls) (prefix ++ n) (some cell)) (sym e)
                shows) in
            let (all, end) = acquires-occupied t.0 (suc calls) order j cell long (
              subst (λ n. Shows store t.0 (at + lag (suc calls)) (prefix ++ n) (some cell)) e
                own) in
            (subst (AllSee (seen cell)) (sym (on_name-same j r t.1 rest e)) (answer, all), end)
        | no n ↦
            let (all, end) =
              acquires-occupied t.0 (suc calls) order j cell long
                (took-other s calls r j (some cell) n shows) in
            (subst (AllSee (seen cell)) (sym (on_name-other j r t.1 rest n)) all, end)
      ]

  -- Nobody called, or the first caller won and the others see its lock.
  abbrev pub Won : store.State × ℕ × Results → Text → Type 0
  Won after j =
      (w : Racer) × (more : Results) × (e : ℕ) × (on_name j (results_of after)
        ≡ (w, AcquireResult.acquired) ∷ more)
      × AllSee (AcquireResult.in_flight w.fingerprint) more
      × (at + long_lock_ttl ≤ e)
      × Then after j (some (Entry.in_flight w.fingerprint w.owner e))

  pub acquires-free :
      (s : store.State) (calls : ℕ) (order : List Racer) (j : Text)
      → Shows store s (at + lag calls) (prefix ++ j) none
      → ((on_name j (results_of (acquires (operations store) lag prefix s at calls order)) ≡ [])
          × Then (acquires (operations store) lag prefix s at calls order) j none)
        ⊎ Won (acquires (operations store) lag prefix s at calls order) j
  unfolding acquires on_name
  acquires-free s calls [] j shows = inl (refl, shows)
  acquires-free s calls (r ∷ order) j shows =
      let t = took s calls r in
      let rest = results_of (acquires (operations store) lag prefix t.0 at (suc calls) order) in
      elim (text_eq r.name j) [
        | yes e ↦
            let until = at + lag calls + long_lock_ttl in
            let cell = Entry.in_flight r.fingerprint r.owner until in
            let (answer, own) =
              took-free s calls r
                (subst (λ n. Shows store s (at + lag calls) (prefix ++ n) none) (sym e) shows) in
            let (all, end) = acquires-occupied t.0 (suc calls) order j cell (omega arith) (
              subst (λ n. Shows store t.0 (at + lag (suc calls)) (prefix ++ n) (some cell)) e
                own) in
            inr (
              r,
              on_name j rest,
              until,
              on_name-same j r t.1 rest e ∙ ap (λ a. (r, a) ∷ on_name j rest) answer,
              all,
              omega arith,
              end,
            )
        | no n ↦
            elim (acquires-free t.0 (suc calls) order j (took-other s calls r j none n shows)) [
              | inl (nobody, end) ↦ inl (on_name-other j r t.1 rest n ∙ nobody, end)
              | inr (w, more, e, won, all, long, end) ↦
                  inr (w, more, e, on_name-other j r t.1 rest n ∙ won, all, long, end)
            ]
      ]
