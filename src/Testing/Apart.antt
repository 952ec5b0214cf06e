-- ===== src/Testing/Apart.antt =====
-- The cases on several keys, in a store that shows none of the keys.
use idempotency.Base.{
  ℕ, suc, ◌+◌, ◌≤◌, ◌≡◌, ◌≢◌, refl, sym, ap, ◌∙◌, true, false, List, [], ◌∷◌, ◌++◌, Option, none,
  some, arith, All, All-map, Text, text, text_eq, among,
}
use idempotency.Store.{Store, Entry, on_acquire}
use idempotency.Store.History.{operations}
use idempotency.Interceptor.{StoredPayload}
use idempotency.Testing.{Command, Case, long_lock_ttl, same_answer, run_script, run_case}
use idempotency.Testing.Cells.{Shows, run_cell, run_script-Ends}
use idempotency.Testing.Cases.{a, b, expects_acquired, expects_lock}
use idempotency.Testing.Keys.{distinct_texts, numbered, first_calls, second_calls}
use idempotency.Testing.Passing.{Setting}

-- A text apart from each of the list.
abbrev pub Apart : Text → List Text → Type 0
Apart t = All (λ u. t ≢ u)

abbrev pub AllApart : List Text → Type 0
AllApart [] = Unit
AllApart (t ∷ ts) = Apart t ts × AllApart ts

among-Apart : (t : Text) (ts : List Text) → among t ts ≡ false → Apart t ts
unfolding among
among-Apart t [] h = tt
among-Apart t (u ∷ us) h = elim (text_eq t u) [
  | yes e ↦ absurd (ground arith)
  | no n ↦ (n, among-Apart t us (ground arith))
]

pub distinct_texts-AllApart : (ts : List Text) → distinct_texts ts ≡ true → AllApart ts
unfolding distinct_texts
distinct_texts-AllApart [] h = tt
distinct_texts-AllApart (t ∷ ts) h =
    (among-Apart t ts (ground arith), distinct_texts-AllApart ts (ground arith))

pub prefixed : (p t u : Text) → t ≢ u → (p ++ t) ≢ (p ++ u)
prefixed [] t u h e = h e
prefixed (c ∷ p) t u h e = prefixed p t u h (cc)

module _ (store : Store StoredPayload) (g : Setting) (prefix : Text) (at : ℕ) where
  open g use {same_payload, same, lag, later, soon}

  abbrev pub Free : store.State → ℕ → List Text → Type 0
  Free s calls = All (λ name. Shows store s (at + lag calls) (prefix ++ name) none)

  -- The keys are locked by `a`, each with its number, until after the case.
  abbrev Locked : store.State → (calls index : ℕ) → List Text → Type 0
  Locked s calls i [] = Unit
  Locked s calls i (name ∷ names) =
      ((e : ℕ) × (at + long_lock_ttl ≤ e)
        × Shows store s (at + lag calls) (prefix ++ name) (some (Entry.in_flight (numbered i) a e)))
      × Locked s calls (suc i) names

  -- What a script on one key leaves alone.
  abbrev Leaves : store.State → (calls : ℕ) → store.State → (calls' : ℕ) → Text → Type 0
  Leaves s calls s' calls' name =
      (j : Text) (other : Option (Entry StoredPayload))
      → (prefix ++ name) ≢ j
      → Shows store s (at + lag calls) j other
      → Shows store s' (at + lag calls') j other

  pub Free-stays :
      (s s' : store.State) (calls calls' : ℕ) (name : Text) (names : List Text)
      → Leaves s calls s' calls' name
      → Apart name names
      → Free s calls names
      → Free s' calls' names
  Free-stays s s' calls calls' name [] leaves h f = tt
  Free-stays s s' calls calls' name (n ∷ ns) leaves h f = (
    leaves (prefix ++ n) none (prefixed prefix name n h.0) f.0,
    Free-stays s s' calls calls' name ns leaves h.1 f.1,
  )

  Locked-stays :
      (s s' : store.State) (calls calls' index : ℕ) (name : Text) (names : List Text)
      → Leaves s calls s' calls' name
      → Apart name names
      → Locked s calls index names
      → Locked s' calls' index names
  Locked-stays s s' calls calls' i name [] leaves h l = tt
  Locked-stays s s' calls calls' i name (n ∷ ns) leaves h ((e, long, shows), l) = (
    (
      e,
      long,
      leaves (prefix ++ n) (some (Entry.in_flight (numbered i) a e)) (prefixed prefix name n h.0)
          shows,
    ),
    Locked-stays s s' calls calls' (suc i) name ns leaves h.1 l,
  )

  -- One segment, and then the rest.
  pub segment_lem :
      (s s' : store.State) (calls calls' : ℕ) (name : Text) (script : List (Command StoredPayload))
      (rest : Case StoredPayload)
      → run_script same_payload (operations store) lag s at calls (prefix ++ name) script
        ≡ some (s', at, calls')
      → run_case same_payload
          (operations store)
          lag
          prefix
          (some (s, at, calls))
          ((name, script) ∷ rest)
        ≡ run_case same_payload (operations store) lag prefix (some (s', at, calls')) rest
  unfolding run_case
  segment_lem s s' calls calls' name script rest e =
      ap (λ r. run_case same_payload (operations store) lag prefix r rest) e

  lock_seen :
      (calls : ℕ) (f : Text) (e : ℕ)
      → at + long_lock_ttl ≤ e
      → run_cell same_payload lag
          (some (Entry.in_flight f a e))
          at
          calls
          (expects_lock b (text "fp") long_lock_ttl f ∷ [])
        ≡ some (some (Entry.in_flight f a e), at, suc calls)
  unfolding run_cell same_answer on_acquire
  lock_seen calls f e long = ground (arith, soon calls, long)

  lock_taken :
      (calls : ℕ) (f : Text)
      → run_cell same_payload lag none at calls (expects_acquired a f long_lock_ttl ∷ [])
        ≡ some (some (Entry.in_flight f a (at + lag calls + long_lock_ttl)), at, suc calls)
  unfolding run_cell same_answer on_acquire
  lock_taken calls f = refl

  second_calls-pass :
      (s : store.State) (calls index : ℕ) (names : List Text)
      → AllApart names
      → Locked s calls index names
      → run_case same_payload
          (operations store)
          lag
          prefix
          (some (s, at, calls))
          (second_calls index names)
        ≢ none
  unfolding run_case second_calls
  second_calls-pass s calls i [] d h e = cc
  second_calls-pass s calls i (name ∷ names) d ((e, long, shows), h) failed =
      let (s', ran, _, _, leaves) =
        run_script-Ends store same_payload lag later (prefix ++ name) s
          (some (Entry.in_flight (numbered i) a e)) at calls
          (expects_lock b (text "fp") long_lock_ttl (numbered i) ∷ [])
          (some (Entry.in_flight (numbered i) a e), at, suc calls) shows
          (lock_seen calls (numbered i) e long) in
      second_calls-pass s' (suc calls) (suc i) names d.1
        (Locked-stays s s' calls (suc calls) (suc i) name names leaves d.0 h)
        (sym (
            segment_lem s s' calls (suc calls) name
              (expects_lock b (text "fp") long_lock_ttl (numbered i) ∷ [])
              (second_calls (suc i) names) ran)
          ∙ failed)

  -- The first calls, and whatever comes after them.
  first_calls-lock :
      (s : store.State) (calls index : ℕ) (names : List Text) (rest : Case StoredPayload)
      → AllApart names
      → Free s calls names
      → (s' : store.State) × (calls' : ℕ) × (run_case same_payload
            (operations store)
            lag
            prefix
            (some (s, at, calls))
            (first_calls index names ++ rest)
          ≡ run_case same_payload (operations store) lag prefix (some (s', at, calls')) rest)
        × Locked s' calls' index names
        × ((j : Text) (other : Option (Entry StoredPayload))
            → All (λ name. (prefix ++ name) ≢ j) names
            → Shows store s (at + lag calls) j other
            → Shows store s' (at + lag calls') j other)
  unfolding first_calls
  first_calls-lock s calls i [] rest d f = (s, calls, refl, tt, λ j o n h. h)
  first_calls-lock s calls i (name ∷ names) rest d f =
      let cell = some (Entry.in_flight (numbered i) a (at + lag calls + long_lock_ttl)) in
      let (s₁, ran, shown, _, leaves) =
        run_script-Ends store same_payload lag later (prefix ++ name) s none at calls
          (expects_acquired a (numbered i) long_lock_ttl ∷ []) (cell, at, suc calls) f.0
          (lock_taken calls (numbered i)) in
      let (s', calls', same_run, locked, others) =
        first_calls-lock s₁ (suc calls) (suc i) names rest d.1
          (Free-stays s s₁ calls (suc calls) name names leaves d.0 f.1) in
      (
        s',
        calls',
        segment_lem s s₁ calls (suc calls) name (expects_acquired a (numbered i) long_lock_ttl ∷ [])
              (first_calls (suc i) names ++ rest) ran
            ∙ same_run,
        (
          (
            at + lag calls + long_lock_ttl,
            omega arith,
            others (prefix ++ name) cell
                (All-map (λ n h e. prefixed prefix name n h (sym e)) names d.0) shown,
          ),
          locked,
        ),
        λ j o n h. others j o n.1 (leaves j o n.0 h),
      )

  pub keeps_apart-passes :
      (s : store.State) (names : List Text)
      → AllApart names
      → Free s 0 names
      → run_case same_payload
          (operations store)
          lag
          prefix
          (some (s, at, 0))
          (first_calls 0 names ++ second_calls 0 names)
        ≢ none
  keeps_apart-passes s names d f failed =
      let (s', calls', run, locked, _) = first_calls-lock s 0 0 names (second_calls 0 names) d f in
      second_calls-pass s' calls' 0 names d locked (sym run ∙ failed)
