-- ===== src/Testing/Cells.antt =====
-- A script on one key, run against the contract on that key's record alone.
use idempotency.Base.{
  ℕ, suc, sym, ◌+◌, ◌≤◌, ◌≡◌, ◌≢◌, refl, ap, ◌∙◌, subst, Bool, List, [], ◌∷◌, Option, none, some,
  if◌then◌else◌, arith, Text, text_eq, if_pos, if_neg, Bool-cases, inl, inr,
}
use native.Mathlib.Nat.{le_refl, le_trans}
use idempotency.Store.{Store, Entry, live, on_acquire, on_lock}
use idempotency.Store.History.{operations, Answer, key_of, on_call, step, step-answer, step-view}
use idempotency.Testing.{
  Operation, acquire, complete, release, extend, Command, does, expects, advances, on_key,
  same_answer, run_script,
}

module _ {P : Type 0} where
  -- What an operation does to the record of its key; no key is named.
  abbrev pub on_cell : ℕ → Operation P → Option (Entry P) → Option (Entry P) × Answer P
  on_cell now op cell = on_call now (on_key [] op) cell

  on_key_lem :
      (now : ℕ) (key : Text) (op : Operation P) (cell : Option (Entry P))
      → on_call now (on_key key op) cell ≡ on_cell now op cell
  on_key_lem now key (acquire owner f ttl) cell = refl
  on_key_lem now key (complete owner p ttl) cell = refl
  on_key_lem now key (release owner) cell = refl
  on_key_lem now key (extend owner ttl) cell = refl

  key_of_lem : (key : Text) (op : Operation P) → key_of (on_key key op) ≡ key
  key_of_lem key (acquire owner f ttl) = refl
  key_of_lem key (complete owner p ttl) = refl
  key_of_lem key (release owner) = refl
  key_of_lem key (extend owner ttl) = refl

  module _ (same_payload : P → P → Bool) (lag : ℕ → ℕ) where
    unfoldable pub run_cell :
        Option (Entry P) → (at calls : ℕ) → List (Command P) → Option (Option (Entry P) × ℕ × ℕ)
    unfolding same_answer on_acquire on_lock
    run_cell cell at calls [] = some (cell, at, calls)
    run_cell cell at calls (does op ∷ rest) =
        run_cell (on_cell (at + lag calls) op (live (at + lag calls) cell)).0 at (suc calls) rest
    run_cell cell at calls (expects op expected ∷ rest) =
        let r = on_cell (at + lag calls) op (live (at + lag calls) cell) in
        let next = run_cell r.0 at (suc calls) rest in
        if same_answer same_payload r.1 expected then next else none
    run_cell cell at calls (advances ms ∷ rest) = run_cell cell (at + ms) calls rest

add_mono : (n a b : ℕ) → a ≤ b → n + a ≤ n + b
add_mono n a b h = omega arith

module _ {P : Type 0} (store : Store P) where
  -- The key's record is this one, until it expires, from a time on.
  abbrev pub Shows : store.State → ℕ → Text → Option (Entry P) → Type 0
  Shows s now key cell = (t : ℕ) → now ≤ t → store.view s t key ≡ live t cell

  pub Shows-later :
      (s : store.State) (now now' : ℕ) (key : Text) (cell : Option (Entry P))
      → now ≤ now'
      → Shows s now key cell
      → Shows s now' key cell
  Shows-later s now now' key cell le shows t h = shows t (le_trans le h)

  -- One call, as its key sees it, and as another key does.
  module _ (s : store.State) (now : ℕ) (key : Text) (op : Operation P) where
    abbrev called : store.State × Answer P
    called = step store s now (on_key key op)

    pub step-own :
        (cell : Option (Entry P))
        → Shows s now key cell
        → (called.1 ≡ (on_cell now op (live now cell)).1)
          × Shows called.0 now key (on_cell now op (live now cell)).0
    step-own cell shows =
        let call = on_key key op in
        let own = key_of_lem key op in
        let e : on_call now call (store.view s now (key_of call)) ≡ on_cell now op (live now cell) =
          ap (λ j. on_call now call (store.view s now j)) own
          ∙ ap (on_call now call) (shows now (le_refl now))
          ∙ on_key_lem now key op (live now cell) in
        (
          step-answer store s now call ∙ ap (λ r. r.1) e,
          λ t h.
              step-view store s now call t key h
              ∙ if_pos (text_eq (key_of call) key) own _ _
              ∙ ap (λ r. live t r.0) e,
        )

    pub step-other :
        (j : Text) (cell : Option (Entry P))
        → key ≢ j
        → Shows s now j cell
        → Shows called.0 now j cell
    step-other j cell apart shows t h =
        step-view store s now (on_key key op) t j h
        ∙ if_neg (text_eq (key_of (on_key key op)) j) (λ e. apart (sym (key_of_lem key op) ∙ e)) _ _
        ∙ shows t h

  module _ (same_payload : P → P → Bool) (lag : ℕ → ℕ) (mono : (n : ℕ) → lag n ≤ lag (suc n))
      (key : Text) where
    -- Where a script on the key ends: it does not fail, and the store shows the record that the
    -- contract makes of the key's, and of other keys those that it showed.
    abbrev pub Ends :
        (s : store.State) (at calls : ℕ) → List (Command P) → Option (Entry P) × ℕ × ℕ → Type 0
    Ends s at calls script (cell, at', calls') =
        (s' : store.State) × (run_script same_payload (operations store) lag s at calls key script
          ≡ some (s', at', calls'))
        × Shows s' (at' + lag calls') key cell
        × (at + lag calls ≤ at' + lag calls')
        × ((j : Text) (other : Option (Entry P))
            → key ≢ j
            → Shows s (at + lag calls) j other
            → Shows s' (at' + lag calls') j other)

    step_later : (at calls : ℕ) → at + lag calls ≤ at + lag (suc calls)
    step_later at calls = add_mono at (lag calls) (lag (suc calls)) (mono calls)

    some_injective {ℓ} : {A : Type ℓ} {x y : A} → some x ≡ some y → x ≡ y
    some_injective h = cc

    pub run_script-Ends :
        (s : store.State) (cell : Option (Entry P)) (at calls : ℕ) (script : List (Command P))
        (end : Option (Entry P) × ℕ × ℕ)
        → Shows s (at + lag calls) key cell
        → run_cell same_payload lag cell at calls script ≡ some end
        → Ends s at calls script end
    unfolding run_cell run_script
    run_script-Ends s cell at calls [] end shows e =
        subst (Ends s at calls []) (some_injective e) (s, refl, shows, le_refl _, λ j o n h. h)
    run_script-Ends s cell at calls (does op ∷ rest) end shows e =
        let now = at + lag calls in
        let r = on_cell now op (live now cell) in
        let (_, own) = step-own s now key op cell shows in
        let s₁ = (step store s now (on_key key op)).0 in
        let later : now ≤ at + lag (suc calls) = omega (arith, mono calls) in
        let (s', ran, shown, late, others) =
          run_script-Ends s₁ r.0 at (suc calls) rest end (Shows-later s₁ now _ key r.0 later own)
            e in
        (
          s',
          ran,
          shown,
          le_trans later late,
          λ j o n h.
              others j o n (Shows-later s₁ now _ j o later (step-other s now key op j o n h)),
        )
    run_script-Ends s cell at calls (expects op expected ∷ rest) end shows e =
        let now = at + lag calls in
        let r = on_cell now op (live now cell) in
        let (answer, own) = step-own s now key op cell shows in
        let s₁ = (step store s now (on_key key op)).0 in
        let later : now ≤ at + lag (suc calls) = step_later at calls in
        elim (Bool-cases (same_answer same_payload r.1 expected)) [
          | inr bad ↦ absurd (ground arith)
          | inl good ↦
              let (s', ran, shown, late, others) =
                run_script-Ends s₁ r.0 at (suc calls) rest end
                  (Shows-later s₁ now _ key r.0 later own) (ground (arith, good, e)) in
              (
                s',
                ap
                      (λ b.
                        if b
                        then run_script same_payload (operations store) lag s₁ at (suc calls) key
                            rest
                        else none)
                      (ap (λ a. same_answer same_payload a expected) answer ∙ good)
                    ∙ ran,
                shown,
                le_trans later late,
                λ j o n h.
                    others j o n (Shows-later s₁ now _ j o later (step-other s now key op j o n h)),
              )
        ]
    run_script-Ends s cell at calls (advances ms ∷ rest) end shows e =
        let later : at + lag calls ≤ at + ms + lag calls = omega arith in
        let (s', ran, shown, late, others) =
          run_script-Ends s cell (at + ms) calls rest end (Shows-later s _ _ key cell later shows)
            e in
        (
          s',
          ran,
          shown,
          le_trans later late,
          λ j o n h. others j o n (Shows-later s _ _ j o later h),
        )
