-- ===== src/Tests/Suites.antt =====
-- The published test cases of a store, run on the in-memory store.
use idempotency.Base.Dict
use idempotency.Base.{
  ℕ, zero, suc, ◌<◌, ◌++◌, ◌≡◌, ◌≢◌, ◌==◌, inl, inr, refl, Bool, true, false, [], ◌∷◌, none, some,
  All, Text, text, text_eq, ite, if_pos, arith,
}
use idempotency.Store.{AcquireResult, Store}
use idempotency.Store.History.{Implementation, operations}
use idempotency.Interceptor.{StoredPayload, plain, sealed, sealed_other}
use idempotency.Memory as Mem
use idempotency.Memory.Refinement.{memory_store}
use idempotency.Testing.{Options, integer, on, validate, accepts, margin, run_case}
use idempotency.Testing.Cases.{extends_for_the_owner, releases_for_the_owner}
use idempotency.Testing.Keys.{sequential_cases, printable}
use idempotency.Testing.Passing.{Setting}
use idempotency.Testing.Cells.{Shows}
use idempotency.Testing.Contests.{race_for_a_free_key, concurrent_cases}
use idempotency.Testing.Concurrency.{Called}
use idempotency.Testing.Soundness.{suite_passes}

printable_start : printable 8 ≡ 53 ∷ 65 ∷ 89 ∷ 121 ∷ 77 ∷ 41 ∷ 117 ∷ 50 ∷ []
unfolding printable
printable_start = refl

abbrev store : Store StoredPayload
store = memory_store StoredPayload

abbrev empty : store.State
empty = (record { entries = []; operations = 0 }, tt)

-- Payloads by their status, or their sealed text.
abbrev same_payload : StoredPayload → StoredPayload → Bool
same_payload (plain r) (plain q) = r.status == q.status
same_payload (sealed s) (sealed t) = ite (text_eq s t) true false
same_payload sealed_other sealed_other = true
same_payload p q = false

same : (p : StoredPayload) → same_payload p p ≡ true
same (plain r) = ground arith
same sealed_other = refl
same (sealed s) = if_pos (text_eq s s) refl true false

-- A lock of 8 ms, three callers, and a clock that only `advanceTime` moves.
abbrev options : Options
options = record {
  has_advance_time = true;
  lock_ttl = some (integer 8);
  concurrent = on (some (integer 3));
}

options_accepted : validate options ≡ accepts 8 3
unfolding validate
options_accepted = refl

short_calls : 0 < margin 8
unfolding margin
short_calls = omega arith

abbrev setting : Setting
setting = record {
  same_payload = same_payload;
  same = same;
  lag = λ n. 0;
  options = options;
  lock_ttl = 8;
  callers = 3;
  accepted = options_accepted;
  later = λ n. omega arith;
  within = λ n. short_calls;
  soon = λ n. omega arith;
}

abbrev prefix : Text
prefix = text "contract-1:"

nothing_there : (name : Text) → Shows store empty 1_000 (prefix ++ name) none
unfolding Dict.get
nothing_there name t h = refl

pairs-Called : (i : ℕ) → i < 2 → Called i ((1, true) ∷ (0, false) ∷ (0, true) ∷ (1, false) ∷ [])
pairs-Called zero h = inr (inl refl)
pairs-Called (suc zero) h = inl refl
pairs-Called (suc (suc i)) h = absurd (omega (arith, h))

suite_passes_example :
    All
      (λ c.
        run_case same_payload (operations store) (λ n. 0) prefix (some (empty, 1_000, 0)) c ≢ none)
      (sequential_cases 8)
    × All
        (λ end. end ≢ none)
        (concurrent_cases same_payload
          (operations store)
          (λ n. 0)
          prefix
          (2 ∷ [])
          (0 ∷ 1 ∷ [])
          8
          3
          (1 ∷ 0 ∷ 2 ∷ [])
          ((1, true) ∷ (0, false) ∷ (0, true) ∷ (1, false) ∷ [])
          (some (empty, 1_000, 0)))
suite_passes_example =
    suite_passes store setting prefix empty 1_000 nothing_there 1 (0 ∷ 2 ∷ []) (2 ∷ []) (0 ∷ 1 ∷ [])
      ((1, true) ∷ (0, false) ∷ (0, true) ∷ (1, false) ∷ []) pairs-Called

-- Stores that don't keep the contract, and cases that they fail: one answers `extend()` without
-- renewing the lock, one lets any owner release the lock of `a`, and one tells every caller that it
-- acquired the key.
abbrev extends_nothing : Implementation StoredPayload
extends_nothing = record {
  State = store.State;
  acquire = store.acquire;
  complete = store.complete;
  release = store.release;
  extend = λ s now key owner ttl. (s, true);
}

extends_nothing_fails :
    run_case same_payload extends_nothing
      (λ n. 0)
      prefix
      (some (empty, 1_000, 0))
      (extends_for_the_owner 8)
    ≡ none
unfolding run_case extends_for_the_owner
extends_nothing_fails = refl

abbrev releases_for_anyone : Implementation StoredPayload
releases_for_anyone = record {
  State = store.State;
  acquire = store.acquire;
  complete = store.complete;
  release = λ s now key owner. store.release s now key (text "a");
  extend = store.extend;
}

releases_for_anyone_fails :
    run_case same_payload releases_for_anyone
      (λ n. 0)
      prefix
      (some (empty, 1_000, 0))
      releases_for_the_owner
    ≡ none
unfolding run_case releases_for_the_owner Mem.release Dict.get Mem.acquire Dict.set text_eq
releases_for_anyone_fails = refl

abbrev everyone_wins : Implementation StoredPayload
everyone_wins = record {
  State = store.State;
  acquire =
      λ s now key owner fp ttl. ((store.acquire s now key owner fp ttl).0, AcquireResult.acquired);
  complete = store.complete;
  release = store.release;
  extend = store.extend;
}

everyone_wins_fails :
    race_for_a_free_key same_payload everyone_wins
      (λ n. 0)
      prefix
      (0 ∷ 1 ∷ [])
      (some (empty, 1_000, 0))
    ≡ none
unfolding race_for_a_free_key
everyone_wins_fails = refl
