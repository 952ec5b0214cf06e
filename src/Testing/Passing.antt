-- ===== src/Testing/Passing.antt =====
-- Each case on one key passes against the contract.
use idempotency.Base.{
  ℕ, suc, ◌+◌, ◌*◌, ◌≤◌, ◌<◌, ◌≡◌, ◌≢◌, refl, true, Bool, [], ◌∷◌, Option, none, some, arith,
  text_eq,
}
use idempotency.Store.{on_acquire, on_lock}
use idempotency.Interceptor.{StoredPayload}
use idempotency.Testing.{
  Case, Options, Given, integer, no_integer, Concurrent, off, on, accepts, validate, with_lock_ttl,
  margin, record_ttl, long_lock_ttl, thirty_days, same_answer,
}
use idempotency.Testing.Cells.{run_cell}
use idempotency.Testing.Cases.{
  response, retried, takes_a_free_key, completes_for_the_owner, a_record_is_final,
  releases_for_the_owner, needs_a_record, extends_for_the_owner, leaves_a_ttl_alone,
  fences_a_stale_owner, ends_with_the_lock, expires_a_record, takes_weeks,
}

with_lock_ttl-bounds :
    (has : Bool) (l : ℕ) (c : Concurrent) (lock_ttl callers : ℕ)
    → with_lock_ttl has l c ≡ accepts lock_ttl callers
    → (4 ≤ lock_ttl) × (3 * lock_ttl + margin lock_ttl < thirty_days)
unfolding with_lock_ttl margin record_ttl
with_lock_ttl-bounds has l off lock_ttl callers h = ground arith
with_lock_ttl-bounds has l (on none) lock_ttl callers h = ground arith
with_lock_ttl-bounds has l (on (some no_integer)) lock_ttl callers h = ground arith
with_lock_ttl-bounds has l (on (some (integer n))) lock_ttl callers h = ground arith

-- What the suite accepts as `lockTtl`.
validate-bounds :
    (o : Options) (lock_ttl callers : ℕ)
    → validate o ≡ accepts lock_ttl callers
    → (4 ≤ lock_ttl) × (3 * lock_ttl + margin lock_ttl < thirty_days)
unfolding validate
validate-bounds o lock_ttl callers h = from o.lock_ttl h
  where
    from :
        (given : Option Given)
        → validate (record {
          has_advance_time = o.has_advance_time;
          lock_ttl = given;
          concurrent = o.concurrent;
        })
          ≡ accepts lock_ttl callers
        → (4 ≤ lock_ttl) × (3 * lock_ttl + margin lock_ttl < thirty_days)
    from none h = with_lock_ttl-bounds o.has_advance_time 600 o.concurrent lock_ttl callers h
    from (some no_integer) h = absurd (ground (arith, h))
    from (some (integer l)) h =
        with_lock_ttl-bounds o.has_advance_time l o.concurrent lock_ttl callers h

-- `assert.deepStrictEqual` accepts equal payloads, and the clock: what the calls take is less than the
-- margin of the cases, and than an hour.
pub record Setting : Type 0 where
  pub same_payload : StoredPayload → StoredPayload → Bool
  pub same : (p : StoredPayload) → same_payload p p ≡ true
  pub lag : ℕ → ℕ
  pub options : Options
  pub lock_ttl : ℕ
  pub callers : ℕ
  pub accepted : validate options ≡ accepts lock_ttl callers
  pub later : (n : ℕ) → lag n ≤ lag (suc n)
  pub within : (n : ℕ) → lag n < margin lock_ttl
  pub soon : (n : ℕ) → lag n < long_lock_ttl

module _ (g : Setting) (at : ℕ) where
  open g use {same_payload, same, lag, lock_ttl, later, within, soon}

  pub enough : 4 ≤ lock_ttl
  enough = (validate-bounds g.options lock_ttl g.callers g.accepted).0

  short : 3 * lock_ttl + margin lock_ttl < thirty_days
  short = (validate-bounds g.options lock_ttl g.callers g.accepted).1

  -- The calls of a case take less than an hour, or than its margin.
  record Hour : Type 0 where
    s0 : lag 0 < long_lock_ttl
    s1 : lag 1 < long_lock_ttl
    s2 : lag 2 < long_lock_ttl
    s3 : lag 3 < long_lock_ttl
    s4 : lag 4 < long_lock_ttl
    s5 : lag 5 < long_lock_ttl

  an_hour : Hour
  an_hour = record { s0 = soon 0; s1 = soon 1; s2 = soon 2; s3 = soon 3; s4 = soon 4; s5 = soon 5 }

  record Timing : Type 0 where
    long : 4 ≤ lock_ttl
    bound : 3 * lock_ttl + margin lock_ttl < thirty_days
    l0 : lag 0 ≤ lag 1
    l1 : lag 1 ≤ lag 2
    l2 : lag 2 ≤ lag 3
    l3 : lag 3 ≤ lag 4
    l4 : lag 4 ≤ lag 5
    l5 : lag 5 ≤ lag 6
    l6 : lag 6 ≤ lag 7
    end : lag 7 < margin lock_ttl

  timing : Timing
  timing = record {
    long = enough;
    bound = short;
    l0 = later 0;
    l1 = later 1;
    l2 = later 2;
    l3 = later 3;
    l4 = later 4;
    l5 = later 5;
    l6 = later 6;
    end = within 7;
  }

  -- The only segment passes, from a free key.
  abbrev pub Passes : Case StoredPayload → Type 0
  Passes [] = ⊥
  Passes ((name, script) ∷ rest) = (run_cell same_payload lag none at 0 script ≢ none) × (rest ≡ [])

  pub takes_a_free_key-Passes : Passes takes_a_free_key
  unfolding takes_a_free_key run_cell same_answer on_acquire on_lock text_eq
  takes_a_free_key-Passes = (ground (arith, an_hour), refl)

  pub completes_for_the_owner-Passes : Passes completes_for_the_owner
  unfolding completes_for_the_owner run_cell same_answer on_acquire on_lock text_eq
  completes_for_the_owner-Passes = (ground (arith, an_hour, same response), refl)

  pub a_record_is_final-Passes : Passes a_record_is_final
  unfolding a_record_is_final run_cell same_answer on_acquire on_lock text_eq
  a_record_is_final-Passes = (ground (arith, an_hour, same response), refl)

  pub releases_for_the_owner-Passes : Passes releases_for_the_owner
  unfolding releases_for_the_owner run_cell same_answer on_acquire on_lock text_eq
  releases_for_the_owner-Passes = (ground (arith, an_hour), refl)

  pub needs_a_record-Passes : Passes needs_a_record
  unfolding needs_a_record run_cell same_answer on_acquire on_lock text_eq
  needs_a_record-Passes = (ground (arith, an_hour), refl)

  pub extends_for_the_owner-Passes : Passes (extends_for_the_owner lock_ttl)
  unfolding extends_for_the_owner run_cell same_answer on_acquire on_lock text_eq margin record_ttl
  extends_for_the_owner-Passes = (ground (arith, timing), refl)

  pub leaves_a_ttl_alone-Passes : Passes (leaves_a_ttl_alone lock_ttl)
  unfolding leaves_a_ttl_alone run_cell same_answer on_acquire on_lock text_eq margin record_ttl
  leaves_a_ttl_alone-Passes = (ground (arith, timing, same response), refl)

  pub fences_a_stale_owner-Passes : Passes (fences_a_stale_owner lock_ttl)
  unfolding fences_a_stale_owner run_cell same_answer on_acquire on_lock text_eq margin record_ttl
  fences_a_stale_owner-Passes = (ground (arith, timing, same retried), refl)

  pub ends_with_the_lock-Passes : Passes (ends_with_the_lock lock_ttl)
  unfolding ends_with_the_lock run_cell same_answer on_acquire on_lock text_eq margin record_ttl
  ends_with_the_lock-Passes = (ground (arith, timing), refl)

  pub expires_a_record-Passes : Passes (expires_a_record lock_ttl)
  unfolding expires_a_record run_cell same_answer on_acquire on_lock text_eq margin record_ttl
  expires_a_record-Passes = (ground (arith, timing, same response), refl)

  pub takes_weeks-Passes : Passes (takes_weeks lock_ttl)
  unfolding takes_weeks run_cell same_answer on_acquire on_lock text_eq margin record_ttl
  takes_weeks-Passes = (
    ground (arith, enough, short, later 0, later 1, later 2, within 3, soon 2, same response),
    refl,
  )
