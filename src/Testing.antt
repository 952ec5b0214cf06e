-- ===== src/Testing.antt =====
-- lib/testing/index.ts: `idempotencyStoreContract`, the contract of a store as test cases. A case that
-- makes its calls one by one is a list of segments, each a script on one key; the cases of concurrent
-- callers are in Contests. The clock is the store's: a call is made at the time that the case has reached,
-- by `advanceTime`, and what the calls before it took, `lag`.
pub mod Cases
pub mod Keys
pub mod Cells
pub mod Passing
pub mod Apart
pub mod Payloads
pub mod Soundness
pub mod Races
pub mod Contests
pub mod Winners
pub mod Fairness
pub mod Concurrency
pub mod Handover
pub mod Owner
use idempotency.Base.{
  ℕ, suc, ◌+◌, ◌*◌, ◌/◌, Bool, true, false, not, ◌&&◌, ◌||◌, List, [], ◌∷◌, ◌++◌, Option, none,
  some, ltb, leb, if◌then◌else◌, ite, Text, text_eq,
}
use idempotency.Store.{AcquireResult}
use idempotency.Store.History.{Call, Answer, found, done, Implementation, perform}

-- 30 days, Node's longest delay, and the shortest `lockTtl`, in milliseconds.
abbrev pub thirty_days : ℕ
thirty_days = 30 * 24 * 60 * 60 * 1000

abbrev pub max_timer_delay : ℕ
max_timer_delay = 2_147_483_647

abbrev pub min_lock_ttl : ℕ
min_lock_ttl = 4

abbrev pub long_lock_ttl : ℕ
long_lock_ttl = 60 * 60 * 1000

abbrev pub long_record_ttl : ℕ
long_record_ttl = long_lock_ttl

-- A number among the options: an integer that is not negative, or any other.
pub data Given : Type 0 where
  integer : ℕ → Given
  no_integer : Given

pub data Concurrent : Type 0 where
  off : Concurrent
  on : (callers : Option Given) → Concurrent

pub record Options : Type 0 where
  pub has_advance_time : Bool
  pub lock_ttl : Option Given
  pub concurrent : Concurrent

-- `Math.round(LOCK_TTL / 4)`, and `RECORD_TTL`.
unfoldable pub margin : (lock_ttl : ℕ) → ℕ
margin lock_ttl = (lock_ttl + 2) / 4

unfoldable pub record_ttl : (lock_ttl : ℕ) → ℕ
record_ttl lock_ttl = 3 * lock_ttl

pub data Validated : Type 0 where
  accepts : (lock_ttl callers : ℕ) → Validated
  -- A `RangeError`.
  refuses : Validated

abbrev with_callers : ℕ → Option Given → Validated
with_callers l none = accepts l 16
with_callers l (some no_integer) = refuses
with_callers l (some (integer n)) = if ltb n 2 then refuses else accepts l n

abbrev with_concurrent : ℕ → Concurrent → Validated
with_concurrent l off = accepts l 0
with_concurrent l (on callers) = with_callers l callers

unfoldable pub with_lock_ttl : (has_advance_time : Bool) → ℕ → Concurrent → Validated
unfolding margin record_ttl
with_lock_ttl has_advance_time l c =
    if ltb l min_lock_ttl
    then refuses
    else if leb thirty_days (record_ttl l + margin l)
    then refuses
    else if not has_advance_time && ltb max_timer_delay (record_ttl l + margin l)
    then refuses
    else with_concurrent l c

unfoldable pub validate : Options → Validated
unfolding with_lock_ttl
validate o = elim o.lock_ttl [
  | none ↦ with_lock_ttl o.has_advance_time 600 o.concurrent
  | some no_integer ↦ refuses
  | some (integer l) ↦ with_lock_ttl o.has_advance_time l o.concurrent
]

-- A store call of a script, its key aside.
pub data Operation (P : Type 0) : Type 0 where
  acquire : (owner fingerprint : Text) (ttl : ℕ) → Operation P
  complete : (owner : Text) (response : P) (ttl : ℕ) → Operation P
  release : (owner : Text) → Operation P
  extend : (owner : Text) (ttl : ℕ) → Operation P

pub data Command (P : Type 0) : Type 0 where
  does : Operation P → Command P
  -- `assert.equal` and `expectResult`.
  expects : Operation P → Answer P → Command P
  advances : (ms : ℕ) → Command P

-- Segments of scripts on one key each, by its name.
abbrev pub Case : Type 0 → Type 0
Case P = List (Text × List (Command P))

abbrev same_flag : Bool → Bool → Bool
same_flag true b = b
same_flag false b = not b

abbrev same_text : Text → Text → Bool
same_text s t = ite (text_eq s t) true false

module _ {P : Type 0} where
  abbrev pub on_key : Text → Operation P → Call P
  on_key k (acquire owner fingerprint ttl) = Call.acquire k owner fingerprint ttl
  on_key k (complete owner response ttl) = Call.complete k owner response ttl
  on_key k (release owner) = Call.release k owner
  on_key k (extend owner ttl) = Call.extend k owner ttl

  -- `same_payload` is `assert.deepStrictEqual` on a stored payload.
  module _ (same_payload : P → P → Bool) where
    -- `expectResult`.
    unfoldable pub same_result : AcquireResult P → AcquireResult P → Bool
    same_result AcquireResult.acquired AcquireResult.acquired = true
    same_result (AcquireResult.in_flight f) (AcquireResult.in_flight g) = same_text f g
    same_result (AcquireResult.completed f p) (AcquireResult.completed g q) =
        same_text f g && same_payload p q
    same_result a b = false

    unfoldable pub same_answer : Answer P → Answer P → Bool
    unfolding same_result
    same_answer (found a) (found b) = same_result a b
    same_answer (done a) (done b) = same_flag a b
    same_answer a b = false

    module _ (impl : Implementation P) (lag : ℕ → ℕ) where
      -- From the time `at` and after `calls` calls: the state, the time and the number of calls at
      -- the end of the script; `none` is an `AssertionError`.
      unfoldable pub run_script :
          impl.State
          → (at calls : ℕ) → (key : Text) → List (Command P)
          → Option (impl.State × ℕ × ℕ)
      unfolding perform same_answer
      run_script s at calls k [] = some (s, at, calls)
      run_script s at calls k (does op ∷ rest) =
          run_script (perform impl s (at + lag calls) (on_key k op)).0 at (suc calls) k rest
      run_script s at calls k (expects op expected ∷ rest) =
          let r = perform impl s (at + lag calls) (on_key k op) in
          let next = run_script r.0 at (suc calls) k rest in
          if same_answer r.1 expected then next else none
      run_script s at calls k (advances ms ∷ rest) = run_script s (at + ms) calls k rest

      -- The segments one after the other; the names come after the case's prefix.
      unfoldable pub run_case :
          (prefix : Text) → Option (impl.State × ℕ × ℕ) → Case P → Option (impl.State × ℕ × ℕ)
      unfolding run_script
      run_case prefix r [] = r
      run_case prefix none (segment ∷ rest) = none
      run_case prefix (some (s, at, calls)) ((name, script) ∷ rest) =
          run_case prefix (run_script s at calls (prefix ++ name) script) rest
