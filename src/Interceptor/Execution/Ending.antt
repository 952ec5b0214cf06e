-- ===== src/Interceptor/Execution/Ending.antt =====
-- Every call ends for its caller.
use idempotency.Base.{
  if◌then◌else◌, as_number, ℕ, ◌+◌, ◌≤◌, ◌≡◌, refl, ap, ◌∙◌, Bool, true, false, not, ◌||◌, List, [],
  ◌∷◌, ◌++◌, Option, none, some, arith,
}
use idempotency.Value.{Value}
use idempotency.Interceptor.Execution.{
  Continuation, fail, finish, Effect, sends, sends_error, sends_complete, records, settles,
  Execution, Action, emits, fails, completes, record_settles, caller_leaves, start, record_once,
  stop_stream, stream, on_next, continue_with, settle, after_record, step, run,
}
use idempotency.Interceptor.Execution.Delivery.{waits}

-- The errors and completions that the caller got.
abbrev pub endings : List Effect → ℕ
endings [] = 0
endings (sends v ∷ es) = endings es
endings (sends_error ∷ es) = endings es + 1
endings (sends_complete ∷ es) = endings es + 1
endings (records o ∷ es) = endings es
endings (settles ∷ es) = endings es

abbrev pub is_last : Action → Bool
is_last (fails c) = true
is_last (completes c) = true
is_last x = false

abbrev pub leaves : List Action → Bool
leaves [] = false
leaves (caller_leaves ∷ xs) = true
leaves (x ∷ xs) = leaves xs

-- What has ended waits for the recording or is over; `left` is whether the caller may have left.
record Ends (left : Bool) (a : Execution) : Type 0 where
  settling : not a.ended || (waits a.waiting || a.closed) ≡ true
  made : not a.ended || a.recorded ≡ true
  once : endings a.effects ≤ as_number a.closed
  told : left ≡ false → endings a.effects ≡ as_number a.closed

start-Ends : (left : Bool) → Ends left start
unfolding start
start-Ends left = record { settling = refl; made = refl; once = omega arith; told = λ h. refl }

record_once-Ends : (left : Bool) (o : _) (a : Execution) → Ends left a → Ends left (record_once o a)
unfolding record_once
record_once-Ends left o a v = ground arith

stream-Ends : (left : Bool) (v : Value) (a : Execution) → Ends left a → Ends left (stream v a)
unfolding stream stop_stream record_once
stream-Ends left v a i = ground arith

on_next-Ends :
    (left every : Bool) (v : Value) (a : Execution) → Ends left a → Ends left (on_next every v a)
unfolding on_next
on_next-Ends left every v a i = ground (arith, stream-Ends left v a i)

continue_with-Ends :
    (left : Bool) (k : Continuation) (a : Execution)
    → Ends left a
    → Ends left (continue_with k (record a { waiting = none }))
unfolding continue_with stop_stream record_once
continue_with-Ends left fail a i = ground arith
continue_with-Ends left (finish none) a i = ground arith
continue_with-Ends left (finish (some v)) a i = ground arith

after_record-Ends :
    (left : Bool) (k : Option Continuation) (a : Execution)
    → a.waiting ≡ k
    → Ends left a
    → Ends left (after_record k a)
unfolding after_record
after_record-Ends left none a e i = i
after_record-Ends left (some k) a e i = continue_with-Ends left k a i

settle-Ends : (left : Bool) (a : Execution) → Ends left a → Ends left (settle a)
unfolding settle
settle-Ends left a i = ground arith

-- Settling leaves the continuation and the ends alone.
settle-waiting : (a : Execution) → (settle a).waiting ≡ a.waiting
unfolding settle
settle-waiting a = ground arith

settle-ended : (a : Execution) → (settle a).ended ≡ a.ended
unfolding settle
settle-ended a = ground arith

settle-closed : (a : Execution) → (settle a).closed ≡ a.closed
unfolding settle
settle-closed a = ground arith

settles-Ends :
    (left : Bool) (a : Execution) (b : Bool)
    → Ends left a
    → Ends left (if b then after_record a.waiting (settle a) else a)
settles-Ends left a true i =
    after_record-Ends left a.waiting (settle a) (settle-waiting a) (settle-Ends left a i)
settles-Ends left a false i = i

after_record-ended :
    (k : Option Continuation) (a : Execution) → a.ended ≡ true → (after_record k a).ended ≡ true
unfolding after_record continue_with stop_stream record_once
after_record-ended none a h = h
after_record-ended (some fail) a h = ground arith
after_record-ended (some (finish none)) a h = ground arith
after_record-ended (some (finish (some v))) a h = ground arith

after_record-closed :
    (k : Option Continuation) (a : Execution)
    → (waits k || a.closed) ≡ true
    → (after_record k a).closed ≡ true
unfolding after_record continue_with stop_stream record_once
after_record-closed none a h = h
after_record-closed (some fail) a h = ground arith
after_record-closed (some (finish none)) a h = ground arith
after_record-closed (some (finish (some v))) a h = ground arith

step-Ends :
    (left every : Bool) (a : Execution) (x : Action)
    → (leaves (x ∷ []) ≡ true → left ≡ true)
    → Ends left a
    → Ends left (step every a x)
unfolding step stop_stream record_once
step-Ends left every a (emits v) h i = ground (arith, on_next-Ends left every v a i)
step-Ends left every a (fails c) h i = ground arith
step-Ends left every a (completes c) h i = ground arith
step-Ends left every a record_settles h i = settles-Ends left a a.recorded i
step-Ends left every a caller_leaves h i = ground arith

leaves-cons : (x : Action) (xs : List Action) → leaves (x ∷ xs) ≡ leaves (x ∷ []) || leaves xs
leaves-cons (emits v) xs = refl
leaves-cons (fails c) xs = refl
leaves-cons (completes c) xs = refl
leaves-cons record_settles xs = refl
leaves-cons caller_leaves xs = refl

run-Ends :
    (left every : Bool) (a : Execution) (xs : List Action)
    → (leaves xs ≡ true → left ≡ true)
    → Ends left a
    → Ends left (run every a xs)
unfolding run
run-Ends left every a [] h i = i
run-Ends left every a (x ∷ xs) h i =
    let split = leaves-cons x xs in
    run-Ends left every (step every a x) xs (λ e. h (ground (arith, split, e)))
      (step-Ends left every a x (λ e. h (ground (arith, split, e))) i)

run-append :
    (every : Bool) (a : Execution) (xs ys : List Action)
    → run every a (xs ++ ys) ≡ run every (run every a xs) ys
unfolding run
run-append every a [] ys = refl
run-append every a (x ∷ xs) ys = run-append every (step every a x) xs ys

step-ended :
    (every : Bool) (a : Execution) (x : Action) → a.ended ≡ true → (step every a x).ended ≡ true
unfolding step stop_stream record_once
step-ended every a (emits v) h = ground arith
step-ended every a (fails c) h = ground arith
step-ended every a (completes c) h = ground arith
step-ended every a record_settles h = settled a.recorded
  where
    settled : (b : Bool) → (if b then after_record a.waiting (settle a) else a).ended ≡ true
    settled true = after_record-ended a.waiting (settle a) (settle-ended a ∙ h)
    settled false = h
step-ended every a caller_leaves h = ground arith

run-ended :
    (every : Bool) (a : Execution) (xs : List Action)
    → a.ended ≡ true
    → (run every a xs).ended ≡ true
unfolding run
run-ended every a [] h = h
run-ended every a (x ∷ xs) h = run-ended every (step every a x) xs (step-ended every a x h)

last-ended :
    (every : Bool) (a : Execution) (x : Action) → is_last x ≡ true → (step every a x).ended ≡ true
unfolding step
last-ended every a (emits v) h = absurd (ground (arith, h))
last-ended every a (fails c) h = ground arith
last-ended every a (completes c) h = ground arith
last-ended every a record_settles h = absurd (ground (arith, h))
last-ended every a caller_leaves h = absurd (ground (arith, h))

settles-closed :
    (left every : Bool) (a : Execution)
    → a.ended ≡ true
    → Ends left a
    → (step every a record_settles).closed ≡ true
unfolding step
settles-closed left every a h i =
    ap (λ b. (if b then after_record a.waiting (settle a) else a).closed) recorded
    ∙ after_record-closed a.waiting (settle a)
        (ap (λ b. waits a.waiting || b) (settle-closed a) ∙ open_or_over)
  where
    recorded : a.recorded ≡ true
    recorded = ground (arith, h, i.made)

    open_or_over : (waits a.waiting || a.closed) ≡ true
    open_or_over = ground (arith, h, i.settling)

-- Once the handler's observable has failed or completed and then the recording has settled, whatever
-- happened before and in between, the call is over: its subscriber is closed. The caller got at most
-- one error or completion, and exactly one unless it left.
pub always_ends :
    (sends_every_value : Bool) (xs : List Action) (last : Action) (ys : List Action)
    → is_last last ≡ true
    → let all = xs ++ last ∷ (ys ++ record_settles ∷ []) in
      let a = run sends_every_value start all in
      (a.closed ≡ true) × (endings a.effects ≤ 1) × (leaves all ≡ false → endings a.effects ≡ 1)
unfolding run
always_ends every xs last ys h =
    let all = xs ++ last ∷ (ys ++ record_settles ∷ []) in
    let before = run every (step every (run every start xs) last) ys in
    let same : run every start all ≡ step every before record_settles =
      run-append every start xs (last ∷ (ys ++ record_settles ∷ []))
      ∙ run-append every (step every (run every start xs) last) ys (record_settles ∷ []) in
    let ended = run-ended every _ ys (last-ended every (run every start xs) last h) in
    let ends = run-Ends (leaves all) every start all (λ e. e) (start-Ends (leaves all)) in
    let before-Ends : Ends true before =
      run-Ends true every _ ys (λ e. refl)
        (step-Ends true every (run every start xs) last (λ e. refl)
          (run-Ends true every start xs (λ e. refl) (start-Ends true))) in
    let closed : (run every start all).closed ≡ true =
      ap (λ a. a.closed) same ∙ settles-closed true every before ended before-Ends in
    (closed, ground (arith, ends.once, closed), λ n. ends.told n ∙ ap as_number closed)
