-- ===== src/Tests/Stores.antt =====
-- The in-memory store, alone and under several callers.
use idempotency.Base.Dict
use idempotency.Base.{
  ℕ, ◌≤◌, ◌≡◌, ◌≢◌, inl, inr, refl, true, List, [], ◌∷◌, none, some, text, text_eq, arith,
}
use idempotency.Store.{Store, Entry, AcquireResult, live, on_lock}
use idempotency.Store.History.{Call, Answer, acquire, release, extend, found, done, run}
use idempotency.Store.Exclusion.{Refused, lock-holds, one_winner, record_is_final}
use idempotency.Store.Exclusion.{Stays}
use idempotency.Interceptor.Renewal.Heartbeat.{lock, Answers, own_lock_lasts}
use idempotency.Memory.{Memory}
use idempotency.Memory.Operations.{Meets}
use idempotency.Memory.Calls.{serve, serve-Meets}
use idempotency.Memory.Refinement.{memory_store}

-- A store of numbers, in which `k1` is locked by `o1` until 90, `k2` is completed until 80, and
-- `k3` has expired at 20.
abbrev example : Memory ℕ
example = record {
  entries =
      (text "k1", Entry.in_flight (text "f") (text "o1") 90)
      ∷ (text "k2", Entry.completed (text "f") 7 80)
      ∷ (text "k3", Entry.completed (text "f") 7 20)
      ∷ [];
  operations = 999;
}

example-IsMap : Dict.IsMap example.entries
example-IsMap = ground arith

other : text "o2" ≢ text "o1"
other e = ground arith

abbrev numbers : Store ℕ
numbers = memory_store ℕ

abbrev start : numbers.State
start = (example, example-IsMap)

serve-Meets_example :
    Meets example
      (serve example 30 (Call.complete (text "k1") (text "o1") 5 50))
      30
      (text "k1")
      (some (Entry.completed (text "f") 5 80), done true)
unfolding on_lock Dict.get text_eq
serve-Meets_example =
    serve-Meets example 30 (Call.complete (text "k1") (text "o1") 5 50) example-IsMap

k1_locked : numbers.view start 30 (text "k1") ≡ some (Entry.in_flight (text "f") (text "o1") 90)
unfolding Dict.get text_eq
k1_locked = refl

k2_stored : numbers.view start 30 (text "k2") ≡ some (Entry.completed (text "f") 7 80)
unfolding Dict.get text_eq
k2_stored = refl

k3_free : numbers.view start 30 (text "k3") ≡ none
unfolding Dict.get text_eq
k3_free = refl

abbrev others : List (ℕ × Call ℕ)
others =
    (40, acquire (text "k1") (text "o2") (text "g") 50) ∷ (50, release (text "k1") (text "o2")) ∷ []

lock-holds_example :
    Refused (text "k1") (AcquireResult.in_flight (text "f")) others (run numbers start others).1
    × ((t : ℕ)
        → 50 ≤ t
        → numbers.view (run numbers start others).0 t (text "k1")
          ≡ live t (some (Entry.in_flight (text "f") (text "o1") 90)))
lock-holds_example =
    lock-holds numbers start 30 (text "k1") (text "f") (text "o1") 90 others k1_locked
      (omega arith, (omega arith, tt)) ((omega arith, λ _. other), ((omega arith, λ _. other), tt))

record_is_final_example :
    Refused (text "k2") (AcquireResult.completed (text "f") 7) others (run numbers start others).1
    × ((t : ℕ)
        → 50 ≤ t
        → numbers.view (run numbers start others).0 t (text "k2")
          ≡ live t (some (Entry.completed (text "f") 7 80)))
record_is_final_example =
    record_is_final numbers start 30 (text "k2") (text "f") 7 80 others k2_stored
      (omega arith, (omega arith, tt)) (omega arith, (omega arith, tt))

abbrev rivals : List (ℕ × Call ℕ)
rivals = (35, acquire (text "k3") (text "o2") (text "g") 50) ∷ []

one_winner_example :
    (xs : List (Answer ℕ)) × ((run numbers start
        ((30, acquire (text "k3") (text "o1") (text "g") 50) ∷ rivals)).1
      ≡ found AcquireResult.acquired ∷ xs)
    × Refused (text "k3") (AcquireResult.in_flight (text "g")) rivals xs
one_winner_example =
    one_winner numbers start 30 (text "k3") (text "o1") (text "g") 50 rivals k3_free
      (omega arith, tt) ((omega arith, λ _. other), tt) (omega arith)

abbrev renewals : List (ℕ × Call ℕ)
renewals =
    (40, extend (text "k1") (text "o1") 90)
    ∷ (100, acquire (text "k1") (text "o2") (text "g") 50)
    ∷ []

k1-Stays :
    Stays numbers
      (text "k1")
      (lock numbers (text "k1") (text "f") (text "o1") 90 0)
      (AcquireResult.in_flight (text "f"))
      start
      30
unfolding Dict.get text_eq
k1-Stays t h = refl

own_lock_lasts_example :
    Answers numbers (text "k1") (text "f") (text "o1") 90 renewals (run numbers start renewals).1
own_lock_lasts_example =
    own_lock_lasts numbers (text "k1") (text "f") (text "o1") 90 start 30 0 renewals
      (omega arith, (omega arith, tt))
      (omega arith, inl (refl, (omega arith, inr (λ _. other, tt)))) k1-Stays
