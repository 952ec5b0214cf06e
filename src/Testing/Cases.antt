-- ===== src/Testing/Cases.antt =====
-- The cases of `idempotencyStoreContract` that make their calls one by one. Values are immutable in the
-- model, so the changes to a payload that the caller makes (`mutate`) have no counterpart.
use idempotency.Base.{ℕ, ◌+◌, ◌*◌, ◌-◌, Bool, true, false, [], ◌∷◌, none, some, Text, text}
use idempotency.Json.{Json, JsonFields}
use idempotency.Store.{AcquireResult}
use idempotency.Store.History.{found, done}
use idempotency.Interceptor.{StoredPayload, plain}
use idempotency.Testing.{
  Operation, acquire, complete, release, extend, Command, does, expects, advances, Case, margin,
  record_ttl, long_lock_ttl, long_record_ttl, thirty_days,
}

abbrev pub one_field : Text → Json → Json
one_field k j = Json.object (JsonFields.field k j JsonFields.no_field)

abbrev pub success : (status : ℕ) → Json → StoredPayload
success status body =
    plain (record { status = status; headers = []; body = some body; error = none })

abbrev pub response : StoredPayload
response = success 201 (one_field (text "receiptId") (Json.string (text "ch_0001")))

abbrev pub retried : StoredPayload
retried = success 201 (one_field (text "receiptId") (Json.string (text "ch_0002")))

abbrev overwritten : StoredPayload
overwritten = success 500 (Json.string (text "overwritten"))

-- What `acquire()` and the others are expected to answer.
abbrev pub expects_acquired : (owner fingerprint : Text) (ttl : ℕ) → Command StoredPayload
expects_acquired owner f ttl = expects (acquire owner f ttl) (found AcquireResult.acquired)

abbrev pub expects_lock :
    (owner fingerprint : Text) (ttl : ℕ) → (held : Text) → Command StoredPayload
expects_lock owner f ttl held = expects (acquire owner f ttl) (found (AcquireResult.in_flight held))

abbrev pub expects_record :
    (owner fingerprint : Text) (ttl : ℕ) → (stored : Text) → StoredPayload → Command StoredPayload
expects_record owner f ttl stored p =
    expects (acquire owner f ttl) (found (AcquireResult.completed stored p))

abbrev pub expects_that : Bool → Operation StoredPayload → Command StoredPayload
expects_that b op = expects op (done b)

-- The names of keys, owners and fingerprints.
abbrev k : Text
k = text "k"

abbrev pub a : Text
a = text "a"

abbrev pub b : Text
b = text "b"

abbrev c : Text
c = text "c"

abbrev d : Text
d = text "d"

abbrev pub fp_a : Text
fp_a = text "fp-a"

abbrev fp_b : Text
fp_b = text "fp-b"

abbrev fp_c : Text
fp_c = text "fp-c"

abbrev fp_d : Text
fp_d = text "fp-d"

abbrev crashed : Text
crashed = text "crashed"

abbrev retry : Text
retry = text "retry"

abbrev other : Text
other = text "other"

unfoldable pub takes_a_free_key : Case StoredPayload
takes_a_free_key =
    (
      k,
      expects_acquired a fp_a long_lock_ttl
          ∷ expects_lock b fp_b long_lock_ttl fp_a
          ∷ expects_lock a fp_a long_lock_ttl fp_a
          ∷ [],
    )
    ∷ []

unfoldable pub completes_for_the_owner : Case StoredPayload
completes_for_the_owner =
    (
      k,
      does (acquire a fp_a long_lock_ttl)
          ∷ expects_that false (complete b response long_record_ttl)
          ∷ expects_that true (complete a response long_record_ttl)
          ∷ expects_record c fp_c long_lock_ttl fp_a response
          ∷ [],
    )
    ∷ []

unfoldable pub a_record_is_final : Case StoredPayload
a_record_is_final =
    (
      k,
      does (acquire a fp_a long_lock_ttl)
          ∷ does (complete a response long_record_ttl)
          ∷ expects_that false (complete a overwritten long_record_ttl)
          ∷ expects_that false (release a)
          ∷ expects_that false (extend a long_lock_ttl)
          ∷ expects_record b fp_a long_lock_ttl fp_a response
          ∷ [],
    )
    ∷ []

unfoldable pub releases_for_the_owner : Case StoredPayload
releases_for_the_owner =
    (
      k,
      does (acquire a fp_a long_lock_ttl)
          ∷ expects_that false (release b)
          ∷ expects_that true (release a)
          ∷ expects_that false (release a)
          ∷ expects_acquired b fp_b long_lock_ttl
          ∷ expects_lock c fp_c long_lock_ttl fp_b
          ∷ [],
    )
    ∷ []

unfoldable pub needs_a_record : Case StoredPayload
needs_a_record =
    (
      text "missing",
      expects_that false (complete a response long_record_ttl)
          ∷ expects_that false (extend a long_lock_ttl)
          ∷ expects_that false (release a)
          ∷ expects_acquired a fp_a long_lock_ttl
          ∷ [],
    )
    ∷ []

module _ (lock_ttl : ℕ) where
  unfoldable pub extends_for_the_owner : Case StoredPayload
  unfolding margin
  extends_for_the_owner =
      (
        k,
        does (acquire a fp_a lock_ttl)
            ∷ advances (lock_ttl - margin lock_ttl)
            ∷ expects_that false (extend b lock_ttl)
            ∷ expects_that true (extend a lock_ttl)
            ∷ advances (lock_ttl - margin lock_ttl)
            ∷ expects_lock b fp_b lock_ttl fp_a
            ∷ advances (2 * margin lock_ttl)
            ∷ expects_that false (extend a lock_ttl)
            ∷ expects_acquired b fp_b lock_ttl
            ∷ [],
      )
      ∷ []

  unfoldable pub leaves_a_ttl_alone : Case StoredPayload
  unfolding margin record_ttl
  leaves_a_ttl_alone =
      (
        k,
        does (acquire a fp_a lock_ttl)
            ∷ does (complete a response (record_ttl lock_ttl))
            ∷ expects_that false (extend a lock_ttl)
            ∷ advances (record_ttl lock_ttl - margin lock_ttl)
            ∷ expects_record b fp_a lock_ttl fp_a response
            ∷ advances (2 * margin lock_ttl)
            ∷ expects_acquired b fp_b lock_ttl
            ∷ [],
      )
      ∷ []

  unfoldable pub fences_a_stale_owner : Case StoredPayload
  unfolding margin record_ttl
  fences_a_stale_owner =
      (
        k,
        does (acquire crashed fp_a lock_ttl)
            ∷ advances (lock_ttl + margin lock_ttl)
            ∷ expects_acquired retry fp_b lock_ttl
            ∷ expects_that false (extend crashed lock_ttl)
            ∷ expects_that false (complete crashed response (record_ttl lock_ttl))
            ∷ expects_that false (release crashed)
            ∷ expects_lock other fp_c lock_ttl fp_b
            ∷ expects_that true (complete retry retried (record_ttl lock_ttl))
            ∷ expects_record other fp_b lock_ttl fp_b retried
            ∷ [],
      )
      ∷ []

  unfoldable pub ends_with_the_lock : Case StoredPayload
  unfolding margin record_ttl
  ends_with_the_lock =
      (
        k,
        does (acquire a fp_a lock_ttl)
            ∷ advances (lock_ttl + margin lock_ttl)
            ∷ expects_that false (complete a response (record_ttl lock_ttl))
            ∷ expects_that false (release a)
            ∷ expects_acquired b fp_b lock_ttl
            ∷ [],
      )
      ∷ []

  unfoldable pub expires_a_record : Case StoredPayload
  unfolding margin record_ttl
  expires_a_record =
      (
        k,
        does (acquire a fp_a lock_ttl)
            ∷ does (complete a response (record_ttl lock_ttl))
            ∷ advances (record_ttl lock_ttl - margin lock_ttl)
            ∷ expects_record b fp_a lock_ttl fp_a response
            ∷ advances (2 * margin lock_ttl)
            ∷ expects_acquired c fp_c lock_ttl
            ∷ expects_lock d fp_d lock_ttl fp_c
            ∷ [],
      )
      ∷ []

  unfoldable pub takes_weeks : Case StoredPayload
  unfolding record_ttl
  takes_weeks =
      (
        k,
        expects_acquired a fp_a thirty_days
            ∷ expects_that true (extend a thirty_days)
            ∷ expects_that true (complete a response thirty_days)
            ∷ advances (record_ttl lock_ttl)
            ∷ expects_record b fp_a lock_ttl fp_a response
            ∷ [],
      )
      ∷ []
