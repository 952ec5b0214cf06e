-- ===== src/Testing/Keys.antt =====
-- The cases of `idempotencyStoreContract` that use several keys, and the strings that they use.
use idempotency.Base.{
  ℕ, suc, zero, ◌+◌, ◌*◌, ◌-◌, ◌/◌, ◌%◌, ◌≡◌, refl, true, Bool, ◌==◌, List, [], ◌∷◌, ◌++◌, some,
  ltb, if◌then◌else◌, Text, text, text_eq, among, not, ◌&&◌,
}
use idempotency.Json.{Json, JsonItems, JsonFields}
use idempotency.Fingerprint.{decimal}
use idempotency.Interceptor.{StoredPayload, plain, sealed, HeaderValue, one, several, ErrorKind}
use idempotency.Testing.{acquire, complete, Command, does, Case, long_lock_ttl, long_record_ttl}
use idempotency.Testing.Cases.{
  success, a, b, expects_acquired, expects_lock, expects_record, expects_that, one_field,
  takes_a_free_key, completes_for_the_owner, a_record_is_final, releases_for_the_owner,
  needs_a_record, extends_for_the_owner, leaves_a_ttl_alone, fences_a_stale_owner,
  ends_with_the_lock, expires_a_record, takes_weeks,
}

-- A whole number as a double, rounded to even: `unit` doubles until 53 bits are left.
abbrev nearest : (n unit : ℕ) → ℕ
nearest n unit =
    let down = n / unit * unit in
    if ltb (2 * (n % unit)) unit
    then down
    else if ltb unit (2 * (n % unit))
    then down + unit
    else if n / unit % 2 == 0
    then down
    else down + unit

unfoldable double_from : (fuel unit n : ℕ) → ℕ
double_from zero unit n = n
double_from (suc fuel) unit n =
    let next = double_from fuel (2 * unit) n in
    if ltb n (9_007_199_254_740_992 * unit) then nearest n unit else next

-- The numbers here are below 2^62, so that ten rounds are enough.
abbrev double : ℕ → ℕ
double = double_from 10 1

-- `printable`: one code unit for each round of its loop.
abbrev next_seed : ℕ → ℕ
next_seed seed = double (double (seed * 1_103_515_245) + 12_345) % 2_147_483_648

abbrev beyond_ascii : ℕ → ℕ
beyond_ascii n =
    if n == 0
    then 0x105
    else if n == 1
    then 0xdf
    else if n == 2
    then 0x436
    else if n == 3
    then 0x4e2d
    else if n == 4
    then 0xe9
    else 0xf8

abbrev character_of : ℕ → ℕ
character_of n = if ltb n 94 then 33 + n else beyond_ascii (n - 94)

unfoldable printable_from : (length seed : ℕ) → Text
unfolding double_from
printable_from zero seed = []
printable_from (suc n) seed =
    let next = next_seed seed in character_of (next % 100) ∷ printable_from n next

unfoldable pub printable : (length : ℕ) → Text
unfolding printable_from
printable length = printable_from length 0x2545f491

unfoldable pub similar_names : List Text
unfolding printable
similar_names =
    let long = printable 4_000 in
    text "k"
    ∷ text "K"
    ∷ text "k "
    ∷ text " k"
    ∷ (b'k' ∷ 9 ∷ [])
    ∷ text "usr_alice:k"
    ∷ text "usr_alice%3Ak"
    ∷ text "ключ"
    ∷ text "klucz-ż"
    ∷ (0xd83d ∷ 0xdd11 ∷ [])
    ∷ (b'e' ∷ 0x301 ∷ [])
    ∷ (0xe9 ∷ [])
    ∷ text "__proto__"
    ∷ text "constructor"
    ∷ text "toString"
    ∷ (long ++ text "x")
    ∷ (long ++ text "y")
    ∷ (text "y" ++ long)
    ∷ []

unfoldable pub distinct_texts : List Text → Bool
unfolding among
distinct_texts [] = true
distinct_texts (t ∷ ts) = not (among t ts) && distinct_texts ts

pub similar_names-distinct : distinct_texts similar_names ≡ true
unfolding distinct_texts among similar_names text_eq
similar_names-distinct = refl

-- `names.entries()`, from an index on.
abbrev pub numbered : ℕ → Text
numbered i = text "fp-" ++ decimal i

unfoldable pub first_calls : (index : ℕ) → List Text → Case StoredPayload
first_calls i [] = []
first_calls i (name ∷ names) =
    (name, expects_acquired a (numbered i) long_lock_ttl ∷ []) ∷ first_calls (suc i) names

unfoldable pub second_calls : (index : ℕ) → List Text → Case StoredPayload
second_calls i [] = []
second_calls i (name ∷ names) =
    (name, expects_lock b (text "fp") long_lock_ttl (numbered i) ∷ []) ∷ second_calls (suc i) names

unfoldable pub keeps_keys_apart : Case StoredPayload
unfolding first_calls second_calls similar_names
keeps_keys_apart = first_calls 0 similar_names ++ second_calls 0 similar_names

unfoldable repeated : (unit length : ℕ) → Text
repeated c zero = []
repeated c (suc n) = c ∷ repeated c n

abbrev item : Json → JsonItems → JsonItems
item = JsonItems.item

abbrev field : Text → Json → JsonFields → JsonFields
field = JsonFields.field

abbrev body_of_error : Json
body_of_error = Json.object (
    field (text "message")
      (Json.string
        (text "O'Reilly ü " ++ 0 ∷ text " \\ \" " ++ 0xd83d ∷ 0xdcb3 ∷ b' ' ∷ 0x2028 ∷ []))
      (field (text "nested")
        (Json.array (
          item
            (one_field (text "at") (
              Json.object (
                field (text "__idempotencyType") (Json.string (text "Date")) (
                  field (text "value") (Json.string (text "2026-09-22T12:00:00.000Z"))
                    JsonFields.no_field))))
            JsonItems.nil))
        (field (text "numbers")
          (Json.array (
            item (Json.number (text "0")) (
              item (Json.number (text "-1")) (
                item (Json.number (text "1.5"))
                  (item (Json.number (text "9007199254740991")) JsonItems.nil)))))
          (field (text "empty") (Json.object JsonFields.no_field) JsonFields.no_field))))

abbrev headers_of_error : List (Text × HeaderValue)
headers_of_error =
    (text "location", one (text "/payments/1"))
    ∷ (text "content-language", several (text "en" ∷ text "pl" ∷ []))
    ∷ []

unfoldable pub payloads : List StoredPayload
unfolding printable repeated
payloads =
    plain (record {
      status = 402;
      headers = headers_of_error;
      body = some body_of_error;
      error = some ErrorKind.http;
    })
    ∷ success 200 Json.null
    ∷ success 204 (Json.string [])
    ∷ success 201 (one_field (text "text") (Json.string (printable 100_000)))
    ∷ sealed (
        text "v1.abcd1234."
        ++ repeated b'A' 16
        ++ b'.' ∷ repeated b'B' 50_000
        ++ b'.' ∷ repeated b'C' 22)
    ∷ []

-- One payload: completed, and read twice.
abbrev pub stores : StoredPayload → List (Command StoredPayload)
stores p =
    does (acquire a (text "fp") long_lock_ttl)
    ∷ expects_that true (complete a p long_record_ttl)
    ∷ expects_record b (text "fp") long_lock_ttl (text "fp") p
    ∷ expects_record b (text "fp") long_lock_ttl (text "fp") p
    ∷ []

unfoldable pub payload_calls : (index : ℕ) → List StoredPayload → Case StoredPayload
payload_calls i [] = []
payload_calls i (p ∷ ps) = (b'k' ∷ decimal i, stores p) ∷ payload_calls (suc i) ps

unfoldable pub stores_every_payload : Case StoredPayload
unfolding payload_calls payloads
stores_every_payload = payload_calls 0 payloads

-- The cases that make their calls one by one, in their order.
unfoldable pub sequential_cases : (lock_ttl : ℕ) → List (Case StoredPayload)
unfolding keeps_keys_apart stores_every_payload
sequential_cases lock_ttl =
    takes_a_free_key
    ∷ completes_for_the_owner
    ∷ a_record_is_final
    ∷ releases_for_the_owner
    ∷ needs_a_record
    ∷ extends_for_the_owner lock_ttl
    ∷ leaves_a_ttl_alone lock_ttl
    ∷ fences_a_stale_owner lock_ttl
    ∷ ends_with_the_lock lock_ttl
    ∷ expires_a_record lock_ttl
    ∷ takes_weeks lock_ttl
    ∷ keeps_keys_apart
    ∷ stores_every_payload
    ∷ []
