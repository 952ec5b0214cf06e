-- ===== src/Tests/Results.antt =====
-- Results of handlers, stored and replayed, and payloads in several orders.
use idempotency.Base.{ℕ, ◌≡◌, refl, true, false, Option, none, some, Text, text, text_eq, arith}
use idempotency.Json.{Json}
use idempotency.Value.{Value, Items, Pairs, Fields, non_finite}
use idempotency.Fingerprint.{canonical_json}
use idempotency.Fingerprint.Order.{SameValue, SameSet, SameFields, canonical_json-reordered}
use idempotency.Result.{Platform, tagged, encode_result, encoded}
use idempotency.Result.Decoding.{decode_result}
use idempotency.Result.Replay.{IsData, decode_result-encode_result}
use idempotency.Tests.{hash}

abbrev text_of : Json → Option Text
text_of (Json.string s) = some s
text_of j = none

abbrev pub platform : Platform
platform = record {
  to_base64 = hash;
  from_base64 = text_of;
  new_date = text_of;
  to_bigint = text_of;
}

-- `{ __idempotencyType: 12n, when: new Date(…), by: new Map([['a', new Set([null])]]) }`.
abbrev pub result : Value
result = Value.object (
    Fields.field (text "__idempotencyType") (Value.bigint (text "12")) (
      Fields.field (text "when") (Value.date (some (text "2026-01-01T00:00:00.000Z"))) (
        Fields.field (text "by")
          (Value.map_of (
            Pairs.pair (Value.string (text "a")) (Value.set_of (Items.item Value.null Items.nil))
              Pairs.no_pair))
          Fields.no_field)))

pub result-IsData : IsData platform result
unfolding IsData
result-IsData = (refl, (refl, (((tt, tt), (tt, ((tt, tt), (tt, tt)), tt)), tt)))

decode_result-encode_result_example :
    (j : Json) × (encode_result platform true result ≡ encoded j)
    × (decode_result platform (some j) ≡ some result)
decode_result-encode_result_example = decode_result-encode_result platform true result result-IsData

-- A `Uint8Array` that is no `Buffer` is stored as one is, and replayed as a `Buffer`.
uint8_array_as_buffer :
    (encode_result platform false (Value.uint8_array (text "ab"))
      ≡ encode_result platform false (Value.buffer (text "ab")))
    × (decode_result platform
          (some (tagged (text "Bytes") (Json.string (platform.to_base64 (text "ab")))))
        ≡ some (Value.buffer (text "ab")))
unfolding encode_result decode_result text_eq
uint8_array_as_buffer = (refl, refl)

abbrev tags : Value → Value → Value
tags a b = Value.set_of (Items.item a (Items.item b Items.nil))

abbrev payload : Value
payload = Value.object (
    Fields.field (text "note") Value.null (
      Fields.field (text "tags") (tags (Value.boolean true) (Value.boolean false)) Fields.no_field))

abbrev retried_payload : Value
retried_payload = Value.object (
    Fields.field (text "tags") (tags (Value.boolean false) (Value.boolean true))
      (Fields.field (text "note") Value.null Fields.no_field))

payload-SameValue : SameValue payload retried_payload
unfolding text_eq
payload-SameValue = SameValue.object (
    SameFields.then_fields (SameFields.swapped_fields (λ e. ground arith)) (
      SameFields.field (SameValue.set_of SameSet.swapped_items)
        (SameFields.field SameValue.itself SameFields.no_field)))

canonical_json-reordered_example : canonical_json hash payload ≡ canonical_json hash retried_payload
canonical_json-reordered_example = canonical_json-reordered hash payload-SameValue

-- Two payloads that are not the same have one text where a number is not finite.
nan_as_null :
    canonical_json hash (Value.number (non_finite (text "NaN"))) ≡ canonical_json hash Value.null
unfolding canonical_json
nan_as_null = refl

-- And where a cycle ends at another of the enclosing objects.
abbrev self : ℕ → Value
self n = Value.object (
    Fields.field (text "a") (Value.object (Fields.field (text "b") (Value.back n) Fields.no_field))
      Fields.no_field)

cycles : canonical_json hash (self 0) ≡ canonical_json hash (self 1)
unfolding canonical_json
cycles = refl
