-- ===== src/Result/Replay.antt =====
-- A result that is data is replayed as it was returned.
use mathlib.Core.Option
use idempotency.Base.{
  ◌≡◌, refl, Bool, true, Option, none, some, Option-cases, inl, inr, Text, text, text_eq, ap, ap₂,
  ◌∙◌,
}
use idempotency.Json.{Json, JsonItems, JsonFields, lookup}
use idempotency.Value.{Value, Items, Pairs, Fields, finite}
use idempotency.Result.{
  Platform, encode_result, type_key, encoded, encode, encode_items, encode_pairs, encode_fields,
  as_object, wrap_if, tagged, as_array, as_item, onto_items, onto_pairs, add_member,
}
use idempotency.Result.Distinct.{HasDistinctKeys, HasDistinctItems, map_from_lem, set_from_lem}
use idempotency.Result.Decoding.{
  map_from, set_from, decode_result, decode, decode_items, decode_pairs, decode_members, tag_of,
  by_tag, decode_tagged, onto_values, onto_entries, both_values, onto_fields,
}

module _ (platform : Platform) where
  -- Data: what JSON carries, and dates, big integers, buffers, maps and sets, which the platform
  -- reads back from their texts. A `Uint8Array` that is no `Buffer` is none: it is read as a `Buffer`.
  unfoldable mutual
    pub IsData : Value → Type 0
    IsData Value.null = Unit
    IsData (Value.boolean b) = Unit
    IsData (Value.number (finite s)) = Unit
    IsData (Value.bigint s) = platform.to_bigint (Json.string s) ≡ some s
    IsData (Value.string s) = Unit
    IsData (Value.date none) = Unit
    IsData (Value.date (some iso)) = platform.new_date (Json.string iso) ≡ some iso
    IsData (Value.buffer bytes) =
        platform.from_base64 (Json.string (platform.to_base64 bytes)) ≡ some bytes
    IsData (Value.array xs) = AreData xs
    IsData (Value.map_of ps) = HasDistinctKeys ps × ArePairs ps
    IsData (Value.set_of xs) = HasDistinctItems xs × AreData xs
    IsData (Value.object fs) = AreFields fs
    IsData v = ⊥

    pub AreData : Items → Type 0
    AreData Items.nil = Unit
    AreData (Items.item v xs) = IsData v × AreData xs

    pub ArePairs : Pairs → Type 0
    ArePairs Pairs.no_pair = Unit
    ArePairs (Pairs.pair k v ps) = IsData k × IsData v × ArePairs ps

    pub AreFields : Fields → Type 0
    AreFields Fields.no_field = Unit
    AreFields (Fields.field k v fs) = IsData v × AreFields fs

  module _ (strict : Bool) where
    -- What is written of a value is read as that value.
    abbrev Replayed : Value → Type 0
    Replayed v =
        (j : Json) × (encode platform strict true v ≡ encoded j) × (decode platform j ≡ some v)

    abbrev ReplayedItems : Items → Type 0
    ReplayedItems xs =
        (js : JsonItems) × (encode_items platform strict xs ≡ some js)
        × (decode_items platform js ≡ some xs)

    abbrev ReplayedPairs : Pairs → Type 0
    ReplayedPairs ps =
        (js : JsonItems) × (encode_pairs platform strict ps ≡ some js)
        × (decode_pairs platform js ≡ some ps)

    abbrev ReplayedFields : Fields → Type 0
    ReplayedFields fs =
        (js : JsonFields) × (encode_fields platform strict fs ≡ some js)
        × (decode_members platform js ≡ some fs)

    plain_lem :
        (js : JsonFields)
        → lookup type_key js ≡ none
        → decode platform (Json.object js) ≡ Option.map Value.object (decode_members platform js)
    unfolding decode
    plain_lem js n =
        ap
          (λ t.
            by_tag (tag_of t) (Option.map Value.object (decode_members platform js))
              (decode_tagged platform (tag_of t) js))
          n

    wrapped_lem :
        (js : JsonFields)
        → decode platform (tagged (text "Object") (Json.object js))
          ≡ Option.map Value.object (decode_members platform js)
    unfolding decode text_eq
    wrapped_lem js = refl

    as_object_lem :
        (js : JsonFields) (t : Option Json)
        → lookup type_key js ≡ t
        → as_object (some js) ≡ encoded (wrap_if t js)
    unfolding as_object
    as_object_lem js t e = ap (λ u. encoded (wrap_if u js)) e

    object_replayed : (fs : Fields) → ReplayedFields fs → Replayed (Value.object fs)
    unfolding encode
    object_replayed fs (js, e, d) = elim (Option-cases (lookup type_key js)) [
      | inl n ↦ (
        Json.object js,
        ap as_object e ∙ as_object_lem js none n,
        plain_lem js n ∙ ap (Option.map Value.object) d,
      )
      | inr (t, h) ↦ (
        tagged (text "Object") (Json.object js),
        ap as_object e ∙ as_object_lem js (some t) h,
        wrapped_lem js ∙ ap (Option.map Value.object) d,
      )
    ]

    map_replayed : (ps : Pairs) → HasDistinctKeys ps → ReplayedPairs ps → Replayed (Value.map_of ps)
    unfolding encode decode text_eq
    map_replayed ps u (js, e, d) = (
      tagged (text "Map") (Json.array js),
      ap (as_array (tagged (text "Map"))) e,
      ap (Option.map (λ qs. Value.map_of (map_from Pairs.no_pair qs))) d
          ∙ ap (λ qs. some (Value.map_of qs)) (map_from_lem ps u),
    )

    set_replayed :
        (xs : Items) → HasDistinctItems xs → ReplayedItems xs → Replayed (Value.set_of xs)
    unfolding encode decode text_eq
    set_replayed xs u (js, e, d) = (
      tagged (text "Set") (Json.array js),
      ap (as_array (tagged (text "Set"))) e,
      ap (Option.map (λ ys. Value.set_of (set_from Items.nil ys))) d
          ∙ ap (λ ys. some (Value.set_of ys)) (set_from_lem xs u),
    )

    item_replayed :
        (v : Value) (xs : Items) → Replayed v → ReplayedItems xs → ReplayedItems (Items.item v xs)
    unfolding encode decode
    item_replayed v xs (j, e, d) (js, es, ds) =
        (JsonItems.item j js, ap₂ (λ x y. onto_items (as_item x) y) e es, ap₂ onto_values d ds)

    pair_replayed :
        (k v : Value) (ps : Pairs)
        → Replayed k
        → Replayed v
        → ReplayedPairs ps
        → ReplayedPairs (Pairs.pair k v ps)
    unfolding encode decode
    pair_replayed k v ps (i, ei, di) (j, ej, dj) (js, es, ds) = (
      JsonItems.item (Json.array (JsonItems.item i (JsonItems.item j JsonItems.nil))) js,
      ap₂ (λ x y. onto_pairs (as_item x) (as_item y) (encode_pairs platform strict ps)) ei ej
          ∙ ap (onto_pairs (some i) (some j)) es,
      ap₂ (λ x y. onto_entries (both_values x y) (decode_pairs platform js)) di dj
          ∙ ap (onto_entries (some (k, v))) ds,
    )

    field_replayed :
        (k : Text) (v : Value) (fs : Fields)
        → Replayed v
        → ReplayedFields fs
        → ReplayedFields (Fields.field k v fs)
    unfolding encode decode
    field_replayed k v fs (j, e, d) (js, es, ds) =
        (JsonFields.field k j js, ap₂ (add_member k) e es, ap₂ (onto_fields k) d ds)

    mutual
      unfolding IsData encode decode text_eq

      replayed : (v : Value) → IsData v → Replayed v
      replayed Value.null h = (Json.null, refl, refl)
      replayed (Value.boolean b) h = (Json.boolean b, refl, refl)
      replayed (Value.number (finite s)) h = (Json.number s, refl, refl)
      replayed (Value.bigint s) h =
          (tagged (text "BigInt") (Json.string s), refl, ap (Option.map Value.bigint) h)
      replayed (Value.string s) h = (Json.string s, refl, refl)
      replayed (Value.date none) h = (tagged (text "Date") Json.null, refl, refl)
      replayed (Value.date (some iso)) h =
          (tagged (text "Date") (Json.string iso), refl, ap (λ d. some (Value.date d)) h)
      replayed (Value.buffer bytes) h = (
        tagged (text "Bytes") (Json.string (platform.to_base64 bytes)),
        refl,
        ap (Option.map Value.buffer) h,
      )
      replayed (Value.array xs) h =
          let (js, e, d) = replayed_items xs h in
          (Json.array js, ap (as_array (λ j. j)) e, ap (Option.map Value.array) d)
      replayed (Value.map_of ps) h = map_replayed ps h.0 (replayed_pairs ps h.1)
      replayed (Value.set_of xs) h = set_replayed xs h.0 (replayed_items xs h.1)
      replayed (Value.object fs) h = object_replayed fs (replayed_fields fs h)
      replayed v h = absurd h

      replayed_items : (xs : Items) → AreData xs → ReplayedItems xs
      replayed_items Items.nil h = (JsonItems.nil, refl, refl)
      replayed_items (Items.item v xs) h =
          item_replayed v xs (replayed v h.0) (replayed_items xs h.1)

      replayed_pairs : (ps : Pairs) → ArePairs ps → ReplayedPairs ps
      replayed_pairs Pairs.no_pair h = (JsonItems.nil, refl, refl)
      replayed_pairs (Pairs.pair k v ps) h =
          pair_replayed k v ps (replayed k h.0) (replayed v h.1) (replayed_pairs ps h.2)

      replayed_fields : (fs : Fields) → AreFields fs → ReplayedFields fs
      replayed_fields Fields.no_field h = (JsonFields.no_field, refl, refl)
      replayed_fields (Fields.field k v fs) h =
          field_replayed k v fs (replayed v h.0) (replayed_fields fs h.1)

  -- A result that is data (JSON's values, and dates, big integers, `Buffer`s but no other
  -- `Uint8Array`, maps and sets) is stored, whatever the mode, and what a replay reads of the record is
  -- that result.
  pub decode_result-encode_result :
      (strict : Bool) (v : Value)
      → IsData v
      → (j : Json) × (encode_result platform strict v ≡ encoded j)
        × (decode_result platform (some j) ≡ some v)
  unfolding encode_result decode_result
  decode_result-encode_result strict v h = replayed strict v h
