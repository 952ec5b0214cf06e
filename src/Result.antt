-- ===== src/Result.antt =====
-- lib/utils/result.util.ts: how a handler's result is kept in a record.
pub mod Decoding
pub mod Distinct
pub mod Replay
use idempotency.Base.{
  ℕ, ◌+◌, Bool, true, false, ite, List, [], ◌∷◌, ◌++◌, Option, none, some, if◌then◌else◌, Text,
  text, text_eq,
}
use idempotency.Fingerprint.{decimal}
use idempotency.Json.{Json, JsonItems, JsonFields, lookup, append_fields}
use idempotency.Value
use idempotency.Value.{Value, Items, Pairs, Fields, Protos, Properties, finite, non_finite}

-- `Buffer`'s base64, `new Date(…)` by its `toISOString()`, and `BigInt(…)` by its digits; where
-- one throws, it has no result.
pub record Platform : Type 0 where
  pub to_base64 : List ℕ → Text
  pub from_base64 : Json → Option (List ℕ)
  pub new_date : Json → Option Text
  pub to_bigint : Json → Option Text

abbrev pub type_key : Text
type_key = text "__idempotencyType"

abbrev pub tagged : Text → Json → Json
tagged tag value = Json.object (
    JsonFields.field type_key (Json.string tag)
      (JsonFields.field (text "value") value JsonFields.no_field))

pub data Reason : Type 0 where
  streamable_file stream async_iterable : Reason

-- `unreplayableReason`.
unfoldable pub unreplayable_reason : Value → Option Reason
unreplayable_reason (Value.streamable_file fs) = some Reason.streamable_file
unreplayable_reason (Value.stream fs) = some Reason.stream
unreplayable_reason (Value.async_iterable fs) = some Reason.async_iterable
unreplayable_reason (Value.with_to_json result itself) = unreplayable_reason itself
unreplayable_reason v = none

-- How `encode` ends: with `OMIT`, a value, or an `UnreplayableResult`.
pub data Encoding : Type 0 where
  omitted : Encoding
  encoded : Json → Encoding
  unreplayable : Encoding

-- An array's item; `none` is the exception.
abbrev pub as_item : Encoding → Option Json
as_item omitted = some Json.null
as_item (encoded j) = some j
as_item unreplayable = none

abbrev pub onto_items : Option Json → Option JsonItems → Option JsonItems
onto_items (some j) (some js) = some (JsonItems.item j js)
onto_items (some j) none = none
onto_items none js = none

abbrev pub onto_pairs : Option Json → Option Json → Option JsonItems → Option JsonItems
onto_pairs (some k) (some v) (some js) =
    some (JsonItems.item (Json.array (JsonItems.item k (JsonItems.item v JsonItems.nil))) js)
onto_pairs (some k) (some v) none = none
onto_pairs (some k) none js = none
onto_pairs none v js = none

-- `assign`, unless the value is omitted.
abbrev pub add_member : Text → Encoding → Option JsonFields → Option JsonFields
add_member k omitted fs = fs
add_member k (encoded j) (some fs) = some (JsonFields.field k j fs)
add_member k (encoded j) none = none
add_member k unreplayable fs = none

abbrev pub joined : Option JsonFields → Option JsonFields → Option JsonFields
joined (some fs) (some gs) = some (append_fields fs gs)
joined (some fs) none = none
joined none gs = none

abbrev pub as_array : (Json → Json) → Option JsonItems → Encoding
as_array f none = unreplayable
as_array f (some js) = encoded (f (Json.array js))

-- An object that uses the tag key is wrapped.
abbrev pub wrap_if : Option Json → JsonFields → Json
wrap_if none fs = Json.object fs
wrap_if (some tag) fs = tagged (text "Object") (Json.object fs)

unfoldable pub as_object : Option JsonFields → Encoding
unfolding lookup
as_object none = unreplayable
as_object (some fs) = encoded (wrap_if (lookup type_key fs) fs)

abbrev iso_or_null : Option Text → Json
iso_or_null none = Json.null
iso_or_null (some iso) = Json.string iso

-- The members of an array of bytes.
unfoldable pub byte_fields : (index : ℕ) → List ℕ → JsonFields
unfolding decimal
byte_fields i [] = JsonFields.no_field
byte_fields i (b ∷ bs) =
    JsonFields.field (decimal i) (Json.number (decimal b)) (byte_fields (i + 1) bs)

unfoldable pub field_names : Fields → List Text
field_names Fields.no_field = []
field_names (Fields.field k v fs) = k ∷ field_names fs

unfoldable pub property_names : Properties → List Text
property_names Properties.no_property = []
property_names (Properties.getter k v ps) = k ∷ property_names ps
property_names (Properties.throwing_getter k ps) = k ∷ property_names ps
property_names (Properties.property k ps) = k ∷ property_names ps

-- Whether a getter is shadowed; `__proto__` never counts.
unfoldable pub skips : (seen : List Text) → Text → Bool
skips [] k = ite (text_eq k (text "__proto__")) true false
skips (s ∷ seen) k = ite (text_eq s k) true (skips seen k)

module _ (platform : Platform) (strict : Bool) where
  -- `encode`: `fresh` says that the value is not the result of a `toJSON()`. Of such a result that
  -- is a typed array, the getters of the platform's own prototypes are left out.
  unfoldable mutual
    unfolding as_object byte_fields field_names property_names skips

    pub encode : (fresh : Bool) → Value → Encoding
    encode fresh Value.undefined = omitted
    encode fresh Value.symbol = omitted
    encode fresh Value.function = if strict then unreplayable else omitted
    encode fresh Value.null = encoded Json.null
    encode fresh (Value.boolean b) = encoded (Json.boolean b)
    encode fresh (Value.number (finite s)) = encoded (Json.number s)
    encode fresh (Value.number (non_finite s)) = encoded Json.null
    encode fresh (Value.bigint s) = encoded (tagged (text "BigInt") (Json.string s))
    encode fresh (Value.string s) = encoded (Json.string s)
    encode true (Value.date iso) = encoded (tagged (text "Date") (iso_or_null iso))
    encode false (Value.date iso) = encoded (Json.object JsonFields.no_field)
    encode true (Value.buffer bytes) =
        encoded (tagged (text "Bytes") (Json.string (platform.to_base64 bytes)))
    encode false (Value.buffer bytes) = encoded (Json.object (byte_fields 0 bytes))
    encode true (Value.uint8_array bytes) =
        encoded (tagged (text "Bytes") (Json.string (platform.to_base64 bytes)))
    encode false (Value.uint8_array bytes) = encoded (Json.object (byte_fields 0 bytes))
    encode fresh (Value.other_binary bytes fs protos) = as_object (
        if strict
        then joined (encode_fields fs) (encode_protos (field_names fs) protos)
        else encode_fields fs)
    encode fresh (Value.stream fs) = if strict then unreplayable else as_object (encode_fields fs)
    encode fresh (Value.promise fs) = if strict then unreplayable else as_object (encode_fields fs)
    encode fresh (Value.streamable_file fs) =
        if strict then unreplayable else as_object (encode_fields fs)
    encode fresh (Value.async_iterable fs) =
        if strict then unreplayable else as_object (encode_fields fs)
    encode fresh (Value.back n) = unreplayable
    encode fresh (Value.array xs) = as_array (λ j. j) (encode_items xs)
    encode fresh (Value.map_of ps) = as_array (tagged (text "Map")) (encode_pairs ps)
    encode fresh (Value.set_of xs) = as_array (tagged (text "Set")) (encode_items xs)
    encode fresh (Value.object fs) = as_object (encode_fields fs)
    encode fresh (Value.instance_of fs hidden protos) = as_object (
        if strict
        then joined (encode_fields fs) (encode_protos (field_names fs ++ hidden) protos)
        else encode_fields fs)
    encode true (Value.with_to_json result itself) = encode false result
    encode false (Value.with_to_json result itself) = encode false itself

    pub encode_items : Items → Option JsonItems
    encode_items Items.nil = some JsonItems.nil
    encode_items (Items.item v xs) = onto_items (as_item (encode true v)) (encode_items xs)

    pub encode_pairs : Pairs → Option JsonItems
    encode_pairs Pairs.no_pair = some JsonItems.nil
    encode_pairs (Pairs.pair k v ps) =
        onto_pairs (as_item (encode true k)) (as_item (encode true v)) (encode_pairs ps)

    pub encode_fields : Fields → Option JsonFields
    encode_fields Fields.no_field = some JsonFields.no_field
    encode_fields (Fields.field k v fs) = add_member k (encode true v) (encode_fields fs)

    -- The getters of the prototypes, a nearer property shadowing a farther one.
    pub encode_protos : (seen : List Text) → Protos → Option JsonFields
    encode_protos seen Protos.no_proto = some JsonFields.no_field
    encode_protos seen (Protos.proto ps rest) =
        joined (encode_properties seen ps) (encode_protos (property_names ps ++ seen) rest)

    pub encode_properties : (seen : List Text) → Properties → Option JsonFields
    encode_properties seen Properties.no_property = some JsonFields.no_field
    encode_properties seen (Properties.getter k v ps) =
        if skips seen k
        then encode_properties seen ps
        else add_member k (encode true v) (encode_properties seen ps)
    encode_properties seen (Properties.throwing_getter k ps) =
        if skips seen k then encode_properties seen ps else none
    encode_properties seen (Properties.property k ps) = encode_properties seen ps

  -- `encodeResult`: no body for an omitted result; `unreplayable` is the exception.
  unfoldable pub encode_result : Value → Encoding
  unfolding encode
  encode_result v = encode true v
