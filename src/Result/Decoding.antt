-- ===== src/Result/Decoding.antt =====
-- `decodeResult` of lib/utils/result.util.ts; `none` is an exception, which only a record that
-- `encodeResult` did not write can cause.
use mathlib.Core.Option
use idempotency.Base.{
  ℕ, ◌+◌, Bool, true, false, ◌&&◌, ite, ◌∷◌, [], Option, none, some, if◌then◌else◌, Text, text,
  text_eq,
}
use idempotency.Fingerprint.{decimal}
use idempotency.Key.Uri.{is_high, is_low}
use idempotency.Json.{Json, JsonItems, JsonFields, lookup}
use idempotency.Value.{Value, Items, Pairs, Fields, finite}
use idempotency.Result.{Platform, type_key}

-- What `tagged[TYPE]` says.
pub data Tag : Type 0 where
  date bigint bytes map_tag set_tag object_tag untagged : Tag

unfoldable pub tag_named : Text → Tag
tag_named s = ite (text_eq s (text "Date")) Tag.date (
    ite (text_eq s (text "BigInt")) Tag.bigint (
      ite (text_eq s (text "Bytes")) Tag.bytes (
        ite (text_eq s (text "Map")) Tag.map_tag (
          ite (text_eq s (text "Set")) Tag.set_tag
            (ite (text_eq s (text "Object")) Tag.object_tag Tag.untagged)))))

unfoldable pub tag_of : Option Json → Tag
unfolding tag_named
tag_of (some (Json.string s)) = tag_named s
tag_of j = Tag.untagged

-- Whether two keys of a `Map` are one: equal primitives are, two objects never.
unfoldable pub same_key : Value → Value → Bool
same_key Value.undefined Value.undefined = true
same_key Value.null Value.null = true
same_key (Value.boolean true) (Value.boolean true) = true
same_key (Value.boolean false) (Value.boolean false) = true
same_key (Value.number (finite s)) (Value.number (finite t)) = ite (text_eq s t) true false
same_key (Value.bigint s) (Value.bigint t) = ite (text_eq s t) true false
same_key (Value.string s) (Value.string t) = ite (text_eq s t) true false
same_key v w = false

-- `map.set` and `set.add`.
unfoldable pub set_pair : (key value : Value) → Pairs → Pairs
unfolding same_key
set_pair k v Pairs.no_pair = Pairs.pair k v Pairs.no_pair
set_pair k v (Pairs.pair l w ps) =
    if same_key l k then Pairs.pair l v ps else Pairs.pair l w (set_pair k v ps)

unfoldable pub add_item : Value → Items → Items
unfolding same_key
add_item v Items.nil = Items.item v Items.nil
add_item v (Items.item w xs) =
    if same_key w v then Items.item w xs else Items.item w (add_item v xs)

-- `new Map(pairs)` and `new Set(items)`, from what they hold so far.
unfoldable pub map_from : Pairs → Pairs → Pairs
unfolding set_pair
map_from held Pairs.no_pair = held
map_from held (Pairs.pair k v ps) = map_from (set_pair k v held) ps

unfoldable pub set_from : Items → Items → Items
unfolding add_item
set_from held Items.nil = held
set_from held (Items.item v xs) = set_from (add_item v held) xs

-- The members of an array and of a string, by their indices.
unfoldable pub indexed : (index : ℕ) → Items → Fields
unfolding decimal
indexed i Items.nil = Fields.no_field
indexed i (Items.item v xs) = Fields.field (decimal i) v (indexed (i + 1) xs)

unfoldable pub units : Text → Items
units [] = Items.nil
units (c ∷ s) = Items.item (Value.string (c ∷ [])) (units s)

-- The first two characters of a string, as destructuring takes them.
unfoldable pub characters : Text → Items
characters [] = Items.nil
characters (c ∷ []) = Items.item (Value.string (c ∷ [])) Items.nil
characters (c ∷ d ∷ s) =
    let pair = Items.item (Value.string (c ∷ d ∷ [])) (characters s) in
    let single = Items.item (Value.string (c ∷ [])) (characters (d ∷ s)) in
    if is_high c && is_low d then pair else single

abbrev first_two : Items → Value × Value
first_two Items.nil = (Value.undefined, Value.undefined)
first_two (Items.item k Items.nil) = (k, Value.undefined)
first_two (Items.item k (Items.item v xs)) = (k, v)

abbrev pub onto_values : Option Value → Option Items → Option Items
onto_values (some v) (some xs) = some (Items.item v xs)
onto_values (some v) none = none
onto_values none xs = none

abbrev pub onto_entries : Option (Value × Value) → Option Pairs → Option Pairs
onto_entries (some (k, v)) (some ps) = some (Pairs.pair k v ps)
onto_entries (some (k, v)) none = none
onto_entries none ps = none

abbrev pub both_values : Option Value → Option Value → Option (Value × Value)
both_values (some k) (some v) = some (k, v)
both_values (some k) none = none
both_values none v = none

abbrev pub onto_fields : Text → Option Value → Option Fields → Option Fields
onto_fields k (some v) (some fs) = some (Fields.field k v fs)
onto_fields k (some v) none = none
onto_fields k none fs = none

-- `default:` and the other cases of the `switch`.
abbrev pub by_tag : Tag → Option Value → Option Value → Option Value
by_tag Tag.untagged plain special = plain
by_tag tag plain special = special

-- A tagged object without a `value`.
abbrev without_value : Tag → Option Value
without_value Tag.date = some (Value.date none)
without_value tag = none

module _ (platform : Platform) where
  unfoldable mutual
    unfolding tag_of lookup map_from set_from indexed units characters

    pub decode : Json → Option Value
    decode Json.null = some Value.null
    decode (Json.boolean b) = some (Value.boolean b)
    decode (Json.number s) = some (Value.number (finite s))
    decode (Json.string s) = some (Value.string s)
    decode (Json.array xs) = Option.map Value.array (decode_items xs)
    decode (Json.object fs) =
        let tag = tag_of (lookup type_key fs) in
        by_tag tag (Option.map Value.object (decode_members fs)) (decode_tagged tag fs)

    pub decode_tagged : Tag → JsonFields → Option Value
    decode_tagged tag JsonFields.no_field = without_value tag
    decode_tagged tag (JsonFields.field k j fs) =
        ite (text_eq k (text "value")) (decode_as tag j) (decode_tagged tag fs)

    -- By the tag, `tagged.value`.
    pub decode_as : Tag → Json → Option Value
    decode_as Tag.date Json.null = some (Value.date none)
    decode_as Tag.date j = some (Value.date (platform.new_date j))
    decode_as Tag.bigint j = Option.map Value.bigint (platform.to_bigint j)
    decode_as Tag.bytes j = Option.map Value.buffer (platform.from_base64 j)
    decode_as Tag.map_tag (Json.array xs) =
        Option.map (λ ps. Value.map_of (map_from Pairs.no_pair ps)) (decode_pairs xs)
    decode_as Tag.map_tag j = none
    decode_as Tag.set_tag (Json.array xs) =
        Option.map (λ vs. Value.set_of (set_from Items.nil vs)) (decode_items xs)
    decode_as Tag.set_tag j = none
    decode_as Tag.object_tag (Json.object fs) = Option.map Value.object (decode_members fs)
    decode_as Tag.object_tag (Json.array xs) =
        Option.map (λ vs. Value.object (indexed 0 vs)) (decode_items xs)
    decode_as Tag.object_tag (Json.string s) = some (Value.object (indexed 0 (units s)))
    decode_as Tag.object_tag Json.null = none
    decode_as Tag.object_tag j = some (Value.object Fields.no_field)
    decode_as Tag.untagged j = none

    pub decode_items : JsonItems → Option Items
    decode_items JsonItems.nil = some Items.nil
    decode_items (JsonItems.item j js) = onto_values (decode j) (decode_items js)

    pub decode_pairs : JsonItems → Option Pairs
    decode_pairs JsonItems.nil = some Pairs.no_pair
    decode_pairs (JsonItems.item j js) = onto_entries (decode_pair j) (decode_pairs js)

    pub decode_pair : Json → Option (Value × Value)
    decode_pair (Json.array JsonItems.nil) = some (Value.undefined, Value.undefined)
    decode_pair (Json.array (JsonItems.item k JsonItems.nil)) =
        both_values (decode k) (some Value.undefined)
    decode_pair (Json.array (JsonItems.item k (JsonItems.item v js))) =
        both_values (decode k) (decode v)
    decode_pair (Json.string s) = some (first_two (characters s))
    decode_pair j = none

    -- `decodeMembers`.
    pub decode_members : JsonFields → Option Fields
    decode_members JsonFields.no_field = some Fields.no_field
    decode_members (JsonFields.field k j fs) = onto_fields k (decode j) (decode_members fs)

  -- `decodeResult` of a body, which may be missing.
  unfoldable pub decode_result : Option Json → Option Value
  unfolding decode
  decode_result none = some Value.undefined
  decode_result (some j) = decode j
