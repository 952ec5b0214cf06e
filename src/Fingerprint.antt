-- ===== src/Fingerprint.antt =====
-- lib/utils/fingerprint.util.ts: `canonicalJson` and `sha256`. The hash function of `node:crypto`
-- is a parameter.
pub mod Framing
pub mod Order
use mathlib.Core.Option
use mathlib.Core.List.{flat_map}
use idempotency.Base.{
  ℕ, zero, suc, ◌+◌, ◌/◌, ◌%◌, Bool, true, false, ◌&&◌, ◌||◌, List, [], ◌∷◌, ◌++◌, Option, none,
  some, ltb, leb, ◌==◌, if◌then◌else◌, Text, text, length,
}
use idempotency.Key.Uri.{is_high, is_low, paired, utf8}
use idempotency.Value
use idempotency.Value.{Value, Items, Pairs, Fields, finite, non_finite}

-- How `JSON.stringify` writes one code unit of a string, pairs of surrogates aside.
abbrev hex_digit : ℕ → ℕ
hex_digit n = if ltb n 10 then b'0' + n else 0x57 + n

abbrev unicode_escape : ℕ → Text
unicode_escape c =
    92
    ∷ b'u'
    ∷ hex_digit (c / 4096)
    ∷ hex_digit (c / 256 % 16)
    ∷ hex_digit (c / 16 % 16)
    ∷ hex_digit (c % 16)
    ∷ []

abbrev quoted_unit : ℕ → Text
quoted_unit c =
    if c == b'"' || c == 92
    then 92 ∷ c ∷ []
    else if c == 8
    then text "\\b"
    else if c == 9
    then text "\\t"
    else if c == 10
    then text "\\n"
    else if c == 12
    then text "\\f"
    else if c == 13
    then text "\\r"
    else if ltb c 32 || is_high c || is_low c
    then unicode_escape c
    else c ∷ []

quoted_units : Text → Text
quoted_units [] = []
quoted_units (c ∷ []) = quoted_unit c
quoted_units (c ∷ d ∷ s) =
    let pair = c ∷ d ∷ quoted_units s in
    let single = quoted_unit c ++ quoted_units (d ∷ s) in
    if is_high c && is_low d then pair else single

-- `JSON.stringify` of a string.
unfoldable pub quote : Text → Text
unfolding quoted_units
quote s = b'"' ∷ quoted_units s ++ b'"' ∷ []

-- The default order of `sort()`: by code units.
abbrev pub text_leb : Text → Text → Bool
text_leb [] t = true
text_leb (c ∷ s) [] = false
text_leb (c ∷ s) (d ∷ t) = ltb c d || (c == d && text_leb s t)

module _ {A : Type 0} (key : A → Text) where
  unfoldable insert_sorted : A → List A → List A
  insert_sorted a [] = a ∷ []
  insert_sorted a (b ∷ l) = if text_leb (key a) (key b) then a ∷ b ∷ l else b ∷ insert_sorted a l

  unfoldable pub sort_by : List A → List A
  unfolding insert_sorted
  sort_by [] = []
  sort_by (a ∷ l) = insert_sorted a (sort_by l)

-- `.join(',')`.
unfoldable pub commas : List Text → Text
commas [] = []
commas (s ∷ []) = s
commas (s ∷ t ∷ l) = s ++ b',' ∷ commas (t ∷ l)

abbrev pub or_null : Option Text → Text
or_null none = text "null"
or_null (some s) = s

-- The members that are left out are those with no text.
unfoldable pub member_texts : List (Text × Option Text) → List Text
member_texts [] = []
member_texts ((k, none) ∷ l) = member_texts l
member_texts ((k, some s) ∷ l) = (quote k ++ b':' ∷ s) ∷ member_texts l

module _ (hash_of_bytes : List ℕ → Text) where
  -- `write`: `fresh` says that `toJSON()` was not yet applied, so it may still be.
  unfoldable mutual
    unfolding quote sort_by commas member_texts

    pub write : Bool → Value → Option Text
    write fresh Value.undefined = none
    write fresh Value.function = none
    write fresh Value.symbol = none
    write fresh Value.null = some (text "null")
    write fresh (Value.boolean true) = some (text "true")
    write fresh (Value.boolean false) = some (text "false")
    write fresh (Value.number (finite s)) = some s
    write fresh (Value.number (non_finite s)) = some (text "null")
    write fresh (Value.bigint s) = some (s ++ text "n")
    write fresh (Value.string s) = some (quote s)
    write true (Value.date none) = some (text "null")
    write true (Value.date (some iso)) = some (quote iso)
    write false (Value.date iso) = some (text "{}")
    write fresh (Value.buffer bytes) = some (text "<bytes " ++ hash_of_bytes bytes ++ text ">")
    write fresh (Value.uint8_array bytes) = some (text "<bytes " ++ hash_of_bytes bytes ++ text ">")
    write fresh (Value.other_binary bytes fs protos) =
        some (text "<bytes " ++ hash_of_bytes bytes ++ text ">")
    write fresh (Value.stream fs) = some (text "<stream>")
    write fresh (Value.promise fs) = some (text "<promise>")
    write fresh (Value.back n) = some (text "<cycle>")
    write fresh (Value.array xs) = some (text "[" ++ commas (write_items xs) ++ text "]")
    write fresh (Value.map_of ps) =
        some (text "<map [" ++ commas (sort_by (λ s. s) (write_pairs ps)) ++ text "]>")
    write fresh (Value.set_of xs) =
        some (text "<set [" ++ commas (sort_by (λ s. s) (write_items xs)) ++ text "]>")
    write fresh (Value.object fs) =
        some (text "{" ++ commas (member_texts (sort_by (λ m. m.0) (write_fields fs))) ++ text "}")
    write fresh (Value.instance_of fs hidden protos) =
        some (text "{" ++ commas (member_texts (sort_by (λ m. m.0) (write_fields fs))) ++ text "}")
    write fresh (Value.streamable_file fs) =
        some (text "{" ++ commas (member_texts (sort_by (λ m. m.0) (write_fields fs))) ++ text "}")
    write fresh (Value.async_iterable fs) =
        some (text "{" ++ commas (member_texts (sort_by (λ m. m.0) (write_fields fs))) ++ text "}")
    write true (Value.with_to_json v w) = write false v
    write false (Value.with_to_json v w) = write false w

    pub write_items : Items → List Text
    write_items Items.nil = []
    write_items (Items.item v xs) = or_null (write true v) ∷ write_items xs

    pub write_pairs : Pairs → List Text
    write_pairs Pairs.no_pair = []
    write_pairs (Pairs.pair k v ps) =
        (text "[" ++ or_null (write true k) ++ text "," ++ or_null (write true v) ++ text "]")
        ∷ write_pairs ps

    pub write_fields : Fields → List (Text × Option Text)
    write_fields Fields.no_field = []
    write_fields (Fields.field k v fs) = (k, write true v) ∷ write_fields fs

  unfoldable pub canonical_json : Value → Text
  unfolding write
  canonical_json v = Option.get_or (write true v) []

-- The bytes of a string in UTF-8, a lone surrogate replaced by U+FFFD, as `hash.update` takes it.
abbrev or_replacement : ℕ → ℕ
or_replacement c = if is_high c || is_low c then 0xfffd else c

lossy_points : Text → List ℕ
lossy_points [] = []
lossy_points (c ∷ []) = or_replacement c ∷ []
lossy_points (c ∷ d ∷ s) =
    let double = paired c d ∷ lossy_points s in
    let single = or_replacement c ∷ lossy_points (d ∷ s) in
    if is_high c && is_low d then double else single

unfoldable pub utf8_bytes : Text → List ℕ
unfolding lossy_points utf8
utf8_bytes s = flat_map utf8 (lossy_points s)

-- The decimal digits of a number, on fuel; `n + 1` rounds are enough.
unfoldable pub decimal_from : ℕ → ℕ → Text
decimal_from zero n = []
decimal_from (suc fuel) n =
    let rest = decimal_from fuel (n / 10) ++ (b'0' + n % 10) ∷ [] in
    if ltb n 10 then (b'0' + n) ∷ [] else rest

unfoldable pub decimal : ℕ → Text
unfolding decimal_from
decimal n = decimal_from (suc n) n

-- What is hashed for one part: its length in bytes, a colon and its bytes.
unfoldable pub framed : List ℕ → List ℕ
unfolding decimal
framed bytes = decimal (length bytes) ++ b':' ∷ bytes

unfoldable pub frame : List Text → List ℕ
unfolding framed utf8_bytes
frame [] = []
frame (part ∷ parts) = framed (utf8_bytes part) ++ frame parts

-- `sha256(...parts)`, over the hash of the whole input in hexadecimal.
unfoldable pub sha256 : (List ℕ → Text) → List Text → Text
unfolding frame
sha256 hash_hex parts = hash_hex (frame parts)
