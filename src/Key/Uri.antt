-- ===== src/Key/Uri.antt =====
-- `encodeURIComponent`, as ECMAScript defines it over UTF-16 code units: UTF-8, with every byte but
-- the unreserved characters escaped. `none` is the `URIError` of a lone surrogate.
pub mod Injective
use mathlib.Core.Option
use mathlib.Core.List.{flat_map}
use idempotency.Base.{
  ℕ, ◌+◌, ◌-◌, ◌*◌, ◌/◌, ◌%◌, Bool, ◌&&◌, ◌||◌, List, [], ◌∷◌, ◌++◌, Option, none, some, ltb, leb,
  ◌==◌, if◌then◌else◌, Text,
}

abbrev pub is_high : ℕ → Bool
is_high c = leb 0xd800 c && ltb c 0xdc00

abbrev pub is_low : ℕ → Bool
is_low c = leb 0xdc00 c && ltb c 0xe000

abbrev pub paired : ℕ → ℕ → ℕ
paired c d = 0x10000 + (c - 0xd800) * 0x400 + (d - 0xdc00)

unfoldable pub points : Text → Option (List ℕ)
points [] = some []
points (c ∷ []) = if is_high c || is_low c then none else some (c ∷ [])
points (c ∷ d ∷ s) =
    let single = Option.map (λ ps. c ∷ ps) (points (d ∷ s)) in
    let double = Option.map (λ ps. paired c d ∷ ps) (points s) in
    if is_low c then none else if is_high c then if is_low d then double else none else single

unfoldable pub utf8 : ℕ → List ℕ
utf8 p =
    if ltb p 0x80
    then p ∷ []
    else if ltb p 0x800
    then (0xc0 + p / 64) ∷ (0x80 + p % 64) ∷ []
    else if ltb p 0x10000
    then (0xe0 + p / 4096) ∷ (0x80 + p / 64 % 64) ∷ (0x80 + p % 64) ∷ []
    else (0xf0 + p / 262144) ∷ (0x80 + p / 4096 % 64) ∷ (0x80 + p / 64 % 64) ∷ (0x80 + p % 64) ∷ []

-- A-Z a-z 0-9 and - _ . ! ~ * ' ( ).
unfoldable pub is_unreserved : ℕ → Bool
is_unreserved b =
    (leb b'A' b && leb b b'Z')
    || (leb b'a' b && leb b b'z')
    || (leb b'0' b && leb b b'9')
    || b == b'-'
    || b == b'_'
    || b == b'.'
    || b == b'!'
    || b == b'~'
    || b == 0x2a
    || (leb 0x27 b && leb b 0x29)

abbrev pub hex : ℕ → ℕ
hex n = if ltb n 10 then b'0' + n else b'A' + (n - 10)

unfoldable pub escape : ℕ → Text
escape b = if is_unreserved b then b ∷ [] else b'%' ∷ hex (b / 16) ∷ hex (b % 16) ∷ []

unfoldable pub encode_uri_component : Text → Option Text
unfolding points utf8 escape
encode_uri_component s = Option.map (λ ps. flat_map escape (flat_map utf8 ps)) (points s)
