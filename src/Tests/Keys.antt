-- ===== src/Tests/Keys.antt =====
-- Keys, store keys and fingerprints.
use mathlib.Core.List
use mathlib.Core.Option
use idempotency.Base.{ℕ, ◌≡◌, ◌≢◌, refl, [], ◌∷◌, Option, none, some, map, Text, text, arith}
use idempotency.Value.{Value}
use idempotency.Key.Uri.{encode_uri_component, is_unreserved}
use idempotency.Key.{valid, normalize_key, store_key}
use idempotency.Key.Normal.{IsKey, quoted, normalize_key-IsKey, quoted_and_bare}
use idempotency.Key.Unique.{store_key_injective, store_key_collision}
use idempotency.Fingerprint.{utf8_bytes}
use idempotency.Fingerprint.Framing.{frame_injective}

k1_accepted : normalize_key (Value.string (text " k1 ")) ≡ valid (text "k1")
unfolding normalize_key
k1_accepted = refl

normalize_key-IsKey_example : IsKey (text "k1")
normalize_key-IsKey_example =
    normalize_key-IsKey (Value.string (text " k1 ")) (text "k1") k1_accepted

k1-IsKey : IsKey (text "k1")
k1-IsKey = record { some_length = omega arith; bounded = omega arith; printable = ground arith }

k_is_no_quote : ◌≢◌ {A = ℕ} b'k' b'"'
k_is_no_quote = omega arith

quoted_and_bare_example :
    (normalize_key (Value.string (quoted (text "k1"))) ≡ valid (text "k1"))
    × (normalize_key (Value.string (text "k1")) ≡ valid (text "k1"))
quoted_and_bare_example = quoted_and_bare b'k' b'1' [] k1-IsKey refl refl k_is_no_quote

some_user : text "u:1" ≢ []
some_user e = cc

named : store_key (some (text "u:1")) (text "k1") none ≡ some (text "u%3A1:k1")
unfolding store_key Option.bind encode_uri_component List.flat_map is_unreserved
named = refl

store_key_injective_example :
    (some (text "u:1") ≡ some (text "u:1"))
    × (text "k1" ≡ text "k1")
    × (◌≡◌ {A = Option Text} none none)
store_key_injective_example =
    store_key_injective (some (text "u:1")) (some (text "u:1")) (text "k1") (text "k1") none none
      (text "u%3A1:k1") (some_user, ground arith) (some_user, ground arith) tt tt (ground arith)
      (ground arith) tt tt named named

store_key_collision_example :
    store_key (some (text "a")) (text "b") none ≡ store_key none (text "a") (some (text "b"))
store_key_collision_example = store_key_collision (text "a") (text "b") (λ e. cc) (λ e. cc)

frame_injective_example :
    map utf8_bytes (text "POST" ∷ text "1" ∷ []) ≡ map utf8_bytes (text "POST" ∷ text "1" ∷ [])
frame_injective_example =
    frame_injective (text "POST" ∷ text "1" ∷ []) (text "POST" ∷ text "1" ∷ []) refl
