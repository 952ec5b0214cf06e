-- ===== src/Encryption.antt =====
-- lib/utils/encryption.util.ts: the two codecs of stored responses. The primitives of `node:crypto`,
-- base64url, and `JSON` on a stored response are a parameter; a `none` of theirs is an exception.
pub mod Opening
use mathlib.Core.Option
use idempotency.Base.{
  ℕ, Bool, true, false, ◌≡◌, List, [], ◌∷◌, ◌++◌, Option, none, some, ite, leb, ◌==◌, length,
  if◌then◌else◌, Text, text, text_eq,
}
use idempotency.Key.{trim}
use idempotency.Interceptor.{
  StoredResponse, StoredPayload, plain, sealed, sealed_other, Opened, opened, unreadable, threw,
  Codec,
}

abbrev Bytes : Type 0
Bytes = List ℕ

pub record Crypto : Type 0 where
  -- AES-256-GCM: the ciphertext and the tag.
  pub encrypt : (key iv aad plaintext : List ℕ) → List ℕ × List ℕ
  pub decrypt : (key iv aad ciphertext tag : List ℕ) → Option (List ℕ)
  pub hkdf : Text → List ℕ
  -- The first 8 characters of the base64url of a key's SHA-256.
  pub key_id : List ℕ → Text
  pub base64url : List ℕ → Text
  pub from_base64url : Text → List ℕ
  pub utf8 : Text → List ℕ
  pub stringify : StoredResponse → List ℕ
  pub parse : List ℕ → Option StoredResponse

pub data KeyMaterial : Type 0 where
  buffer : List ℕ → KeyMaterial
  string : Text → KeyMaterial
  other : KeyMaterial

pub record DerivedKey : Type 0 where
  pub id : Text
  pub key : List ℕ

abbrev pub version : Text
version = text "v1"

abbrev min_secret_length : ℕ
min_secret_length = 32

-- `.join('.')` and `.split('.')`.
unfoldable pub join_dots : List Text → Text
join_dots [] = []
join_dots (p ∷ []) = p
join_dots (p ∷ q ∷ ps) = p ++ b'.' ∷ join_dots (q ∷ ps)

abbrev pub onto_first : ℕ → List Text → List Text
onto_first c [] = (c ∷ []) ∷ []
onto_first c (p ∷ ps) = (c ∷ p) ∷ ps

unfoldable pub split_dots : Text → List Text
split_dots [] = [] ∷ []
split_dots (c ∷ s) = let rest = split_dots s in if c == b'.' then [] ∷ rest else onto_first c rest

-- `plaintextCodec`.
unfoldable pub open_plaintext : Text → StoredPayload → Opened
open_plaintext store_key (plain response) = opened response
open_plaintext store_key (sealed s) = unreadable
open_plaintext store_key sealed_other = unreadable

unfoldable pub plaintext_codec : Codec
unfolding open_plaintext
plaintext_codec = record {
  seal = λ random store_key response. plain response;
  open_payload = open_plaintext;
}

module _ (crypto : Crypto) where
  abbrev identified : List ℕ → DerivedKey
  identified key = record { id = crypto.key_id key; key = key }

  -- `deriveKey`; `none` is its `TypeError`.
  unfoldable pub derive_key : KeyMaterial → Option DerivedKey
  derive_key (buffer bytes) = if length bytes == 32 then some (identified bytes) else none
  derive_key (string s) =
      ite (text_eq (trim s) s)
        (if leb min_secret_length (length s) then some (identified (crypto.hkdf s)) else none) none
  derive_key other = none

  unfoldable pub derive_keys : List KeyMaterial → Option (List DerivedKey)
  derive_keys [] = some []
  derive_keys (m ∷ ms) =
      Option.bind (derive_key m) (λ k. Option.map (λ ks. k ∷ ks) (derive_keys ms))

  unfoldable pub seal_with :
      DerivedKey → (iv : List ℕ) → (store_key : Text) → StoredResponse → StoredPayload
  unfolding join_dots
  seal_with k iv store_key response =
      let box = crypto.encrypt k.key iv (crypto.utf8 store_key) (crypto.stringify response) in
      sealed (
        join_dots (
          version
          ∷ k.id
          ∷ crypto.base64url iv
          ∷ crypto.base64url box.0
          ∷ crypto.base64url box.1
          ∷ []))

  -- `this.keys.find((k) => k.id === id)`.
  unfoldable pub find_key : Text → List DerivedKey → Option DerivedKey
  find_key id [] = none
  find_key id (k ∷ ks) = ite (text_eq k.id id) (some k) (find_key id ks)

  abbrev or_unreadable : Option StoredResponse → Opened
  or_unreadable none = unreadable
  or_unreadable (some r) = opened r

  -- The `try`: every exception in it is an authentication failure.
  unfoldable pub decrypted : Text → Option DerivedKey → (iv ciphertext tag : Text) → Opened
  decrypted store_key none iv ciphertext tag = unreadable
  decrypted store_key (some k) iv ciphertext tag = or_unreadable (
      Option.bind
        (crypto.decrypt k.key (crypto.from_base64url iv) (crypto.utf8 store_key)
          (crypto.from_base64url ciphertext) (crypto.from_base64url tag))
        crypto.parse)

  -- The envelope has five segments, of this version, and a tag.
  unfoldable pub open_envelope : List DerivedKey → Text → List Text → Opened
  unfolding find_key decrypted
  open_envelope ks store_key (v ∷ id ∷ iv ∷ ciphertext ∷ (c ∷ tag) ∷ []) =
      ite (text_eq v version) (decrypted store_key (find_key id ks) iv ciphertext (c ∷ tag))
        unreadable
  open_envelope ks store_key segments = unreadable

  unfoldable pub open_with : List DerivedKey → Text → StoredPayload → Opened
  unfolding open_envelope split_dots
  open_with ks store_key (plain response) = unreadable
  open_with ks store_key sealed_other = unreadable
  open_with ks store_key (sealed s) = open_envelope ks store_key (split_dots s)

  -- `new ResponseCipher(options)`: at least one key, and every key valid.
  abbrev with_keys : Option (List DerivedKey) → Option Codec
  with_keys none = none
  with_keys (some []) = none
  with_keys (some (k ∷ ks)) =
      some (record { seal = seal_with k; open_payload = open_with (k ∷ ks) })

  unfoldable pub response_cipher : List KeyMaterial → Option Codec
  unfolding derive_keys seal_with open_with
  response_cipher materials = with_keys (derive_keys materials)
