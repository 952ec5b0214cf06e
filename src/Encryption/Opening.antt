-- ===== src/Encryption/Opening.antt =====
-- What a cipher opens: what one of its keys sealed for the same store key.
use mathlib.Core.Option
use idempotency.Base.{ℕ, ◌≡◌, ◌≢◌, refl, ap, ◌∙◌, List, [], ◌∷◌, ◌++◌, none, some, arith, All, Text}
use idempotency.Interceptor.{StoredResponse, opened, unreadable}
use idempotency.Encryption.{
  Crypto, DerivedKey, version, join_dots, split_dots, seal_with, find_key, decrypted, open_envelope,
  open_with,
}

abbrev pub HasNoDot : Text → Type 0
HasNoDot = All (λ c. c ≢ b'.')

split_plain : (p : Text) → HasNoDot p → split_dots p ≡ p ∷ []
unfolding split_dots
split_plain [] h = refl
split_plain (c ∷ p) h = ground (arith, split_plain p h.1)

split_first : (p s : Text) → HasNoDot p → split_dots (p ++ b'.' ∷ s) ≡ p ∷ split_dots s
unfolding split_dots
split_first [] s h = refl
split_first (c ∷ p) s h = ground (arith, split_first p s h.1)

pub split-join :
    (p : Text) (ps : List Text) → All HasNoDot (p ∷ ps) → split_dots (join_dots (p ∷ ps)) ≡ p ∷ ps
unfolding join_dots
split-join p [] h = split_plain p h.0
split-join p (q ∷ ps) h = split_first p _ h.0 ∙ ap (λ l. p ∷ l) (split-join q ps h.1)

-- What the cipher relies on: authenticated decryption undoes encryption, base64url has no dot and is
-- undone, a key's id has no dot, and a tag is not empty.
pub record Works (crypto : Crypto) : Type 0 where
  pub decrypt-encrypt :
      (key iv aad plaintext : List ℕ)
      → let box = crypto.encrypt key iv aad plaintext in
        crypto.decrypt key iv aad box.0 box.1 ≡ some plaintext
  pub base64url_undone : (b : List ℕ) → crypto.from_base64url (crypto.base64url b) ≡ b
  pub base64url-HasNoDot : (b : List ℕ) → HasNoDot (crypto.base64url b)
  pub key_id-HasNoDot : (key : List ℕ) → HasNoDot (crypto.key_id key)
  pub has_tag :
      (key iv aad plaintext : List ℕ)
      → crypto.base64url (crypto.encrypt key iv aad plaintext).1 ≢ []

module _ (crypto : Crypto) (works : Works crypto) where
  abbrev pub derived : List ℕ → DerivedKey
  derived key = record { id = crypto.key_id key; key = key }

  envelope_lem :
      (ks : List DerivedKey) (store_key id iv ct tag : Text)
      → tag ≢ []
      → open_envelope crypto ks store_key (version ∷ id ∷ iv ∷ ct ∷ tag ∷ [])
        ≡ decrypted crypto store_key (find_key crypto id ks) iv ct tag
  unfolding open_envelope
  envelope_lem ks store_key id iv ct [] n = absurd (n refl)
  envelope_lem ks store_key id iv ct (c ∷ tag) n = ground arith

  version-HasNoDot : HasNoDot version
  version-HasNoDot = omega arith

  decrypted_lem :
      (key iv : List ℕ) (store_key : Text) (r : StoredResponse)
      → crypto.parse (crypto.stringify r) ≡ some r
      → let box = crypto.encrypt key iv (crypto.utf8 store_key) (crypto.stringify r) in
        decrypted crypto store_key
          (some (derived key))
          (crypto.base64url iv)
          (crypto.base64url box.0)
          (crypto.base64url box.1)
        ≡ opened r
  unfolding decrypted Option.bind
  decrypted_lem key iv store_key r json =
      rw
        (
          works.base64url_undone, works.base64url_undone, works.base64url_undone,
          works.decrypt-encrypt,
        )
        (rw json)

  split-envelope :
      (key iv : List ℕ) (store_key : Text) (r : StoredResponse)
      → let box = crypto.encrypt key iv (crypto.utf8 store_key) (crypto.stringify r) in
        let segments =
          version
          ∷ crypto.key_id key
          ∷ crypto.base64url iv
          ∷ crypto.base64url box.0
          ∷ crypto.base64url box.1
          ∷ [] in
        split_dots (join_dots segments) ≡ segments
  split-envelope key iv store_key r =
      let box = crypto.encrypt key iv (crypto.utf8 store_key) (crypto.stringify r) in
      split-join version
        (crypto.key_id key
          ∷ crypto.base64url iv
          ∷ crypto.base64url box.0
          ∷ crypto.base64url box.1
          ∷ [])
        (
          version-HasNoDot,
          (
            works.key_id-HasNoDot key,
            (
              works.base64url-HasNoDot iv,
              (works.base64url-HasNoDot box.0, (works.base64url-HasNoDot box.1, tt)),
            ),
          ),
        )

  -- A cipher opens what any of its keys sealed for the store key, whether it seals with that key or
  -- has rotated it out, as long as no key before it in the list has the same id, and if the
  -- response survives JSON.
  pub open-seal_with :
      (ks : List DerivedKey) (key iv : List ℕ) (store_key : Text) (r : StoredResponse)
      → find_key crypto (crypto.key_id key) ks ≡ some (derived key)
      → crypto.parse (crypto.stringify r) ≡ some r
      → open_with crypto ks store_key (seal_with crypto (derived key) iv store_key r) ≡ opened r
  unfolding open_with seal_with
  open-seal_with ks key iv store_key r found json =
      let box = crypto.encrypt key iv (crypto.utf8 store_key) (crypto.stringify r) in
      ap (open_envelope crypto ks store_key) (split-envelope key iv store_key r)
      ∙ envelope_lem ks store_key _ _ _ _
          (works.has_tag key iv (crypto.utf8 store_key) (crypto.stringify r))
      ∙ ap
          (λ k.
            decrypted crypto store_key k (crypto.base64url iv) (crypto.base64url box.0)
              (crypto.base64url box.1))
          found
      ∙ decrypted_lem key iv store_key r json

  -- A record copied to another store key is unreadable there, by a cipher in which its key is the
  -- first of its id, if decryption rejects a tag made for other authenticated data.
  pub moved_is_unreadable :
      (ks : List DerivedKey) (key iv : List ℕ) (store_key elsewhere : Text) (r : StoredResponse)
      → find_key crypto (crypto.key_id key) ks ≡ some (derived key)
      → (let box = crypto.encrypt key iv (crypto.utf8 store_key) (crypto.stringify r) in
          crypto.decrypt key iv (crypto.utf8 elsewhere) box.0 box.1 ≡ none)
      → open_with crypto ks elsewhere (seal_with crypto (derived key) iv store_key r) ≡ unreadable
  unfolding open_with seal_with decrypted Option.bind
  moved_is_unreadable ks key iv store_key elsewhere r found rejects =
      let box = crypto.encrypt key iv (crypto.utf8 store_key) (crypto.stringify r) in
      ap (open_envelope crypto ks elsewhere) (split-envelope key iv store_key r)
      ∙ envelope_lem ks elsewhere _ _ _ _
          (works.has_tag key iv (crypto.utf8 store_key) (crypto.stringify r))
      ∙ ap
          (λ k.
            decrypted crypto elsewhere k (crypto.base64url iv) (crypto.base64url box.0)
              (crypto.base64url box.1))
          found
      ∙ rw (works.base64url_undone, works.base64url_undone, works.base64url_undone, rejects)
