-- ===== src/Tests/Sealing.antt =====
-- The cipher, with primitives that keep their promises and hide nothing.
use idempotency.Base.{
  ℕ, ◌+◌, ◌-◌, ◌≡◌, refl, List, [], ◌∷◌, ◌++◌, Option, none, some, ite, if_pos, map, text, text_eq,
  arith,
}
use idempotency.Json.{Json}
use idempotency.Interceptor.{StoredResponse, opened, unreadable}
use idempotency.Encryption.{Crypto, seal_with, find_key, open_with}
use idempotency.Encryption.Opening.{HasNoDot, Works, derived, open-seal_with, moved_is_unreadable}

abbrev response_of : ℕ → StoredResponse
response_of status = record { status = status; headers = []; body = some Json.null; error = none }

abbrev parse_status : List ℕ → Option StoredResponse
parse_status (status ∷ []) = some (response_of status)
parse_status bytes = none

abbrev tag_of : (key iv aad : List ℕ) → List ℕ
tag_of key iv aad = 0 ∷ key ++ iv ++ aad

-- The tag is the authenticated data, and base64url moves each byte past the dot.
abbrev pub crypto : Crypto
crypto = record {
  encrypt = λ key iv aad plaintext. (plaintext, tag_of key iv aad);
  decrypt =
      λ key iv aad ciphertext tag. ite (text_eq tag (tag_of key iv aad)) (some ciphertext) none;
  hkdf = λ s. s;
  key_id = λ key. [];
  base64url = map (λ b. b + 47);
  from_base64url = map (λ c. c - 47);
  utf8 = λ s. s;
  stringify = λ r. r.status ∷ [];
  parse = parse_status;
}

undone : (b : List ℕ) → map (λ c. c - 47) (map (λ b. b + 47) b) ≡ b
undone [] = refl
undone (x ∷ b) = ground (arith, undone b)

moved-HasNoDot : (b : List ℕ) → HasNoDot (map (λ b. b + 47) b)
moved-HasNoDot [] = tt
moved-HasNoDot (x ∷ b) = (omega arith, moved-HasNoDot b)

works : Works crypto
works = record {
  decrypt-encrypt =
      λ key iv aad plaintext. if_pos (text_eq (tag_of key iv aad) (tag_of key iv aad)) refl _ _;
  base64url_undone = undone;
  base64url-HasNoDot = moved-HasNoDot;
  key_id-HasNoDot = λ key. tt;
  has_tag = λ key iv aad plaintext e. cc;
}

found :
    find_key crypto [] (derived crypto works (7 ∷ []) ∷ []) ≡ some (derived crypto works (7 ∷ []))
unfolding find_key text_eq
found = refl

open-seal_with_example :
    open_with crypto
      (derived crypto works (7 ∷ []) ∷ [])
      (text "k1")
      (seal_with crypto (derived crypto works (7 ∷ [])) (9 ∷ []) (text "k1") (response_of 201))
    ≡ opened (response_of 201)
open-seal_with_example =
    open-seal_with crypto works (derived crypto works (7 ∷ []) ∷ []) (7 ∷ []) (9 ∷ []) (text "k1")
      (response_of 201) found refl

other_data :
    crypto.decrypt (7 ∷ []) (9 ∷ []) (text "k2") (201 ∷ []) (tag_of (7 ∷ []) (9 ∷ []) (text "k1"))
    ≡ none
unfolding text_eq
other_data = refl

moved_is_unreadable_example :
    open_with crypto
      (derived crypto works (7 ∷ []) ∷ [])
      (text "k2")
      (seal_with crypto (derived crypto works (7 ∷ [])) (9 ∷ []) (text "k1") (response_of 201))
    ≡ unreadable
moved_is_unreadable_example =
    moved_is_unreadable crypto works (derived crypto works (7 ∷ []) ∷ []) (7 ∷ []) (9 ∷ [])
      (text "k1") (text "k2") (response_of 201) found other_data
