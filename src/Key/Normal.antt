-- ===== src/Key/Normal.antt =====
-- Which keys the normalisation accepts, and that the quoted and the bare form name one record.
use mathlib.Core.List.{reverse, reverse-append, reverse-reverse}
use idempotency.Base.{
  ℕ, ◌≤◌, ◌≡◌, ◌≢◌, refl, true, false, [], ◌∷◌, ◌++◌, some, arith, All, leb, length, Text, tests,
  subst, le→leb,
}
use idempotency.Value.{Value, finite}
use idempotency.Key.{
  max_key_length, is_space, trim_start, trim, all_of, closed, unquote, is_printable, valid, checked,
  normalize_text, first_of_several, normalize_scalar, normalize_key,
}

-- A key that the package stores under: 1 to 255 printable ASCII characters.
pub record IsKey (k : Text) : Type 0 where
  pub some_length : 1 ≤ length k
  pub bounded : length k ≤ 255
  pub printable : All (λ c. (0x20 ≤ c) × (c ≤ 0x7e)) k

all_of-All : (k : Text) → all_of is_printable k ≡ true → All (λ c. (0x20 ≤ c) × (c ≤ 0x7e)) k
all_of-All [] h = tt
all_of-All (c ∷ s) h = ground (arith, all_of-All s)

checked-IsKey : (s k : Text) → checked s ≡ valid k → IsKey k
unfolding checked
checked-IsKey [] k h = cc
checked-IsKey (c ∷ s) k h =
    let parts : (leb (length (c ∷ s)) max_key_length ≡ true)
        × (all_of is_printable (c ∷ s) ≡ true)
        × ((c ∷ s) ≡ k) =
      ground arith in
    subst IsKey parts.2 (record {
      some_length = omega arith;
      bounded = omega tests;
      printable = all_of-All (c ∷ s) parts.1;
    })

normalize_scalar-IsKey : (v : Value) (k : Text) → normalize_scalar v ≡ valid k → IsKey k
unfolding normalize_scalar normalize_text
normalize_scalar-IsKey (Value.number (finite digits)) k h =
    checked-IsKey (unquote (trim digits)) k h
normalize_scalar-IsKey (Value.bigint digits) k h = checked-IsKey (unquote (trim digits)) k h
normalize_scalar-IsKey (Value.string s) k h = checked-IsKey (unquote (trim s)) k h
normalize_scalar-IsKey v k h = ground arith

-- Whatever the key source returns, a key that is accepted is 1 to 255 printable ASCII characters.
pub normalize_key-IsKey : (v : Value) (k : Text) → normalize_key v ≡ valid k → IsKey k
unfolding normalize_key
normalize_key-IsKey v k h = normalize_scalar-IsKey (first_of_several v) k h

All-all_of : (k : Text) → All (λ c. (0x20 ≤ c) × (c ≤ 0x7e)) k → all_of is_printable k ≡ true
All-all_of [] h = refl
All-all_of (c ∷ s) h = ground (arith, All-all_of s h.1)

IsKey-checked : (k : Text) → IsKey k → checked k ≡ valid k
unfolding checked
IsKey-checked [] h = absurd (omega (arith, h.some_length))
IsKey-checked (c ∷ s) h =
    ground (arith, All-all_of (c ∷ s) h.printable, le→leb (length (c ∷ s)) max_key_length h.bounded)

-- Text that begins and ends with no space is trimmed to itself.
trim_edges :
    (c d : ℕ) (s : Text)
    → is_space c ≡ false
    → is_space d ≡ false
    → trim (c ∷ (s ++ d ∷ [])) ≡ c ∷ (s ++ d ∷ [])
unfolding trim trim_start
trim_edges c d s p q =
    let turned : reverse (c ∷ (s ++ d ∷ [])) ≡ d ∷ reverse (c ∷ s) =
      reverse-append (c ∷ s) (d ∷ []) in
    ground (arith, turned, reverse-reverse (c ∷ (s ++ d ∷ [])))

closed_quote : (k : Text) → All (λ c. (0x20 ≤ c) × (c ≤ 0x7e)) k → closed (k ++ b'"' ∷ []) ≡ some k
unfolding closed
closed_quote [] h = refl
closed_quote (c ∷ []) h = ground arith
closed_quote (c ∷ d ∷ s) h = ground (arith, closed_quote (d ∷ s) h.1)

abbrev pub quoted : Text → Text
quoted k = b'"' ∷ (k ++ b'"' ∷ [])

unquote-quoted : (k : Text) → IsKey k → unquote (quoted k) ≡ k
unfolding unquote
unquote-quoted k h = rw (closed_quote k h.printable)

normalize_text-quoted : (k : Text) → IsKey k → normalize_text (quoted k) ≡ valid k
unfolding normalize_text
normalize_text-quoted k h =
    ground (arith, trim_edges b'"' b'"' k refl refl, unquote-quoted k h, IsKey-checked k h)

normalize_text-bare :
    (c d : ℕ) (s : Text)
    → IsKey (c ∷ (s ++ d ∷ []))
    → is_space c ≡ false
    → is_space d ≡ false
    → c ≢ b'"'
    → normalize_text (c ∷ (s ++ d ∷ [])) ≡ valid (c ∷ (s ++ d ∷ []))
unfolding normalize_text unquote
normalize_text-bare c d s h p q n =
    ground (arith, trim_edges c d s p q, IsKey-checked (c ∷ (s ++ d ∷ [])) h)

-- A valid key sent as a quoted string is that key; sent bare it is the same key, unless it begins
-- with a quote or begins or ends with a space (stated for keys of at least two characters).
pub quoted_and_bare :
    (c d : ℕ) (s : Text)
    → IsKey (c ∷ (s ++ d ∷ []))
    → is_space c ≡ false
    → is_space d ≡ false
    → c ≢ b'"'
    → let k = c ∷ (s ++ d ∷ []) in
      (normalize_key (Value.string (quoted k)) ≡ valid k)
      × (normalize_key (Value.string k) ≡ valid k)
unfolding normalize_key normalize_scalar first_of_several
quoted_and_bare c d s h p q n =
    (normalize_text-quoted (c ∷ (s ++ d ∷ [])) h, normalize_text-bare c d s h p q n)
