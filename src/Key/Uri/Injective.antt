-- ===== src/Key/Uri/Injective.antt =====
-- Encoding loses nothing, and its result holds no colon.
use mathlib.Core.List.{flat_map}
use mathlib.Core.Option
use idempotency.Base.{
  ℕ, ◌+◌, ◌-◌, ◌/◌, ◌%◌, ◌<◌, ◌≡◌, ◌≢◌, refl, sym, ap, ◌∙◌, inl, inr, Bool-cases, ◌⊎◌, true, false,
  List, [], ◌∷◌, ◌++◌, none, some, arith, All, ltb, if◌then◌else◌, Text,
}
use idempotency.Key.Uri.{
  is_unreserved, hex, escape, utf8, points, is_high, is_low, paired, encode_uri_component,
}

-- Nothing that `f` writes is the beginning of what it writes for another value.
abbrev IsPrefixCode : (ℕ → Type 0) → (ℕ → List ℕ) → Type 0
IsPrefixCode Ok f =
    (a b : ℕ) (x y : List ℕ) → Ok a → Ok b → (f a ++ x) ≡ (f b ++ y) → (a ≡ b) × (x ≡ y)

hex_injective : (m n : ℕ) → m < 16 → n < 16 → hex m ≡ hex n → m ≡ n
hex_injective m n h k e = ground arith

percent_is_reserved : is_unreserved b'%' ≡ false
unfolding is_unreserved
percent_is_reserved = refl

colon_is_reserved : is_unreserved b':' ≡ false
unfolding is_unreserved
colon_is_reserved = refl

escape-IsPrefixCode : IsPrefixCode (λ b. b < 256) escape
unfolding escape
escape-IsPrefixCode a b x y h k e = ground (
  arith,
  percent_is_reserved,
  ap is_unreserved {x = a} {y = b'%'},
  ap is_unreserved {x = b} {y = b'%'},
  hex_injective (a / 16) (b / 16),
  hex_injective (a % 16) (b % 16),
)

utf8-IsPrefixCode : IsPrefixCode (λ p. p < 0x110000) utf8
unfolding utf8
utf8-IsPrefixCode a b x y h k e = ground arith

utf8-bytes : (p : ℕ) → p < 0x110000 → All (λ b. b < 256) (utf8 p)
unfolding utf8
utf8-bytes p h = ground arith

append-left_nil : (xs ys : List ℕ) → (xs ++ ys) ≡ [] → xs ≡ []
append-left_nil [] ys e = refl
append-left_nil (x ∷ xs) ys e = cc

none-ne-some : {A : Type 0} {a : A} → none ≡ some a → ⊥
none-ne-some e = cc

-- A prefix code without empty words is injective on sequences.
module _ (Ok : ℕ → Type 0) (f : ℕ → List ℕ) (code : IsPrefixCode Ok f)
    (nonempty : (a : ℕ) → f a ≢ []) where
  flat_map_injective :
      (xs ys : List ℕ) → All Ok xs → All Ok ys → flat_map f xs ≡ flat_map f ys → xs ≡ ys
  unfolding flat_map
  flat_map_injective [] [] h k e = refl
  flat_map_injective [] (y ∷ ys) h k e = absurd (nonempty y (append-left_nil (f y) _ (sym e)))
  flat_map_injective (x ∷ xs) [] h k e = absurd (nonempty x (append-left_nil (f x) _ e))
  flat_map_injective (x ∷ xs) (y ∷ ys) h k e =
      let same = code x y (flat_map f xs) (flat_map f ys) h.0 k.0 e in
      cc (same.0, flat_map_injective xs ys h.1 k.1 same.1)

escape-ne-nil : (b : ℕ) → escape b ≢ []
unfolding escape
escape-ne-nil b = ground arith

utf8-ne-nil : (p : ℕ) → utf8 p ≢ []
unfolding utf8
utf8-ne-nil p = ground arith

-- The code units of a point.
units : ℕ → Text
units p =
    if ltb p 0x10000
    then p ∷ []
    else (0xd800 + (p - 0x10000) / 0x400) ∷ (0xdc00 + (p - 0x10000) % 0x400) ∷ []

-- A string's code units are 16 bits.
abbrev pub IsText : Text → Type 0
IsText = All (λ c. c < 0x10000)

units_single : (c : ℕ) → c < 0x10000 → (units c ≡ c ∷ []) × (c < 0x110000)
unfolding units
units_single c h = ground arith

units-paired :
    (c d : ℕ)
    → is_high c ≡ true
    → is_low d ≡ true
    → (units (paired c d) ≡ c ∷ d ∷ []) × (paired c d < 0x110000)
unfolding units
units-paired c d h k = ground arith

-- What `points` made of the first two code units.
points_cases :
    (c d : ℕ) (s : Text) (ps : List ℕ)
    → points (c ∷ d ∷ s) ≡ some ps
    → ((is_high c ≡ true)
        × (is_low d ≡ true)
        × (Option.map (λ qs. paired c d ∷ qs) (points s) ≡ some ps))
      ⊎ (Option.map (λ qs. c ∷ qs) (points (d ∷ s)) ≡ some ps)
unfolding points
points_cases c d s ps e = elim (Bool-cases (is_low c)) [
  | inl p ↦ absurd (ground arith)
  | inr p ↦ elim (Bool-cases (is_high c)) [
    | inr q ↦ inr (rw (p, q) at e)
    | inl q ↦ elim (Bool-cases (is_low d)) [
      | inl r ↦ inl (q, r, rw (p, q, r) at e)
      | inr r ↦ absurd (none-ne-some (rw (p, q, r) at e))
    ]
  ]
]

-- The points of a string give it back, and are code points.
points_lem :
    (s : Text) (ps : List ℕ)
    → IsText s
    → points s ≡ some ps
    → (flat_map units ps ≡ s) × All (λ p. p < 0x110000) ps
unfolding flat_map
points_lem [] ps h e = unfold points in ground arith
points_lem (c ∷ []) ps h e = unfold points in ground (arith, units_single c h.0)
points_lem (c ∷ d ∷ s) ps h e = elim (points_cases c d s ps e) [
  | inl (p, q, f) ↦
      let (qs, found, same) = (Option.map-eq-some_iff _ _).0 f in
      let ih = points_lem s qs h.1.1 found in
      rw (← same) (rw ((units-paired c d p q).0, ih.0) refl, ((units-paired c d p q).1, ih.1))
  | inr f ↦
      let (qs, found, same) = (Option.map-eq-some_iff _ _).0 f in
      let ih = points_lem (d ∷ s) qs h.1 found in
      rw (← same) (rw ((units_single c h.0).0, ih.0) refl, ((units_single c h.0).1, ih.1))
]

hex-ne-colon : (n : ℕ) → n < 16 → hex n ≢ b':'
hex-ne-colon n h = ground arith

escape-ne-colon : (b : ℕ) → b < 256 → All (λ c. c ≢ b':') (escape b)
unfolding escape
escape-ne-colon b h = ground (
  arith,
  colon_is_reserved,
  ap is_unreserved {x = b} {y = b':'},
  hex-ne-colon (b / 16),
  hex-ne-colon (b % 16),
)

All-append {κ} : (P : ℕ → Type κ) (xs ys : List ℕ) → All P xs → All P ys → All P (xs ++ ys)
All-append P [] ys h k = k
All-append P (x ∷ xs) ys h k = (h.0, All-append P xs ys h.1 k)

All-flat_map {ι κ} :
    (P : ℕ → Type ι) (Q : ℕ → Type κ) (f : ℕ → List ℕ)
    → ((a : ℕ) → P a → All Q (f a))
    → (xs : List ℕ) → All P xs
    → All Q (flat_map f xs)
unfolding flat_map
All-flat_map P Q f step [] h = tt
All-flat_map P Q f step (x ∷ xs) h =
    All-append Q (f x) (flat_map f xs) (step x h.0) (All-flat_map P Q f step xs h.1)

-- Distinct strings have distinct encodings.
pub encode_uri_component_injective :
    (s t e : Text)
    → IsText s
    → IsText t
    → encode_uri_component s ≡ some e
    → encode_uri_component t ≡ some e
    → s ≡ t
unfolding encode_uri_component
encode_uri_component_injective s t e hs ht es et =
    let (ps, p, pe) = (Option.map-eq-some_iff _ _).0 es in
    let (qs, q, qe) = (Option.map-eq-some_iff _ _).0 et in
    let sp = points_lem s ps hs p in
    let tq = points_lem t qs ht q in
    let bytes =
      flat_map_injective (λ b. b < 256) escape escape-IsPrefixCode escape-ne-nil (flat_map utf8 ps)
        (flat_map utf8 qs) (All-flat_map _ (λ b. b < 256) utf8 utf8-bytes ps sp.1)
        (All-flat_map _ (λ b. b < 256) utf8 utf8-bytes qs tq.1) (pe ∙ sym qe) in
    let same =
      flat_map_injective (λ p. p < 0x110000) utf8 utf8-IsPrefixCode utf8-ne-nil ps qs sp.1 tq.1
        bytes in
    sym sp.0 ∙ ap (flat_map units) same ∙ tq.0

-- An encoding holds no colon.
pub encode_uri_component-ne-colon :
    (s e : Text) → IsText s → encode_uri_component s ≡ some e → All (λ c. c ≢ b':') e
unfolding encode_uri_component
encode_uri_component-ne-colon s e hs es =
    let (ps, p, pe) = (Option.map-eq-some_iff _ _).0 es in
    rw (← pe) (
      All-flat_map (λ b. b < 256) _ escape escape-ne-colon _
        (All-flat_map (λ p. p < 0x110000) (λ b. b < 256) utf8 utf8-bytes ps
          (points_lem s ps hs p).1))
