-- ===== src/Fingerprint/Framing.antt =====
-- The parts of a fingerprint can't run into each other.
use idempotency.Base.{
  ℕ, zero, suc, ◌+◌, ◌-◌, ◌*◌, ◌/◌, ◌%◌, ◌<◌, ◌≡◌, ◌≢◌, refl, sym, ap, ◌∙◌, List, [], ◌∷◌, ◌++◌,
  map, arith, Text, length,
}
use mathlib.Core.List.{append_assoc}
use idempotency.Key.Unique.{IsPlain, split_at_colon}
use idempotency.Fingerprint.{decimal_from, decimal, framed, frame, utf8_bytes}

-- The number that digits stand for.
value_from : ℕ → Text → ℕ
value_from acc [] = acc
value_from acc (c ∷ s) = value_from (acc * 10 + (c - b'0')) s

value_from-append :
    (acc : ℕ) (s : Text) (c : ℕ) → value_from acc (s ++ c ∷ []) ≡ value_from acc s * 10 + (c - b'0')
unfolding value_from
value_from-append acc [] c = refl
value_from-append acc (d ∷ s) c = value_from-append (acc * 10 + (d - b'0')) s c

value-decimal_from : (fuel n : ℕ) → n < fuel → value_from 0 (decimal_from fuel n) ≡ n
unfolding decimal_from value_from
value-decimal_from zero n h = absurd (omega arith)
value-decimal_from (suc fuel) n h = ground (
  arith,
  value-decimal_from fuel (n / 10),
  value_from-append 0 (decimal_from fuel (n / 10)) (b'0' + n % 10),
)

decimal_injective : (m n : ℕ) → decimal m ≡ decimal n → m ≡ n
unfolding decimal
decimal_injective m n e =
    sym (value-decimal_from (suc m) m (omega arith))
    ∙ ap (value_from 0) e
    ∙ value-decimal_from (suc n) n (omega arith)

IsPlain-append : (s : Text) (c : ℕ) → IsPlain s → c ≢ b':' → IsPlain (s ++ c ∷ [])
IsPlain-append [] c h n = (n, tt)
IsPlain-append (d ∷ s) c h n = (h.0, IsPlain-append s c h.1 n)

decimal_from-IsPlain : (fuel n : ℕ) → IsPlain (decimal_from fuel n)
unfolding decimal_from
decimal_from-IsPlain zero n = tt
decimal_from-IsPlain (suc fuel) n = ground (
  arith,
  IsPlain-append (decimal_from fuel (n / 10)) (b'0' + n % 10) (decimal_from-IsPlain fuel (n / 10))
      (omega arith),
)

same_length_split :
    (x y u v : List ℕ) → length x ≡ length y → (x ++ u) ≡ (y ++ v) → (x ≡ y) × (u ≡ v)
same_length_split [] [] u v h e = (refl, e)
same_length_split [] (d ∷ y) u v h e = absurd (omega arith)
same_length_split (c ∷ x) [] u v h e = absurd (omega arith)
same_length_split (c ∷ x) (d ∷ y) u v h e =
    let same = same_length_split x y u v (omega arith) (cc) in (ground (arith, same), same.1)

framed_split : (x y u v : List ℕ) → (framed x ++ u) ≡ (framed y ++ v) → (x ≡ y) × (u ≡ v)
unfolding framed decimal
framed_split x y u v e =
    let lhs = append_assoc (decimal (length x)) (b':' ∷ x) u in
    let rhs = append_assoc (decimal (length y)) (b':' ∷ y) v in
    let same =
      split_at_colon (decimal (length x)) (decimal (length y)) (x ++ u) (y ++ v)
        (decimal_from-IsPlain (suc (length x)) (length x))
        (decimal_from-IsPlain (suc (length y)) (length y)) (sym lhs ∙ e ∙ rhs) in
    same_length_split x y u v (decimal_injective _ _ same.0) same.1

append_cons-ne-nil : (a : Text) (c : ℕ) (b u : Text) → ((a ++ c ∷ b) ++ u) ≢ []
append_cons-ne-nil [] c b u e = cc
append_cons-ne-nil (d ∷ a) c b u e = cc

framed-ne-nil : (x u : List ℕ) → (framed x ++ u) ≢ []
unfolding framed
framed-ne-nil x u e = append_cons-ne-nil (decimal (length x)) b':' x u e

-- Two sequences of parts are hashed as the same bytes only if they have the same parts, each by
-- its bytes.
pub frame_injective :
    (ps qs : List Text) → frame ps ≡ frame qs → map utf8_bytes ps ≡ map utf8_bytes qs
unfolding frame
frame_injective [] [] e = refl
frame_injective [] (q ∷ qs) e = absurd (framed-ne-nil (utf8_bytes q) (frame qs) (sym e))
frame_injective (p ∷ ps) [] e = absurd (framed-ne-nil (utf8_bytes p) (frame ps) e)
frame_injective (p ∷ ps) (q ∷ qs) e =
    let same = framed_split (utf8_bytes p) (utf8_bytes q) (frame ps) (frame qs) e in
    cc (same.0, frame_injective ps qs same.1)
