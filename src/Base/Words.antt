-- ===== src/Base/Words.antt =====
-- A JavaScript string is the list of its UTF-16 code units.
use Prim.Native.Nat.{ℕ, ◌+◌}
use Prim.Native.Char.{code}
use Prim.Native.String.{String}
use mathlib.Core.Path.{refl}
use mathlib.Core.Bool.{Bool, true, false, ◌&&◌}
use idempotency.Base.Tests.{leb, if◌then◌else◌}
use mathlib.Core.Logic.{ite}
use mathlib.Core.List.{List, [], ◌∷◌}
use native.Mathlib.Decide.{ℕ_discrete}

abbrev pub Text : Type 0
Text = List ℕ

-- The code units of a literal (of characters below U+10000).
abbrev pub text : String → Text
text String.[] = []
text (String.◌∷◌ c s) = code c ∷ text s

unfoldable pub text_eq : Discrete Text
unfolding ℕ_discrete
text_eq [] [] = yes refl
text_eq [] (b ∷ t) = no (λ e. cc)
text_eq (a ∷ s) [] = no (λ e. cc)
text_eq (a ∷ s) (b ∷ t) = elim (ℕ_discrete a b) [
  | no n ↦ no (λ e. n (cc))
  | yes p ↦ elim (text_eq s t) [ yes q ↦ yes (cc) | no n ↦ no (λ e. n (cc)) ]
]

-- `A` to `Z` in lower case.
abbrev pub ascii_lower_unit : ℕ → ℕ
ascii_lower_unit c = if leb 65 c && leb c 90 then c + 32 else c

abbrev pub ascii_lower : Text → Text
ascii_lower [] = []
ascii_lower (c ∷ s) = ascii_lower_unit c ∷ ascii_lower s

unfoldable pub among : Text → List Text → Bool
unfolding text_eq
among t [] = false
among t (u ∷ us) = ite (text_eq t u) true (among t us)
