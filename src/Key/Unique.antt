-- ===== src/Key/Unique.antt =====
-- Which calls share a store key.
use mathlib.Core.Option
use idempotency.Base.{
  ◌≡◌, ◌≢◌, refl, sym, ap, ◌∙◌, subst, List, [], ◌∷◌, ◌++◌, Option, none, some, arith, All, Text,
}
use idempotency.Key.Uri.{encode_uri_component}
use idempotency.Key.Uri.Injective.{
  IsText, encode_uri_component_injective, encode_uri_component-ne-colon,
}
use idempotency.Key.{parts, encoded, join, store_key}

abbrev pub IsPlain : Text → Type 0
IsPlain = All (λ c. c ≢ b':')

-- Up to the first colon.
pub split_at_colon :
    (x y u v : Text) → IsPlain x → IsPlain y → (x ++ b':' ∷ u) ≡ (y ++ b':' ∷ v) → (x ≡ y) × (u ≡ v)
split_at_colon [] [] u v h k e = (refl, cc)
split_at_colon [] (d ∷ y) u v h k e = absurd (ground arith)
split_at_colon (c ∷ x) [] u v h k e = absurd (ground arith)
split_at_colon (c ∷ x) (d ∷ y) u v h k e =
    let same = split_at_colon x y u v h.1 k.1 (cc) in (ground (arith, same), same.1)

not_plain : (x y u : Text) → IsPlain x → x ≡ (y ++ b':' ∷ u) → ⊥
not_plain [] [] u h e = cc
not_plain [] (d ∷ y) u h e = cc
not_plain (c ∷ x) [] u h e = ground arith
not_plain (c ∷ x) (d ∷ y) u h e = not_plain x y u h.1 (cc)

join_injective :
    (p q : Text) (ps qs : List Text)
    → All IsPlain (p ∷ ps)
    → All IsPlain (q ∷ qs)
    → join (p ∷ ps) ≡ join (q ∷ qs)
    → (p ∷ ps) ≡ (q ∷ qs)
unfolding join
join_injective p q [] [] h k e = cc
join_injective p q [] (y ∷ qs) h k e = absurd (not_plain p q _ h.0 e)
join_injective p q (x ∷ ps) [] h k e = absurd (not_plain q p _ k.0 (sym e))
join_injective p q (x ∷ ps) (y ∷ qs) h k e =
    let same = split_at_colon p q (join (x ∷ ps)) (join (y ∷ qs)) h.0 k.0 e in
    cc (same.0, join_injective x y ps qs h.1 k.1 same.1)

encoded_cons :
    (p : Text) (ps es : List Text)
    → encoded (p ∷ ps) ≡ some es
    → (x : Text) × (xs : List Text) × (encode_uri_component p ≡ some x)
      × (encoded ps ≡ some xs)
      × ((x ∷ xs) ≡ es)
unfolding encoded
encoded_cons p ps es e =
    let (x, found, rest) = (Option.bind-eq-some_iff _ _).0 e in
    let (xs, more, same) = (Option.map-eq-some_iff _ _).0 rest in (x, xs, found, more, same)

encoded_injective :
    (ps qs es : List Text)
    → All IsText ps
    → All IsText qs
    → encoded ps ≡ some es
    → encoded qs ≡ some es
    → ps ≡ qs
encoded_injective [] [] es h k e f = refl
encoded_injective [] (q ∷ qs) es h k e f =
    let (y, ys, _, _, same) = encoded_cons q qs es f in
    absurd (unfold encoded in (ground (arith, same)))
encoded_injective (p ∷ ps) [] es h k e f =
    let (x, xs, _, _, same) = encoded_cons p ps es e in
    absurd (unfold encoded in (ground (arith, same)))
encoded_injective (p ∷ ps) (q ∷ qs) es h k e f =
    let (x, xs, ex, exs, same) = encoded_cons p ps es e in
    let (y, ys, ey, eys, also) = encoded_cons q qs es f in
    let both : (x ∷ xs) ≡ y ∷ ys = same ∙ sym also in
    let head : x ≡ y = cc in
    let tail : xs ≡ ys = cc in
    cc (
      encode_uri_component_injective p q x h.0 k.0 ex (ey ∙ ap some (sym head)),
      encoded_injective ps qs xs h.1 k.1 exs (eys ∙ ap some (sym tail)),
    )

encoded-IsPlain : (ps es : List Text) → All IsText ps → encoded ps ≡ some es → All IsPlain es
encoded-IsPlain [] es h e = unfold encoded in ground arith
encoded-IsPlain (p ∷ ps) es h e =
    let (x, xs, ex, exs, same) = encoded_cons p ps es e in
    subst (All IsPlain) same
      (encode_uri_component-ne-colon p x h.0 ex, encoded-IsPlain ps xs h.1 exs)

joined_injective :
    (ps qs : List Text) {k : Text}
    → (ps ≢ [])
    → (qs ≢ [])
    → All IsText ps
    → All IsText qs
    → Option.map join (encoded ps) ≡ some k
    → Option.map join (encoded qs) ≡ some k
    → ps ≡ qs
joined_injective [] qs n m h g e f = absurd (n refl)
joined_injective (p ∷ ps) [] n m h g e f = absurd (m refl)
joined_injective (p ∷ ps) (q ∷ qs) n m h g e f =
    let (es, ee, je) = (Option.map-eq-some_iff _ _).0 e in
    let (fs, fe, jf) = (Option.map-eq-some_iff _ _).0 f in
    let (x, xs, _, _, same) = encoded_cons p ps es ee in
    let (y, ys, _, _, also) = encoded_cons q qs fs fe in
    let words = subst (All IsPlain) (sym same) (encoded-IsPlain (p ∷ ps) es h ee) in
    let others = subst (All IsPlain) (sym also) (encoded-IsPlain (q ∷ qs) fs g fe) in
    let heard =
      join_injective x y xs ys words others (ap join same ∙ je ∙ sym jf ∙ ap join (sym also)) in
    encoded_injective (p ∷ ps) (q ∷ qs) es h g ee (fe ∙ ap some (sym also ∙ sym heard ∙ same))

-- An optional part that is no empty string, of 16-bit code units.
abbrev pub IsPart : Option Text → Type 0
IsPart none = Unit
IsPart (some s) = (s ≢ []) × IsText s

-- The same parts are there.
abbrev pub SameShape : Option Text → Option Text → Type 0
SameShape none none = Unit
SameShape (some s) (some t) = Unit
SameShape _ _ = ⊥

parts-IsText :
    (scope : Option Text) (k : Text) (suffix : Option Text)
    → IsPart scope
    → IsText k
    → IsPart suffix
    → All IsText (parts scope k suffix) × (parts scope k suffix ≢ [])
unfolding parts
parts-IsText none k none a b c = (ground arith, λ e. cc)
parts-IsText none k (some []) a b c = absurd (c.0 refl)
parts-IsText none k (some (x ∷ s)) a b c = (ground arith, λ e. cc)
parts-IsText (some []) k suffix a b c = absurd (a.0 refl)
parts-IsText (some (y ∷ t)) k none a b c = (ground arith, λ e. cc)
parts-IsText (some (y ∷ t)) k (some []) a b c = absurd (c.0 refl)
parts-IsText (some (y ∷ t)) k (some (x ∷ s)) a b c = (ground arith, λ e. cc)

parts_injective :
    (s s' : Option Text) (k k' : Text) (f f' : Option Text)
    → IsPart s
    → IsPart s'
    → IsPart f
    → IsPart f'
    → SameShape s s'
    → SameShape f f'
    → parts s k f ≡ parts s' k' f'
    → (s ≡ s') × (k ≡ k') × (f ≡ f')
unfolding parts
parts_injective none none k k' none none a b c d g h e = (refl, ground arith, refl)
parts_injective none none k k' (some []) f' a b c d g h e = absurd (c.0 refl)
parts_injective none none k k' f (some []) a b c d g h e = absurd (d.0 refl)
parts_injective none none k k' (some (x ∷ t)) (some (y ∷ u)) a b c d g h e =
    (refl, ground arith, ground arith)
parts_injective (some []) s' k k' f f' a b c d g h e = absurd (a.0 refl)
parts_injective s (some []) k k' f f' a b c d g h e = absurd (b.0 refl)
parts_injective (some (v ∷ p)) (some (w ∷ q)) k k' none none a b c d g h e =
    (ground arith, ground arith, refl)
parts_injective (some (v ∷ p)) (some (w ∷ q)) k k' (some []) f' a b c d g h e = absurd (c.0 refl)
parts_injective (some (v ∷ p)) (some (w ∷ q)) k k' f (some []) a b c d g h e = absurd (d.0 refl)
parts_injective (some (v ∷ p)) (some (w ∷ q)) k k' (some (x ∷ t)) (some (y ∷ u)) a b c d g h e =
    (ground arith, ground arith, ground arith)
parts_injective s s' k k' f f' a b c d g h e = absurd (ground arith)

-- Calls of one shape (both scoped or both not, both with a suffix or both without) share a store
-- key only if scope, key and suffix are the same. Scopes and suffixes are not empty, as the
-- callers' normalisation makes them, and all three are strings of 16-bit code units.
pub store_key_injective :
    (s s' : Option Text) (k k' : Text) (f f' : Option Text) (e : Text)
    → IsPart s
    → IsPart s'
    → IsPart f
    → IsPart f'
    → IsText k
    → IsText k'
    → SameShape s s'
    → SameShape f f'
    → store_key s k f ≡ some e
    → store_key s' k' f' ≡ some e
    → (s ≡ s') × (k ≡ k') × (f ≡ f')
unfolding store_key
store_key_injective s s' k k' f f' e a b c d tk tk' g h p q =
    let here = parts-IsText s k f a tk c in
    let there = parts-IsText s' k' f' b tk' d in
    parts_injective s s' k k' f f' a b c d g h
      (joined_injective (parts s k f) (parts s' k' f') {k = e} here.1 there.1 here.0 there.0 p q)

-- Without the condition on the shape it fails: whenever a scoped key without a suffix has a store
-- key, the scope as an unscoped key with the key as its suffix has the same one.
pub store_key_collision :
    (a k : Text) → a ≢ [] → k ≢ [] → store_key (some a) k none ≡ store_key none a (some k)
unfolding store_key parts
store_key_collision [] k n m = absurd (n refl)
store_key_collision (c ∷ a) [] n m = absurd (m refl)
store_key_collision (c ∷ a) (d ∷ k) n m = refl
