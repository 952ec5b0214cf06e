-- ===== src/Contexts/Graphql/Paths.antt =====
-- Each field of an operation has a record of its own.
use idempotency.Base.{◌≡◌, refl, sym, ap, ◌∙◌, List, [], ◌∷◌, Option, none, some, subst, All, Text}
use idempotency.Encryption.{split_dots, join_dots}
use idempotency.Encryption.Opening.{HasNoDot, split-join}
use idempotency.Key.{store_key}
use idempotency.Key.Uri.Injective.{IsText}
use idempotency.Key.Unique.{IsPart, SameShape, store_key_injective}
use idempotency.Options.{Settings}
use idempotency.Interceptor.Worlds.{Returned}
use idempotency.Contexts.{Host}
use idempotency.Contexts.Graphql.{
  FieldPath, root, step, path_keys, field_path, key_suffix, ResolverCall,
}
use idempotency.Contexts.Requests.{App, graphql_request}

-- GraphQL names and indices have no dot.
abbrev pub HasPlainKeys : FieldPath → Type 0
HasPlainKeys root = Unit
HasPlainKeys (step key prev) = HasNoDot key × HasPlainKeys prev

-- The path along keys from a path.
extended : FieldPath → List Text → FieldPath
extended p [] = p
extended p (k ∷ ks) = extended (step k p) ks

extended-path_keys :
    (ks : List Text) (p : FieldPath) → extended root (path_keys ks p) ≡ extended p ks
unfolding extended path_keys
extended-path_keys ks root = refl
extended-path_keys ks (step key prev) = extended-path_keys (key ∷ ks) prev

path_keys-HasNoDot :
    (ks : List Text) (p : FieldPath)
    → All HasNoDot ks
    → HasPlainKeys p
    → All HasNoDot (path_keys ks p)
unfolding path_keys
path_keys-HasNoDot ks root h g = h
path_keys-HasNoDot ks (step key prev) h g = path_keys-HasNoDot (key ∷ ks) prev (g.0, h) g.1

path_keys-some :
    (k : Text) (ks : List Text) (p : FieldPath)
    → (l : Text) × (ls : List Text) × (path_keys (k ∷ ks) p ≡ l ∷ ls)
unfolding path_keys
path_keys-some k ks root = (k, ks, refl)
path_keys-some k ks (step key prev) = path_keys-some key (k ∷ ks) prev

split-field_path :
    (k : Text) (p : FieldPath)
    → HasPlainKeys (step k p)
    → split_dots (field_path (step k p)) ≡ path_keys [] (step k p)
unfolding field_path path_keys
split-field_path k p h =
    let (l, ls, e) = path_keys-some k [] p in
    let plain = subst (All HasNoDot) e (path_keys-HasNoDot (k ∷ []) p (h.0, tt) h.1) in
    ap (λ ks. split_dots (join_dots ks)) e ∙ split-join l ls plain ∙ sym e

field_path_injective :
    (k l : Text) (p q : FieldPath)
    → HasPlainKeys (step k p)
    → HasPlainKeys (step l q)
    → field_path (step k p) ≡ field_path (step l q)
    → step k p ≡ step l q
unfolding extended
field_path_injective k l p q h g e =
    sym (extended-path_keys [] (step k p))
    ∙ ap (extended root) (sym (split-field_path k p h) ∙ ap split_dots e ∙ split-field_path l q g)
    ∙ extended-path_keys [] (step l q)

path_injective :
    (p q : FieldPath)
    → HasPlainKeys p
    → HasPlainKeys q
    → IsPart (some (field_path p))
    → IsPart (some (field_path q))
    → field_path p ≡ field_path q
    → p ≡ q
unfolding field_path path_keys join_dots
path_injective root q h g a b e = absurd (a.0 refl)
path_injective (step k p) root h g a b e = absurd (b.0 refl)
path_injective (step k p) (step l q) h g a b e = field_path_injective k l p q h g e

module _ {Fn : Type 0} (host : Host) (app : App Fn) (settings : Settings Fn)
    (key_header handler : Text) (loaded : Returned (Unit {0})) where
  -- Two GraphQL calls that share a client's key, in one scope or both in none, are planned under the
  -- same store key only if their fields' paths are the same. The paths' keys have no dot, and all are
  -- strings of 16-bit code units.
  pub one_record_per_field :
      (q q' : ResolverCall) (scope : Option Text) (key e : Text)
      → IsPart scope
      → IsText key
      → HasPlainKeys q.path
      → HasPlainKeys q'.path
      → IsPart (graphql_request host app settings key_header handler loaded q).key_suffix
      → IsPart (graphql_request host app settings key_header handler loaded q').key_suffix
      → store_key scope key
          (graphql_request host app settings key_header handler loaded q).key_suffix
        ≡ some e
      → store_key scope key
          (graphql_request host app settings key_header handler loaded q').key_suffix
        ≡ some e
      → q.path ≡ q'.path
  unfolding graphql_request key_suffix
  one_record_per_field q q' scope key e s t h g a b here there =
      path_injective q.path q'.path h g a b (
        some_injective
          (store_key_injective scope scope key key (some (field_path q.path))
            (some (field_path q'.path)) e s s a b t t (same scope) tt here there).2)
    where
      same : (o : Option Text) → SameShape o o
      same none = tt
      same (some s) = tt

      some_injective : {x y : Text} → some x ≡ some y → x ≡ y
      some_injective {x = x} h = cc
