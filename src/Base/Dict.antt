-- ===== src/Base/Dict.antt =====
-- A JavaScript `Map` with string keys: its entries in insertion order, each key once.
use idempotency.Base.Words.{Text, text_eq}
use mathlib.Core.Path.{◌≡◌, refl}
use mathlib.Core.Logic.{ite, ◌≢◌}
use mathlib.Core.Option.{Option, none, some}
use mathlib.Core.List.{List, [], ◌∷◌}
use native.Mathlib.Omega.{arith}
use idempotency.Base.Lists.{All}

module _ {ℓ} {V : Type ℓ} where
  unfoldable pub get : Text → List (Text × V) → Option V
  get k [] = none
  get k ((j, v) ∷ m) = ite (text_eq j k) (some v) (get k m)

  -- A new key goes to the end; an old one keeps its place.
  unfoldable pub set : Text → V → List (Text × V) → List (Text × V)
  set k v [] = (k, v) ∷ []
  set k v ((j, w) ∷ m) = ite (text_eq j k) ((j, v) ∷ m) ((j, w) ∷ set k v m)

  unfoldable pub delete : Text → List (Text × V) → List (Text × V)
  delete k [] = []
  delete k ((j, w) ∷ m) = ite (text_eq j k) (delete k m) ((j, w) ∷ delete k m)

  pub get-set :
      (k j : Text) (v : V) (m : List (Text × V))
      → get j (set k v m) ≡ ite (text_eq k j) (some v) (get j m)
  unfolding get set
  get-set k j v [] = refl
  get-set k j v ((i, w) ∷ m) = ground (arith, get-set k j v m)

  pub get-delete :
      (k j : Text) (m : List (Text × V)) → get j (delete k m) ≡ ite (text_eq k j) none (get j m)
  unfolding get delete
  get-delete k j [] = ground arith
  get-delete k j ((i, w) ∷ m) = ground (arith, get-delete k j m)

  abbrev pub IsFresh : Text → List (Text × V) → Type 0
  IsFresh k m = All (λ e. e.0 ≢ k) m

  -- No key twice.
  abbrev pub IsMap : List (Text × V) → Type 0
  IsMap [] = Unit
  IsMap ((k, v) ∷ m) = IsFresh k m × IsMap m

  set-IsFresh :
      (k j : Text) (v : V) (m : List (Text × V)) → k ≢ j → IsFresh j m → IsFresh j (set k v m)
  unfolding set
  set-IsFresh k j v [] ne h = (ne, tt)
  set-IsFresh k j v ((i, w) ∷ m) ne h = ground (arith, set-IsFresh k j v m ne h.1)

  pub set-IsMap : (k : Text) (v : V) (m : List (Text × V)) → IsMap m → IsMap (set k v m)
  unfolding set
  set-IsMap k v [] h = (tt, tt)
  set-IsMap k v ((j, w) ∷ m) h =
      ground (arith, set-IsMap k v m h.1, λ (ne : k ≢ j). set-IsFresh k j v m ne h.0)

  delete-IsFresh : (k j : Text) (m : List (Text × V)) → IsFresh j m → IsFresh j (delete k m)
  unfolding delete
  delete-IsFresh k j [] h = tt
  delete-IsFresh k j ((i, w) ∷ m) h = ground (arith, delete-IsFresh k j m h.1)

  pub delete-IsMap : (k : Text) (m : List (Text × V)) → IsMap m → IsMap (delete k m)
  unfolding delete
  delete-IsMap k [] h = tt
  delete-IsMap k ((j, w) ∷ m) h = ground (arith, delete-IsMap k m h.1, delete-IsFresh k j m h.0)

  pub get-IsFresh : (k : Text) (m : List (Text × V)) → IsFresh k m → get k m ≡ none
  unfolding get
  get-IsFresh k [] h = refl
  get-IsFresh k ((j, w) ∷ m) h = ground (arith, get-IsFresh k m h.1)
