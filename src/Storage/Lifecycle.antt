-- ===== src/Storage/Lifecycle.antt =====
-- The registry over an app's life: one store, chosen once.
use idempotency.Base.{
  ℕ, ◌≡◌, refl, ◌⊎◌, inl, inr, Bool, true, false, not, ◌&&◌, List, [], ◌∷◌, Option, none, some,
  arith,
}
use idempotency.Storage.{
  no_object, object, Active, registered_store, in_memory, Storage, Environment,
  no_store_in_production, ok, err, source_of, Use, register, initialize, read, use_storage, use_all,
}

use-active :
    (env : Environment) (s : Storage) (u : Use) (a : Active)
    → s.active ≡ some a
    → use_storage env s u ≡ s
unfolding use_storage
use-active env s (register no_object replace) a h = ground arith
use-active env s (register (object i m) replace) a h = ground arith
use-active env s initialize a h = ground arith
use-active env s read a h = ground arith

-- Once a store is in use, nothing the app does changes the registry: no later registration, module
-- initialisation or read.
pub use_all-active :
    (env : Environment) (s : Storage) (us : List Use) (a : Active)
    → s.active ≡ some a
    → use_all env s us ≡ s
unfolding use_all
use_all-active env s [] a h = refl
use_all-active env s (u ∷ us) a h =
    ground (arith, use-active env s u a h, use_all-active env s us a h)

-- What a read of the store comes to, from the registry before it.
abbrev pub ReadsAs : Environment → Storage → Type 0
ReadsAs env s =
    ((s' : Storage) × (a : Active) × (source_of env s ≡ ok (s', a))
      × (s'.active ≡ some a)
      × (s'.registered ≡ s.registered)
      × ((s.active ≡ some a)
          ⊎ ((s.active ≡ none) × (r : ℕ) × (s.registered ≡ some r) × (a ≡ registered_store r))
          ⊎ ((s.active ≡ none)
              × (s.registered ≡ none)
              × (a ≡ in_memory)
              × (env.production && not env.allow_in_memory_storage ≡ false))))
    ⊎ ((source_of env s ≡ err no_store_in_production)
        × (s.active ≡ none)
        × (s.registered ≡ none)
        × (env.production ≡ true)
        × (env.allow_in_memory_storage ≡ false))

reads_as :
    (production allowed : Bool) (r : Option ℕ) (a : Option Active)
    → ReadsAs
        (record { production = production; allow_in_memory_storage = allowed })
        (record { registered = r; active = a })
unfolding source_of
reads_as p w r (some a) =
    inl (record { registered = r; active = some a }, a, refl, refl, refl, inl refl)
reads_as p w (some r) none = inl (
  record { registered = some r; active = some (registered_store r) },
  registered_store r,
  refl,
  refl,
  refl,
  inr (inl (refl, r, refl, refl)),
)
reads_as false w none none = inl (
  record { registered = none; active = some in_memory },
  in_memory,
  refl,
  refl,
  refl,
  inr (inr (refl, refl, refl, refl)),
)
reads_as true true none none = inl (
  record { registered = none; active = some in_memory },
  in_memory,
  refl,
  refl,
  refl,
  inr (inr (refl, refl, refl, refl)),
)
reads_as true false none none = inr (refl, refl, refl, refl, refl)

-- Reading the store gives the store in use if there is one, else the registered one, else the
-- in-memory default, and fixes it. It fails only in production, without a registered store and
-- without leave to run in memory.
pub source_of_lem : (env : Environment) (s : Storage) → ReadsAs env s
source_of_lem env s = reads_as env.production env.allow_in_memory_storage s.registered s.active
