-- ===== src/Storage.antt =====
-- lib/storage/idempotency.storage.ts and `IdempotencyModule.onModuleInit` of
-- lib/idempotency.module.ts: where the app registers its store. Sources are compared by identity,
-- as the numbers of objects; the messages of the errors and the log line are left out.
pub mod Lifecycle
use idempotency.Base.{
  ℕ, Bool, true, false, not, ◌&&◌, ◌||◌, List, [], ◌∷◌, Option, none, some, if◌then◌else◌,
}

-- What may be passed as a source: no object at all, or an object that has some of the methods.
pub record Methods : Type 0 where
  pub acquire : Bool
  pub complete : Bool
  pub release : Bool
  pub extend : Bool

pub data Source : Type 0 where
  no_object : Source
  object : (identity : ℕ) → Methods → Source

-- The store in use: a registered one, or a new `InMemoryIdempotencyStore`.
pub data Active : Type 0 where
  registered_store : (identity : ℕ) → Active
  in_memory : Active

pub record Storage : Type 0 where
  pub registered : Option ℕ
  pub active : Option Active

-- `NODE_ENV === 'production'`, and the option `allowInMemoryStorage`.
pub record Environment : Type 0 where
  pub production : Bool
  pub allow_in_memory_storage : Bool

pub data StorageError : Type 0 where
  not_an_object methods_missing registered_too_late already_registered no_store_in_production :
      StorageError

pub data Result (A : Type 0) : Type 0 where
  ok : A → Result A
  err : StorageError → Result A

infixl 5 ◌>>=◌
abbrev pub ◌>>=◌ : {A B : Type 0} → Result A → (A → Result B) → Result B
ok a >>= k = k a
err e >>= k = err e

pub init : Storage
init = record { registered = none; active = none }

unfoldable pub validate : Source → Result ℕ
validate no_object = err not_an_object
validate (object identity m) =
    if m.acquire && m.complete && m.release && m.extend then ok identity else err methods_missing

-- The two checks of `registerSource` and its assignment.
unfoldable pub admit : Storage → (replace : Bool) → ℕ → Result Storage
admit s replace identity = elim s.active [
  | some a ↦ err registered_too_late
  | none ↦ elim s.registered [
    | some r ↦
        if replace then ok (record s { registered = some identity }) else err already_registered
    | none ↦ ok (record s { registered = some identity })
  ]
]

unfoldable pub register_source : Storage → Source → (replace : Bool) → Result Storage
unfolding validate admit
register_source s source replace = do identity ← validate source; admit s replace identity

abbrev choice : Option ℕ → Active
choice none = in_memory
choice (some identity) = registered_store identity

-- `[LOCK_STORAGE]()`.
unfoldable pub lock_storage : Environment → Storage → Result Storage
lock_storage env s = elim s.active [
  | some a ↦ ok s
  | none ↦ elim s.registered [
    | some r ↦ ok (record s { active = some (registered_store r) })
    | none ↦
        if env.production && not env.allow_in_memory_storage
        then err no_store_in_production
        else ok (record s { active = some in_memory })
  ]
]

abbrev or_in_memory : Option Active → Active
or_in_memory none = in_memory
or_in_memory (some a) = a

-- `get source`.
unfoldable pub source_of : Environment → Storage → Result (Storage × Active)
unfolding lock_storage
source_of env s = elim s.active [
  | some a ↦ ok (s, a)
  | none ↦ do s' ← lock_storage env s; ok (s', or_in_memory s'.active)
]

-- What the app does with the registry; an error leaves it as it was.
pub data Use : Type 0 where
  register : Source → (replace : Bool) → Use
  -- `onModuleInit`.
  initialize : Use
  read : Use

abbrev pub kept : Storage → Result Storage → Storage
kept s (ok s') = s'
kept s (err e) = s

abbrev pub kept_source : Storage → Result (Storage × Active) → Storage
kept_source s (ok r) = r.0
kept_source s (err e) = s

unfoldable pub use_storage : Environment → Storage → Use → Storage
unfolding register_source lock_storage source_of
use_storage env s (register source replace) = kept s (register_source s source replace)
use_storage env s initialize = kept s (lock_storage env s)
use_storage env s read = kept_source s (source_of env s)

unfoldable pub use_all : Environment → Storage → List Use → Storage
unfolding use_storage
use_all env s [] = s
use_all env s (u ∷ us) = use_all env (use_storage env s u) us
