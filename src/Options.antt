-- ===== src/Options.antt =====
-- lib/interfaces/idempotent-options.interface.ts, lib/idempotency.constants.ts, and the effective
-- options of one handler: `resolve`, `definedOnly`, `scopeFor`, `sourceFor` and `readKey` of
-- lib/interceptors/idempotency.interceptor.ts. A function among the options is an element of `Fn`.
pub mod Milliseconds
pub mod Startup
pub mod Bounds
pub mod Headers
use idempotency.Base.{ℕ, Bool, true, false, Option, none, some, Text}
use idempotency.Value.{Value}
use idempotency.Interceptor.{ContextType, Resolved}
use idempotency.Interceptor.Worlds.{Returned}

abbrev pub default_ttl : ℕ
default_ttl = 86_400_000

abbrev pub default_lock_ttl : ℕ
default_lock_ttl = 60_000

abbrev pub default_max_lock_hold : ℕ
default_max_lock_hold = 3_600_000

abbrev pub default_retry_after : ℕ
default_retry_after = 1_000

module _ (Fn : Type 0) where
  -- A scope function, or `false`.
  pub data ScopeChoice : Type 0 where
    off : ScopeChoice
    scope_function : Fn → ScopeChoice

  pub data ScopeOption : Type 0 where
    one_scope : ScopeChoice → ScopeOption
    scopes : (http graphql rpc : Option ScopeChoice) → ScopeOption

  pub data KeySource : Type 0 where
    header arg payload : Text → KeySource
    key_function : Fn → KeySource

  pub data KeyFrom : Type 0 where
    one_source : KeySource → KeyFrom
    sources : (http graphql rpc : Option KeySource) → KeyFrom

  -- `storeIf`: the default is `status < 500`.
  pub data StoreIf : Type 0 where
    below_500 : StoreIf
    store_function : Fn → StoreIf

-- The duration options in milliseconds; a `none` is an option that is not set.
pub record Durations : Type 0 where
  pub ttl : Option ℕ
  pub lock_ttl : Option ℕ
  pub max_lock_hold : Option ℕ
  pub retry_after : Option ℕ
  pub store_timeout : Option ℕ

-- `IdempotentOptions`, its durations converted.
pub record Options (Fn : Type 0) : Type 0 where
  pub required : Option Bool
  pub durations : Durations
  pub key_from : Option (KeyFrom Fn)
  pub scope : Option (ScopeOption Fn)
  pub fingerprint : Option Fn
  pub store_if : Option Fn

-- What `resolve` returns: the options of `Resolved` that `plan` reads, and the rest.
pub record Settings (Fn : Type 0) : Type 0 where
  pub resolved : Resolved
  pub store_if : StoreIf Fn
  pub scope : Option (ScopeOption Fn)
  pub fingerprint : Option Fn
  pub key_from : Option (KeyFrom Fn)

module _ {ℓ} {A : Type ℓ} where
  -- A spread over another object, by one field: an undefined value does not replace.
  unfoldable pub over : Option A → Option A → Option A
  over base none = base
  over base (some a) = some a

  -- `value ?? fallback`.
  unfoldable pub or_default : Option A → A → A
  or_default none fallback = fallback
  or_default (some a) fallback = a

  -- An entry by its context type.
  unfoldable pub entry : (http graphql rpc : Option A) → ContextType → Option A
  entry h g r ContextType.http = h
  entry h g r ContextType.graphql = g
  entry h g r ContextType.rpc = r

module _ {Fn : Type 0} where
  -- A field of options that may be missing as a whole.
  unfoldable pub field {ℓ} : {A : Type ℓ} → (Options Fn → Option A) → Option (Options Fn) → Option A
  field f none = none
  field f (some options) = f options

  -- A field of the module's options, overlaid by the class's and then by the handler's.
  unfoldable pub merged {ℓ} :
      {A : Type ℓ}
      → (Options Fn → Option A)
      → Options Fn
      → (class_options handler_options : Option (Options Fn)) → Option A
  unfolding over field
  merged f defaults class_options handler_options =
      over (over (f defaults) (field f class_options)) (field f handler_options)

  unfoldable pub store_if_of : Option Fn → StoreIf Fn
  store_if_of none = StoreIf.below_500
  store_if_of (some f) = StoreIf.store_function f

  unfoldable pub resolve :
      Options Fn → (class_options handler_options : Option (Options Fn)) → Settings Fn
  unfolding merged or_default store_if_of
  resolve defaults class_options handler_options = record {
    resolved = record {
      required = or_default (merged (λ o. o.required) defaults class_options handler_options) false;
      ttl =
          or_default (merged (λ o. o.durations.ttl) defaults class_options handler_options)
            default_ttl;
      lock_ttl =
          or_default (merged (λ o. o.durations.lock_ttl) defaults class_options handler_options)
            default_lock_ttl;
      max_lock_hold =
          or_default
            (merged (λ o. o.durations.max_lock_hold) defaults class_options handler_options)
            default_max_lock_hold;
      retry_after =
          or_default (merged (λ o. o.durations.retry_after) defaults class_options handler_options)
            default_retry_after;
    };
    store_if = store_if_of (merged (λ o. o.store_if) defaults class_options handler_options);
    scope = merged (λ o. o.scope) defaults class_options handler_options;
    fingerprint = merged (λ o. o.fingerprint) defaults class_options handler_options;
    key_from = merged (λ o. o.key_from) defaults class_options handler_options;
  }

  unfoldable pub scope_for : Option (ScopeOption Fn) → ContextType → Option (ScopeChoice Fn)
  unfolding entry
  scope_for none type = none
  scope_for (some (ScopeOption.one_scope choice)) type = some choice
  scope_for (some (ScopeOption.scopes h g r)) type = entry h g r type

  unfoldable pub source_for : Option (KeyFrom Fn) → ContextType → Option (KeySource Fn)
  unfolding entry
  source_for none type = none
  source_for (some (KeyFrom.one_source source)) type = some source
  source_for (some (KeyFrom.sources h g r)) type = entry h g r type

  -- `readKey`: what the app's function returns, or what the adapter reads from a declared source
  -- (`none` is `'default'`).
  unfoldable pub read_key :
      (call : Fn → Returned Value) (read : Option (KeySource Fn) → Returned Value)
      → Option (KeyFrom Fn)
      → ContextType
      → Returned Value
  unfolding source_for
  read_key call read key_from type = elim (source_for key_from type) [
    | some (KeySource.key_function f) ↦ call f
    | source ↦ read source
  ]
