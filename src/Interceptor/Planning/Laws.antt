-- ===== src/Interceptor/Planning/Laws.antt =====
-- How a plan ends, by cases, and how it meets the store.
use idempotency.Base.{
  ℕ, ◌≡◌, refl, ◌∙◌, inl, inr, Bool, true, false, List, Option, none, some, Text, Option-cases,
  Bool-cases,
}
use idempotency.Value.{Value}
use idempotency.Key.{
  KeyResult, missing, invalid, valid, normalize_key, ScopeResult, global, scoped, refused,
  normalize_scope, store_key,
}
use idempotency.Store.{Store}
use idempotency.Interceptor.{StoredPayload, Codec, Resolved, Call, passthrough, execute, replay}
use idempotency.Interceptor.Worlds.{
  Returned, returned, thrown, Request, World, Timing, Planned, planned, failure, exception,
  reject_early, warn_if, unread_body, unscoped,
}
use idempotency.Interceptor.Planning.{
  plan, when_prepared, with_raw_key, with_key, with_inputs, with_normal_scope, with_scope,
  take_lock,
}

-- The plan neither runs the handler under a lock nor replays.
abbrev pub IsIdle : Planned → Type 0
IsIdle (planned (execute c owner)) = ⊥
IsIdle (planned (replay c r)) = ⊥
IsIdle (planned passthrough) = Unit
IsIdle (failure f) = Unit

module _ (store : Store StoredPayload) (codec : Codec) (hash_of_bytes hash_hex : List ℕ → Text)
    (o : Resolved) (t : Timing) (owner : Text) where
  -- To prove something of a plan: of one that leaves the store alone, and of one that asks for
  -- the lock.
  module _ (P : World store.State × Planned → Type 0) (w : World store.State)
      (idle : (w' : World store.State) (p : Planned) → w'.store ≡ w.store → IsIdle p → P (w', p))
      (asks : (w' : World store.State) (c : Call) (fp : Text)
        → w'.store ≡ w.store
        → P (take_lock store codec hash_of_bytes hash_hex o t w' c owner fp)) where
    with_scope_cases :
        (w' : World store.State) (q : Request) (key : Text) (selected : Value) (scope : Option Text)
        → w'.store ≡ w.store
        → P (with_scope store codec hash_of_bytes hash_hex o t owner w' q key selected scope)
    unfolding with_scope
    with_scope_cases w' q key selected scope e =
        elim (Option-cases (store_key scope key q.key_suffix)) [
          | inl n ↦ rw (n, with_scope) (idle w' (failure exception) e tt)
          | inr (name, n) ↦ rw (n, with_scope) (asks w' _ _ e)
        ]

    with_normal_scope_cases :
        (w' : World store.State) (q : Request) (key : Text) (selected : Value) (s : ScopeResult)
        → w'.store ≡ w.store
        → P (with_normal_scope store codec hash_of_bytes hash_hex o t owner w' q key selected s)
    unfolding with_normal_scope
    with_normal_scope_cases w' q key selected global e = with_scope_cases w' q key selected none e
    with_normal_scope_cases w' q key selected (scoped s) e =
        with_scope_cases w' q key selected (some s) e
    with_normal_scope_cases w' q key selected refused e = idle w' (failure exception) e tt

    with_inputs_cases :
        (w' : World store.State) (q : Request) (key : Text) (r : Returned (Value × Value))
        → w'.store ≡ w.store
        → P (with_inputs store codec hash_of_bytes hash_hex o t owner w' q key r)
    unfolding with_inputs
    with_inputs_cases w' q key thrown e = idle w' (failure exception) e tt
    with_inputs_cases w' q key (returned (raw, selected)) e =
        with_normal_scope_cases w' q key selected (normalize_scope raw) e

    warn_if-store : (b : Bool) (x : _) (v : World store.State) → (warn_if b x v).store ≡ v.store
    warn_if-store true x v = refl
    warn_if-store false x v = refl

    with_key_cases :
        (q : Request) (k : KeyResult)
        → P (with_key store codec hash_of_bytes hash_hex o t owner w q k)
    unfolding with_key reject_early
    with_key_cases q invalid = idle _ _ refl tt
    with_key_cases q missing = elim (Bool-cases o.required) [
      | inl e ↦ rw e (idle _ _ refl tt)
      | inr e ↦ rw e (idle w (planned passthrough) refl tt)
    ]
    with_key_cases q (valid key) =
        with_inputs_cases _ q key _ (warn_if-store _ unread_body _ ∙ warn_if-store _ unscoped w)

    with_raw_key_cases :
        (q : Request) (r : Returned Value)
        → P (with_raw_key store codec hash_of_bytes hash_hex o t owner w q r)
    unfolding with_raw_key
    with_raw_key_cases q thrown = idle w (failure exception) refl tt
    with_raw_key_cases q (returned raw) = with_key_cases q (normalize_key raw)

    when_prepared_cases :
        (q : Request) (r : Returned (Unit {0}))
        → P (when_prepared store codec hash_of_bytes hash_hex o t owner w q r)
    unfolding when_prepared
    when_prepared_cases q thrown = idle w (failure exception) refl tt
    when_prepared_cases q (returned u) = with_raw_key_cases q q.raw_key

    pub plan_cases : (q : Request) → P (plan store codec hash_of_bytes hash_hex o t owner w q)
    unfolding plan
    plan_cases q = when_prepared_cases q q.prepared
