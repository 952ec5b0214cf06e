-- ===== src/Interceptor/Planning/Asking.antt =====
-- Which call a request asks the lock for, and under which fingerprint: a function of the request
-- alone, so that a retry asks for the same.
use mathlib.Core.Option
use idempotency.Base.{ℕ, ◌≡◌, ◌&&◌, List, Option, none, some, arith, Text}
use idempotency.Value.{Value}
use idempotency.Key.{
  KeyResult, missing, invalid, valid, normalize_key, ScopeResult, global, scoped, refused,
  normalize_scope, store_key,
}
use idempotency.Store.{Store}
use idempotency.Interceptor.{StoredPayload, Codec, Resolved, Call}
use idempotency.Interceptor.Worlds.{
  Returned, returned, thrown, Request, World, Timing, warn_if, unread_body, unscoped,
}
use idempotency.Interceptor.Planning.{
  plan, when_prepared, with_raw_key, with_key, with_inputs, with_normal_scope, with_scope,
  take_lock, both, raw_scope, or_payload, call_of, fingerprint_of, is_none, is_unset,
}

-- The warnings given on the way.
abbrev pub warned : {S : Type 0} → Request → World S → World S
warned q w =
    warn_if (is_none q.selected && q.has_unread_body) unread_body
      (warn_if (is_unset q.scope && q.has_user) unscoped w)

pub warned-store : {S : Type 0} (q : Request) (w : World S) → (warned q w).store ≡ w.store
warned-store q w = ground arith

module _ (store : Store StoredPayload) (codec : Codec)
    (hash_of_bytes hash_hex : List ℕ → Text) where
  named : Request → Text → Value → Option Text → Option (Call × Text)
  named q key selected scope =
      Option.map
        (λ name. (
          call_of store codec hash_of_bytes hash_hex q key scope name,
          fingerprint_of store codec hash_of_bytes hash_hex scope q selected,
        ))
        (store_key scope key q.key_suffix)

  by_scope : Request → Text → Value → ScopeResult → Option (Call × Text)
  by_scope q key selected global = named q key selected none
  by_scope q key selected (scoped s) = named q key selected (some s)
  by_scope q key selected refused = none

  by_inputs : Request → Text → Returned (Value × Value) → Option (Call × Text)
  by_inputs q key thrown = none
  by_inputs q key (returned (raw, selected)) = by_scope q key selected (normalize_scope raw)

  keyed : Request → KeyResult → Option (Call × Text)
  keyed q missing = none
  keyed q invalid = none
  keyed q (valid key) = by_inputs q key (both (raw_scope q.scope) (or_payload q.selected q.payload))

  raw_keyed : Request → Returned Value → Option (Call × Text)
  raw_keyed q thrown = none
  raw_keyed q (returned raw) = keyed q (normalize_key raw)

  when_ready : Request → Returned (Unit {0}) → Option (Call × Text)
  when_ready q thrown = none
  when_ready q (returned u) = raw_keyed q q.raw_key

  unfoldable pub asks : Request → Option (Call × Text)
  unfolding when_ready raw_keyed keyed by_inputs by_scope named
  asks q = when_ready q q.prepared

  module _ (o : Resolved) (t : Timing) (owner : Text) (w : World store.State) (c : Call)
      (fp : Text) where
    named_lem :
        (w' : World store.State) (q : Request) (key : Text) (selected : Value) (scope : Option Text)
        → named q key selected scope ≡ some (c, fp)
        → with_scope store codec hash_of_bytes hash_hex o t owner w' q key selected scope
          ≡ take_lock store codec hash_of_bytes hash_hex o t w' c owner fp
    unfolding with_scope named
    named_lem w' q key selected scope e = ground arith

    by_scope_lem :
        (w' : World store.State) (q : Request) (key : Text) (selected : Value) (s : ScopeResult)
        → by_scope q key selected s ≡ some (c, fp)
        → with_normal_scope store codec hash_of_bytes hash_hex o t owner w' q key selected s
          ≡ take_lock store codec hash_of_bytes hash_hex o t w' c owner fp
    unfolding with_normal_scope by_scope
    by_scope_lem w' q key selected global e = named_lem w' q key selected none e
    by_scope_lem w' q key selected (scoped s) e = named_lem w' q key selected (some s) e
    by_scope_lem w' q key selected refused e = absurd (ground arith)

    by_inputs_lem :
        (w' : World store.State) (q : Request) (key : Text) (r : Returned (Value × Value))
        → by_inputs q key r ≡ some (c, fp)
        → with_inputs store codec hash_of_bytes hash_hex o t owner w' q key r
          ≡ take_lock store codec hash_of_bytes hash_hex o t w' c owner fp
    unfolding with_inputs by_inputs
    by_inputs_lem w' q key thrown e = absurd (ground arith)
    by_inputs_lem w' q key (returned (raw, selected)) e =
        by_scope_lem w' q key selected (normalize_scope raw) e

    keyed_lem :
        (q : Request) (k : KeyResult)
        → keyed q k ≡ some (c, fp)
        → with_key store codec hash_of_bytes hash_hex o t owner w q k
          ≡ take_lock store codec hash_of_bytes hash_hex o t (warned q w) c owner fp
    unfolding with_key keyed
    keyed_lem q missing e = absurd (ground arith)
    keyed_lem q invalid e = absurd (ground arith)
    keyed_lem q (valid key) e = by_inputs_lem (warned q w) q key _ e

    raw_keyed_lem :
        (q : Request) (r : Returned Value)
        → raw_keyed q r ≡ some (c, fp)
        → with_raw_key store codec hash_of_bytes hash_hex o t owner w q r
          ≡ take_lock store codec hash_of_bytes hash_hex o t (warned q w) c owner fp
    unfolding with_raw_key raw_keyed
    raw_keyed_lem q thrown e = absurd (ground arith)
    raw_keyed_lem q (returned raw) e = keyed_lem q (normalize_key raw) e

    when_ready_lem :
        (q : Request) (r : Returned (Unit {0}))
        → when_ready q r ≡ some (c, fp)
        → when_prepared store codec hash_of_bytes hash_hex o t owner w q r
          ≡ take_lock store codec hash_of_bytes hash_hex o t (warned q w) c owner fp
    unfolding when_prepared when_ready
    when_ready_lem q thrown e = absurd (ground arith)
    when_ready_lem q (returned u) e = raw_keyed_lem q q.raw_key e

    -- A request that asks for a lock is settled by `acquire()`.
    pub plan-asks :
        (q : Request)
        → asks q ≡ some (c, fp)
        → plan store codec hash_of_bytes hash_hex o t owner w q
          ≡ take_lock store codec hash_of_bytes hash_hex o t (warned q w) c owner fp
    unfolding plan asks
    plan-asks q e = when_ready_lem q q.prepared e
