-- ===== src/Interceptor/Interception.antt =====
-- `intercept`: which calls are planned at all, and what becomes of a plan. A subscription to the
-- observable is a state machine of its two inputs, in any order: the plan ends, and the caller leaves
-- (unsubscribes).
pub mod Leaving
pub mod Globals
use idempotency.Base.{
  ℕ, Bool, true, false, not, ◌&&◌, List, [], ◌∷◌, Option, none, some, if◌then◌else◌, Text,
}
use idempotency.Store.{Store}
use idempotency.Interceptor.{
  StoredResponse, StoredPayload, Call, passthrough, execute, replay, Plan, Reply, ask,
}
use idempotency.Interceptor.Worlds.{World, Planned, planned, failure, Failure}

-- What the adapter of the call's context says of the handler.
pub record Reach : Type 0 where
  pub covered_by_class : Bool
  pub passes_through : Bool

-- A call: which decorators there are, and its adapter if its context has one.
pub record Site : Type 0 where
  pub class_options : Bool
  pub handler_options : Bool
  pub adapter : Option Reach

-- Why `@Idempotent()` has no effect, as it warns.
pub data Ineffective : Type 0 where
  unsupported pass_through : Ineffective

pub data Dispatch : Type 0 where
  -- `next.handle()`.
  handles : (warning : Option Ineffective) → Dispatch
  guarded : Dispatch

abbrev by_adapter : (handler_options : Bool) → Option Reach → Dispatch
by_adapter own none = handles (some unsupported)
by_adapter own (some r) =
    if not own && not r.covered_by_class
    then handles none
    else if r.passes_through
    then handles (some pass_through)
    else guarded

unfoldable pub dispatch : Site → Dispatch
dispatch s =
    if not s.class_options && not s.handler_options
    then handles none
    else by_adapter s.handler_options s.adapter

-- `run`: what a plan starts, or the error that the caller gets.
pub data Reaction : Type 0 where
  handles : Reaction
  replays : Call → StoredResponse → Reaction
  executes : Call → (owner : Text) → Reaction
  raises : Failure → Reaction

unfoldable pub react : Planned → Reaction
react (planned passthrough) = handles
react (planned (replay c r)) = replays c r
react (planned (execute c owner)) = executes c owner
react (failure f) = raises f

-- `waiting` for the plan; `closed` once the caller has left, and `stopped` what it left with it.
pub record Subscription (S : Type 0) : Type 0 where
  pub waiting : Bool
  pub closed : Bool
  pub reaction : Option Reaction
  pub stopped : Bool
  pub world : World S

pub data Step : Type 0 where
  plan_ends : Planned → (now : ℕ) → (releasing : Reply) → Step
  caller_leaves : Step

-- Whether there is an `inner` to unsubscribe from.
abbrev is_started : Option Reaction → Bool
is_started none = false
is_started (some (raises f)) = false
is_started (some r) = true

module _ (store : Store StoredPayload) where
  open store use {State}

  unfoldable pub subscribe : World State → Subscription State
  subscribe w = record {
    waiting = true;
    closed = false;
    reaction = none;
    stopped = false;
    world = w;
  }

  -- The plan of a caller that has left: its lock is released.
  unfoldable pub cancel : ℕ → Reply → World State → Planned → World State
  unfolding ask
  cancel now releasing w (planned (execute c owner)) = record w {
    store = (ask releasing (λ s. store.release s now c.store_key owner) w.store).0;
  }
  cancel now releasing w p = w

  unfoldable pub step : Subscription State → Step → Subscription State
  unfolding cancel react
  step a (plan_ends p now releasing) =
      if not a.waiting
      then a
      else if a.closed
      then record a { waiting = false; world = cancel now releasing a.world p }
      else record a { waiting = false; reaction = some (react p) }
  step a caller_leaves =
      if a.closed then a else record a { closed = true; stopped = is_started a.reaction }

  unfoldable pub run : Subscription State → List Step → Subscription State
  unfolding step
  run a [] = a
  run a (x ∷ xs) = run (step a x) xs

-- `onApplicationBootstrap`: the global interceptors, in the order of their registration.
pub data Global : Type 0 where
  itself class_serializer other : Global

pub data Startup : Type 0 where
  starts warns refuses : Startup

-- The interceptors before this one; `none` if it isn't among them.
unfoldable pub outside : List Global → Option (List Global)
outside [] = none
outside (itself ∷ l) = some []
outside (g ∷ l) = elim (outside l) [ none ↦ none | some gs ↦ some (g ∷ gs) ]

unfoldable pub serializes : List Global → Bool
serializes [] = false
serializes (class_serializer ∷ l) = true
serializes (g ∷ l) = serializes l

unfoldable pub on_application_bootstrap : List Global → Startup
unfolding outside serializes
on_application_bootstrap l = elim (outside l) [
  | none ↦ starts
  | some [] ↦ starts
  | some (g ∷ gs) ↦ if serializes (g ∷ gs) then refuses else warns
]
