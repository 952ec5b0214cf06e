-- ===== src/Contexts/Sites.antt =====
-- What `intercept` is given of a call: its decorators, and what its adapter says of the handler.
use idempotency.Base.{
  ◌≡◌, refl, ◌≢◌, ◌↔◌, ◌⊎◌, inl, inr, Bool, true, false, not, Option, none, some, Text, text, arith,
}
use idempotency.Options.Startup.{has}
use idempotency.Interceptor.Interception.{Site, Reach, guarded, dispatch}
use idempotency.Contexts.{Host}
use idempotency.Contexts.Http as Http
use idempotency.Contexts.Http.{HttpRequest}
use idempotency.Contexts.Http.Responses.{HttpHandler, pass_through}
use idempotency.Contexts.Graphql as Graphql
use idempotency.Contexts.Graphql.{ResolverCall}
use idempotency.Contexts.Rpc.{Message}

-- A call, by its context; `other` is one without an adapter.
pub data AnyCall : Type 0 where
  http : HttpHandler → HttpRequest → AnyCall
  graphql : ResolverCall → AnyCall
  rpc : Message → AnyCall
  other : AnyCall

with_right : {A B C D : Type 0} → (C → D) → A ⊎ (B × C) → A ⊎ (B × D)
with_right f (inl a) = inl a
with_right f (inr (b, c)) = inr (b, f c)

module _ (host : Host) where
  unfoldable pub reach : AnyCall → Option Reach
  unfolding Http.covered_by_class Graphql.covered_by_class pass_through
  reach (http h q) =
      some (record {
        covered_by_class = Http.covered_by_class host q;
        passes_through = pass_through h;
      })
  reach (graphql q) =
      some (record { covered_by_class = Graphql.covered_by_class q; passes_through = false })
  reach (rpc m) = some (record { covered_by_class = true; passes_through = false })
  reach other = none

  unfoldable pub site : (class_options handler_options : Bool) → AnyCall → Site
  unfolding reach
  site class_options handler_options call = record {
    class_options = class_options;
    handler_options = handler_options;
    adapter = reach call;
  }

  -- The calls that a decorator on the class covers.
  abbrev ChangesState : AnyCall → Type 0
  ChangesState (http h q) =
      (host.upper q.method ≢ text "GET")
      × (host.upper q.method ≢ text "HEAD")
      × (host.upper q.method ≢ text "OPTIONS")
  ChangesState (graphql q) = (m : Text) × (q.parent_type ≡ some m) × (q.mutation_type ≡ some m)
  ChangesState (rpc m) = Unit
  ChangesState other = ⊥

  abbrev is_event_stream : AnyCall → Bool
  is_event_stream (http h q) = h.sse
  is_event_stream call = false

  -- The decorator on the handler itself, or one on its class that covers the call.
  abbrev pub IsCovered : (class_options handler_options : Bool) → AnyCall → Type 0
  IsCovered class_options handler_options other = ⊥
  IsCovered class_options handler_options call =
      (is_event_stream call ≡ false)
      × ((handler_options ≡ true) ⊎ ((class_options ≡ true) × ChangesState call))

  abbrev at_reach : Bool → Bool → Bool → Bool → Site
  at_reach class_options handler_options covered passes = record {
    class_options = class_options;
    handler_options = handler_options;
    adapter = some (record { covered_by_class = covered; passes_through = passes });
  }

  dispatch_lem :
      (class_options handler_options covered passes : Bool)
      → (dispatch (at_reach class_options handler_options covered passes) ≡ guarded) ↔ (
          (passes ≡ false)
          × ((handler_options ≡ true) ⊎ ((class_options ≡ true) × (covered ≡ true))))
  unfolding dispatch
  dispatch_lem c o v p = (λ e. ground arith, λ h. ground arith)

  safe_lem :
      (s : Text)
      → (not (has s Http.safe_methods) ≡ true)
        ↔ ((s ≢ text "GET") × (s ≢ text "HEAD") × (s ≢ text "OPTIONS"))
  unfolding has
  safe_lem s =
      (λ e. ((λ h. ground arith), (λ h. ground arith), (λ h. ground arith)), λ h. ground arith)

  same_name_lem :
      (p m : Option Text)
      → (Graphql.same_name p m ≡ true) ↔ ((n : Text) × (p ≡ some n) × (m ≡ some n))
  same_name_lem none m = (λ e. absurd (ground arith), λ h. absurd (ground arith))
  same_name_lem (some p) none = (λ e. absurd (ground arith), λ h. absurd (ground arith))
  same_name_lem (some p) (some m) = (λ e. (p, refl, ground arith), λ h. ground arith)

  mutation_lem :
      (q : ResolverCall)
      → (Graphql.covered_by_class q ≡ true)
        ↔ ((m : Text) × (q.parent_type ≡ some m) × (q.mutation_type ≡ some m))
  unfolding Graphql.covered_by_class
  mutation_lem q = same_name_lem q.parent_type q.mutation_type

  -- A call is planned, and not just handled, if and only if its handler is decorated, or its class is
  -- and the call changes state: an HTTP request whose method is not GET, HEAD or OPTIONS, a field of
  -- the schema's mutation type, any message. A handler of server-sent events, and a call of another
  -- context, is never planned.
  pub guarded_calls :
      (class_options handler_options : Bool) (call : AnyCall)
      → (dispatch (site class_options handler_options call) ≡ guarded)
        ↔ IsCovered class_options handler_options call
  unfolding site reach Http.covered_by_class pass_through dispatch
  guarded_calls c o (http h q) =
      let core = dispatch_lem c o (Http.covered_by_class host q) h.sse in
      let safe = safe_lem (host.upper q.method) in
      (
        λ e. let (plain, by) = core.0 e in (plain, with_right safe.0 by),
        λ k. core.1 (k.0, with_right safe.1 k.1),
      )
  guarded_calls c o (graphql q) =
      let core = dispatch_lem c o (Graphql.covered_by_class q) false in
      let mutates = mutation_lem q in
      (
        λ e. let (plain, by) = core.0 e in (plain, with_right mutates.0 by),
        λ k. core.1 (k.0, with_right mutates.1 k.1),
      )
  guarded_calls c o (rpc m) =
      let core = dispatch_lem c o true false in
      (
        λ e. let (plain, by) = core.0 e in (plain, with_right (λ x. tt) by),
        λ k. core.1 (k.0, with_right (λ x. refl) k.1),
      )
  guarded_calls c o other = (λ e. ground arith, λ k. absurd k)
