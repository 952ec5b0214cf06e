-- ===== src/Contexts/Requests.antt =====
-- What `plan` is given of a call, by the adapter of its context and the handler's options.
use idempotency.Base.{Option, none, some, List, false, not, Text, ℕ}
use idempotency.Value.{Value}
use idempotency.Options.{
  Settings, KeySource, ScopeChoice, header, arg, payload, key_function, off, scope_function,
  scope_for, read_key,
}
use idempotency.Interceptor.{ContextType}
use idempotency.Interceptor.Worlds.{Returned, returned, Request, ScopeSetting, unset, function}
use idempotency.Interceptor.Planning.{is_none}
use idempotency.Contexts.{DeclarativeKeySource, default_source, Host}
use idempotency.Contexts.Http as Http
use idempotency.Contexts.Http.{HttpRequest}
use idempotency.Contexts.Graphql as Graphql
use idempotency.Contexts.Graphql.{ResolverCall}
use idempotency.Contexts.Rpc as Rpc
use idempotency.Contexts.Rpc.{Message}

-- What the app's functions return for the call.
pub record App (Fn : Type 0) : Type 0 where
  pub key : Fn → Returned Value
  pub scope : Fn → Returned Value
  pub fingerprint : Fn → Returned Value

module _ {Fn : Type 0} where
  -- `source ?? 'default'`; a function is called instead.
  unfoldable pub declared_source : Option (KeySource Fn) → DeclarativeKeySource
  declared_source none = default_source
  declared_source (some (header name)) = DeclarativeKeySource.header name
  declared_source (some (arg path)) = DeclarativeKeySource.arg path
  declared_source (some (payload path)) = DeclarativeKeySource.payload path
  declared_source (some (key_function f)) = default_source

  unfoldable pub scope_setting : App Fn → Option (ScopeChoice Fn) → ScopeSetting
  scope_setting app none = unset
  scope_setting app (some off) = ScopeSetting.off
  scope_setting app (some (scope_function f)) = function (app.scope f)

  abbrev selection : App Fn → Option Fn → Option (Returned Value)
  selection app none = none
  selection app (some f) = some (app.fingerprint f)

  module _ (host : Host) (app : App Fn) (settings : Settings Fn) (key_header : Text)
      (handler : Text) where
    unfoldable pub http_request : HttpRequest → Request
    unfolding read_key declared_source scope_for scope_setting Http.read_key Http.identity
        Http.unread_body
    http_request q = record {
      context = ContextType.http;
      handler = handler;
      prepared = returned tt;
      raw_key =
          read_key app.key (λ s. Http.read_key host q (declared_source s) key_header)
            settings.key_from ContextType.http;
      scope = scope_setting app (scope_for settings.scope ContextType.http);
      has_user = q.has_user;
      has_unread_body = not (is_none (Http.unread_body host q));
      identity = Http.identity host q;
      payload = q.body;
      selected = selection app settings.fingerprint;
      key_suffix = none;
    }

    -- `loaded` says whether `prepare` could load the optional peer dependency.
    unfoldable pub graphql_request : (loaded : Returned (Unit {0})) → ResolverCall → Request
    unfolding read_key declared_source scope_for scope_setting Graphql.read_key Graphql.identity
        Graphql.payload Graphql.key_suffix
    graphql_request loaded q = record {
      context = ContextType.graphql;
      handler = handler;
      prepared = loaded;
      raw_key =
          read_key app.key (λ s. Graphql.read_key host q (declared_source s) key_header)
            settings.key_from ContextType.graphql;
      scope = scope_setting app (scope_for settings.scope ContextType.graphql);
      has_user = q.has_user;
      has_unread_body = false;
      identity = Graphql.identity q;
      payload = Graphql.payload q;
      selected = selection app settings.fingerprint;
      key_suffix = some (Graphql.key_suffix q);
    }

    unfoldable pub rpc_request :
        (utf8_text : List ℕ → Text) (hash_of_bytes : List ℕ → Text)
        → (loaded : Returned (Unit {0})) → Message
        → Request
    unfolding read_key declared_source scope_for scope_setting Rpc.read_key Rpc.identity
        Rpc.key_suffix
    rpc_request utf8_text hash_of_bytes loaded m = record {
      context = ContextType.rpc;
      handler = handler;
      prepared = loaded;
      raw_key =
          read_key app.key (λ s. Rpc.read_key host utf8_text m (declared_source s) key_header)
            settings.key_from ContextType.rpc;
      scope = scope_setting app (scope_for settings.scope ContextType.rpc);
      has_user = m.has_user;
      has_unread_body = false;
      identity = Rpc.identity hash_of_bytes m;
      payload = m.content;
      selected = selection app settings.fingerprint;
      key_suffix = some (Rpc.key_suffix m);
    }
