-- ===== src/Tests/Sites.antt =====
-- Calls with a decorator on the handler's class.
use idempotency.Base.{◌≡◌, ◌↔◌, refl, true, false, [], text, text_eq, none}
use idempotency.Value.{Value}
use idempotency.Options.Startup.{has}
use idempotency.Interceptor.Interception.{Dispatch, guarded, dispatch}
use idempotency.Contexts.Http as Http
use idempotency.Contexts.Http.{HttpRequest}
use idempotency.Contexts.Http.Responses.{pass_through}
use idempotency.Contexts.Sites.{AnyCall, http, site, reach, IsCovered, guarded_calls}
use idempotency.Tests.Adapters.{host, handler}

abbrev posting : AnyCall
posting = http handler (record {
  method = text "POST";
  url = text "/orders";
  headers = [];
  body = Value.null;
  has_user = false;
})

abbrev reading : AnyCall
reading = http handler (record {
  method = text "GET";
  url = text "/orders";
  headers = [];
  body = Value.undefined;
  has_user = false;
})

writes : dispatch (site host true false posting) ≡ guarded
unfolding dispatch site reach Http.covered_by_class has text_eq pass_through
writes = refl

reads : dispatch (site host true false reading) ≡ Dispatch.handles none
unfolding dispatch site reach Http.covered_by_class has text_eq pass_through
reads = refl

guarded_calls_example :
    (dispatch (site host true false posting) ≡ guarded) ↔ IsCovered host true false posting
guarded_calls_example = guarded_calls host true false posting
