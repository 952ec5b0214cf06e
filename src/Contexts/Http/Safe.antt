-- ===== src/Contexts/Http/Safe.antt =====
-- Which headers a record can hold.
use idempotency.Base.{
  ◌≡◌, refl, ◌||◌, Bool, true, false, List, Option, none, some, if◌then◌else◌, All, Text, text_eq,
  ascii_lower, ℕ,
}
use idempotency.Encryption.{Crypto}
use idempotency.Value.{Value}
use idempotency.Result.{Reason, Encoding, omitted, encoded, encode_result, unreplayable_reason}
use idempotency.Options.Milliseconds.{accepted}
use idempotency.Options.Startup.{has, never_replayed_headers, Module, Configured, configure}
use idempotency.Options.Headers.{IsLower, configure-IsReplayable}
use idempotency.Interceptor.{HeaderValue}
use idempotency.Interceptor.Execution.{
  Capture, stored, not_final, unreplayable, threw_unreplayable, threw,
}
use idempotency.Contexts.{Host, StoreIf, success_record}
use idempotency.Contexts.Http.Responses.{
  HttpHandler, HttpResponse, Redirect, handler_writes_response, capture_success, capture_replayable,
  redirected, located,
}
use idempotency.Contexts.Http.Headers.{AllNamed, captured_headers-AllNamed}

module _ (host : Host) where
  abbrev IsAllowed : Text → Type 0
  IsAllowed n = has (ascii_lower n) never_replayed_headers ≡ false

  -- The headers of what is captured, if anything is.
  abbrev pub HasAllowedHeaders : Capture → Type 0
  HasAllowedHeaders (stored r) = AllNamed host IsAllowed r.headers
  HasAllowedHeaders not_final = Unit
  HasAllowedHeaders unreplayable = Unit
  HasAllowedHeaders threw_unreplayable = Unit
  HasAllowedHeaders threw = Unit

  success_record-HasAllowedHeaders :
      (status : ℕ) (hs : List (Text × HeaderValue)) (e : Encoding)
      → AllNamed host IsAllowed hs
      → HasAllowedHeaders (success_record status hs e)
  success_record-HasAllowedHeaders status hs omitted h = h
  success_record-HasAllowedHeaders status hs (encoded j) h = h
  success_record-HasAllowedHeaders status hs Encoding.unreplayable h = tt

  located-AllNamed : (url : Option Text) → AllNamed host IsAllowed (located url)
  unfolding has text_eq
  located-AllNamed none = tt
  located-AllNamed (some url) = (refl, tt)

  redirected-AllNamed :
      (r : Option Redirect) (status : ℕ) (v : Value)
      → AllNamed host IsAllowed (redirected host r status v).1
  unfolding redirected
  redirected-AllNamed none status v = tt
  redirected-AllNamed (some r) status v = located-AllNamed _

  branch :
      (b : Bool) (c d : Capture)
      → HasAllowedHeaders c
      → HasAllowedHeaders d
      → HasAllowedHeaders (if b then c else d)
  branch true c d h g = h
  branch false c d h g = g

  captured_replayable-HasAllowedHeaders :
      (names : List Text) (h : HttpHandler) (res : HttpResponse) (store_if : StoreIf) (v : Value)
      → All IsAllowed names
      → HasAllowedHeaders (capture_replayable host names h res store_if v)
  unfolding capture_replayable
  captured_replayable-HasAllowedHeaders names h res store_if v a =
      let (status, hs) = redirected host h.redirect res.status v in
      branch (store_if status none) _ not_final
        (success_record-HasAllowedHeaders status _ (encode_result host.platform false v) (
          captured_headers-AllNamed host IsAllowed names res hs a
            (redirected-AllNamed h.redirect res.status v)))
        tt

  -- A record of an HTTP result holds none of the headers that are never replayed (cookies, framing
  -- and hop-by-hop headers), in any case, whatever the options add and the handler sets, if the
  -- interceptor was constructed and `toLowerCase` leaves no ASCII capital.
  pub capture_success-HasAllowedHeaders :
      {Fn : Type 0} (rounded : (numeral : Text) (unit : ℕ) → ℕ) (crypto : Crypto)
      (m : Option (Module Fn)) (c : Configured Fn) (h : HttpHandler) (res : HttpResponse)
      (store_if : StoreIf) (v : Value)
      → ((s : Text) → IsLower (host.lower s))
      → configure rounded host.lower crypto m ≡ accepted c
      → HasAllowedHeaders (capture_success host c.replay_headers h res store_if v)
  unfolding capture_success
  capture_success-HasAllowedHeaders rounded crypto m c h res store_if v law e =
      branch (handler_writes_response host h || res.sent) unreplayable _ tt
        (by_reason (unreplayable_reason v))
    where
      by_reason :
          (r : Option Reason)
          → HasAllowedHeaders (elim r [
            | some reason ↦ unreplayable
            | none ↦ capture_replayable host c.replay_headers h res store_if v
          ])
      by_reason none =
          captured_replayable-HasAllowedHeaders c.replay_headers h res store_if v
            (configure-IsReplayable rounded host.lower crypto m c law e).0
      by_reason (some reason) = tt
