-- ===== src/Contexts/Http/Fidelity.antt =====
-- A replay of an HTTP result against the original response.
use idempotency.Base.Dict
use idempotency.Base.{
  ◌≡◌, refl, ap, ◌||◌, true, false, List, [], none, some, if◌then◌else◌, ite, arith, All, Text,
  text, text_eq,
}
use idempotency.Json.{Json}
use idempotency.Value.{Value}
use idempotency.Result.{Platform, encoded, encode_result, unreplayable_reason}
use idempotency.Result.Decoding.{decode_result}
use idempotency.Result.Replay.{IsData, decode_result-encode_result}
use idempotency.Options.Startup.{has}
use idempotency.Interceptor.{StoredResponse, one}
use idempotency.Interceptor.Execution.{stored}
use idempotency.Contexts.{Host, StoreIf, delivers, delivered}
use idempotency.Contexts.Http.Responses.{
  HttpHandler, HttpResponse, handler_writes_response, captured_headers, set_headers, or_else,
  capture_success, capture_replayable, redirected, replay, replayed_header,
}
use idempotency.Contexts.Http.Headers.{
  captured_headers-get, captured_headers-IsMap, captured_headers-AllNamed, set_headers-get,
}

pub IsData-replayable :
    (platform : Platform) (v : Value) → IsData platform v → unreplayable_reason v ≡ none
unfolding IsData unreplayable_reason
IsData-replayable p Value.null h = refl
IsData-replayable p (Value.boolean b) h = refl
IsData-replayable p (Value.number n) h = refl
IsData-replayable p (Value.bigint s) h = refl
IsData-replayable p (Value.string s) h = refl
IsData-replayable p (Value.date d) h = refl
IsData-replayable p (Value.buffer b) h = refl
IsData-replayable p (Value.array xs) h = refl
IsData-replayable p (Value.map_of ps) h = refl
IsData-replayable p (Value.set_of xs) h = refl
IsData-replayable p (Value.object fs) h = refl
IsData-replayable p v h = absurd h

module _ (host : Host) (names : List Text) (handler : HttpHandler) (res res' : HttpResponse)
    (store_if : StoreIf) (v : Value) where
  abbrev record_of : Json → StoredResponse
  record_of j = record {
    status = res.status;
    headers = captured_headers host names res [];
    body = some j;
    error = none;
  }

  capture_lem :
      (j : Json)
      → encode_result host.platform false v ≡ encoded j
      → unreplayable_reason v ≡ none
      → handler_writes_response host handler || res.sent ≡ false
      → handler.redirect ≡ none
      → store_if res.status none ≡ true
      → capture_success host names handler res store_if v ≡ stored (record_of j)
  unfolding capture_success capture_replayable redirected
  capture_lem j e r w n k = ground arith

  replay_lem :
      (j : Json) (n : Text)
      → decode_result host.platform (some j) ≡ some v
      → All (λ x. host.lower x ≡ x) names
      → let done = replay host (record_of j) res' in
        (done.1 ≡ delivers v)
        × (done.0.status ≡ res.status)
        × (Dict.get n done.0.headers
            ≡ ite (text_eq (host.lower replayed_header) n) (some (one (text "true"))) (
                or_else
                  (if has n names then Dict.get n res.headers else none)
                  (Dict.get n res'.headers)))
  unfolding replay set_headers Dict.get
  replay_lem j n d low = (
    ap delivered d,
    refl,
    ground (
      arith,
      Dict.get-set (host.lower replayed_header) n (one (text "true"))
          (set_headers host (captured_headers host names res []) res').headers,
      set_headers-get host (captured_headers host names res []) res' n
          (captured_headers-IsMap host names res [] tt)
          (captured_headers-AllNamed host (λ x. host.lower x ≡ x) names res [] low tt),
      captured_headers-get host names res [] n,
    ),
  )

  -- What a handler returns, if it is data (JSON's values, and dates, big integers, `Buffer`s but no
  -- other `Uint8Array`, maps and sets) and `storeIf` accepts the status, is captured as a record whose
  -- replay, on any later response, gives that value, the original's status, each replayable
  -- header of the original, and the header that marks a replay; other headers stay as they are there.
  -- The handler leaves the response to Nest and does not redirect, and the header names are in
  -- lower case.
  pub replay-capture_success :
      (n : Text)
      → IsData host.platform v
      → handler_writes_response host handler || res.sent ≡ false
      → handler.redirect ≡ none
      → store_if res.status none ≡ true
      → All (λ x. host.lower x ≡ x) names
      → (r : StoredResponse) × (capture_success host names handler res store_if v ≡ stored r)
        × (let done = replay host r res' in
            (done.1 ≡ delivers v)
            × (done.0.status ≡ res.status)
            × (Dict.get n done.0.headers
                ≡ ite (text_eq (host.lower replayed_header) n) (some (one (text "true"))) (
                    or_else
                      (if has n names then Dict.get n res.headers else none)
                      (Dict.get n res'.headers))))
  replay-capture_success n h writes plain accepts low =
      let (j, e, d) = decode_result-encode_result host.platform false v h in
      (
        record_of j,
        capture_lem j e (IsData-replayable host.platform v h) writes plain accepts,
        replay_lem j n d low,
      )
