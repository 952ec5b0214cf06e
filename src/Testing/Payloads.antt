-- ===== src/Testing/Payloads.antt =====
-- The case that stores every payload, in a store that shows none of its keys.
use idempotency.Base.{
  ℕ, suc, ◌+◌, ◌≡◌, ◌≢◌, sym, ◌∙◌, List, [], ◌∷◌, ◌++◌, none, some, arith, Text, text, text_eq,
}
use idempotency.Fingerprint.{decimal}
use idempotency.Store.{Store, Entry, on_acquire, on_lock}
use idempotency.Store.History.{operations}
use idempotency.Interceptor.{StoredPayload}
use idempotency.Testing.{long_record_ttl, same_answer, run_case}
use idempotency.Testing.Cells.{run_cell, run_script-Ends}
use idempotency.Testing.Keys.{stores, payload_calls}
use idempotency.Testing.Passing.{Setting}
use idempotency.Testing.Apart.{AllApart, Free, Free-stays, segment_lem}

-- The names of the payloads' keys.
abbrev pub payload_names : (index : ℕ) → List StoredPayload → List Text
payload_names i [] = []
payload_names i (p ∷ ps) = (b'k' ∷ decimal i) ∷ payload_names (suc i) ps

module _ (store : Store StoredPayload) (g : Setting) (prefix : Text) (at : ℕ) where
  open g use {same_payload, same, lag, later, soon}

  stores_lem :
      (calls : ℕ) (p : StoredPayload)
      → run_cell same_payload lag none at calls (stores p)
        ≡ some (
          some (Entry.completed (text "fp") p (at + lag (suc calls) + long_record_ttl)),
          at,
          suc (suc (suc (suc calls))),
        )
  unfolding run_cell same_answer on_acquire on_lock text_eq
  stores_lem calls p = ground (
    arith,
    same p,
    soon calls,
    soon (suc calls),
    soon (suc (suc calls)),
    soon (suc (suc (suc calls))),
  )

  pub payload_calls-pass :
      (s : store.State) (calls index : ℕ) (ps : List StoredPayload)
      → AllApart (payload_names index ps)
      → Free store g prefix at s calls (payload_names index ps)
      → run_case same_payload
          (operations store)
          lag
          prefix
          (some (s, at, calls))
          (payload_calls index ps)
        ≢ none
  unfolding run_case payload_calls
  payload_calls-pass s calls i [] d f e = cc
  payload_calls-pass s calls i (p ∷ ps) d f failed =
      let name = b'k' ∷ decimal i in
      let calls' = suc (suc (suc (suc calls))) in
      let (s', ran, _, _, leaves) =
        run_script-Ends store same_payload lag later (prefix ++ name) s none at calls (stores p) _
          f.0 (stores_lem calls p) in
      payload_calls-pass s' calls' (suc i) ps d.1
        (Free-stays store g prefix at s s' calls calls' name (payload_names (suc i) ps) leaves d.0
          f.1)
        (sym (
            segment_lem store g prefix at s s' calls calls' name (stores p)
              (payload_calls (suc i) ps) ran)
          ∙ failed)
