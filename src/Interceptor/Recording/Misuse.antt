-- ===== src/Interceptor/Recording/Misuse.antt =====
-- A key that is used again for another request.
use idempotency.Base.{
  ℕ, ◌≡◌, ◌≢◌, ◌∷◌, ◌++◌, [], ap, ◌∙◌, if_neg, List, Option, some, ◌⊎◌, inl, inr, map, Text,
  text_eq,
}
use idempotency.Value.{Value}
use idempotency.Fingerprint.{canonical_json, frame, sha256, utf8_bytes}
use idempotency.Fingerprint.Framing.{frame_injective}
use idempotency.Store.{Store, Entry}
use idempotency.Interceptor.{
  StoredResponse, StoredPayload, Codec, opened, Resolved, Call, answers, key_reused,
}
use idempotency.Interceptor.Worlds.{Request, World, Timing, failure, rejection}
use idempotency.Interceptor.Planning.{refusing, plan, fingerprint_of, scope_text}
use idempotency.Interceptor.Planning.Asking.{asks}
use idempotency.Interceptor.Recording.Retry.{plan_refuses, plan_replays}

module _ (store : Store StoredPayload) (codec : Codec)
    (hash_of_bytes hash_hex : List ℕ → Text) where
  -- What the fingerprint of a request is a hash of.
  abbrev pub parts_of : (scope : Option Text) → Request → (selected : Value) → List Text
  parts_of scope q selected =
      scope_text scope ∷ (q.identity ++ canonical_json hash_of_bytes selected ∷ [])

  fingerprints-differ :
      (scope scope' : Option Text) (q q' : Request) (selected selected' : Value)
      → (hash_hex (frame (parts_of scope q selected))
            ≡ hash_hex (frame (parts_of scope' q' selected'))
          → frame (parts_of scope q selected) ≡ frame (parts_of scope' q' selected'))
      → map utf8_bytes (parts_of scope q selected) ≢ map utf8_bytes (parts_of scope' q' selected')
      → fingerprint_of store codec hash_of_bytes hash_hex scope q selected
        ≢ fingerprint_of store codec hash_of_bytes hash_hex scope' q' selected'
  unfolding fingerprint_of sha256
  fingerprints-differ scope scope' q q' selected selected' apart differ e =
      differ (frame_injective (parts_of scope q selected) (parts_of scope' q' selected') (apart e))

  -- What the store shows for the key: a lock, or a result that the codec opens.
  abbrev pub Occupied : Call → Text → Option (Entry StoredPayload) → Type 0
  Occupied c f shown =
      ((holder : Text) × (e : ℕ) × (shown ≡ some (Entry.in_flight f holder e)))
      ⊎ ((p : StoredPayload) × (e : ℕ) × (r : StoredResponse) × (shown
            ≡ some (Entry.completed f p e))
          × (codec.open_payload c.store_key p ≡ opened r))

  -- A key that was used for one request, in flight or completed, is refused with a 422 to any request
  -- that differs from it in its scope, in what the adapter identifies it by, or in the canonical text
  -- of the selected payload, as the same store key, if the store answers and the hash function does
  -- not collide on the two.
  pub other_request_is_refused :
      (o : Resolved) (t : Timing) (owner : Text) (w : World store.State) (q q' : Request) (c : Call)
      (scope scope' : Option Text) (selected selected' : Value)
      → asks store codec hash_of_bytes hash_hex q'
        ≡ some (c, fingerprint_of store codec hash_of_bytes hash_hex scope' q' selected')
      → t.acquiring ≡ answers
      → Occupied c
          (fingerprint_of store codec hash_of_bytes hash_hex scope q selected)
          (store.view w.store t.now c.store_key)
      → map utf8_bytes (parts_of scope q selected) ≢ map utf8_bytes (parts_of scope' q' selected')
      → (hash_hex (frame (parts_of scope q selected))
            ≡ hash_hex (frame (parts_of scope' q' selected'))
          → frame (parts_of scope q selected) ≡ frame (parts_of scope' q' selected'))
      → (plan store codec hash_of_bytes hash_hex o t owner w q').1
        ≡ failure (rejection (refusing key_reused 422))
  other_request_is_refused o t owner w q q' c scope scope' selected selected' asked in_time
        (inl (holder, e, shown)) differ apart =
      let f = fingerprint_of store codec hash_of_bytes hash_hex scope q selected in
      let fp = fingerprint_of store codec hash_of_bytes hash_hex scope' q' selected' in
      plan_refuses store codec hash_of_bytes hash_hex o t owner w q' c fp asked in_time f holder e
        shown
      ∙ ap (λ r. failure (rejection r))
          (if_neg (text_eq f fp)
            (fingerprints-differ scope scope' q q' selected selected' apart differ) _ _)
  other_request_is_refused o t owner w q q' c scope scope' selected selected' asked in_time
        (inr (p, e, r, shown, opens)) differ apart =
      let f = fingerprint_of store codec hash_of_bytes hash_hex scope q selected in
      let fp = fingerprint_of store codec hash_of_bytes hash_hex scope' q' selected' in
      (plan_replays store codec hash_of_bytes hash_hex o t owner w q' c fp asked in_time f p e r
        shown opens).0
      ∙ if_neg (text_eq f fp)
          (fingerprints-differ scope scope' q q' selected selected' apart differ) _ _
