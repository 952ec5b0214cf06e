-- ===== src/Memory/Refinement.antt =====
-- The in-memory store as an implementation of the contract, and what `size`, `peek` and the sweep
-- show.
use idempotency.Base.Dict
use idempotency.Base.{ℕ, ◌<◌, List, [], ◌∷◌, arith, All, Text}
use idempotency.Store.{Store, Entry, expires_at}
use idempotency.Memory.{Memory, drop_expired, acquire, complete, release, extend}
use idempotency.Memory.Expiry.{view, view-fades}
use idempotency.Memory.Operations.{acquire-Meets, complete-Meets, release-Meets, extend-Meets}

module _ (P : Type 0) where
  abbrev pub Sound : Type 0
  Sound = (m : Memory P) × Dict.IsMap m.entries

  -- The in-memory store keeps every law of the contract.
  abbrev pub memory_store : Store P
  memory_store = record {
    State = Sound;
    view = λ s. view s.0;
    acquire = λ s now key owner fingerprint ttl.
        let r = acquire s.0 now key owner fingerprint ttl in
        ((r.0, (acquire-Meets s.0 now key owner fingerprint ttl s.1).1.distinct s.1), r.1);
    complete = λ s now key owner response ttl.
        let r = complete s.0 now key owner response ttl in
        ((r.0, (complete-Meets s.0 now key owner response ttl).1.distinct s.1), r.1);
    release = λ s now key owner.
        let r = release s.0 now key owner in
        ((r.0, (release-Meets s.0 now key owner).1.distinct s.1), r.1);
    extend = λ s now key owner ttl.
        let r = extend s.0 now key owner ttl in
        ((r.0, (extend-Meets s.0 now key owner ttl).1.distinct s.1), r.1);
    fades = λ s. view-fades s.0;
    acquire-result =
        λ s now key owner fingerprint ttl. (acquire-Meets s.0 now key owner fingerprint ttl s.1).0;
    acquire-view = λ s now key owner fingerprint ttl.
        (acquire-Meets s.0 now key owner fingerprint ttl s.1).1.shows;
    complete-result =
        λ s now key owner response ttl. (complete-Meets s.0 now key owner response ttl).0;
    complete-view =
        λ s now key owner response ttl. (complete-Meets s.0 now key owner response ttl).1.shows;
    release-result = λ s now key owner. (release-Meets s.0 now key owner).0;
    release-view = λ s now key owner. (release-Meets s.0 now key owner).1.shows;
    extend-result = λ s now key owner ttl. (extend-Meets s.0 now key owner ttl).0;
    extend-view = λ s now key owner ttl. (extend-Meets s.0 now key owner ttl).1.shows;
  }

module _ {P : Type 0} where
  abbrev pub IsUnexpired : ℕ → List (Text × Entry P) → Type 0
  IsUnexpired now = All (λ e. now < expires_at e.1)

  drop_expired-IsUnexpired :
      (now : ℕ) (m : List (Text × Entry P)) → IsUnexpired now (drop_expired now m)
  unfolding drop_expired
  drop_expired-IsUnexpired now [] = tt
  drop_expired-IsUnexpired now ((k, e) ∷ m) = ground (arith, drop_expired-IsUnexpired now m)
