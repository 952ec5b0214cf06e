-- ===== src/Memory/Calls.antt =====
-- The in-memory store under the calls of a history.
use idempotency.Base.Dict
use idempotency.Base.{ℕ, ap}
use idempotency.Store.History.{Call, Answer, found, done, key_of, on_call}
use idempotency.Memory.{Memory, acquire, complete, release, extend}
use idempotency.Memory.Expiry.{view}
use idempotency.Memory.Operations.{
  Meets, acquire-Meets, complete-Meets, release-Meets, extend-Meets,
}

module _ {P : Type 0} where
  abbrev answer_by : {R : Type 0} → (R → Answer P) → Memory P × R → Memory P × Answer P
  answer_by f (m, r) = (m, f r)

  unfoldable pub serve : Memory P → ℕ → Call P → Memory P × Answer P
  serve m now (Call.acquire k o f ttl) = answer_by found (acquire m now k o f ttl)
  serve m now (Call.complete k o r ttl) = answer_by done (complete m now k o r ttl)
  serve m now (Call.release k o) = answer_by done (release m now k o)
  serve m now (Call.extend k o ttl) = answer_by done (extend m now k o ttl)

  -- Each of the four operations, on a map with distinct keys and with its deletions of what has
  -- expired, does to its key's record, and answers, what the contract says of that key's live
  -- record. The records of other keys stay, now and at every later time, and the map's keys stay
  -- distinct.
  pub serve-Meets :
      (m : Memory P) (now : ℕ) (c : Call P)
      → Dict.IsMap m.entries
      → Meets m (serve m now c) now (key_of c) (on_call now c (view m now (key_of c)))
  unfolding serve
  serve-Meets m now (Call.acquire k o f ttl) u =
      let h = acquire-Meets m now k o f ttl u in (ap found h.0, h.1)
  serve-Meets m now (Call.complete k o r ttl) u =
      let h = complete-Meets m now k o r ttl in (ap done h.0, h.1)
  serve-Meets m now (Call.release k o) u = let h = release-Meets m now k o in (ap done h.0, h.1)
  serve-Meets m now (Call.extend k o ttl) u =
      let h = extend-Meets m now k o ttl in (ap done h.0, h.1)
