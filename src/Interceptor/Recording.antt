-- ===== src/Interceptor/Recording.antt =====
-- `record`: an attempt's outcome is stored, or the key released. `lost` is the renewal's, read after
-- the store has answered.
pub mod Once
pub mod Retry
pub mod Misuse
use idempotency.Base.{ℕ, Bool, true, false, List, ◌∷◌, Option, none, some, if◌then◌else◌, Text}
use idempotency.Store.{Store}
use idempotency.Interceptor.{
  StoredResponse, StoredPayload, Codec, Call, Phase, complete, release, Event, Outcome, answered,
  failed, Reply, ask,
}
use idempotency.Interceptor.Worlds.{World, emit}

module _ (store : Store StoredPayload) (codec : Codec) where
  open store use {State}

  -- `lockLost`, and the event of the `catch`, unless the renewal reported it.
  unfoldable pub report :
      World State → Call → Phase → (lost : Bool) → State × Outcome Bool → World State
  report w c phase lost (s, answered true) = record w { store = s }
  report w c phase lost (s, answered false) =
      if lost
      then record w { store = s }
      else emit (record w { store = s }) (Event.lock_lost c.context c.handler c.key c.scope phase)
  report w c phase lost (s, failed) =
      if lost
      then record w { store = s }
      else emit (record w { store = s }) (Event.lock_lost c.context c.handler c.key c.scope phase)

  unfoldable pub record_outcome :
      World State
      → Call
      → (owner : Text) → (outcome : Option StoredResponse) → (ttl : ℕ) → (lost : Bool)
      → (random : List ℕ) → (now : ℕ) → Reply
      → World State
  unfolding report ask
  record_outcome w c owner (some outcome) ttl lost random now reply = report w c complete lost (
      ask reply
        (λ s. store.complete s now c.store_key owner (codec.seal random c.store_key outcome) ttl)
        w.store)
  record_outcome w c owner none ttl lost random now reply =
      report w c release lost (ask reply (λ s. store.release s now c.store_key owner) w.store)
