-- ===== src/Events.antt =====
-- lib/events: `IdempotencyEvents`. The channels of Node's diagnostics and the subject of RxJS are not
-- modelled, so what the service does is the calls that it makes of them; whether a channel has
-- subscribers is an argument.
use idempotency.Base.{◌≡◌, refl, ap, Bool, true, false, List, [], ◌∷◌, ◌++◌, if◌then◌else◌}
use idempotency.Interceptor.{Event}

-- `channels`, by the events' `type`.
pub data Channel : Type 0 where
  replayed rejected lock_lost : Channel

pub data Effect : Type 0 where
  publishes : Channel → Event → Effect
  next : Event → Effect
  completes : Effect

abbrev pub channel_of : Event → Channel
channel_of (Event.replayed context handler key scope status) = Channel.replayed
channel_of (Event.rejected context handler code status key scope) = Channel.rejected
channel_of (Event.lock_lost context handler key scope phase) = Channel.lock_lost

unfoldable pub emit : (has_subscribers : Channel → Bool) → Event → List Effect
emit has_subscribers e =
    if has_subscribers (channel_of e) then publishes (channel_of e) e ∷ next e ∷ [] else next e ∷ []

unfoldable pub on_application_shutdown : List Effect
on_application_shutdown = completes ∷ []

-- Events one after the other, each with who subscribes to the channels by then.
unfoldable pub emit_all : List ((Channel → Bool) × Event) → List Effect
unfolding emit
emit_all [] = []
emit_all ((has_subscribers, e) ∷ es) = emit has_subscribers e ++ emit_all es

abbrev pub emitted : List ((Channel → Bool) × Event) → List Event
emitted [] = []
emitted ((has_subscribers, e) ∷ es) = e ∷ emitted es

-- What the subject passes on, and what goes out on the channels.
abbrev pub observed : List Effect → List Event
observed [] = []
observed (publishes c e ∷ xs) = observed xs
observed (next e ∷ xs) = e ∷ observed xs
observed (completes ∷ xs) = observed xs

-- Every event reaches the subject, once and in order.
pub observed-emit_all : (es : List ((Channel → Bool) × Event)) → observed (emit_all es) ≡ emitted es
unfolding emit_all
observed-emit_all [] = refl
observed-emit_all ((has, e) ∷ es) = by (has (channel_of e)) (observed-emit_all es)
  where
    by :
        (b : Bool)
        → observed (emit_all es) ≡ emitted es
        → observed
            ((if b then publishes (channel_of e) e ∷ next e ∷ [] else next e ∷ []) ++ emit_all es)
          ≡ e ∷ emitted es
    by true same = ap (λ xs. e ∷ xs) same
    by false same = ap (λ xs. e ∷ xs) same

-- A channel carries the events of its own type.
abbrev pub OwnChannels : List Effect → Type 0
OwnChannels [] = Unit
OwnChannels (publishes c e ∷ xs) = (c ≡ channel_of e) × OwnChannels xs
OwnChannels (next e ∷ xs) = OwnChannels xs
OwnChannels (completes ∷ xs) = OwnChannels xs

pub emit_all-OwnChannels : (es : List ((Channel → Bool) × Event)) → OwnChannels (emit_all es)
unfolding emit_all
emit_all-OwnChannels [] = tt
emit_all-OwnChannels ((has, e) ∷ es) = by (has (channel_of e)) (emit_all-OwnChannels es)
  where
    by :
        (b : Bool)
        → OwnChannels (emit_all es)
        → OwnChannels
            ((if b then publishes (channel_of e) e ∷ next e ∷ [] else next e ∷ []) ++ emit_all es)
    by true own = (refl, own)
    by false own = own
