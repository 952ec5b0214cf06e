-- ===== src/Tests/Startup.antt =====
-- What a module starts with: its options and a handler's, the global interceptors, the warnings and
-- the events.
use idempotency.Base.{
  ℕ, ◌*◌, ◌≤◌, ◌≡◌, ◌↔◌, refl, ap₂, map, ascii_lower, ascii_lower_unit, arith, Bool, true, false,
  List, [], ◌∷◌, ◌++◌, Option, none, some, Text, text, text_eq,
}
use idempotency.Encryption.{plaintext_codec}
use idempotency.Options.{Durations, Options, resolve}
use idempotency.Options.Milliseconds.{
  accepted, refused, refused_header, Declared, string, with_durations_in_ms,
}
use idempotency.Options.Startup.{
  Module, Configured, configure, default_header, default_replay_headers,
}
use idempotency.Options.Bounds.{resolve-positive}
use idempotency.Options.Headers.{IsReplayable, IsDistinct, configure-IsReplayable}
use idempotency.Interceptor.{Event, ContextType, Phase}
use idempotency.Interceptor.Warnings.{Warning, start, warn_all, times, called, each_warned_once}
use idempotency.Interceptor.Interception.{
  Global, itself, class_serializer, other, starts, refuses, on_application_bootstrap,
}
use idempotency.Interceptor.Interception.Globals.{
  SerializedOutside, Wrapped, on_application_bootstrap_lem,
}
use idempotency.Events.{Channel, publishes, next, completes, emit_all, on_application_shutdown}
use idempotency.Tests.Sealing.{crypto}

-- The numeral of `15m` is known.
abbrev pub rounded : Text → ℕ → ℕ
rounded numeral unit = 15 * unit

abbrev none_declared : Declared
none_declared = record {
  ttl = none;
  lock_ttl = none;
  max_lock_hold = none;
  retry_after = none;
  store_timeout = none;
}

abbrev declared : Declared
declared = record none_declared { ttl = some (string (text "15m")) }

abbrev durations : Durations
durations = record {
  ttl = some 900_000;
  lock_ttl = none;
  max_lock_hold = none;
  retry_after = none;
  store_timeout = none;
}

abbrev given : Module ℕ
given = record {
  has_is_global = false;
  has_imports = false;
  has_store = false;
  required = none;
  declared = declared;
  key_from = none;
  scope = none;
  fingerprint = none;
  store_if = none;
  header = none;
  replay_headers = some (text "X-Total" ∷ text "etag" ∷ []);
  encryption = none;
}

abbrev pub options : Option (Module ℕ)
options = some given

abbrev pub handler : Options ℕ
handler = record {
  required = some true;
  durations = durations;
  key_from = none;
  scope = none;
  fingerprint = none;
  store_if = none;
}

abbrev pub expected : Configured ℕ
expected = record {
  defaults = record handler { required = none };
  header = default_header;
  store_timeout = 10_000;
  replay_headers = default_replay_headers ++ text "x-total" ∷ [];
  codec = plaintext_codec;
}

pub configured : configure rounded ascii_lower crypto options ≡ accepted expected
unfolding configure text_eq
configured = refl

converted : with_durations_in_ms rounded declared ≡ accepted durations
unfolding with_durations_in_ms text_eq
converted = refl

resolve-positive_example :
    let r = (resolve expected.defaults none (some handler)).resolved in
    (1 ≤ r.ttl) × (1 ≤ r.lock_ttl) × (1 ≤ r.max_lock_hold)
resolve-positive_example =
    resolve-positive rounded ascii_lower crypto options expected none (some handler) configured tt
      (declared, converted)

unit_lowered : (c : ℕ) → ascii_lower_unit (ascii_lower_unit c) ≡ ascii_lower_unit c
unit_lowered c = ground arith

pub lowered : (s : Text) → ascii_lower (ascii_lower s) ≡ ascii_lower s
lowered [] = refl
lowered (c ∷ s) = ap₂ (λ x xs. x ∷ xs) (unit_lowered c) (lowered s)

configure-IsReplayable_example :
    IsReplayable expected.replay_headers × IsDistinct (map ascii_lower expected.replay_headers)
configure-IsReplayable_example =
    configure-IsReplayable rounded ascii_lower crypto options expected lowered configured

-- `Set-Cookie` is refused as it is written, and `Transfer-Encoding` too.
abbrev asking : Text → Option (Module ℕ)
asking h = some (record given { replay_headers = some (h ∷ []) })

cookie_refused :
    configure rounded ascii_lower crypto (asking (text "Set-Cookie"))
    ≡ refused (refused_header (text "set-cookie"))
unfolding configure text_eq
cookie_refused = refl

encoding_refused :
    configure rounded ascii_lower crypto (asking (text "Transfer-Encoding"))
    ≡ refused (refused_header (text "transfer-encoding"))
unfolding configure text_eq
encoding_refused = refl

-- A logger and a serializer were registered first.
abbrev wrapped : List Global
wrapped = other ∷ class_serializer ∷ itself ∷ other ∷ []

on_application_bootstrap_lem_example :
    ((on_application_bootstrap wrapped ≡ refuses) ↔ SerializedOutside wrapped)
    × ((on_application_bootstrap wrapped ≡ starts) ↔ (¬ Wrapped wrapped))
on_application_bootstrap_lem_example = on_application_bootstrap_lem wrapped

wrapped_refused : on_application_bootstrap wrapped ≡ refuses
unfolding on_application_bootstrap
wrapped_refused = refl

abbrev asked : List Warning
asked =
    (text "unscoped", text "Payments.create")
    ∷ (text "unscoped", text "Payments.refund")
    ∷ (text "unread-body", text "Payments.create")
    ∷ (text "unscoped", text "Payments.create")
    ∷ []

each_warned_once_example :
    times (text "unscoped", text "Payments.create") (warn_all asked start).log ≡ 1
unfolding called text_eq
each_warned_once_example = each_warned_once (text "unscoped", text "Payments.create") asked

-- Only the channel of replays has a subscriber.
abbrev subscribed : Channel → Bool
subscribed Channel.replayed = true
subscribed c = false

abbrev replay_sent : Event
replay_sent = Event.replayed ContextType.http (text "Payments.create") (text "k1") none 201

abbrev loss_sent : Event
loss_sent =
    Event.lock_lost ContextType.http (text "Payments.create") (text "k1") none Phase.complete

emitted_effects :
    emit_all ((subscribed, replay_sent) ∷ (subscribed, loss_sent) ∷ []) ++ on_application_shutdown
    ≡ publishes Channel.replayed replay_sent ∷ next replay_sent ∷ next loss_sent ∷ completes ∷ []
unfolding emit_all on_application_shutdown
emitted_effects = refl
