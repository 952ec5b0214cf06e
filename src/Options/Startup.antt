-- ===== src/Options/Startup.antt =====
-- The constructor of lib/interceptors/idempotency.interceptor.ts, `assertOptions` and
-- `assertReplayHeaders`: what can be misconfigured fails at startup. `toLowerCase` is a parameter;
-- the adapters that the constructor makes are left out.
use idempotency.Base.{
  ℕ, Bool, true, false, List, [], ◌∷◌, ◌++◌, map, Option, none, some, ite, leb, if◌then◌else◌, Text,
  text, text_eq,
}
use idempotency.Interceptor.{Codec}
use idempotency.Encryption.{Crypto, KeyMaterial, plaintext_codec, response_cipher}
use idempotency.Interceptor.Renewal.{max_timeout}
use idempotency.Options.{KeyFrom, ScopeOption, Options, or_default}
use idempotency.Options.Milliseconds.{
  Checked, accepted, refused, ◌>>=◌, no_options, misplaced_option, store_option, bad_encryption,
  refused_header, Declared, with_durations_in_ms,
}

abbrev pub default_store_timeout : ℕ
default_store_timeout = 10_000

abbrev pub default_header : Text
default_header = text "Idempotency-Key"

abbrev pub default_replay_headers : List Text
default_replay_headers =
    text "location"
    ∷ text "content-type"
    ∷ text "content-language"
    ∷ text "content-location"
    ∷ text "etag"
    ∷ text "last-modified"
    ∷ []

abbrev pub never_replayed_headers : List Text
never_replayed_headers =
    text "set-cookie"
    ∷ text "content-length"
    ∷ text "transfer-encoding"
    ∷ text "connection"
    ∷ text "keep-alive"
    ∷ text "upgrade"
    ∷ text "trailer"
    ∷ text "te"
    ∷ text "date"
    ∷ []

-- `has` of a set of strings.
unfoldable pub has : Text → List Text → Bool
has x [] = false
has x (y ∷ ys) = ite (text_eq y x) true (has x ys)

-- `[...new Set(list)]`: the first of each, in order; `seen` are those already in the set.
unfoldable pub distinct : (seen : List Text) → List Text → List Text
unfolding has
distinct seen [] = []
distinct seen (x ∷ xs) =
    let without = distinct seen xs in
    let with_it = distinct (x ∷ seen) xs in if has x seen then without else x ∷ with_it

unfoldable pub assert_replay_headers : List Text → Checked (List Text)
unfolding has
assert_replay_headers [] = accepted []
assert_replay_headers (h ∷ hs) =
    let rest = assert_replay_headers hs in
    if has h never_replayed_headers
    then refused (refused_header h)
    else rest >>= (λ others. accepted (h ∷ others))

-- What is passed as options: no object, or an object, by the properties that it must not have and
-- those that the constructor reads.
pub record Module (Fn : Type 0) : Type 0 where
  pub has_is_global : Bool
  pub has_imports : Bool
  pub has_store : Bool
  pub required : Option Bool
  pub declared : Declared
  pub key_from : Option (KeyFrom Fn)
  pub scope : Option (ScopeOption Fn)
  pub fingerprint : Option Fn
  pub store_if : Option Fn
  pub header : Option Text
  pub replay_headers : Option (List Text)
  pub encryption : Option (List KeyMaterial)

-- What the constructor sets.
pub record Configured (Fn : Type 0) : Type 0 where
  pub defaults : Options Fn
  pub header : Text
  pub store_timeout : ℕ
  pub replay_headers : List Text
  pub codec : Codec

module _ {Fn : Type 0} where
  unfoldable pub assert_options : Option (Module Fn) → Checked (Module Fn)
  assert_options none = refused no_options
  assert_options (some m) =
      if m.has_is_global
      then refused misplaced_option
      else if m.has_imports
      then refused misplaced_option
      else if m.has_store
      then refused store_option
      else accepted m

module _ (rounded : (numeral : Text) (unit : ℕ) → ℕ) (lower : Text → Text) (crypto : Crypto) where
  abbrev pub some_list : Option (List Text) → List Text
  some_list none = []
  some_list (some xs) = xs

  abbrev cipher_of : Option Codec → Checked Codec
  cipher_of none = refused bad_encryption
  cipher_of (some codec) = accepted codec

  unfoldable pub codec_for : Option (List KeyMaterial) → Checked Codec
  unfolding plaintext_codec response_cipher
  codec_for none = accepted plaintext_codec
  codec_for (some keys) = cipher_of (response_cipher crypto keys)

  abbrev pub timeout_of : Option ℕ → ℕ
  timeout_of t =
      let ms = or_default t default_store_timeout in if leb ms max_timeout then ms else max_timeout

  -- The headers, lower-cased, the defaults first.
  unfoldable pub replay_headers_of : Option (List Text) → List Text
  unfolding distinct
  replay_headers_of extra = distinct [] (map lower (default_replay_headers ++ some_list extra))

  unfoldable pub configure : {Fn : Type 0} → Option (Module Fn) → Checked (Configured Fn)
  unfolding assert_options with_durations_in_ms assert_replay_headers replay_headers_of codec_for
      or_default
  configure options = do
    m ← assert_options options
    durations ← with_durations_in_ms rounded m.declared
    headers ← assert_replay_headers (replay_headers_of m.replay_headers)
    codec ← codec_for m.encryption
    accepted (record {
      defaults = record {
        required = m.required;
        durations = durations;
        key_from = m.key_from;
        scope = m.scope;
        fingerprint = m.fingerprint;
        store_if = m.store_if;
      };
      header = or_default m.header default_header;
      store_timeout = timeout_of durations.store_timeout;
      replay_headers = headers;
      codec = codec;
    })
