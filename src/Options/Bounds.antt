-- ===== src/Options/Bounds.antt =====
-- Every duration that the interceptor works with was checked where it was declared.
use idempotency.Base.{ℕ, ◌≤◌, ◌≡◌, refl, subst, ap, Option, none, some, arith, Text}
use idempotency.Encryption.{Crypto}
use idempotency.Options.{
  Durations, Options, resolve, over, field, merged, or_default, default_ttl, default_lock_ttl,
  default_max_lock_hold,
}
use idempotency.Options.Milliseconds.{
  Checked, accepted, refused, ◌>>=◌, Duration, Name, ttl, lock_ttl, max_lock_hold, retry_after,
  store_timeout, at_least, convert, Declared, with_durations_in_ms, to_ms,
}
use idempotency.Options.Startup.{
  Module, Configured, configure, assert_options, replay_headers_of, assert_replay_headers,
  codec_for,
}

-- What a chain that is accepted went through.
pub bind-accepted :
    {A B : Type 0} (x : Checked A) (k : A → Checked B) (b : B)
    → x >>= k ≡ accepted b
    → (a : A) × (x ≡ accepted a) × (k a ≡ accepted b)
bind-accepted (accepted a) k b e = (a, refl, e)
bind-accepted (refused r) k b e = absurd (ground arith)

pub accepted_injective : {A : Type 0} {a b : A} → accepted a ≡ accepted b → a ≡ b
accepted_injective {a = a} e = ap (λ c. elim c [ accepted x ↦ x | refused r ↦ a ]) e

abbrev pub IsAtLeast : ℕ → Option ℕ → Type 0
IsAtLeast min none = Unit
IsAtLeast min (some ms) = min ≤ ms

-- The options that must be positive are, where they are set.
abbrev pub IsPositive : Durations → Type 0
IsPositive d = IsAtLeast 1 d.ttl × IsAtLeast 1 d.lock_ttl × IsAtLeast 1 d.max_lock_hold

module _ (rounded : (numeral : Text) (unit : ℕ) → ℕ) where
  at_least-IsAtLeast :
      (name : Name) (min : ℕ) (r a : Option ℕ)
      → at_least rounded name min r ≡ accepted a
      → IsAtLeast min a
  at_least-IsAtLeast name min none a e = absurd (ground arith)
  at_least-IsAtLeast name min (some ms) a e =
      let both : (min ≤ ms) × (some ms ≡ a) = ground arith in subst (IsAtLeast min) both.1 both.0

  convert-IsAtLeast :
      (name : Name) (min : ℕ) (d : Option Duration) (a : Option ℕ)
      → convert rounded name min d ≡ accepted a
      → IsAtLeast min a
  unfolding convert
  convert-IsAtLeast name min none none e = tt
  convert-IsAtLeast name min none (some ms) e = absurd (ground arith)
  convert-IsAtLeast name min (some d) a e = at_least-IsAtLeast name min (to_ms rounded d) a e

  with_durations-IsPositive :
      (d : Declared) (ds : Durations) → with_durations_in_ms rounded d ≡ accepted ds → IsPositive ds
  unfolding with_durations_in_ms
  with_durations-IsPositive d ds e =
      let (a, ea, ka) = bind-accepted (convert rounded ttl 1 d.ttl) _ ds e in
      let (b, eb, kb) = bind-accepted (convert rounded lock_ttl 1 d.lock_ttl) _ ds ka in
      let (c, ec, kc) = bind-accepted (convert rounded max_lock_hold 1 d.max_lock_hold) _ ds kb in
      let (x, ex, kx) = bind-accepted (convert rounded retry_after 0 d.retry_after) _ ds kc in
      let (y, ey, ky) = bind-accepted (convert rounded store_timeout 1 d.store_timeout) _ ds kx in
      let same : record {
        ttl = a;
        lock_ttl = b;
        max_lock_hold = c;
        retry_after = x;
        store_timeout = y;
      }
          ≡ ds =
        cc ky in
      subst IsPositive same (
        convert-IsAtLeast ttl 1 d.ttl a ea,
        convert-IsAtLeast lock_ttl 1 d.lock_ttl b eb,
        convert-IsAtLeast max_lock_hold 1 d.max_lock_hold c ec,
      )

over-IsAtLeast :
    (min : ℕ) (a b : Option ℕ) → IsAtLeast min a → IsAtLeast min b → IsAtLeast min (over a b)
unfolding over
over-IsAtLeast min a none h g = h
over-IsAtLeast min a (some b) h g = g

default-le :
    (min fallback : ℕ) (a : Option ℕ)
    → min ≤ fallback
    → IsAtLeast min a
    → min ≤ or_default a fallback
unfolding or_default
default-le min fallback none h g = h
default-le min fallback (some a) h g = g

module _ {Fn : Type 0} (rounded : (numeral : Text) (unit : ℕ) → ℕ) where
  -- Options that a decorator accepted, or none.
  abbrev pub IsDecorated : Option (Options Fn) → Type 0
  IsDecorated none = Unit
  IsDecorated (some o) = (d : Declared) × (with_durations_in_ms rounded d ≡ accepted o.durations)

  field-IsAtLeast :
      (min : ℕ) (f : Durations → Option ℕ) (o : Option (Options Fn))
      → ((d : Durations) → IsPositive d → IsAtLeast min (f d))
      → IsDecorated o
      → IsAtLeast min (field (λ x. f x.durations) o)
  unfolding field
  field-IsAtLeast min f none h g = tt
  field-IsAtLeast min f (some o) h g =
      h o.durations (with_durations-IsPositive rounded g.0 o.durations g.1)

  merged-IsAtLeast :
      (min : ℕ) (f : Durations → Option ℕ) (defaults : Options Fn) (c h : Option (Options Fn))
      → ((d : Durations) → IsPositive d → IsAtLeast min (f d))
      → IsPositive defaults.durations
      → IsDecorated c
      → IsDecorated h
      → IsAtLeast min (merged (λ x. f x.durations) defaults c h)
  unfolding merged
  merged-IsAtLeast min f defaults c h at d dc dh =
      over-IsAtLeast min _ _
        (over-IsAtLeast min _ _ (at defaults.durations d) (field-IsAtLeast min f c at dc))
        (field-IsAtLeast min f h at dh)

  configure-IsPositive :
      (lower : Text → Text) (crypto : Crypto) (m : Option (Module Fn)) (c : Configured Fn)
      → configure rounded lower crypto m ≡ accepted c
      → IsPositive c.defaults.durations
  unfolding configure
  configure-IsPositive lower crypto m c e =
      let (a, _, ka) = bind-accepted (assert_options m) _ c e in
      let (ds, es, ks) = bind-accepted (with_durations_in_ms rounded a.declared) _ c ka in
      let (hs, _, kh) =
        bind-accepted
          (assert_replay_headers (replay_headers_of rounded lower crypto a.replay_headers)) _ c
          ks in
      let (x, _, kx) = bind-accepted (codec_for rounded lower crypto a.encryption) _ c kh in
      let same : ds ≡ c.defaults.durations = ground arith in
      subst IsPositive same (with_durations-IsPositive rounded a.declared ds es)

  -- Whatever the module, the class and the handler set, if the interceptor was constructed and the
  -- decorators applied without an error, each handler's `ttl`, `lockTtl` and `maxLockHold` are at
  -- least a millisecond.
  pub resolve-positive :
      (lower : Text → Text) (crypto : Crypto) (m : Option (Module Fn)) (c : Configured Fn)
      (class_options handler_options : Option (Options Fn))
      → configure rounded lower crypto m ≡ accepted c
      → IsDecorated class_options
      → IsDecorated handler_options
      → let r = (resolve c.defaults class_options handler_options).resolved in
        (1 ≤ r.ttl) × (1 ≤ r.lock_ttl) × (1 ≤ r.max_lock_hold)
  unfolding resolve
  resolve-positive lower crypto m c cs hs e dc dh =
      let d = configure-IsPositive lower crypto m c e in
      (
        default-le 1 default_ttl _ (omega arith)
            (merged-IsAtLeast 1 (λ x. x.ttl) c.defaults cs hs (λ x h. h.0) d dc dh),
        default-le 1 default_lock_ttl _ (omega arith)
            (merged-IsAtLeast 1 (λ x. x.lock_ttl) c.defaults cs hs (λ x h. h.1) d dc dh),
        default-le 1 default_max_lock_hold _ (omega arith)
            (merged-IsAtLeast 1 (λ x. x.max_lock_hold) c.defaults cs hs (λ x h. h.2) d dc dh),
      )
