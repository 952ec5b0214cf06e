-- ===== src/Options/Milliseconds.antt =====
-- lib/utils/duration.util.ts and lib/decorators/idempotent.decorator.ts: `toMs` and
-- `withDurationsInMs`. A number is known by its ceiling, and `Math.round(Number(text) * unit)` in
-- double precision is a parameter. Messages are left out.
use idempotency.Base.{
  ℕ, Bool, ◌&&◌, [], ◌∷◌, ◌++◌, Option, none, some, leb, ltb, ◌==◌, if◌then◌else◌, Text, text,
  text_eq, ite,
}
use idempotency.Options.{Durations}

pub data Duration : Type 0 where
  -- `Math.ceil` of the number, or `none` for a negative one, an infinity or NaN.
  number : (ceiling : Option ℕ) → Duration
  string : Text → Duration

pub data Name : Type 0 where
  ttl lock_ttl max_lock_hold retry_after store_timeout : Name

-- What fails at startup.
pub data StartupError : Type 0 where
  no_options misplaced_option store_option bad_encryption : StartupError
  invalid_duration duration_too_short : Name → StartupError
  refused_header : Text → StartupError

pub data Checked (A : Type 0) : Type 0 where
  accepted : A → Checked A
  refused : StartupError → Checked A

infixl 5 ◌>>=◌
abbrev pub ◌>>=◌ : {A B : Type 0} → Checked A → (A → Checked B) → Checked B
accepted a >>= k = k a
refused e >>= k = refused e

abbrev is_digit : ℕ → Bool
is_digit c = leb b'0' c && leb c b'9'

-- The longest run of digits ahead, and the rest.
unfoldable pub digits : Text → Text × Text
digits [] = ([], [])
digits (c ∷ s) = let more = digits s in if is_digit c then (c ∷ more.0, more.1) else ([], c ∷ s)

-- `UNITS`.
unfoldable pub unit_of : Text → Option ℕ
unit_of s = ite (text_eq s (text "ms")) (some 1) (
    ite (text_eq s (text "s")) (some 1_000) (
      ite (text_eq s (text "m")) (some 60_000) (
        ite (text_eq s (text "h")) (some 3_600_000) (
          ite (text_eq s (text "d")) (some 86_400_000)
            (ite (text_eq s (text "w")) (some 604_800_000) none)))))

abbrev with_unit : Text → Option ℕ → Option (Text × ℕ)
with_unit numeral none = none
with_unit numeral (some unit) = some (numeral, unit)

-- From the fraction's digits on, after the whole part.
unfoldable pub fraction : (whole : Text) → Text × Text → Option (Text × ℕ)
unfolding unit_of
fraction whole ([], rest) = none
fraction whole (c ∷ part, rest) = with_unit (whole ++ b'.' ∷ c ∷ part) (unit_of rest)

-- The regular expression: the numeral and the unit.
unfoldable pub after_whole : Text × Text → Option (Text × ℕ)
unfolding fraction digits unit_of
after_whole ([], rest) = none
after_whole (c ∷ whole, []) = none
after_whole (c ∷ whole, d ∷ rest) =
    if d == b'.'
    then fraction (c ∷ whole) (digits rest)
    else with_unit (c ∷ whole) (unit_of (d ∷ rest))

-- The options as they are declared.
pub record Declared : Type 0 where
  pub ttl : Option Duration
  pub lock_ttl : Option Duration
  pub max_lock_hold : Option Duration
  pub retry_after : Option Duration
  pub store_timeout : Option Duration

module _ (rounded : (numeral : Text) (unit : ℕ) → ℕ) where
  abbrev product : Option (Text × ℕ) → Option ℕ
  product none = none
  product (some (numeral, unit)) = some (rounded numeral unit)

  -- `Math.ceil(toMs(duration))`; `none` is the `TypeError`.
  unfoldable pub to_ms : Duration → Option ℕ
  unfolding after_whole digits
  to_ms (number ceiling) = ceiling
  to_ms (string s) = product (after_whole (digits s))

  abbrev pub at_least : Name → (min : ℕ) → Option ℕ → Checked (Option ℕ)
  at_least name min none = refused (invalid_duration name)
  at_least name min (some ms) =
      if ltb ms min then refused (duration_too_short name) else accepted (some ms)

  unfoldable pub convert : Name → (min : ℕ) → Option Duration → Checked (Option ℕ)
  unfolding to_ms
  convert name min none = accepted none
  convert name min (some d) = at_least name min (to_ms d)

  unfoldable pub with_durations_in_ms : Declared → Checked Durations
  unfolding convert
  with_durations_in_ms d = do
    a ← convert ttl 1 d.ttl
    b ← convert lock_ttl 1 d.lock_ttl
    c ← convert max_lock_hold 1 d.max_lock_hold
    e ← convert retry_after 0 d.retry_after
    f ← convert store_timeout 1 d.store_timeout
    accepted
        (record { ttl = a; lock_ttl = b; max_lock_hold = c; retry_after = e; store_timeout = f })
