-- ===== src/Options/Headers.antt =====
-- Which headers a replay may carry.
use idempotency.Base.{
  ℕ, Bool, if◌then◌else◌, ap, ap₂, sym, ascii_lower, ◌∙◌, ◌≡◌, refl, subst, true, false, List, [],
  ◌∷◌, map, ◌++◌, Option, arith, All, Text,
}
use idempotency.Encryption.{Crypto}
use idempotency.Options.Milliseconds.{
  Checked, accepted, refused, refused_header, ◌>>=◌, with_durations_in_ms,
}
use idempotency.Options.Bounds.{bind-accepted, accepted_injective}
use idempotency.Options.Startup.{
  has, distinct, default_replay_headers, some_list, never_replayed_headers, assert_replay_headers,
  Module, Configured, configure, assert_options, replay_headers_of, codec_for,
}

-- Each header comes once.
abbrev pub IsDistinct : List Text → Type 0
IsDistinct [] = Unit
IsDistinct (x ∷ xs) = (has x xs ≡ false) × IsDistinct xs

-- A header's name is the same in any case: one of the never-replayed, however it is written, is none
-- that a replay may carry.
abbrev pub IsReplayable : List Text → Type 0
IsReplayable = All (λ h. has (ascii_lower h) never_replayed_headers ≡ false)

-- What `toLowerCase` leaves has no ASCII capital.
abbrev pub IsLower : Text → Type 0
IsLower h = ascii_lower h ≡ h

has_distinct :
    (x : Text) (seen xs : List Text) → has x seen ≡ true → has x (distinct seen xs) ≡ false
unfolding has distinct
has_distinct x seen [] h = refl
has_distinct x seen (y ∷ ys) h =
    ground (arith, has_distinct x seen ys h, has_distinct x (y ∷ seen) ys)

self_seen : (x : Text) (seen : List Text) → has x (x ∷ seen) ≡ true
unfolding has
self_seen x seen = ground arith

distinct-IsDistinct : (seen xs : List Text) → IsDistinct (distinct seen xs)
unfolding distinct
distinct-IsDistinct seen [] = tt
distinct-IsDistinct seen (x ∷ xs) = ground (
  arith,
  distinct-IsDistinct seen xs,
  distinct-IsDistinct (x ∷ seen) xs,
  has_distinct x (x ∷ seen) xs (self_seen x seen),
)

assert_first :
    (h : Text) (b : Bool) (r : Checked (List Text)) (out : List Text)
    → (if b then refused (refused_header h) else r >>= (λ others. accepted (h ∷ others)))
      ≡ accepted out
    → (b ≡ false) × (others : List Text) × (r ≡ accepted others) × (h ∷ others ≡ out)
assert_first h true r out e = absurd (ground arith)
assert_first h false r out e =
    let (others, same, last) = bind-accepted r _ out e in (refl, others, same, cc last)

assert_lem :
    (hs out : List Text)
    → assert_replay_headers hs ≡ accepted out
    → (hs ≡ out) × All (λ h. has h never_replayed_headers ≡ false) hs
unfolding assert_replay_headers
assert_lem [] out e = (cc e, tt)
assert_lem (h ∷ hs) out e =
    let (p, others, q, same) =
      assert_first h (has h never_replayed_headers) (assert_replay_headers hs) out e in
    let rest = assert_lem hs others q in (cc (rest.0, same), (p, rest.1))

has_lowered :
    (h : Text) (hs : List Text) → IsLower h → has h hs ≡ false → has (ascii_lower h) hs ≡ false
has_lowered h hs l e = ap (λ x. has x hs) l ∙ e

allowed-IsReplayable :
    (hs : List Text)
    → All IsLower hs
    → All (λ h. has h never_replayed_headers ≡ false) hs
    → IsReplayable hs
allowed-IsReplayable [] l a = tt
allowed-IsReplayable (h ∷ hs) l a =
    (has_lowered h never_replayed_headers l.0 a.0, allowed-IsReplayable hs l.1 a.1)

distinct-IsLower : (seen xs : List Text) → All IsLower xs → All IsLower (distinct seen xs)
unfolding distinct
distinct-IsLower seen [] l = tt
distinct-IsLower seen (x ∷ xs) l =
    ground (arith, l.0, distinct-IsLower seen xs l.1, distinct-IsLower (x ∷ seen) xs l.1)

lowered-IsLower :
    (lower : Text → Text)
    → ((s : Text) → IsLower (lower s))
    → (xs : List Text) → All IsLower (map lower xs)
lowered-IsLower lower law [] = tt
lowered-IsLower lower law (x ∷ xs) = (law x, lowered-IsLower lower law xs)

map-IsLower : (hs : List Text) → All IsLower hs → map ascii_lower hs ≡ hs
map-IsLower [] l = refl
map-IsLower (h ∷ hs) l = ap₂ (λ x xs. x ∷ xs) l.0 (map-IsLower hs l.1)

-- An interceptor that is constructed replays no header of the never-replayed ones, and none twice,
-- in whatever case the options write the headers that they add, if `toLowerCase` leaves no ASCII
-- capital.
pub configure-IsReplayable :
    {Fn : Type 0} (rounded : (numeral : Text) (unit : ℕ) → ℕ) (lower : Text → Text)
    (crypto : Crypto) (m : Option (Module Fn)) (c : Configured Fn)
    → ((s : Text) → IsLower (lower s))
    → configure rounded lower crypto m ≡ accepted c
    → IsReplayable c.replay_headers × IsDistinct (map ascii_lower c.replay_headers)
unfolding configure replay_headers_of
configure-IsReplayable rounded lower crypto m c law e =
    let (a, _, ka) = bind-accepted (assert_options m) _ c e in
    let (ds, _, ks) = bind-accepted (with_durations_in_ms rounded a.declared) _ c ka in
    let asked = replay_headers_of rounded lower crypto a.replay_headers in
    let (hs, eh, kh) = bind-accepted (assert_replay_headers asked) _ c ks in
    let (x, _, kx) = bind-accepted (codec_for rounded lower crypto a.encryption) _ c kh in
    let kept = assert_lem asked hs eh in
    let same : asked ≡ c.replay_headers =
      kept.0 ∙ ap (λ r. r.replay_headers) (accepted_injective kx) in
    let given =
      map lower (default_replay_headers ++ some_list rounded lower crypto a.replay_headers) in
    let low : All IsLower asked = distinct-IsLower [] given (
      lowered-IsLower lower law
        (default_replay_headers ++ some_list rounded lower crypto a.replay_headers)) in
    (
      subst IsReplayable same (allowed-IsReplayable asked low kept.1),
      subst (λ hs. IsDistinct (map ascii_lower hs)) same
          (subst IsDistinct (sym (map-IsLower asked low)) (distinct-IsDistinct [] given)),
    )
