-- ===== src/Interceptor/Warnings.antt =====
-- `warnOnce`: the warnings logged, and for each topic the handlers already warned about. A handler
-- is named where the `WeakSet` holds the function.
use idempotency.Base.Dict
use idempotency.Base.{
  as_number, ℕ, ◌+◌, ◌≡◌, refl, ap, ap₂, sym, ◌∙◌, Bool-cases, inl, inr, Bool, true, false, ◌||◌,
  List, [], ◌∷◌, none, some, ite, arith, Text, text_eq, among, if◌then◌else◌,
}

-- A warning, by its topic and its handler.
abbrev pub Warning : Type 0
Warning = Text × Text

-- `log` is the newest first.
pub record Logged : Type 0 where
  pub warned : List (Text × List Text)
  pub log : List Warning

unfoldable pub start : Logged
start = record { warned = []; log = [] }

abbrev pub handlers_of : Text → Logged → List Text
handlers_of topic w = elim (Dict.get topic w.warned) [ none ↦ [] | some handlers ↦ handlers ]

unfoldable pub warn_once : Warning → Logged → Logged
unfolding Dict.get Dict.set among
warn_once (topic, handler) w =
    let handlers = handlers_of topic w in
    if among handler handlers then w else record {
      warned = Dict.set topic (handler ∷ handlers) w.warned;
      log = (topic, handler) ∷ w.log;
    }

-- The first call of a list is the first made.
unfoldable pub warn_all : List Warning → Logged → Logged
unfolding warn_once
warn_all [] w = w
warn_all (x ∷ xs) w = warn_all xs (warn_once x w)

-- How often this warning stands in a list.
abbrev pub same_warning : Warning → Warning → Bool
same_warning (t, h) (u, k) = ite (text_eq t u) (ite (text_eq h k) true false) false

unfoldable pub times : Warning → List Warning → ℕ
times x [] = 0
times x (y ∷ ys) = let rest = times x ys in if same_warning x y then rest + 1 else rest

unfoldable pub called : Warning → List Warning → Bool
called x [] = false
called x (y ∷ ys) = same_warning x y || called x ys

abbrev knows : Warning → Logged → Bool
knows (topic, handler) w = among handler (handlers_of topic w)

handlers_of-set :
    (t u : Text) (hs : List Text) (m : List (Text × List Text)) (log : List Warning)
    → handlers_of t (record { warned = Dict.set u hs m; log = log })
      ≡ ite (text_eq u t) hs (handlers_of t (record { warned = m; log = log }))
handlers_of-set t u hs m log = ground (arith, Dict.get-set {V = List Text} u t hs m)

-- The call of a warning, by whether its handler is new to the topic.
warn_once-known :
    (u k : Text) (w : Logged) → among k (handlers_of u w) ≡ true → warn_once (u, k) w ≡ w
unfolding warn_once
warn_once-known u k w h = ground (arith, h)

warn_once-new :
    (u k : Text) (w : Logged)
    → among k (handlers_of u w) ≡ false
    → warn_once (u, k) w
      ≡ record { warned = Dict.set u (k ∷ handlers_of u w) w.warned; log = (u, k) ∷ w.log }
unfolding warn_once
warn_once-new u k w h = ground (arith, h)

-- A handler after a call, by whether it is the one that was called.
choices :
    {t u h k : Text} (d : Dec (u ≡ t)) (d' : Dec (t ≡ u)) (d'' : Dec (h ≡ k)) (a b : Bool)
    → (t ≡ u → a ≡ b)
    → ite d (ite d'' true a) b ≡ (ite d' (ite d'' true false) false || b)
choices (yes e) (yes e') (yes f) a b h = refl
choices (yes e) (yes e') (no n) a b h = h e'
choices (yes e) (no n) d'' a b h = absurd (n (sym e))
choices (no n) (yes e') d'' a b h = absurd (n (sym e'))
choices (no n) (no n') d'' a b h = refl

among-ite :
    {t u : Text} (d : Dec (u ≡ t)) (h k : Text) (hs hs' : List Text)
    → among h (ite d (k ∷ hs) hs') ≡ ite d (ite (text_eq h k) true (among h hs)) (among h hs')
unfolding among
among-ite (yes e) h k hs hs' = refl
among-ite (no n) h k hs hs' = refl

knows-new :
    (t h u k : Text) (w : Logged)
    → knows
        (t, h)
        (record { warned = Dict.set u (k ∷ handlers_of u w) w.warned; log = (u, k) ∷ w.log })
      ≡ (same_warning (t, h) (u, k) || knows (t, h) w)
knows-new t h u k w =
    ap (among h) (handlers_of-set t u (k ∷ handlers_of u w) w.warned ((u, k) ∷ w.log))
    ∙ among-ite (text_eq u t) h k (handlers_of u w) (handlers_of t w)
    ∙ choices (text_eq u t) (text_eq t u) (text_eq h k) (among h (handlers_of u w))
        (among h (handlers_of t w)) (λ e. ap (λ v. among h (handlers_of v w)) (sym e))

-- A handler that the topic knows already is the called one's like.
knows-known :
    (t h u k : Text) (w : Logged)
    → among k (handlers_of u w) ≡ true
    → knows (t, h) w ≡ (same_warning (t, h) (u, k) || knows (t, h) w)
knows-known t h u k w known = go (text_eq t u) (text_eq h k)
  where
    go :
        (d : Dec (t ≡ u)) (d' : Dec (h ≡ k))
        → knows (t, h) w ≡ (ite d (ite d' true false) false || knows (t, h) w)
    go (no n) d' = refl
    go (yes e) (no n) = refl
    go (yes e) (yes f) = ap₂ (λ v x. among x (handlers_of v w)) e f ∙ known

-- What a call adds: the warning, unless its handler is known to the topic.
warn_once-has :
    (x y : Warning) (w : Logged) → knows x (warn_once y w) ≡ (same_warning x y || knows x w)
warn_once-has (t, h) (u, k) w = elim (Bool-cases (among k (handlers_of u w))) [
  | inl known ↦ ap (knows (t, h)) (warn_once-known u k w known) ∙ knows-known t h u k w known
  | inr new ↦ ap (knows (t, h)) (warn_once-new u k w new) ∙ knows-new t h u k w
]

times-new :
    (t h u k : Text) (w : Logged)
    → among k (handlers_of u w) ≡ false
    → times (t, h) w.log ≡ as_number (knows (t, h) w)
    → times (t, h) ((u, k) ∷ w.log) ≡ as_number (same_warning (t, h) (u, k) || knows (t, h) w)
unfolding times
times-new t h u k w new e = go (text_eq t u) (text_eq h k)
  where
    go :
        (d : Dec (t ≡ u)) (d' : Dec (h ≡ k))
        → (if ite d (ite d' true false) false then times (t, h) w.log + 1 else times (t, h) w.log)
          ≡ as_number (ite d (ite d' true false) false || knows (t, h) w)
    go (no n) d' = e
    go (yes p) (no n) = e
    go (yes p) (yes q) =
        ap (λ n. n + 1) (e ∙ ap as_number (ap₂ (λ v x. among x (handlers_of v w)) p q ∙ new))

warn_once-times :
    (x y : Warning) (w : Logged)
    → times x w.log ≡ as_number (knows x w)
    → times x (warn_once y w).log ≡ as_number (knows x (warn_once y w))
warn_once-times (t, h) (u, k) w e = elim (Bool-cases (among k (handlers_of u w))) [
  | inl known ↦
      ap (λ v. times (t, h) v.log) (warn_once-known u k w known)
      ∙ e
      ∙ sym (ap (λ v. as_number (knows (t, h) v)) (warn_once-known u k w known))
  | inr new ↦
      ap (λ v. times (t, h) v.log) (warn_once-new u k w new)
      ∙ times-new t h u k w new e
      ∙ sym (
          ap (λ v. as_number (knows (t, h) v)) (warn_once-new u k w new)
          ∙ ap as_number (knows-new t h u k w))
]

warn_all-times :
    (x : Warning) (ys : List Warning) (w : Logged)
    → times x w.log ≡ as_number (knows x w)
    → times x (warn_all ys w).log ≡ as_number (called x ys || knows x w)
unfolding warn_all called
warn_all-times x [] w e = e
warn_all-times x (y ∷ ys) w e =
    warn_all-times x ys (warn_once y w) (warn_once-times x y w e)
    ∙ ap (λ b. as_number (called x ys || b)) (warn_once-has x y w)
    ∙ ap as_number (reorder (called x ys) (same_warning x y) (knows x w))
  where
    reorder : (a b c : Bool) → (a || (b || c)) ≡ ((b || a) || c)
    reorder true true c = refl
    reorder true false c = refl
    reorder false true c = refl
    reorder false false c = refl

-- However often and in whatever order the interceptor warns, the log has each warning once for each
-- handler and topic that it was asked for, and no other.
pub each_warned_once :
    (x : Warning) (ys : List Warning) → times x (warn_all ys start).log ≡ as_number (called x ys)
unfolding start times Dict.get among
each_warned_once x ys =
    warn_all-times x ys start (empty x) ∙ ap as_number (none_before x (called x ys))
  where
    empty : (x : Warning) → times x start.log ≡ as_number (knows x start)
    empty x = refl

    none_before : (x : Warning) (b : Bool) → (b || knows x start) ≡ b
    none_before x true = refl
    none_before x false = refl
