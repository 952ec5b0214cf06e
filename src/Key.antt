-- ===== src/Key.antt =====
-- lib/interceptors/idempotency.interceptor.ts: `normalizeKey`, `normalizeScope` and `storeKey`.
pub mod Uri
pub mod Normal
pub mod Unique
use mathlib.Core.List.{reverse}
use mathlib.Core.Option
use Uri.{encode_uri_component}
use idempotency.Base.{
  ℕ, ◌≤◌, Bool, true, false, not, ◌&&◌, ◌||◌, List, [], ◌∷◌, ◌++◌, Option, none, some, ltb, leb,
  ◌==◌, length, if◌then◌else◌, Text,
}
use idempotency.Value
use idempotency.Value.{Value, finite, nil, item}

abbrev pub max_key_length : ℕ
max_key_length = 255

-- White space and line terminators, as `String.prototype.trim` knows them.
abbrev pub is_space : ℕ → Bool
is_space c =
    (leb 9 c && leb c 13)
    || c == 32
    || c == 0xa0
    || c == 0x1680
    || (leb 0x2000 c && leb c 0x200a)
    || c == 0x2028
    || c == 0x2029
    || c == 0x202f
    || c == 0x205f
    || c == 0x3000
    || c == 0xfeff

unfoldable pub trim_start : Text → Text
trim_start [] = []
trim_start (c ∷ s) = if is_space c then trim_start s else c ∷ s

unfoldable pub trim : Text → Text
unfolding trim_start
trim s = reverse (trim_start (reverse (trim_start s)))

-- What `.` does not match in a regular expression.
abbrev pub is_line_end : ℕ → Bool
is_line_end c = c == 10 || c == 13 || c == 0x2028 || c == 0x2029

abbrev pub all_of : (ℕ → Bool) → Text → Bool
all_of p [] = true
all_of p (c ∷ s) = p c && all_of p s

-- The rest of `^"(.*)"$` after the first quote: the text before a closing quote at the end.
unfoldable pub closed : Text → Option Text
closed [] = none
closed (c ∷ []) = if c == b'"' then some [] else none
closed (c ∷ d ∷ s) = elim (closed (d ∷ s)) [
  | none ↦ none
  | some inner ↦ if is_line_end c then none else some (c ∷ inner)
]

abbrev or_else : Option Text → Text → Text
or_else none s = s
or_else (some t) s = t

-- `.replace(/^"(.*)"$/, '$1')`.
unfoldable pub unquote : Text → Text
unfolding closed
unquote [] = []
unquote (c ∷ s) = if c == b'"' then or_else (closed s) (c ∷ s) else c ∷ s

-- `PRINTABLE_ASCII` on one character.
abbrev pub is_printable : ℕ → Bool
is_printable c = leb 0x20 c && leb c 0x7e

pub data KeyResult : Type 0 where
  missing invalid : KeyResult
  valid : Text → KeyResult

-- From `if (!key)` on.
checked : Text → KeyResult
checked [] = missing
checked (c ∷ s) =
    if leb (length (c ∷ s)) max_key_length && all_of is_printable (c ∷ s)
    then valid (c ∷ s)
    else invalid

unfoldable pub normalize_text : Text → KeyResult
unfolding trim unquote checked
normalize_text raw = checked (unquote (trim raw))

-- `if (Array.isArray(raw)) raw = raw[0]`.
unfoldable pub first_of_several : Value → Value
first_of_several (Value.array (item v vs)) = v
first_of_several (Value.array nil) = Value.undefined
first_of_several v = v

unfoldable pub normalize_scalar : Value → KeyResult
unfolding normalize_text
normalize_scalar Value.undefined = missing
normalize_scalar Value.null = missing
normalize_scalar (Value.number (finite digits)) = normalize_text digits
normalize_scalar (Value.bigint digits) = normalize_text digits
normalize_scalar (Value.string s) = normalize_text s
normalize_scalar v = invalid

unfoldable pub normalize_key : Value → KeyResult
unfolding first_of_several normalize_scalar
normalize_key raw = normalize_scalar (first_of_several raw)

pub data ScopeResult : Type 0 where
  global : ScopeResult
  scoped : Text → ScopeResult
  -- The `TypeError`.
  refused : ScopeResult

unfoldable pub normalize_scope : Value → ScopeResult
normalize_scope Value.undefined = global
normalize_scope Value.null = global
normalize_scope (Value.string []) = global
normalize_scope (Value.string (c ∷ s)) = scoped (c ∷ s)
normalize_scope (Value.number (finite digits)) = scoped digits
normalize_scope (Value.bigint digits) = scoped digits
normalize_scope v = refused

-- `[scope || undefined, key, suffix || undefined]` without the `undefined`s.
abbrev truthy : Option Text → List Text
truthy none = []
truthy (some []) = []
truthy (some (c ∷ s)) = (c ∷ s) ∷ []

unfoldable pub parts : Option Text → Text → Option Text → List Text
parts scope key suffix = truthy scope ++ key ∷ truthy suffix

-- `.map(encodeURIComponent)`; `none` is the `URIError`.
unfoldable pub encoded : List Text → Option (List Text)
encoded [] = some []
encoded (p ∷ ps) =
    Option.bind (encode_uri_component p) (λ e. Option.map (λ es. e ∷ es) (encoded ps))

unfoldable pub join : List Text → Text
join [] = []
join (p ∷ []) = p
join (p ∷ q ∷ ps) = p ++ b':' ∷ join (q ∷ ps)

unfoldable pub store_key : (scope : Option Text) (key : Text) (suffix : Option Text) → Option Text
unfolding parts encoded join
store_key scope key suffix = Option.map join (encoded (parts scope key suffix))
