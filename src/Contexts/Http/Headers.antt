-- ===== src/Contexts/Http/Headers.antt =====
-- The headers that are captured of a response, and those that a replay sets.
use idempotency.Base.Dict
use idempotency.Base.{
  ◌≡◌, refl, subst, List, [], ◌∷◌, Option, none, some, if◌then◌else◌, ite, arith, All, Text,
  text_eq,
}
use idempotency.Options.Startup.{has}
use idempotency.Interceptor.{HeaderValue}
use idempotency.Contexts.{Host}
use idempotency.Contexts.Http.Responses.{
  HttpResponse, keep_header, captured_headers, set_headers, or_else,
}

module _ (host : Host) where
  keep_header-get :
      (n k : Text) (v kept : Option HeaderValue) (hs : List (Text × HeaderValue))
      → kept ≡ Dict.get n hs
      → Dict.get k (keep_header host n v kept hs)
        ≡ or_else (Dict.get k hs) (ite (text_eq n k) v none)
  keep_header-get n k none kept hs e = ground arith
  keep_header-get n k (some v) (some w) hs e = ground (arith, e)
  keep_header-get n k (some v) none hs e = ground (arith, e, Dict.get-set n k v hs)

  pub captured_headers-get :
      (names : List Text) (res : HttpResponse) (hs : List (Text × HeaderValue)) (k : Text)
      → Dict.get k (captured_headers host names res hs)
        ≡ or_else (Dict.get k hs) (if has k names then Dict.get k res.headers else none)
  unfolding captured_headers has
  captured_headers-get [] res hs k = ground arith
  captured_headers-get (n ∷ names) res hs k =
      let next = keep_header host n (Dict.get n res.headers) (Dict.get n hs) hs in
      ground (
        arith,
        captured_headers-get names res next k,
        keep_header-get n k (Dict.get n res.headers) (Dict.get n hs) hs refl,
      )

  keep_header-IsMap :
      (n : Text) (v kept : Option HeaderValue) (hs : List (Text × HeaderValue))
      → Dict.IsMap hs
      → Dict.IsMap (keep_header host n v kept hs)
  keep_header-IsMap n none kept hs u = u
  keep_header-IsMap n (some v) (some w) hs u = u
  keep_header-IsMap n (some v) none hs u = Dict.set-IsMap n v hs u

  pub captured_headers-IsMap :
      (names : List Text) (res : HttpResponse) (hs : List (Text × HeaderValue))
      → Dict.IsMap hs
      → Dict.IsMap (captured_headers host names res hs)
  unfolding captured_headers
  captured_headers-IsMap [] res hs u = u
  captured_headers-IsMap (n ∷ names) res hs u =
      captured_headers-IsMap names res _
        (keep_header-IsMap n (Dict.get n res.headers) (Dict.get n hs) hs u)

  -- A predicate on names holds of the names captured.
  module _ (P : Text → Type 0) where
    abbrev pub AllNamed : List (Text × HeaderValue) → Type 0
    AllNamed = All (λ e. P e.0)

    set-AllNamed :
        (n : Text) (v : HeaderValue) (hs : List (Text × HeaderValue))
        → P n
        → AllNamed hs
        → AllNamed (Dict.set n v hs)
    unfolding Dict.set
    set-AllNamed n v [] p h = (p, tt)
    set-AllNamed n v ((m, w) ∷ hs) p h = ground (arith, set-AllNamed n v hs p h.1)

    keep_header-AllNamed :
        (n : Text) (v kept : Option HeaderValue) (hs : List (Text × HeaderValue))
        → P n
        → AllNamed hs
        → AllNamed (keep_header host n v kept hs)
    keep_header-AllNamed n none kept hs p h = h
    keep_header-AllNamed n (some v) (some w) hs p h = h
    keep_header-AllNamed n (some v) none hs p h = set-AllNamed n v hs p h

    pub captured_headers-AllNamed :
        (names : List Text) (res : HttpResponse) (hs : List (Text × HeaderValue))
        → All P names
        → AllNamed hs
        → AllNamed (captured_headers host names res hs)
    unfolding captured_headers
    captured_headers-AllNamed [] res hs p h = h
    captured_headers-AllNamed (n ∷ names) res hs p h =
        captured_headers-AllNamed names res _ p.1
          (keep_header-AllNamed n (Dict.get n res.headers) (Dict.get n hs) hs p.0 h)

  pub set_headers-get :
      (hs : List (Text × HeaderValue)) (res : HttpResponse) (k : Text)
      → Dict.IsMap hs
      → All (λ e. host.lower e.0 ≡ e.0) hs
      → Dict.get k (set_headers host hs res).headers
        ≡ or_else (Dict.get k hs) (Dict.get k res.headers)
  unfolding set_headers Dict.get
  set_headers-get [] res k u low = refl
  set_headers-get ((n, v) ∷ hs) res k u low =
      let next = record res { headers = Dict.set (host.lower n) v res.headers } in
      ground (
        arith,
        set_headers-get hs next k u.1 low.1,
        Dict.get-set (host.lower n) k v res.headers,
        λ (p : n ≡ k). Dict.get-IsFresh k hs (subst (λ x. Dict.IsFresh x hs) p u.0),
      )

  pub set_headers-status :
      (hs : List (Text × HeaderValue)) (res : HttpResponse)
      → (set_headers host hs res).status ≡ res.status
  unfolding set_headers
  set_headers-status [] res = refl
  set_headers-status ((n, v) ∷ hs) res =
      set_headers-status hs (record res { headers = Dict.set (host.lower n) v res.headers })
