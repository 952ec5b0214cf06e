-- ===== src/Interceptor/Interception/Globals.antt =====
-- Which orders of global interceptors `onApplicationBootstrap` accepts.
use idempotency.Base.{
  ◌≡◌, ◌≢◌, inl, inr, refl, sym, ◌∙◌, ◌↔◌, Option-cases, true, List, [], ◌∷◌, none, some, arith,
  if◌then◌else◌,
}
use idempotency.Interceptor.Interception.{
  Global, itself, class_serializer, other, Startup, starts, warns, refuses, outside, serializes,
  on_application_bootstrap,
}

-- The interceptor is among those registered.
pub data Registered : List Global → Type 0 where
  first : {l : List Global} → Registered (itself ∷ l)
  behind : {g : Global} {l : List Global} → Registered l → Registered (g ∷ l)

-- One that serializes from the class is registered before it.
pub data SerializedOutside : List Global → Type 0 where
  here : {l : List Global} → Registered l → SerializedOutside (class_serializer ∷ l)
  below :
      {g : Global} {l : List Global} → g ≢ itself → SerializedOutside l → SerializedOutside (g ∷ l)

-- Any is registered before it.
pub data Wrapped : List Global → Type 0 where
  wrapped : {g : Global} {l : List Global} → g ≢ itself → Registered l → Wrapped (g ∷ l)

outside-Registered : (l gs : List Global) → outside l ≡ some gs → Registered l
unfolding outside
outside-Registered [] gs e = absurd (ground (arith, e))
outside-Registered (itself ∷ l) gs e = first
outside-Registered (class_serializer ∷ l) gs e = elim (Option-cases (outside l)) [
  | inl n ↦ absurd (ground (arith, n, e))
  | inr (hs, s) ↦ behind (outside-Registered l hs s)
]
outside-Registered (other ∷ l) gs e = elim (Option-cases (outside l)) [
  | inl n ↦ absurd (ground (arith, n, e))
  | inr (hs, s) ↦ behind (outside-Registered l hs s)
]

Registered-outside : (l : List Global) → Registered l → (gs : List Global) × (outside l ≡ some gs)
unfolding outside
Registered-outside [] r = elim r [ ]
Registered-outside (itself ∷ l) r = ([], refl)
Registered-outside (class_serializer ∷ l) (behind r) =
    let (gs, e) = Registered-outside l r in (class_serializer ∷ gs, ground (arith, e))
Registered-outside (other ∷ l) (behind r) =
    let (gs, e) = Registered-outside l r in (other ∷ gs, ground (arith, e))

serializes-SerializedOutside :
    (l gs : List Global) → outside l ≡ some gs → serializes gs ≡ true → SerializedOutside l
unfolding outside serializes
serializes-SerializedOutside [] gs e s = absurd (ground (arith, e))
serializes-SerializedOutside (itself ∷ l) gs e s = absurd (ground (arith, e, s))
serializes-SerializedOutside (class_serializer ∷ l) gs e s = elim (Option-cases (outside l)) [
  | inl n ↦ absurd (ground (arith, n, e))
  | inr (hs, t) ↦ here (outside-Registered l hs t)
]
serializes-SerializedOutside (other ∷ l) gs e s = elim (Option-cases (outside l)) [
  | inl n ↦ absurd (ground (arith, n, e))
  | inr (hs, t) ↦ below (λ q. cc) (serializes-SerializedOutside l hs t (ground (arith, t, e, s)))
]

SerializedOutside-serializes :
    (l : List Global)
    → SerializedOutside l
    → (gs : List Global) × (outside l ≡ some gs) × (serializes gs ≡ true)
unfolding outside serializes
SerializedOutside-serializes [] o = elim o [ ]
SerializedOutside-serializes (class_serializer ∷ l) (here r) =
    let (gs, e) = Registered-outside l r in (class_serializer ∷ gs, ground (arith, e), refl)
SerializedOutside-serializes (itself ∷ l) (below n o) = absurd (n refl)
SerializedOutside-serializes (class_serializer ∷ l) (below n o) =
    let (gs, e, s) = SerializedOutside-serializes l o in
    (class_serializer ∷ gs, ground (arith, e), refl)
SerializedOutside-serializes (other ∷ l) (below n o) =
    let (gs, e, s) = SerializedOutside-serializes l o in (other ∷ gs, ground (arith, e), s)

-- What `on_application_bootstrap` says of the interceptors before this one.
verdict : List Global → Startup
verdict [] = starts
verdict (g ∷ gs) = if serializes (g ∷ gs) then refuses else warns

verdict_lem : (l gs : List Global) → outside l ≡ some gs → on_application_bootstrap l ≡ verdict gs
unfolding on_application_bootstrap verdict
verdict_lem l [] e = ground (arith, e)
verdict_lem l (g ∷ gs) e = ground (arith, e)

refuses-serializes : (gs : List Global) → verdict gs ≡ refuses → serializes gs ≡ true
unfolding verdict serializes
refuses-serializes [] e = absurd (ground (arith, e))
refuses-serializes (g ∷ gs) e = ground (arith, e)

serializes-refuses : (gs : List Global) → serializes gs ≡ true → verdict gs ≡ refuses
unfolding verdict serializes
serializes-refuses [] e = absurd (ground (arith, e))
serializes-refuses (g ∷ gs) e = ground (arith, e)

unregistered_lem : (l : List Global) → outside l ≡ none → on_application_bootstrap l ≡ starts
unfolding on_application_bootstrap
unregistered_lem l e = ground (arith, e)

starts_no_refusal : starts ≢ refuses
starts_no_refusal e = cc

verdict_no_start : (g : Global) (gs : List Global) → verdict (g ∷ gs) ≢ starts
unfolding verdict
verdict_no_start g gs e = absurd (ground (arith, e))

Wrapped-outside :
    (l : List Global) → Wrapped l → (g : Global) × (gs : List Global) × (outside l ≡ some (g ∷ gs))
unfolding outside
Wrapped-outside [] w = elim w [ ]
Wrapped-outside (itself ∷ l) (wrapped n r) = absurd (n refl)
Wrapped-outside (class_serializer ∷ l) (wrapped n r) =
    let (gs, e) = Registered-outside l r in (class_serializer, gs, ground (arith, e))
Wrapped-outside (other ∷ l) (wrapped n r) =
    let (gs, e) = Registered-outside l r in (other, gs, ground (arith, e))

outside-Wrapped :
    (l : List Global) (g : Global) (gs : List Global) → outside l ≡ some (g ∷ gs) → Wrapped l
unfolding outside
outside-Wrapped [] g gs e = absurd (ground (arith, e))
outside-Wrapped (itself ∷ l) g gs e = absurd (ground (arith, e))
outside-Wrapped (class_serializer ∷ l) g gs e = elim (Option-cases (outside l)) [
  | inl n ↦ absurd (ground (arith, n, e))
  | inr (hs, t) ↦ wrapped (λ q. cc) (outside-Registered l hs t)
]
outside-Wrapped (other ∷ l) g gs e = elim (Option-cases (outside l)) [
  | inl n ↦ absurd (ground (arith, n, e))
  | inr (hs, t) ↦ wrapped (λ q. cc) (outside-Registered l hs t)
]

-- The app's startup is refused exactly where a `ClassSerializerInterceptor` is registered before this
-- interceptor, and goes on without a warning exactly where no interceptor is, be it that this one
-- isn't registered.
pub on_application_bootstrap_lem :
    (l : List Global)
    → ((on_application_bootstrap l ≡ refuses) ↔ SerializedOutside l)
      × ((on_application_bootstrap l ≡ starts) ↔ (¬ Wrapped l))
unfolding verdict
on_application_bootstrap_lem l = ((refused, refuses_it), (started, starts_it))
  where
    refused : on_application_bootstrap l ≡ refuses → SerializedOutside l
    refused e = elim (Option-cases (outside l)) [
      | inl n ↦ absurd (starts_no_refusal (sym (unregistered_lem l n) ∙ e))
      | inr (gs, s) ↦
          serializes-SerializedOutside l gs s (refuses-serializes gs (sym (verdict_lem l gs s) ∙ e))
    ]

    refuses_it : SerializedOutside l → on_application_bootstrap l ≡ refuses
    refuses_it o =
        let (gs, s, e) = SerializedOutside-serializes l o in
        verdict_lem l gs s ∙ serializes-refuses gs e

    started : on_application_bootstrap l ≡ starts → ¬ Wrapped l
    started e w =
        let (g, gs, s) = Wrapped-outside l w in
        verdict_no_start g gs (sym (verdict_lem l (g ∷ gs) s) ∙ e)

    starts_it : ¬ Wrapped l → on_application_bootstrap l ≡ starts
    starts_it h = elim (Option-cases (outside l)) [
      | inl n ↦ unregistered_lem l n
      | inr (gs, s) ↦ by_outside gs s
    ]
      where
        by_outside : (gs : List Global) → outside l ≡ some gs → on_application_bootstrap l ≡ starts
        by_outside [] s = verdict_lem l [] s
        by_outside (g ∷ gs) s = absurd (h (outside-Wrapped l g gs s))
