-- ===== src/Memory/Expiry.antt =====
-- Reading and sweeping the in-memory store: expired entries go, and no live one does.
use idempotency.Base.Dict
use idempotency.Base.{ℕ, ◌≤◌, ◌≡◌, refl, subst, List, [], ◌∷◌, Option, none, some, arith, Text}
use idempotency.Store.{Entry, live}
use idempotency.Memory.{Memory, read, drop_expired, sweep, maybe_sweep}

module _ {P : Type 0} where
  -- The live entry of a key.
  abbrev pub view : Memory P → ℕ → Text → Option (Entry P)
  view m t j = live t (Dict.get j m.entries)

  live-live : (now t : ℕ) (o : Option (Entry P)) → now ≤ t → live t (live now o) ≡ live t o
  live-live now t none h = refl
  live-live now t (some e) h = ground arith

  pub view-fades :
      (m : Memory P) (now t : ℕ) (j : Text) → now ≤ t → view m t j ≡ live t (view m now j)
  view-fades m now t j h = ground (arith, live-live now t (Dict.get j m.entries))

  pub get-drop_expired :
      (now t : ℕ) (j : Text) (m : List (Text × Entry P))
      → Dict.IsMap m
      → now ≤ t
      → live t (Dict.get j (drop_expired now m)) ≡ live t (Dict.get j m)
  unfolding drop_expired Dict.get
  get-drop_expired now t j [] u h = refl
  get-drop_expired now t j ((k, e) ∷ m) u h = ground (
    arith,
    get-drop_expired now t j m u.1 h,
    λ (p : k ≡ j). Dict.get-IsFresh j m (subst (λ x. Dict.IsFresh x m) p u.0),
  )

  drop_expired-IsFresh :
      (now : ℕ) (j : Text) (m : List (Text × Entry P))
      → Dict.IsFresh j m
      → Dict.IsFresh j (drop_expired now m)
  unfolding drop_expired
  drop_expired-IsFresh now j [] h = tt
  drop_expired-IsFresh now j ((k, e) ∷ m) h = ground (arith, drop_expired-IsFresh now j m h.1)

  pub drop_expired-IsMap :
      (now : ℕ) (m : List (Text × Entry P)) → Dict.IsMap m → Dict.IsMap (drop_expired now m)
  unfolding drop_expired
  drop_expired-IsMap now [] h = tt
  drop_expired-IsMap now ((k, e) ∷ m) h =
      ground (arith, drop_expired-IsMap now m h.1, drop_expired-IsFresh now k m h.0)

  -- `read` shows the live entry, and changes no view.
  pub read-view :
      (m : Memory P) (now : ℕ) (k : Text)
      → ((read m now k).1 ≡ view m now k)
        × ((t : ℕ) (j : Text) → now ≤ t → view (read m now k).0 t j ≡ view m t j)
  unfolding read
  read-view m now k = (ground arith, λ t j h. ground (arith, Dict.get-delete k j m.entries))

  pub read-IsMap :
      (m : Memory P) (now : ℕ) (k : Text)
      → Dict.IsMap m.entries
      → Dict.IsMap (read m now k).0.entries
  unfolding read
  read-IsMap m now k h = ground (arith, Dict.delete-IsMap k m.entries h)

  pub maybe_sweep-view :
      (m : Memory P) (now t : ℕ) (j : Text)
      → Dict.IsMap m.entries
      → now ≤ t
      → view (maybe_sweep m now) t j ≡ view m t j
  unfolding maybe_sweep sweep
  maybe_sweep-view m now t j u h = ground (arith, get-drop_expired now t j m.entries u h)

  pub maybe_sweep-IsMap :
      (m : Memory P) (now : ℕ) → Dict.IsMap m.entries → Dict.IsMap (maybe_sweep m now).entries
  unfolding maybe_sweep sweep
  maybe_sweep-IsMap m now h = ground (arith, drop_expired-IsMap now m.entries h)
