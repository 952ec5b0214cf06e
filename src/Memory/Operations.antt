-- ===== src/Memory/Operations.antt =====
-- Each operation of the in-memory store against the contract of one key's record.
use idempotency.Base.Dict
use idempotency.Base.{
  ℕ, ◌+◌, ◌≤◌, ◌≡◌, refl, sym, ap, ◌∙◌, subst, ite, List, Option, none, some, arith, Text, text_eq,
}
use native.Mathlib.Nat.{le_refl}
use idempotency.Store.{Entry, live, after, on_acquire, on_lock, completing, releasing, extending}
use idempotency.Memory.{Memory, read, maybe_sweep, taken, acquire, owned, complete, release, extend}
use idempotency.Memory.Expiry.{
  view, view-fades, read-view, read-IsMap, maybe_sweep-view, maybe_sweep-IsMap,
}

module _ {P : Type 0} where
  -- What an operation does to the views from `now` on, and to the map's keys.
  pub record Keeps (m m' : Memory P) (now : ℕ) (key : Text) (cell : Option (Entry P)) : Type 0 where
    pub shows : (t : ℕ) (j : Text) → now ≤ t → view m' t j ≡ after key cell (view m) t j
    pub distinct : Dict.IsMap m.entries → Dict.IsMap m'.entries

  taken_lem :
      (m : Memory P) (o : Option (Entry P)) (now : ℕ) (key owner fingerprint : Text) (ttl : ℕ)
      → o ≡ view m now key
      → let r = taken (m, o) now key owner fingerprint ttl in
        let s = on_acquire owner fingerprint (now + ttl) o in (r.1 ≡ s.1) × Keeps m r.0 now key s.0
  unfolding taken on_acquire
  taken_lem m none now key owner fingerprint ttl e = (
    refl,
    record {
      shows = λ t j h. ground (
        arith,
        Dict.get-set {V = Entry P} key j (Entry.in_flight fingerprint owner (now + ttl)) m.entries,
      );
      distinct = λ u. Dict.set-IsMap key _ m.entries u;
    },
  )
  taken_lem m (some (Entry.in_flight f o x)) now key owner fingerprint ttl e =
      (refl, record { shows = λ t j h. ground (arith, view-fades m now t j h); distinct = λ u. u })
  taken_lem m (some (Entry.completed f o x)) now key owner fingerprint ttl e =
      (refl, record { shows = λ t j h. ground (arith, view-fades m now t j h); distinct = λ u. u })

  -- The writes that the three compare-and-sets make, against what the contract makes of the lock.
  abbrev Writes :
      (now : ℕ) (key : Text)
      → (Text → List (Text × Entry P) → List (Text × Entry P))
      → (Text → Option (Entry P))
      → Type 0
  Writes now key write cell =
      (f : Text) (m : List (Text × Entry P))
      → ((t : ℕ) (j : Text)
          → live t (Dict.get j (write f m))
            ≡ ite (text_eq key j) (live t (cell f)) (live t (Dict.get j m)))
        × (Dict.IsMap m → Dict.IsMap (write f m))

  set-Writes :
      (now : ℕ) (key : Text) (cell : Text → Entry P)
      → Writes now key (λ f. Dict.set key (cell f)) (λ f. some (cell f))
  set-Writes now key cell f m = (
    λ t j. ground (arith, Dict.get-set {V = Entry P} key j (cell f) m),
    Dict.set-IsMap key (cell f) m,
  )

  delete-Writes : (now : ℕ) (key : Text) → Writes now key (λ f. Dict.delete key) releasing
  delete-Writes now key f m =
      (λ t j. ground (arith, Dict.get-delete {V = Entry P} key j m), Dict.delete-IsMap key m)

  owned_lem :
      (m : Memory P) (o : Option (Entry P)) (now : ℕ) (key owner : Text)
      (write : Text → List (Text × Entry P) → List (Text × Entry P))
      (cell : Text → Option (Entry P))
      → Writes now key write cell
      → o ≡ view m now key
      → let r = owned (m, o) owner write in
        let s = on_lock owner cell o in (r.1 ≡ s.1) × Keeps m r.0 now key s.0
  unfolding owned on_lock
  owned_lem m none now key owner write cell w e =
      (refl, record { shows = λ t j h. ground (arith, view-fades m now t j h); distinct = λ u. u })
  owned_lem m (some (Entry.completed f r x)) now key owner write cell w e =
      (refl, record { shows = λ t j h. ground (arith, view-fades m now t j h); distinct = λ u. u })
  owned_lem m (some (Entry.in_flight f o x)) now key owner write cell w e = (
    ground arith,
    record {
      shows = λ t j h. ground (arith, view-fades m now t j h, (w f m.entries).0 t j);
      distinct = λ u. ground (arith, (w f m.entries).1 u);
    },
  )

  Keeps-after :
      {m m₁ m₂ : Memory P} {now : ℕ} {key : Text} {cell : Option (Entry P)}
      → ((t : ℕ) (j : Text) → now ≤ t → view m₁ t j ≡ view m t j)
      → (Dict.IsMap m.entries → Dict.IsMap m₁.entries)
      → Keeps m₁ m₂ now key cell
      → Keeps m m₂ now key cell
  Keeps-after same map k = record {
    shows = λ t j h. ground (arith, k.shows t j h, same t j h);
    distinct = λ u. k.distinct (map u);
  }

  view-read :
      (m : Memory P) (now : ℕ) (key : Text) → view m now key ≡ view (read m now key).0 now key
  view-read m now key = sym ((read-view m now key).1 now key (le_refl now))

  -- `read`, and the operation on what it shows.
  after_read :
      (m : Memory P) (now : ℕ) (key : Text) (m₂ : Memory P)
      (cell : Option (Entry P) → Option (Entry P))
      → Keeps (read m now key).0 m₂ now key (cell (read m now key).1)
      → Keeps m m₂ now key (cell (view m now key))
  after_read m now key m₂ cell k =
      Keeps-after {m₁ = (read m now key).0} ((read-view m now key).1) (read-IsMap m now key)
        (subst (λ o. Keeps (read m now key).0 m₂ now key (cell o)) (read-view m now key).0 k)

  -- An operation's outcome is what the contract makes of the key's live record.
  abbrev pub Meets :
      {R : Type 0}
      → Memory P
      → Memory P × R
      → (now : ℕ) (key : Text) → Option (Entry P) × R
      → Type 0
  Meets m r now key c = (r.1 ≡ c.1) × Keeps m r.0 now key c.0

  locked_lem :
      (m : Memory P) (now : ℕ) (key owner : Text)
      (write : Text → List (Text × Entry P) → List (Text × Entry P))
      (cell : Text → Option (Entry P))
      → Writes now key write cell
      → Meets m (owned (read m now key) owner write) now key (on_lock owner cell (view m now key))
  locked_lem m now key owner write cell w =
      let shown = (read-view m now key).0 in
      let step =
        owned_lem (read m now key).0 (read m now key).1 now key owner write cell w
          (shown ∙ view-read m now key) in
      (
        step.0 ∙ ap (λ o. (on_lock owner cell o).1) shown,
        after_read m now key (owned (read m now key) owner write).0 (λ o. (on_lock owner cell o).0)
            step.1,
      )

  -- `complete()` does to its key's record, and answers, what the contract says: the owner's live lock
  -- becomes the stored response, and anything else stays. The records of other keys stay, now and
  -- at every later time, and the map's keys stay distinct.
  pub complete-Meets :
      (m : Memory P) (now : ℕ) (key owner : Text) (response : P) (ttl : ℕ)
      → Meets m
          (complete m now key owner response ttl)
          now
          key
          (on_lock owner (completing response (now + ttl)) (view m now key))
  unfolding complete
  complete-Meets m now key owner response ttl =
      locked_lem m now key owner _ _
        (set-Writes now key (λ f. Entry.completed f response (now + ttl)))

  -- `release()` does to its key's record, and answers, what the contract says: the owner's live lock
  -- is removed, and anything else stays. The records of other keys stay, now and at every later time,
  -- and the map's keys stay distinct.
  pub release-Meets :
      (m : Memory P) (now : ℕ) (key owner : Text)
      → Meets m (release m now key owner) now key (on_lock owner releasing (view m now key))
  unfolding release
  release-Meets m now key owner = locked_lem m now key owner _ _ (delete-Writes now key)

  -- `extend()` does to its key's record, and answers, what the contract says: the owner's live lock
  -- lasts for the new time, and anything else stays. The records of other keys stay, now and at every
  -- later time, and the map's keys stay distinct.
  pub extend-Meets :
      (m : Memory P) (now : ℕ) (key owner : Text) (ttl : ℕ)
      → Meets m
          (extend m now key owner ttl)
          now
          key
          (on_lock owner (extending owner (now + ttl)) (view m now key))
  unfolding extend
  extend-Meets m now key owner ttl =
      locked_lem m now key owner _ _ (set-Writes now key (λ f. Entry.in_flight f owner (now + ttl)))

  -- `acquire()` on a map with distinct keys, with its periodic sweep, does to its key's record, and
  -- answers, what the contract says: a free or expired key is locked, and a live lock or record stays
  -- and is reported. The records of other keys stay, now and at every later time, and the map's keys
  -- stay distinct.
  pub acquire-Meets :
      (m : Memory P) (now : ℕ) (key owner fingerprint : Text) (ttl : ℕ)
      → Dict.IsMap m.entries
      → Meets m
          (acquire m now key owner fingerprint ttl)
          now
          key
          (on_acquire owner fingerprint (now + ttl) (view m now key))
  unfolding acquire
  acquire-Meets m now key owner fingerprint ttl u =
      let swept = maybe_sweep m now in
      let r = read swept now key in
      let same : view swept now key ≡ view m now key =
        maybe_sweep-view m now now key u (le_refl now) in
      let shown = (read-view swept now key).0 in
      let step =
        taken_lem r.0 r.1 now key owner fingerprint ttl (shown ∙ view-read swept now key) in
      let cell = λ (o : Option (Entry P)). on_acquire owner fingerprint (now + ttl) o in
      (
        step.0 ∙ ap (λ o. (cell o).1) (shown ∙ same),
        subst (λ o. Keeps m (taken r now key owner fingerprint ttl).0 now key (cell o).0) same
            (Keeps-after {m₁ = swept} (λ t j h. maybe_sweep-view m now t j u h)
              (maybe_sweep-IsMap m now)
              (after_read swept now key (taken r now key owner fingerprint ttl).0 (λ o. (cell o).0)
                step.1)),
      )
