-- ===== src/TtlCache/Freshness.antt =====
-- The cache of app/_perf.py against the history of the calls made on it.
use underlying_analyzer_rebo.Base.{
  ℕ, ◌+◌, ◌<◌, ◌≡◌, refl, sym, ◌∙◌, inl, inr, Option, none, some, List, [], ◌∷◌, arith, Key,
  if◌then◌else◌, Bool-cases, Option-cases,
}
use underlying_analyzer_rebo.TtlCache.Store.{
  Entry, TtlCache, find, pop, get, write, set, clear, find-pop, find-put, off, evicted, added,
  set-Written, set-raises,
}
use underlying_analyzer_rebo.TtlCache.Bounds.{
  IsBounded, get-IsBounded, set-IsBounded, clear-IsBounded,
}

-- A call of a method, with the reading of the clock that it makes.
pub data Call {ℓ κ} (K : Type ℓ) (V : Type κ) : Type (ℓ ⊔ κ) where
  got : K → ℕ → Call K V
  stored : K → V → ℕ → Call K V
  cleared : Call K V

module _ {ℓ κ} {K : Type ℓ} {V : Type κ} ⦃e : Key K⦄ where
  -- A `ValueError` leaves the cache as it was.
  abbrev or_same : TtlCache K V → Option (TtlCache K V) → TtlCache K V
  or_same c none = c
  or_same c (some c') = c'

  unfoldable pub step : Call K V → TtlCache K V → TtlCache K V
  step (got k now) c = (get c k now).1
  step (stored k v now) c = or_same c (set c k v now)
  step cleared c = clear c

  abbrev pub new : ℕ → ℕ → TtlCache K V
  new ttl most = record { ttl_seconds = ttl; max_entries = most; store = [] }

  -- The cache after a history, its last call first.
  unfoldable pub run : List (Call K V) → TtlCache K V → TtlCache K V
  run [] c = c
  run (call ∷ h) c = step call (run h c)

  -- The value last stored under a key since the last `clear`, and when.
  abbrev pub latest : List (Call K V) → K → Option (V × ℕ)
  latest [] k = none
  latest (got j now ∷ h) k = latest h k
  latest (stored j v now ∷ h) k = if e.same j k then some (v, now) else latest h k
  latest (cleared ∷ h) k = none

  step-IsBounded : (call : Call K V) (c : TtlCache K V) → IsBounded c → IsBounded (step call c)
  unfolding step
  step-IsBounded (got k now) c b = get-IsBounded c k now b
  step-IsBounded (stored k v now) c b = elim (Option-cases (set c k v now)) [
    | inl failed ↦ rw failed b
    | inr (c', done) ↦ rw done (set-IsBounded c k v now c' b done)
  ]
  step-IsBounded cleared c b = clear-IsBounded c

  -- Whatever calls are made on a new cache, it holds at most `max_entries` entries, and no key
  -- twice.
  pub run-IsBounded : (ttl most : ℕ) (h : List (Call K V)) → IsBounded (run h (new ttl most))
  unfolding run
  run-IsBounded ttl most [] = record { distinct = tt; within = omega arith }
  run-IsBounded ttl most (call ∷ h) =
      step-IsBounded call (run h (new ttl most)) (run-IsBounded ttl most h)

  -- Each stored entry is the latest of its key, and expires a time to live after it was stored.
  record Agrees (ttl : ℕ) (h : List (Call K V)) (c : TtlCache K V) : Type (ℓ ⊔ κ) where
    same_ttl : c.ttl_seconds ≡ ttl
    idle : ttl ≡ 0 → (k : K) → find k c.store ≡ none
    entry :
        (k : K) (x : Entry V)
        → find k c.store ≡ some x
        → (t : ℕ) × (latest h k ≡ some (x.value, t)) × (x.expires_at ≡ t + ttl)

  write-Agrees :
      (ttl : ℕ) (h : List (Call K V)) (c : TtlCache K V) (k : K) (v : V) (now : ℕ)
      (room : List (K × Entry V))
      → 0 < ttl
      → Agrees ttl h c
      → ((j : K) (x : Entry V) → find j room ≡ some x → find j c.store ≡ some x)
      → Agrees ttl (stored k v now ∷ h) (write c k v now room)
  write-Agrees ttl h c k v now room some_time a sub =
      let x : Entry V = record { value = v; expires_at = now + c.ttl_seconds } in
      record {
        same_ttl = a.same_ttl;
        idle = λ z. absurd (omega arith);
        entry = λ j y found. elim (Bool-cases (e.same k j)) [
          | inl same ↦ (
            now,
            ground (arith, find-put k j x room),
            ground (arith, find-put k j x room, a.same_ttl),
          )
          | inr other ↦
              let kept : find j room ≡ some y = ground (arith, find-put k j x room) in
              rw other (a.entry j y (sub j y kept))
        ];
      }

  pop-sub :
      (o : K) (m : List (K × Entry V)) (j : K) (x : Entry V)
      → find j (pop o m) ≡ some x
      → find j m ≡ some x
  pop-sub o m j x p = ground (arith, find-pop o j m)

  find-empty : (k : K) → find {V = V} k [] ≡ none
  unfolding find
  find-empty k = refl

  unchanged-Agrees :
      (ttl : ℕ) (h : List (Call K V)) (c : TtlCache K V) (k : K) (v : V) (now : ℕ)
      → Agrees ttl h c
      → ((j : K) → find j c.store ≡ none)
      → Agrees ttl (stored k v now ∷ h) c
  unchanged-Agrees ttl h c k v now a nothing = record {
    same_ttl = a.same_ttl;
    idle = a.idle;
    entry = λ j x found. absurd (ground (arith, nothing j));
  }

  set-Agrees :
      (ttl : ℕ) (h : List (Call K V)) (c : TtlCache K V) (k : K) (v : V) (now : ℕ)
      → Agrees ttl h c
      → Agrees ttl (stored k v now ∷ h) (or_same c (set c k v now))
  set-Agrees ttl h c k v now a = elim (Option-cases (set c k v now)) [
    | inl failed ↦
        rw failed (
          unchanged-Agrees ttl h c k v now a (λ j. rw (set-raises c k v now failed) (find-empty j)))
    | inr (c', done) ↦ rw done (elim (set-Written c k v now c' done) [
      | off no_time same ↦
          rw same (unchanged-Agrees ttl h c k v now a (a.idle (sym a.same_ttl ∙ no_time)))
      | evicted o time full found same ↦ rw same (
          write-Agrees ttl h c k v now (pop o c.store) (omega (arith, a.same_ttl)) a
            (pop-sub o c.store))
      | added time less same ↦
          rw same (write-Agrees ttl h c k v now c.store (omega (arith, a.same_ttl)) a (λ j x p. p))
    ])
  ]

  get-Agrees :
      (ttl : ℕ) (h : List (Call K V)) (c : TtlCache K V) (k : K) (now : ℕ)
      → Agrees ttl h c
      → Agrees ttl (got k now ∷ h) (get c k now).1
  unfolding get
  get-Agrees ttl h c k now a = record {
    same_ttl = ground (arith, a.same_ttl);
    idle = λ z j. ground (arith, a.idle z j, find-pop k j c.store);
    entry = λ j x found. a.entry j x (ground (arith, find-pop k j c.store));
  }

  clear-Agrees :
      (ttl : ℕ) (h : List (Call K V)) (c : TtlCache K V)
      → Agrees ttl h c
      → Agrees ttl (cleared ∷ h) (clear c)
  unfolding clear
  clear-Agrees ttl h c a = record {
    same_ttl = a.same_ttl;
    idle = λ z j. find-empty j;
    entry = λ j x found. absurd (ground (arith, find-empty j));
  }

  run-Agrees : (ttl most : ℕ) (h : List (Call K V)) → Agrees ttl h (run h (new ttl most))
  unfolding run step
  run-Agrees ttl most [] = record {
    same_ttl = refl;
    idle = λ z j. find-empty j;
    entry = λ j x found. absurd (ground (arith, find-empty j));
  }
  run-Agrees ttl most (got k now ∷ h) =
      get-Agrees ttl h (run h (new ttl most)) k now (run-Agrees ttl most h)
  run-Agrees ttl most (stored k v now ∷ h) =
      set-Agrees ttl h (run h (new ttl most)) k v now (run-Agrees ttl most h)
  run-Agrees ttl most (cleared ∷ h) =
      clear-Agrees ttl h (run h (new ttl most)) (run-Agrees ttl most h)

  get-some :
      (c : TtlCache K V) (k : K) (now : ℕ) (v : V)
      → (get c k now).0 ≡ some v
      → (x : Entry V) × (find k c.store ≡ some x) × (x.value ≡ v) × (now < x.expires_at)
  unfolding get
  get-some c k now v p = elim (Option-cases (find k c.store)) [
    | inl missing ↦ absurd (ground arith)
    | inr (x, found) ↦ (x, found, ground arith, ground arith)
  ]

  -- A hit is never stale: whatever calls were made on a new cache, a value that `get` returns is the
  -- one stored last under that key since the last `clear`, less than a time to live before.
  pub get_never_stale :
      (ttl most : ℕ) (h : List (Call K V)) (k : K) (now : ℕ) (v : V)
      → (get (run h (new ttl most)) k now).0 ≡ some v
      → (t : ℕ) × (latest h k ≡ some (v, t)) × (now < t + ttl)
  get_never_stale ttl most h k now v p =
      let c = run h (new ttl most) in
      let (x, found, same, before) = get-some c k now v p in
      let (t, last, expires) = (run-Agrees ttl most h).entry k x found in
      (t, ground arith, omega arith)
