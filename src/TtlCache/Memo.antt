-- ===== src/TtlCache/Memo.antt =====
-- The decorator `ttl_cached` of app/_perf.py.
use underlying_analyzer_rebo.Base.{
  ℕ, ◌+◌, ◌<◌, ◌≡◌, refl, ap, ◌∙◌, ◌⊎◌, inl, inr, List, Option, none, some, arith, Key, leb,
  if◌then◌else◌, Bool-cases, Option-cases,
}
use underlying_analyzer_rebo.TtlCache.Store.{
  Entry, TtlCache, find, pop, get, write, set, find-pop, find-put, off, evicted, added, set-Written,
}
use underlying_analyzer_rebo.TtlCache.Bounds.{IsBounded, get-IsBounded, set-IsBounded}
use underlying_analyzer_rebo.TtlCache.Retention.{set_total}

-- `key_of` is the key of the arguments, `none` where it holds one that cannot be hashed. Making such a key
-- raises nothing; to look it up in a cache that is on does.
module _ {ℓ κ μ} {A : Type μ} {K : Type ℓ} {V : Type κ} ⦃e : Key K⦄ (key_of : A → Option K)
    (func : A → Option V) where
  -- The wrapper's result and the cache that it leaves; the outer `none` is an exception. The cache
  -- reads the clock at `looked` and at `saved`.
  pub wrapper : TtlCache K V → A → ℕ → ℕ → Option (Option V × TtlCache K V)
  wrapper c a looked saved = elim (key_of a) [
    | none ↦ if leb c.ttl_seconds 0 then some (func a, c) else none
    | some k ↦
        let (hit, c1) = get c k looked in
        elim hit [
          | some v ↦ some (some v, c1)
          | none ↦ elim (func a) [
            | none ↦ some (none, c1)
            | some v ↦ elim (set c1 k v saved) [ none ↦ none | some c2 ↦ some (some v, c2) ]
          ]
        ]
  ]

  -- Every stored value is what the function returns for the arguments of its key.
  abbrev pub Mirrors : TtlCache K V → Type (ℓ ⊔ κ ⊔ μ)
  Mirrors c =
      (a : A) (k : K) (x : Entry V)
      → key_of a ≡ some k
      → find k c.store ≡ some x
      → func a ≡ some x.value

  -- What a call of the wrapper promises, from a cache that mirrors the function.
  pub record Transparent (c : TtlCache K V) (a : A) (r : Option (Option V × TtlCache K V))
      : Type (ℓ ⊔ κ ⊔ μ) where
    pub after : TtlCache K V
    pub returns : r ≡ some (func a, after)
    pub mirrors : Mirrors after
    pub bounded : IsBounded after
    pub same_room : after.max_entries ≡ c.max_entries

module _ {ℓ κ} {K : Type ℓ} {V : Type κ} ⦃e : Key K⦄ where
  find-get :
      (c : TtlCache K V) (k j : K) (now : ℕ) (x : Entry V)
      → find j (get c k now).1.store ≡ some x
      → find j c.store ≡ some x
  unfolding get
  find-get c k j now x p = ground (arith, find-pop k j c.store)

  max_entries-get :
      (c : TtlCache K V) (k : K) (now : ℕ) → (get c k now).1.max_entries ≡ c.max_entries
  unfolding get
  max_entries-get c k now = ground arith

  get_hit :
      (c : TtlCache K V) (k : K) (now : ℕ) (v : V)
      → (get c k now).0 ≡ some v
      → (x : Entry V) × (find k c.store ≡ some x) × (x.value ≡ v)
  unfolding get
  get_hit c k now v p = elim (Option-cases (find k c.store)) [
    | inl missing ↦ absurd (ground arith)
    | inr (x, found) ↦ (x, found, ground arith)
  ]

  find-write :
      (c : TtlCache K V) (k j : K) (v : V) (now : ℕ) (room : List (K × Entry V)) (x : Entry V)
      → find j (write c k v now room).store ≡ some x
      → ((k ≡ j) × (x.value ≡ v)) ⊎ (find j room ≡ some x)
  find-write c k j v now room x p =
      let y : Entry V = record { value = v; expires_at = now + c.ttl_seconds } in
      elim (Bool-cases (e.same k j)) [
        | inl same ↦ inl ((e.same_iff k j).0 same, ground (arith, find-put k j y room))
        | inr other ↦ inr (ground (arith, find-put k j y room))
      ]

  find-set :
      (c c' : TtlCache K V) (k j : K) (v : V) (now : ℕ) (x : Entry V)
      → set c k v now ≡ some c'
      → find j c'.store ≡ some x
      → ((k ≡ j) × (x.value ≡ v)) ⊎ (find j c.store ≡ some x)
  find-set c c' k j v now x p found = elim (set-Written c k v now c' p) [
    | off _ same ↦ inr (rw same at found)
    | evicted o _ full chosen same ↦
        elim (find-write c k j v now (pop o c.store) x (rw same at found)) [
          | inl own ↦ inl own
          | inr old ↦ inr (ground (arith, find-pop o j c.store))
        ]
    | added _ less same ↦ find-write c k j v now c.store x (rw same at found)
  ]

  max_entries-set :
      (c c' : TtlCache K V) (k : K) (v : V) (now : ℕ)
      → set c k v now ≡ some c'
      → c'.max_entries ≡ c.max_entries
  unfolding set
  max_entries-set c c' k v now p = ground arith

module _ {ℓ κ μ} {A : Type μ} {K : Type ℓ} {V : Type κ} ⦃e : Key K⦄ (key_of : A → Option K)
    (func : A → Option V)
    (determined : (a b : A) (k : K) → key_of a ≡ some k → key_of b ≡ some k → func a ≡ func b) where
  get-Mirrors :
      (c : TtlCache K V) (k : K) (now : ℕ)
      → Mirrors key_of func c
      → Mirrors key_of func (get c k now).1
  get-Mirrors c k now m a j x p found = m a j x p (find-get c k j now x found)

  set-Mirrors :
      (c c' : TtlCache K V) (a : A) (k : K) (v : V) (now : ℕ)
      → key_of a ≡ some k
      → func a ≡ some v
      → set c k v now ≡ some c'
      → Mirrors key_of func c
      → Mirrors key_of func c'
  set-Mirrors c c' a k v now keyed value done m b j x p found =
      elim (find-set c c' k j v now x done found) [
        | inl (same, own) ↦ ground (arith, determined b a j p)
        | inr old ↦ m b j x p old
      ]

  miss-Transparent :
      (c : TtlCache K V) (a : A) (k : K) (looked saved : ℕ)
      → key_of a ≡ some k
      → (get c k looked).0 ≡ none
      → Mirrors key_of func c
      → IsBounded c
      → 0 < c.max_entries
      → Transparent key_of func c a (wrapper key_of func c a looked saved)
  unfolding wrapper
  miss-Transparent c a k looked saved keyed missed m b room =
      let c1 = (get c k looked).1 in
      elim (Option-cases (func a)) [
        | inl nothing ↦ record {
          after = c1;
          returns = ground arith;
          mirrors = get-Mirrors c k looked m;
          bounded = get-IsBounded c k looked b;
          same_room = max_entries-get c k looked;
        }
        | inr (v, value) ↦
            let (c2, done) = set_total c1 k v saved (omega (arith, max_entries-get c k looked)) in
            record {
              after = c2;
              returns = ground arith;
              mirrors = set-Mirrors c1 c2 a k v saved keyed value done (get-Mirrors c k looked m);
              bounded = set-IsBounded c1 k v saved c2 (get-IsBounded c k looked b) done;
              same_room = max_entries-set c1 c2 k v saved done ∙ max_entries-get c k looked;
            }
      ]

  hashed-Transparent :
      (c : TtlCache K V) (a : A) (k : K) (looked saved : ℕ)
      → key_of a ≡ some k
      → Mirrors key_of func c
      → IsBounded c
      → 0 < c.max_entries
      → Transparent key_of func c a (wrapper key_of func c a looked saved)
  unfolding wrapper
  hashed-Transparent c a k looked saved keyed m b room = elim (Option-cases (get c k looked).0) [
    | inl missed ↦ miss-Transparent c a k looked saved keyed missed m b room
    | inr (v, hit) ↦
        let (x, found, same) = get_hit c k looked v hit in
        let value : func a ≡ some v = m a k x keyed found ∙ ap some same in
        record {
          after = (get c k looked).1;
          returns = ground arith;
          mirrors = get-Mirrors c k looked m;
          bounded = get-IsBounded c k looked b;
          same_room = max_entries-get c k looked;
        }
  ]

  -- On a function whose result depends on the key of its arguments alone, and with a cache that holds
  -- only results of the function, is bounded and has room for an entry, the wrapper returns what the
  -- function returns, and so it leaves the cache; or the arguments cannot be hashed, the cache is on,
  -- and the wrapper raises.
  pub wrapper-Transparent :
      (c : TtlCache K V) (a : A) (looked saved : ℕ)
      → Mirrors key_of func c
      → IsBounded c
      → 0 < c.max_entries
      → Transparent key_of func c a (wrapper key_of func c a looked saved)
        ⊎ ((key_of a ≡ none) × (0 < c.ttl_seconds) × (wrapper key_of func c a looked saved ≡ none))
  unfolding wrapper
  wrapper-Transparent c a looked saved m b room = elim (Option-cases (key_of a)) [
    | inl unhashable ↦ elim (Bool-cases (leb c.ttl_seconds 0)) [
      | inl idle ↦ inl (record {
        after = c;
        returns = ground (arith, unhashable, idle);
        mirrors = m;
        bounded = b;
        same_room = refl;
      })
      | inr active ↦ inr (unhashable, ground (arith, active), ground (arith, unhashable, active))
    ]
    | inr (k, keyed) ↦ inl (hashed-Transparent c a k looked saved keyed m b room)
  ]
