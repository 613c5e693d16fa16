-- ===== src/TtlCache/Store.antt =====
-- The cache of app/_perf.py and its methods.
use underlying_analyzer_rebo.Base.{
  ℕ, ◌+◌, ◌≤◌, ◌<◌, ◌≡◌, inl, inr, Bool-cases, Option-cases, Option, none, some, List, [], ◌∷◌, ltb,
  leb, length, arith, Key, if◌then◌else◌,
}

pub record Entry {ℓ} (V : Type ℓ) : Type ℓ where
  pub value : V
  pub expires_at : ℕ

pub record TtlCache {ℓ κ} (K : Type ℓ) (V : Type κ) : Type (ℓ ⊔ κ) where
  pub ttl_seconds : ℕ
  pub max_entries : ℕ
  pub store : List (K × Entry V)

module _ {ℓ κ} {K : Type ℓ} {V : Type κ} where
  -- `min(store, key=...)` picks the first of the soonest-to-expire keys.
  unfoldable pub oldest_from : K → ℕ → List (K × Entry V) → K
  oldest_from k least [] = k
  oldest_from k least ((j, x) ∷ m) =
      oldest_from (if ltb x.expires_at least then j else k)
        (if ltb x.expires_at least then x.expires_at else least) m

  -- `none` is the `ValueError` of `min` on an empty dict.
  unfoldable pub oldest : List (K × Entry V) → Option K
  unfolding oldest_from
  oldest [] = none
  oldest ((k, x) ∷ m) = some (oldest_from k x.expires_at m)

module _ {ℓ κ} {K : Type ℓ} {V : Type κ} ⦃e : Key K⦄ where
  -- `store.get(key)`
  unfoldable pub find : K → List (K × Entry V) → Option (Entry V)
  find k [] = none
  find k ((j, x) ∷ m) = if e.same j k then some x else find k m

  -- `store.pop(key, None)`
  unfoldable pub pop : K → List (K × Entry V) → List (K × Entry V)
  pop k [] = []
  pop k ((j, x) ∷ m) = let rest = pop k m in if e.same j k then rest else (j, x) ∷ rest

  -- `store[key] = entry`: a key keeps its place, a new one goes to the end.
  unfoldable pub put : K → Entry V → List (K × Entry V) → List (K × Entry V)
  put k x [] = (k, x) ∷ []
  put k x ((j, y) ∷ m) = let rest = put k x m in if e.same j k then (j, x) ∷ m else (j, y) ∷ rest

  unfoldable pub get : TtlCache K V → K → ℕ → Option V × TtlCache K V
  get c k now = if leb c.ttl_seconds 0 then (none, c) else elim (find k c.store) [
    | none ↦ (none, c)
    | some x ↦
        if leb x.expires_at now
        then (none, record c { store = pop k c.store })
        else (some x.value, c)
  ]

  abbrev pub write : TtlCache K V → K → V → ℕ → List (K × Entry V) → TtlCache K V
  write c k v now room = record c {
    store = put k (record { value = v; expires_at = now + c.ttl_seconds }) room;
  }

  unfoldable pub set : TtlCache K V → K → V → ℕ → Option (TtlCache K V)
  set c k v now =
      if leb c.ttl_seconds 0
      then some c
      else if leb c.max_entries (length c.store)
      then elim (oldest c.store) [ none ↦ none | some o ↦ some (write c k v now (pop o c.store)) ]
      else some (write c k v now c.store)

  unfoldable pub clear : TtlCache K V → TtlCache K V
  clear c = record c { store = [] }

  pub find-pop :
      (k j : K) (m : List (K × Entry V))
      → find j (pop k m) ≡ (if e.same k j then none else find j m)
  unfolding find pop
  find-pop k j [] = ground arith
  find-pop k j ((i, x) ∷ m) =
      ground (arith, find-pop k j m, e.same_iff i k, e.same_iff i j, e.same_iff k j)

  pub find-put :
      (k j : K) (x : Entry V) (m : List (K × Entry V))
      → find j (put k x m) ≡ (if e.same k j then some x else find j m)
  unfolding find put
  find-put k j x [] = ground arith
  find-put k j x ((i, y) ∷ m) =
      ground (arith, find-put k j x m, e.same_iff i k, e.same_iff i j, e.same_iff k j)

  -- The three ways in which `set` returns.
  pub data Written (c : TtlCache K V) (k : K) (v : V) (now : ℕ) (c' : TtlCache K V)
      : Type (ℓ ⊔ κ) where
    off : c.ttl_seconds ≡ 0 → c' ≡ c → Written c k v now c'
    evicted :
        (o : K)
        → 0 < c.ttl_seconds
        → c.max_entries ≤ length c.store
        → oldest c.store ≡ some o
        → c' ≡ write c k v now (pop o c.store)
        → Written c k v now c'
    added :
        0 < c.ttl_seconds
        → length c.store < c.max_entries
        → c' ≡ write c k v now c.store
        → Written c k v now c'

  pub set-Written :
      (c : TtlCache K V) (k : K) (v : V) (now : ℕ) (c' : TtlCache K V)
      → set c k v now ≡ some c'
      → Written c k v now c'
  unfolding set
  set-Written c k v now c' p = elim (Bool-cases (leb c.ttl_seconds 0)) [
    | inl idle ↦ off (ground arith) (ground arith)
    | inr active ↦ elim (Bool-cases (leb c.max_entries (length c.store))) [
      | inl full ↦ elim (Option-cases (oldest c.store)) [
        | inl nothing ↦ absurd (ground arith)
        | inr (o, found) ↦ evicted o (ground arith) (ground arith) found (ground arith)
      ]
      | inr roomy ↦ added (ground arith) (ground arith) (ground arith)
    ]
  ]

  -- `set` raises only on an empty store.
  pub set-raises :
      (c : TtlCache K V) (k : K) (v : V) (now : ℕ) → set c k v now ≡ none → c.store ≡ []
  unfolding set oldest
  set-raises c k v now p = ground arith
