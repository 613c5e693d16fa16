-- ===== src/TtlCache/Bounds.antt =====
-- Size, distinct keys and the choice of the evicted key, for the cache of app/_perf.py.
use mathlib.Core.Path.{subst}
use underlying_analyzer_rebo.Base.{
  ℕ, suc, ◌+◌, ◌≤◌, ◌<◌, ◌≡◌, refl, sym, ◌⊎◌, inl, inr, none, some, List, [], ◌∷◌, ltb, length,
  arith, Key, Bool-cases,
}
use underlying_analyzer_rebo.TtlCache.Store.{
  Entry, TtlCache, oldest_from, oldest, find, pop, put, get, write, set, clear, find-pop, find-put,
  off, evicted, added, set-Written,
}

module _ {ℓ κ} {K : Type ℓ} {V : Type κ} ⦃e : Key K⦄ where
  -- No key stands twice in the store, as in a `dict`.
  abbrev pub IsDistinct : List (K × Entry V) → Type κ
  IsDistinct [] = Unit
  IsDistinct ((k, x) ∷ m) = (find k m ≡ none) × IsDistinct m

  pub record IsBounded (c : TtlCache K V) : Type κ where
    pub distinct : IsDistinct c.store
    pub within : length c.store ≤ c.max_entries

  pop-IsDistinct : (k : K) (m : List (K × Entry V)) → IsDistinct m → IsDistinct (pop k m)
  unfolding pop
  pop-IsDistinct k [] h = tt
  pop-IsDistinct k ((j, x) ∷ m) h = ground (arith, pop-IsDistinct k m h.1, find-pop k j m, h.0)

  put-IsDistinct :
      (k : K) (x : Entry V) (m : List (K × Entry V)) → IsDistinct m → IsDistinct (put k x m)
  unfolding put find
  put-IsDistinct k x [] h = (refl, tt)
  put-IsDistinct k x ((j, y) ∷ m) h =
      ground
        (arith, put-IsDistinct k x m h.1, find-put k j x m, h.0, e.same_iff j k, e.same_iff k j)

  length-pop-le : (k : K) (m : List (K × Entry V)) → length (pop k m) ≤ length m
  unfolding pop
  length-pop-le k [] = ground arith
  length-pop-le k ((j, x) ∷ m) = ground (arith, length-pop-le k m)

  length-pop_found :
      (k : K) (m : List (K × Entry V)) (x : Entry V)
      → find k m ≡ some x
      → suc (length (pop k m)) ≤ length m
  unfolding pop find
  length-pop_found k [] x h = ground arith
  length-pop_found k ((j, y) ∷ m) x h = ground (arith, length-pop-le k m, length-pop_found k m x)

  length-put-le :
      (k : K) (x : Entry V) (m : List (K × Entry V)) → length (put k x m) ≤ suc (length m)
  unfolding put
  length-put-le k x [] = ground arith
  length-put-le k x ((j, y) ∷ m) = ground (arith, length-put-le k x m)

  -- What `oldest_from` chooses: the entry `k` that it holds, or one of the list, and no entry of
  -- the list expires sooner.
  record Choice (k : K) (least : ℕ) (m : List (K × Entry V)) (o : K) : Type (ℓ ⊔ κ) where
    soonest : ℕ
    held :
        ((o ≡ k) × (soonest ≡ least))
        ⊎ ((x : Entry V) × (find o m ≡ some x) × (x.expires_at ≡ soonest))
    below_held : soonest ≤ least
    below : (j : K) (y : Entry V) → find j m ≡ some y → soonest ≤ y.expires_at

  module _ {k j o : K} {least : ℕ} {x : Entry V} {m : List (K × Entry V)}
      (fresh : find j m ≡ none) where
    Choice-lower : x.expires_at < least → Choice j x.expires_at m o → Choice k least ((j, x) ∷ m) o
    unfolding find
    Choice-lower lower c = record {
      soonest = c.soonest;
      held = elim c.held [
        | inl (same, level) ↦ inr (x, ground (arith, e.same_iff j o), ground arith)
        | inr (y, found, level) ↦ inr (y, ground (arith, e.same_iff j o), level)
      ];
      below_held = omega (arith, c.below_held);
      below = λ i y p. ground (arith, c.below i y, c.below_held);
    }

    Choice-higher : least ≤ x.expires_at → Choice k least m o → Choice k least ((j, x) ∷ m) o
    unfolding find
    Choice-higher higher c = record {
      soonest = c.soonest;
      held = elim c.held [
        | inl held ↦ inl held
        | inr (y, found, level) ↦ inr (y, ground (arith, e.same_iff j o), level)
      ];
      below_held = c.below_held;
      below = λ i y p. ground (arith, c.below i y, c.below_held);
    }

  oldest_from-Choice :
      (k : K) (least : ℕ) (m : List (K × Entry V))
      → IsDistinct m
      → Choice k least m (oldest_from k least m)
  unfolding oldest_from find
  oldest_from-Choice k least [] h = record {
    soonest = least;
    held = inl (refl, refl);
    below_held = ground arith;
    below = λ j y p. cc;
  }
  oldest_from-Choice k least ((j, x) ∷ m) (fresh, h) = elim (Bool-cases (ltb x.expires_at least)) [
    | inl lower ↦
        rw lower (Choice-lower fresh (ground arith) (oldest_from-Choice j x.expires_at m h))
    | inr higher ↦ rw higher (Choice-higher fresh (ground arith) (oldest_from-Choice k least m h))
  ]

  Choice-soonest :
      {k o : K} (x : Entry V) {m : List (K × Entry V)}
      → find k m ≡ none
      → Choice k x.expires_at m o
      → (y : Entry V) × (find o ((k, x) ∷ m) ≡ some y)
        × ((j : K) (z : Entry V) → find j ((k, x) ∷ m) ≡ some z → y.expires_at ≤ z.expires_at)
  unfolding find
  Choice-soonest {k} {o} x fresh c = elim c.held [
    | inl (same, level) ↦
        (x, ground (arith, e.same_iff k o), λ j z p. ground (arith, c.below j z, c.below_held))
    | inr (y, found, level) ↦
        (y, ground (arith, e.same_iff k o), λ j z p. ground (arith, c.below j z, c.below_held))
  ]

  -- The evicted key is in the store, and no stored entry expires before it.
  pub oldest-soonest :
      (m : List (K × Entry V)) (o : K)
      → IsDistinct m
      → oldest m ≡ some o
      → (x : Entry V) × (find o m ≡ some x)
        × ((j : K) (y : Entry V) → find j m ≡ some y → x.expires_at ≤ y.expires_at)
  unfolding oldest
  oldest-soonest [] o h p = absurd (ground arith)
  oldest-soonest ((k, x) ∷ m) o (fresh, h) p =
      let chosen : oldest_from k x.expires_at m ≡ o = ground arith in
      Choice-soonest x fresh
        (subst (Choice k x.expires_at m) chosen (oldest_from-Choice k x.expires_at m h))

  write-IsBounded :
      (c : TtlCache K V) (k : K) (v : V) (now : ℕ) (room : List (K × Entry V))
      → IsDistinct room
      → length room < c.max_entries
      → IsBounded (write c k v now room)
  write-IsBounded c k v now room h less =
      let x : Entry V = record { value = v; expires_at = now + c.ttl_seconds } in
      record {
        distinct = put-IsDistinct k x room h;
        within = omega (arith, length-put-le k x room);
      }

  pub get-IsBounded : (c : TtlCache K V) (k : K) (now : ℕ) → IsBounded c → IsBounded (get c k now).1
  unfolding get
  get-IsBounded c k now h =
      ground
        (arith, pop-IsDistinct k c.store h.distinct, length-pop-le k c.store, h.distinct, h.within)

  pub clear-IsBounded : (c : TtlCache K V) → IsBounded (clear c)
  unfolding clear
  clear-IsBounded c = record { distinct = tt; within = omega arith }

  pub set-IsBounded :
      (c : TtlCache K V) (k : K) (v : V) (now : ℕ) (c' : TtlCache K V)
      → IsBounded c
      → set c k v now ≡ some c'
      → IsBounded c'
  set-IsBounded c k v now c' h p = elim (set-Written c k v now c' p) [
    | off idle same ↦ subst IsBounded (sym same) h
    | evicted o time full found same ↦
        let (x, here, least) = oldest-soonest c.store o h.distinct found in
        subst IsBounded (sym same) (
          write-IsBounded c k v now (pop o c.store) (pop-IsDistinct o c.store h.distinct)
            (omega (arith, length-pop_found o c.store x here, h.within)))
    | added time less same ↦
        subst IsBounded (sym same) (write-IsBounded c k v now c.store h.distinct less)
  ]
