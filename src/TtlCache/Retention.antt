-- ===== src/TtlCache/Retention.antt =====
-- What a write to the cache of app/_perf.py keeps, and what it evicts.
use underlying_analyzer_rebo.Base.{
  ℕ, ◌+◌, ◌≤◌, ◌<◌, ◌≡◌, ◌≢◌, ◌∙◌, ◌⊎◌, inl, inr, none, some, List, [], length, arith, Key, ltb,
  if◌then◌else◌, Bool-cases, Option-cases,
}
use underlying_analyzer_rebo.TtlCache.Store.{
  Entry, TtlCache, find, pop, get, write, set, find-pop, find-put, off, evicted, added, set-Written,
  set-raises,
}
use underlying_analyzer_rebo.TtlCache.Bounds.{IsBounded, oldest-soonest}

module _ {ℓ κ} {K : Type ℓ} {V : Type κ} ⦃e : Key K⦄ where
  -- The entry of `j` was dropped to make room: the store was full, and none of its entries expires
  -- sooner.
  pub record IsEvicted (c c' : TtlCache K V) (j : K) : Type (ℓ ⊔ κ) where
    pub full : c.max_entries ≤ length c.store
    pub gone : find j c'.store ≡ none
    pub soonest :
        (x y : Entry V) (i : K)
        → find j c.store ≡ some x
        → find i c.store ≡ some y
        → x.expires_at ≤ y.expires_at

  write_other :
      (c : TtlCache K V) (k j : K) (v : V) (now : ℕ) (room : List (K × Entry V))
      → k ≢ j
      → find j (write c k v now room).store ≡ find j room
  write_other c k j v now room other =
      let x : Entry V = record { value = v; expires_at = now + c.ttl_seconds } in
      ground (arith, find-put k j x room, e.same_iff k j)

  -- A write under one key leaves the entry of any other key as it is, unless the store was full
  -- and that entry was one that expires soonest.
  pub set_keeps_or_evicts_soonest :
      (c : TtlCache K V) (k j : K) (v : V) (now : ℕ) (c' : TtlCache K V)
      → IsBounded c
      → set c k v now ≡ some c'
      → k ≢ j
      → (find j c'.store ≡ find j c.store) ⊎ IsEvicted c c' j
  set_keeps_or_evicts_soonest c k j v now c' b p other = elim (set-Written c k v now c' p) [
    | off no_time same ↦ inl (rw same)
    | evicted o time full found same ↦
        let w = write_other c k j v now (pop o c.store) other in
        let (s, here, least) = oldest-soonest c.store o b.distinct found in
        elim (Bool-cases (e.same o j)) [
          | inl chosen ↦ inr (record {
            full = full;
            gone = rw same (w ∙ (rw (find-pop, chosen)));
            soonest = λ x y i p q. ground (arith, least i y, e.same_iff o j);
          })
          | inr spared ↦ inl (rw same (w ∙ (rw (find-pop, spared))))
        ]
    | added time less same ↦ inl (rw same (write_other c k j v now c.store other))
  ]

  get-write :
      (c : TtlCache K V) (k : K) (v : V) (now later : ℕ) (room : List (K × Entry V))
      → 0 < c.ttl_seconds
      → (get (write c k v now room) k later).0
        ≡ (if ltb later (now + c.ttl_seconds) then some v else none)
  unfolding get
  get-write c k v now later room time =
      let x : Entry V = record { value = v; expires_at = now + c.ttl_seconds } in
      ground (arith, find-put k k x room, e.same_iff k k)

  set_on_empty :
      (c : TtlCache K V) (k : K) (v : V) (now : ℕ)
      → 0 < c.max_entries
      → c.store ≡ []
      → set c k v now ≢ none
  unfolding set
  set_on_empty c k v now room empty failed = ground arith

  -- A value that was just written is read back until its time to live is over, and not after.
  pub get-set_self :
      (c : TtlCache K V) (k : K) (v : V) (now later : ℕ) (c' : TtlCache K V)
      → 0 < c.ttl_seconds
      → set c k v now ≡ some c'
      → (get c' k later).0 ≡ (if ltb later (now + c.ttl_seconds) then some v else none)
  get-set_self c k v now later c' time p = elim (set-Written c k v now c' p) [
    | off no_time same ↦ absurd (omega arith)
    | evicted o _ full found same ↦ rw same (get-write c k v now later (pop o c.store) time)
    | added _ less same ↦ rw same (get-write c k v now later c.store time)
  ]

  -- A cache with room for an entry takes every write.
  pub set_total :
      (c : TtlCache K V) (k : K) (v : V) (now : ℕ)
      → 0 < c.max_entries
      → (c' : TtlCache K V) × (set c k v now ≡ some c')
  set_total c k v now room = elim (Option-cases (set c k v now)) [
    | inl failed ↦ absurd (set_on_empty c k v now room (set-raises c k v now failed) failed)
    | inr done ↦ done
  ]
