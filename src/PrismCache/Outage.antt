-- ===== src/PrismCache/Outage.antt =====
-- The cache of app/prism/cache.py when its disk or Supabase fail.
use underlying_analyzer_rebo.Base.{
  ℕ, suc, ◌+◌, ◌≡◌, refl, ap, ◌∙◌, String, true, inl, inr, Bool-cases, Option, none, some, List, [],
  ◌∷◌, ◌++◌, arith, All, All-append,
}
use underlying_analyzer_rebo.Base.Result.{Result, ok, err, ◌>>=◌}
use underlying_analyzer_rebo.Value.{Value, Fields}
use underlying_analyzer_rebo.PrismCache.Keys.{KeyFault, Generation, EntryPath}
use underlying_analyzer_rebo.PrismCache.Store.{
  PrismCache, World, get_at, named_path, get_if, get, set_at, set_if, set, safe_names, kept_by,
  removal, after_clear, clear,
}
use underlying_analyzer_rebo.PrismCache.History.{Call, get_call, set_call, clear_call}
use underlying_analyzer_rebo.PrismCache.Quiet.{
  AreDistinct, IsFreshIfAny, one_if, none_if, same_ttl, get_at-IsGot, set_at-IsQuiet,
}

-- The answers of the `get` calls, each with what its call met, and the cache at the end. An error ends it.
abbrev pub Answer : Type 0
Answer = World × Option Fields

abbrev answer_to : World → PrismCache × Option Fields → List Answer × PrismCache
answer_to world (d, o) = ((world, o) ∷ [], d)

-- What a call raises: a `PrismCacheError`, or the `OSError` of a file that cannot be removed.
pub data Raised : Type 0 where
  refused : KeyFault → Raised
  unremovable : Raised

abbrev or_refused {ℓ} : {A : Type ℓ} → Result KeyFault A → Result Raised A
or_refused (ok a) = ok a
or_refused (err fault) = err (refused fault)

abbrev cleared : PrismCache × Option ℕ → Result Raised (List Answer × PrismCache)
cleared (d, some removed) = ok ([], d)
cleared (d, none) = err unremovable

abbrev pub try_call : Call → PrismCache → Result Raised (List Answer × PrismCache)
try_call (get_call world namespace key generation) c = do
  r ← or_refused (get world namespace key generation c)
  ok (answer_to world r)
try_call (set_call world namespace key payload generation) c = do
  d ← or_refused (set world namespace key payload generation c)
  ok ([], d)
try_call (clear_call world namespaces) c = do r ← or_refused (clear world namespaces c); cleared r

abbrev pub try_all : List Call → PrismCache → Result Raised (List Answer × PrismCache)
try_all [] c = ok ([], c)
try_all (step ∷ steps) c = do
  r ← try_call step c
  rest ← try_all steps r.1
  ok (r.0 ++ rest.0, rest.1)

-- The keys and the month of a call can be used, and a file that is to be removed can be.
abbrev pub IsUsable : Call → Type 0
IsUsable (get_call world namespace key generation) =
    (target : String × EntryPath) × (named_path world namespace key generation ≡ ok target)
IsUsable (set_call world namespace key payload generation) =
    (target : String × EntryPath) × (named_path world namespace key generation ≡ ok target)
IsUsable (clear_call world namespaces) =
    ((names : Option (List String)) × (safe_names namespaces ≡ ok names))
    × ((p : EntryPath) → world.unlink_fault p ≡ none)

abbrev pub hits_in : List Answer → ℕ
hits_in [] = 0
hits_in (answer ∷ answers) = one_if answer.1 + hits_in answers

abbrev pub misses_in : List Answer → ℕ
misses_in [] = 0
misses_in (answer ∷ answers) = none_if answer.1 + misses_in answers

abbrev pub sets_in : List Call → ℕ
sets_in [] = 0
sets_in (get_call world namespace key generation ∷ steps) = sets_in steps
sets_in (set_call world namespace key payload generation ∷ steps) = suc (sets_in steps)
sets_in (clear_call world namespaces ∷ steps) = sets_in steps

-- The counters of the cache have grown by what was answered and set.
abbrev pub IsTallied : PrismCache → ℕ → List Answer → PrismCache → Type 0
IsTallied c sets answers d =
    (d.enabled ≡ c.enabled)
    × (d.ttl ≡ c.ttl)
    × (d.hits ≡ c.hits + hits_in answers)
    × (d.misses ≡ c.misses + misses_in answers)
    × (d.writes ≡ c.writes + sets)
    × (AreDistinct c.errors → AreDistinct d.errors)
    × All (λ (answer : Answer). IsFreshIfAny answer.0 c.ttl answer.1) answers

removal-finishes :
    (world : World) (names : Option (List String)) (files : List (EntryPath × Value))
    → ((p : EntryPath) → world.unlink_fault p ≡ none)
    → (removal world names files).1 ≡ true
unfolding removal
removal-finishes world names [] removable = refl
removal-finishes world names (file ∷ files) removable =
    let rest = removal-finishes world names files removable in
    elim (Bool-cases (kept_by names file)) [
      | inl kept ↦ rw kept rest
      | inr dropped ↦ rw (dropped, removable file.0) rest
    ]

hits_in-append : (xs ys : List Answer) → hits_in (xs ++ ys) ≡ hits_in xs + hits_in ys
hits_in-append [] ys = omega arith
hits_in-append (x ∷ xs) ys = omega (arith, hits_in-append xs ys)

misses_in-append : (xs ys : List Answer) → misses_in (xs ++ ys) ≡ misses_in xs + misses_in ys
misses_in-append [] ys = omega arith
misses_in-append (x ∷ xs) ys = omega (arith, misses_in-append xs ys)

all_same_ttl :
    (t u : ℕ) (xs : List Answer)
    → t ≡ u
    → All (λ (answer : Answer). IsFreshIfAny answer.0 t answer.1) xs
    → All (λ (answer : Answer). IsFreshIfAny answer.0 u answer.1) xs
all_same_ttl t u [] same h = tt
all_same_ttl t u (x ∷ xs) same (h, hs) = (same_ttl x.0 t u x.1 same h, all_same_ttl t u xs same hs)

IsTallied-trans :
    (c d e : PrismCache) (sets more : ℕ) (xs ys : List Answer)
    → IsTallied c sets xs d
    → IsTallied d more ys e
    → IsTallied c (sets + more) (xs ++ ys) e
IsTallied-trans c d e sets more xs ys h k =
    let fresh : All (λ (answer : Answer). IsFreshIfAny answer.0 c.ttl answer.1) ys =
      all_same_ttl d.ttl c.ttl ys h.1 k.6 in
    (
      k.0 ∙ h.0,
      k.1 ∙ h.1,
      omega (arith, h.2, k.2, hits_in-append xs ys),
      omega (arith, h.3, k.3, misses_in-append xs ys),
      omega (arith, h.4, k.4),
      (λ distinct. k.5 (h.5 distinct)),
      All-append (λ (answer : Answer). IsFreshIfAny answer.0 c.ttl answer.1) xs ys h.6 fresh,
    )

module _ (c : PrismCache) (in_use : c.enabled ≡ true) where
  get-IsTallied :
      (world : World) (namespace key : String) (generation : Generation)
      → IsUsable (get_call world namespace key generation)
      → (answers : List Answer) × (d : PrismCache) × (try_call
            (get_call world namespace key generation)
            c
          ≡ ok (answers, d))
        × IsTallied c 0 answers d
  unfolding get
  get-IsTallied world namespace key generation (target, usable) =
      let (month, p) = target in
      let on = ap (λ b. get_if world b (named_path world namespace key generation) c) in_use in
      let there = ap (λ t. get_if world true t c) usable in
      let (d, o) = get_at world p c in
      let (enabled, ttl, hits, misses, writes, distinct, fresh) = get_at-IsGot world p c in
      (
        (world, o) ∷ [],
        d,
        ap (λ r. or_refused r >>= λ got. ok (answer_to world got)) (on ∙ there),
        (
          enabled,
          ttl,
          omega (arith, hits),
          omega (arith, misses),
          omega (arith, writes),
          distinct,
          (fresh, tt),
        ),
      )

  set-IsTallied :
      (world : World) (namespace key : String) (payload : Fields) (generation : Generation)
      → IsUsable (set_call world namespace key payload generation)
      → (answers : List Answer) × (d : PrismCache) × (try_call
            (set_call world namespace key payload generation)
            c
          ≡ ok (answers, d))
        × IsTallied c 1 answers d
  unfolding set
  set-IsTallied world namespace key payload generation (target, usable) =
      let (month, p) = target in
      let on =
        ap (λ b. set_if world b (named_path world namespace key generation) key payload c) in_use in
      let there = ap (λ t. set_if world true t key payload c) usable in
      let (enabled, ttl, hits, misses, writes, distinct) =
        set_at-IsQuiet world p key month payload c in
      (
        [],
        set_at world p key month payload c,
        ap (λ r. or_refused r >>= λ d. ok ([], d)) (on ∙ there),
        (enabled, ttl, omega (arith, hits), omega (arith, misses), writes, distinct, tt),
      )

  after_clear-finishes :
      (world : World) (names : Option (List String))
      → ((p : EntryPath) → world.unlink_fault p ≡ none)
      → cleared (after_clear world c names) ≡ ok ([], (after_clear world c names).0)
  after_clear-finishes world names removable = rw (removal-finishes world names c.files removable)

  clear-IsTallied :
      (world : World) (namespaces : Option (List String))
      → IsUsable (clear_call world namespaces)
      → (answers : List Answer) × (d : PrismCache) × (try_call (clear_call world namespaces) c
          ≡ ok (answers, d))
        × IsTallied c 0 answers d
  unfolding clear
  clear-IsTallied world namespaces ((names, usable), removable) = (
    [],
    (after_clear world c names).0,
    ap (λ r. or_refused (r >>= λ ns. ok (after_clear world c ns)) >>= cleared) usable
        ∙ after_clear-finishes world names removable,
    (refl, refl, omega arith, omega arith, omega arith, (λ h. h), tt),
  )

  call-IsTallied :
      (step : Call)
      → IsUsable step
      → (answers : List Answer) × (d : PrismCache) × (try_call step c ≡ ok (answers, d))
        × IsTallied c (sets_in (step ∷ [])) answers d
  call-IsTallied (get_call world namespace key generation) usable =
      get-IsTallied world namespace key generation usable
  call-IsTallied (set_call world namespace key payload generation) usable =
      set-IsTallied world namespace key payload generation usable
  call-IsTallied (clear_call world namespaces) usable = clear-IsTallied world namespaces usable

sets_in-cons :
    (step : Call) (steps : List Call) → sets_in (step ∷ steps) ≡ sets_in (step ∷ []) + sets_in steps
sets_in-cons (get_call world namespace key generation) steps = omega arith
sets_in-cons (set_call world namespace key payload generation) steps = omega arith
sets_in-cons (clear_call world namespaces) steps = omega arith

-- On a cache that is in use, no call of `get` or `set` with keys that can be used raises, whatever the disk
-- does and Supabase answers, and no call of `clear` does where the files can be removed. Each `get` counts a hit if it gives an entry and a miss if
-- not, each `set` counts a write, every entry that is given is fresh by the clock of its call, and no
-- failure is noted twice.
pub try_all-IsTallied :
    (steps : List Call) (c : PrismCache)
    → c.enabled ≡ true
    → All IsUsable steps
    → (answers : List Answer) × (d : PrismCache) × (try_all steps c ≡ ok (answers, d))
      × IsTallied c (sets_in steps) answers d
try_all-IsTallied [] c in_use usable =
    ([], c, refl, (refl, refl, omega arith, omega arith, omega arith, (λ h. h), tt))
try_all-IsTallied (step ∷ steps) c in_use (now, later) =
    let (one, d, here, first) = call-IsTallied c in_use step now in
    let (more, e, there, rest) = try_all-IsTallied steps d (first.0 ∙ in_use) later in
    (
      one ++ more,
      e,
      rw (here, there) refl,
      rw (sets_in-cons step steps)
          (IsTallied-trans c d e (sets_in (step ∷ [])) (sets_in steps) one more first rest),
    )
