-- ===== src/PrismCache/Quiet.antt =====
-- What one call on the cache of app/prism/cache.py counts and notes, whatever its disk and Supabase
-- do.
use underlying_analyzer_rebo.Base.{
  ℕ, ◌+◌, ◌≡◌, refl, ◌∙◌, inl, inr, String, Bool, true, false, Option, none, some, List, [], ◌∷◌,
  ◌++◌, arith, eq_iff, any_in, Bool-cases,
}
use underlying_analyzer_rebo.Base.Text.{take_text}
use underlying_analyzer_rebo.Base.Result.{Result, ok, err}
use underlying_analyzer_rebo.Value.{Value, null, bool, int, float, str, arr, obj, Fields}
use underlying_analyzer_rebo.Value.Access.{get_value, is_end}
use underlying_analyzer_rebo.PrismCache.Keys.{EntryPath, cache_key}
use underlying_analyzer_rebo.PrismCache.Store.{
  Note, PrismCache, World, same_note, note_error, read_file, count_hit, count_miss, is_fresh,
  if_fresh, read_local, read_with, write_local, write_with, fetch, fetched, entry_of, read_if,
  read_supabase, store, note_if, write_if, row_of, write_supabase, after_local, after_remote,
  get_at, body_of, set_at,
}

-- No note is made twice.
abbrev pub AreDistinct : List Note → Type 0
AreDistinct [] = Unit
AreDistinct (n ∷ ns) = (any_in (same_note n) ns ≡ false) × AreDistinct ns

same_note-sym : (m n : Note) → same_note m n ≡ false → same_note n m ≡ false
same_note-sym m n h = ground (
  arith,
  eq_iff m.stage n.stage,
  eq_iff n.stage m.stage,
  eq_iff m.error n.error,
  eq_iff n.error m.error,
)

any_in-append :
    (p : Note → Bool) (ns : List Note) (n : Note)
    → any_in p ns ≡ false
    → p n ≡ false
    → any_in p (ns ++ n ∷ []) ≡ false
any_in-append p [] n h k = ground arith
any_in-append p (m ∷ ns) n h k = ground (arith, any_in-append p ns n)

AreDistinct-append :
    (ns : List Note) (n : Note)
    → AreDistinct ns
    → any_in (same_note n) ns ≡ false
    → AreDistinct (ns ++ n ∷ [])
AreDistinct-append [] n h k = (refl, tt)
AreDistinct-append (m ∷ ns) n (h, hs) k =
    let apart : same_note n m ≡ false = ground (arith, k) in
    let rest : any_in (same_note n) ns ≡ false = ground (arith, k) in
    (any_in-append (same_note m) ns n h (same_note-sym n m apart), AreDistinct-append ns n hs rest)

-- A step that counts nothing; it may note an error.
abbrev IsQuiet : PrismCache → PrismCache → Type 0
IsQuiet c d =
    (d.enabled ≡ c.enabled)
    × (d.ttl ≡ c.ttl)
    × (d.hits ≡ c.hits)
    × (d.misses ≡ c.misses)
    × (d.writes ≡ c.writes)
    × (AreDistinct c.errors → AreDistinct d.errors)

IsQuiet-refl : (c : PrismCache) → IsQuiet c c
IsQuiet-refl c = (refl, refl, refl, refl, refl, λ h. h)

IsQuiet-trans : (c d e : PrismCache) → IsQuiet c d → IsQuiet d e → IsQuiet c e
IsQuiet-trans c d e h k =
    (k.0 ∙ h.0, k.1 ∙ h.1, k.2 ∙ h.2, k.3 ∙ h.3, k.4 ∙ h.4, λ distinct. k.5 (h.5 distinct))

note_error-IsQuiet : (stage text : String) (c : PrismCache) → IsQuiet c (note_error stage text c)
unfolding note_error
note_error-IsQuiet stage text c =
    let note : Note = record { stage = stage; error = take_text 200 text } in
    elim (Bool-cases (any_in (same_note note) c.errors)) [
      | inl known ↦ rw known (IsQuiet-refl c)
      | inr new ↦ rw new (refl, refl, refl, refl, refl, λ h. AreDistinct-append c.errors note h new)
    ]

-- An entry that a tier gives is fresh.
abbrev pub IsFreshIfAny : World → ℕ → Option Fields → Type 0
IsFreshIfAny world ttl none = Unit
IsFreshIfAny world ttl (some entry) = is_fresh world ttl entry ≡ true

if_fresh-IsFresh :
    (world : World) (ttl : ℕ) (o : Option Value) → IsFreshIfAny world ttl (if_fresh world ttl o)
if_fresh-IsFresh world ttl (some (obj entry)) = elim (Bool-cases (is_fresh world ttl entry)) [
  | inl fresh ↦ rw fresh fresh
  | inr over ↦ rw over tt
]
if_fresh-IsFresh world ttl none = tt
if_fresh-IsFresh world ttl (some null) = tt
if_fresh-IsFresh world ttl (some (bool b)) = tt
if_fresh-IsFresh world ttl (some (int n)) = tt
if_fresh-IsFresh world ttl (some (float q)) = tt
if_fresh-IsFresh world ttl (some (str s)) = tt
if_fresh-IsFresh world ttl (some (arr vs)) = tt

-- What a tier gives.
abbrev IsRead : World → PrismCache → PrismCache × Option Fields → Type 0
IsRead world c (d, o) = IsQuiet c d × IsFreshIfAny world c.ttl o

module _ (world : World) (c : PrismCache) where
  read_with-IsRead :
      (fault : Option String) (p : EntryPath) → IsRead world c (read_with world fault p c)
  read_with-IsRead (some text) p = (note_error-IsQuiet "local_read" text c, tt)
  read_with-IsRead none p = (IsQuiet-refl c, if_fresh-IsFresh world c.ttl (read_file p c.files))

  fetched-IsRead : (row : Result String (Option Fields)) → IsRead world c (fetched world c row)
  fetched-IsRead (err text) = (note_error-IsQuiet "supabase_read" text c, tt)
  fetched-IsRead (ok none) = (IsQuiet-refl c, tt)
  fetched-IsRead (ok (some row)) = elim (Bool-cases (is_end row)) [
    | inl empty ↦ rw empty (IsQuiet-refl c, tt)
    | inr full ↦
        rw full (
          IsQuiet-refl c,
          if_fresh-IsFresh world c.ttl (entry_of world row (get_value "entry" row)),
        )
  ]

  read_if-IsRead : (shared : Bool) (p : EntryPath) → IsRead world c (read_if world shared p c)
  read_if-IsRead false p = (IsQuiet-refl c, tt)
  read_if-IsRead true p = fetched-IsRead (fetch world (cache_key p))

  write_with-IsQuiet :
      (fault : Option String) (p : EntryPath) (entry : Fields)
      → IsQuiet c (write_with world fault p entry c)
  write_with-IsQuiet (some text) p entry = note_error-IsQuiet "local_write" text c
  write_with-IsQuiet none p entry = IsQuiet-refl c

  note_if-IsQuiet : (fault : Option String) → IsQuiet c (note_if world c fault)
  note_if-IsQuiet none = IsQuiet-refl c
  note_if-IsQuiet (some text) = note_error-IsQuiet "supabase_write" text c

  write_if-IsQuiet : (shared : Bool) (row : Fields) → IsQuiet c (write_if world shared row c)
  write_if-IsQuiet false row = IsQuiet-refl c
  write_if-IsQuiet true row = note_if-IsQuiet (store world row)

abbrev pub one_if {ℓ} : {A : Type ℓ} → Option A → ℕ
one_if none = 0
one_if (some a) = 1

abbrev pub none_if {ℓ} : {A : Type ℓ} → Option A → ℕ
none_if none = 1
none_if (some a) = 0

-- What a `get` may do: it counts a hit for an entry, which is fresh, and a miss for none.
abbrev IsGot : World → PrismCache → PrismCache × Option Fields → Type 0
IsGot world c (d, o) =
    (d.enabled ≡ c.enabled)
    × (d.ttl ≡ c.ttl)
    × (d.hits ≡ c.hits + one_if o)
    × (d.misses ≡ c.misses + none_if o)
    × (d.writes ≡ c.writes)
    × (AreDistinct c.errors → AreDistinct d.errors)
    × IsFreshIfAny world c.ttl o

module _ (world : World) (c : PrismCache) where
  write_local-IsQuiet : (p : EntryPath) (entry : Fields) → IsQuiet c (write_local world p entry c)
  unfolding write_local
  write_local-IsQuiet p entry = write_with-IsQuiet world c (world.write_fault p) p entry

  write_supabase-IsQuiet :
      (p : EntryPath) (key month : String) (body : Fields)
      → IsQuiet c (write_supabase world p key month body c)
  unfolding write_supabase
  write_supabase-IsQuiet p key month body =
      write_if-IsQuiet world c c.shared (row_of world p key month body)

  read_supabase-IsRead : (p : EntryPath) → IsRead world c (read_supabase world p c)
  unfolding read_supabase
  read_supabase-IsRead p = read_if-IsRead world c c.shared p

  read_local-IsRead : (p : EntryPath) → IsRead world c (read_local world p c)
  unfolding read_local
  read_local-IsRead p = read_with-IsRead world c (world.read_fault p) p

  counted_hit :
      (d : PrismCache) (entry : Fields)
      → IsQuiet c d
      → is_fresh world c.ttl entry ≡ true
      → IsGot world c (count_hit d, some entry)
  counted_hit d entry (enabled, ttl, hits, misses, writes, distinct) fresh =
      (enabled, ttl, omega (arith, hits), omega (arith, misses), writes, distinct, fresh)

  counted_miss : (d : PrismCache) → IsQuiet c d → IsGot world c (count_miss d, none)
  counted_miss d (enabled, ttl, hits, misses, writes, distinct) =
      (enabled, ttl, omega (arith, hits), omega (arith, misses), writes, distinct, tt)

after_remote-IsGot :
    (world : World) (p : EntryPath) (c d : PrismCache) (o : Option Fields)
    → IsQuiet c d
    → IsFreshIfAny world c.ttl o
    → IsGot world c (after_remote world p (d, o))
after_remote-IsGot world p c d none quiet fresh = counted_miss world c d quiet
after_remote-IsGot world p c d (some entry) quiet fresh =
    counted_hit world c (write_local world p entry d) entry
      (IsQuiet-trans c d (write_local world p entry d) quiet (write_local-IsQuiet world d p entry))
      fresh

pub same_ttl :
    (world : World) (t u : ℕ) (o : Option Fields)
    → t ≡ u
    → IsFreshIfAny world t o
    → IsFreshIfAny world u o
same_ttl world t u o same h = rw (← same) h

after_local-IsGot :
    (world : World) (p : EntryPath) (c d : PrismCache) (o : Option Fields)
    → IsQuiet c d
    → IsFreshIfAny world c.ttl o
    → IsGot world c (after_local world p (d, o))
after_local-IsGot world p c d (some entry) quiet fresh = counted_hit world c d entry quiet fresh
after_local-IsGot world p c d none quiet fresh =
    let (e, o) = read_supabase world p d in
    let (quiet', fresh') = read_supabase-IsRead world d p in
    after_remote-IsGot world p c e o (IsQuiet-trans c d e quiet quiet')
      (same_ttl world d.ttl c.ttl o quiet.1 fresh')

pub get_at-IsGot :
    (world : World) (p : EntryPath) (c : PrismCache) → IsGot world c (get_at world p c)
unfolding get_at
get_at-IsGot world p c =
    let (d, o) = read_local world p c in
    let (quiet, fresh) = read_local-IsRead world c p in after_local-IsGot world p c d o quiet fresh

pub set_at-IsQuiet :
    (world : World) (p : EntryPath) (key month : String) (payload : Fields) (c : PrismCache)
    → let d = set_at world p key month payload c in
      (d.enabled ≡ c.enabled)
      × (d.ttl ≡ c.ttl)
      × (d.hits ≡ c.hits)
      × (d.misses ≡ c.misses)
      × (d.writes ≡ c.writes + 1)
      × (AreDistinct c.errors → AreDistinct d.errors)
unfolding set_at
set_at-IsQuiet world p key month payload c =
    let body = body_of world payload in
    let d = write_local world p body c in
    let e = write_supabase world p key month body d in
    let (enabled, ttl, hits, misses, writes, distinct) =
      IsQuiet-trans c d e (write_local-IsQuiet world c p body)
        (write_supabase-IsQuiet world d p key month body) in
    (enabled, ttl, hits, misses, omega (arith, writes), distinct)
