-- ===== src/PrismCache/History.antt =====
-- Calls of the cache of app/prism/cache.py in any order, and the map of entries that they amount to.
use underlying_analyzer_rebo.Base.{
  ℕ, ◌≡◌, refl, sym, ap, ◌∙◌, inl, inr, String, Bool, true, false, not, Option, none, some, List,
  [], ◌∷◌, arith, eq_iff, eq_refl, if◌then◌else◌, All, keep_if, Bool-cases,
}
use underlying_analyzer_rebo.Base.Text.{text_in}
use underlying_analyzer_rebo.Base.Result.{Result, ok, err, ◌>>=◌}
use underlying_analyzer_rebo.Value.{Value, obj, Fields}
use underlying_analyzer_rebo.PrismCache.Keys.{KeyFault, Generation, EntryPath}
use underlying_analyzer_rebo.PrismCache.Store.{
  PrismCache, World, same_path, read_file, write_file, if_fresh, read_local, write_local,
  read_supabase, write_supabase, after_local, get_at, read_if, write_if, row_of, named_path, get_if,
  get, body_of, set_at, set_if, set, safe_names, kept_by, removal, after_clear, clear,
}

pub data Call : Type 0 where
  get_call : World → (namespace key : String) → Generation → Call
  set_call : World → (namespace key : String) → Fields → Generation → Call
  clear_call : World → Option (List String) → Call

abbrev or_same {ℓ} : {A : Type ℓ} → PrismCache → (A → PrismCache) → Result KeyFault A → PrismCache
or_same c f (ok a) = f a
or_same c f (err fault) = c

-- A call that raises changes nothing.
abbrev pub call : Call → PrismCache → PrismCache
call (get_call world namespace key generation) c =
    or_same c (λ r. r.0) (get world namespace key generation c)
call (set_call world namespace key payload generation) c =
    or_same c (λ r. r) (set world namespace key payload generation c)
call (clear_call world namespaces) c = or_same c (λ r. r.0) (clear world namespaces c)

abbrev pub run : List Call → PrismCache → PrismCache
run [] c = c
run (step ∷ steps) c = run steps (call step c)

-- The disk does not fail in a call.
abbrev pub IsReliable : Call → Type 0
IsReliable (get_call world namespace key generation) =
    (p : EntryPath) → (world.read_fault p ≡ none) × (world.write_fault p ≡ none)
IsReliable (set_call world namespace key payload generation) =
    (p : EntryPath) → world.write_fault p ≡ none
IsReliable (clear_call world namespaces) = (p : EntryPath) → world.unlink_fault p ≡ none

-- What stands under a path after a call, by what stood there before.
abbrev set_under :
    EntryPath → Value → Option Value → Result KeyFault (String × EntryPath) → Option Value
set_under p v before (ok (month, q)) = if same_path q p then some v else before
set_under p v before (err fault) = before

abbrev unless_cleared :
    EntryPath → Option Value → Result KeyFault (Option (List String)) → Option Value
unless_cleared p before (err fault) = before
unless_cleared p before (ok none) = none
unless_cleared p before (ok (some names)) = if text_in p.namespace names then none else before

abbrev pub entry_after : EntryPath → Call → Option Value → Option Value
entry_after p (get_call world namespace key generation) before = before
entry_after p (set_call world namespace key payload generation) before =
    set_under p (obj (body_of world payload)) before (named_path world namespace key generation)
entry_after p (clear_call world namespaces) before = unless_cleared p before (safe_names namespaces)

-- The entry that was set last under a path and not cleared since.
abbrev pub latest : EntryPath → List Call → Option Value → Option Value
latest p [] before = before
latest p (step ∷ steps) before = latest p steps (entry_after p step before)

same_path_iff : (p q : EntryPath) → same_path p q ≡ true → p ≡ q
same_path_iff p q h =
    let a : p.namespace ≡ q.namespace = ground (arith, eq_iff p.namespace q.namespace) in
    let b : p.generation ≡ q.generation = ground (arith, eq_iff p.generation q.generation) in
    let c : p.key ≡ q.key = ground (arith, eq_iff p.key q.key) in
    λ i. record { namespace = a i; generation = b i; key = c i }

same_path_refl : (p : EntryPath) → same_path p p ≡ true
same_path_refl p = rw (eq_refl p.namespace, eq_refl p.generation, eq_refl p.key)

differs : (p q r : EntryPath) → same_path r p ≡ false → same_path r q ≡ true → same_path p q ≡ false
differs p q r other there = elim (Bool-cases (same_path p q)) [
  | inr apart ↦ apart
  | inl same ↦
      let equal : r ≡ p = same_path_iff r q there ∙ sym (same_path_iff p q same) in
      let not_self = rw equal at other in absurd (ground (arith, sym (same_path_refl p) ∙ not_self))
]

pub read_file-write_file :
    (p q : EntryPath) (v : Value) (files : List (EntryPath × Value))
    → read_file q (write_file p v files) ≡ (if same_path p q then some v else read_file q files)
unfolding read_file write_file
read_file-write_file p q v [] = refl
read_file-write_file p q v ((r, w) ∷ files) = elim (Bool-cases (same_path r p)) [
  | inl same ↦ let same_text = same_path_iff r p same in rw (same, same_text) (ground arith)
  | inr other ↦ elim (Bool-cases (same_path r q)) [
    | inl there ↦
        let apart : same_path p q ≡ false = differs p q r other there in rw (other, there, apart)
    | inr away ↦ rw (other, away) (read_file-write_file p q v files)
  ]
]

read_file-keep_if :
    (p : EntryPath) (keep : String → Bool) (files : List (EntryPath × Value))
    → read_file p (keep_if (λ file. keep file.0.namespace) files)
      ≡ (if keep p.namespace then read_file p files else none)
unfolding read_file
read_file-keep_if p keep [] = ground arith
read_file-keep_if p keep ((q, v) ∷ files) =
    let rest = read_file-keep_if p keep files in
    elim (Bool-cases (same_path q p)) [
      | inl same ↦ rw (same_path_iff q p same) (elim (Bool-cases (keep p.namespace)) [
        | inl kept ↦ rw (kept, same_path_refl p)
        | inr dropped ↦ rw dropped (rw dropped at rest)
      ])
      | inr other ↦ elim (Bool-cases (keep q.namespace)) [
        | inl kept ↦ rw (kept, other) rest
        | inr dropped ↦ rw (dropped, other) rest
      ]
    ]

-- Where every file can be removed, all those that are not kept are.
pub removal-reliable :
    (world : World) (names : Option (List String)) (files : List (EntryPath × Value))
    → ((p : EntryPath) → world.unlink_fault p ≡ none)
    → (removal world names files).0 ≡ keep_if (kept_by names) files
unfolding removal
removal-reliable world names [] reliable = refl
removal-reliable world names (file ∷ files) reliable =
    let rest = removal-reliable world names files reliable in
    elim (Bool-cases (kept_by names file)) [
      | inl kept ↦ rw kept (ap (◌∷◌ file) rest)
      | inr dropped ↦ rw (dropped, reliable file.0) rest
    ]

-- The cache is in use, has no Supabase tier and keeps entries for `ttl`.
abbrev pub IsLocal : ℕ → PrismCache → Type 0
IsLocal ttl c = (c.enabled ≡ true) × (c.shared ≡ false) × (c.ttl ≡ ttl)

abbrev IsCalled : ℕ → Call → PrismCache → PrismCache → Type 0
IsCalled ttl step c c' =
    ((p : EntryPath) → read_file p c'.files ≡ entry_after p step (read_file p c.files))
    × IsLocal ttl c'

if_not {ℓ} :
    {A : Type ℓ} (b : Bool) (o : Option A) → (if not b then o else none) ≡ (if b then none else o)
if_not true o = refl
if_not false o = refl

module _ (ttl : ℕ) (c : PrismCache) (local : IsLocal ttl c) where
  read_supabase-local : (world : World) (q : EntryPath) → read_supabase world q c ≡ (c, none)
  unfolding read_supabase
  read_supabase-local world q = ap (λ b. read_if world b q c) local.1

  write_supabase-local :
      (world : World) (q : EntryPath) (key month : String) (body : Fields) (d : PrismCache)
      → d.shared ≡ false
      → write_supabase world q key month body d ≡ d
  unfolding write_supabase
  write_supabase-local world q key month body d h =
      ap (λ b. write_if world b (row_of world q key month body) d) h

  after_local-result :
      (world : World) (q : EntryPath) (o : Option Fields)
      → ((after_local world q (c, o)).0.files ≡ c.files)
        × IsLocal ttl (after_local world q (c, o)).0
        × ((after_local world q (c, o)).1 ≡ o)
  after_local-result world q (some entry) = (refl, local, refl)
  after_local-result world q none = rw (read_supabase-local world q) (refl, local, refl)

  get_at-result :
      (world : World) (q : EntryPath)
      → world.read_fault q ≡ none
      → ((get_at world q c).0.files ≡ c.files)
        × IsLocal ttl (get_at world q c).0
        × ((get_at world q c).1 ≡ if_fresh world ttl (read_file q c.files))
  unfolding get_at read_local
  get_at-result world q reads =
      let (same, local', result) =
        after_local-result world q (if_fresh world c.ttl (read_file q c.files)) in
      rw reads (same, local', result ∙ ap (λ t. if_fresh world t (read_file q c.files)) local.2)

  set_at-result :
      (world : World) (q : EntryPath) (key month : String) (payload : Fields)
      → world.write_fault q ≡ none
      → ((set_at world q key month payload c).files
          ≡ write_file q (obj (body_of world payload)) c.files)
        × IsLocal ttl (set_at world q key month payload c)
  unfolding set_at write_local
  set_at-result world q key month payload writes =
      let d = record c { files = write_file q (obj (body_of world payload)) c.files } in
      rw (writes, write_supabase-local world q key month (body_of world payload) d local.1)
        (refl, local)

  get_if-result :
      (world : World) (target : Result KeyFault (String × EntryPath))
      → ((q : EntryPath) → world.read_fault q ≡ none)
      → ((or_same c (λ r. r.0) (get_if world true target c)).files ≡ c.files)
        × IsLocal ttl (or_same c (λ r. r.0) (get_if world true target c))
  get_if-result world (err fault) reliable = (refl, local)
  get_if-result world (ok (month, q)) reliable =
      let (same, local', result) = get_at-result world q (reliable q) in (same, local')

  set_if-result :
      (world : World) (target : Result KeyFault (String × EntryPath)) (key : String)
      (payload : Fields)
      → ((q : EntryPath) → world.write_fault q ≡ none)
      → ((p : EntryPath)
          → read_file p (or_same c (λ r. r) (set_if world true target key payload c)).files
            ≡ set_under p (obj (body_of world payload)) (read_file p c.files) target)
        × IsLocal ttl (or_same c (λ r. r) (set_if world true target key payload c))
  set_if-result world (err fault) key payload reliable = ((λ p. refl), local)
  set_if-result world (ok (month, q)) key payload reliable =
      let (same, local') = set_at-result world q key month payload (reliable q) in
      let body = obj (body_of world payload) in
      ((λ p. ap (read_file p) same ∙ read_file-write_file q p body c.files), local')

  clear-result :
      (world : World) (names : Result KeyFault (Option (List String)))
      → ((p : EntryPath) → world.unlink_fault p ≡ none)
      → let after = or_same c (λ r. r.0) (names >>= λ n. ok (after_clear world c n)) in
        ((p : EntryPath) → read_file p after.files ≡ unless_cleared p (read_file p c.files) names)
        × IsLocal ttl after
  unfolding text_in
  clear-result world (err fault) reliable = ((λ p. refl), local)
  clear-result world (ok none) reliable = (
    (λ p.
        ap (λ left. read_file p left) (removal-reliable world none c.files reliable)
        ∙ read_file-keep_if p (λ n. false) c.files),
    local,
  )
  clear-result world (ok (some names)) reliable = (
    (λ p.
        ap (λ left. read_file p left) (removal-reliable world (some names) c.files reliable)
        ∙ read_file-keep_if p (λ n. not (text_in n names)) c.files
        ∙ if_not (text_in p.namespace names) (read_file p c.files)),
    local,
  )

  call-IsCalled : (step : Call) → IsReliable step → IsCalled ttl step c (call step c)
  unfolding get set clear
  call-IsCalled (get_call world namespace key generation) reliable =
      let target = named_path world namespace key generation in
      let in_use = ap (λ b. get_if world b target c) local.0 in
      let (same, local') = get_if-result world target (λ q. (reliable q).0) in
      rw in_use ((λ p. ap (read_file p) same), local')
  call-IsCalled (set_call world namespace key payload generation) reliable =
      let target = named_path world namespace key generation in
      let in_use = ap (λ b. set_if world b target key payload c) local.0 in
      rw in_use (set_if-result world target key payload reliable)
  call-IsCalled (clear_call world namespaces) reliable =
      clear-result world (safe_names namespaces) reliable

run-latest :
    (ttl : ℕ) (steps : List Call) (c : PrismCache)
    → IsLocal ttl c
    → All IsReliable steps
    → ((p : EntryPath) → read_file p (run steps c).files ≡ latest p steps (read_file p c.files))
      × IsLocal ttl (run steps c)
run-latest ttl [] c local reliable = ((λ p. refl), local)
run-latest ttl (step ∷ steps) c local (now, later) =
    let (one, local') = call-IsCalled ttl c local step now in
    let (rest, local'') = run-latest ttl steps (call step c) local' later in
    ((λ p. rest p ∙ ap (latest p steps) (one p)), local'')

-- For a cache that is in use, has no Supabase tier and a disk that does not fail: after any calls of
-- `get`, `set` and `clear`, a `get` of a key that can be used gives the entry that the last `set` under the
-- same file wrote, unless it was cleared since or is older than `ttl`, and otherwise nothing. What stood
-- in the files before the calls counts as set.
pub get-latest :
    (ttl : ℕ) (c : PrismCache) (steps : List Call) (world : World) (namespace key month : String)
    (generation : Generation) (q : EntryPath)
    → IsLocal ttl c
    → All IsReliable steps
    → world.read_fault q ≡ none
    → named_path world namespace key generation ≡ ok (month, q)
    → (later : PrismCache) × (get world namespace key generation (run steps c)
        ≡ ok (later, if_fresh world ttl (latest q steps (read_file q c.files))))
unfolding get
get-latest ttl c steps world namespace key month generation q local reliable reads names =
    let (files, local') = run-latest ttl steps c local reliable in
    let d = run steps c in
    let (same, local'', result) = get_at-result ttl d local' world q reads in
    let target = named_path world namespace key generation in
    let in_use = ap (λ b. get_if world b target d) local'.0 in
    (
      (get_at world q d).0,
      in_use
          ∙ ap (λ t. get_if world true t d) names
          ∙ ap (λ o. ok ((get_at world q d).0, o)) (result ∙ ap (if_fresh world ttl) (files q)),
    )
