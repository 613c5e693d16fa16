-- ===== src/PrismCache/Store.antt =====
-- `PrismCache` of app/prism/cache.py, with the Supabase tier of `SupabaseSeriesCache`. The files below
-- `base_dir` are the contents that `json.loads` gives, by path. Time is counted in one unit.
use underlying_analyzer_rebo.Base.{
  ℕ, suc, ◌+◌, ◌-◌, String, Bool, true, false, not, ◌&&◌, Option, none, some, List, [], ◌∷◌, ◌++◌,
  ◌==◌, if◌then◌else◌, is_some, ltb, leb, any_in, length,
}
use underlying_analyzer_rebo.Base.Text.{blank, take_text, show_nat, text_in, ◌⧺◌}
use underlying_analyzer_rebo.Base.Result.{Result, ok, err, ◌>>=◌}
use underlying_analyzer_rebo.Value.{
  Value, null, str, arr, obj, no_items, item, Fields, no_fields, field,
}
use underlying_analyzer_rebo.Value.Access.{get_value, has_key, put, or_else, truthy, is_end}
use underlying_analyzer_rebo.Value.Show.{Python, str_of}
use underlying_analyzer_rebo.Alerts.Rules.{shown_or}
use underlying_analyzer_rebo.Jev.Ask.{Reply}
use underlying_analyzer_rebo.PrismCache.Keys.{
  KeyFault, Generation, as_of_month, safe_key, EntryPath, path, cache_key,
}

-- A note of a failure that was not raised: where, and the text of it.
pub record Note : Type 0 where
  pub stage : String
  pub error : String

pub record PrismCache : Type 0 where
  pub enabled : Bool
  pub ttl : ℕ
  -- whether there is a Supabase tier
  pub shared : Bool
  pub files : List (EntryPath × Value)
  pub hits : ℕ
  pub misses : ℕ
  pub writes : ℕ
  pub errors : List Note

-- What one call meets: the clock, the disk, which may fail with an `OSError`, and the answers of
-- Supabase, or the text of a `RequestException`.
pub record World : Type 0 where
  pub py : Python
  pub now : ℕ
  pub today : ℕ
  pub month : ℕ → String
  pub isoformat : ℕ → String
  -- `datetime.fromisoformat`, in UTC; `none` is `ValueError`
  pub fromisoformat : String → Option ℕ
  pub read_fault : EntryPath → Option String
  pub write_fault : EntryPath → Option String
  pub unlink_fault : EntryPath → Option String
  pub get_row : String → Result String Reply
  pub post_row : Value → Result String Reply

abbrev pub same_path : EntryPath → EntryPath → Bool
same_path p q = p.namespace == q.namespace && p.generation == q.generation && p.key == q.key

unfoldable pub read_file : EntryPath → List (EntryPath × Value) → Option Value
read_file p [] = none
read_file p ((q, v) ∷ files) = if same_path q p then some v else read_file p files

unfoldable pub write_file : EntryPath → Value → List (EntryPath × Value) → List (EntryPath × Value)
write_file p v [] = (p, v) ∷ []
write_file p v ((q, w) ∷ files) =
    let rest = write_file p v files in if same_path q p then (q, v) ∷ files else (q, w) ∷ rest

abbrev pub count_hit : PrismCache → PrismCache
count_hit c = record c { hits = suc c.hits }

abbrev pub count_miss : PrismCache → PrismCache
count_miss c = record c { misses = suc c.misses }

abbrev pub same_note : Note → Note → Bool
same_note m n = m.stage == n.stage && m.error == n.error

-- `_note_error`: a note is made once.
unfoldable pub note_error : String → String → PrismCache → PrismCache
unfolding take_text
note_error stage text c =
    let note : Note = record { stage = stage; error = take_text 200 text } in
    if any_in (same_note note) c.errors then c else record c { errors = c.errors ++ note ∷ [] }

module _ (world : World) where
  abbrev fresh_at : ℕ → Option ℕ → Bool
  fresh_at ttl none = true
  fresh_at ttl (some cached_at) = leb world.now (cached_at + ttl)

  -- `_is_fresh`: an entry without a stamp that can be read is fresh.
  unfoldable pub is_fresh : ℕ → Fields → Bool
  unfolding str_of
  is_fresh ttl entry =
      let stamp = or_else (get_value "cached_at" entry) (get_value "fetched_at" entry) in
      if truthy stamp then fresh_at ttl (world.fromisoformat (str_of world.py stamp)) else true

  abbrev pub if_fresh : ℕ → Option Value → Option Fields
  if_fresh ttl (some (obj entry)) = if is_fresh ttl entry then some entry else none
  if_fresh ttl _ = none

  -- A tier gives the cache, in which an error may be noted, and an entry.
  abbrev pub read_with : Option String → EntryPath → PrismCache → PrismCache × Option Fields
  read_with (some text) p c = (note_error "local_read" text c, none)
  read_with none p c = (c, if_fresh c.ttl (read_file p c.files))

  unfoldable pub read_local : EntryPath → PrismCache → PrismCache × Option Fields
  unfolding read_file is_fresh note_error
  read_local p c = read_with (world.read_fault p) p c

  abbrev pub write_with : Option String → EntryPath → Fields → PrismCache → PrismCache
  write_with (some text) p entry c = note_error "local_write" text c
  write_with none p entry c = record c { files = write_file p (obj entry) c.files }

  unfoldable pub write_local : EntryPath → Fields → PrismCache → PrismCache
  unfolding write_file note_error
  write_local p entry c = write_with (world.write_fault p) p entry c

  -- `SupabaseSeriesCache.fetch`
  abbrev first_row : Value → Option Fields
  first_row (arr (item (obj row) rest)) = some row
  first_row _ = none

  abbrev rows_in : Reply → Result String (Option Fields)
  rows_in reply =
      if blank reply.text
      then ok none
      else elim reply.json [ err text ↦ err text | ok rows ↦ ok (first_row rows) ]

  abbrev row_in : Result String Reply → Result String (Option Fields)
  row_in (err text) = err text
  row_in (ok reply) =
      if leb 400 reply.status
      then err ("Supabase prism_series_cache GET failed: " ⧺ show_nat reply.status)
      else rows_in reply

  unfoldable pub fetch : String → Result String (Option Fields)
  unfolding show_nat
  fetch key = row_in (world.get_row key)

  -- `SupabaseSeriesCache.store`
  abbrev stored_by : Result String Reply → Option String
  stored_by (err text) = some text
  stored_by (ok reply) =
      if leb 400 reply.status
      then some ("Supabase prism_series_cache POST failed: " ⧺ show_nat reply.status)
      else none

  unfoldable pub store : Fields → Option String
  unfolding show_nat
  store row = stored_by (world.post_row (arr (item (obj row) no_items)))

  abbrev pub set_default : String → Value → Fields → Fields
  set_default key v fs = if has_key key fs then fs else put key v fs

  abbrev pub entry_of : Fields → Value → Option Value
  entry_of row (obj entry) = some (obj (set_default "cached_at" (get_value "fetched_at" row) entry))
  entry_of row _ = none

  abbrev pub fetched : PrismCache → Result String (Option Fields) → PrismCache × Option Fields
  fetched c (err text) = (note_error "supabase_read" text c, none)
  fetched c (ok none) = (c, none)
  fetched c (ok (some row)) =
      if is_end row then (c, none) else (c, if_fresh c.ttl (entry_of row (get_value "entry" row)))

  abbrev pub read_if : (shared : Bool) → EntryPath → PrismCache → PrismCache × Option Fields
  read_if false p c = (c, none)
  read_if true p c = fetched c (fetch (cache_key p))

  unfoldable pub read_supabase : EntryPath → PrismCache → PrismCache × Option Fields
  unfolding fetch is_fresh note_error
  read_supabase p c = read_if c.shared p c

  abbrev pub note_if : PrismCache → Option String → PrismCache
  note_if c none = c
  note_if c (some text) = note_error "supabase_write" text c

  abbrev text_or_null : String → Value
  text_or_null text = if blank text then null else str text

  -- The row that is stored for an entry.
  unfoldable pub row_of : EntryPath → String → String → Fields → Fields
  unfolding take_text str_of
  row_of p key month entry = field "cache_key" (str (cache_key p)) (
      field "namespace" (str p.namespace) (
        field "symbol" (str (take_text 64 key)) (
          field "as_of_month" (str month) (
            field "provider"
              (text_or_null (take_text 32 (shown_or world.py (get_value "provider" entry) "")))
              (field "entry" (obj entry) (
                field "fetched_at"
                  (or_else (get_value "cached_at" entry) (str (world.isoformat world.now)))
                  no_fields))))))

  abbrev pub write_if : (shared : Bool) → Fields → PrismCache → PrismCache
  write_if false row c = c
  write_if true row c = note_if c (store row)

  unfoldable pub write_supabase : EntryPath → String → String → Fields → PrismCache → PrismCache
  unfolding store row_of note_error
  write_supabase p key month entry c = write_if c.shared (row_of p key month entry) c

  abbrev pub after_remote : EntryPath → PrismCache × Option Fields → PrismCache × Option Fields
  after_remote p (c, none) = (count_miss c, none)
  after_remote p (c, some entry) = (count_hit (write_local p entry c), some entry)

  abbrev pub after_local : EntryPath → PrismCache × Option Fields → PrismCache × Option Fields
  after_local p (c, some entry) = (count_hit c, some entry)
  after_local p (c, none) = after_remote p (read_supabase p c)

  -- A read of a path that can be used.
  unfoldable pub get_at : EntryPath → PrismCache → PrismCache × Option Fields
  unfolding read_local read_supabase write_local
  get_at p c = after_local p (read_local p c)

  -- The month and the path that a call names.
  unfoldable pub named_path : String → String → Generation → Result KeyFault (String × EntryPath)
  unfolding as_of_month path
  named_path namespace key generation = do
    month ← as_of_month world.month world.today generation
    p ← path namespace key month
    ok (month, p)

  abbrev pub get_if :
      (enabled : Bool)
      → Result KeyFault (String × EntryPath)
      → PrismCache
      → Result KeyFault (PrismCache × Option Fields)
  get_if false target c = ok (count_miss c, none)
  get_if true (err fault) c = err fault
  get_if true (ok (month, p)) c = ok (get_at p c)

  unfoldable pub get :
      String → String → Generation → PrismCache → Result KeyFault (PrismCache × Option Fields)
  unfolding named_path get_at
  get namespace key generation c = get_if c.enabled (named_path namespace key generation) c

  abbrev pub body_of : Fields → Fields
  body_of payload = set_default "cached_at" (str (world.isoformat world.now)) payload

  unfoldable pub set_at : EntryPath → String → String → Fields → PrismCache → PrismCache
  unfolding write_local write_supabase
  set_at p key month payload c =
      let body = body_of payload in
      let written = write_supabase p key month body (write_local p body c) in
      record written { writes = suc written.writes }

  abbrev pub set_if :
      (enabled : Bool)
      → Result KeyFault (String × EntryPath)
      → String
      → Fields
      → PrismCache
      → Result KeyFault PrismCache
  set_if false target key payload c = ok c
  set_if true (err fault) key payload c = err fault
  set_if true (ok (month, p)) key payload c = ok (set_at p key month payload c)

  unfoldable pub set :
      String → String → Fields → Generation → PrismCache → Result KeyFault PrismCache
  unfolding named_path set_at
  set namespace key payload generation c =
      set_if c.enabled (named_path namespace key generation) key payload c

-- `clear` of the namespaces that are given, or of all.
abbrev pub kept_by : Option (List String) → EntryPath × Value → Bool
kept_by none file = false
kept_by (some names) file = not (text_in file.0.namespace names)

unfoldable pub safe_keys : List String → Result KeyFault (List String)
unfolding safe_key
safe_keys [] = ok []
safe_keys (name ∷ names) = do name' ← safe_key name; names' ← safe_keys names; ok (name' ∷ names')

abbrev pub safe_names : Option (List String) → Result KeyFault (Option (List String))
safe_names none = ok none
safe_names (some names) = do names' ← safe_keys names; ok (some names')

-- The files that are left, and whether all that were met could be removed: the first that cannot be
-- removed raises an `OSError` that ends the loop. Files are met in the order of the list.
unfoldable pub removal :
    World → Option (List String) → List (EntryPath × Value) → List (EntryPath × Value) × Bool
unfolding text_in
removal world names [] = ([], true)
removal world names (file ∷ files) =
    let rest = removal world names files in
    if kept_by names file
    then (file ∷ rest.0, rest.1)
    else if is_some (world.unlink_fault file.0)
    then (file ∷ files, false)
    else rest

-- The number of files that were removed, `none` where the `OSError` escapes.
abbrev pub after_clear : World → PrismCache → Option (List String) → PrismCache × Option ℕ
after_clear world c names =
    let (left, finished) = removal world names c.files in
    (record c { files = left }, if finished then some (length c.files - length left) else none)

unfoldable pub clear :
    World → Option (List String) → PrismCache → Result KeyFault (PrismCache × Option ℕ)
unfolding safe_keys removal
clear world namespaces c = do names ← safe_names namespaces; ok (after_clear world c names)

-- `status`
unfoldable pub status : PrismCache → String
status c = if not c.enabled then "disabled" else if ltb 0 c.hits then "hit" else "miss"
