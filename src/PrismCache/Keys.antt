-- ===== src/PrismCache/Keys.antt =====
-- The names of entries in app/prism/cache.py: `safe_key`, `as_of_month`, `cache_key` and `_path`.
use Prim.Native.Char.{code}
use underlying_analyzer_rebo.Base.{
  ℕ, zero, suc, String, count, Bool, true, false, ◌&&◌, ◌||◌, if◌then◌else◌, leb, nat_eq,
}
use underlying_analyzer_rebo.Base.Text.{strip, blank, take_text, ◌⧺◌}
use underlying_analyzer_rebo.Base.Result.{Result, ok, err, ◌>>=◌}

-- `PrismCacheError` of a key or a month that cannot be used.
pub data KeyFault : Type 0 where
  no_month : (value : String) → KeyFault
  unusable_key : (value : String) → KeyFault

is_safe : ℕ → Bool
is_safe c =
    leb b'A' c && leb c b'Z'
    || leb b'a' c && leb c b'z'
    || leb b'0' c && leb c b'9'
    || nat_eq c b'.'
    || nat_eq c b'_'
    || nat_eq c b'-'

-- `_UNSAFE_KEY.sub("_", s)`: a run of other characters is one underscore.
unfoldable pub replace_unsafe : (in_run : Bool) → String → String
unfolding is_safe
replace_unsafe in_run String.[] = ""
replace_unsafe in_run (String.◌∷◌ c s) =
    let kept = String.◌∷◌ c (replace_unsafe false s) in
    let run = replace_unsafe true s in
    if is_safe (code c) then kept else if in_run then run else "_" ⧺ run

-- `s.lstrip(".")`
unfoldable pub without_dots : String → String
without_dots String.[] = ""
without_dots (String.◌∷◌ c s) =
    let rest = without_dots s in if nat_eq (code c) b'.' then rest else String.◌∷◌ c s

unfoldable pub safe_key : String → Result KeyFault String
unfolding strip replace_unsafe without_dots take_text
safe_key value =
    let cleaned = without_dots (replace_unsafe false (strip value)) in
    if blank cleaned then err (unusable_key value) else ok (take_text 120 cleaned)

-- The `generation` that a caller gives; a date is the number of its day.
pub data Generation : Type 0 where
  current : Generation
  of_date : ℕ → Generation
  of_text : String → Generation

-- `s[i] == c`, where `s` is long enough.
abbrev char_is : ℕ → ℕ → String → Bool
char_is i d String.[] = false
char_is zero d (String.◌∷◌ c s) = nat_eq (code c) d
char_is (suc i) d (String.◌∷◌ c s) = char_is i d s

-- `month` is `strftime("%Y-%m")`, and `today` the date of the clock.
unfoldable pub as_of_month :
    (month : ℕ → String) → (today : ℕ) → Generation → Result KeyFault String
unfolding strip take_text
as_of_month month today current = ok (month today)
as_of_month month today (of_date day) = ok (month day)
as_of_month month today (of_text value) =
    if leb 7 (count (strip value)) && char_is 4 b'-' (strip value)
    then ok (take_text 7 (strip value))
    else err (no_month value)

-- The parts of a file's path below `base_dir`, and of the key of a row.
pub record EntryPath : Type 0 where
  pub namespace : String
  pub generation : String
  pub key : String

unfoldable pub path : String → String → String → Result KeyFault EntryPath
unfolding safe_key
path namespace key generation = do
  namespace' ← safe_key namespace
  generation' ← safe_key generation
  key' ← safe_key key
  ok record { namespace = namespace'; generation = generation'; key = key' }

abbrev pub cache_key : EntryPath → String
cache_key p = p.namespace ⧺ ":" ⧺ p.key ⧺ ":" ⧺ p.generation
