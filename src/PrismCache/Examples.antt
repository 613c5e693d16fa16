-- ===== src/PrismCache/Examples.antt =====
-- Calls of the cache of app/prism/cache.py, on a disk that works and in an outage.
use underlying_analyzer_rebo.Base.{◌≡◌, refl, true, false, none, some, List, [], ◌∷◌}
use underlying_analyzer_rebo.Base.Text.{strip, take_text}
use underlying_analyzer_rebo.Base.Result.{ok, err}
use underlying_analyzer_rebo.Value.{str, Fields, no_fields, field}
use underlying_analyzer_rebo.Value.Show.{Python}
use underlying_analyzer_rebo.PrismCache.Keys.{
  current, of_text, EntryPath, safe_key, replace_unsafe, without_dots, path, as_of_month,
}
use underlying_analyzer_rebo.PrismCache.Store.{
  PrismCache, World, named_path, if_fresh, read_file, get,
}
use underlying_analyzer_rebo.PrismCache.History.{
  Call, get_call, set_call, clear_call, run, latest, get-latest,
}
use underlying_analyzer_rebo.PrismCache.Outage.{Answer, try_all, IsTallied, try_all-IsTallied}

abbrev python : Python
python = record {
  show = λ v. "";
  repr = λ v. "";
  float_of_int = λ n. some n;
  float_of_text = λ s. none;
}

abbrev calm : World
calm = record {
  py = python;
  now = 100;
  today = 20455;
  month = λ day. "2026-01";
  isoformat = λ time. "2026-01-02";
  fromisoformat = λ text. some 90;
  read_fault = λ p. none;
  write_fault = λ p. none;
  unlink_fault = λ p. none;
  get_row = λ key. err "no network";
  post_row = λ row. err "no network";
}

abbrev outage : World
outage = record calm { read_fault = λ p. some "disk"; write_fault = λ p. some "disk" }

abbrev empty : PrismCache
empty = record {
  enabled = true;
  ttl = 31;
  shared = false;
  files = [];
  hits = 0;
  misses = 0;
  writes = 0;
  errors = [];
}

abbrev place : EntryPath
place = record { namespace = "series"; generation = "2026-01"; key = "X_BTCUSD" }

safe_key_runs : safe_key " ..X:/BTCUSD" ≡ ok "X_BTCUSD"
unfolding safe_key replace_unsafe without_dots strip take_text
safe_key_runs = refl

place_named : named_path calm "series" "X:BTCUSD" (of_text "2026-01-02") ≡ ok ("2026-01", place)
unfolding named_path as_of_month path safe_key replace_unsafe without_dots strip take_text
place_named = refl

abbrev entry : Fields
entry = field "provider" (str "sample") no_fields

abbrev steps : List Call
steps =
    set_call calm "series" "X:BTCUSD" entry current
    ∷ clear_call calm (some ("macro" ∷ []))
    ∷ get_call calm "series" "X:BTCUSD" current
    ∷ []

get-latest_example :
    (later : PrismCache) × (get calm "series" "X:BTCUSD" (of_text "2026-01-02") (run steps empty)
      ≡ ok (later, if_fresh calm 31 (latest place steps none)))
unfolding read_file
get-latest_example =
    get-latest 31 empty steps calm "series" "X:BTCUSD" "2026-01" (of_text "2026-01-02") place
      (refl, refl, refl) ((λ p. refl), ((λ p. refl), ((λ p. (refl, refl)), tt))) refl place_named

abbrev shared : PrismCache
shared = record empty { shared = true }

abbrev failing : List Call
failing =
    set_call outage "series" "X:BTCUSD" entry (of_text "2026-01-02")
    ∷ get_call outage "series" "X:BTCUSD" (of_text "2026-01-02")
    ∷ []

try_all-IsTallied_example :
    (answers : List Answer) × (d : PrismCache) × (try_all failing shared ≡ ok (answers, d))
    × IsTallied shared 1 answers d
unfolding named_path
try_all-IsTallied_example =
    try_all-IsTallied failing shared refl
      ((("2026-01", place), place_named), ((("2026-01", place), place_named), tt))
