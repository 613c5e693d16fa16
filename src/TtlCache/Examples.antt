-- ===== src/TtlCache/Examples.antt =====
-- The cache of app/_perf.py on concrete histories.
use underlying_analyzer_rebo.Base.{
  ℕ, String, ◌+◌, ◌<◌, ◌≡◌, ◌≢◌, refl, ◌⊎◌, Option, none, some, List, [], ◌∷◌, arith, eq_iff,
  if◌then◌else◌, ltb, ◌==◌, String-Key,
}
use underlying_analyzer_rebo.TtlCache.Store.{Entry, TtlCache, find, get, set, pop, put, oldest}
use underlying_analyzer_rebo.TtlCache.Bounds.{IsBounded}
use underlying_analyzer_rebo.TtlCache.Freshness.{
  Call, got, stored, new, run, step, latest, run-IsBounded, get_never_stale,
}
use underlying_analyzer_rebo.TtlCache.Retention.{
  IsEvicted, set_keeps_or_evicts_soonest, get-set_self,
}
use underlying_analyzer_rebo.TtlCache.Memo.{wrapper, Mirrors, Transparent, wrapper-Transparent}

-- Two symbols in a cache with room for two, then a third, which evicts the first.
abbrev history : List (Call String ℕ)
history = stored "NVDA" 30 12 ∷ got "AAPL" 11 ∷ stored "MSFT" 20 5 ∷ stored "AAPL" 10 1 ∷ []

history_results :
    ((get (run history (new 60 2)) "AAPL" 13).0 ≡ none)
    × ((get (run history (new 60 2)) "MSFT" 64).0 ≡ some 20)
    × ((get (run history (new 60 2)) "MSFT" 65).0 ≡ none)
unfolding run step get set find pop put oldest
history_results = (refl, refl, refl)

run-IsBounded_example : IsBounded (run history (new 60 2))
run-IsBounded_example = run-IsBounded 60 2 history

get_never_stale_example : (t : ℕ) × (latest history "MSFT" ≡ some (20, t)) × (64 < t + 60)
get_never_stale_example = get_never_stale 60 2 history "MSFT" 64 20 history_results.1

abbrev entry : ℕ → ℕ → Entry ℕ
entry v t = record { value = v; expires_at = t }

abbrev full_cache : TtlCache String ℕ
full_cache = record {
  ttl_seconds = 60;
  max_entries = 2;
  store = ("AAPL", entry 10 61) ∷ ("MSFT", entry 20 65) ∷ [];
}

abbrev next_cache : TtlCache String ℕ
next_cache = record full_cache { store = ("MSFT", entry 20 65) ∷ ("NVDA", entry 30 72) ∷ [] }

full_cache-IsBounded : IsBounded full_cache
unfolding find
full_cache-IsBounded = record { distinct = (refl, (refl, tt)); within = omega arith }

set_full : set full_cache "NVDA" 30 12 ≡ some next_cache
unfolding set oldest put pop
set_full = refl

nvda_not_aapl : ◌≢◌ {A = String} "NVDA" "AAPL"
nvda_not_aapl = ground (arith, eq_iff "NVDA" "AAPL")

set_keeps_or_evicts_soonest_example :
    (find "AAPL" next_cache.store ≡ find "AAPL" full_cache.store)
    ⊎ IsEvicted full_cache next_cache "AAPL"
set_keeps_or_evicts_soonest_example =
    set_keeps_or_evicts_soonest full_cache "NVDA" "AAPL" 30 12 next_cache full_cache-IsBounded
      set_full nvda_not_aapl

get-set_self_example : (get next_cache "NVDA" 71).0 ≡ (if ltb 71 (12 + 60) then some 30 else none)
get-set_self_example = get-set_self full_cache "NVDA" 30 12 71 next_cache (omega arith) set_full

-- A function whose arguments are their own key.
abbrev price : String → Option ℕ
price s = if s == "NVDA" then some 30 else none

abbrev hashed : String → Option String
hashed s = some s

price_determined :
    (a b k : String)
    → ◌≡◌ {A = Option String} (some a) (some k)
    → ◌≡◌ {A = Option String} (some b) (some k)
    → price a ≡ price b
price_determined a b k p q = cc

new-IsBounded : IsBounded (new {V = ℕ} ⦃e = String-Key⦄ 60 2)
new-IsBounded = record { distinct = tt; within = omega arith }

new-Mirrors : Mirrors (λ s. some s) price (new 60 2)
unfolding find
new-Mirrors a k x p found = cc

wrapper-Transparent_example :
    Transparent hashed price (new 60 2) "NVDA" (wrapper hashed price (new 60 2) "NVDA" 1 2)
    ⊎ ((hashed "NVDA" ≡ none) × (0 < 60) × (wrapper hashed price (new 60 2) "NVDA" 1 2 ≡ none))
wrapper-Transparent_example =
    wrapper-Transparent hashed price price_determined (new 60 2) "NVDA" 1 2 new-Mirrors
      new-IsBounded (omega arith)
