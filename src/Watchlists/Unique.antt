-- ===== src/Watchlists/Unique.antt =====
-- The symbols of a watchlist that app/watchlists.py has read.
use underlying_analyzer_rebo.Base.{
  String, ◌≡◌, false, Option, none, some, List, [], ◌∷◌, ◌==◌, is_empty, map, All,
}
use underlying_analyzer_rebo.Base.Text.{text_in}
use underlying_analyzer_rebo.Base.Result.{ok}
use underlying_analyzer_rebo.Value.{Items, Fields}
use underlying_analyzer_rebo.Value.Show.{Python}
use underlying_analyzer_rebo.Watchlists.Symbols.{
  WatchlistSymbol, WatchlistResult, normalized, watchlist_of,
}

-- No two symbols have one ticker.
abbrev pub AreDistinct : List WatchlistSymbol → Type 0
AreDistinct [] = Unit
AreDistinct (s ∷ symbols) = All (λ t. (s.ticker == t.ticker) ≡ false) symbols × AreDistinct symbols

abbrev pub tickers : List WatchlistSymbol → List String
tickers symbols = map (λ s. s.ticker) symbols

-- The first list of symbols in the payloads of a page.
abbrev pub first_list : Python → List Fields → Option (Fields × Items)
first_list py [] = none
first_list py (payload ∷ payloads) = elim (watchlist_of py payload) [
  | some found ↦ some found
  | none ↦ first_list py payloads
]

-- A watchlist from its page: it has symbols, no two with one ticker, and every ticker of the symbols
-- that the page lists.
pub record IsWatchlist (py : Python) (payloads : List Fields) (w : WatchlistResult) : Type 0 where
  pub watchlist : Fields
  pub listed : Items
  pub first : first_list py payloads ≡ some (watchlist, listed)
  pub symbols : List WatchlistSymbol
  pub normal : normalized py listed ≡ ok symbols
  pub some_symbol : is_empty w.symbols ≡ false
  pub distinct : AreDistinct w.symbols
  pub complete :
      (ticker : String) → text_in ticker (tickers w.symbols) ≡ text_in ticker (tickers symbols)
