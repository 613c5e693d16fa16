-- ===== src/Watchlists/Examples.antt =====
-- A page of app/watchlists.py with a list of four symbols.
use underlying_analyzer_rebo.Base.{none, some, List, [], ◌∷◌}
use underlying_analyzer_rebo.Base.Int.{pos}
use underlying_analyzer_rebo.Value.{int, str, arr, obj, Fields, no_fields, field}
use underlying_analyzer_rebo.Value.Access.{texts}
use underlying_analyzer_rebo.Value.Show.{Python}
use underlying_analyzer_rebo.Watchlists.Symbols.{WatchlistResult}

abbrev python : Python
python = record {
  show = λ v. "";
  repr = λ v. "";
  float_of_int = λ n. some n;
  float_of_text = λ s. none;
}

abbrev page : List Fields
page =
    field "user" (str "someone") no_fields
    ∷ field "sharedWatchlist"
        (obj (
          field "list"
            (obj (
              field "id" (int (pos 7)) (
                field "symbols" (arr (texts ("NASDAQ:AAPL" ∷ "lse:vod" ∷ " aapl" ∷ "BRK.B" ∷ [])))
                  no_fields)))
            no_fields))
        no_fields
    ∷ []

abbrev watchlist : WatchlistResult
watchlist = record {
  id = some (pos 7);
  name = "TradingView watchlist";
  source_url = "https://www.tradingview.com/watchlists/7/";
  symbols =
      record { raw = "NASDAQ:AAPL"; exchange = some "NASDAQ"; symbol = "AAPL"; ticker = "AAPL" }
      ∷ record { raw = "LSE:VOD"; exchange = some "LSE"; symbol = "VOD"; ticker = "VOD.L" }
      ∷ record { raw = "BRK.B"; exchange = none; symbol = "BRK.B"; ticker = "BRK-B" }
      ∷ [];
}
