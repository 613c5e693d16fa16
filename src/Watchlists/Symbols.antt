-- ===== src/Watchlists/Symbols.antt =====
-- `parse_tradingview_watchlist` of app/watchlists.py, from the payloads that are found in the page.
use underlying_analyzer_rebo.Base.{
  String, Option, none, some, List, [], ◌∷◌, ◌==◌, if◌then◌else◌, is_empty,
}
use underlying_analyzer_rebo.Base.Text.{strip, upper, blank, split, join, replace, text_in, ◌⧺◌}
use underlying_analyzer_rebo.Base.Int.{ℤ}
use underlying_analyzer_rebo.Base.Result.{Result, ok, err, ◌>>=◌}
use underlying_analyzer_rebo.Value.{Value, str, arr, obj, Items, no_items, item, Fields}
use underlying_analyzer_rebo.Value.Access.{get_value, or_else}
use underlying_analyzer_rebo.Value.Show.{Python, str_of}
use underlying_analyzer_rebo.Alerts.Rules.{int_or_bool}

pub record WatchlistSymbol : Type 0 where
  pub raw : String
  pub exchange : Option String
  pub symbol : String
  pub ticker : String

pub record WatchlistResult : Type 0 where
  pub id : Option ℤ
  pub name : String
  pub source_url : String
  pub symbols : List WatchlistSymbol

-- `WatchlistError` by the place that raises it.
pub data WatchlistError : Type 0 where
  empty_symbol no_symbols no_data : WatchlistError

unfoldable pub suffix_of : String → String
suffix_of exchange =
    if exchange == "ASX"
    then ".AX"
    else if exchange == "TSX"
    then ".TO"
    else if exchange == "TSXV"
    then ".V"
    else if exchange == "LSE"
    then ".L"
    else if exchange == "FWB"
    then ".F"
    else if exchange == "XETR"
    then ".DE"
    else if exchange == "HKEX"
    then ".HK"
    else if exchange == "TSE"
    then ".T"
    else ""

-- `raw.split(":", 1)`, of a text that may have no colon.
abbrev pub split_once : List String → Option String × String
split_once [] = (none, "")
split_once (symbol ∷ []) = (none, symbol)
split_once (exchange ∷ part ∷ parts) = (some exchange, join ":" (part ∷ parts))

abbrev or_blank : Option String → String
or_blank none = ""
or_blank (some s) = s

unfoldable pub normalize_tradingview_symbol : String → Result WatchlistError WatchlistSymbol
unfolding suffix_of
normalize_tradingview_symbol raw_symbol =
    let raw = upper (strip raw_symbol) in
    let (exchange, symbol) = split_once (split b':' raw) in
    if blank raw
    then err empty_symbol
    else ok (record {
      raw = raw;
      exchange = exchange;
      symbol = symbol;
      ticker = replace symbol "." "-" ⧺ suffix_of (or_blank exchange);
    })

-- The loop of `unique_symbols`; `seen` has the tickers of the symbols that are kept.
unfoldable pub unique_from : List String → List WatchlistSymbol → List WatchlistSymbol
unique_from seen [] = []
unique_from seen (s ∷ symbols) =
    let rest = unique_from seen symbols in
    let others = unique_from (s.ticker ∷ seen) symbols in
    if text_in s.ticker seen then rest else s ∷ others

unfoldable pub unique_symbols : List WatchlistSymbol → List WatchlistSymbol
unfolding unique_from
unique_symbols symbols = unique_from [] symbols

module _ (py : Python) where
  -- The symbols that have more than white space, normalised.
  unfoldable pub normalized : Items → Result WatchlistError (List WatchlistSymbol)
  unfolding normalize_tradingview_symbol str_of
  normalized no_items = ok []
  normalized (item v vs) =
      let rest = normalized vs in
      if blank (strip (str_of py v))
      then rest
      else (normalize_tradingview_symbol (str_of py v) >>= λ s.
          rest >>= λ symbols. ok (s ∷ symbols))

  abbrev raw_symbols : Value → Option (Fields × Items)
  raw_symbols (obj watchlist) = elim (get_value "symbols" watchlist) [
    | arr vs ↦ some (watchlist, vs)
    | _ ↦ none
  ]
  raw_symbols _ = none

  -- The list of symbols that a payload of the page holds.
  unfoldable pub watchlist_of : Fields → Option (Fields × Items)
  watchlist_of payload = elim (get_value "sharedWatchlist" payload) [
    | obj shared ↦ raw_symbols (get_value "list" shared)
    | _ ↦ none
  ]

  unfoldable pub result_of :
      String → Fields → List WatchlistSymbol → Result WatchlistError WatchlistResult
  result_of source_url watchlist symbols =
      if is_empty symbols
      then err no_symbols
      else ok (record {
        id = int_or_bool (get_value "id" watchlist);
        name = str_of py (or_else (get_value "name" watchlist) (str "TradingView watchlist"));
        source_url = source_url;
        symbols = symbols;
      })

  unfoldable pub read_watchlist : String → Fields → Items → Result WatchlistError WatchlistResult
  unfolding normalized unique_symbols result_of
  read_watchlist source_url watchlist vs = do
    symbols ← normalized vs
    result_of source_url watchlist (unique_symbols symbols)

  -- `parse_tradingview_watchlist`
  unfoldable pub parse_tradingview_watchlist :
      String → List Fields → Result WatchlistError WatchlistResult
  unfolding watchlist_of read_watchlist
  parse_tradingview_watchlist source_url [] = err no_data
  parse_tradingview_watchlist source_url (payload ∷ payloads) = elim (watchlist_of payload) [
    | none ↦ parse_tradingview_watchlist source_url payloads
    | some (watchlist, vs) ↦ read_watchlist source_url watchlist vs
  ]
