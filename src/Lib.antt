-- ===== src/Lib.antt =====
-- Verification of the core of the Underlying Analyzer Terminal: the research agent, the tools that it
-- and MCP clients call, the cache behind the data providers, and the scheduled alerts.
--
-- The program is a Flask application. A browser talks to the agent (app/agent.py), which asks a model
-- for text and for tool calls. Every tool is one entry of the registry (app/tool_registry.py), and a
-- call is checked, turned into an HTTP request to the application itself and answered by the executor
-- (app/tool_executor.py). MCP clients reach the same tools over JSON-RPC (app/mcp_http.py). The routes
-- behind the tools read providers through a bounded cache with a time to live (app/_perf.py), and some
-- take the symbols of a public watchlist (app/watchlists.py). A scheduler calls a route that runs the
-- alert rules of the day and posts their webhooks (app/alert_scheduler.py).
--
-- Files:
--   Base              names and helpers that the modules share: lists, texts, the integers of Python
--                     over the native numbers (Base/Int), results (Base/Result), decidable keys.
--   Value             JSON values. A dict is the list of its entries in insertion order; Value/Access
--                     has Python's reads and writes, Value/Show its `str`.
--   TtlCache/Store    `TTLCache` and `ttl_cached` of app/_perf.py: `get`, `set`, `clear`, and `wrapper`
--                     of a memoised function. The clock is an argument of each operation.
--   Registry/Spec     `ToolSpec`, `get_tool`, `agent_tools` and `mcp_tools` of app/tool_registry.py.
--   Registry/Coerce   `coerce_arguments` and `_coerce`; Registry/Request is `build_request`.
--   Executor/Compact  `_compact` of app/tool_executor.py; Executor/Artifacts is `_extract_artifacts`,
--                     Executor/View `_result_for_view`, Executor/Runtime `_dispatch`, and Executor/Run
--                     `execute_tool` and `ToolResult.model_text`.
--   Mcp/Tools         `_tools_call` of app/mcp_http.py, and `mcp_tool_definitions`; Mcp/Protocol is
--                     `handle_mcp_payload` with its other methods, and the route of app/main.py.
--   Agent/History     `normalize_history` of app/agent.py.
--   Agent/Stream      the state of `run_agent_stream` and one call of a tool; Agent/Loop is its loop,
--                     Agent/Select is `select_tools`, Agent/Narrow `preclassify_tool_groups` with
--                     the tools that `run_agent_stream` starts with, Agent/Options
--                     `agent_run_options` of app/main.py and the run of its options, and
--                     Agent/Collect `collect_agent_turn` of app/main.py.
--   Alerts/Rules      the rules of app/alert_scheduler.py as they are read from the store; Alerts/Delivery
--                     is `deliver_alert_webhook`, and Alerts/Schedule the scheduled run of app/main.py,
--                     whose effects on the store and on webhooks are a log.
--   Watchlists        `parse_tradingview_watchlist` of app/watchlists.py, from the payloads in the page.
--   Jev               `JevClient` of app/jev.py: Jev/Answers reads the answers, Jev/Ask is `ask` with its
--                     loop over attempts, and `noul`, `choice` and `score`.
--   Materiality       app/alert_materiality.py: Materiality/Levels has the levels, the filter and the
--                     reading of a score, Materiality/Score the batched questions, and
--                     Materiality/Memo `score_alert_materiality` with what it remembers.
--   Digest            app/alerts.py: Digest/Rows makes the alerts of a row, Digest/Order and
--                     Digest/Queue sort them and make the digest, and Digest/Build is
--                     `build_alert_digest` with `build_alerts_response` of app/main.py.
--   PrismCache        app/prism/cache.py: PrismCache/Keys has `safe_key` and `as_of_month`, and
--                     PrismCache/Store `PrismCache` with its file and Supabase tiers.
-- The other files hold theorems and examples, and are named for what they state.
--
-- How state is modelled: the cache, the list of artifacts and the state of an agent's run are values
-- that each operation takes and returns. What a generator yields is collected in the state. An
-- exception is an `err`, or `none` where the code does not expect it.
--
-- Parameters: what Python does with floats and with the text of a list or a dict (`Python`); Flask's
-- test client, `urlencode` and `json.dumps` (`Runtime`); Supabase, the parsing of URLs and addresses, the HTTP client
-- of webhooks and the building of an alert payload (`Network`, `Services`), for which Digest/Report
-- takes that of Digest/Build; the session and the waits of Jev's client (`Wire`), the floats and the
-- hash of a scored alert (`FloatRules`, `Scorer`), and the rows of the cockpit; the disk, the clock
-- and the requests of the Prism cache (`World`); the client of the model
-- (the field `stream` of `Session`), which may answer each conversation with any events and may fail
-- after them. The table of tools is an argument. A request is taken to be answered by routes that are functions of the
-- request, floats are finite, and reading the arguments raises no other exception than `OverflowError`.
--
-- Bounds: only the loop over the chunks of alerts to score takes fuel, which is the number of alerts
-- and is enough. The loop over the model's turns is bounded in the source, and the
-- number of turns is what it recurses on. All other loops run over lists. Python's integers are
-- unbounded, and so are those of the model.
--
-- Not modelled: the data providers, the analytics and the charts, the prompts, and the routes that
-- only call them.
pub mod Base
pub mod Value
pub mod TtlCache
pub mod Registry
pub mod Executor
pub mod Agent
pub mod Mcp
pub mod Alerts
pub mod Watchlists
pub mod Jev
pub mod Materiality
pub mod Digest
pub mod PrismCache
