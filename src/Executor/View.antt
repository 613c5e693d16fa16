-- ===== src/Executor/View.antt =====
-- What `execute_tool` of app/tool_executor.py shows of a result: all of it, or what an agent needs.
pub mod NoImage
use underlying_analyzer_rebo.Base.{String, ◌==◌, if◌then◌else◌}
use underlying_analyzer_rebo.Value.{Value, str, obj, Fields, no_fields, field}
use underlying_analyzer_rebo.Value.Access.{get_value, or_else, as_dict}
use underlying_analyzer_rebo.Executor.Compact.{compact}

pub data ResultView : Type 0 where
  agent full : ResultView

abbrev pub ticker_research_tool : String
ticker_research_tool = "ticker_research_bundle"

abbrev raw_series_note : String
raw_series_note =
    "This is the complete decision context available to this agent. Raw per-bar series are intentionally withheld from in-product agent calls; repeating this tool returns the same projection."

abbrev pub meta_fields : Fields → Fields
meta_fields meta = field "schema_version" (get_value "schema_version" meta) (
    field "requested_periods" (get_value "requested_periods" meta) (
      field "interval" (get_value "interval" meta) (
        field "chart_sources" (get_value "chart_sources" meta) (
          field "source_status" (get_value "source_status" meta) (
            field "error_count" (get_value "error_count" meta) (
              field "errors" (get_value "errors" meta)
                (field "rate_limit" (get_value "rate_limit" meta) no_fields)))))))

-- `_ticker_research_agent_projection`
unfoldable pub projection : Value → Value
projection (obj packet) = obj (
    field "ticker" (get_value "ticker" packet) (
      field "agent_context" (compact (or_else (get_value "agent_context" packet) (obj no_fields))) (
        field "provider" (get_value "provider" packet) (
          field "provider_note" (get_value "provider_note" packet) (
            field "meta" (compact (obj (meta_fields (as_dict (get_value "meta" packet))))) (
              field "raw_series" (obj (field "note" (str raw_series_note) no_fields))
                no_fields))))))
projection v = obj (field "agent_context" (compact v) no_fields)

-- `_result_for_view`
unfoldable pub result_for_view : String → Value → ResultView → Value
unfolding projection
result_for_view name v full = v
result_for_view name v agent = if name == ticker_research_tool then projection v else compact v
