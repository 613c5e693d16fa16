-- ===== src/Executor/Compact.antt =====
-- `_compact` of app/tool_executor.py: long texts and long arrays are cut.
pub mod Bounds
pub mod Identity
use underlying_analyzer_rebo.Base.{ℕ, zero, suc, ◌-◌, String, count, ◌≡◌, refl, ltb, if◌then◌else◌}
use underlying_analyzer_rebo.Base.Text.{take_text, show_nat, ◌⧺◌}
use underlying_analyzer_rebo.Value.{
  Value, null, bool, int, str, arr, obj, Items, no_items, item, Fields, no_fields, field,
}
use underlying_analyzer_rebo.Value.Access.{length_items}

abbrev pub max_string_chars : ℕ
max_string_chars = 2400

abbrev pub max_array_items : ℕ
max_array_items = 40

unfoldable pub compact_text : String → String
compact_text s =
    if ltb max_string_chars (count s)
    then take_text max_string_chars s ⧺ ("... [" ⧺ (show_nat (count s) ⧺ " chars total]"))
    else s

unfoldable pub omitted : ℕ → Items
omitted n =
    if ltb max_array_items n
    then item (str ("... " ⧺ show_nat (n - max_array_items) ⧺ " more items omitted")) no_items
    else no_items

abbrev pub append_items : Items → Items → Items
append_items no_items ws = ws
append_items (item v vs) ws = item v (append_items vs ws)

unfoldable mutual
  pub compact : Value → Value
  compact (str s) = str (compact_text s)
  compact (arr vs) =
      arr (append_items (compact_items vs max_array_items) (omitted (length_items vs)))
  compact (obj fs) = obj (compact_fields fs)
  compact v = v

  -- The first `n` items, compacted.
  pub compact_items : Items → ℕ → Items
  compact_items no_items n = no_items
  compact_items (item v vs) zero = no_items
  compact_items (item v vs) (suc n) = item (compact v) (compact_items vs n)

  pub compact_fields : Fields → Fields
  compact_fields no_fields = no_fields
  compact_fields (field k v fs) = field k (compact v) (compact_fields fs)
