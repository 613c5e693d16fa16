-- ===== src/Value/Access.antt =====
-- Python's reads and writes of lists and dicts, and its tests on values.
use underlying_analyzer_rebo.Base.{
  ℕ, suc, String, ◌≡◌, Bool, true, false, not, Option, none, some, List, [], ◌∷◌, arith, ◌==◌,
  eq_iff, if◌then◌else◌, is_some,
}
use underlying_analyzer_rebo.Base.Text.{blank}
use underlying_analyzer_rebo.Base.Int.{is_zero}
use underlying_analyzer_rebo.Value.{
  Value, null, bool, int, float, str, arr, obj, Items, no_items, item, Fields, no_fields, field,
}

abbrev pub items : Items → List Value
items no_items = []
items (item v vs) = v ∷ items vs

abbrev pub of_items : List Value → Items
of_items [] = no_items
of_items (v ∷ vs) = item v (of_items vs)

abbrev pub texts : List String → Items
texts [] = no_items
texts (s ∷ ss) = item (str s) (texts ss)

abbrev pub length_items : Items → ℕ
length_items no_items = 0
length_items (item v vs) = suc (length_items vs)

abbrev pub is_nil : Items → Bool
is_nil no_items = true
is_nil (item v vs) = false

abbrev pub is_end : Fields → Bool
is_end no_fields = true
is_end (field k v fs) = false

abbrev pub keys : Fields → List String
keys no_fields = []
keys (field k v fs) = k ∷ keys fs

-- `d.get(k)`, with `none` for a key that is not there.
unfoldable pub get : String → Fields → Option Value
get k no_fields = none
get k (field j v fs) = if j == k then some v else get k fs

abbrev pub or_null : Option Value → Value
or_null none = null
or_null (some v) = v

-- `d.get(k)`, with Python's `None` for a key that is not there.
abbrev pub get_value : String → Fields → Value
get_value k fs = or_null (get k fs)

-- `k in d`
abbrev pub has_key : String → Fields → Bool
has_key k fs = is_some (get k fs)

-- `d[k] = v`: a key keeps its place, a new one goes to the end.
unfoldable pub put : String → Value → Fields → Fields
put k v no_fields = field k v no_fields
put k v (field j w fs) = let rest = put k v fs in if j == k then field j v fs else field j w rest

-- `d.pop(k, None)`
unfoldable pub without : String → Fields → Fields
without k no_fields = no_fields
without k (field j v fs) = let rest = without k fs in if j == k then rest else field j v rest

-- `bool(v)`
abbrev pub truthy : Value → Bool
truthy null = false
truthy (bool b) = b
truthy (int n) = not (is_zero n)
truthy (float q) = not (is_zero q)
truthy (str s) = not (blank s)
truthy (arr vs) = not (is_nil vs)
truthy (obj fs) = not (is_end fs)

-- `a or b`
abbrev pub or_else : Value → Value → Value
or_else a b = if truthy a then a else b

abbrev pub is_null : Value → Bool
is_null null = true
is_null _ = false

abbrev pub is_text : Value → Bool
is_text (str s) = true
is_text _ = false

-- `v if isinstance(v, dict) else {}`
abbrev pub as_dict : Value → Fields
as_dict (obj fs) = fs
as_dict _ = no_fields

pub get-put :
    (k j : String) (v : Value) (fs : Fields)
    → get j (put k v fs) ≡ (if k == j then some v else get j fs)
unfolding get put
get-put k j v no_fields = ground arith
get-put k j v (field i w fs) = ground (arith, get-put k j v fs, eq_iff i k, eq_iff i j, eq_iff k j)

pub get-without :
    (k j : String) (fs : Fields) → get j (without k fs) ≡ (if k == j then none else get j fs)
unfolding get without
get-without k j no_fields = ground arith
get-without k j (field i w fs) =
    ground (arith, get-without k j fs, eq_iff i k, eq_iff i j, eq_iff k j)
