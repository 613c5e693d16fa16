-- ===== src/Executor/Compact/Identity.antt =====
-- What `_compact` of app/tool_executor.py leaves as it is.
use underlying_analyzer_rebo.Base.{ℕ, zero, suc, ◌≤◌, String, count, ◌≡◌, refl, ap, ap₂, arith}
use underlying_analyzer_rebo.Value.{
  Value, str, arr, obj, Items, no_items, item, Fields, no_fields, field,
}
use underlying_analyzer_rebo.Value.Access.{length_items}
use underlying_analyzer_rebo.Executor.Compact.{
  max_string_chars, max_array_items, compact_text, omitted, append_items, compact, compact_items,
  compact_fields,
}
use underlying_analyzer_rebo.Executor.Compact.Bounds.{IsWithin, AllWithin, FieldsWithin}

compact_text-short : (s : String) → count s ≤ max_string_chars → compact_text s ≡ s
unfolding compact_text
compact_text-short s h = ground arith

append_items-nil : (vs : Items) → append_items vs no_items ≡ vs
append_items-nil no_items = refl
append_items-nil (item v vs) = ap (λ ws. item v ws) (append_items-nil vs)

omitted-short : (n : ℕ) → n ≤ max_array_items → omitted n ≡ no_items
unfolding omitted
omitted-short n h = ground arith

mutual
  unfolding compact

  compact_same : (v : Value) → IsWithin max_string_chars max_array_items v → compact v ≡ v
  compact_same (str s) h = ap str (compact_text-short s h)
  compact_same (arr vs) h =
      rw (omitted-short (length_items vs) h.0, append_items-nil)
        (ap arr (compact_items-same vs max_array_items h.0 h.1))
  compact_same (obj fs) h = ap obj (compact_fields-same fs h)
  compact_same _ h = refl

  compact_items-same :
      (vs : Items) (m : ℕ)
      → length_items vs ≤ m
      → AllWithin max_string_chars max_array_items vs
      → compact_items vs m ≡ vs
  compact_items-same no_items m l h = refl
  compact_items-same (item v vs) zero l h = absurd (omega arith)
  compact_items-same (item v vs) (suc m) l (p, h) =
      ap₂ item (compact_same v p) (compact_items-same vs m (omega arith) h)

  compact_fields-same :
      (fs : Fields) → FieldsWithin max_string_chars max_array_items fs → compact_fields fs ≡ fs
  compact_fields-same no_fields h = refl
  compact_fields-same (field k v fs) (p, h) =
      ap₂ (λ w ws. field k w ws) (compact_same v p) (compact_fields-same fs h)

-- A value whose texts have at most 2400 characters and whose arrays have at most 40 items, at every
-- depth, is returned as it is.
pub compact_small : (v : Value) → IsWithin max_string_chars max_array_items v → compact v ≡ v
compact_small v h = compact_same v h
