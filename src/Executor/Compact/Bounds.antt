-- ===== src/Executor/Compact/Bounds.antt =====
-- How large a value is after `_compact` of app/tool_executor.py.
use text.Mathlib.TextLemmas.{length-append}
use underlying_analyzer_rebo.Base.{
  ℕ, zero, suc, ◌+◌, ◌-◌, ◌^◌, ◌≤◌, ◌<◌, String, count, ◌≡◌, inl, inr, Bool-cases, arith, ltb,
}
use underlying_analyzer_rebo.Base.Text.{take_text, show_nat, count-take_text, count-show_nat, ◌⧺◌}
use underlying_analyzer_rebo.Value.{
  Value, str, arr, obj, Items, no_items, item, Fields, no_fields, field,
}
use underlying_analyzer_rebo.Value.Access.{length_items}
use underlying_analyzer_rebo.Executor.Compact.{
  max_string_chars, max_array_items, compact_text, omitted, append_items, compact, compact_items,
  compact_fields,
}

-- Every text of the value, its keys aside, has at most `n` characters, and every array at most `m`
-- items.
abbrev mutual
  pub IsWithin : ℕ → ℕ → Value → Type 0
  IsWithin n m (str s) = count s ≤ n
  IsWithin n m (arr vs) = (length_items vs ≤ m) × AllWithin n m vs
  IsWithin n m (obj fs) = FieldsWithin n m fs
  IsWithin n m v = Unit

  pub AllWithin : ℕ → ℕ → Items → Type 0
  AllWithin n m no_items = Unit
  AllWithin n m (item v vs) = IsWithin n m v × AllWithin n m vs

  pub FieldsWithin : ℕ → ℕ → Fields → Type 0
  FieldsWithin n m no_fields = Unit
  FieldsWithin n m (field k v fs) = IsWithin n m v × FieldsWithin n m fs

-- A text of fewer than 10 ^ (k + 1) characters is cut to 2419 + k at most.
count-compact_text-le :
    (k : ℕ) (s : String) → count s < 10 ^ suc k → count (compact_text s) ≤ 2419 + k
unfolding compact_text
count-compact_text-le k s h =
    let n = show_nat (count s) in
    ground (
      arith,
      count-show_nat k (count s) h,
      count-take_text max_string_chars s,
      length-append (take_text max_string_chars s) ("... [" ⧺ (n ⧺ " chars total]")),
      length-append "... [" (n ⧺ " chars total]"),
      length-append n " chars total]",
    )

length_items-compact_items-le : (vs : Items) (n : ℕ) → length_items (compact_items vs n) ≤ n
unfolding compact
length_items-compact_items-le no_items n = omega arith
length_items-compact_items-le (item v vs) zero = omega arith
length_items-compact_items-le (item v vs) (suc n) =
    omega (arith, length_items-compact_items-le vs n)

length_items-append :
    (vs ws : Items) → length_items (append_items vs ws) ≡ length_items vs + length_items ws
length_items-append no_items ws = omega arith
length_items-append (item v vs) ws = omega (arith, length_items-append vs ws)

length_items-omitted-le : (n : ℕ) → length_items (omitted n) ≤ 1
unfolding omitted
length_items-omitted-le n = ground arith

AllWithin-append :
    (n m : ℕ) (vs ws : Items)
    → AllWithin n m vs
    → AllWithin n m ws
    → AllWithin n m (append_items vs ws)
AllWithin-append n m no_items ws h k = k
AllWithin-append n m (item v vs) ws (p, h) k = (p, AllWithin-append n m vs ws h k)

omitted-AllWithin :
    (k n : ℕ) → n < 10 ^ suc k → AllWithin (2419 + k) (suc max_array_items) (omitted n)
unfolding omitted
omitted-AllWithin k n h =
    let d = show_nat (n - max_array_items) in
    elim (Bool-cases (ltb max_array_items n)) [
      | inl long ↦ rw long (
        omega (
          arith,
          count-show_nat k (n - max_array_items) (omega arith),
          length-append "... " (d ⧺ " more items omitted"),
          length-append d " more items omitted",
        ),
        tt,
      )
      | inr short ↦ rw short tt
    ]

module _ (k n : ℕ) (small : n < 10 ^ suc k) where
  mutual
    unfolding compact

    compact_cut :
        (v : Value) → IsWithin n n v → IsWithin (2419 + k) (suc max_array_items) (compact v)
    compact_cut (str s) h = count-compact_text-le k s (omega arith)
    compact_cut (arr vs) h = (
      omega (
        arith,
        length_items-append (compact_items vs max_array_items) (omitted (length_items vs)),
        length_items-compact_items-le vs max_array_items,
        length_items-omitted-le (length_items vs),
      ),
      AllWithin-append (2419 + k) (suc max_array_items) (compact_items vs max_array_items)
          (omitted (length_items vs)) (compact_items-cut vs max_array_items h.1)
          (omitted-AllWithin k (length_items vs) (omega arith)),
    )
    compact_cut (obj fs) h = compact_fields-cut fs h
    compact_cut _ h = tt

    compact_items-cut :
        (vs : Items) (m : ℕ)
        → AllWithin n n vs
        → AllWithin (2419 + k) (suc max_array_items) (compact_items vs m)
    compact_items-cut no_items m h = tt
    compact_items-cut (item v vs) zero h = tt
    compact_items-cut (item v vs) (suc m) (p, h) = (compact_cut v p, compact_items-cut vs m h)

    compact_fields-cut :
        (fs : Fields)
        → FieldsWithin n n fs
        → FieldsWithin (2419 + k) (suc max_array_items) (compact_fields fs)
    compact_fields-cut no_fields h = tt
    compact_fields-cut (field key v fs) (p, h) = (compact_cut v p, compact_fields-cut fs h)

-- From a value whose texts and arrays are all shorter than 10 ^ (k + 1), the compacted value has
-- texts of at most 2419 + k characters and arrays of at most 41 items, at every depth.
pub compact-IsWithin :
    (k n : ℕ) (v : Value)
    → n < 10 ^ suc k
    → IsWithin n n v
    → IsWithin (2419 + k) (suc max_array_items) (compact v)
compact-IsWithin k n v small h = compact_cut k n small v h
