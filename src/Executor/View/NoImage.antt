-- ===== src/Executor/View/NoImage.antt =====
-- Neither view of app/tool_executor.py brings an image back.
use text.Mathlib.TextLemmas.{length-append}
use underlying_analyzer_rebo.Base.{
  ℕ, zero, suc, String, count, ◌≡◌, refl, ◌∙◌, inl, inr, false, none, ◌==◌, ltb, Bool-cases, arith,
}
use underlying_analyzer_rebo.Base.Text.{take_text, show_nat, count-take_text, ◌⧺◌}
use underlying_analyzer_rebo.Value.{
  Value, str, arr, obj, Items, no_items, item, Fields, no_fields, field,
}
use underlying_analyzer_rebo.Value.Access.{get, get_value, or_else, as_dict, truthy, length_items}
use underlying_analyzer_rebo.Executor.Compact.{
  max_string_chars, max_array_items, compact_text, omitted, append_items, compact, compact_items,
  compact_fields,
}
use underlying_analyzer_rebo.Executor.Artifacts.{is_long, image_key}
use underlying_analyzer_rebo.Executor.Artifacts.NoImage.{
  HasNoImage, ItemsHaveNoImage, FieldsHaveNoImage, image_key-none, image_key-none_of,
}
use underlying_analyzer_rebo.Executor.View.{
  ResultView, agent, full, projection, result_for_view, ticker_research_tool, meta_fields,
}

is_long-compact_text : (s : String) → ltb 512 (count (compact_text s)) ≡ ltb 512 (count s)
unfolding compact_text
is_long-compact_text s =
    let note = "... [" ⧺ (show_nat (count s) ⧺ " chars total]") in
    ground
      (arith, count-take_text max_string_chars s, length-append (take_text max_string_chars s) note)

is_long-compact : (v : Value) → is_long (compact v) ≡ is_long v
unfolding compact
is_long-compact (str s) = is_long-compact_text s
is_long-compact _ = refl

get_value-compact_fields :
    (k : String) (fs : Fields) → get_value k (compact_fields fs) ≡ compact (get_value k fs)
unfolding compact get
get_value-compact_fields k no_fields = refl
get_value-compact_fields k (field j v fs) = elim (Bool-cases (j == k)) [
  | inl same ↦ rw same
  | inr differs ↦ rw differs (get_value-compact_fields k fs)
]

image_key-compact_fields :
    (fs : Fields) → image_key fs ≡ none → image_key (compact_fields fs) ≡ none
image_key-compact_fields fs h =
    let (p, q, r) = image_key-none fs h in
    image_key-none_of (compact_fields fs) (short "data" p) (short "b64_json" q)
      (short "image_base64" r)
  where
    short :
        (k : String)
        → is_long (get_value k fs) ≡ false
        → is_long (get_value k (compact_fields fs)) ≡ false
    short k p = rw get_value-compact_fields (is_long-compact (get_value k fs) ∙ p)

ItemsHaveNoImage-append :
    (vs ws : Items)
    → ItemsHaveNoImage vs
    → ItemsHaveNoImage ws
    → ItemsHaveNoImage (append_items vs ws)
ItemsHaveNoImage-append no_items ws h k = k
ItemsHaveNoImage-append (item v vs) ws (p, h) k = (p, ItemsHaveNoImage-append vs ws h k)

omitted-ItemsHaveNoImage : (n : ℕ) → ItemsHaveNoImage (omitted n)
unfolding omitted
omitted-ItemsHaveNoImage n = elim (Bool-cases (ltb max_array_items n)) [
  | inl long ↦ rw long (tt, tt)
  | inr short ↦ rw short tt
]

mutual
  unfolding compact

  compact_clean : (v : Value) → HasNoImage v → HasNoImage (compact v)
  compact_clean (arr vs) h =
      ItemsHaveNoImage-append (compact_items vs max_array_items) (omitted (length_items vs))
        (compact_items-clean vs max_array_items h) (omitted-ItemsHaveNoImage (length_items vs))
  compact_clean (obj fs) h = (image_key-compact_fields fs h.0, compact_fields-clean fs h.1)
  compact_clean _ h = tt

  compact_items-clean :
      (vs : Items) (n : ℕ) → ItemsHaveNoImage vs → ItemsHaveNoImage (compact_items vs n)
  compact_items-clean no_items n h = tt
  compact_items-clean (item v vs) zero h = tt
  compact_items-clean (item v vs) (suc n) (p, h) = (compact_clean v p, compact_items-clean vs n h)

  compact_fields-clean :
      (fs : Fields) → FieldsHaveNoImage fs → FieldsHaveNoImage (compact_fields fs)
  compact_fields-clean no_fields h = tt
  compact_fields-clean (field k v fs) (p, h) = (compact_clean v p, compact_fields-clean fs h)

get_value-HasNoImage :
    (k : String) (fs : Fields) → FieldsHaveNoImage fs → HasNoImage (get_value k fs)
unfolding get
get_value-HasNoImage k no_fields h = tt
get_value-HasNoImage k (field j v fs) (p, h) = elim (Bool-cases (j == k)) [
  | inl same ↦ rw same p
  | inr differs ↦ rw differs (get_value-HasNoImage k fs h)
]

as_dict-FieldsHaveNoImage : (v : Value) → HasNoImage v → FieldsHaveNoImage (as_dict v)
as_dict-FieldsHaveNoImage (obj fs) h = h.1
as_dict-FieldsHaveNoImage _ h = tt

or_else-HasNoImage : (v w : Value) → HasNoImage v → HasNoImage w → HasNoImage (or_else v w)
or_else-HasNoImage v w p q = elim (Bool-cases (truthy v)) [
  | inl given ↦ rw given p
  | inr empty ↦ rw empty q
]

projection-HasNoImage : (v : Value) → HasNoImage v → HasNoImage (projection v)
unfolding projection image_key get
projection-HasNoImage (obj packet) h =
    let meta = as_dict (get_value "meta" packet) in
    let of_packet = λ (k : String). get_value-HasNoImage k packet h.1 in
    let of_meta = λ (k : String).
      get_value-HasNoImage k meta
        (as_dict-FieldsHaveNoImage (get_value "meta" packet) (of_packet "meta")) in
    let shown_meta = compact_clean (obj (meta_fields meta)) (
      refl,
      (
        of_meta "schema_version",
        (
          of_meta "requested_periods",
          (
            of_meta "interval",
            (
              of_meta "chart_sources",
              (
                of_meta "source_status",
                (of_meta "error_count", (of_meta "errors", (of_meta "rate_limit", tt))),
              ),
            ),
          ),
        ),
      ),
    ) in
    let context = compact_clean (or_else (get_value "agent_context" packet) (obj no_fields)) (
      or_else-HasNoImage (get_value "agent_context" packet) (obj no_fields)
        (of_packet "agent_context") (refl, tt)) in
    (
      refl,
      (
        of_packet "ticker",
        (
          context,
          (of_packet "provider", (of_packet "provider_note", (shown_meta, ((refl, (tt, tt)), tt)))),
        ),
      ),
    )
projection-HasNoImage v h = (refl, (compact_clean v h, tt))

-- Where a value has no image, its view for an agent and its full view have none either.
pub result_for_view-HasNoImage :
    (name : String) (v : Value) (view : ResultView)
    → HasNoImage v
    → HasNoImage (result_for_view name v view)
unfolding result_for_view
result_for_view-HasNoImage name v full h = h
result_for_view-HasNoImage name v agent h = elim (Bool-cases (name == ticker_research_tool)) [
  | inl research ↦ rw research (projection-HasNoImage v h)
  | inr other ↦ rw other (compact_clean v h)
]
