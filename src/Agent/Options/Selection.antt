-- ===== src/Agent/Options/Selection.antt =====
-- The tools that a chat request selects, of `select_tools` in app/agent.py.
use mathlib.Core.Path.{subst}
use underlying_analyzer_rebo.Base.{
  ◌≡◌, refl, String, Bool, true, false, some, List, [], ◌∷◌, arith, Bool-cases, Option-cases, inl,
  inr,
}
use underlying_analyzer_rebo.Base.Text.{text_in}
use underlying_analyzer_rebo.Base.Result.{Result, ok}
use underlying_analyzer_rebo.Value.{Value, null, bool, int, float, str, arr, obj, Items}
use underlying_analyzer_rebo.Value.Access.{is_nil}
use underlying_analyzer_rebo.Value.Show.{Python}
use underlying_analyzer_rebo.Registry.Spec.{ToolSpec}
use underlying_analyzer_rebo.Agent.Select.{
  SelectionError, names_of, exact_names, chosen, given_names, or_available, select_exact,
  select_tools, chosen-names, select_exact-names,
}

-- The exact selection of a request that has one.
abbrev pub IsSelection : Value → List ToolSpec → Type 0
IsSelection asked specs =
    (vs : Items) × (names : List String) × (asked ≡ arr vs)
    × (exact_names vs ≡ some names)
    × ((name : String) → text_in name (names_of specs) ≡ text_in name names)

-- The tools of a selection are among those that are available.
abbrev pub AreAmong : List ToolSpec → List ToolSpec → Type 0
AreAmong specs available =
    (name : String)
    → text_in name (names_of specs) ≡ true
    → text_in name (names_of available) ≡ true

chosen-AreAmong :
    (wanted : List String) (available : List ToolSpec)
    → AreAmong (chosen wanted available) available
chosen-AreAmong wanted available name h = ground (arith, chosen-names name wanted available)

or_available-AreAmong :
    (py : Python) (specs available : List ToolSpec)
    → AreAmong specs available
    → AreAmong (or_available py specs available) available
or_available-AreAmong py [] available among = λ name h. h
or_available-AreAmong py (spec ∷ specs) available among = among

select_exact-ok :
    (available : List ToolSpec) (vs : Items) (specs : List ToolSpec)
    → select_exact available vs ≡ ok specs
    → (names : List String) × (exact_names vs ≡ some names) × (chosen names available ≡ specs)
unfolding select_exact
select_exact-ok available vs specs h = elim (Bool-cases (is_nil vs)) [
  | inl nothing ↦ absurd (ground (arith, nothing, h))
  | inr some_name ↦ elim (Option-cases (exact_names vs)) [
    | inl unread ↦ absurd (ground (arith, some_name, unread, h))
    | inr (names, read) ↦ (names, read, ground (arith, some_name, read, h))
  ]
]

pub select_tools-IsSelection :
    (py : Python) (available : List ToolSpec) (asked : Value) (specs : List ToolSpec)
    → select_tools py available asked true ≡ ok specs
    → IsSelection asked specs × AreAmong specs available
unfolding select_tools
select_tools-IsSelection py available (arr vs) specs h =
    let (names, read, same) = select_exact-ok available vs specs h in
    (
      (vs, names, refl, read, select_exact-names available vs names specs read h),
      subst (λ kept. AreAmong kept available) same (chosen-AreAmong names available),
    )
select_tools-IsSelection py available null specs h = absurd (ground arith)
select_tools-IsSelection py available (bool b) specs h = absurd (ground arith)
select_tools-IsSelection py available (int n) specs h = absurd (ground arith)
select_tools-IsSelection py available (float q) specs h = absurd (ground arith)
select_tools-IsSelection py available (str s) specs h = absurd (ground arith)
select_tools-IsSelection py available (obj fs) specs h = absurd (ground arith)

abbrev all_of : List ToolSpec → Result SelectionError (List ToolSpec)
all_of available = ok available

all-AreAmong :
    (available specs : List ToolSpec) → all_of available ≡ ok specs → AreAmong specs available
all-AreAmong available specs h =
    let same : available ≡ specs = ground arith in
    subst (λ kept. AreAmong kept available) same (λ name there. there)

pub select_tools-AreAmong :
    (py : Python) (available : List ToolSpec) (asked : Value) (exact : Bool) (specs : List ToolSpec)
    → select_tools py available asked exact ≡ ok specs
    → AreAmong specs available
unfolding select_tools
select_tools-AreAmong py available asked true specs h =
    (select_tools-IsSelection py available asked specs h).1
select_tools-AreAmong py available (arr vs) false specs h = elim (Bool-cases (is_nil vs)) [
  | inl nothing ↦ all-AreAmong available specs (rw nothing at h)
  | inr some_name ↦
      let kept = or_available py (chosen (given_names py vs) available) available in
      let same : kept ≡ specs = ground (arith, some_name, h) in
      subst (λ rest. AreAmong rest available) same
        (or_available-AreAmong py (chosen (given_names py vs) available) available
          (chosen-AreAmong (given_names py vs) available))
]
select_tools-AreAmong py available null false specs h = all-AreAmong available specs h
select_tools-AreAmong py available (bool b) false specs h = all-AreAmong available specs h
select_tools-AreAmong py available (int n) false specs h = all-AreAmong available specs h
select_tools-AreAmong py available (float q) false specs h = all-AreAmong available specs h
select_tools-AreAmong py available (str s) false specs h = all-AreAmong available specs h
select_tools-AreAmong py available (obj fs) false specs h = all-AreAmong available specs h
