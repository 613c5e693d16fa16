-- ===== src/Agent/Narrow/Supported.antt =====
-- What a shorter list of tools stands on, of `preclassify_tool_groups` in app/agent.py.
use mathlib.Core.Path.{subst}
use underlying_analyzer_rebo.Base.{
  ◌≡◌, refl, sym, ◌∙◌, ap, ◌⊎◌, inl, inr, String, Bool, true, false, Option, none, some, List, ◌∷◌,
  arith, Bool-cases, eq_iff,
}
use underlying_analyzer_rebo.Base.Text.{text_in}
use underlying_analyzer_rebo.Base.Int.{ℤ}
use underlying_analyzer_rebo.Base.Result.{Result, ok, err}
use underlying_analyzer_rebo.Value.{Value, Fields, no_fields, field}
use underlying_analyzer_rebo.Value.Access.{has_key}
use underlying_analyzer_rebo.Value.Show.{Python}
use underlying_analyzer_rebo.Alerts.Rules.{float_or_bool}
use underlying_analyzer_rebo.Jev.Answers.{JevError, overflow}
use underlying_analyzer_rebo.Agent.Narrow.{is_likely, take_group, add_group, secondary_groups}

-- The dict has the value under the key.
abbrev pub IsEntry : String → Value → Fields → Type 0
IsEntry group v no_fields = ⊥
IsEntry group v (field key w fs) = ((key ≡ group) × (w ≡ v)) ⊎ IsEntry group v fs

-- No group of the criteria that Jev finds likely enough is left out.
abbrev pub AreLikelyIn : Python → Fields → Fields → List String → Type 0
AreLikelyIn py criteria probabilities groups =
    (group : String) (v : Value) (probability : ℤ)
    → IsEntry group v probabilities
    → has_key group criteria ≡ true
    → float_or_bool py v ≡ some (some probability)
    → is_likely probability ≡ true
    → text_in group groups ≡ true

-- `float` raises `OverflowError` for a probability of a group of the criteria.
abbrev pub HasOverflow : Python → Fields → Fields → Type 0
HasOverflow py criteria probabilities =
    (group : String) × (v : Value) × IsEntry group v probabilities
    × (has_key group criteria ≡ true)
    × (float_or_bool py v ≡ none)

abbrev pub IsSecondary : Python → Fields → Fields → Result JevError (List String) → Type 0
IsSecondary py criteria probabilities (ok groups) = AreLikelyIn py criteria probabilities groups
IsSecondary py criteria probabilities (err fault) =
    (fault ≡ overflow) × HasOverflow py criteria probabilities

pub text_in_head : (s t : String) (ts : List String) → s ≡ t → text_in t (s ∷ ts) ≡ true
unfolding text_in
text_in_head s t ts same = ground (arith, eq_iff s t)

pub text_in_tail :
    (s t : String) (ts : List String) → text_in t ts ≡ true → text_in t (s ∷ ts) ≡ true
unfolding text_in
text_in_tail s t ts there = ground (arith, there)

-- One more entry, with what `float` gives for it.
module _ (py : Python) (criteria : Fields) (key : String) (w : Value) (fs : Fields) where
  HasOverflow-field : HasOverflow py criteria fs → HasOverflow py criteria (field key w fs)
  HasOverflow-field (group, v, here, known, raises) = (group, v, inr here, known, raises)

  -- The groups hold the key where it is likely, and what is likely among the later entries.
  AreLikelyIn-field :
      (groups : List String)
      → ((probability : ℤ)
          → has_key key criteria ≡ true
          → float_or_bool py w ≡ some (some probability)
          → is_likely probability ≡ true
          → text_in key groups ≡ true)
      → AreLikelyIn py criteria fs groups
      → AreLikelyIn py criteria (field key w fs) groups
  AreLikelyIn-field groups first later group v q (inl (same, value)) known read likely =
      subst (λ g. text_in g groups ≡ true) same
        (first q (subst (λ g. has_key g criteria ≡ true) (sym same) known)
          (ap (float_or_bool py) value ∙ read) likely)
  AreLikelyIn-field groups first later group v q (inr here) known read likely =
      later group v q here known read likely

  take_group-IsSecondary :
      (p : ℤ) (taken : Bool) (rest : Result JevError (List String))
      → float_or_bool py w ≡ some (some p)
      → is_likely p ≡ taken
      → IsSecondary py criteria fs rest
      → IsSecondary py criteria (field key w fs) (take_group taken key rest)
  take_group-IsSecondary p true (err fault) read taken (same, raised) =
      (same, HasOverflow-field raised)
  take_group-IsSecondary p false (err fault) read taken (same, raised) =
      (same, HasOverflow-field raised)
  take_group-IsSecondary p true (ok groups) read taken later =
      AreLikelyIn-field (key ∷ groups) (λ q known number likely. text_in_head key key groups refl)
        λ group v q here known number likely.
          text_in_tail key group groups (later group v q here known number likely)
  take_group-IsSecondary p false (ok groups) read taken later =
      AreLikelyIn-field groups
        (λ q known number likely. absurd (
          let same : p ≡ q = ground (arith, read, number) in
          ground (arith, taken, rw (← same) at likely)))
        later

  add_group-IsSecondary :
      (read : Option (Option ℤ)) (rest : Result JevError (List String))
      → float_or_bool py w ≡ read
      → has_key key criteria ≡ true
      → IsSecondary py criteria fs rest
      → IsSecondary py criteria (field key w fs) (add_group key read rest)
  add_group-IsSecondary none rest raises known later =
      (refl, (key, w, inl (refl, refl), known, raises))
  add_group-IsSecondary (some none) (err fault) read known (same, raised) =
      (same, HasOverflow-field raised)
  add_group-IsSecondary (some none) (ok groups) read known later =
      AreLikelyIn-field groups (λ q known number likely. absurd (ground (arith, read, number)))
        later
  add_group-IsSecondary (some (some p)) rest read known later =
      take_group-IsSecondary p (is_likely p) rest read refl later

  -- An entry for a group that the question does not have changes nothing.
  unknown-IsSecondary :
      (rest : Result JevError (List String))
      → has_key key criteria ≡ false
      → IsSecondary py criteria fs rest
      → IsSecondary py criteria (field key w fs) rest
  unknown-IsSecondary (err fault) unknown (same, raised) = (same, HasOverflow-field raised)
  unknown-IsSecondary (ok groups) unknown later =
      AreLikelyIn-field groups (λ q known number likely. absurd (ground (arith, unknown, known)))
        later

pub secondary_groups-IsSecondary :
    (py : Python) (criteria probabilities : Fields)
    → IsSecondary py criteria probabilities (secondary_groups py criteria probabilities)
unfolding secondary_groups
secondary_groups-IsSecondary py criteria no_fields = λ group v probability here. absurd here
secondary_groups-IsSecondary py criteria (field key w fs) =
    let rest = secondary_groups py criteria fs in
    let later = secondary_groups-IsSecondary py criteria fs in
    elim (Bool-cases (has_key key criteria)) [
      | inl known ↦
          rw known
            (add_group-IsSecondary py criteria key w fs (float_or_bool py w) rest refl known later)
      | inr unknown ↦ rw unknown (unknown-IsSecondary py criteria key w fs rest unknown later)
    ]
