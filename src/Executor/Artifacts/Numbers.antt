-- ===== src/Executor/Artifacts/Numbers.antt =====
-- The artifacts that `_extract_artifacts` of app/tool_executor.py collects.
use underlying_analyzer_rebo.Base.{
  ℕ, suc, ◌+◌, ◌<◌, String, count, ◌≡◌, refl, ap, ◌∙◌, inl, inr, Bool, true, false, ◌&&◌, Option,
  some, List, [], ◌∷◌, ◌++◌, length, Bool-cases, Option-cases, arith,
}
use underlying_analyzer_rebo.Base.Text.{show_nat, ◌⧺◌}
use underlying_analyzer_rebo.Value.{
  Value, arr, obj, Items, no_items, item, Fields, no_fields, field,
}
use underlying_analyzer_rebo.Value.Show.{Python, str_of}
use underlying_analyzer_rebo.Executor.Artifacts.{
  ToolArtifact, image_key, is_dropped, artifact_of, extract, extract_items, extract_fields,
  extract_fields-dropped, extract_fields-kept, extract-plain, extract-image, own_hint,
}

-- The artifacts, after `n` others, have the names img_(n + 1), img_(n + 2), and so on, and each
-- holds a text of more than 512 characters.
abbrev pub AreNumbered : ℕ → List ToolArtifact → Type 0
AreNumbered n [] = Unit
AreNumbered n (a ∷ rest) =
    (a.id ≡ "img_" ⧺ show_nat (n + 1)) × (512 < count a.payload) × AreNumbered (suc n) rest

AreNumbered-concat :
    (n : ℕ) (found : List ToolArtifact) (a : ToolArtifact)
    → AreNumbered n found
    → a.id ≡ "img_" ⧺ show_nat (n + length found + 1)
    → 512 < count a.payload
    → AreNumbered n (found ++ a ∷ [])
AreNumbered-concat n [] a h named long =
    (named ∙ ap (λ m. "img_" ⧺ show_nat m) (omega arith), long, tt)
AreNumbered-concat n (b ∷ found) a (p, q, h) named long = (
  p,
  q,
  AreNumbered-concat (suc n) found a h (named ∙ ap (λ m. "img_" ⧺ show_nat m) (omega arith)) long,
)

module _ (py : Python) (title : String) where
  artifact_of-payload :
      (fs : Fields) (key : String) (hint : Option String) (n : ℕ)
      → image_key fs ≡ some key
      → 512 < count (artifact_of py title fs key hint n).payload
  unfolding artifact_of image_key str_of
  artifact_of-payload fs key hint n h = ground arith

  artifact_of-id :
      (fs : Fields) (key : String) (hint : Option String) (n : ℕ)
      → (artifact_of py title fs key hint n).id ≡ "img_" ⧺ show_nat (0 + n + 1)
  unfolding artifact_of
  artifact_of-id fs key hint n = ap (λ m. "img_" ⧺ show_nat m) (omega arith)

  mutual
    unfolding extract

    extract_numbered :
        (v : Value) (hint : Option String) (found : List ToolArtifact)
        → AreNumbered 0 found
        → AreNumbered 0 (extract py title v hint found).1
    extract_numbered (arr vs) hint found h = extract_items-numbered vs hint found h
    extract_numbered (obj fs) hint found h = elim (Option-cases (image_key fs)) [
      | inl plain ↦
          rw (extract-plain py title fs hint found plain)
            (extract_fields-numbered fs false hint found h)
      | inr (key, image) ↦
          let a = artifact_of py title fs key hint (length found) in
          rw (extract-image py title fs key hint found a image refl) (
            extract_fields-numbered fs true a.title (found ++ a ∷ []) (
              AreNumbered-concat 0 found a h (artifact_of-id fs key hint (length found))
                (artifact_of-payload fs key hint (length found) image)))
    ]
    extract_numbered _ hint found h = h

    extract_items-numbered :
        (vs : Items) (hint : Option String) (found : List ToolArtifact)
        → AreNumbered 0 found
        → AreNumbered 0 (extract_items py title vs hint found).1
    extract_items-numbered no_items hint found h = h
    extract_items-numbered (item v vs) hint found h =
        extract_items-numbered vs hint (extract py title v hint found).1
          (extract_numbered v hint found h)

    extract_fields-numbered :
        (fs : Fields) (drop : Bool) (hint : Option String) (found : List ToolArtifact)
        → AreNumbered 0 found
        → AreNumbered 0 (extract_fields py title fs drop hint found).1
    extract_fields-numbered no_fields drop hint found h = h
    extract_fields-numbered (field k v fs) drop hint found h =
        elim (Bool-cases (drop && is_dropped k)) [
          | inl dropped ↦
              rw (extract_fields-dropped py title k v fs drop hint found dropped)
                (extract_fields-numbered fs drop hint found h)
          | inr kept ↦ rw (extract_fields-kept py title k v fs drop hint found kept) (
              extract_fields-numbered fs drop hint (extract py title v (own_hint k v hint) found).1
                (extract_numbered v (own_hint k v hint) found h))
        ]

  -- The artifacts of a value are named img_1, img_2 and so on in the order in which they are found,
  -- and each holds a text of more than 512 characters.
  pub extract-AreNumbered :
      (v : Value) (hint : Option String) → AreNumbered 0 (extract py title v hint []).1
  extract-AreNumbered v hint = extract_numbered v hint [] tt
