-- ===== src/Executor/Artifacts.antt =====
-- `_extract_artifacts` of app/tool_executor.py: embedded base64 images become references. The list of
-- artifacts that the Python code appends to is passed along.
pub mod NoImage
pub mod Numbers
use underlying_analyzer_rebo.Base.{
  ℕ, ◌+◌, String, count, ◌≡◌, refl, Bool, true, false, ◌&&◌, Option, none, some, List, [], ◌∷◌,
  ◌++◌, ◌==◌, ltb, length, if◌then◌else◌,
}
use underlying_analyzer_rebo.Base.Text.{strip, blank, text_in, show_nat, ◌⧺◌}
use underlying_analyzer_rebo.Value.{
  Value, null, bool, int, str, arr, obj, Items, no_items, item, Fields, no_fields, field,
}
use underlying_analyzer_rebo.Value.Access.{get_value, put, or_else, as_dict}
use underlying_analyzer_rebo.Value.Show.{Python, str_of}

-- `payload` is the field `data`.
pub record ToolArtifact : Type 0 where
  pub id : String
  pub mime : String
  pub payload : String
  pub filename : Option String
  pub title : Option String
  pub caption : Option String

abbrev pub image_keys : List String
image_keys = "data" ∷ "b64_json" ∷ "image_base64" ∷ []

unfoldable pub optional_str : Value → Option String
optional_str (str s) = let text = strip s in if blank text then none else some text
optional_str _ = none

-- `a or b` of optional texts, neither of which is empty.
abbrev pub either_text : Option String → Option String → Option String
either_text none b = b
either_text (some a) b = some a

-- A text that is taken for an image.
abbrev pub is_long : Value → Bool
is_long (str s) = ltb 512 (count s)
is_long _ = false

unfoldable pub image_key : Fields → Option String
image_key fs =
    if is_long (get_value "data" fs)
    then some "data"
    else if is_long (get_value "b64_json" fs)
    then some "b64_json"
    else if is_long (get_value "image_base64" fs)
    then some "image_base64"
    else none

-- The keys that leave a dict with its image.
unfoldable pub is_dropped : String → Bool
is_dropped k = text_in k ("mime" ∷ image_keys)

-- The title that the value of an entry inherits.
abbrev pub own_hint : String → Value → Option String → Option String
own_hint k v hint = if k == "title" then optional_str v else hint

module _ (py : Python) (spec_title : String) where
  unfoldable pub artifact_of : Fields → String → Option String → ℕ → ToolArtifact
  unfolding optional_str
  artifact_of fs key hint found =
      let meta = as_dict (get_value "meta" fs) in
      record {
        id = "img_" ⧺ show_nat (found + 1);
        mime =
            str_of py (
              or_else (or_else (get_value "mime" fs) (get_value "mime_type" fs)) (str "image/png"));
        payload = str_of py (get_value key fs);
        filename = optional_str (get_value "filename" fs);
        title = either_text (optional_str (get_value "title" fs)) (
            either_text (optional_str (get_value "title" meta))
              (either_text hint (some spec_title)));
        caption =
            either_text (optional_str (get_value "caption" fs))
              (optional_str (get_value "caption" meta));
      }

  -- A dict with an image loses its image keys first; as what is left has no image key, its entries
  -- are then those of a plain dict.
  unfoldable mutual
    pub extract : Value → Option String → List ToolArtifact → Value × List ToolArtifact
    extract (arr vs) hint found = let (ws, found') = extract_items vs hint found in (arr ws, found')
    extract (obj fs) hint found = elim (image_key fs) [
      | none ↦ let (gs, found') = extract_fields fs false hint found in (obj gs, found')
      | some key ↦
          let a = artifact_of fs key hint (length found) in
          let (gs, found') = extract_fields fs true a.title (found ++ a ∷ []) in
          (obj (put "image_ref" (str a.id) gs), found')
    ]
    extract v hint found = (v, found)

    pub extract_items : Items → Option String → List ToolArtifact → Items × List ToolArtifact
    extract_items no_items hint found = (no_items, found)
    extract_items (item v vs) hint found =
        let (w, found') = extract v hint found in
        let (ws, found'') = extract_items vs hint found' in (item w ws, found'')

    pub extract_fields :
        Fields → Bool → Option String → List ToolArtifact → Fields × List ToolArtifact
    extract_fields no_fields drop hint found = (no_fields, found)
    extract_fields (field k v fs) drop hint found = elim (drop && is_dropped k) [
      | true ↦ extract_fields fs drop hint found
      | false ↦
          let (w, found') = extract v (own_hint k v hint) found in
          let (gs, found'') = extract_fields fs drop hint found' in (field k w gs, found'')
    ]

  -- One entry of a dict: it is dropped, or its value is extracted.
  pub extract_fields-dropped :
      (k : String) (v : Value) (fs : Fields) (drop : Bool) (hint : Option String)
      (found : List ToolArtifact)
      → (drop && is_dropped k) ≡ true
      → extract_fields (field k v fs) drop hint found ≡ extract_fields fs drop hint found
  unfolding extract
  extract_fields-dropped k v fs drop hint found h = rw (h, extract_fields)

  pub extract_fields-kept :
      (k : String) (v : Value) (fs : Fields) (drop : Bool) (hint : Option String)
      (found : List ToolArtifact)
      → (drop && is_dropped k) ≡ false
      → extract_fields (field k v fs) drop hint found ≡ (
        field k
            (extract v (own_hint k v hint) found).0
            (extract_fields fs drop hint (extract v (own_hint k v hint) found).1).0,
        (extract_fields fs drop hint (extract v (own_hint k v hint) found).1).1,
      )
  unfolding extract
  extract_fields-kept k v fs drop hint found h = rw (h, extract_fields)

  pub extract-plain :
      (fs : Fields) (hint : Option String) (found : List ToolArtifact)
      → image_key fs ≡ none
      → extract (obj fs) hint found
        ≡ (obj (extract_fields fs false hint found).0, (extract_fields fs false hint found).1)
  unfolding extract
  extract-plain fs hint found h = rw (h, extract)

  -- What a dict with an image under `key` becomes.
  pub extract-image :
      (fs : Fields) (key : String) (hint : Option String) (found : List ToolArtifact)
      (a : ToolArtifact)
      → image_key fs ≡ some key
      → artifact_of fs key hint (length found) ≡ a
      → extract (obj fs) hint found ≡ (
        obj (put "image_ref" (str a.id) (extract_fields fs true a.title (found ++ a ∷ [])).0),
        (extract_fields fs true a.title (found ++ a ∷ [])).1,
      )
  unfolding extract
  extract-image fs key hint found a h e = rw (h, extract) (rw e)
