-- ===== src/Executor/Artifacts/NoImage.antt =====
-- No image is left in what `_extract_artifacts` of app/tool_executor.py returns.
use underlying_analyzer_rebo.Base.{
  String, ◌≡◌, refl, ◌∙◌, inl, inr, Bool, true, false, ◌&&◌, Option, none, List, [], ◌∷◌, ◌++◌,
  ◌==◌, length, if◌then◌else◌, Bool-cases, Option-cases, arith, eq_iff,
}
use underlying_analyzer_rebo.Base.Text.{text_in}
use underlying_analyzer_rebo.Value.{
  Value, str, arr, obj, Items, no_items, item, Fields, no_fields, field,
}
use underlying_analyzer_rebo.Value.Access.{get, get_value, put, get-put}
use underlying_analyzer_rebo.Value.Show.{Python}
use underlying_analyzer_rebo.Executor.Artifacts.{
  ToolArtifact, is_long, image_key, is_dropped, artifact_of, extract, extract_items, extract_fields,
  extract_fields-dropped, extract_fields-kept, extract-plain, extract-image, own_hint,
}

-- No dict in the value holds a long text under an image key.
abbrev mutual
  pub HasNoImage : Value → Type 0
  HasNoImage (arr vs) = ItemsHaveNoImage vs
  HasNoImage (obj fs) = (image_key fs ≡ none) × FieldsHaveNoImage fs
  HasNoImage v = Unit

  pub ItemsHaveNoImage : Items → Type 0
  ItemsHaveNoImage no_items = Unit
  ItemsHaveNoImage (item v vs) = HasNoImage v × ItemsHaveNoImage vs

  pub FieldsHaveNoImage : Fields → Type 0
  FieldsHaveNoImage no_fields = Unit
  FieldsHaveNoImage (field k v fs) = HasNoImage v × FieldsHaveNoImage fs

pub image_key-none_of :
    (fs : Fields)
    → is_long (get_value "data" fs) ≡ false
    → is_long (get_value "b64_json" fs) ≡ false
    → is_long (get_value "image_base64" fs) ≡ false
    → image_key fs ≡ none
unfolding image_key
image_key-none_of fs p q r = ground arith

pub image_key-none :
    (fs : Fields)
    → image_key fs ≡ none
    → (is_long (get_value "data" fs) ≡ false)
      × (is_long (get_value "b64_json" fs) ≡ false)
      × (is_long (get_value "image_base64" fs) ≡ false)
unfolding image_key
image_key-none fs h = ground arith

FieldsHaveNoImage-put :
    (k : String) (v : Value) (fs : Fields)
    → HasNoImage v
    → FieldsHaveNoImage fs
    → FieldsHaveNoImage (put k v fs)
unfolding put
FieldsHaveNoImage-put k v no_fields p h = (p, tt)
FieldsHaveNoImage-put k v (field j w fs) p (q, h) = elim (Bool-cases (j == k)) [
  | inl same ↦ rw same (p, h)
  | inr differs ↦ rw differs (q, FieldsHaveNoImage-put k v fs p h)
]

module _ (py : Python) (title : String) where
  is_long-extract :
      (v : Value) (hint : Option String) (found : List ToolArtifact)
      → is_long (extract py title v hint found).0 ≡ is_long v
  unfolding extract
  is_long-extract (obj fs) hint found = ground arith
  is_long-extract _ hint found = refl

  is_long-get-extract_fields :
      (fs : Fields) (drop : Bool) (hint : Option String) (found : List ToolArtifact) (k : String)
      → is_long (get_value k (extract_fields py title fs drop hint found).0)
        ≡ (if drop && is_dropped k then false else is_long (get_value k fs))
  unfolding get
  is_long-get-extract_fields no_fields drop hint found k = unfold extract in ground arith
  is_long-get-extract_fields (field j v fs) drop hint found k =
      elim (Bool-cases (drop && is_dropped j)) [
        | inl dropped ↦
            rw (extract_fields-dropped py title j v fs drop hint found dropped)
              (ground (arith, is_long-get-extract_fields fs drop hint found k, eq_iff j k))
        | inr kept ↦
            let own = own_hint j v hint in
            rw (extract_fields-kept py title j v fs drop hint found kept) (
              ground (
                arith,
                is_long-get-extract_fields fs drop hint (extract py title v own found).1 k,
                is_long-extract v own found,
                eq_iff j k,
              ))
      ]

  image_key-extract_fields :
      (fs : Fields) (hint : Option String) (found : List ToolArtifact)
      → image_key fs ≡ none
      → image_key (extract_fields py title fs false hint found).0 ≡ none
  image_key-extract_fields fs hint found h =
      let (p, q, r) = image_key-none fs h in
      let out = (extract_fields py title fs false hint found).0 in
      image_key-none_of out (is_long-get-extract_fields fs false hint found "data" ∙ p)
        (is_long-get-extract_fields fs false hint found "b64_json" ∙ q)
        (is_long-get-extract_fields fs false hint found "image_base64" ∙ r)

  is_long-get-put_ref :
      (k ref : String) (fs : Fields)
      → ("image_ref" == k) ≡ false
      → is_long (get_value k fs) ≡ false
      → is_long (get_value k (put "image_ref" (str ref) fs)) ≡ false
  is_long-get-put_ref k ref fs differs h = ground (arith, get-put "image_ref" k (str ref) fs)

  -- The dict that stands for an image has no image key.
  image_key-ref :
      (fs : Fields) (hint : Option String) (found : List ToolArtifact) (ref : String)
      → image_key (put "image_ref" (str ref) (extract_fields py title fs true hint found).0) ≡ none
  unfolding is_dropped text_in
  image_key-ref fs hint found ref =
      let out = (extract_fields py title fs true hint found).0 in
      image_key-none_of (put "image_ref" (str ref) out)
        (is_long-get-put_ref "data" ref out refl
          (is_long-get-extract_fields fs true hint found "data"))
        (is_long-get-put_ref "b64_json" ref out refl
          (is_long-get-extract_fields fs true hint found "b64_json"))
        (is_long-get-put_ref "image_base64" ref out refl
          (is_long-get-extract_fields fs true hint found "image_base64"))

  mutual
    unfolding extract

    extract_clean :
        (v : Value) (hint : Option String) (found : List ToolArtifact)
        → HasNoImage (extract py title v hint found).0
    extract_clean (arr vs) hint found = extract_items-clean vs hint found
    extract_clean (obj fs) hint found = elim (Option-cases (image_key fs)) [
      | inl plain ↦
          rw (extract-plain py title fs hint found plain)
            (image_key-extract_fields fs hint found plain, extract_fields-clean fs false hint found)
      | inr (key, image) ↦
          let a = artifact_of py title fs key hint (length found) in
          rw (extract-image py title fs key hint found a image refl) (
            image_key-ref fs a.title (found ++ a ∷ []) a.id,
            FieldsHaveNoImage-put "image_ref" (str a.id)
                (extract_fields py title fs true a.title (found ++ a ∷ [])).0 tt
                (extract_fields-clean fs true a.title (found ++ a ∷ [])),
          )
    ]
    extract_clean _ hint found = tt

    extract_items-clean :
        (vs : Items) (hint : Option String) (found : List ToolArtifact)
        → ItemsHaveNoImage (extract_items py title vs hint found).0
    extract_items-clean no_items hint found = tt
    extract_items-clean (item v vs) hint found =
        (extract_clean v hint found, extract_items-clean vs hint (extract py title v hint found).1)

    extract_fields-clean :
        (fs : Fields) (drop : Bool) (hint : Option String) (found : List ToolArtifact)
        → FieldsHaveNoImage (extract_fields py title fs drop hint found).0
    extract_fields-clean no_fields drop hint found = tt
    extract_fields-clean (field k v fs) drop hint found = elim (Bool-cases (drop && is_dropped k)) [
      | inl dropped ↦
          rw (extract_fields-dropped py title k v fs drop hint found dropped)
            (extract_fields-clean fs drop hint found)
      | inr kept ↦ rw (extract_fields-kept py title k v fs drop hint found kept) (
        extract_clean v (own_hint k v hint) found,
        extract_fields-clean fs drop hint (extract py title v (own_hint k v hint) found).1,
      )
    ]

  -- In the value that is returned no dict holds, under an image key, a text of more than 512
  -- characters.
  pub extract-HasNoImage :
      (v : Value) (hint : Option String) (found : List ToolArtifact)
      → HasNoImage (extract py title v hint found).0
  extract-HasNoImage v hint found = extract_clean v hint found
