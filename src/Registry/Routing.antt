-- ===== src/Registry/Routing.antt =====
-- Where `build_request` of app/tool_registry.py sends each argument.
use underlying_analyzer_rebo.Base.{
  String, ◌≡◌, ◌≢◌, refl, ◌∙◌, inl, inr, true, none, some, List, [], ◌∷◌, if◌then◌else◌,
  Option-cases, arith, All, eq_iff,
}
use underlying_analyzer_rebo.Base.Text.{text_in, strip, replace, ◌⧺◌}
use underlying_analyzer_rebo.Base.Result.{ok, Result-cases}
use underlying_analyzer_rebo.Value.{Value, Fields, no_fields}
use underlying_analyzer_rebo.Value.Access.{get, get_value, without, has_key, get-without}
use underlying_analyzer_rebo.Value.Show.{Python, str_of}
use underlying_analyzer_rebo.Registry.Spec.{ToolSpec}
use underlying_analyzer_rebo.Registry.Coerce.{coerce_arguments}
use underlying_analyzer_rebo.Registry.Request.{Request, fill_path, build_request}

-- The arguments that travel outside the path.
abbrev pub sent : Request → Fields
sent r = elim r.body [ none ↦ r.query | some body ↦ body ]

-- The path with each `{key}` replaced by the stripped text of the argument of that name, in order.
abbrev pub path_with : Python → List String → Fields → String → String
path_with py [] given path = path
path_with py (key ∷ keys) given path =
    path_with py keys given
      (replace path ("{" ⧺ key ⧺ "}") (strip (str_of py (get_value key given))))

-- The path takes the path parameters, and the query of a GET or the body of another method the rest.
pub record IsRouted (py : Python) (spec : ToolSpec) (cleaned : Fields) (r : Request) : Type 0 where
  pub path : r.path ≡ path_with py spec.path_params cleaned spec.path
  pub method : r.method ≡ spec.method
  pub in_path : All (λ key. has_key key cleaned ≡ true) spec.path_params
  pub elsewhere :
      (key : String)
      → get key (sent r) ≡ (if text_in key spec.path_params then none else get key cleaned)
  pub get_has_no_body : spec.method ≡ "GET" → r.body ≡ none
  pub other_has_no_query : spec.method ≢ "GET" → r.query ≡ no_fields

All-has_key-without :
    (key : String) (given : Fields) (keys : List String)
    → All (λ k. has_key k (without key given) ≡ true) keys
    → All (λ k. has_key k given ≡ true) keys
All-has_key-without key given [] h = tt
All-has_key-without key given (k ∷ keys) (p, h) =
    (ground (arith, get-without key k given), All-has_key-without key given keys h)

module _ (py : Python) where
  -- An argument that is gone changes nothing where the others are there.
  path_with-without :
      (key : String) (given : Fields) (keys : List String) (path : String)
      → All (λ k. has_key k (without key given) ≡ true) keys
      → path_with py keys (without key given) path ≡ path_with py keys given path
  path_with-without key given [] path h = refl
  path_with-without key given (k ∷ keys) path (p, h) =
      let same : get_value k (without key given) ≡ get_value k given =
        ground (arith, p, get-without key k given) in
      rw same (path_with-without key given keys _ h)

  fill_path-ok :
      (tool : String) (keys : List String) (path : String) (given : Fields) (out : String × Fields)
      → fill_path py tool keys path given ≡ ok out
      → All (λ key. has_key key given ≡ true) keys
        × ((key : String) → get key out.1 ≡ (if text_in key keys then none else get key given))
        × (out.0 ≡ path_with py keys given path)
  unfolding fill_path text_in
  fill_path-ok tool [] path given out h = (tt, (λ key. ground arith), ground arith)
  fill_path-ok tool (k ∷ keys) path given out h = elim (Option-cases (get k given)) [
    | inl lacking ↦ absurd (ground arith)
    | inr (v, found) ↦
        let (present, routed, filled) =
          fill_path-ok tool keys (replace path ("{" ⧺ k ⧺ "}") (strip (str_of py v)))
            (without k given) out (rw (found, fill_path) at h) in
        (
          (ground arith, All-has_key-without k given keys present),
          (λ key. ground (arith, routed key, get-without k key given)),
          filled ∙ rw found (path_with-without k given keys _ present),
        )
  ]

  -- A request that is built has the tool's method. The path parameters are all given, and the path
  -- is the tool's with each `{key}` replaced by the stripped text of its argument; every other cleaned argument is sent unchanged, in the query of a GET and in the body of
  -- any other method.
  pub build_request-IsRouted :
      (spec : ToolSpec) (arguments : Value) (r : Request)
      → build_request py spec arguments ≡ ok r
      → (cleaned : Fields) × (coerce_arguments py spec arguments ≡ ok cleaned)
        × IsRouted py spec cleaned r
  unfolding build_request
  build_request-IsRouted spec arguments r h =
      elim (Result-cases (coerce_arguments py spec arguments)) [
        | inr (fault, failed) ↦ absurd (ground arith)
        | inl (cleaned, clean) ↦
            elim (Result-cases (fill_path py spec.name spec.path_params spec.path cleaned)) [
              | inr (fault, failed) ↦ absurd (ground arith)
              | inl (out, filled) ↦
                  let (present, routed, replaced) =
                    fill_path-ok spec.name spec.path_params spec.path cleaned out filled in
                  (
                    cleaned,
                    clean,
                    record {
                      path = ground (arith, replaced);
                      method = ground arith;
                      in_path = present;
                      elsewhere = λ key. ground (arith, routed key);
                      get_has_no_body = λ g. ground (arith, eq_iff spec.method "GET");
                      other_has_no_query = λ g. ground (arith, eq_iff spec.method "GET");
                    },
                  )
            ]
      ]
