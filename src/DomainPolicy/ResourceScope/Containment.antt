-- ===== src/DomainPolicy/ResourceScope/Containment.antt =====
-- When resources are inside a TaskScope (rust/crates/domain-policy/src/resource_scope.rs).
use shittim.Base.{
  Bool, true, false, not, ◌&&◌, Option, List, [], subst, ◌∷◌, ◌≡◌, ◌⊎◌, ◌↔◌, inl, inr, refl, sym,
  ◌∙◌, arith, Bool-cases, is_empty, any, All, Some, ok, and_then-eq-ok, Text,
}
use shittim.DomainPolicy.Uri.{Url, NormalizedUri, uri_pattern_matches}
use shittim.DomainPolicy.ResourceScope.{
  resource_pattern, exclusion, validate_stored_from, validate_refs_from, all_inside,
  resource_refs_within_task_scope,
}
use shittim.DomainPolicy.ResourceScope.Parsing.{
  IsStoredPattern, Covers, IsInside, IsLegalRef, Parsed, ParsedRefs, validate_stored_from_sound,
  validate_stored_from_complete, validate_refs_from_sound, validate_refs_from_complete, any-Covers,
  Parsed-empty, Parsed-IsStoredPattern, ParsedRefs-IsLegalRef,
}

module _ (url_parse : Text → Option Url) where
  module _ (patterns exclusions : List Text) (includes excluded : List NormalizedUri) where
    -- No exclusion covers the resource, and some include, unless there is none.
    abbrev InBoundary : NormalizedUri → Type 0
    InBoundary uri =
        (Some (Covers url_parse uri) exclusions → ⊥)
        × ((patterns ≡ []) ⊎ Some (Covers url_parse uri) patterns)

    -- The two tests of one round.
    abbrev is_excluded : NormalizedUri → Bool
    is_excluded uri = any (λ pattern. uri_pattern_matches pattern uri) excluded

    abbrev is_not_included : NormalizedUri → Bool
    is_not_included uri =
        not (is_empty includes) && not (any (λ pattern. uri_pattern_matches pattern uri) includes)

    module _ (parsed_includes : Parsed url_parse patterns includes)
        (parsed_excluded : Parsed url_parse exclusions excluded) where
      tests-InBoundary :
          (uri : NormalizedUri)
          → is_excluded uri ≡ false
          → is_not_included uri ≡ false
          → InBoundary uri
      tests-InBoundary uri h k = (
        λ s. cc ((any-Covers url_parse uri exclusions excluded parsed_excluded).1 s),
        elim (Bool-cases (is_empty includes)) [
          | inl unlimited ↦
              inl ((Parsed-empty url_parse patterns includes parsed_includes).0 unlimited)
          | inr limited ↦
              inr ((any-Covers url_parse uri patterns includes parsed_includes).0 (ground arith))
        ],
      )

      InBoundary-tests :
          (uri : NormalizedUri)
          → InBoundary uri
          → (is_excluded uri ≡ false) × (is_not_included uri ≡ false)
      InBoundary-tests uri p = (
        elim (Bool-cases (is_excluded uri)) [
          | inl excluding ↦
              absurd
                (p.0 ((any-Covers url_parse uri exclusions excluded parsed_excluded).0 excluding))
          | inr free ↦ free
        ],
        elim (p.1) [
          | inl unlimited ↦
              rw ((Parsed-empty url_parse patterns includes parsed_includes).1 unlimited)
          | inr covered ↦
              ground (arith, (any-Covers url_parse uri patterns includes parsed_includes).1 covered)
        ],
      )

      all_inside_sound :
          (resources : List Text) (uris : List NormalizedUri)
          → ParsedRefs url_parse resources uris
          → all_inside includes excluded uris ≡ true
          → All (IsInside url_parse patterns exclusions) resources
      unfolding all_inside
      all_inside_sound [] [] p h = tt
      all_inside_sound [] (uri ∷ uris) p h = elim p [ ]
      all_inside_sound (resource ∷ resources) [] p h = elim p [ ]
      all_inside_sound (resource ∷ resources) (uri ∷ uris) p h =
          let b = tests-InBoundary uri (ground arith) (ground arith) in
          ((uri, p.0, b.0, b.1), all_inside_sound resources uris p.1 (ground arith))

      all_inside_complete :
          (resources : List Text) (uris : List NormalizedUri)
          → ParsedRefs url_parse resources uris
          → All (IsInside url_parse patterns exclusions) resources
          → all_inside includes excluded uris ≡ true
      unfolding all_inside
      all_inside_complete [] [] p a = refl
      all_inside_complete [] (uri ∷ uris) p a = elim p [ ]
      all_inside_complete (resource ∷ resources) [] p a = elim p [ ]
      all_inside_complete (resource ∷ resources) (uri ∷ uris) p a =
          let (uri', parsed, free, covered) = a.0 in
          let same : uri' ≡ uri = cc (p.0) in
          let b : InBoundary uri = subst InBoundary same (free, covered) in
          let (not_excluded, included) = InBoundary-tests uri b in
          rw (not_excluded, included) (all_inside_complete resources uris p.1 a.1)

  within_sound :
      (patterns exclusions resources : List Text) (result : Bool)
      → resource_refs_within_task_scope url_parse patterns exclusions resources ≡ ok result
      → (includes : List NormalizedUri) × (excluded : List NormalizedUri) × (uris : List
          NormalizedUri)
        × Parsed url_parse patterns includes
        × Parsed url_parse exclusions excluded
        × ParsedRefs url_parse resources uris
        × (all_inside includes excluded uris ≡ result)
  unfolding resource_refs_within_task_scope
  within_sound patterns exclusions resources result h =
      let (includes, first, h1) =
        and_then-eq-ok (validate_stored_from url_parse resource_pattern 0 patterns) _ h in
      let (excluded, second, h2) =
        and_then-eq-ok (validate_stored_from url_parse exclusion 0 exclusions) _ h1 in
      let (uris, third, h3) = and_then-eq-ok (validate_refs_from url_parse 0 resources) _ h2 in
      (
        includes,
        excluded,
        uris,
        validate_stored_from_sound url_parse resource_pattern 0 patterns includes first,
        validate_stored_from_sound url_parse exclusion 0 exclusions excluded second,
        validate_refs_from_sound url_parse 0 resources uris third,
        ground arith,
      )

  within_complete :
      (patterns exclusions resources : List Text)
      → All (IsStoredPattern url_parse) patterns
      → All (IsStoredPattern url_parse) exclusions
      → All (IsLegalRef url_parse) resources
      → (result : Bool) × (resource_refs_within_task_scope url_parse patterns exclusions resources
          ≡ ok result)
  unfolding resource_refs_within_task_scope
  within_complete patterns exclusions resources ps es rs =
      let (includes, first) =
        validate_stored_from_complete url_parse resource_pattern 0 patterns ps in
      let (excluded, second) = validate_stored_from_complete url_parse exclusion 0 exclusions es in
      let (uris, third) = validate_refs_from_complete url_parse 0 resources rs in
      (all_inside includes excluded uris, rw (first, second, third))

  IsInside-IsLegalRef :
      (patterns exclusions resources : List Text)
      → All (IsInside url_parse patterns exclusions) resources
      → All (IsLegalRef url_parse) resources
  IsInside-IsLegalRef patterns exclusions [] a = tt
  IsInside-IsLegalRef patterns exclusions (resource ∷ resources) a =
      ((a.0.0, a.0.1), IsInside-IsLegalRef patterns exclusions resources a.1)

  -- Containment holds exactly when every stored pattern and exclusion is legal and in normal form
  -- and every resource is legal, covered by no exclusion and by some pattern, unless there is no
  -- pattern. An answer, true or false, is given exactly when all inputs are valid: a resource
  -- outside the scope hides no later illegal input.
  pub resource_refs_within_task_scope_iff :
      (patterns exclusions resources : List Text)
      → ((resource_refs_within_task_scope url_parse patterns exclusions resources ≡ ok true) ↔ (
          All (IsStoredPattern url_parse) patterns
          × All (IsStoredPattern url_parse) exclusions
          × All (IsInside url_parse patterns exclusions) resources))
        × (((result : Bool) × (resource_refs_within_task_scope url_parse patterns exclusions
                  resources
                ≡ ok result))
            ↔ (All (IsStoredPattern url_parse) patterns
                × All (IsStoredPattern url_parse) exclusions
                × All (IsLegalRef url_parse) resources))
  resource_refs_within_task_scope_iff patterns exclusions resources = (
    (
      λ h.
          let (includes, excluded, uris, ps, es, rs, inside) =
            within_sound patterns exclusions resources true h in
          (
            Parsed-IsStoredPattern url_parse patterns includes ps,
            Parsed-IsStoredPattern url_parse exclusions excluded es,
            all_inside_sound patterns exclusions includes excluded ps es resources uris rs inside,
          ),
      λ a.
          let (result, h) =
            within_complete patterns exclusions resources a.0 a.1
              (IsInside-IsLegalRef patterns exclusions resources a.2) in
          let (includes, excluded, uris, ps, es, rs, inside) =
            within_sound patterns exclusions resources result h in
          let answer : result ≡ true =
            sym inside
            ∙ all_inside_complete patterns exclusions includes excluded ps es resources uris rs
                a.2 in
          rw answer at h,
    ),
    (
      λ r.
          let (includes, excluded, uris, ps, es, rs, _) =
            within_sound patterns exclusions resources r.0 r.1 in
          (
            Parsed-IsStoredPattern url_parse patterns includes ps,
            Parsed-IsStoredPattern url_parse exclusions excluded es,
            ParsedRefs-IsLegalRef url_parse resources uris rs,
          ),
      λ a. within_complete patterns exclusions resources a.0 a.1 a.2,
    ),
  )
