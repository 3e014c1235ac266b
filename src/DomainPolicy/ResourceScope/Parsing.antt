-- ===== src/DomainPolicy/ResourceScope/Parsing.antt =====
-- What the validation of stored patterns and of resources accepts (rust/crates/domain-policy/src/resource_scope.rs).
use shittim.Base.{
  ℕ, suc, true, Option, List, [], ◌∷◌, ◌≡◌, ◌⊎◌, ◌↔◌, inl, inr, refl, arith, Bool-cases, is_empty,
  any, All, Some, Result, ok, err, and_then-eq-ok, Text, text_eq_iff, text_eq_refl,
}
use shittim.DomainPolicy.Error.{PolicyErrorCode}
use shittim.DomainPolicy.Uri.{
  Url, NormalizedUri, normalize_uri_pattern_value, normalize_uri_value, uri_pattern_matches,
}
use shittim.DomainPolicy.ResourceScope.{
  ResourceContainmentInputKind, check_stored, check_ref, validate_stored_from, validate_refs_from,
}

pub check_stored_sound :
    (kind : ResourceContainmentInputKind) (index : ℕ) (pattern : Text) (uri : NormalizedUri)
    (parsed : Result PolicyErrorCode NormalizedUri)
    → check_stored kind index pattern parsed ≡ ok uri
    → (parsed ≡ ok uri) × (uri.value ≡ pattern)
unfolding check_stored
check_stored_sound kind index pattern uri (err source) h = cc
check_stored_sound kind index pattern uri (ok normalized) h =
    ground (arith, text_eq_iff normalized.value pattern)

pub check_ref_sound :
    (index : ℕ) (uri : NormalizedUri) (parsed : Result PolicyErrorCode NormalizedUri)
    → check_ref index parsed ≡ ok uri
    → parsed ≡ ok uri
unfolding check_ref
check_ref_sound index uri (err source) h = cc
check_ref_sound index uri (ok value) h = ground arith

module _ (url_parse : Text → Option Url) where
  -- A stored pattern is legal and in normal form.
  abbrev pub IsStoredPattern : Text → Type 0
  IsStoredPattern pattern =
      (uri : NormalizedUri) × (normalize_uri_pattern_value url_parse pattern ≡ ok uri)
      × (uri.value ≡ pattern)

  -- A pattern covers a resource.
  abbrev pub Covers : NormalizedUri → Text → Type 0
  Covers resource pattern =
      (uri : NormalizedUri) × (normalize_uri_pattern_value url_parse pattern ≡ ok uri)
      × (uri_pattern_matches uri resource ≡ true)

  -- A legal resource that no exclusion covers, and some include, unless there is none.
  abbrev pub IsInside : List Text → List Text → Text → Type 0
  IsInside resource_patterns exclusions resource =
      (uri : NormalizedUri) × (normalize_uri_value url_parse resource ≡ ok uri)
      × (Some (Covers uri) exclusions → ⊥)
      × ((resource_patterns ≡ []) ⊎ Some (Covers uri) resource_patterns)

  -- The stored patterns with their normal forms.
  abbrev pub Parsed : List Text → List NormalizedUri → Type 0
  Parsed [] [] = Unit
  Parsed (pattern ∷ patterns) (uri ∷ uris) =
      ((normalize_uri_pattern_value url_parse pattern ≡ ok uri) × (uri.value ≡ pattern))
      × Parsed patterns uris
  Parsed _ _ = ⊥

  abbrev pub IsLegalRef : Text → Type 0
  IsLegalRef resource = (uri : NormalizedUri) × (normalize_uri_value url_parse resource ≡ ok uri)

  pub validate_stored_from_sound :
      (kind : ResourceContainmentInputKind) (index : ℕ) (patterns : List Text)
      (uris : List NormalizedUri)
      → validate_stored_from url_parse kind index patterns ≡ ok uris
      → Parsed patterns uris
  unfolding validate_stored_from
  validate_stored_from_sound kind index [] uris h = ground arith
  validate_stored_from_sound kind index (pattern ∷ patterns) uris h =
      let (uri, first, h1) =
        and_then-eq-ok
          (check_stored kind index pattern (normalize_uri_pattern_value url_parse pattern)) _ h in
      let (rest, others, h2) =
        and_then-eq-ok (validate_stored_from url_parse kind (suc index) patterns) _ h1 in
      let same : uri ∷ rest ≡ uris = ground arith in
      rw (← same) (
        check_stored_sound kind index pattern uri (normalize_uri_pattern_value url_parse pattern)
            first,
        validate_stored_from_sound kind (suc index) patterns rest others,
      )

  pub validate_stored_from_complete :
      (kind : ResourceContainmentInputKind) (index : ℕ) (patterns : List Text)
      → All IsStoredPattern patterns
      → (uris : List NormalizedUri) × (validate_stored_from url_parse kind index patterns ≡ ok uris)
  unfolding validate_stored_from check_stored
  validate_stored_from_complete kind index [] a = ([], refl)
  validate_stored_from_complete kind index (pattern ∷ patterns) a =
      let (uri, parsed, same) = a.0 in
      let (rest, others) = validate_stored_from_complete kind (suc index) patterns a.1 in
      (uri ∷ rest, rw (parsed, same, text_eq_refl pattern, others))

  -- The resources with their normal forms.
  abbrev pub ParsedRefs : List Text → List NormalizedUri → Type 0
  ParsedRefs [] [] = Unit
  ParsedRefs (resource ∷ resources) (uri ∷ uris) =
      (normalize_uri_value url_parse resource ≡ ok uri) × ParsedRefs resources uris
  ParsedRefs _ _ = ⊥

  pub validate_refs_from_sound :
      (index : ℕ) (resources : List Text) (uris : List NormalizedUri)
      → validate_refs_from url_parse index resources ≡ ok uris
      → ParsedRefs resources uris
  unfolding validate_refs_from
  validate_refs_from_sound index [] uris h = ground arith
  validate_refs_from_sound index (resource ∷ resources) uris h =
      let (uri, first, h1) =
        and_then-eq-ok (check_ref index (normalize_uri_value url_parse resource)) _ h in
      let (rest, others, h2) =
        and_then-eq-ok (validate_refs_from url_parse (suc index) resources) _ h1 in
      let same : uri ∷ rest ≡ uris = ground arith in
      rw (← same) (
        check_ref_sound index uri (normalize_uri_value url_parse resource) first,
        validate_refs_from_sound (suc index) resources rest others,
      )

  pub validate_refs_from_complete :
      (index : ℕ) (resources : List Text)
      → All IsLegalRef resources
      → (uris : List NormalizedUri) × (validate_refs_from url_parse index resources ≡ ok uris)
  unfolding validate_refs_from check_ref
  validate_refs_from_complete index [] a = ([], refl)
  validate_refs_from_complete index (resource ∷ resources) a =
      let (uri, parsed) = a.0 in
      let (rest, others) = validate_refs_from_complete (suc index) resources a.1 in
      (uri ∷ rest, rw (parsed, others))

  -- Some normal form matches exactly when some stored pattern covers the resource.
  pub any-Covers :
      (resource : NormalizedUri) (patterns : List Text) (uris : List NormalizedUri)
      → Parsed patterns uris
      → (any (λ uri. uri_pattern_matches uri resource) uris ≡ true)
        ↔ Some (Covers resource) patterns
  any-Covers resource [] [] p = (λ h. cc, λ h. elim h [ ])
  any-Covers resource [] (uri ∷ uris) p = elim p [ ]
  any-Covers resource (pattern ∷ patterns) [] p = elim p [ ]
  any-Covers resource (pattern ∷ patterns) (uri ∷ uris) p =
      let (rest_sound, rest_complete) = any-Covers resource patterns uris p.1 in
      (
        λ h. elim (Bool-cases (uri_pattern_matches uri resource)) [
          | inl here ↦ inl (uri, p.0.0, here)
          | inr other ↦ inr (rest_sound (rw other at h))
        ],
        λ h. elim h [
          | inl (uri', parsed, matching) ↦
              let same : uri' ≡ uri = cc (p.0.0) in ground (arith, rw same at matching)
          | inr later ↦ ground (arith, rest_complete later)
        ],
      )

  pub Parsed-empty :
      (patterns : List Text) (uris : List NormalizedUri)
      → Parsed patterns uris
      → (is_empty uris ≡ true) ↔ (patterns ≡ [])
  Parsed-empty [] [] p = (λ h. refl, λ h. refl)
  Parsed-empty [] (uri ∷ uris) p = elim p [ ]
  Parsed-empty (pattern ∷ patterns) [] p = elim p [ ]
  Parsed-empty (pattern ∷ patterns) (uri ∷ uris) p = (λ h. cc, λ h. cc)

  pub Parsed-IsStoredPattern :
      (patterns : List Text) (uris : List NormalizedUri)
      → Parsed patterns uris
      → All IsStoredPattern patterns
  Parsed-IsStoredPattern [] [] p = tt
  Parsed-IsStoredPattern [] (uri ∷ uris) p = elim p [ ]
  Parsed-IsStoredPattern (pattern ∷ patterns) [] p = elim p [ ]
  Parsed-IsStoredPattern (pattern ∷ patterns) (uri ∷ uris) p =
      ((uri, p.0.0, p.0.1), Parsed-IsStoredPattern patterns uris p.1)

  pub ParsedRefs-IsLegalRef :
      (resources : List Text) (uris : List NormalizedUri)
      → ParsedRefs resources uris
      → All IsLegalRef resources
  ParsedRefs-IsLegalRef [] [] p = tt
  ParsedRefs-IsLegalRef [] (uri ∷ uris) p = elim p [ ]
  ParsedRefs-IsLegalRef (resource ∷ resources) [] p = elim p [ ]
  ParsedRefs-IsLegalRef (resource ∷ resources) (uri ∷ uris) p =
      ((uri, p.0), ParsedRefs-IsLegalRef resources uris p.1)
