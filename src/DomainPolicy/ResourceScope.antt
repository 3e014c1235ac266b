-- ===== src/DomainPolicy/ResourceScope.antt =====
-- TaskScope containment of concrete resources (rust/crates/domain-policy/src/resource_scope.rs).
pub mod Parsing
pub mod Containment
pub mod Refusal
use shittim.Base.{
  ℕ, suc, ◌+◌, Bool, true, false, not, ◌&&◌, ◌||◌, Option, List, [], ◌∷◌, if◌then◌else◌, is_empty,
  any, Result, ok, err, ◌>>=◌, Text, codes, text_eq,
}
use shittim.DomainPolicy.Error.{PolicyErrorCode, invalid_uri_pattern}
use shittim.DomainPolicy.Uri.{
  Url, NormalizedUri, normalize_uri_pattern_value, normalize_uri_value, uri_pattern_matches,
}

pub data ResourceContainmentErrorCode : Type 0 where
  invalid_scope_pattern invalid_resource_uri : ResourceContainmentErrorCode

-- `ResourceContainmentErrorCode::as_str`
unfoldable pub containment_code_str : ResourceContainmentErrorCode → Text
containment_code_str invalid_scope_pattern = codes "invalid_scope_pattern"
containment_code_str invalid_resource_uri = codes "invalid_resource_uri"

pub data ResourceContainmentInputKind : Type 0 where
  resource_pattern exclusion resource_ref : ResourceContainmentInputKind

-- `ResourceContainmentInputKind::as_str`
unfoldable pub input_kind_str : ResourceContainmentInputKind → Text
input_kind_str resource_pattern = codes "resource_pattern"
input_kind_str exclusion = codes "exclusion"
input_kind_str resource_ref = codes "resource_ref"

pub record ResourceContainmentError : Type 0 where
  pub code : ResourceContainmentErrorCode
  pub input_kind : ResourceContainmentInputKind
  pub index : ℕ
  pub source : PolicyErrorCode

-- `ResourceContainmentError::policy_error_code`
unfoldable pub policy_error_code : ResourceContainmentError → PolicyErrorCode
policy_error_code error = error.source

-- What `validate_stored_patterns` makes of the normalised pattern: it must be the stored text.
unfoldable pub check_stored :
    ResourceContainmentInputKind
    → ℕ
    → Text
    → Result PolicyErrorCode NormalizedUri
    → Result ResourceContainmentError NormalizedUri
check_stored input_kind index pattern (ok normalized) =
    if text_eq normalized.value pattern
    then ok normalized
    else err (record {
      code = invalid_scope_pattern;
      input_kind = input_kind;
      index = index;
      source = invalid_uri_pattern;
    })
check_stored input_kind index pattern (err source) = err (record {
  code = invalid_scope_pattern;
  input_kind = input_kind;
  index = index;
  source = source;
})

-- What `validate_resource_refs` makes of the normalised resource.
unfoldable pub check_ref :
    ℕ → Result PolicyErrorCode NormalizedUri → Result ResourceContainmentError NormalizedUri
check_ref index (ok value) = ok value
check_ref index (err source) = err (record {
  code = invalid_resource_uri;
  input_kind = resource_ref;
  index = index;
  source = source;
})

-- The loop over the resources; `false` is returned at the first that is outside.
unfoldable pub all_inside : List NormalizedUri → List NormalizedUri → List NormalizedUri → Bool
all_inside includes exclusions [] = true
all_inside includes exclusions (resource ∷ resources) =
    let rest = all_inside includes exclusions resources in
    if any (λ pattern. uri_pattern_matches pattern resource) exclusions
    then false
    else if not (is_empty includes)
        && not (any (λ pattern. uri_pattern_matches pattern resource) includes)
    then false
    else rest

module _ (url_parse : Text → Option Url) where
  -- The loop of `validate_stored_patterns` from an index on
  unfoldable pub validate_stored_from :
      ResourceContainmentInputKind
      → ℕ
      → List Text
      → Result ResourceContainmentError (List NormalizedUri)
  validate_stored_from input_kind index [] = ok []
  validate_stored_from input_kind index (pattern ∷ patterns) = do
    normalized ←
        check_stored input_kind index pattern (normalize_uri_pattern_value url_parse pattern)
    rest ← validate_stored_from input_kind (suc index) patterns
    ok (normalized ∷ rest)

  unfoldable pub validate_stored_patterns :
      List Text
      → ResourceContainmentInputKind
      → Result ResourceContainmentError (List NormalizedUri)
  unfolding validate_stored_from
  validate_stored_patterns patterns input_kind = validate_stored_from input_kind 0 patterns

  -- The loop of `validate_resource_refs` from an index on
  unfoldable pub validate_refs_from :
      ℕ → List Text → Result ResourceContainmentError (List NormalizedUri)
  validate_refs_from index [] = ok []
  validate_refs_from index (resource ∷ resources) = do
    value ← check_ref index (normalize_uri_value url_parse resource)
    rest ← validate_refs_from (suc index) resources
    ok (value ∷ rest)

  unfoldable pub validate_resource_refs :
      List Text → Result ResourceContainmentError (List NormalizedUri)
  unfolding validate_refs_from
  validate_resource_refs resource_refs = validate_refs_from 0 resource_refs

  unfoldable pub resource_refs_within_task_scope :
      List Text → List Text → List Text → Result ResourceContainmentError Bool
  unfolding validate_stored_patterns validate_resource_refs all_inside
  resource_refs_within_task_scope resource_patterns exclusions resource_refs = do
    includes ← validate_stored_patterns resource_patterns resource_pattern
    excluded ← validate_stored_patterns exclusions exclusion
    normalized_resources ← validate_resource_refs resource_refs
    ok (all_inside includes excluded normalized_resources)
