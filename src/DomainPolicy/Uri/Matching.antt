-- ===== src/DomainPolicy/Uri/Matching.antt =====
-- When a URI pattern matches a URI (rust/crates/domain-policy/src/uri.rs, `uri_pattern_matches`).
use shittim.Base.{true, Option, none, some, ◌≡◌, ◌↔◌, refl, arith, Text, text_eq_iff}
use shittim.DomainPolicy.Segments.{SegmentsMatch}
use shittim.DomainPolicy.Segments.Meaning.{match_segments_iff}
use shittim.DomainPolicy.Uri.{NormalizedUri, part_matches, uri_pattern_matches}

-- The pattern's part, if it has one, is the value's.
abbrev pub PartMatches : Option Text → Option Text → Type 0
PartMatches pattern value = (part : Text) → pattern ≡ some part → value ≡ some part

pub record UriMatches (pattern value : NormalizedUri) : Type 0 where
  pub same_scheme : pattern.scheme ≡ value.scheme
  pub same_authority : pattern.authority ≡ value.authority
  pub query : PartMatches pattern.query value.query
  pub fragment : PartMatches pattern.fragment value.fragment
  pub segments : SegmentsMatch pattern.path_segments value.path_segments

part_matches_iff :
    (pattern value : Option Text) → (part_matches pattern value ≡ true) ↔ PartMatches pattern value
part_matches_iff none value = (λ h part e. cc, λ h. refl)
part_matches_iff (some part) none = (λ h. cc, λ h. cc (h part refl))
part_matches_iff (some part) (some value) = (
  λ h other e. ground (arith, text_eq_iff value part),
  λ h. ground (arith, text_eq_iff value part, h part refl),
)

-- A pattern matches a URI exactly when scheme and authority are equal, the query and the fragment
-- are those of the pattern where it has any, and the path is one that the segment globs mean.
pub uri_pattern_matches_iff :
    (pattern value : NormalizedUri)
    → (uri_pattern_matches pattern value ≡ true) ↔ UriMatches pattern value
unfolding uri_pattern_matches
uri_pattern_matches_iff pattern value = (
  λ h. record {
    same_scheme = ground (arith, text_eq_iff pattern.scheme value.scheme);
    same_authority = ground (arith, text_eq_iff pattern.authority value.authority);
    query = (part_matches_iff pattern.query value.query).0 (ground arith);
    fragment = (part_matches_iff pattern.fragment value.fragment).0 (ground arith);
    segments = (match_segments_iff pattern.path_segments value.path_segments).0 (ground arith);
  },
  λ m. rw (
    (text_eq_iff pattern.scheme value.scheme).1 m.same_scheme,
    (text_eq_iff pattern.authority value.authority).1 m.same_authority,
    (part_matches_iff pattern.query value.query).1 m.query,
    (part_matches_iff pattern.fragment value.fragment).1 m.fragment,
    (match_segments_iff pattern.path_segments value.path_segments).1 m.segments,
  ),
)
