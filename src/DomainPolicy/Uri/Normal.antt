-- ===== src/DomainPolicy/Uri/Normal.antt =====
-- What a normalised policy URI looks like (rust/crates/domain-policy/src/uri.rs, `parse_uri`).
use shittim.Base.{
  Bool, true, false, Option, List, [], ◌∷◌, map, ◌≡◌, ◌⊎◌, inl, inr, refl, arith, Bool-cases,
  if◌then◌else◌, All, ok, and_then-eq-ok, reject_if, ok_or, Text, codes, text_eq, text_eq_iff,
  contains, utf8, Lacks, contains_iff,
}
use shittim.DomainPolicy.Error.{invalid_uri_pattern}
use shittim.DomainPolicy.Percent.{
  HasCompleteEscapes, to_ascii_lowercase, validate_percent_encoding, validate_percent_encoding_iff,
  uppercase_percent_encoding,
}
use shittim.DomainPolicy.Globs.{validate_glob_placement, validate_glob_segments}
use shittim.DomainPolicy.Globs.Segments.{IsPathSegment, validate_glob_segments_iff}
use shittim.DomainPolicy.Globs.Placement.{IsPlaced, validate_glob_placement-IsPlaced}
use shittim.DomainPolicy.Paths.{uppercase_drive, remove_dots_into, normalize_file_uri}
use shittim.DomainPolicy.Paths.Dots.{IsNoDot, IsNoDot-remove_dots_into, IsNoDot-uppercase_drive}
use shittim.DomainPolicy.Uri.{
  Url, NormalizedUri, uri_text, lacks_authority, scheme_of, authority_of, normalize_segments,
  assemble, normalize_url, parse_uri,
}

pub record IsNormalUri (allow_glob : Bool) (uri : NormalizedUri) : Type 0 where
  pub lower_scheme : map to_ascii_lowercase uri.scheme ≡ uri.scheme
  pub local_file :
      uri.scheme ≡ codes "file" → (uri.authority ≡ []) ⊎ (uri.authority ≡ codes "localhost")
  pub no_dots : All IsNoDot uri.path_segments
  pub legal_segments : All (IsPathSegment allow_glob) uri.path_segments
  pub value_is_text :
      uri.value ≡ uri_text uri.scheme uri.authority uri.path_segments uri.query uri.fragment

-- What is checked of the text itself.
pub record IsLegalInput (allow_glob : Bool) (input : Text) : Type 0 where
  pub no_backslash : Lacks 92 input
  pub escapes : HasCompleteEscapes (utf8 input)
  pub globs : IsPlaced allow_glob input

lowercase_idem :
    (s : Text) → map to_ascii_lowercase (map to_ascii_lowercase s) ≡ map to_ascii_lowercase s
lowercase_idem [] = refl
lowercase_idem (c ∷ s) = ground (arith, lowercase_idem s)

local_authority :
    (authority : Text) (segments kept : List Text)
    → normalize_file_uri authority segments ≡ ok kept
    → ((authority ≡ []) ⊎ (authority ≡ codes "localhost")) × (kept ≡ uppercase_drive segments)
unfolding normalize_file_uri
local_authority [] segments kept h = (inl refl, ground arith)
local_authority (c ∷ authority) segments kept h =
    elim (Bool-cases (text_eq (c ∷ authority) (codes "localhost"))) [
      | inl same ↦ (inr ((text_eq_iff _ _).0 same), ground arith)
      | inr other ↦ absurd (cc (rw other at h))
    ]

-- The segments behind the step for files.
file_step :
    (is_file : Bool) (authority : Text) (segments kept : List Text)
    → All IsNoDot segments
    → (if is_file then normalize_file_uri authority segments else ok segments) ≡ ok kept
    → All IsNoDot kept × (is_file ≡ true → (authority ≡ []) ⊎ (authority ≡ codes "localhost"))
file_step true authority segments kept a h =
    let (local, same) = local_authority authority segments kept h in
    (rw same (IsNoDot-uppercase_drive segments a), λ e. local)
file_step false authority segments kept a h =
    let same : segments ≡ kept = ground arith in (rw (← same) a, λ e. cc)

-- What the normalisation of the segments gives.
record IsNormalPath (scheme authority : Text) (allow_glob : Bool) (segments : List Text)
    : Type 0 where
  local_file : scheme ≡ codes "file" → (authority ≡ []) ⊎ (authority ≡ codes "localhost")
  no_dots : All IsNoDot segments
  legal : All (IsPathSegment allow_glob) segments

normalize_segments-IsNormalPath :
    (scheme authority : Text) (raw : List Text) (allow_glob : Bool) (segments : List Text)
    → normalize_segments scheme authority raw allow_glob ≡ ok segments
    → IsNormalPath scheme authority allow_glob segments
unfolding normalize_segments
normalize_segments-IsNormalPath scheme authority raw allow_glob segments h =
    let kept = remove_dots_into [] raw in
    let plain = IsNoDot-remove_dots_into [] raw tt in
    let (moved, step, h1) =
      and_then-eq-ok
        (if text_eq scheme (codes "file") then normalize_file_uri authority kept else ok kept) _
        h in
    let (_, checked, h2) = and_then-eq-ok (validate_glob_segments moved allow_glob) _ h1 in
    let (no_dots, local) =
      file_step (text_eq scheme (codes "file")) authority kept moved plain step in
    let same : moved ≡ segments = ground arith in
    rw (← same) (record {
      local_file = λ e. local ((text_eq_iff scheme (codes "file")).1 e);
      no_dots = no_dots;
      legal = (validate_glob_segments_iff moved allow_glob).0 checked;
    })

normalize_url-IsNormalUri :
    (url : Url) (allow_glob : Bool) (uri : NormalizedUri)
    → normalize_url url allow_glob ≡ ok uri
    → IsNormalUri allow_glob uri
unfolding normalize_url assemble
normalize_url-IsNormalUri url allow_glob uri h =
    let (_, _, h1) = and_then-eq-ok (reject_if (lacks_authority url) invalid_uri_pattern) _ h in
    let (raw, _, h2) = and_then-eq-ok (ok_or url.path_segments invalid_uri_pattern) _ h1 in
    let (segments, normal, h3) =
      and_then-eq-ok
        (normalize_segments (scheme_of url) (authority_of url) (map uppercase_percent_encoding raw)
          allow_glob)
        _ h2 in
    let p =
      normalize_segments-IsNormalPath (scheme_of url) (authority_of url)
        (map uppercase_percent_encoding raw) allow_glob segments normal in
    let same : assemble url segments ≡ uri = ground arith in
    rw (← same) (record {
      lower_scheme = lowercase_idem url.scheme;
      local_file = p.local_file;
      no_dots = p.no_dots;
      legal_segments = p.legal;
      value_is_text = refl;
    })

-- A text that is accepted holds no backslash, only complete escapes, and no `*`, or is a pattern
-- whose scheme, authority, query and fragment hold no `*` and whose path holds it only as a whole
-- segment `*` or `**`. The result has a lower-case scheme, an empty authority or localhost where it
-- is a file, and among its path segments no `.` or `..`, a `*` only as a whole segment of a pattern,
-- and no bracket or parenthesis; its value is the text of its parts.
pub parse_uri-IsNormalUri :
    (url_parse : Text → Option Url) (input : Text) (allow_glob : Bool) (uri : NormalizedUri)
    → parse_uri url_parse input allow_glob ≡ ok uri
    → IsNormalUri allow_glob uri × IsLegalInput allow_glob input
unfolding parse_uri
parse_uri-IsNormalUri url_parse input allow_glob uri h =
    let (_, slash, h1) = and_then-eq-ok (reject_if (contains input 92) invalid_uri_pattern) _ h in
    let (_, escapes, h2) = and_then-eq-ok (validate_percent_encoding input) _ h1 in
    let (_, placed, h3) = and_then-eq-ok (validate_glob_placement input allow_glob) _ h2 in
    let (url, _, h4) = and_then-eq-ok (ok_or (url_parse input) invalid_uri_pattern) _ h3 in
    (
      normalize_url-IsNormalUri url allow_glob uri h4,
      record {
        no_backslash = (contains_iff input 92).0 (ground arith);
        escapes = (validate_percent_encoding_iff input).0 escapes;
        globs = validate_glob_placement-IsPlaced input allow_glob placed;
      },
    )
