-- ===== src/DomainPolicy/PolicyExamples.antt =====
-- The theorems on policy URIs at concrete inputs, and tests
-- (rust/crates/domain-policy/src/uri.rs, resource_scope.rs).
use shittim.Base.{
  ℕ, Bool, true, false, Option, none, some, List, [], ◌∷◌, ◌≡◌, ◌⊎◌, ◌↔◌, refl, All, Some,
  if◌then◌else◌, ok, err, Text, codes, text_eq, utf8, pos,
}
use shittim.DomainPolicy.Error.{invalid_uri_pattern}
use shittim.DomainPolicy.Percent.{
  HasCompleteEscapes, validate_percent_encoding, validate_percent_encoding_iff, uppercase_bytes,
  uppercase_bytes-uppercase_bytes,
}
use shittim.DomainPolicy.Segments.{SegmentsMatch, match_segments}
use shittim.DomainPolicy.Segments.Meaning.{match_segments_iff}
use shittim.DomainPolicy.Globs.{validate_glob_segments}
use shittim.DomainPolicy.Globs.Segments.{IsPathSegment, validate_glob_segments_iff}
use shittim.DomainPolicy.Paths.{remove_dot_segments}
use shittim.DomainPolicy.Paths.Dots.{IsNoDot}
use shittim.DomainPolicy.Paths.Cancels.{Cancels, remove_dot_segments_lem}
use shittim.DomainPolicy.Uri.{
  Url, NormalizedUri, parse_uri, uri_pattern_matches, domain, normalize_uri_pattern_value,
  normalize_uri_value,
}
use shittim.DomainPolicy.Uri.Normal.{IsNormalUri, IsLegalInput, parse_uri-IsNormalUri}
use shittim.DomainPolicy.Uri.Matching.{UriMatches, uri_pattern_matches_iff}
use shittim.DomainPolicy.Uri.Best.{UriPatternScore, best_uri_pattern, any_uri_pattern, score_of}
use shittim.DomainPolicy.Uri.Best.Ranking.{
  IsBestOf, IsLegalPattern, IsMatching, best_uri_pattern_lem, any_uri_pattern_iff,
}
use shittim.DomainPolicy.ResourceScope.{
  ResourceContainmentError, resource_refs_within_task_scope, invalid_scope_pattern,
  invalid_resource_uri, resource_pattern, exclusion, resource_ref, check_stored, check_ref,
}
use shittim.DomainPolicy.ResourceScope.Parsing.{IsStoredPattern, IsInside, IsLegalRef}
use shittim.DomainPolicy.ResourceScope.Containment.{resource_refs_within_task_scope_iff}
use shittim.DomainPolicy.ResourceScope.Refusal.{
  FirstWithout, Names, resource_refs_within_task_scope-err,
}

abbrev url_of : List Text → Url
url_of segments = record {
  cannot_be_a_base = false;
  scheme = codes "s";
  username = [];
  password = none;
  host = some (domain (codes "h"));
  port = none;
  path_segments = some segments;
  query = none;
  fragment = none;
}

-- A parser that knows four URIs.
abbrev sample_parse : Text → Option Url
sample_parse input =
    if text_eq input (codes "s://h/a")
    then some (url_of (codes "a" ∷ []))
    else if text_eq input (codes "s://h/*")
    then some (url_of (codes "*" ∷ []))
    else if text_eq input (codes "s://h/a/../b")
    then some (url_of (codes "a" ∷ codes ".." ∷ codes "b" ∷ []))
    else if text_eq input (codes "s://h/b")
    then some (url_of (codes "b" ∷ []))
    else none

abbrev uri_of : Text → List Text → NormalizedUri
uri_of value segments = record {
  value = value;
  scheme = codes "s";
  authority = codes "h";
  path_segments = segments;
  query = none;
  fragment = none;
}

abbrev uri_a : NormalizedUri
uri_a = uri_of (codes "s://h/a") (codes "a" ∷ [])

abbrev uri_b : NormalizedUri
uri_b = uri_of (codes "s://h/b") (codes "b" ∷ [])

abbrev uri_star : NormalizedUri
uri_star = uri_of (codes "s://h/*") (codes "*" ∷ [])

parse_dots : parse_uri sample_parse (codes "s://h/a/../b") false ≡ ok uri_b
unfolding parse_uri text_eq
parse_dots = refl

accepted_glob : parse_uri sample_parse (codes "s://h/*") true ≡ ok uri_star
unfolding parse_uri text_eq
accepted_glob = refl

concrete_glob : parse_uri sample_parse (codes "s://h/*") false ≡ err invalid_uri_pattern
unfolding parse_uri text_eq
concrete_glob = refl

scope_true :
    resource_refs_within_task_scope sample_parse
      (codes "s://h/*" ∷ [])
      (codes "s://h/b" ∷ [])
      (codes "s://h/a" ∷ [])
    ≡ ok true
unfolding resource_refs_within_task_scope normalize_uri_pattern_value normalize_uri_value
    uri_pattern_matches text_eq check_stored check_ref
scope_true = refl

scope_dots :
    resource_refs_within_task_scope sample_parse []
      (codes "s://h/b" ∷ [])
      (codes "s://h/a/../b" ∷ [])
    ≡ ok false
unfolding resource_refs_within_task_scope normalize_uri_pattern_value normalize_uri_value
    uri_pattern_matches text_eq check_stored check_ref
scope_dots = refl

scope_unstored :
    resource_refs_within_task_scope sample_parse [] (codes "s://h/b" ∷ codes "s://h/a/../b" ∷ []) []
    ≡ err (record {
      code = invalid_scope_pattern;
      input_kind = exclusion;
      index = 1;
      source = invalid_uri_pattern;
    })
unfolding resource_refs_within_task_scope normalize_uri_pattern_value normalize_uri_value
    uri_pattern_matches text_eq check_stored check_ref
scope_unstored = refl

validate_percent_encoding_iff_example :
    (validate_percent_encoding (codes "%4x") ≡ ok tt) ↔ HasCompleteEscapes (utf8 (codes "%4x"))
validate_percent_encoding_iff_example = validate_percent_encoding_iff (codes "%4x")

uppercase_bytes-uppercase_bytes_example :
    uppercase_bytes (uppercase_bytes (codes "a%2f")) ≡ uppercase_bytes (codes "a%2f")
uppercase_bytes-uppercase_bytes_example = uppercase_bytes-uppercase_bytes (codes "a%2f")

match_segments_iff_example :
    (match_segments (codes "**" ∷ codes "b" ∷ []) (codes "a" ∷ codes "b" ∷ []) ≡ true)
    ↔ SegmentsMatch (codes "**" ∷ codes "b" ∷ []) (codes "a" ∷ codes "b" ∷ [])
match_segments_iff_example =
    match_segments_iff (codes "**" ∷ codes "b" ∷ []) (codes "a" ∷ codes "b" ∷ [])

validate_glob_segments_iff_example :
    (validate_glob_segments (codes "a" ∷ codes "*" ∷ []) true ≡ ok tt)
    ↔ All (IsPathSegment true) (codes "a" ∷ codes "*" ∷ [])
validate_glob_segments_iff_example = validate_glob_segments_iff (codes "a" ∷ codes "*" ∷ []) true

remove_dot_segments_lem_example :
    ((kept : List Text) × (remove_dot_segments (codes "a" ∷ codes ".." ∷ codes "b" ∷ []) ≡ ok kept))
    × ((remove_dot_segments (codes "a" ∷ codes ".." ∷ codes "b" ∷ []) ≡ ok (codes "b" ∷ [])) ↔ (
        Cancels (codes "b" ∷ []) (codes "a" ∷ codes ".." ∷ codes "b" ∷ [])
        × All IsNoDot (codes "b" ∷ [])))
remove_dot_segments_lem_example =
    remove_dot_segments_lem (codes "a" ∷ codes ".." ∷ codes "b" ∷ []) (codes "b" ∷ [])

parse_uri-IsNormalUri_example : IsNormalUri true uri_star × IsLegalInput true (codes "s://h/*")
parse_uri-IsNormalUri_example =
    parse_uri-IsNormalUri sample_parse (codes "s://h/*") true uri_star accepted_glob

uri_pattern_matches_iff_example :
    (uri_pattern_matches uri_star uri_a ≡ true) ↔ UriMatches uri_star uri_a
uri_pattern_matches_iff_example = uri_pattern_matches_iff uri_star uri_a

any_uri_pattern_iff_example :
    (any_uri_pattern sample_parse (codes "s://h/*" ∷ []) uri_a ≡ ok true) ↔ (
      All (IsLegalPattern sample_parse uri_a) (codes "s://h/*" ∷ [])
      × Some (IsMatching sample_parse uri_a) (codes "s://h/*" ∷ []))
any_uri_pattern_iff_example = any_uri_pattern_iff sample_parse uri_a (codes "s://h/*" ∷ [])

best_uri_pattern_lem_example :
    ((best : Option UriPatternScore)
      → best_uri_pattern sample_parse (codes "s://h/*" ∷ codes "s://h/a" ∷ []) uri_a ≡ ok best
      → IsBestOf sample_parse uri_a (codes "s://h/*" ∷ codes "s://h/a" ∷ []) best)
    × (All (IsLegalPattern sample_parse uri_a) (codes "s://h/*" ∷ codes "s://h/a" ∷ [])
        → (best : Option UriPatternScore) × (best_uri_pattern sample_parse
              (codes "s://h/*" ∷ codes "s://h/a" ∷ [])
              uri_a
            ≡ ok best))
best_uri_pattern_lem_example =
    best_uri_pattern_lem sample_parse uri_a (codes "s://h/*" ∷ codes "s://h/a" ∷ [])

-- The exact pattern wins, wherever it stands.
best_is_exact :
    best_uri_pattern sample_parse (codes "s://h/a" ∷ codes "s://h/*" ∷ []) uri_a
    ≡ ok (
        some (record {
          exact = pos 1;
          literal_components = pos 3;
          single_globs = pos 0;
          multi_globs = pos 0;
          pattern = codes "s://h/a";
        }))
unfolding best_uri_pattern parse_uri uri_pattern_matches text_eq score_of
best_is_exact = refl

resource_refs_within_task_scope_iff_example :
    ((resource_refs_within_task_scope sample_parse
          (codes "s://h/*" ∷ [])
          (codes "s://h/b" ∷ [])
          (codes "s://h/a" ∷ [])
        ≡ ok true)
      ↔ (All (IsStoredPattern sample_parse) (codes "s://h/*" ∷ [])
          × All (IsStoredPattern sample_parse) (codes "s://h/b" ∷ [])
          × All
              (IsInside sample_parse (codes "s://h/*" ∷ []) (codes "s://h/b" ∷ []))
              (codes "s://h/a" ∷ [])))
    × (((result : Bool) × (resource_refs_within_task_scope sample_parse
              (codes "s://h/*" ∷ [])
              (codes "s://h/b" ∷ [])
              (codes "s://h/a" ∷ [])
            ≡ ok result))
        ↔ (All (IsStoredPattern sample_parse) (codes "s://h/*" ∷ [])
            × All (IsStoredPattern sample_parse) (codes "s://h/b" ∷ [])
            × All (IsLegalRef sample_parse) (codes "s://h/a" ∷ [])))
resource_refs_within_task_scope_iff_example =
    resource_refs_within_task_scope_iff sample_parse (codes "s://h/*" ∷ []) (codes "s://h/b" ∷ [])
      (codes "s://h/a" ∷ [])

abbrev unstored : ResourceContainmentError
unstored = record {
  code = invalid_scope_pattern;
  input_kind = exclusion;
  index = 1;
  source = invalid_uri_pattern;
}

resource_refs_within_task_scope-err_example :
    (index : ℕ) × ((FirstWithout (IsStoredPattern sample_parse) [] index
        × Names unstored invalid_scope_pattern resource_pattern index)
      ⊎ ((All (IsStoredPattern sample_parse) []
            × FirstWithout
                (IsStoredPattern sample_parse)
                (codes "s://h/b" ∷ codes "s://h/a/../b" ∷ [])
                index
            × Names unstored invalid_scope_pattern exclusion index)
          ⊎ (All (IsStoredPattern sample_parse) []
              × All (IsStoredPattern sample_parse) (codes "s://h/b" ∷ codes "s://h/a/../b" ∷ [])
              × FirstWithout (IsLegalRef sample_parse) [] index
              × Names unstored invalid_resource_uri resource_ref index)))
resource_refs_within_task_scope-err_example =
    resource_refs_within_task_scope-err sample_parse []
      (codes "s://h/b" ∷ codes "s://h/a/../b" ∷ []) [] unstored scope_unstored
