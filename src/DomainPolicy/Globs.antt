-- ===== src/DomainPolicy/Globs.antt =====
-- Where a policy URI may hold glob tokens (rust/crates/domain-policy/src/uri.rs:
-- `validate_glob_placement`, `validate_glob_segments`).
pub mod Segments
pub mod Placement
use shittim.Base.{
  ℕ, Bool, true, false, not, ◌&&◌, ◌||◌, none, some, List, [], ◌∷◌, ◌++◌, ◌≡◌, ◌⊎◌, ◌↔◌, refl,
  arith, inl, inr, Bool-cases, text_eq_iff, and_then-eq-ok, All, if◌then◌else◌, Result, ok, ◌>>=◌,
  ◌>>◌, reject_if, ok_or, Text, codes, text_eq, contains, split_once, split_at, split,
}
use shittim.DomainPolicy.Error.{PolicyErrorCode, invalid_uri_pattern}
use shittim.DomainPolicy.Segments.{single_glob, multi_glob}

-- `s.split_once(c).map_or(s, |(head, _)| head)`
abbrev pub head_before : Text → ℕ → Text
head_before s c = elim (split_once s c) [ none ↦ s | some (head, tail) ↦ head ]

-- `s.split_once(c).is_some_and(|(_, tail)| tail.contains('*'))`
abbrev pub glob_behind : Text → ℕ → Bool
glob_behind s c = elim (split_once s c) [ none ↦ false | some (head, tail) ↦ contains tail b'*' ]

-- `s.split_once('/').map_or((s, ""), …)`
abbrev pub split_path : Text → Text × Text
split_path s = elim (split_once s b'/') [ none ↦ (s, []) | some (head, tail) ↦ (head, tail) ]

-- `segment != "*" && segment != "**"`
abbrev pub is_no_glob : Text → Bool
is_no_glob segment = not (text_eq segment single_glob) && not (text_eq segment multi_glob)

-- The loop over the segments of the path
unfoldable pub check_path_segments : List Text → Result PolicyErrorCode (Unit {0})
check_path_segments [] = ok tt
check_path_segments (segment ∷ path) = do
  reject_if (contains segment b'*' && is_no_glob segment) invalid_uri_pattern
  check_path_segments path

-- What is checked of a pattern that holds a `*`
unfoldable pub check_glob_placement : Text → Result PolicyErrorCode (Unit {0})
unfolding split_once split_at split check_path_segments
check_glob_placement input = do
  let before_fragment = head_before input b'#'
  reject_if (glob_behind input b'#') invalid_uri_pattern
  let before_query = head_before before_fragment b'?'
  reject_if (glob_behind before_fragment b'?') invalid_uri_pattern
  found ← ok_or (split_at before_query (codes "://")) invalid_uri_pattern
  reject_if (contains (found.0 ++ codes "://") b'*') invalid_uri_pattern
  let parts = split_path found.1
  reject_if (contains parts.0 b'*') invalid_uri_pattern
  check_path_segments (split parts.1 b'/')

unfoldable pub validate_glob_placement : Text → Bool → Result PolicyErrorCode (Unit {0})
unfolding check_glob_placement
validate_glob_placement input allow_glob =
    if not (contains input b'*')
    then ok tt
    else (do reject_if (not allow_glob) invalid_uri_pattern; check_glob_placement input)

-- `segment.contains('[') || …`
abbrev pub has_bracket : Text → Bool
has_bracket segment =
    contains segment b'[' || contains segment b']' || contains segment b'(' || contains segment b')'

unfoldable pub validate_glob_segments : List Text → Bool → Result PolicyErrorCode (Unit {0})
validate_glob_segments [] allow_glob = ok tt
validate_glob_segments (segment ∷ segments) allow_glob = do
  reject_if (contains segment b'*' && (not allow_glob || is_no_glob segment)) invalid_uri_pattern
  reject_if (has_bracket segment) invalid_uri_pattern
  validate_glob_segments segments allow_glob
