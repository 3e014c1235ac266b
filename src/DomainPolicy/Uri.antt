-- ===== src/DomainPolicy/Uri.antt =====
-- Normalisation and matching of policy URIs (rust/crates/domain-policy/src/uri.rs). `Url::parse`
-- of the url crate is the parameter `url_parse`; a parsed `Url` is what its accessors return.
pub mod Normal
pub mod Matching
pub mod Best
use shittim.Base.{
  ℕ, Bool, true, false, not, ◌&&◌, ◌||◌, Option, none, some, List, [], ◌∷◌, ◌++◌, map, ◌==◌,
  if◌then◌else◌, is_empty, any, Result, ok, err, ◌>>=◌, ◌>>◌, reject_if, ok_or, Text, codes,
  text_eq, contains, is_present, join, decimal_u16, text_cmp, then_with, Ordering, ℤ, pos, int_cmp,
  add_i32, sub_i32, as_i32, length,
}
use shittim.DomainPolicy.Error.{PolicyErrorCode, invalid_uri_pattern}
use shittim.DomainPolicy.Percent.{
  to_ascii_lowercase, validate_percent_encoding, uppercase_percent_encoding,
}
use shittim.DomainPolicy.Segments.{single_glob, multi_glob, match_segments}
use shittim.DomainPolicy.Globs.{validate_glob_placement, validate_glob_segments}
use shittim.DomainPolicy.Paths.{remove_dot_segments, normalize_file_uri}

-- `url::Host`; an address is given by its `Display` text.
pub data Host : Type 0 where
  domain ipv4 ipv6 : Text → Host

-- What the accessors of `url::Url` return.
pub record Url : Type 0 where
  pub cannot_be_a_base : Bool
  pub scheme : Text
  pub username : Text
  pub password : Option Text
  pub host : Option Host
  pub port : Option ℕ
  pub path_segments : Option (List Text)
  pub query : Option Text
  pub fragment : Option Text

pub record NormalizedUri : Type 0 where
  pub value : Text
  pub scheme : Text
  pub authority : Text
  pub path_segments : List Text
  pub query : Option Text
  pub fragment : Option Text

unfoldable pub normalize_host : Host → Text
normalize_host (domain name) = map to_ascii_lowercase name
normalize_host (ipv4 address) = address
normalize_host (ipv6 address) = codes "[" ++ (address ++ codes "]")

-- The port that a scheme implies is left out.
unfoldable pub normalize_port : Text → Option ℕ → Option ℕ
unfolding text_eq
normalize_port scheme none = none
normalize_port scheme (some port) =
    if (text_eq scheme (codes "http") && port == 80)
      || (text_eq scheme (codes "https") && port == 443)
      || (text_eq scheme (codes "ftp") && port == 21)
    then none
    else some port

-- `format!("{username}:{password}@")`, `format!("{username}@")`, or nothing
unfoldable pub userinfo_of : Text → Option Text → Text
unfolding uppercase_percent_encoding
userinfo_of username none =
    if is_empty username then [] else uppercase_percent_encoding username ++ codes "@"
userinfo_of username (some password) =
    uppercase_percent_encoding username
    ++ (codes ":" ++ (uppercase_percent_encoding password ++ codes "@"))

unfoldable pub host_of : Option Host → Text
unfolding normalize_host
host_of none = []
host_of (some host) = normalize_host host

unfoldable pub with_port : Text → Option ℕ → Text
unfolding decimal_u16
with_port authority none = authority
with_port authority (some port) = authority ++ (codes ":" ++ decimal_u16 port)

abbrev prefixed : Text → Option Text → Text
prefixed mark none = []
prefixed mark (some part) = mark ++ part

-- `scheme://authority/path?query#fragment`
unfoldable pub uri_text : Text → Text → List Text → Option Text → Option Text → Text
unfolding join
uri_text scheme authority path_segments query fragment =
    let path =
      if is_empty path_segments then codes "/" else codes "/" ++ join path_segments (codes "/") in
    scheme
    ++ (codes "://"
        ++ (authority ++ (path ++ (prefixed (codes "?") query ++ prefixed (codes "#") fragment))))

abbrev pub Option_map {ℓ κ} : {A : Type ℓ} {B : Type κ} → (A → B) → Option A → Option B
Option_map f none = none
Option_map f (some x) = some (f x)

-- `url.cannot_be_a_base() || (url.host().is_none() && url.scheme() != "file")`
abbrev pub lacks_authority : Url → Bool
lacks_authority url =
    url.cannot_be_a_base || (not (is_present url.host) && not (text_eq url.scheme (codes "file")))

-- `let scheme`, and `let authority` with the user information, the host and the port
abbrev pub scheme_of : Url → Text
scheme_of url = map to_ascii_lowercase url.scheme

unfoldable pub authority_of : Url → Text
unfolding userinfo_of host_of normalize_port with_port
authority_of url =
    with_port (userinfo_of url.username url.password ++ host_of url.host)
      (normalize_port (scheme_of url) url.port)

-- `let mut path_segments` up to `validate_glob_segments`
unfoldable pub normalize_segments :
    Text → Text → List Text → Bool → Result PolicyErrorCode (List Text)
unfolding remove_dot_segments normalize_file_uri validate_glob_segments text_eq
normalize_segments scheme authority raw_segments allow_glob = do
  kept ← remove_dot_segments raw_segments
  path_segments ←
      (if text_eq scheme (codes "file") then normalize_file_uri authority kept else ok kept)
  validate_glob_segments path_segments allow_glob
  ok path_segments

-- The result, from `let query` on
unfoldable pub assemble : Url → List Text → NormalizedUri
unfolding authority_of uppercase_percent_encoding uri_text
assemble url path_segments =
    let query = Option_map uppercase_percent_encoding url.query in
    let fragment = Option_map uppercase_percent_encoding url.fragment in
    record {
      value = uri_text (scheme_of url) (authority_of url) path_segments query fragment;
      scheme = scheme_of url;
      authority = authority_of url;
      path_segments = path_segments;
      query = query;
      fragment = fragment;
    }

-- Everything behind `Url::parse` in `parse_uri`
unfoldable pub normalize_url : Url → Bool → Result PolicyErrorCode NormalizedUri
unfolding authority_of uppercase_percent_encoding normalize_segments assemble text_eq
normalize_url url allow_glob = do
  reject_if (lacks_authority url) invalid_uri_pattern
  raw_segments ← ok_or url.path_segments invalid_uri_pattern
  path_segments ←
      normalize_segments (scheme_of url) (authority_of url)
        (map uppercase_percent_encoding raw_segments) allow_glob
  ok (assemble url path_segments)

-- A pattern without the part takes any; otherwise the value has the same part.
abbrev pub part_matches : Option Text → Option Text → Bool
part_matches none value = true
part_matches (some part) none = false
part_matches (some part) (some value) = text_eq value part

unfoldable pub uri_pattern_matches : NormalizedUri → NormalizedUri → Bool
unfolding text_eq match_segments
uri_pattern_matches pattern value =
    text_eq pattern.scheme value.scheme
    && text_eq pattern.authority value.authority
    && part_matches pattern.query value.query
    && part_matches pattern.fragment value.fragment
    && match_segments pattern.path_segments value.path_segments

module _ (url_parse : Text → Option Url) where
  unfoldable pub parse_uri : Text → Bool → Result PolicyErrorCode NormalizedUri
  unfolding validate_percent_encoding validate_glob_placement normalize_url
  parse_uri input allow_glob = do
    reject_if (contains input 92) invalid_uri_pattern
    validate_percent_encoding input
    validate_glob_placement input allow_glob
    url ← ok_or (url_parse input) invalid_uri_pattern
    normalize_url url allow_glob

  unfoldable pub normalize_uri_pattern_value : Text → Result PolicyErrorCode NormalizedUri
  unfolding parse_uri
  normalize_uri_pattern_value pattern = parse_uri pattern true

  unfoldable pub normalize_uri_value : Text → Result PolicyErrorCode NormalizedUri
  unfolding parse_uri
  normalize_uri_value value = parse_uri value false

  unfoldable pub normalize_uri : Text → Result PolicyErrorCode Text
  unfolding parse_uri
  normalize_uri value = do uri ← parse_uri value false; ok uri.value

  unfoldable pub normalize_uri_pattern : Text → Result PolicyErrorCode Text
  unfolding normalize_uri_pattern_value
  normalize_uri_pattern pattern = do uri ← normalize_uri_pattern_value pattern; ok uri.value
