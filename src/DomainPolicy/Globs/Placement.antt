-- ===== src/DomainPolicy/Globs/Placement.antt =====
-- Where a pattern may hold a `*` (rust/crates/domain-policy/src/uri.rs, `validate_glob_placement`).
use shittim.Base.{
  ℕ, Bool, true, false, not, ◌&&◌, Option, none, some, List, [], ◌∷◌, ◌++◌, ◌≡◌, ◌⊎◌, refl, arith,
  inl, inr, Bool-cases, and_then-eq-ok, ok_or-eq-ok, All, ok, reject_if, ok_or, Text, codes,
  contains, split_once, split_at, split, Lacks, contains_iff, split_once-none, split_once-some,
  split_at-some,
}
use shittim.DomainPolicy.Error.{invalid_uri_pattern}
use shittim.DomainPolicy.Globs.{
  head_before, glob_behind, split_path, is_no_glob, check_path_segments, check_glob_placement,
  validate_glob_placement,
}
use shittim.DomainPolicy.Globs.Segments.{IsWhole, reject_if-ok, is_no_glob-IsWhole}

-- `head` is the text up to its first `mark`, and nothing behind that holds a `*`.
abbrev pub IsCutAt : ℕ → Text → Text → Type 0
IsCutAt mark s head =
    ((s ≡ head) × Lacks mark s)
    ⊎ ((tail : Text) × (s ≡ head ++ (mark ∷ tail)) × Lacks mark head × Lacks b'*' tail)

-- `authority` stands before the first `/`, and `path` behind it.
abbrev pub IsPathBehind : Text → Text → Text → Type 0
IsPathBehind s authority path =
    ((s ≡ authority) × (path ≡ []) × Lacks b'/' s)
    ⊎ ((s ≡ authority ++ (b'/' ∷ path)) × Lacks b'/' authority)

-- A pattern is a scheme, an authority, a path, a query and a fragment, of which only the path holds
-- a `*`, and there as a whole segment.
pub record HasGlobsInPath (input : Text) : Type 0 where
  pub before_fragment : Text
  pub before_query : Text
  pub scheme : Text
  pub authority : Text
  pub path : Text
  pub behind_scheme : Text
  pub fragment_is_plain : IsCutAt b'#' input before_fragment
  pub query_is_plain : IsCutAt b'?' before_fragment before_query
  pub is_scheme : before_query ≡ scheme ++ (codes "://" ++ behind_scheme)
  pub scheme_is_plain : Lacks b'*' scheme
  pub is_authority : IsPathBehind behind_scheme authority path
  pub authority_is_plain : Lacks b'*' authority
  pub whole_segments : All (IsWhole true) (split path b'/')

-- Either no `*`, or a pattern that has it only in the path.
abbrev pub IsPlaced : Bool → Text → Type 0
IsPlaced allow_glob input = Lacks b'*' input ⊎ ((allow_glob ≡ true) × HasGlobsInPath input)

head_before-IsCutAt :
    (mark : ℕ) (s : Text) (found : Option (Text × Text))
    → split_once s mark ≡ found
    → glob_behind s mark ≡ false
    → IsCutAt mark s (head_before s mark)
head_before-IsCutAt mark s none e h = rw (e, head_before) (inl (refl, split_once-none s mark e))
head_before-IsCutAt mark s (some (head, tail)) e h =
    let (parts, lacks) = split_once-some s mark head tail e in
    rw (e, head_before)
      (inr (tail, parts, lacks, (contains_iff tail b'*').0 (rw (e, glob_behind) at h)))

split_path-IsPathBehind :
    (s : Text) (found : Option (Text × Text))
    → split_once s b'/' ≡ found
    → IsPathBehind s (split_path s).0 (split_path s).1
split_path-IsPathBehind s none e = rw (e, split_path) (inl (refl, refl, split_once-none s b'/' e))
split_path-IsPathBehind s (some (head, tail)) e =
    rw (e, split_path) (inr (split_once-some s b'/' head tail e))

check_path_segments-IsWhole :
    (segments : List Text) → check_path_segments segments ≡ ok tt → All (IsWhole true) segments
unfolding check_path_segments
check_path_segments-IsWhole [] h = tt
check_path_segments-IsWhole (segment ∷ path) h =
    let (_, plain, h1) =
      and_then-eq-ok (reject_if (contains segment b'*' && is_no_glob segment) _) _ h in
    let test = reject_if-ok _ _ plain in
    (
      elim (Bool-cases (contains segment b'*')) [
        | inl glob ↦ inr (refl, is_no_glob-IsWhole segment (ground arith))
        | inr no_star ↦ inl ((contains_iff segment b'*').0 no_star)
      ],
      check_path_segments-IsWhole path h1,
    )

Lacks-before : (c : ℕ) (s t : Text) → Lacks c (s ++ t) → Lacks c s
Lacks-before c [] t a = tt
Lacks-before c (d ∷ s) t a = (a.0, Lacks-before c s t a.1)

check_glob_placement-HasGlobsInPath :
    (input : Text) → check_glob_placement input ≡ ok tt → HasGlobsInPath input
unfolding check_glob_placement
check_glob_placement-HasGlobsInPath input h =
    let before_fragment = head_before input b'#' in
    let before_query = head_before before_fragment b'?' in
    let (_, fragment, h1) = and_then-eq-ok (reject_if (glob_behind input b'#') _) _ h in
    let (_, query, h2) = and_then-eq-ok (reject_if (glob_behind before_fragment b'?') _) _ h1 in
    let (found, at, h3) =
      and_then-eq-ok (ok_or (split_at before_query (codes "://")) invalid_uri_pattern) _ h2 in
    let (_, scheme, h4) =
      and_then-eq-ok (reject_if (contains (found.0 ++ codes "://") b'*') _) _ h3 in
    let (_, authority, h5) =
      and_then-eq-ok (reject_if (contains (split_path found.1).0 b'*') _) _ h4 in
    record {
      before_fragment = before_fragment;
      before_query = before_query;
      scheme = found.0;
      authority = (split_path found.1).0;
      path = (split_path found.1).1;
      behind_scheme = found.1;
      fragment_is_plain =
          head_before-IsCutAt b'#' input (split_once input b'#') refl (reject_if-ok _ _ fragment);
      query_is_plain =
          head_before-IsCutAt b'?' before_fragment (split_once before_fragment b'?') refl
            (reject_if-ok _ _ query);
      is_scheme = split_at-some before_query (codes "://") found.0 found.1 (ok_or-eq-ok _ _ at);
      scheme_is_plain =
          Lacks-before b'*' found.0 (codes "://")
            ((contains_iff (found.0 ++ codes "://") b'*').0 (reject_if-ok _ _ scheme));
      is_authority = split_path-IsPathBehind found.1 (split_once found.1 b'/') refl;
      authority_is_plain =
          (contains_iff (split_path found.1).0 b'*').0 (reject_if-ok _ _ authority);
      whole_segments = check_path_segments-IsWhole (split (split_path found.1).1 b'/') h5;
    }

pub validate_glob_placement-IsPlaced :
    (input : Text) (allow_glob : Bool)
    → validate_glob_placement input allow_glob ≡ ok tt
    → IsPlaced allow_glob input
unfolding validate_glob_placement
validate_glob_placement-IsPlaced input allow_glob h = elim (Bool-cases (contains input b'*')) [
  | inl glob ↦
      let (_, allowed, h1) =
        and_then-eq-ok (reject_if (not allow_glob) _) _ (rw (validate_glob_placement, glob) at h) in
      let allows = reject_if-ok (not allow_glob) _ allowed in
      inr (ground arith, check_glob_placement-HasGlobsInPath input h1)
  | inr no_star ↦ inl ((contains_iff input b'*').0 no_star)
]
