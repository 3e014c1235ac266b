-- ===== src/DomainPolicy/Globs/Segments.antt =====
-- Which segments a path may have (rust/crates/domain-policy/src/uri.rs, `validate_glob_segments`).
use shittim.Base.{
  ℕ, Bool, true, false, not, ◌&&◌, ◌||◌, List, [], ◌∷◌, ◌≡◌, ◌≢◌, ◌⊎◌, ◌↔◌, refl, arith, inl, inr,
  Bool-cases, text_eq_iff, and_then-eq-ok, All, ok, reject_if, Text, text_eq, contains, Lacks,
  contains_iff, ==_iff,
}
use shittim.DomainPolicy.Error.{PolicyErrorCode}
use shittim.DomainPolicy.Segments.{single_glob, multi_glob}
use shittim.DomainPolicy.Globs.{is_no_glob, has_bracket, validate_glob_segments}

-- None of the four characters `[`, `]`, `(`, `)`
abbrev pub IsNoBracket : ℕ → Type 0
IsNoBracket c = (c ≢ b'[') × (c ≢ b']') × (c ≢ b'(') × (c ≢ b')')

-- No `*` at all, or a whole `*` or `**` where globs are allowed.
abbrev pub IsWhole : Bool → Text → Type 0
IsWhole allow_glob segment =
    Lacks b'*' segment ⊎ ((allow_glob ≡ true) × ((segment ≡ single_glob) ⊎ (segment ≡ multi_glob)))

-- A segment that may stand in a path
pub record IsPathSegment (allow_glob : Bool) (segment : Text) : Type 0 where
  pub globs : IsWhole allow_glob segment
  pub no_bracket : All IsNoBracket segment

pub reject_if-ok : (test : Bool) (e : PolicyErrorCode) → reject_if test e ≡ ok tt → test ≡ false
reject_if-ok test e h = ground arith

has_bracket_iff : (segment : Text) → (has_bracket segment ≡ false) ↔ All IsNoBracket segment
has_bracket_iff [] = (λ h. tt, λ h. refl)
has_bracket_iff (c ∷ segment) = (
  λ h. (
    (λ e. ground arith, λ e. ground arith, λ e. ground arith, λ e. ground arith),
    (has_bracket_iff segment).0 (ground arith),
  ),
  λ a. ground (
    arith,
    a.0.0,
    a.0.1,
    a.0.2,
    a.0.3,
    (has_bracket_iff segment).1 a.1,
    ==_iff c b'[',
    ==_iff c b']',
    ==_iff c b'(',
    ==_iff c b')',
  ),
)

pub is_no_glob-IsWhole :
    (segment : Text) → is_no_glob segment ≡ false → (segment ≡ single_glob) ⊎ (segment ≡ multi_glob)
is_no_glob-IsWhole segment h = elim (Bool-cases (text_eq segment single_glob)) [
  | inl one ↦ inl ((text_eq_iff segment single_glob).0 one)
  | inr not_one ↦ inr ((text_eq_iff segment multi_glob).0 (ground arith))
]

globs_sound :
    (segment : Text) (allow_glob : Bool)
    → (contains segment b'*' && (not allow_glob || is_no_glob segment)) ≡ false
    → IsWhole allow_glob segment
globs_sound segment allow_glob h = elim (Bool-cases (contains segment b'*')) [
  | inl glob ↦ inr (ground arith, is_no_glob-IsWhole segment (ground arith))
  | inr no_star ↦ inl ((contains_iff segment b'*').0 no_star)
]

whole_glob :
    (segment : Text)
    → (segment ≡ single_glob) ⊎ (segment ≡ multi_glob)
    → (not true || is_no_glob segment) ≡ false
unfolding text_eq
whole_glob segment (inl e) = rw e
whole_glob segment (inr e) = rw e

globs_complete :
    (segment : Text) (allow_glob : Bool)
    → IsWhole allow_glob segment
    → (contains segment b'*' && (not allow_glob || is_no_glob segment)) ≡ false
globs_complete segment allow_glob (inl lacks) = rw ((contains_iff segment b'*').1 lacks)
globs_complete segment allow_glob (inr (allowed, whole)) =
    ground (arith, whole_glob segment whole, allowed)

-- The segments of a path are accepted exactly when each has no `*`, or is a whole `*` or `**` where
-- globs are allowed, and has none of the characters `[`, `]`, `(` and `)`.
pub validate_glob_segments_iff :
    (segments : List Text) (allow_glob : Bool)
    → (validate_glob_segments segments allow_glob ≡ ok tt) ↔ All (IsPathSegment allow_glob) segments
unfolding validate_glob_segments
validate_glob_segments_iff [] allow_glob = (λ h. tt, λ h. refl)
validate_glob_segments_iff (segment ∷ segments) allow_glob = (
  λ h.
      let (rest_sound, rest_complete) = validate_glob_segments_iff segments allow_glob in
      let (_, no_glob, h1) = and_then-eq-ok (reject_if _ _) _ h in
      let (_, no_bracket, h2) = and_then-eq-ok (reject_if (has_bracket segment) _) _ h1 in
      (
        record {
          globs = globs_sound segment allow_glob (reject_if-ok _ _ no_glob);
          no_bracket = (has_bracket_iff segment).0 (reject_if-ok _ _ no_bracket);
        },
        rest_sound h2,
      ),
  λ a.
      rw (globs_complete segment allow_glob a.0.globs, (has_bracket_iff segment).1 a.0.no_bracket)
        ((validate_glob_segments_iff segments allow_glob).1 a.1),
)
