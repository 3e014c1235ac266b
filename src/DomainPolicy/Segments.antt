-- ===== src/DomainPolicy/Segments.antt =====
-- Matching of path segments against segment globs (rust/crates/domain-policy/src/uri.rs,
-- `match_segments`), with a relation that says what a pattern means.
mod Backtrack
pub mod Meaning
use shittim.Base.{
  ℕ, zero, suc, ◌+◌, Bool, true, false, ◌&&◌, ◌||◌, List, [], ◌∷◌, ◌≡◌, ◌≢◌, ◌↔◌, refl, arith,
  if◌then◌else◌, length, is_empty, inl, inr, Bool-cases, Text, codes, text_eq, text_eq_iff,
  text_eq_refl, ◌∙◌, sym, map,
}

abbrev pub single_glob : Text
single_glob = codes "*"

abbrev pub multi_glob : Text
multi_glob = codes "**"

-- `reachable[index]`
unfoldable pub flag_at : List Bool → ℕ → Bool
flag_at [] index = false
flag_at (flag ∷ flags) zero = flag
flag_at (flag ∷ flags) (suc index) = flag_at flags index

-- The loop of `**`: `seen |= reachable[index]; next[index] = seen`
unfoldable pub mark_from : Bool → List Bool → List Bool
mark_from seen [] = []
mark_from seen (flag ∷ flags) = (seen || flag) ∷ mark_from (seen || flag) flags

-- The loops of `*` and of a literal: the flags behind index 0, one for each accepted segment
unfoldable pub advance : (Text → Bool) → List Text → List Bool → List Bool
advance accepts [] flags = []
advance accepts (segment ∷ value) [] = []
advance accepts (segment ∷ value) (flag ∷ flags) =
    (flag && accepts segment) ∷ advance accepts value flags

-- One round: the flags behind one more token
unfoldable pub next_flags : Text → List Text → List Bool → List Bool
unfolding mark_from advance text_eq
next_flags token value reachable =
    if text_eq token multi_glob
    then mark_from false reachable
    else if text_eq token single_glob
    then false ∷ advance (λ segment. true) value reachable
    else false ∷ advance (λ segment. text_eq token segment) value reachable

-- The loop over the tokens, and `reachable[value.len()]`
unfoldable pub match_from : List Text → List Text → List Bool → Bool
unfolding next_flags flag_at
match_from [] value reachable = flag_at reachable (length value)
match_from (token ∷ pattern) value reachable =
    match_from pattern value (next_flags token value reachable)

unfoldable pub match_segments : List Text → List Text → Bool
unfolding match_from
match_segments pattern value = match_from pattern value (true ∷ map (λ segment. false) value)

-- What a pattern means: `**` stands for any number of segments, `*` for one, and every other token
-- for itself.
pub data SegmentsMatch : List Text → List Text → Type 0 where
  ended : SegmentsMatch [] []
  skipped :
      (token : Text) (pattern value : List Text)
      → token ≡ multi_glob
      → SegmentsMatch pattern value
      → SegmentsMatch (token ∷ pattern) value
  absorbed :
      (token : Text) (pattern : List Text) (segment : Text) (value : List Text)
      → token ≡ multi_glob
      → SegmentsMatch (token ∷ pattern) value
      → SegmentsMatch (token ∷ pattern) (segment ∷ value)
  single :
      (token : Text) (pattern : List Text) (segment : Text) (value : List Text)
      → token ≡ single_glob
      → SegmentsMatch pattern value
      → SegmentsMatch (token ∷ pattern) (segment ∷ value)
  literal :
      (token : Text) (pattern : List Text) (segment : Text) (value : List Text)
      → token ≢ multi_glob
      → token ≢ single_glob
      → token ≡ segment
      → SegmentsMatch pattern value
      → SegmentsMatch (token ∷ pattern) (segment ∷ value)
