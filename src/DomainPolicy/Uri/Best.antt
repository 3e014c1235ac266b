-- ===== src/DomainPolicy/Uri/Best.antt =====
-- The best of the URI patterns that match (rust/crates/domain-policy/src/uri.rs:
-- `UriPatternScore`, `best_uri_pattern`, `any_uri_pattern`).
pub mod Order
pub mod Sorting
pub mod Ranking
use shittim.Base.{
  ℕ, suc, Bool, true, false, not, ◌&&◌, Option, none, some, List, [], ◌∷◌, Ordering, ◌≡◌, ◌≢◌, ◌⊎◌,
  ◌↔◌, inl, inr, refl, arith, if◌then◌else◌, Result, ok, ◌>>=◌, Text, codes, text_eq, is_present,
  text_cmp, then_with, ℤ, pos, int_cmp, add_i32, sub_i32, as_i32, length,
}
use shittim.DomainPolicy.Error.{PolicyErrorCode}
use shittim.DomainPolicy.Segments.{single_glob, multi_glob}
use shittim.DomainPolicy.Globs.{is_no_glob}
use shittim.DomainPolicy.Uri.{Url, NormalizedUri, parse_uri, uri_pattern_matches}

pub record UriPatternScore : Type 0 where
  pub exact : ℤ
  pub literal_components : ℤ
  pub single_globs : ℤ
  pub multi_globs : ℤ
  pub pattern : Text

-- `-n` of an i32
abbrev pub neg_i32 : ℤ → ℤ
neg_i32 n = sub_i32 (pos 0) n

unfoldable pub local_cmp : UriPatternScore → UriPatternScore → Ordering
unfolding int_cmp text_cmp sub_i32
local_cmp self other = then_with (int_cmp self.exact other.exact) (
    then_with (int_cmp self.literal_components other.literal_components) (
      then_with (int_cmp (neg_i32 self.single_globs) (neg_i32 other.single_globs)) (
        then_with (int_cmp (neg_i32 self.multi_globs) (neg_i32 other.multi_globs))
          (text_cmp other.pattern self.pattern))))

-- `sort_by(|a, b| a.as_bytes().cmp(b.as_bytes()))`
unfoldable pub insert_text : Text → List Text → List Text
unfolding text_cmp
insert_text pattern [] = pattern ∷ []
insert_text pattern (other ∷ patterns) =
    let later = other ∷ insert_text pattern patterns in
    elim (text_cmp pattern other) [ Ordering.gt ↦ later | _ ↦ pattern ∷ other ∷ patterns ]

unfoldable pub sort_texts : List Text → List Text
unfolding insert_text
sort_texts [] = []
sort_texts (pattern ∷ patterns) = insert_text pattern (sort_texts patterns)

-- `dedup`: of equal neighbours one stays.
unfoldable pub dedup : List Text → List Text
unfolding text_eq
dedup [] = []
dedup (pattern ∷ []) = pattern ∷ []
dedup (pattern ∷ other ∷ patterns) =
    let rest = dedup (other ∷ patterns) in if text_eq pattern other then rest else pattern ∷ rest

-- `filter(…).count()`
unfoldable pub count : (Text → Bool) → List Text → ℕ
count test [] = 0
count test (segment ∷ segments) =
    if test segment then suc (count test segments) else count test segments

abbrev pub is_zero : ℤ → Bool
is_zero n = elim (int_cmp n (pos 0)) [ Ordering.eq ↦ true | _ ↦ false ]

-- The score of a pattern that matches
unfoldable pub score_of : NormalizedUri → UriPatternScore
unfolding count text_eq as_i32 add_i32 int_cmp
score_of parsed =
    let singles = as_i32 (count (λ s. text_eq s single_glob) parsed.path_segments) in
    let multis = as_i32 (count (λ s. text_eq s multi_glob) parsed.path_segments) in
    let literals = as_i32 (count is_no_glob parsed.path_segments) in
    record {
      exact = if is_zero singles && is_zero multis then pos 1 else pos 0;
      literal_components = add_i32 literals (pos 2);
      single_globs = singles;
      multi_globs = multis;
      pattern = parsed.value;
    }

-- `best.is_none_or(|old| score.local_cmp(old).is_gt())`
unfoldable pub is_better : UriPatternScore → Option UriPatternScore → Bool
unfolding local_cmp
is_better score none = true
is_better score (some old) = elim (local_cmp score old) [ Ordering.gt ↦ true | _ ↦ false ]

-- What one pattern makes of the best score.
unfoldable pub improve :
    NormalizedUri → NormalizedUri → Option UriPatternScore → Option UriPatternScore
unfolding is_better
improve value parsed best =
    if uri_pattern_matches parsed value && is_better (score_of parsed) best
    then some (score_of parsed)
    else best

module _ (url_parse : Text → Option Url) where
  -- The loop over the patterns
  unfoldable pub best_from :
      List Text
      → NormalizedUri
      → Option UriPatternScore
      → Result PolicyErrorCode (Option UriPatternScore)
  unfolding improve
  best_from [] value best = ok best
  best_from (pattern ∷ patterns) value best = do
    parsed ← parse_uri url_parse pattern true
    best_from patterns value (improve value parsed best)

  unfoldable pub best_uri_pattern :
      List Text → NormalizedUri → Result PolicyErrorCode (Option UriPatternScore)
  unfolding best_from sort_texts dedup
  best_uri_pattern patterns value = best_from (dedup (sort_texts patterns)) value none

  unfoldable pub any_uri_pattern : List Text → NormalizedUri → Result PolicyErrorCode Bool
  unfolding best_uri_pattern
  any_uri_pattern patterns value = do best ← best_uri_pattern patterns value; ok (is_present best)
