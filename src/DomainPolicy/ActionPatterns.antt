-- ===== src/DomainPolicy/ActionPatterns.antt =====
-- Patterns of capabilities and operations (rust/crates/domain-policy/src/matcher.rs:
-- `best_action_pattern`, `validate_action_patterns`).
pub mod Affixes
pub mod Meaning
pub mod Best
use shittim.Base.{
  ℕ, ◌+◌, Bool, true, false, not, ◌&&◌, ◌||◌, Option, none, some, List, [], ◌∷◌, ◌++◌, Ordering,
  compare, leb, if◌then◌else◌, length, is_empty, Result, ok, err, ◌>>=◌, ◌>>◌, reject_if, Text,
  codes, text_eq, contains, starts_with, utf8, text_cmp, then_with, ℤ, pos, int_cmp,
}
use shittim.DomainPolicy.Error.{PolicyErrorCode, invalid_action_pattern}
use shittim.DomainPolicy.Uri.Best.{sort_texts, dedup}

abbrev keep_first : ℕ → Option Text → Option Text
keep_first c none = none
keep_first c (some s) = some (c ∷ s)

-- `s.strip_suffix(p)`
unfoldable pub strip_suffix : Text → Text → Option Text
unfolding text_eq
strip_suffix [] p = if text_eq [] p then some [] else none
strip_suffix (c ∷ s) p =
    let rest = keep_first c (strip_suffix s p) in if text_eq (c ∷ s) p then some [] else rest

-- The exactness, the length of the literal part in characters, and the pattern.
abbrev pub ActionScore : Type 0
ActionScore = ℤ × ℕ × Text

unfoldable pub action_score_cmp : ActionScore → ActionScore → Ordering
unfolding int_cmp text_cmp
action_score_cmp left right =
    then_with (then_with (int_cmp left.0 right.0) (compare left.1 right.1))
      (text_cmp right.2 left.2)

-- The candidate of a pattern that ends in `.*`
unfoldable pub prefix_candidate : Text → Text → Text → Option ActionScore
unfolding starts_with utf8
prefix_candidate pattern value prefix =
    if is_empty prefix
      || contains prefix b'*'
      || not (starts_with value (prefix ++ codes "."))
      || leb (length (utf8 value)) (length (utf8 prefix) + 1)
    then none
    else some (pos 0, length prefix, pattern)

-- The candidate of one pattern
unfoldable pub candidate_of : Text → Text → Result PolicyErrorCode (Option ActionScore)
unfolding strip_suffix prefix_candidate text_eq
candidate_of pattern value = elim (strip_suffix pattern (codes ".*")) [
  | some prefix ↦ ok (prefix_candidate pattern value prefix)
  | none ↦
      if contains pattern b'*'
      then err invalid_action_pattern
      else if text_eq pattern value
      then ok (some (pos 1, length pattern, pattern))
      else ok none
]

-- One round of the loop
unfoldable pub better_action : Option ActionScore → Option ActionScore → Option ActionScore
unfolding action_score_cmp
better_action none best = best
better_action (some candidate) none = some candidate
better_action (some candidate) (some old) = elim (action_score_cmp candidate old) [
  | Ordering.gt ↦ some candidate
  | _ ↦ some old
]

unfoldable pub best_action_from :
    List Text → Text → Option ActionScore → Result PolicyErrorCode (Option ActionScore)
unfolding candidate_of better_action
best_action_from [] value best = ok best
best_action_from (pattern ∷ patterns) value best = do
  candidate ← candidate_of pattern value
  best_action_from patterns value (better_action candidate best)

unfoldable pub best_action_pattern : List Text → Text → Result PolicyErrorCode (Option ActionScore)
unfolding best_action_from sort_texts dedup
best_action_pattern patterns value = best_action_from (dedup (sort_texts patterns)) value none

-- What is checked of one pattern
unfoldable pub validate_action_pattern : Text → Result PolicyErrorCode (Unit {0})
unfolding strip_suffix
validate_action_pattern pattern = do
  reject_if (is_empty pattern) invalid_action_pattern
  elim (strip_suffix pattern (codes ".*")) [
    | some prefix ↦ reject_if (is_empty prefix || contains prefix b'*') invalid_action_pattern
    | none ↦
        reject_if (contains pattern b'*' || contains pattern b'[' || contains pattern b'(')
          invalid_action_pattern
  ]

unfoldable pub validate_action_patterns : List Text → Result PolicyErrorCode (Unit {0})
unfolding validate_action_pattern
validate_action_patterns [] = ok tt
validate_action_patterns (pattern ∷ patterns) = do
  validate_action_pattern pattern
  validate_action_patterns patterns
