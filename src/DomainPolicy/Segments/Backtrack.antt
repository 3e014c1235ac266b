-- ===== src/DomainPolicy/Segments/Backtrack.antt =====
-- `match_segments` computes what a backtracking matcher computes
-- (rust/crates/domain-policy/src/uri.rs).
use shittim.Base.{
  suc, Bool, true, false, ◌&&◌, ◌||◌, List, [], ◌∷◌, ◌≡◌, refl, arith, if◌then◌else◌, length,
  is_empty, inl, inr, Bool-cases, Text, text_eq, ◌∙◌, map,
}
use shittim.DomainPolicy.Segments.{
  single_glob, multi_glob, flag_at, mark_from, advance, next_flags, match_from, match_segments,
}

-- A matcher that tries every suffix for `**`.
unfoldable pub some_suffix : (List Text → Bool) → List Text → Bool
some_suffix rest [] = rest []
some_suffix rest (segment ∷ value) = rest (segment ∷ value) || some_suffix rest value

unfoldable pub one_segment : (Text → Bool) → (List Text → Bool) → List Text → Bool
one_segment accepts rest [] = false
one_segment accepts rest (segment ∷ value) = accepts segment && rest value

unfoldable pub one_token : Text → (List Text → Bool) → List Text → Bool
unfolding some_suffix one_segment
one_token token rest =
    if text_eq token multi_glob
    then some_suffix rest
    else if text_eq token single_glob
    then one_segment (λ segment. true) rest
    else one_segment (λ segment. text_eq token segment) rest

unfoldable pub backtrack : List Text → List Text → Bool
backtrack [] value = is_empty value
backtrack (token ∷ pattern) value = one_token token (backtrack pattern) value

-- From some flagged suffix of the value the rest matches.
from_some : List Bool → (List Text → Bool) → List Text → Bool
from_some [] rest value = false
from_some (flag ∷ flags) rest [] = flag && rest []
from_some (flag ∷ flags) rest (segment ∷ value) =
    (flag && rest (segment ∷ value)) || from_some flags rest value

from_some-mark :
    (seen : Bool) (flags : List Bool) (rest : List Text → Bool) (value : List Text)
    → length flags ≡ suc (length value)
    → from_some (mark_from seen flags) rest value
      ≡ ((seen && some_suffix rest value) || from_some flags (some_suffix rest) value)
unfolding from_some mark_from some_suffix
from_some-mark seen [] rest value h = absurd (omega arith)
from_some-mark seen (flag ∷ flags) rest [] h = ground arith
from_some-mark seen (flag ∷ flags) rest (segment ∷ value) h =
    ground (arith, from_some-mark (seen || flag) flags rest value (omega arith))

from_some-advance :
    (accepts : Text → Bool) (first : Bool) (flags : List Bool) (rest : List Text → Bool)
    (value : List Text)
    → length flags ≡ suc (length value)
    → from_some (first ∷ advance accepts value flags) rest value
      ≡ ((first && rest value) || from_some flags (one_segment accepts rest) value)
unfolding from_some advance one_segment
from_some-advance accepts first [] rest value h = absurd (omega arith)
from_some-advance accepts first (flag ∷ flags) rest [] h = ground arith
from_some-advance accepts first (flag ∷ flags) rest (segment ∷ value) h =
    ground
      (arith, from_some-advance accepts (flag && accepts segment) flags rest value (omega arith))

from_some-is_empty :
    (flags : List Bool) (value : List Text)
    → length flags ≡ suc (length value)
    → flag_at flags (length value) ≡ from_some flags (λ (rest : List Text). is_empty rest) value
unfolding from_some flag_at
from_some-is_empty [] value h = absurd (omega arith)
from_some-is_empty (flag ∷ flags) [] h = ground arith
from_some-is_empty (flag ∷ flags) (segment ∷ value) h =
    ground (arith, from_some-is_empty flags value (omega arith))

length-mark_from : (seen : Bool) (flags : List Bool) → length (mark_from seen flags) ≡ length flags
unfolding mark_from
length-mark_from seen [] = refl
length-mark_from seen (flag ∷ flags) = omega (arith, length-mark_from (seen || flag) flags)

length-advance :
    (accepts : Text → Bool) (value : List Text) (flags : List Bool)
    → length flags ≡ suc (length value)
    → length (advance accepts value flags) ≡ length value
unfolding advance
length-advance accepts [] flags h = refl
length-advance accepts (segment ∷ value) [] h = absurd (omega arith)
length-advance accepts (segment ∷ value) (flag ∷ flags) h =
    omega (arith, length-advance accepts value flags (omega arith))

length-next_flags :
    (token : Text) (value : List Text) (flags : List Bool)
    → length flags ≡ suc (length value)
    → length (next_flags token value flags) ≡ suc (length value)
unfolding next_flags
length-next_flags token value flags h = ground (
  arith,
  length-mark_from false flags,
  length-advance (λ segment. true) value flags h,
  length-advance (λ segment. text_eq token segment) value flags h,
)

from_some-next_flags :
    (token : Text) (flags : List Bool) (rest : List Text → Bool) (value : List Text)
    → length flags ≡ suc (length value)
    → from_some (next_flags token value flags) rest value
      ≡ from_some flags (one_token token rest) value
unfolding next_flags one_token
from_some-next_flags token flags rest value h = elim (Bool-cases (text_eq token multi_glob)) [
  | inl multi ↦ rw multi (from_some-mark false flags rest value h)
  | inr other ↦ elim (Bool-cases (text_eq token single_glob)) [
    | inl one ↦ rw (other, one) (from_some-advance (λ segment. true) false flags rest value h)
    | inr exact ↦
        rw (other, exact)
          (from_some-advance (λ segment. text_eq token segment) false flags rest value h)
  ]
]

match_from-eq-from_some :
    (pattern value : List Text) (flags : List Bool)
    → length flags ≡ suc (length value)
    → match_from pattern value flags ≡ from_some flags (backtrack pattern) value
unfolding match_from backtrack
match_from-eq-from_some [] value flags h = from_some-is_empty flags value h
match_from-eq-from_some (token ∷ pattern) value flags h =
    match_from-eq-from_some pattern value (next_flags token value flags)
      (length-next_flags token value flags h)
    ∙ from_some-next_flags token flags (backtrack pattern) value h

from_some-none :
    (rest : List Text → Bool) (value more : List Text)
    → from_some (map (λ segment. false) value) rest more ≡ false
unfolding from_some
from_some-none rest [] more = refl
from_some-none rest (segment ∷ value) [] = refl
from_some-none rest (segment ∷ value) (other ∷ more) = from_some-none rest value more

length-unmarked : (value : List Text) → length (map (λ segment. false) value) ≡ length value
length-unmarked [] = refl
length-unmarked (segment ∷ value) = omega (arith, length-unmarked value)

from_some-start :
    (rest : List Text → Bool) (value : List Text)
    → from_some (true ∷ map (λ segment. false) value) rest value ≡ rest value
unfolding from_some
from_some-start rest [] = refl
from_some-start rest (segment ∷ value) = ground (arith, from_some-none rest (segment ∷ value) value)

pub match_segments-eq-backtrack :
    (pattern value : List Text) → match_segments pattern value ≡ backtrack pattern value
unfolding match_segments
match_segments-eq-backtrack pattern value =
    match_from-eq-from_some pattern value _ (omega (arith, length-unmarked value))
    ∙ from_some-start (backtrack pattern) value
