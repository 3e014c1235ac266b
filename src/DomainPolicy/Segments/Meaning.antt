-- ===== src/DomainPolicy/Segments/Meaning.antt =====
-- What `match_segments` accepts (rust/crates/domain-policy/src/uri.rs).
use shittim.Base.{
  Bool, true, false, List, [], ◌∷◌, ◌≡◌, ◌≢◌, ◌⊎◌, ◌↔◌, refl, arith, inl, inr, Bool-cases, Text,
  text_eq, text_eq_iff,
}
use shittim.DomainPolicy.Segments.{
  single_glob, multi_glob, match_segments, SegmentsMatch, ended, skipped, absorbed, single, literal,
}
use shittim.DomainPolicy.Segments.Backtrack.{
  some_suffix, one_segment, one_token, backtrack, match_segments-eq-backtrack,
}

text_dec : (s t : Text) → (s ≡ t) ⊎ (s ≢ t)
text_dec s t = elim (Bool-cases (text_eq s t)) [
  | inl equal ↦ inl ((text_eq_iff s t).0 equal)
  | inr other ↦ inr (λ e. cc ((text_eq_iff s t).1 e))
]

module _ (token : Text) (rest : List Text → Bool) where
  multi_token : token ≡ multi_glob → one_token token rest ≡ some_suffix rest
  unfolding one_token text_eq
  multi_token e = rw e

  single_token : token ≡ single_glob → one_token token rest ≡ one_segment (λ segment. true) rest
  unfolding one_token text_eq
  single_token e = rw e

  literal_token :
      token ≢ multi_glob
      → token ≢ single_glob
      → one_token token rest ≡ one_segment (λ segment. text_eq token segment) rest
  unfolding one_token
  literal_token n k =
      let not_multi : text_eq token multi_glob ≡ false =
        ground (arith, text_eq_iff token multi_glob) in
      let not_single : text_eq token single_glob ≡ false =
        ground (arith, text_eq_iff token single_glob) in
      rw (not_multi, not_single)

module _ (token : Text) (pattern : List Text)
    (rest_sound : (value : List Text)
      → backtrack pattern value ≡ true
      → SegmentsMatch pattern value) where
  suffix-SegmentsMatch :
      (value : List Text)
      → token ≡ multi_glob
      → some_suffix (backtrack pattern) value ≡ true
      → SegmentsMatch (token ∷ pattern) value
  unfolding some_suffix
  suffix-SegmentsMatch [] e h = skipped token pattern [] e (rest_sound [] h)
  suffix-SegmentsMatch (segment ∷ value) e h =
      elim (Bool-cases (backtrack pattern (segment ∷ value))) [
        | inl here ↦ skipped token pattern (segment ∷ value) e (rest_sound (segment ∷ value) here)
        | inr later ↦
            absorbed token pattern segment value e (suffix-SegmentsMatch value e (ground arith))
      ]

  single-SegmentsMatch :
      (value : List Text)
      → token ≡ single_glob
      → one_segment (λ segment. true) (backtrack pattern) value ≡ true
      → SegmentsMatch (token ∷ pattern) value
  unfolding one_segment
  single-SegmentsMatch [] e h = absurd (ground arith)
  single-SegmentsMatch (segment ∷ value) e h =
      single token pattern segment value e (rest_sound value h)

  literal-SegmentsMatch :
      (value : List Text)
      → token ≢ multi_glob
      → token ≢ single_glob
      → one_segment (λ segment. text_eq token segment) (backtrack pattern) value ≡ true
      → SegmentsMatch (token ∷ pattern) value
  unfolding one_segment
  literal-SegmentsMatch [] n k h = absurd (ground arith)
  literal-SegmentsMatch (segment ∷ value) n k h =
      literal token pattern segment value n k (ground (arith, text_eq_iff token segment))
        (rest_sound value (ground arith))

  token-SegmentsMatch :
      (value : List Text)
      → one_token token (backtrack pattern) value ≡ true
      → SegmentsMatch (token ∷ pattern) value
  token-SegmentsMatch value h = elim (text_dec token multi_glob) [
    | inl e ↦ suffix-SegmentsMatch value e (rw (multi_token token (backtrack pattern) e) at h)
    | inr n ↦ elim (text_dec token single_glob) [
      | inl e ↦ single-SegmentsMatch value e (rw (single_token token (backtrack pattern) e) at h)
      | inr k ↦
          literal-SegmentsMatch value n k (rw (literal_token token (backtrack pattern) n k) at h)
    ]
  ]

backtrack-SegmentsMatch :
    (pattern value : List Text) → backtrack pattern value ≡ true → SegmentsMatch pattern value
unfolding backtrack
backtrack-SegmentsMatch [] [] h = ended
backtrack-SegmentsMatch [] (segment ∷ value) h = absurd (ground arith)
backtrack-SegmentsMatch (token ∷ pattern) value h =
    token-SegmentsMatch token pattern (backtrack-SegmentsMatch pattern) value h

some_suffix-here :
    (rest : List Text → Bool) (value : List Text)
    → rest value ≡ true
    → some_suffix rest value ≡ true
unfolding some_suffix
some_suffix-here rest [] h = h
some_suffix-here rest (segment ∷ value) h = ground arith

SegmentsMatch-backtrack :
    (pattern value : List Text) → SegmentsMatch pattern value → backtrack pattern value ≡ true
unfolding backtrack some_suffix one_segment
SegmentsMatch-backtrack _ _ ended = refl
SegmentsMatch-backtrack _ _ (skipped token pattern value e m) =
    rw (multi_token token (backtrack pattern) e)
      (some_suffix-here (backtrack pattern) value (SegmentsMatch-backtrack pattern value m))
SegmentsMatch-backtrack _ _ (absorbed token pattern segment value e m) =
    let later = SegmentsMatch-backtrack (token ∷ pattern) value m in
    let suffix = multi_token token (backtrack pattern) e in
    rw suffix (ground (arith, rw suffix at later))
SegmentsMatch-backtrack _ _ (single token pattern segment value e m) =
    rw (single_token token (backtrack pattern) e) (SegmentsMatch-backtrack pattern value m)
SegmentsMatch-backtrack _ _ (literal token pattern segment value n k e m) =
    rw (literal_token token (backtrack pattern) n k)
      (ground (arith, (text_eq_iff token segment).1 e, SegmentsMatch-backtrack pattern value m))

-- The loop over flags accepts exactly what the pattern means: `**` stands for any number of
-- segments, `*` for one, and every other token for itself.
pub match_segments_iff :
    (pattern value : List Text)
    → (match_segments pattern value ≡ true) ↔ SegmentsMatch pattern value
match_segments_iff pattern value =
    rw (match_segments-eq-backtrack pattern value)
      (backtrack-SegmentsMatch pattern value, SegmentsMatch-backtrack pattern value)
