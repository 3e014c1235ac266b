-- ===== src/DomainPolicy/Uri/Best/Ranking.antt =====
-- What the search for the best pattern finds (rust/crates/domain-policy/src/uri.rs).
use shittim.Base.{
  true, Option, none, some, List, [], ◌∷◌, ◌≡◌, ◌⊎◌, ◌↔◌, inl, inr, refl, ◌∙◌, arith, Bool-cases,
  All, Some, ok, and_then-eq-ok, Text, is_present, subst,
}
use shittim.DomainPolicy.Uri.{Url, NormalizedUri, parse_uri, uri_pattern_matches}
use shittim.DomainPolicy.Uri.Best.{
  UriPatternScore, sort_texts, dedup, score_of, is_better, improve, best_from, best_uri_pattern,
  any_uri_pattern,
}
use shittim.DomainPolicy.Uri.Best.Sorting.{All-dedup_sort, Some-dedup_sort}
use shittim.DomainPolicy.Uri.Best.Order.{
  Dominates, Dominates-trans, Dominates-refl, is_better-Dominates,
}

module _ (value : NormalizedUri) where
  -- One round keeps the best score or improves it to the score of the pattern.
  improve-Dominates :
      (parsed : NormalizedUri) (best : Option UriPatternScore)
      → Dominates best (improve value parsed best)
        × (uri_pattern_matches parsed value ≡ true
            → Dominates (some (score_of parsed)) (improve value parsed best))
  unfolding improve
  improve-Dominates parsed best = elim (Bool-cases (uri_pattern_matches parsed value)) [
    | inr other ↦ rw other (Dominates-refl best, λ e. cc)
    | inl matching ↦ elim (Bool-cases (is_better (score_of parsed) best)) [
      | inl better ↦
          rw (matching, better)
            (
              (is_better-Dominates (score_of parsed) best).0 better,
              λ e. Dominates-refl (some (score_of parsed)),
            )
      | inr worse ↦
          rw (matching, worse)
            (Dominates-refl best, λ e. (is_better-Dominates (score_of parsed) best).1 worse)
    ]
  ]

  improve-cases :
      (parsed : NormalizedUri) (best : Option UriPatternScore)
      → (improve value parsed best ≡ best)
        ⊎ ((uri_pattern_matches parsed value ≡ true)
            × (improve value parsed best ≡ some (score_of parsed)))
  unfolding improve
  improve-cases parsed best = elim (Bool-cases (uri_pattern_matches parsed value)) [
    | inr other ↦ inl (rw other)
    | inl matching ↦ elim (Bool-cases (is_better (score_of parsed) best)) [
      | inl better ↦ inr (matching, rw (matching, better))
      | inr worse ↦ inl (rw (matching, worse))
    ]
  ]

module _ (url_parse : Text → Option Url) (value : NormalizedUri) where
  -- A legal pattern.
  abbrev pub IsLegalPattern : Text → Type 0
  IsLegalPattern pattern = (uri : NormalizedUri) × (parse_uri url_parse pattern true ≡ ok uri)

  -- The pattern, if it matches, scores at most the best score.
  abbrev pub IsAtMost : Option UriPatternScore → Text → Type 0
  IsAtMost best pattern =
      (uri : NormalizedUri)
      → parse_uri url_parse pattern true ≡ ok uri
      → uri_pattern_matches uri value ≡ true
      → Dominates (some (score_of uri)) best

  -- The score is that of a pattern that matches.
  abbrev pub IsScoreOf : Option UriPatternScore → Text → Type 0
  IsScoreOf best pattern =
      (uri : NormalizedUri) × (parse_uri url_parse pattern true ≡ ok uri)
      × (uri_pattern_matches uri value ≡ true)
      × (best ≡ some (score_of uri))

  best_from-legal :
      (patterns : List Text) (start best : Option UriPatternScore)
      → best_from url_parse patterns value start ≡ ok best
      → All IsLegalPattern patterns × Dominates start best × All (IsAtMost best) patterns
  unfolding best_from
  best_from-legal [] start best h =
      let same : start ≡ best = ground arith in
      (tt, subst (Dominates start) same (Dominates-refl start), tt)
  best_from-legal (pattern ∷ patterns) start best h =
      let (parsed, first, h1) = and_then-eq-ok (parse_uri url_parse pattern true) _ h in
      let (legal, higher, at_most) =
        best_from-legal patterns (improve value parsed start) best h1 in
      let (grown, beaten) = improve-Dominates value parsed start in
      (
        ((parsed, first), legal),
        Dominates-trans start (improve value parsed start) best grown higher,
        (
          λ uri again matching.
              let same : parsed ≡ uri = cc in
              Dominates-trans (some (score_of uri)) (improve value parsed start) best
                (subst (λ u. Dominates (some (score_of u)) (improve value parsed start)) same
                  (beaten (rw same matching)))
                higher,
          at_most,
        ),
      )

  best_from-total :
      (patterns : List Text) (start : Option UriPatternScore)
      → All IsLegalPattern patterns
      → (best : Option UriPatternScore) × (best_from url_parse patterns value start ≡ ok best)
  unfolding best_from
  best_from-total [] start a = (start, refl)
  best_from-total (pattern ∷ patterns) start a =
      let (best, h) = best_from-total patterns (improve value a.0.0 start) a.1 in
      (best, rw (a.0.1) h)

  best_from-origin :
      (patterns : List Text) (start best : Option UriPatternScore)
      → best_from url_parse patterns value start ≡ ok best
      → (best ≡ start) ⊎ Some (IsScoreOf best) patterns
  unfolding best_from
  best_from-origin [] start best h = inl (ground arith)
  best_from-origin (pattern ∷ patterns) start best h =
      let (parsed, first, h1) = and_then-eq-ok (parse_uri url_parse pattern true) _ h in
      elim (best_from-origin patterns (improve value parsed start) best h1) [
        | inr later ↦ inr (inr later)
        | inl same ↦ elim (improve-cases value parsed start) [
          | inl kept ↦ inl (same ∙ kept)
          | inr improved ↦ inr (inl (parsed, first, improved.0, same ∙ improved.1))
        ]
      ]

  -- What the search finds in a list of patterns.
  pub record IsBestOf (patterns : List Text) (best : Option UriPatternScore) : Type 0 where
    pub legal : All IsLegalPattern patterns
    pub at_most : All (IsAtMost best) patterns
    pub origin : (best ≡ none) ⊎ Some (IsScoreOf best) patterns

  -- The search gives a result exactly when every pattern is legal, and then the best score: that of
  -- a pattern that matches, unless none does, and no pattern that matches scores higher.
  pub best_uri_pattern_lem :
      (patterns : List Text)
      → ((best : Option UriPatternScore)
          → best_uri_pattern url_parse patterns value ≡ ok best
          → IsBestOf patterns best)
        × (All IsLegalPattern patterns
            → (best : Option UriPatternScore) × (best_uri_pattern url_parse patterns value
                ≡ ok best))
  unfolding best_uri_pattern
  best_uri_pattern_lem patterns = (
    λ best h.
        let (legal, _, at_most) = best_from-legal (dedup (sort_texts patterns)) none best h in
        record {
          legal = (All-dedup_sort IsLegalPattern patterns).0 legal;
          at_most = (All-dedup_sort (IsAtMost best) patterns).0 at_most;
          origin = elim (best_from-origin (dedup (sort_texts patterns)) none best h) [
            | inl nothing ↦ inl nothing
            | inr found ↦ inr (Some-dedup_sort (IsScoreOf best) patterns found)
          ];
        },
    λ a.
        best_from-total (dedup (sort_texts patterns)) none
          ((All-dedup_sort IsLegalPattern patterns).1 a),
  )

  -- The pattern is legal and matches.
  abbrev pub IsMatching : Text → Type 0
  IsMatching pattern =
      (uri : NormalizedUri) × (parse_uri url_parse pattern true ≡ ok uri)
      × (uri_pattern_matches uri value ≡ true)

  found-IsMatching :
      (best : Option UriPatternScore) (patterns : List Text)
      → Some (IsScoreOf best) patterns
      → Some IsMatching patterns × (is_present best ≡ true)
  found-IsMatching best [] a = elim a [ ]
  found-IsMatching best (pattern ∷ patterns) (inl a) = (inl (a.0, a.1, a.2), rw (a.3))
  found-IsMatching best (pattern ∷ patterns) (inr a) =
      let (some_later, present) = found-IsMatching best patterns a in (inr some_later, present)

  matching-is_present :
      (best : Option UriPatternScore) (patterns : List Text)
      → All (IsAtMost best) patterns
      → Some IsMatching patterns
      → is_present best ≡ true
  matching-is_present best [] a m = elim m [ ]
  matching-is_present none (pattern ∷ patterns) a (inl m) = absurd (a.0 m.0 m.1 m.2)
  matching-is_present (some best) (pattern ∷ patterns) a (inl m) = refl
  matching-is_present best (pattern ∷ patterns) a (inr m) = matching-is_present best patterns a.1 m

  -- Some pattern is reported to match exactly when all patterns are legal and one of them matches;
  -- one illegal pattern lets no match be reported.
  pub any_uri_pattern_iff :
      (patterns : List Text)
      → (any_uri_pattern url_parse patterns value ≡ ok true)
        ↔ (All IsLegalPattern patterns × Some IsMatching patterns)
  unfolding any_uri_pattern
  any_uri_pattern_iff patterns = (
    λ h.
        let (best, found, h1) = and_then-eq-ok (best_uri_pattern url_parse patterns value) _ h in
        let b = (best_uri_pattern_lem patterns).0 best found in
        (
          b.legal,
          elim (b.origin) [
            | inl nothing ↦ absurd (ground arith)
            | inr some_pattern ↦ (found-IsMatching best patterns some_pattern).0
          ],
        ),
    λ a.
        let (best, found) = (best_uri_pattern_lem patterns).1 a.0 in
        let b = (best_uri_pattern_lem patterns).0 best found in
        rw (found, matching-is_present best patterns b.at_most a.1),
  )
