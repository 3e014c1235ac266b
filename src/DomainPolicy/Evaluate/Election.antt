-- ===== src/DomainPolicy/Evaluate/Election.antt =====
-- What the evaluation of the rules promises, whatever the order in which it meets them
-- (rust/crates/domain-policy/src/matcher.rs, `evaluate_policy`).
use mathlib.Core.List.Perm
use mathlib.Core.List.{Perm}
use shittim.Base.{
  List, [], ◌∷◌, Option, none, some, Result, ok, err, ◌≡◌, ◌≢◌, refl, and_then-eq-ok, ok-injective,
  try_map, ◌>>=◌, subst, ap, sym,
}
use shittim.Contracts.PolicyTypes.{PolicyRule}
use shittim.DomainPolicy.Error.{PolicyErrorCode}
use shittim.DomainPolicy.Uri.{NormalizedUri, normalize_uri_value}
use shittim.DomainPolicy.RateLimit.{RateLimitConsume, consumed, RateLimitPort}
use shittim.DomainPolicy.Context.{
  Platform, PolicyEvaluationContext, PolicyEvaluationResult, clear, error,
}
use shittim.DomainPolicy.Specificity.{MatchOutcome, matched, not_matched}
use shittim.DomainPolicy.Rules.{validate_context}
use shittim.DomainPolicy.Matcher.{Candidate, RateLimitCandidate, match_rule}
use shittim.DomainPolicy.Evaluate.{
  consume_request, build_default_allow, build_rule_result, collect_candidates, after_consume,
  try_candidate, select_winner, sort_candidates, rank_candidates, evaluate_policy_inner,
  evaluate_policy, close_result, evaluate_under,
}
use shittim.DomainPolicy.Evaluate.Ranking.{
  IsTop, IsRanked, sort_candidates-IsRanked, sort_candidates-perm,
}

module _ (platform : Platform) (context : PolicyEvaluationContext) {S : Type 0}
    (port : RateLimitPort S) where
  -- An election among the candidates of a pool, which no order of the pool decides: a candidate
  -- that ranks no lower than the rest wins when it has no rate limit or the authority lets it
  -- consume, and is out when the authority says that the limit is exceeded.
  pub data Elects : List Candidate → S → Option Candidate → S → Type 0 where
    none_left : {pool : List Candidate} {s : S} → Perm pool [] → Elects pool s none s
    unlimited :
        {pool rest : List Candidate} {candidate : Candidate} {s : S}
        → Perm pool (candidate ∷ rest)
        → IsTop candidate rest
        → candidate.rate_limit ≡ none
        → Elects pool s (some candidate) s
    consumes :
        {pool rest : List Candidate} {candidate : Candidate} {limit : RateLimitCandidate} {s t : S}
        → Perm pool (candidate ∷ rest)
        → IsTop candidate rest
        → candidate.rate_limit ≡ some limit
        → port.check_and_consume (consume_request context candidate limit) s
          ≡ (ok RateLimitConsume.consumed, t)
        → Elects pool s (some candidate) t
    passes :
        {pool rest : List Candidate} {candidate : Candidate} {limit : RateLimitCandidate}
        {winner : Option Candidate} {s t u : S}
        → Perm pool (candidate ∷ rest)
        → IsTop candidate rest
        → candidate.rate_limit ≡ some limit
        → port.check_and_consume (consume_request context candidate limit) s
          ≡ (ok RateLimitConsume.exceeded, t)
        → Elects rest t winner u
        → Elects pool s winner u

  -- The pool: the candidates of the rules that match, each judged in the state `s`.
  pub data Matches (resources : List NormalizedUri) (s : S)
      : List PolicyRule → List Candidate → Type 0 where
    no_rules : Matches resources s [] []
    matches :
        {rule : PolicyRule} {rules : List PolicyRule} {candidate : Candidate}
        {pool : List Candidate}
        → match_rule platform (λ request. port.preview request s) rule context resources
          ≡ ok (matched candidate)
        → Matches resources s rules pool
        → Matches resources s (rule ∷ rules) (candidate ∷ pool)
    skips :
        {rule : PolicyRule} {rules : List PolicyRule} {pool : List Candidate}
        → match_rule platform (λ request. port.preview request s) rule context resources
          ≡ ok not_matched
        → Matches resources s rules pool
        → Matches resources s (rule ∷ rules) pool

  -- What the winner of an election makes the result.
  abbrev pub outcome : Option Candidate → Result PolicyErrorCode PolicyEvaluationResult
  outcome none = build_default_allow platform context
  outcome (some candidate) = build_rule_result platform context candidate.rule

  Elects-perm :
      {pool others : List Candidate} {s t : S} {winner : Option Candidate}
      → Perm pool others
      → Elects others s winner t
      → Elects pool s winner t
  Elects-perm p (Elects.none_left q) = Elects.none_left (Perm.trans p q)
  Elects-perm p (Elects.unlimited q top free) = Elects.unlimited (Perm.trans p q) top free
  Elects-perm p (Elects.consumes q top limited answer) =
      Elects.consumes (Perm.trans p q) top limited answer
  Elects-perm p (Elects.passes q top limited answer rest) =
      Elects.passes (Perm.trans p q) top limited answer rest

  -- A winner with what its election shows.
  abbrev Elected : List Candidate → S → S → PolicyEvaluationResult → Type 0
  Elected pool s t result =
      (winner : Option Candidate) × Elects pool s winner t × (outcome winner ≡ ok result)

  after_consume-Elected :
      (candidate : Candidate) (limit : RateLimitCandidate) (pool : List Candidate) (s t u : S)
      (answer : Result PolicyErrorCode RateLimitConsume) (result : PolicyEvaluationResult)
      → IsTop candidate pool
      → candidate.rate_limit ≡ some limit
      → port.check_and_consume (consume_request context candidate limit) s ≡ (answer, u)
      → (select_winner platform context port pool u ≡ (ok result, t) → Elected pool u t result)
      → after_consume platform context port candidate.rule answer u
          (select_winner platform context port pool)
        ≡ (ok result, t)
      → Elected (candidate ∷ pool) s t result
  unfolding after_consume
  after_consume-Elected candidate limit pool s t u (err failure) result top e asked rest h = cc
  after_consume-Elected candidate limit pool s t u (ok consumed) result top e asked rest h = (
    some candidate,
    subst (Elects (candidate ∷ pool) s (some candidate)) (ap (λ pair. pair.1) h)
        (Elects.consumes Perm.rfl top e asked),
    ap (λ pair. pair.0) h,
  )
  after_consume-Elected candidate limit pool s t u (ok RateLimitConsume.exceeded) result top e asked
        rest h =
      let (winner, elects, wins) = rest h in
      (winner, Elects.passes Perm.rfl top e asked elects, wins)

  try_candidate-Elected :
      (candidate : Candidate) (pool : List Candidate) (limit : Option RateLimitCandidate) (s t : S)
      (result : PolicyEvaluationResult)
      → IsTop candidate pool
      → candidate.rate_limit ≡ limit
      → ((u : S)
          → select_winner platform context port pool u ≡ (ok result, t)
          → Elected pool u t result)
      → try_candidate platform context port candidate limit s
          (select_winner platform context port pool)
        ≡ (ok result, t)
      → Elected (candidate ∷ pool) s t result
  unfolding try_candidate
  try_candidate-Elected candidate pool none s t result top e rest h = (
    some candidate,
    subst (Elects (candidate ∷ pool) s (some candidate)) (ap (λ pair. pair.1) h)
        (Elects.unlimited Perm.rfl top e),
    ap (λ pair. pair.0) h,
  )
  try_candidate-Elected candidate pool (some limit) s t result top e rest h =
      let answer = port.check_and_consume (consume_request context candidate limit) s in
      after_consume-Elected candidate limit pool s t answer.1 answer.0 result top e refl
        (rest answer.1) h

  select_winner-Elected :
      (pool : List Candidate) (s t : S) (result : PolicyEvaluationResult)
      → IsRanked pool
      → select_winner platform context port pool s ≡ (ok result, t)
      → Elected pool s t result
  unfolding select_winner
  select_winner-Elected [] s t result IsRanked.nothing h = (
    none,
    subst (Elects [] s none) (ap (λ pair. pair.1) h) (Elects.none_left Perm.rfl),
    ap (λ pair. pair.0) h,
  )
  select_winner-Elected (candidate ∷ pool) s t result (IsRanked.first top ranked) h =
      try_candidate-Elected candidate pool candidate.rate_limit s t result top refl
        (λ u. select_winner-Elected pool u t result ranked) h

  collect_candidates-Matches :
      (rules : List PolicyRule) (resources : List NormalizedUri) (s : S) (pool : List Candidate)
      → collect_candidates platform context port rules resources s ≡ ok pool
      → Matches resources s rules pool
  unfolding collect_candidates
  collect_candidates-Matches [] resources s pool h =
      subst (Matches resources s []) (ok-injective h) Matches.no_rules
  collect_candidates-Matches (rule ∷ rules) resources s pool h =
      let (outcome, judged, h1) = and_then-eq-ok _ _ h in
      let (rest, collected, h2) = and_then-eq-ok _ _ h1 in
      go outcome rest judged (collect_candidates-Matches rules resources s rest collected) h2
    where
      go :
          (outcome : MatchOutcome Candidate) (rest : List Candidate)
          → match_rule platform (λ request. port.preview request s) rule context resources
            ≡ ok outcome
          → Matches resources s rules rest
          → Path
              (Result PolicyErrorCode (List Candidate))
              (elim outcome [ matched candidate ↦ ok (candidate ∷ rest) | not_matched ↦ ok rest ])
              (ok pool)
          → Matches resources s (rule ∷ rules) pool
      go not_matched rest judged m e =
          subst (Matches resources s (rule ∷ rules)) (ok-injective e) (Matches.skips judged m)
      go (matched candidate) rest judged m e =
          subst (Matches resources s (rule ∷ rules)) (ok-injective e) (Matches.matches judged m)

  -- What the loop starts from.
  rank_candidates-Matches :
      (rules : List PolicyRule) (s : S) (candidates : List Candidate)
      → rank_candidates platform context port rules s ≡ ok candidates
      → (resources : List NormalizedUri) × (pool : List Candidate) × (try_map
            (normalize_uri_value platform.url_parse)
            context.resource_refs
          ≡ ok resources)
        × Matches resources s rules pool
        × (sort_candidates pool ≡ candidates)
  unfolding rank_candidates
  rank_candidates-Matches rules s candidates h =
      let (valid, validated, h1) =
        and_then-eq-ok (validate_context context)
          (λ v. do
            resources ← try_map (normalize_uri_value platform.url_parse) context.resource_refs
            pool ← collect_candidates platform context port rules resources s
            ok (sort_candidates pool))
          h in
      let (resources, normalized, h2) =
        and_then-eq-ok (try_map (normalize_uri_value platform.url_parse) context.resource_refs)
          (λ resources. do
            pool ← collect_candidates platform context port rules resources s
            ok (sort_candidates pool))
          h1 in
      let (pool, collected, h3) =
        and_then-eq-ok (collect_candidates platform context port rules resources s)
          (λ pool. ok (sort_candidates pool)) h2 in
      (
        resources,
        pool,
        normalized,
        collect_candidates-Matches rules resources s pool collected,
        ok-injective h3,
      )

  evaluate_policy_inner-ok :
      (rules : List PolicyRule) (s t : S) (result : PolicyEvaluationResult)
      → evaluate_policy_inner platform context port rules s ≡ (ok result, t)
      → (candidates : List Candidate) × (rank_candidates platform context port rules s
          ≡ ok candidates)
        × (select_winner platform context port candidates s ≡ (ok result, t))
  unfolding evaluate_policy_inner
  evaluate_policy_inner-ok rules s t result h =
      go (rank_candidates platform context port rules s) refl
    where
      go :
          (ranked : Result PolicyErrorCode (List Candidate))
          → rank_candidates platform context port rules s ≡ ranked
          → (candidates : List Candidate) × (rank_candidates platform context port rules s
              ≡ ok candidates)
            × (select_winner platform context port candidates s ≡ (ok result, t))
      go (err failure) e = cc (rw (evaluate_policy_inner, e) at h)
      go (ok candidates) e = (candidates, e, rw (evaluate_policy_inner, e) at h)

  evaluate_policy-clear :
      (rules : List PolicyRule) (s t : S) (result : PolicyEvaluationResult)
      → context.kernel_invariant ≡ clear
      → evaluate_policy platform context port rules s ≡ (result, t)
      → ((failure : PolicyErrorCode) → result ≢ error failure)
      → evaluate_policy_inner platform context port rules s ≡ (ok result, t)
  unfolding evaluate_policy
  evaluate_policy-clear rules s t result clears h fine =
      let inner = evaluate_policy_inner platform context port rules s in
      let closed : (close_result platform context port inner.0, inner.1) ≡ (result, t) =
        subst (λ k. evaluate_under platform context port k rules s ≡ (result, t)) clears h in
      λ i. (go inner.0 (ap (λ pair. pair.0) closed) i, (closed i).1)
    where
      go :
          (r : Result PolicyErrorCode PolicyEvaluationResult)
          → close_result platform context port r ≡ result
          → r ≡ ok result
      go (ok other) e = ap ok e
      go (err failure) e = absurd (fine failure (sym e))

  -- An evaluation that no kernel invariant blocks and that does not end in an error is an election
  -- among exactly the candidates of the rules that match the context's normalised resources: its
  -- result is that of the elected rule, or the default allow when nobody is elected, and the
  -- authority's state is that which the election leaves.
  pub evaluate_policy-Elects :
      (rules : List PolicyRule) (s t : S) (result : PolicyEvaluationResult)
      → context.kernel_invariant ≡ clear
      → evaluate_policy platform context port rules s ≡ (result, t)
      → ((failure : PolicyErrorCode) → result ≢ error failure)
      → (resources : List NormalizedUri) × (pool : List Candidate) × (winner : Option Candidate)
        × (try_map (normalize_uri_value platform.url_parse) context.resource_refs ≡ ok resources)
        × Matches resources s rules pool
        × Elects pool s winner t
        × (outcome winner ≡ ok result)
  evaluate_policy-Elects rules s t result clears h fine =
      let (candidates, ranked, selected) =
        evaluate_policy_inner-ok rules s t result
          (evaluate_policy-clear rules s t result clears h fine) in
      let (resources, pool, normalized, judged, sorted) =
        rank_candidates-Matches rules s candidates ranked in
      let (winner, elects, wins) =
        select_winner-Elected candidates s t result
          (subst IsRanked sorted (sort_candidates-IsRanked pool)) selected in
      (
        resources,
        pool,
        winner,
        normalized,
        judged,
        Elects-perm (subst (Perm pool) sorted (sort_candidates-perm pool)) elects,
        wins,
      )
