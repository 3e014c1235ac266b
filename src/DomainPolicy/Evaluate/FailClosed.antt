-- ===== src/DomainPolicy/Evaluate/FailClosed.antt =====
-- The evaluation of the rules when it must not allow anything
-- (rust/crates/domain-policy/src/matcher.rs, `evaluate_policy`).
use shittim.Base.{
  List, [], ◌∷◌, Result, ok, err, ◌≡◌, ◌≢◌, ◌⊎◌, inl, inr, refl, Some, try_map, and_then, ap,
}
use shittim.Contracts.PolicyTypes.{PolicyRule}
use shittim.DomainPolicy.Error.{PolicyErrorCode}
use shittim.DomainPolicy.Uri.{NormalizedUri, normalize_uri_value}
use shittim.DomainPolicy.RateLimit.{RateLimitPort}
use shittim.DomainPolicy.Context.{
  Platform, PolicyEvaluationContext, KernelInvariantState, KernelInvariantBlock,
  blocked_by_kernel_invariant, clear, error,
}
use shittim.DomainPolicy.Rules.{validate_context}
use shittim.DomainPolicy.Matcher.{match_rule}
use shittim.DomainPolicy.Evaluate.{
  collect_candidates, rank_candidates, evaluate_policy_inner, evaluate_policy, evaluate_under,
  close_result,
}

module _ (platform : Platform) (context : PolicyEvaluationContext) {S : Type 0}
    (port : RateLimitPort S) (s : S) where
  -- Matching the rule fails.
  abbrev pub IsFailing : List NormalizedUri → PolicyRule → Type 0
  IsFailing resources rule =
      (failure : PolicyErrorCode) × (match_rule platform (λ request. port.preview request s) rule
          context resources
        ≡ err failure)

  abbrev IsErr : {A : Type 0} → Result PolicyErrorCode A → Type 0
  IsErr result = (failure : PolicyErrorCode) × (result ≡ err failure)

  and_then-IsErr :
      {A B : Type 0} (first : Result PolicyErrorCode A) (rest : A → Result PolicyErrorCode B)
      → ((value : A) → IsErr (rest value))
      → IsErr (and_then first rest)
  and_then-IsErr (err failure) rest h = (failure, refl)
  and_then-IsErr (ok value) rest h = h value

  collect_candidates-IsErr :
      (rules : List PolicyRule) (resources : List NormalizedUri)
      → Some (IsFailing resources) rules
      → IsErr (collect_candidates platform context port rules resources s)
  unfolding collect_candidates
  collect_candidates-IsErr [] resources none_fails = elim none_fails [ ]
  collect_candidates-IsErr (rule ∷ rules) resources (inl (failure, e)) = (failure, rw e)
  collect_candidates-IsErr (rule ∷ rules) resources (inr later) =
      and_then-IsErr
        (match_rule platform (λ request. port.preview request s) rule context resources) _
        (λ outcome.
          let (failure, e) = collect_candidates-IsErr rules resources later in (failure, rw e))

  rank_candidates-IsErr :
      (rules : List PolicyRule) (resources : List NormalizedUri)
      → try_map (normalize_uri_value platform.url_parse) context.resource_refs ≡ ok resources
      → Some (IsFailing resources) rules
      → IsErr (rank_candidates platform context port rules s)
  unfolding rank_candidates
  rank_candidates-IsErr rules resources normalized fails =
      and_then-IsErr (validate_context context) _ (λ valid.
        let (failure, e) = collect_candidates-IsErr rules resources fails in
        (failure, rw (normalized, e)))

  evaluate_policy_inner_fails :
      (rules : List PolicyRule) (resources : List NormalizedUri)
      → try_map (normalize_uri_value platform.url_parse) context.resource_refs ≡ ok resources
      → Some (IsFailing resources) rules
      → (failure : PolicyErrorCode) × (evaluate_policy_inner platform context port rules s
          ≡ (err failure, s))
  unfolding evaluate_policy_inner rank_candidates-IsErr
  evaluate_policy_inner_fails rules resources normalized fails =
      let (failure, e) = rank_candidates-IsErr rules resources normalized fails in
      (failure, rw (evaluate_policy_inner, e))

  evaluate_under-blocks :
      (state : KernelInvariantState) (rules : List PolicyRule)
      → state ≢ clear
      → (block : KernelInvariantBlock) × (evaluate_under platform context port state rules s
          ≡ (blocked_by_kernel_invariant block, s))
  evaluate_under-blocks clear rules h = absurd (h refl)
  evaluate_under-blocks (KernelInvariantState.stop_fence generation) rules h =
      (KernelInvariantBlock.stop_fence generation, refl)
  evaluate_under-blocks (KernelInvariantState.recovery reason_code) rules h =
      (KernelInvariantBlock.recovery reason_code, refl)

  evaluate_under_fails :
      (state : KernelInvariantState) (rules : List PolicyRule) (resources : List NormalizedUri)
      → try_map (normalize_uri_value platform.url_parse) context.resource_refs ≡ ok resources
      → Some (IsFailing resources) rules
      → ((block : KernelInvariantBlock) × (evaluate_under platform context port state rules s
            ≡ (blocked_by_kernel_invariant block, s)))
        ⊎ ((failure : PolicyErrorCode) × (evaluate_under platform context port state rules s
              ≡ (error failure, s)))
  evaluate_under_fails clear rules resources normalized fails =
      let (failure, e) = evaluate_policy_inner_fails rules resources normalized fails in
      inr (failure, ap (λ outcome. (close_result platform context port outcome.0, outcome.1)) e)
  evaluate_under_fails (KernelInvariantState.stop_fence generation) rules resources n fails =
      inl (KernelInvariantBlock.stop_fence generation, refl)
  evaluate_under_fails (KernelInvariantState.recovery reason_code) rules resources n fails =
      inl (KernelInvariantBlock.recovery reason_code, refl)

  -- The evaluation fails closed. Where a kernel invariant is not clear, or the resources normalise
  -- and the matching of some rule fails, wherever it stands among the rules and whatever the
  -- others say, the result is a block or an error and the state of the rate-limit authority is
  -- untouched.
  pub evaluate_policy_fails_closed :
      (rules : List PolicyRule)
      → (context.kernel_invariant ≢ clear)
        ⊎ ((resources : List NormalizedUri) × (try_map
                (normalize_uri_value platform.url_parse)
                context.resource_refs
              ≡ ok resources)
            × Some (IsFailing resources) rules)
      → ((block : KernelInvariantBlock) × (evaluate_policy platform context port rules s
            ≡ (blocked_by_kernel_invariant block, s)))
        ⊎ ((failure : PolicyErrorCode) × (evaluate_policy platform context port rules s
              ≡ (error failure, s)))
  unfolding evaluate_policy
  evaluate_policy_fails_closed rules (inl held) =
      inl (evaluate_under-blocks context.kernel_invariant rules held)
  evaluate_policy_fails_closed rules (inr (resources, normalized, fails)) =
      evaluate_under_fails context.kernel_invariant rules resources normalized fails
