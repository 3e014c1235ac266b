-- ===== src/DomainPolicy/Evaluate.antt =====
-- Evaluation of the rules (rust/crates/domain-policy/src/matcher.rs: `evaluate_policy`).
pub mod Order
pub mod Precedence
pub mod Ranking
pub mod FailClosed
pub mod Election
use shittim.Base.{
  ℕ, Bool, true, false, Option, none, some, List, [], ◌∷◌, Ordering, compare, Result, ok, err,
  ◌>>=◌, ◌>>◌, ok_or, try_map, Text, codes, text_cmp, then_with, ℤ, int_cmp,
}
use shittim.Contracts.PolicyEnums.{
  PolicyRuleEffect, PolicyRuleConfirmationMode, PermissionDecisionDecision,
}
use shittim.Contracts.PolicyTypes.{PolicyRule}
use shittim.DomainPolicy.Error.{PolicyErrorCode, invalid_rule}
use shittim.DomainPolicy.Uri.{NormalizedUri, normalize_uri_value}
use shittim.DomainPolicy.RateLimit.{RateLimitRequest, RateLimitConsume, consumed, RateLimitPort}
use shittim.DomainPolicy.Context.{
  Platform, PolicyEvaluationContext, KernelInvariantState, KernelInvariantBlock,
  PermissionDecisionDraft, PolicyEvaluationResult, clear, allowed, denied, requires_confirmation,
  blocked_by_kernel_invariant, error, binding_material,
}
use shittim.DomainPolicy.Specificity.{
  MatchOutcome, matched, not_matched, MatchResult, specificity_cmp, effect_rank,
}
use shittim.DomainPolicy.Rules.{validate_context}
use shittim.DomainPolicy.Matcher.{Candidate, RateLimitCandidate, match_rule}

unfoldable pub candidate_cmp : Candidate → Candidate → Ordering
unfolding int_cmp specificity_cmp text_cmp
candidate_cmp left right = then_with (int_cmp right.rule.priority left.rule.priority) (
    then_with (specificity_cmp right.specificity left.specificity) (
      then_with (compare (effect_rank right.rule.effect) (effect_rank left.rule.effect)) (
        then_with (int_cmp right.rule.revision left.rule.revision)
          (text_cmp left.rule.id right.rule.id))))

-- `candidates.sort_by(candidate_cmp)`, which is stable
unfoldable pub insert_candidate : Candidate → List Candidate → List Candidate
insert_candidate candidate [] = candidate ∷ []
insert_candidate candidate (other ∷ candidates) =
    let later = other ∷ insert_candidate candidate candidates in
    elim (candidate_cmp candidate other) [
      | Ordering.gt ↦ later
      | _ ↦ candidate ∷ other ∷ candidates
    ]

unfoldable pub sort_candidates : List Candidate → List Candidate
unfolding insert_candidate
sort_candidates [] = []
sort_candidates (candidate ∷ candidates) = insert_candidate candidate (sort_candidates candidates)

-- The `match (rule.effect, rule.confirmation_mode)` of `build_rule_result`
unfoldable pub decision_of :
    PolicyRuleEffect
    → Option PolicyRuleConfirmationMode
    → Result PolicyErrorCode PermissionDecisionDecision
decision_of PolicyRuleEffect.allow none = ok PermissionDecisionDecision.allow
decision_of PolicyRuleEffect.allow (some mode) = err invalid_rule
decision_of PolicyRuleEffect.deny none = ok PermissionDecisionDecision.deny
decision_of PolicyRuleEffect.deny (some mode) = err invalid_rule
decision_of PolicyRuleEffect.confirm none = err invalid_rule
decision_of PolicyRuleEffect.confirm (some PolicyRuleConfirmationMode.generic) =
    ok PermissionDecisionDecision.require_confirmation
decision_of PolicyRuleEffect.confirm (some PolicyRuleConfirmationMode.local) =
    ok PermissionDecisionDecision.require_local_confirmation
decision_of PolicyRuleEffect.confirm (some PolicyRuleConfirmationMode.system_authentication) =
    ok PermissionDecisionDecision.require_system_authentication
decision_of PolicyRuleEffect.confirm (some PolicyRuleConfirmationMode.plan_revision) =
    ok PermissionDecisionDecision.require_plan_revision

-- The last `match rule.effect` of `build_rule_result`
unfoldable pub result_of :
    PolicyRuleEffect
    → Option PolicyRuleConfirmationMode
    → PermissionDecisionDraft
    → Result PolicyErrorCode PolicyEvaluationResult
result_of PolicyRuleEffect.allow mode draft = ok (allowed draft)
result_of PolicyRuleEffect.deny mode draft = ok (denied draft)
result_of PolicyRuleEffect.confirm mode draft = do
  confirmation_mode ← ok_or mode invalid_rule
  ok (requires_confirmation confirmation_mode draft)

-- One rule's consumption request
abbrev pub consume_request :
    PolicyEvaluationContext → Candidate → RateLimitCandidate → RateLimitRequest
consume_request context candidate limit = record {
  rule_id = candidate.rule.id;
  rule_revision = candidate.rule.revision;
  key = limit.key;
  window_seconds = limit.window_seconds;
  count = limit.count;
  instant = context.evaluation_instant;
}

module _ (platform : Platform) (context : PolicyEvaluationContext) where
  unfoldable pub build_default_allow : Result PolicyErrorCode PolicyEvaluationResult
  build_default_allow = do
    material ← binding_material platform context
    ok (
        allowed (record {
          decision = PermissionDecisionDecision.allow;
          reason_codes = codes "default_allow" ∷ [];
          matched_rule_ref = none;
          granted_scopes = material.0.resource_refs;
          binding = material.0;
          canonical_evaluation_input = material.1;
        }))

  unfoldable pub build_rule_result : PolicyRule → Result PolicyErrorCode PolicyEvaluationResult
  unfolding decision_of result_of
  build_rule_result rule = do
    material ← binding_material platform context
    decision ← decision_of rule.effect rule.confirmation_mode
    result_of rule.effect rule.confirmation_mode (record {
      decision = decision;
      reason_codes = rule.id ∷ [];
      matched_rule_ref = some rule.id;
      granted_scopes = material.0.resource_refs;
      binding = material.0;
      canonical_evaluation_input = material.1;
    })

  module _ {S : Type 0} (port : RateLimitPort S) where
    -- The loop that collects the candidates
    unfoldable pub collect_candidates :
        List PolicyRule → List NormalizedUri → S → Result PolicyErrorCode (List Candidate)
    collect_candidates [] resources s = ok []
    collect_candidates (rule ∷ rules) resources s = do
      outcome ← match_rule platform (λ request. port.preview request s) rule context resources
      candidates ← collect_candidates rules resources s
      elim outcome [ matched candidate ↦ ok (candidate ∷ candidates) | not_matched ↦ ok candidates ]

    -- What an answer of the authority makes of a candidate; `next` tries the others.
    unfoldable pub after_consume :
        PolicyRule
        → Result PolicyErrorCode RateLimitConsume
        → S
        → (S → Result PolicyErrorCode PolicyEvaluationResult × S)
        → Result PolicyErrorCode PolicyEvaluationResult × S
    after_consume rule (err failure) s next = (err failure, s)
    after_consume rule (ok consumed) s next = (build_rule_result rule, s)
    after_consume rule (ok RateLimitConsume.exceeded) s next = next s

    unfoldable pub try_candidate :
        Candidate
        → Option RateLimitCandidate
        → S
        → (S → Result PolicyErrorCode PolicyEvaluationResult × S)
        → Result PolicyErrorCode PolicyEvaluationResult × S
    unfolding after_consume
    try_candidate candidate none s next = (build_rule_result candidate.rule, s)
    try_candidate candidate (some limit) s next =
        let answer = port.check_and_consume (consume_request context candidate limit) s in
        after_consume candidate.rule answer.0 answer.1 next

    -- The `while let Some(candidate)` loop
    unfoldable pub select_winner :
        List Candidate → S → Result PolicyErrorCode PolicyEvaluationResult × S
    unfolding try_candidate
    select_winner [] s = (build_default_allow, s)
    select_winner (candidate ∷ candidates) s =
        try_candidate candidate candidate.rate_limit s (select_winner candidates)

    -- What `evaluate_policy_inner` does before the loop
    unfoldable pub rank_candidates : List PolicyRule → S → Result PolicyErrorCode (List Candidate)
    rank_candidates rules s = do
      validate_context context
      resources ← try_map (normalize_uri_value platform.url_parse) context.resource_refs
      candidates ← collect_candidates rules resources s
      ok (sort_candidates candidates)

    unfoldable pub evaluate_policy_inner :
        List PolicyRule → S → Result PolicyErrorCode PolicyEvaluationResult × S
    unfolding rank_candidates select_winner
    evaluate_policy_inner rules s = elim (rank_candidates rules s) [
      | err failure ↦ (err failure, s)
      | ok candidates ↦ select_winner candidates s
    ]

    -- `match evaluate_policy_inner(…)`
    abbrev pub close_result : Result PolicyErrorCode PolicyEvaluationResult → PolicyEvaluationResult
    close_result (ok result) = result
    close_result (err failure) = error failure

    abbrev pub evaluate_under :
        KernelInvariantState → List PolicyRule → S → PolicyEvaluationResult × S
    evaluate_under (KernelInvariantState.stop_fence generation) rules s =
        (blocked_by_kernel_invariant (KernelInvariantBlock.stop_fence generation), s)
    evaluate_under (KernelInvariantState.recovery reason_code) rules s =
        (blocked_by_kernel_invariant (KernelInvariantBlock.recovery reason_code), s)
    evaluate_under clear rules s =
        let outcome = evaluate_policy_inner rules s in (close_result outcome.0, outcome.1)

    unfoldable pub evaluate_policy : List PolicyRule → S → PolicyEvaluationResult × S
    unfolding evaluate_policy_inner
    evaluate_policy rules s = evaluate_under context.kernel_invariant rules s
