-- ===== src/DomainPolicy/EvaluateExamples.antt =====
-- The theorems on the evaluation of rules at concrete inputs, and tests
-- (rust/crates/domain-policy/src/matcher.rs).
use Prim.Native.Nat.{zero, suc}
use shittim.Base.{
  ℕ, true, Option, none, some, List, [], ◌∷◌, ◌≡◌, ◌≢◌, ◌↔◌, ◌⊎◌, inl, inr, refl, Ordering, Result,
  ok, Text, codes, ℤ, pos, try_map, reverse_order,
}
use shittim.Contracts.Json.{null}
use shittim.Contracts.PolicyEnums.{
  PolicyRuleEffect, ActorKind, ActorAuthenticationLevel, EntryPoint, SideEffectClass,
  PolicyRuleConditionRateLimitKeyScope,
}
use shittim.Contracts.PolicyTypes.{PolicyRule, PolicyRuleConditionRateLimit}
use shittim.DomainPolicy.Error.{PolicyErrorCode}
use shittim.DomainPolicy.Uri.{NormalizedUri, normalize_uri_value}
use shittim.DomainPolicy.RateLimit.{available, RateLimitConsume, consumed, RateLimitPort}
use shittim.DomainPolicy.Context.{
  Platform, PolicyEvaluationContext, KernelInvariantState, KernelInvariantBlock, clear,
  PolicyEvaluationResult, binding_material, denied, allowed, blocked_by_kernel_invariant, error,
}
use shittim.DomainPolicy.Specificity.{default_specificity}
use shittim.DomainPolicy.Rules.{
  validate_context, is_expired, validate_rule_semantics, validate_rate_limit, rate_limit_key,
}
use shittim.DomainPolicy.ActionPatterns.{validate_action_patterns}
use shittim.DomainPolicy.Matcher.{Candidate, match_rule}
use shittim.DomainPolicy.Evaluate.{
  candidate_cmp, collect_candidates, sort_candidates, build_rule_result, evaluate_policy,
}
use shittim.DomainPolicy.Evaluate.Precedence.{IsSameRank, RanksBefore, candidate_cmp_order}
use shittim.DomainPolicy.Evaluate.Election.{Elects, Matches, outcome, evaluate_policy-Elects}
use shittim.DomainPolicy.Evaluate.FailClosed.{evaluate_policy_fails_closed}

-- A platform that reads no URL and no time, and hashes everything to the same digest.
abbrev sample_platform : Platform
sample_platform = record {
  url_parse = λ text. none;
  parse_from_rfc3339 = λ text. none;
  to_rfc3339 = λ instant. codes "2026-01-01T00:00:00Z";
  local_time = λ zone instant. none;
  parse_time = λ text. none;
  sha256_hex = λ text. codes "00";
  sha256_canonical = λ value. some (codes "00");
  rule_from_value = λ value. none;
}

abbrev sample_context : KernelInvariantState → PolicyEvaluationContext
sample_context state = record {
  actor = record {
    authentication_level = ActorAuthenticationLevel.asserted;
    id = codes "actor";
    kind = ActorKind.owner;
    revision = pos 1;
    source = codes "cli";
  };
  entry_point = EntryPoint.local_desktop;
  content_origins = [];
  task_id = none;
  action_id = none;
  plan_version = pos 1;
  resource_refs = [];
  capability_id = codes "files";
  operation = codes "files.read";
  side_effect_class = SideEffectClass.s0;
  structured_arguments = null;
  delegation = none;
  local_presence = none;
  evaluation_instant = pos 0;
  security_mode = codes "normal";
  kernel_invariant = state;
}

-- A rule that matches everything.
abbrev sample_rule : Text → ℤ → PolicyRuleEffect → Option PolicyRuleConditionRateLimit → PolicyRule
sample_rule id priority effect rate_limit = record {
  action_match = record { capability_ids = []; operation_patterns = []; side_effect_max = none };
  actor_match = record {
    auth_level_min = none;
    entry_point = none;
    kind = none;
    source_patterns = none;
  };
  condition = record {
    delegation_required = none;
    local_presence_required = none;
    rate_limit = rate_limit;
    time_window = none;
  };
  confirmation_mode = none;
  content_origin_match = record { kinds = none; source_patterns = none };
  effect = effect;
  enabled = true;
  expires_at = none;
  id = id;
  priority = priority;
  resource_match = record { exclude_patterns = []; scope_patterns = [] };
  revision = pos 1;
}

abbrev once : PolicyRuleConditionRateLimit
once = record {
  count = pos 1;
  key_scope = PolicyRuleConditionRateLimitKeyScope.rule;
  window_seconds = pos 60;
}

-- The state counts the decisions that the authority still lets through.
abbrev counted_consume : ℕ → Result PolicyErrorCode RateLimitConsume × ℕ
counted_consume zero = (ok RateLimitConsume.exceeded, 0)
counted_consume (suc n) = (ok consumed, n)

abbrev counted_port : RateLimitPort ℕ
counted_port = record {
  preview = λ request s. ok available;
  check_and_consume = λ request s. counted_consume s;
}

abbrev deny_once : PolicyRule
deny_once = sample_rule (codes "deny_once") (pos 2) PolicyRuleEffect.deny (some once)

abbrev allow_all : PolicyRule
allow_all = sample_rule (codes "allow_all") (pos 1) PolicyRuleEffect.allow none

abbrev sample_rules : List PolicyRule
sample_rules = allow_all ∷ deny_once ∷ []

abbrev sample_outcome : ℕ → PolicyEvaluationResult × ℕ
sample_outcome s =
    evaluate_policy sample_platform (sample_context clear) counted_port sample_rules s

abbrev decision_in : PolicyEvaluationResult → Option Text
decision_in (allowed draft) = draft.matched_rule_ref
decision_in (denied draft) = draft.matched_rule_ref
decision_in _ = none

-- The rule of the higher priority wins and consumes; when its limit is exceeded the other wins.
sample_winner : decision_in (sample_outcome 1).0 ≡ some (codes "deny_once")
unfolding evaluate_policy validate_context try_map collect_candidates match_rule is_expired
    validate_rule_semantics validate_action_patterns validate_rate_limit rate_limit_key
    sort_candidates candidate_cmp build_rule_result binding_material
sample_winner = refl

sample_consumed : (sample_outcome 1).1 ≡ 0
unfolding evaluate_policy validate_context try_map collect_candidates match_rule is_expired
    validate_rule_semantics validate_action_patterns validate_rate_limit rate_limit_key
    sort_candidates candidate_cmp build_rule_result binding_material
sample_consumed = refl

sample_exceeded : decision_in (sample_outcome 0).0 ≡ some (codes "allow_all")
unfolding evaluate_policy validate_context try_map collect_candidates match_rule is_expired
    validate_rule_semantics validate_action_patterns validate_rate_limit rate_limit_key
    sort_candidates candidate_cmp build_rule_result binding_material
sample_exceeded = refl

evaluate_policy-Elects_example :
    (resources : List NormalizedUri) × (pool : List Candidate) × (winner : Option Candidate)
    × (try_map (normalize_uri_value sample_platform.url_parse) [] ≡ ok resources)
    × Matches sample_platform (sample_context clear) counted_port resources 1 sample_rules pool
    × Elects sample_platform (sample_context clear) counted_port pool 1 winner 0
    × (outcome sample_platform (sample_context clear) counted_port winner ≡ ok (sample_outcome 1).0)
unfolding evaluate_policy validate_context try_map collect_candidates match_rule is_expired
    validate_rule_semantics validate_action_patterns validate_rate_limit rate_limit_key
    sort_candidates candidate_cmp build_rule_result binding_material
evaluate_policy-Elects_example =
    evaluate_policy-Elects sample_platform (sample_context clear) counted_port sample_rules 1 0
      (sample_outcome 1).0 refl refl (λ failure e. cc)

-- A rule whose date of expiry cannot be read.
abbrev unreadable : PolicyRule
unreadable = record allow_all { expires_at = some (codes "never") }

evaluate_policy_fails_closed_example :
    ((block : KernelInvariantBlock) × (evaluate_policy sample_platform
          (sample_context clear)
          counted_port
          (deny_once ∷ unreadable ∷ [])
          1
        ≡ (blocked_by_kernel_invariant block, 1)))
    ⊎ ((failure : PolicyErrorCode) × (evaluate_policy sample_platform
            (sample_context clear)
            counted_port
            (deny_once ∷ unreadable ∷ [])
            1
          ≡ (error failure, 1)))
unfolding match_rule try_map is_expired
evaluate_policy_fails_closed_example =
    evaluate_policy_fails_closed sample_platform (sample_context clear) counted_port 1
      (deny_once ∷ unreadable ∷ [])
      (inr ([], refl, inr (inl (PolicyErrorCode.invalid_timestamp, refl))))

abbrev ranked_as : Text → ℤ → PolicyRuleEffect → Candidate
ranked_as id priority effect = record {
  rule = sample_rule id priority effect none;
  specificity = default_specificity;
  rate_limit = none;
}

abbrev first_candidate : Candidate
first_candidate = ranked_as (codes "a") (pos 2) PolicyRuleEffect.allow

abbrev second_candidate : Candidate
second_candidate = ranked_as (codes "b") (pos 1) PolicyRuleEffect.deny

abbrev third_candidate : Candidate
third_candidate = ranked_as (codes "c") (pos 1) PolicyRuleEffect.allow

candidate_cmp_order_example :
    (candidate_cmp second_candidate first_candidate
      ≡ reverse_order (candidate_cmp first_candidate second_candidate))
    × ((candidate_cmp first_candidate second_candidate ≡ Ordering.lt)
        ↔ RanksBefore first_candidate second_candidate)
    × ((candidate_cmp first_candidate second_candidate ≡ Ordering.eq)
        ↔ IsSameRank first_candidate second_candidate)
    × ((candidate_cmp first_candidate second_candidate ≡ Ordering.gt)
        ⊎ ((candidate_cmp second_candidate third_candidate ≡ Ordering.gt)
            ⊎ (candidate_cmp first_candidate third_candidate ≢ Ordering.gt)))
candidate_cmp_order_example = candidate_cmp_order first_candidate second_candidate third_candidate
