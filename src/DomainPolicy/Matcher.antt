-- ===== src/DomainPolicy/Matcher.antt =====
-- Matching of one rule (rust/crates/domain-policy/src/matcher.rs: `match_conditions`,
-- `match_rule`).
use shittim.Base.{
  Bool, true, false, not, Option, none, some, List, if◌then◌else◌, is_present, Result, ok, ℤ,
}
use shittim.Contracts.PolicyTypes.{
  PolicyRule, PolicyRuleConditionRateLimit, PolicyRuleConditionTimeWindow,
}
use shittim.DomainPolicy.Error.{PolicyErrorCode}
use shittim.DomainPolicy.Uri.{NormalizedUri}
use shittim.DomainPolicy.TimeWindow.{time_window_matches}
use shittim.DomainPolicy.RateLimit.{RateLimitKey, RateLimitRequest, RateLimitPreview, available}
use shittim.DomainPolicy.Context.{Platform, PolicyEvaluationContext}
use shittim.DomainPolicy.Specificity.{
  Specificity, default_specificity, matched, not_matched, MatchResult, ◌>>=◌, ◌>>◌, require, lift,
  constrain_condition, constrain_condition_boolean,
}
use shittim.DomainPolicy.Rules.{
  validate_rule_semantics, is_expired, validate_rate_limit, rate_limit_key,
}
use shittim.DomainPolicy.Dimensions.{
  match_actor, match_content_origins, match_resources, match_action,
}

pub record RateLimitCandidate : Type 0 where
  pub key : RateLimitKey
  pub count : ℤ
  pub window_seconds : ℤ

pub record Candidate : Type 0 where
  pub rule : PolicyRule
  pub specificity : Specificity
  pub rate_limit : Option RateLimitCandidate

abbrev pub condition_step : Option Bool → Bool → Specificity → MatchResult Specificity
condition_step none present score = ok (matched score)
condition_step (some required) present score = do
  let constrained = constrain_condition_boolean score
  require (if required then present else not present)
  ok (matched constrained)

module _ (platform : Platform) where
  abbrev pub window_step :
      Option PolicyRuleConditionTimeWindow → ℤ → Specificity → MatchResult Specificity
  window_step none instant score = ok (matched score)
  window_step (some window) instant score = do
    inside ← lift (time_window_matches platform.local_time platform.parse_time window instant)
    require inside
    ok (matched (constrain_condition score))

  module _ (preview : RateLimitRequest → Result PolicyErrorCode RateLimitPreview) where
    abbrev pub is_available : RateLimitPreview → Bool
    is_available available = true
    is_available RateLimitPreview.exceeded = false

    abbrev pub limit_step :
        Option PolicyRuleConditionRateLimit
        → PolicyRule
        → PolicyEvaluationContext
        → List NormalizedUri
        → Specificity
        → MatchResult (Specificity × Option RateLimitCandidate)
    limit_step none rule context resources score = ok (matched (score, none))
    limit_step (some limit) rule context resources score = do
      lift (validate_rate_limit platform limit)
      key ← lift (rate_limit_key platform limit rule context resources)
      answer ← lift (
          preview (record {
            rule_id = rule.id;
            rule_revision = rule.revision;
            key = key;
            window_seconds = limit.window_seconds;
            count = limit.count;
            instant = context.evaluation_instant;
          }))
      require (is_available answer)
      ok (
          matched (
            constrain_condition score,
            some (record { key = key; count = limit.count; window_seconds = limit.window_seconds }),
          ))

    unfoldable pub match_conditions :
        PolicyRule
        → PolicyEvaluationContext
        → List NormalizedUri
        → Specificity
        → MatchResult (Specificity × Option RateLimitCandidate)
    match_conditions rule context resources score = do
      window_score ← window_step rule.condition.time_window context.evaluation_instant score
      limited ← limit_step rule.condition.rate_limit rule context resources window_score
      delegation_score ←
          condition_step rule.condition.delegation_required (is_present context.delegation)
            limited.0
      presence_score ←
          condition_step rule.condition.local_presence_required (is_present context.local_presence)
            delegation_score
      ok (matched (presence_score, limited.1))

    unfoldable pub match_rule :
        PolicyRule → PolicyEvaluationContext → List NormalizedUri → MatchResult Candidate
    unfolding match_actor match_content_origins match_resources match_action match_conditions
    match_rule rule context resources = if not rule.enabled then ok not_matched else (do
      expired ← lift (is_expired platform rule.expires_at context.evaluation_instant)
      require (not expired)
      lift (validate_rule_semantics platform rule)
      actor_score ← match_actor platform rule context default_specificity
      origin_score ← match_content_origins platform rule context actor_score
      resource_score ← match_resources platform rule resources origin_score
      action_score ← match_action platform rule context resource_score
      conditions ← match_conditions rule context resources action_score
      ok (matched (record { rule = rule; specificity = conditions.0; rate_limit = conditions.1 })))
