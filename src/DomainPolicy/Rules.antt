-- ===== src/DomainPolicy/Rules.antt =====
-- What is checked of a rule before it is matched, and of the facts
-- (rust/crates/domain-policy/src/matcher.rs: `validate_rule_semantics`, `is_expired`,
-- `rate_limit_key` and the smaller checks).
use shittim.Base.{
  Bool, true, false, ◌||◌, Option, none, some, List, [], ◌∷◌, ◌++◌, Ordering, map, is_empty, Result,
  ok, err, ◌>>=◌, ◌>>◌, reject_if, ok_or, map_err, Text, codes, join, ℤ, int_cmp, is_below,
}
use shittim.Contracts.PolicyEnums.{
  PolicyRuleEffect, PolicyRuleConfirmationMode, PolicyRuleConditionRateLimitKeyScope,
}
use shittim.Contracts.PolicyTypes.{PolicyRule, PolicyRuleConditionRateLimit}
use shittim.DomainPolicy.Error.{
  PolicyErrorCode, invalid_rule, invalid_timestamp, unsupported_policy_condition,
}
use shittim.DomainPolicy.Uri.{NormalizedUri, normalize_uri_value}
use shittim.DomainPolicy.Uri.Best.{sort_texts, dedup, best_uri_pattern}
use shittim.DomainPolicy.ActionPatterns.{validate_action_patterns}
use shittim.DomainPolicy.RateLimit.{RateLimitKey}
use shittim.DomainPolicy.Context.{Platform, PolicyEvaluationContext}

-- `nonempty`
unfoldable pub nonempty {ℓ} : {A : Type ℓ} → Option (List A) → Option (List A)
nonempty none = none
nonempty (some []) = none
nonempty (some (x ∷ xs)) = some (x ∷ xs)

unfoldable pub validate_context : PolicyEvaluationContext → Result PolicyErrorCode (Unit {0})
validate_context context =
    reject_if (is_empty context.capability_id || is_empty context.operation) invalid_rule

-- The `match (rule.effect, rule.confirmation_mode)`
unfoldable pub check_confirmation_mode :
    PolicyRuleEffect → Option PolicyRuleConfirmationMode → Result PolicyErrorCode (Unit {0})
check_confirmation_mode PolicyRuleEffect.confirm (some mode) = ok tt
check_confirmation_mode PolicyRuleEffect.confirm none = err invalid_rule
check_confirmation_mode PolicyRuleEffect.allow none = ok tt
check_confirmation_mode PolicyRuleEffect.allow (some mode) = err invalid_rule
check_confirmation_mode PolicyRuleEffect.deny none = ok tt
check_confirmation_mode PolicyRuleEffect.deny (some mode) = err invalid_rule

-- `iter().flatten()` of an optional list
abbrev flatten : Option (List Text) → List Text
flatten none = []
flatten (some patterns) = patterns

-- All URI patterns of a rule, in the order of the chain
unfoldable pub uri_patterns : PolicyRule → List Text
uri_patterns rule =
    flatten rule.actor_match.source_patterns
    ++ (flatten rule.content_origin_match.source_patterns
        ++ (rule.resource_match.scope_patterns ++ rule.resource_match.exclude_patterns))

module _ (platform : Platform) where
  -- The loop over the URI patterns
  unfoldable pub validate_uri_patterns : List Text → Result PolicyErrorCode (Unit {0})
  validate_uri_patterns [] = ok tt
  validate_uri_patterns (pattern ∷ patterns) = do
    placeholder ← normalize_uri_value platform.url_parse (codes "https://validation.invalid/")
    best ← best_uri_pattern platform.url_parse (pattern ∷ []) placeholder
    validate_uri_patterns patterns

  unfoldable pub validate_rule_semantics : PolicyRule → Result PolicyErrorCode (Unit {0})
  unfolding check_confirmation_mode validate_uri_patterns uri_patterns
  validate_rule_semantics rule = do
    reject_if (is_empty rule.id || is_below rule.revision 1) invalid_rule
    check_confirmation_mode rule.effect rule.confirmation_mode
    validate_action_patterns rule.action_match.capability_ids
    validate_action_patterns rule.action_match.operation_patterns
    validate_uri_patterns (uri_patterns rule)

  -- `context.evaluation_instant >= expires`
  unfoldable pub is_expired : Option Text → ℤ → Result PolicyErrorCode Bool
  unfolding int_cmp
  is_expired none instant = ok false
  is_expired (some expires_at) instant = do
    expires ← ok_or (platform.parse_from_rfc3339 expires_at) invalid_timestamp
    ok (elim (int_cmp instant expires) [ Ordering.lt ↦ false | _ ↦ true ])

  unfoldable pub normalize_source_uri : Text → Result PolicyErrorCode NormalizedUri
  normalize_source_uri value =
      map_err (λ e. unsupported_policy_condition) (normalize_uri_value platform.url_parse value)

  unfoldable pub validate_rate_limit :
      PolicyRuleConditionRateLimit → Result PolicyErrorCode (Unit {0})
  validate_rate_limit limit =
      reject_if (is_below limit.count 1 || is_below limit.window_seconds 1)
        unsupported_policy_condition

  -- The `match limit.key_scope`
  unfoldable pub rate_limit_value :
      PolicyRuleConditionRateLimitKeyScope
      → PolicyRule
      → PolicyEvaluationContext
      → List NormalizedUri
      → Result PolicyErrorCode Text
  rate_limit_value PolicyRuleConditionRateLimitKeyScope.rule rule context resources = ok rule.id
  rate_limit_value PolicyRuleConditionRateLimitKeyScope.actor rule context resources =
      ok context.actor.id
  rate_limit_value PolicyRuleConditionRateLimitKeyScope.task rule context resources =
      ok_or context.task_id unsupported_policy_condition
  rate_limit_value PolicyRuleConditionRateLimitKeyScope.action rule context resources =
      ok_or context.action_id unsupported_policy_condition
  rate_limit_value PolicyRuleConditionRateLimitKeyScope.resource rule context resources = do
    reject_if (is_empty resources) unsupported_policy_condition
    let values = dedup (sort_texts (map (λ (resource : NormalizedUri). resource.value) resources))
    ok (platform.sha256_hex (join values (0x1f ∷ [])))

  unfoldable pub rate_limit_key :
      PolicyRuleConditionRateLimit
      → PolicyRule
      → PolicyEvaluationContext
      → List NormalizedUri
      → Result PolicyErrorCode RateLimitKey
  unfolding rate_limit_value
  rate_limit_key limit rule context resources = do
    value ← rate_limit_value limit.key_scope rule context resources
    reject_if (is_empty value) unsupported_policy_condition
    ok value
