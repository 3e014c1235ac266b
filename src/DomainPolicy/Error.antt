-- ===== src/DomainPolicy/Error.antt =====
-- Machine codes of policy failures (rust/crates/domain-policy/src/error.rs). A `PolicyError` is
-- modelled by its code: the message beside it is text for a reader.
use shittim.Base.{Text, codes}

pub data PolicyErrorCode : Type 0 where
  invalid_uri_pattern invalid_action_pattern invalid_timestamp invalid_rule : PolicyErrorCode
  unsupported_policy_condition canonicalization_failed rate_limit_failed : PolicyErrorCode

-- `PolicyErrorCode::as_str`
unfoldable pub as_str : PolicyErrorCode → Text
as_str PolicyErrorCode.invalid_uri_pattern = codes "invalid_policy_uri_pattern"
as_str PolicyErrorCode.invalid_action_pattern = codes "invalid_policy_action_pattern"
as_str PolicyErrorCode.invalid_timestamp = codes "invalid_policy_timestamp"
as_str PolicyErrorCode.invalid_rule = codes "invalid_policy_rule"
as_str PolicyErrorCode.unsupported_policy_condition = codes "unsupported_policy_condition"
as_str PolicyErrorCode.canonicalization_failed = codes "canonicalization_failed"
as_str PolicyErrorCode.rate_limit_failed = codes "rate_limit_failed"
