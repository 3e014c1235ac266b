-- ===== src/Contracts/PolicyTypes.antt =====
-- Types of policy rules (rust/crates/kernel-contracts/src/generated/types.rs).
use shittim.Base.{Bool, Option, List, Text, codes, ℤ}
use shittim.Contracts.PolicyEnums.{
  ActorKind, PolicyRuleActorMatchKind, ActorAuthenticationLevel, PolicyRuleActorMatchAuthLevelMin,
  EntryPoint, ContentOriginKind, PolicyRuleContentOriginMatchKindsItem, SideEffectClass,
  PolicyRuleEffect, PolicyRuleConfirmationMode, PolicyRuleConditionRateLimitKeyScope,
}

pub data PolicyRuleConditionTimeWindowWeekdaysItem : Type 0 where
  monday tuesday wednesday thursday friday saturday sunday :
      PolicyRuleConditionTimeWindowWeekdaysItem

-- `PolicyRuleConditionTimeWindowWeekdaysItem::as_str`
unfoldable pub weekdays_item_str : PolicyRuleConditionTimeWindowWeekdaysItem → Text
weekdays_item_str monday = codes "monday"
weekdays_item_str tuesday = codes "tuesday"
weekdays_item_str wednesday = codes "wednesday"
weekdays_item_str thursday = codes "thursday"
weekdays_item_str friday = codes "friday"
weekdays_item_str saturday = codes "saturday"
weekdays_item_str sunday = codes "sunday"

pub record PolicyRuleConditionTimeWindow : Type 0 where
  pub local_end : Text
  pub local_start : Text
  pub timezone : Text
  pub weekdays : List PolicyRuleConditionTimeWindowWeekdaysItem

-- The constant `schema_version` and the floating-point `confidence`, which nothing here reads, are
-- left out.
pub record Actor : Type 0 where
  pub authentication_level : ActorAuthenticationLevel
  pub id : Text
  pub kind : ActorKind
  pub revision : ℤ
  pub source : Text

-- The references and receipts of an origin, which the policy crate only copies, are left out.
pub record ContentOrigin : Type 0 where
  pub entry_point : EntryPoint
  pub id : Text
  pub kind : ContentOriginKind
  pub parent_origin_refs : List Text
  pub received_at : Text
  pub source_uri : Option Text
  pub upstream_stable_id : Option Text

pub record PolicyRuleActionMatch : Type 0 where
  pub capability_ids : List Text
  pub operation_patterns : List Text
  pub side_effect_max : Option SideEffectClass

pub record PolicyRuleActorMatch : Type 0 where
  pub auth_level_min : Option PolicyRuleActorMatchAuthLevelMin
  pub entry_point : Option EntryPoint
  pub kind : Option PolicyRuleActorMatchKind
  pub source_patterns : Option (List Text)

pub record PolicyRuleConditionRateLimit : Type 0 where
  pub count : ℤ
  pub key_scope : PolicyRuleConditionRateLimitKeyScope
  pub window_seconds : ℤ

pub record PolicyRuleCondition : Type 0 where
  pub delegation_required : Option Bool
  pub local_presence_required : Option Bool
  pub rate_limit : Option PolicyRuleConditionRateLimit
  pub time_window : Option PolicyRuleConditionTimeWindow

pub record PolicyRuleContentOriginMatch : Type 0 where
  pub kinds : Option (List PolicyRuleContentOriginMatchKindsItem)
  pub source_patterns : Option (List Text)

pub record PolicyRuleResourceMatch : Type 0 where
  pub exclude_patterns : List Text
  pub scope_patterns : List Text

-- The names, descriptions, dates and authors of a rule, which the matcher does not read, are left
-- out.
pub record PolicyRule : Type 0 where
  pub action_match : PolicyRuleActionMatch
  pub actor_match : PolicyRuleActorMatch
  pub condition : PolicyRuleCondition
  pub confirmation_mode : Option PolicyRuleConfirmationMode
  pub content_origin_match : PolicyRuleContentOriginMatch
  pub effect : PolicyRuleEffect
  pub enabled : Bool
  pub expires_at : Option Text
  pub id : Text
  pub priority : ℤ
  pub resource_match : PolicyRuleResourceMatch
  pub revision : ℤ
