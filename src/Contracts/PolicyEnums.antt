-- ===== src/Contracts/PolicyEnums.antt =====
-- The closed sets of policy rules and of the facts that they match
-- (rust/crates/kernel-contracts/src/generated/types.rs).
use shittim.Base.{ℕ, Bool, true, Text, codes, ◌≡◌, ◌↔◌, arith, ◌==◌}

pub data ActorKind : Type 0 where
  owner known_user guest companion system extension : ActorKind

-- `ActorKind::as_str`
unfoldable pub actor_kind_str : ActorKind → Text
actor_kind_str ActorKind.owner = codes "owner"
actor_kind_str ActorKind.known_user = codes "known_user"
actor_kind_str ActorKind.guest = codes "guest"
actor_kind_str ActorKind.companion = codes "companion"
actor_kind_str ActorKind.system = codes "system"
actor_kind_str ActorKind.extension = codes "extension"

pub data PolicyRuleActorMatchKind : Type 0 where
  owner known_user guest companion system extension : PolicyRuleActorMatchKind

-- `PolicyRuleActorMatchKind::as_str`
unfoldable pub actor_match_kind_str : PolicyRuleActorMatchKind → Text
actor_match_kind_str PolicyRuleActorMatchKind.owner = codes "owner"
actor_match_kind_str PolicyRuleActorMatchKind.known_user = codes "known_user"
actor_match_kind_str PolicyRuleActorMatchKind.guest = codes "guest"
actor_match_kind_str PolicyRuleActorMatchKind.companion = codes "companion"
actor_match_kind_str PolicyRuleActorMatchKind.system = codes "system"
actor_match_kind_str PolicyRuleActorMatchKind.extension = codes "extension"

pub data ActorAuthenticationLevel : Type 0 where
  unauthenticated asserted platform_verified system_authenticated : ActorAuthenticationLevel

pub data PolicyRuleActorMatchAuthLevelMin : Type 0 where
  unauthenticated asserted platform_verified : PolicyRuleActorMatchAuthLevelMin
  system_authenticated : PolicyRuleActorMatchAuthLevelMin

pub data EntryPoint : Type 0 where
  local_desktop local_ipc_client agent_runtime personal_remote_channel : EntryPoint
  group_channel web_api extension_originated_event system_internal : EntryPoint

-- The derived `PartialEq` compares discriminants.
abbrev pub entry_point_discriminant : EntryPoint → ℕ
entry_point_discriminant EntryPoint.local_desktop = 0
entry_point_discriminant EntryPoint.local_ipc_client = 1
entry_point_discriminant EntryPoint.agent_runtime = 2
entry_point_discriminant EntryPoint.personal_remote_channel = 3
entry_point_discriminant EntryPoint.group_channel = 4
entry_point_discriminant EntryPoint.web_api = 5
entry_point_discriminant EntryPoint.extension_originated_event = 6
entry_point_discriminant EntryPoint.system_internal = 7

abbrev pub entry_point_eq : EntryPoint → EntryPoint → Bool
entry_point_eq e e' = entry_point_discriminant e == entry_point_discriminant e'

pub entry_point_eq_iff : (e e' : EntryPoint) → (entry_point_eq e e' ≡ true) ↔ (e ≡ e')
entry_point_eq_iff e e' = (λ h. ground arith, λ h. ground arith)

pub data ContentOriginKind : Type 0 where
  user_input companion_generated system_generated remote_message : ContentOriginKind
  web_content document_content model_output extension_output : ContentOriginKind
  provider_output imported_data : ContentOriginKind

-- `ContentOriginKind::as_str`
unfoldable pub content_origin_kind_str : ContentOriginKind → Text
content_origin_kind_str ContentOriginKind.user_input = codes "user_input"
content_origin_kind_str ContentOriginKind.companion_generated = codes "companion_generated"
content_origin_kind_str ContentOriginKind.system_generated = codes "system_generated"
content_origin_kind_str ContentOriginKind.remote_message = codes "remote_message"
content_origin_kind_str ContentOriginKind.web_content = codes "web_content"
content_origin_kind_str ContentOriginKind.document_content = codes "document_content"
content_origin_kind_str ContentOriginKind.model_output = codes "model_output"
content_origin_kind_str ContentOriginKind.extension_output = codes "extension_output"
content_origin_kind_str ContentOriginKind.provider_output = codes "provider_output"
content_origin_kind_str ContentOriginKind.imported_data = codes "imported_data"

pub data PolicyRuleContentOriginMatchKindsItem : Type 0 where
  user_input companion_generated system_generated : PolicyRuleContentOriginMatchKindsItem
  remote_message web_content document_content : PolicyRuleContentOriginMatchKindsItem
  model_output extension_output provider_output : PolicyRuleContentOriginMatchKindsItem
  imported_data : PolicyRuleContentOriginMatchKindsItem

-- `PolicyRuleContentOriginMatchKindsItem::as_str`
unfoldable pub origin_match_kind_str : PolicyRuleContentOriginMatchKindsItem → Text
origin_match_kind_str PolicyRuleContentOriginMatchKindsItem.user_input = codes "user_input"
origin_match_kind_str PolicyRuleContentOriginMatchKindsItem.companion_generated =
    codes "companion_generated"
origin_match_kind_str PolicyRuleContentOriginMatchKindsItem.system_generated =
    codes "system_generated"
origin_match_kind_str PolicyRuleContentOriginMatchKindsItem.remote_message = codes "remote_message"
origin_match_kind_str PolicyRuleContentOriginMatchKindsItem.web_content = codes "web_content"
origin_match_kind_str PolicyRuleContentOriginMatchKindsItem.document_content =
    codes "document_content"
origin_match_kind_str PolicyRuleContentOriginMatchKindsItem.model_output = codes "model_output"
origin_match_kind_str PolicyRuleContentOriginMatchKindsItem.extension_output =
    codes "extension_output"
origin_match_kind_str PolicyRuleContentOriginMatchKindsItem.provider_output =
    codes "provider_output"
origin_match_kind_str PolicyRuleContentOriginMatchKindsItem.imported_data = codes "imported_data"

pub data SideEffectClass : Type 0 where
  s0 s1 s2 s3 s4 s5 : SideEffectClass

pub data PermissionDecisionDecision : Type 0 where
  allow deny require_confirmation require_local_confirmation : PermissionDecisionDecision
  require_system_authentication require_plan_revision : PermissionDecisionDecision

pub data PolicyRuleEffect : Type 0 where
  allow confirm deny : PolicyRuleEffect

pub data PolicyRuleConfirmationMode : Type 0 where
  generic local system_authentication plan_revision : PolicyRuleConfirmationMode

pub data PolicyRuleConditionRateLimitKeyScope : Type 0 where
  rule actor task action resource : PolicyRuleConditionRateLimitKeyScope
