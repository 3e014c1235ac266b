-- ===== src/DomainPolicy/Context.antt =====
-- The facts and the results of policy evaluation (rust/crates/domain-policy/src/types.rs).
use shittim.Base.{
  ℕ, Bool, not, Option, none, some, List, [], ◌∷◌, any, if◌then◌else◌, Result, ok, ◌>>=◌, ◌>>◌,
  reject_if, ok_or, try_map, Text, codes, text_eq, ℤ, is_below,
}
use shittim.Contracts.Json.{Json, Members, empty_object, member, object}
use shittim.Contracts.PolicyEnums.{
  EntryPoint, SideEffectClass, PermissionDecisionDecision, PolicyRuleConfirmationMode,
}
use shittim.Contracts.PolicyTypes.{Actor, ContentOrigin, PolicyRule}
use shittim.DomainPolicy.Error.{
  PolicyErrorCode, invalid_rule, canonicalization_failed, unsupported_policy_condition,
}
use shittim.DomainPolicy.TimeWindow.{Weekday}
use shittim.DomainPolicy.Uri.{Url, normalize_uri}
use shittim.DomainPolicy.Uri.Best.{sort_texts, dedup}

-- What url, chrono, chrono_tz, sha2 and serde_json do. An instant is an integer number of
-- microseconds. `sha256_canonical` fails where a value has no canonical form.
pub record Platform : Type 0 where
  pub url_parse : Text → Option Url
  pub parse_from_rfc3339 : Text → Option ℤ
  pub to_rfc3339 : ℤ → Text
  pub local_time : Text → ℤ → Option (Weekday × ℕ)
  pub parse_time : Text → Option ℕ
  pub sha256_hex : Text → Text
  pub sha256_canonical : Json → Option Text
  pub rule_from_value : Json → Option PolicyRule

pub data KernelInvariantState : Type 0 where
  clear : KernelInvariantState
  stop_fence : (generation : ℕ) → KernelInvariantState
  recovery : (reason_code : Text) → KernelInvariantState

pub record DelegationCoverageEvidence : Type 0 where
  pub delegation_ref : Text

pub record LocalPresenceEvidence : Type 0 where
  pub evidence_ref : Text

pub record PolicyEvaluationContext : Type 0 where
  pub actor : Actor
  pub entry_point : EntryPoint
  pub content_origins : List ContentOrigin
  pub task_id : Option Text
  pub action_id : Option Text
  pub plan_version : ℤ
  pub resource_refs : List Text
  pub capability_id : Text
  pub operation : Text
  pub side_effect_class : SideEffectClass
  pub structured_arguments : Json
  pub delegation : Option DelegationCoverageEvidence
  pub local_presence : Option LocalPresenceEvidence
  pub evaluation_instant : ℤ
  pub security_mode : Text
  pub kernel_invariant : KernelInvariantState

pub record PermissionBindingDraft : Type 0 where
  pub action_id : Option Text
  pub plan_version : ℤ
  pub resource_refs : List Text
  pub key_params_hash : Text

pub record CanonicalEvaluationInput : Type 0 where
  pub actor : Actor
  pub entry_point : EntryPoint
  pub content_origins : List ContentOrigin
  pub task_id : Option Text
  pub action_id : Option Text
  pub resource_refs : List Text
  pub capability_id : Text
  pub operation : Text
  pub side_effect_class : SideEffectClass
  pub structured_arguments : Json
  pub delegation_ref : Option Text
  pub local_presence_evidence_ref : Option Text
  pub evaluation_instant : Text
  pub security_mode : Text
  pub kernel_invariant : KernelInvariantState

pub record PermissionDecisionDraft : Type 0 where
  pub decision : PermissionDecisionDecision
  pub reason_codes : List Text
  pub matched_rule_ref : Option Text
  pub granted_scopes : List Text
  pub binding : PermissionBindingDraft
  pub canonical_evaluation_input : CanonicalEvaluationInput

pub data KernelInvariantBlock : Type 0 where
  stop_fence : (generation : ℕ) → KernelInvariantBlock
  recovery : (reason_code : Text) → KernelInvariantBlock

pub data PolicyEvaluationResult : Type 0 where
  allowed : PermissionDecisionDraft → PolicyEvaluationResult
  requires_confirmation :
      PolicyRuleConfirmationMode → PermissionDecisionDraft → PolicyEvaluationResult
  denied : PermissionDecisionDraft → PolicyEvaluationResult
  blocked_by_kernel_invariant : KernelInvariantBlock → PolicyEvaluationResult
  error : PolicyErrorCode → PolicyEvaluationResult

abbrev evidence_ref_of : Option LocalPresenceEvidence → Option Text
evidence_ref_of none = none
evidence_ref_of (some evidence) = some evidence.evidence_ref

abbrev delegation_ref_of : Option DelegationCoverageEvidence → Option Text
delegation_ref_of none = none
delegation_ref_of (some evidence) = some evidence.delegation_ref

module _ (platform : Platform) where
  unfoldable pub binding_material :
      PolicyEvaluationContext
      → Result PolicyErrorCode (PermissionBindingDraft × CanonicalEvaluationInput)
  binding_material context = do
    reject_if (is_below context.plan_version 0) invalid_rule
    normalized ← try_map (normalize_uri platform.url_parse) context.resource_refs
    let resource_refs = dedup (sort_texts normalized)
    key_params_hash ←
        ok_or (platform.sha256_canonical context.structured_arguments) canonicalization_failed
    ok (
      record {
        action_id = context.action_id;
        plan_version = context.plan_version;
        resource_refs = resource_refs;
        key_params_hash = key_params_hash;
      },
      record {
        actor = context.actor;
        entry_point = context.entry_point;
        content_origins = context.content_origins;
        task_id = context.task_id;
        action_id = context.action_id;
        resource_refs = resource_refs;
        capability_id = context.capability_id;
        operation = context.operation;
        side_effect_class = context.side_effect_class;
        structured_arguments = context.structured_arguments;
        delegation_ref = delegation_ref_of context.delegation;
        local_presence_evidence_ref = evidence_ref_of context.local_presence;
        evaluation_instant = platform.to_rfc3339 context.evaluation_instant;
        security_mode = context.security_mode;
        kernel_invariant = context.kernel_invariant;
      },
    )

-- `map.get(name)`
unfoldable pub get_member : Text → Members → Option Json
unfolding text_eq
get_member name empty_object = none
get_member name (member key value members) =
    if text_eq name key then some value else get_member name members

unfoldable pub member_names : Members → List Text
member_names empty_object = []
member_names (member key value members) = key ∷ member_names members

abbrev pub condition_fields : List Text
condition_fields =
    codes "time_window"
    ∷ codes "rate_limit"
    ∷ codes "delegation_required"
    ∷ codes "local_presence_required"
    ∷ []

abbrev pub is_unknown_field : Text → Bool
is_unknown_field field = not (any (λ known. text_eq known field) condition_fields)

-- `value.get("condition").and_then(Value::as_object)`
unfoldable pub condition_object : Json → Option Members
unfolding get_member
condition_object (object members) = elim (get_member (codes "condition") members) [
  | some (object fields) ↦ some fields
  | _ ↦ none
]
condition_object _ = none

unfoldable pub parse_policy_rule_json : Platform → Json → Result PolicyErrorCode PolicyRule
unfolding condition_object member_names text_eq
parse_policy_rule_json platform value = do
  elim (condition_object value) [
    | some fields ↦
        reject_if (any is_unknown_field (member_names fields)) unsupported_policy_condition
    | none ↦ ok tt
  ]
  ok_or (platform.rule_from_value value) invalid_rule
