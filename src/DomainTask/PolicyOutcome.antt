-- ===== src/DomainTask/PolicyOutcome.antt =====
-- A Policy evaluation applied to a pending Action (rust/crates/domain-task/src/policy_outcome.rs).
pub mod Effects
use shittim.Base.{
  ℕ, Bool, false, not, Option, none, some, Result, ◌>>=◌, ◌>>◌, reject_if, Text, is_blank,
}
use shittim.Contracts.TaskTypes.{ActionStatus, action_eq}
use shittim.DomainTask.Error.{DomainTaskErrorCode, invariant_violation, missing_evidence}
use shittim.DomainTask.Types.{ActionTransitionOutcome}
use shittim.DomainTask.Action.{ActionEvidence, ActionTransitionCommand}
use shittim.DomainTask.Action.Enforce.{apply_action_transition, apply_confirm_metadata_update}

pub data PolicyEvaluationEffect : Type 0 where
  allow deny confirm : PolicyEvaluationEffect

pub record PolicyEvaluationOutcome : Type 0 where
  pub effect : PolicyEvaluationEffect
  pub permission_decision_ref : Text
  pub approval_record_ref : Option Text
  pub reason : Text

-- `ActionEvidence { permission_decision_ref, approval_record_ref, ..default() }`
abbrev pub policy_evidence : PolicyEvaluationOutcome → ActionEvidence
policy_evidence outcome = record {
  permission_decision_ref = some outcome.permission_decision_ref;
  approval_record_ref = outcome.approval_record_ref;
  verification = none;
  provider_reported_success = false;
  reason_code = none;
  dispatch_certainty = none;
  uncertain_outcome_reason = none;
}

-- The command that an effect is mapped to, for its target status.
abbrev pub policy_command :
    Text
    → Option Text
    → ActionStatus
    → ℕ
    → Option ℕ
    → ActionStatus
    → PolicyEvaluationOutcome
    → ActionTransitionCommand
policy_command action_id parent_action_id current revision expected target outcome = record {
  action_id = action_id;
  parent_action_id = parent_action_id;
  current_status = current;
  current_revision = revision;
  expected_revision = expected;
  target_status = target;
  reason = outcome.reason;
  evidence = policy_evidence outcome;
}

-- The `match outcome.effect`.
abbrev pub apply_effect :
    PolicyEvaluationEffect
    → (ActionStatus → ActionTransitionCommand)
    → Result DomainTaskErrorCode ActionTransitionOutcome
apply_effect PolicyEvaluationEffect.allow cmd = apply_action_transition (cmd ActionStatus.approved)
apply_effect PolicyEvaluationEffect.deny cmd = apply_action_transition (cmd ActionStatus.cancelled)
apply_effect PolicyEvaluationEffect.confirm cmd =
    apply_confirm_metadata_update (cmd ActionStatus.pending)

unfoldable pub apply_policy_evaluation_outcome :
    Text
    → Option Text
    → ActionStatus
    → ℕ
    → Option ℕ
    → PolicyEvaluationOutcome
    → Result DomainTaskErrorCode ActionTransitionOutcome
apply_policy_evaluation_outcome action_id parent_action_id current revision expected outcome = do
  reject_if (not (action_eq current ActionStatus.pending)) invariant_violation
  reject_if (is_blank outcome.permission_decision_ref) missing_evidence
  apply_effect outcome.effect
      (λ target. policy_command action_id parent_action_id current revision expected target outcome)
