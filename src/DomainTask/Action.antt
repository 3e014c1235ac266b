-- ===== src/DomainTask/Action.antt =====
-- Action transitions (rust/crates/domain-task/src/action.rs).
pub mod Enforce
pub mod Rules
pub mod Effects
pub mod Apply
pub mod Confirm
pub mod Leases
pub mod Draft
pub mod History
use shittim.Base.{
  ℕ, Bool, true, false, not, ◌&&◌, ◌||◌, Option, none, some, ltb, ◌==◌, if◌then◌else◌, Result, ok,
  err, ◌>>=◌, ◌>>◌, reject_if, ok_or, Text, codes, text_eq, is_blank,
}
use shittim.Contracts.TaskTypes.{
  ActionStatus, action_eq, VerificationResultOutcome, verified_ok, verified_failed, inconclusive,
}
use shittim.DomainTask.Error.{
  DomainTaskErrorCode, illegal_transition, expected_revision_conflict, invariant_violation,
  missing_evidence, illegal_compensation_draft, invalid_input,
}
use shittim.DomainTask.Types.{
  VerificationEvidenceSummary, LeaseReleaseEffect, ActionEffects, default_effects,
  ActionTransitionOutcome, action_with_event, checked_increment,
}

pub data DispatchCertainty : Type 0 where
  not_started uncertain started : DispatchCertainty

pub data UncertainOutcomeReason : Type 0 where
  crash timeout ambiguous : UncertainOutcomeReason

pub record ActionEvidence : Type 0 where
  pub permission_decision_ref : Option Text
  pub approval_record_ref : Option Text
  pub verification : Option VerificationEvidenceSummary
  pub provider_reported_success : Bool
  pub reason_code : Option Text
  pub dispatch_certainty : Option DispatchCertainty
  pub uncertain_outcome_reason : Option UncertainOutcomeReason

pub record ActionTransitionCommand : Type 0 where
  pub action_id : Text
  pub parent_action_id : Option Text
  pub current_status : ActionStatus
  pub current_revision : ℕ
  pub expected_revision : Option ℕ
  pub target_status : ActionStatus
  pub reason : Text
  pub evidence : ActionEvidence

pub record CompensationActionDraft : Type 0 where
  pub action_id : Text
  pub parent_action_id : Text
  pub idempotency_key : Text
  pub original_action_id : Text
  pub original_idempotency_key : Text
  pub status : ActionStatus
  pub permission_decision_ref : Option Text

-- The `match from` of `is_action_transition_allowed`.
unfoldable pub action_edge : ActionStatus → ActionStatus → Bool
action_edge ActionStatus.pending ActionStatus.approved = true
action_edge ActionStatus.pending ActionStatus.cancelled = true
action_edge ActionStatus.approved ActionStatus.leased = true
action_edge ActionStatus.approved ActionStatus.cancelled = true
action_edge ActionStatus.leased ActionStatus.in_flight = true
action_edge ActionStatus.leased ActionStatus.approved = true
action_edge ActionStatus.leased ActionStatus.cancelled = true
action_edge ActionStatus.leased ActionStatus.unknown_side_effect = true
action_edge ActionStatus.in_flight ActionStatus.completed = true
action_edge ActionStatus.in_flight ActionStatus.failed = true
action_edge ActionStatus.in_flight ActionStatus.unknown_side_effect = true
action_edge ActionStatus.unknown_side_effect ActionStatus.completed = true
action_edge ActionStatus.unknown_side_effect ActionStatus.failed = true
action_edge ActionStatus.unknown_side_effect ActionStatus.rolling_back = true
action_edge ActionStatus.failed ActionStatus.rolling_back = true
action_edge ActionStatus.rolling_back ActionStatus.rolled_back = true
action_edge ActionStatus.rolling_back ActionStatus.rollback_failed = true
action_edge _ _ = false

unfoldable pub is_action_transition_allowed : ActionStatus → ActionStatus → Bool
unfolding action_edge
is_action_transition_allowed from to = if action_eq from to then false else action_edge from to

-- The checks of `validate_base_inputs` on `parent_action_id`.
unfoldable pub check_parent_id : Option Text → Text → Result DomainTaskErrorCode (Unit {0})
check_parent_id none action_id = ok tt
check_parent_id (some parent) action_id = do
  reject_if (is_blank parent) invalid_input
  reject_if (text_eq parent action_id) invalid_input

unfoldable pub validate_base_inputs :
    ActionTransitionCommand → Result DomainTaskErrorCode (Unit {0})
validate_base_inputs cmd = do
  reject_if (is_blank cmd.action_id) invalid_input
  check_parent_id cmd.parent_action_id cmd.action_id
  reject_if (ltb cmd.current_revision 1) invalid_input
  reject_if (is_blank cmd.reason) invalid_input

-- `if let Some(expected) = expected_revision { if expected != current_revision { .. } }`
abbrev pub check_expected_revision : Option ℕ → ℕ → Result DomainTaskErrorCode (Unit {0})
check_expected_revision none current_revision = ok tt
check_expected_revision (some expected) current_revision =
    reject_if (not (expected == current_revision)) expected_revision_conflict

-- `status == from && target == to`
abbrev pub is_edge : ActionTransitionCommand → ActionStatus → ActionStatus → Bool
is_edge cmd from to = action_eq cmd.current_status from && action_eq cmd.target_status to

abbrev pub is_some {ℓ} : {A : Type ℓ} → Option A → Bool
is_some none = false
is_some (some a) = true

-- A reference that has to be there and not blank; both failures are missing evidence.
unfoldable pub require_ref : Option Text → Result DomainTaskErrorCode (Unit {0})
require_ref reference = do
  permission ← ok_or reference missing_evidence
  reject_if (is_blank permission) missing_evidence

unfoldable pub lease_release : ActionTransitionCommand → Text → LeaseReleaseEffect
lease_release cmd reason = record {
  action_id = cmd.action_id;
  reason = reason;
  release_all_resource_locks = true;
  invalidate_lease = true;
}

-- `matches!(status, Completed | RolledBack | RollbackFailed | Cancelled)`
abbrev pub is_terminal : ActionStatus → Bool
is_terminal ActionStatus.completed = true
is_terminal ActionStatus.rolled_back = true
is_terminal ActionStatus.rollback_failed = true
is_terminal ActionStatus.cancelled = true
is_terminal _ = false

-- `matches!(status, RollingBack | RolledBack | RollbackFailed)`
abbrev pub is_recovery : ActionStatus → Bool
is_recovery ActionStatus.rolling_back = true
is_recovery ActionStatus.rolled_back = true
is_recovery ActionStatus.rollback_failed = true
is_recovery _ = false

unfoldable pub is_compensation : ActionTransitionCommand → Bool
is_compensation cmd = is_some cmd.parent_action_id

unfoldable pub enforce_compensation_parent_constraints :
    ActionTransitionCommand → Result DomainTaskErrorCode (Unit {0})
unfolding is_compensation
enforce_compensation_parent_constraints cmd = if not (is_compensation cmd) then ok tt else do
  reject_if (is_recovery cmd.target_status || is_recovery cmd.current_status) invariant_violation
  reject_if (is_edge cmd ActionStatus.failed ActionStatus.rolling_back) invariant_violation

-- `enforce_failed_verification`, from the outcome on.
abbrev pub check_failed_outcome :
    VerificationResultOutcome → Option Bool → Result DomainTaskErrorCode (Unit {0})
check_failed_outcome verified_ok confirmed = err invariant_violation
check_failed_outcome verified_failed (some true) = err invariant_violation
check_failed_outcome verified_failed _ = ok tt
check_failed_outcome inconclusive (some false) = ok tt
check_failed_outcome inconclusive _ = err invariant_violation

unfoldable pub enforce_failed_verification :
    ActionTransitionCommand → Result DomainTaskErrorCode (Unit {0})
enforce_failed_verification cmd = do
  verification ← ok_or cmd.evidence.verification missing_evidence
  check_failed_outcome verification.outcome verification.side_effect_confirmed
