-- ===== src/DomainTask/Action/Enforce.antt =====
-- The guards of Action transitions and the transition itself
-- (rust/crates/domain-task/src/action.rs). Where the source writes to `effects`, a step returns the
-- new effects.
use shittim.Base.{
  Bool, true, false, not, ◌||◌, Option, none, some, if◌then◌else◌, Result, ok, err, ◌>>=◌, ◌>>◌,
  reject_if, ok_or, Text, codes, text_eq, is_blank,
}
use shittim.Contracts.TaskTypes.{
  ActionStatus, action_eq, verified_ok, verified_failed, inconclusive, VerificationResultOutcome,
}
use shittim.DomainTask.Error.{
  DomainTaskErrorCode, illegal_transition, invariant_violation, missing_evidence,
  illegal_compensation_draft, invalid_input,
}
use shittim.DomainTask.Types.{
  ActionEffects, default_effects, ActionTransitionOutcome, action_with_event, checked_increment,
}
use shittim.DomainTask.Action.{
  DispatchCertainty, not_started, uncertain, started, ActionTransitionCommand,
  CompensationActionDraft, is_action_transition_allowed, validate_base_inputs,
  check_expected_revision, is_edge, is_some, require_ref, lease_release, is_terminal,
  enforce_compensation_parent_constraints, enforce_failed_verification,
}

-- pending -> approved needs a permission decision
unfoldable pub check_approval : ActionTransitionCommand → Result DomainTaskErrorCode (Unit {0})
check_approval cmd =
    if is_edge cmd ActionStatus.pending ActionStatus.approved
    then require_ref cmd.evidence.permission_decision_ref
    else ok tt

-- a permission reference that is present is not blank
abbrev pub check_present_ref : Option Text → Result DomainTaskErrorCode (Unit {0})
check_present_ref none = ok tt
check_present_ref (some permission) = reject_if (is_blank permission) invalid_input

-- `reason_code.as_deref().unwrap_or("")`
abbrev pub text_or_empty : Option Text → Text
text_or_empty none = codes ""
text_or_empty (some s) = s

-- leased -> approved
unfoldable pub release_expired_lease :
    ActionTransitionCommand → ActionEffects → Result DomainTaskErrorCode ActionEffects
release_expired_lease cmd effects =
    if is_edge cmd ActionStatus.leased ActionStatus.approved
    then (do
      reject_if (not (text_eq (text_or_empty cmd.evidence.reason_code) (codes "lease_expired")))
          invariant_violation
      ok (record effects {
        release_lease_and_locks = some (lease_release cmd (codes "lease_expired"));
      }))
    else ok effects

abbrev cancel_by_certainty :
    Option DispatchCertainty
    → ActionTransitionCommand
    → ActionEffects
    → Result DomainTaskErrorCode ActionEffects
cancel_by_certainty (some not_started) cmd effects = ok (record effects {
  release_lease_and_locks = some (lease_release cmd (codes "cancelled_before_dispatch"));
})
cancel_by_certainty (some uncertain) cmd effects = err invariant_violation
cancel_by_certainty (some started) cmd effects = err invariant_violation
cancel_by_certainty none cmd effects = err missing_evidence

-- leased -> cancelled
unfoldable pub release_cancelled_lease :
    ActionTransitionCommand → ActionEffects → Result DomainTaskErrorCode ActionEffects
release_cancelled_lease cmd effects =
    if is_edge cmd ActionStatus.leased ActionStatus.cancelled
    then cancel_by_certainty cmd.evidence.dispatch_certainty cmd effects
    else ok effects

abbrev abandon_dispatch : ActionTransitionCommand → ActionEffects → ActionEffects
abandon_dispatch cmd effects = record effects {
  forbid_automatic_replay = true;
  release_lease_and_locks = some (lease_release cmd (codes "dispatch_uncertain"));
}

abbrev abandon_by_certainty :
    Option DispatchCertainty
    → ActionTransitionCommand
    → ActionEffects
    → Result DomainTaskErrorCode ActionEffects
abandon_by_certainty (some uncertain) cmd effects = ok (abandon_dispatch cmd effects)
abandon_by_certainty (some started) cmd effects = ok (abandon_dispatch cmd effects)
abandon_by_certainty (some not_started) cmd effects = err invariant_violation
abandon_by_certainty none cmd effects = err missing_evidence

-- leased -> unknown_side_effect
unfoldable pub release_uncertain_lease :
    ActionTransitionCommand → ActionEffects → Result DomainTaskErrorCode ActionEffects
release_uncertain_lease cmd effects =
    if is_edge cmd ActionStatus.leased ActionStatus.unknown_side_effect
    then abandon_by_certainty cmd.evidence.dispatch_certainty cmd effects
    else ok effects

-- in_flight -> unknown_side_effect
unfoldable pub forbid_replay_in_flight :
    ActionTransitionCommand → ActionEffects → Result DomainTaskErrorCode ActionEffects
forbid_replay_in_flight cmd effects =
    if is_edge cmd ActionStatus.in_flight ActionStatus.unknown_side_effect
    then (do
      reject_if (not (is_some cmd.evidence.uncertain_outcome_reason)) missing_evidence
      ok (record effects { forbid_automatic_replay = true }))
    else ok effects

abbrev pub is_verified_ok : VerificationResultOutcome → Bool
is_verified_ok verified_ok = true
is_verified_ok verified_failed = false
is_verified_ok inconclusive = false

-- completed needs a verification that ended verified_ok
unfoldable pub check_completed : ActionTransitionCommand → Result DomainTaskErrorCode (Unit {0})
check_completed cmd =
    if action_eq cmd.target_status ActionStatus.completed
    then (do
      verification ← ok_or cmd.evidence.verification missing_evidence
      reject_if (not (is_verified_ok verification.outcome)) invariant_violation)
    else ok tt

unfoldable pub check_failed : ActionTransitionCommand → Result DomainTaskErrorCode (Unit {0})
check_failed cmd =
    if action_eq cmd.target_status ActionStatus.failed
    then enforce_failed_verification cmd
    else ok tt

-- unknown_side_effect: no automatic replay
abbrev pub forbid_replay_unknown : ActionTransitionCommand → ActionEffects → ActionEffects
forbid_replay_unknown cmd effects =
    if action_eq cmd.target_status ActionStatus.unknown_side_effect
    then record effects { forbid_automatic_replay = true }
    else effects

unfoldable pub enforce_action_invariants :
    ActionTransitionCommand → ActionEffects → Result DomainTaskErrorCode ActionEffects
enforce_action_invariants cmd effects = do
  reject_if (is_terminal cmd.current_status) illegal_transition
  enforce_compensation_parent_constraints cmd
  check_approval cmd
  check_present_ref cmd.evidence.permission_decision_ref
  expired ← release_expired_lease cmd effects
  cancelled ← release_cancelled_lease cmd expired
  abandoned ← release_uncertain_lease cmd cancelled
  unknown ← forbid_replay_in_flight cmd abandoned
  check_completed cmd
  check_failed cmd
  ok (forbid_replay_unknown cmd unknown)

unfoldable pub apply_action_transition :
    ActionTransitionCommand → Result DomainTaskErrorCode ActionTransitionOutcome
apply_action_transition cmd = do
  validate_base_inputs cmd
  check_expected_revision cmd.expected_revision cmd.current_revision
  reject_if (not (is_action_transition_allowed cmd.current_status cmd.target_status))
      illegal_transition
  effects ← enforce_action_invariants cmd default_effects
  new_revision ← ok_or (checked_increment cmd.current_revision) invalid_input
  ok (action_with_event cmd.current_status cmd.target_status new_revision true effects cmd.reason)

unfoldable pub enforce_confirm_metadata :
    ActionTransitionCommand → ActionEffects → Result DomainTaskErrorCode ActionEffects
unfolding require_ref
enforce_confirm_metadata cmd effects = do
  require_ref cmd.evidence.permission_decision_ref
  ok (record effects { requires_approval_record_ref = true })

unfoldable pub apply_confirm_metadata_update :
    ActionTransitionCommand → Result DomainTaskErrorCode ActionTransitionOutcome
apply_confirm_metadata_update cmd = do
  validate_base_inputs cmd
  check_expected_revision cmd.expected_revision cmd.current_revision
  reject_if
      (not (action_eq cmd.current_status ActionStatus.pending)
        || not (action_eq cmd.target_status ActionStatus.pending))
      invariant_violation
  effects ← enforce_confirm_metadata cmd default_effects
  new_revision ← ok_or (checked_increment cmd.current_revision) invalid_input
  ok (
      action_with_event ActionStatus.pending ActionStatus.pending new_revision false effects
        cmd.reason)

-- `reference.as_ref().is_some_and(|r| !r.trim().is_empty())`
abbrev pub is_named : Option Text → Bool
is_named none = false
is_named (some r) = not (is_blank r)

unfoldable pub validate_compensation_action_draft :
    CompensationActionDraft → Result DomainTaskErrorCode (Unit {0})
validate_compensation_action_draft draft = do
  reject_if (is_blank draft.action_id || is_blank draft.parent_action_id) illegal_compensation_draft
  reject_if (text_eq draft.action_id draft.original_action_id) illegal_compensation_draft
  reject_if (not (text_eq draft.parent_action_id draft.original_action_id))
      illegal_compensation_draft
  reject_if (is_blank draft.idempotency_key) illegal_compensation_draft
  reject_if (text_eq draft.idempotency_key draft.original_idempotency_key)
      illegal_compensation_draft
  reject_if (not (action_eq draft.status ActionStatus.pending)) illegal_compensation_draft
  reject_if (is_named draft.permission_decision_ref) illegal_compensation_draft
