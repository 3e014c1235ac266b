-- ===== src/DomainTask/Task.antt =====
-- Task transitions (rust/crates/domain-task/src/task.rs).
pub mod Coverage
pub mod Apply
pub mod Errors
pub mod History
pub mod Realize
use shittim.Base.{
  ℕ, Bool, true, false, not, ◌&&◌, ◌||◌, Option, none, some, List, [], ◌∷◌, ltb, ◌==◌,
  if◌then◌else◌, is_empty, Result, ok, err, ◌>>=◌, ◌>>◌, reject_if, ok_or, Text, trim, is_blank,
}
use shittim.Contracts.TaskTypes.{
  TaskStatus, task_eq, VerificationResultOutcome, verified_ok, verified_failed, inconclusive,
}
use shittim.DomainTask.Error.{
  DomainTaskErrorCode, illegal_transition, expected_revision_conflict, invariant_violation,
  missing_evidence, invalid_input,
}
use shittim.DomainTask.Types.{
  SideEffectRef, VerificationEvidenceSummary, TaskTransitionOutcome, task_with_event,
  checked_increment,
}
use shittim.DomainTask.CountMap.{CountMap, increment, counts_eq}

pub record SuccessCriterionEvidence : Type 0 where
  pub criterion : Text
  pub satisfied : Bool
  pub verification : Option VerificationEvidenceSummary

pub record TaskTransitionCommand : Type 0 where
  pub current_status : TaskStatus
  pub current_revision : ℕ
  pub current_plan_version : ℕ
  pub expected_revision : Option ℕ
  pub target_status : TaskStatus
  pub reason : Text
  pub replan : Bool
  pub required_success_criteria : List Text
  pub success_criteria_evidence : List SuccessCriterionEvidence
  pub produced_side_effect_refs : List SideEffectRef
  pub rollback_required_side_effect_refs : List SideEffectRef

-- The `match from` of `is_task_transition_allowed`.
unfoldable pub task_edge : TaskStatus → TaskStatus → Bool
task_edge TaskStatus.candidate TaskStatus.awaiting_approval = true
task_edge TaskStatus.candidate TaskStatus.planned = true
task_edge TaskStatus.candidate TaskStatus.rejected = true
task_edge TaskStatus.awaiting_approval TaskStatus.planned = true
task_edge TaskStatus.awaiting_approval TaskStatus.rejected = true
task_edge TaskStatus.planned TaskStatus.running = true
task_edge TaskStatus.planned TaskStatus.cancelled = true
task_edge TaskStatus.planned TaskStatus.rejected = true
task_edge TaskStatus.running TaskStatus.waiting_user = true
task_edge TaskStatus.running TaskStatus.paused = true
task_edge TaskStatus.running TaskStatus.partially_completed = true
task_edge TaskStatus.running TaskStatus.succeeded = true
task_edge TaskStatus.running TaskStatus.failed = true
task_edge TaskStatus.running TaskStatus.cancelled = true
task_edge TaskStatus.running TaskStatus.rolling_back = true
task_edge TaskStatus.waiting_user TaskStatus.running = true
task_edge TaskStatus.waiting_user TaskStatus.cancelled = true
task_edge TaskStatus.waiting_user TaskStatus.rolling_back = true
task_edge TaskStatus.paused TaskStatus.running = true
task_edge TaskStatus.paused TaskStatus.cancelled = true
task_edge TaskStatus.paused TaskStatus.rolling_back = true
task_edge TaskStatus.partially_completed TaskStatus.running = true
task_edge TaskStatus.partially_completed TaskStatus.succeeded = true
task_edge TaskStatus.partially_completed TaskStatus.failed = true
task_edge TaskStatus.partially_completed TaskStatus.cancelled = true
task_edge TaskStatus.partially_completed TaskStatus.rolling_back = true
task_edge TaskStatus.succeeded TaskStatus.archived = true
task_edge TaskStatus.failed TaskStatus.archived = true
task_edge TaskStatus.failed TaskStatus.planned = true
task_edge TaskStatus.failed TaskStatus.rolling_back = true
task_edge TaskStatus.cancelled TaskStatus.archived = true
task_edge TaskStatus.cancelled TaskStatus.rolling_back = true
task_edge TaskStatus.rolling_back TaskStatus.rolled_back = true
task_edge TaskStatus.rolling_back TaskStatus.failed = true
task_edge TaskStatus.rolled_back TaskStatus.archived = true
task_edge TaskStatus.rolled_back TaskStatus.planned = true
task_edge _ _ = false

unfoldable pub is_task_transition_allowed : TaskStatus → TaskStatus → Bool
unfolding task_edge
is_task_transition_allowed from to = if task_eq from to then false else task_edge from to

abbrev E : Type 0
E = DomainTaskErrorCode

unfoldable pub validate_base_inputs : TaskTransitionCommand → Result DomainTaskErrorCode (Unit {0})
validate_base_inputs cmd = do
  reject_if (ltb cmd.current_revision 1) invalid_input
  reject_if (is_blank cmd.reason) invalid_input

-- `matches!((from, to), (Failed, Planned) | (RolledBack, Planned))`
abbrev pub is_replan_edge : TaskStatus → TaskStatus → Bool
is_replan_edge TaskStatus.failed TaskStatus.planned = true
is_replan_edge TaskStatus.rolled_back TaskStatus.planned = true
is_replan_edge _ _ = false

unfoldable pub requires_plan_version_increment : TaskTransitionCommand → Bool
requires_plan_version_increment cmd = is_replan_edge cmd.current_status cmd.target_status

-- The loop over `required_success_criteria`.
unfoldable pub count_required : List Text → CountMap → Result DomainTaskErrorCode CountMap
count_required [] counts = ok counts
count_required (content ∷ rest) counts =
    let next = count_required rest (increment (trim content) counts) in
    if is_blank content then err invalid_input else next

abbrev pub is_verified_ok : VerificationResultOutcome → Bool
is_verified_ok verified_ok = true
is_verified_ok verified_failed = false
is_verified_ok inconclusive = false

-- The checks of one round of the loop over `success_criteria_evidence`.
unfoldable pub check_evidence : SuccessCriterionEvidence → Result DomainTaskErrorCode (Unit {0})
check_evidence item = do
  reject_if (is_blank item.criterion) invalid_input
  reject_if (not item.satisfied) invariant_violation
  verification ← ok_or item.verification missing_evidence
  reject_if (not (is_verified_ok verification.outcome)) invariant_violation

unfoldable pub count_evidence :
    List SuccessCriterionEvidence → CountMap → Result DomainTaskErrorCode CountMap
count_evidence [] counts = ok counts
count_evidence (item ∷ rest) counts =
    let next = count_evidence rest (increment (trim item.criterion) counts) in
    check_evidence item >> next

unfoldable pub enforce_succeeded_coverage :
    TaskTransitionCommand → Result DomainTaskErrorCode (Unit {0})
enforce_succeeded_coverage cmd = do
  reject_if (is_empty cmd.required_success_criteria) missing_evidence
  required_counts ← count_required cmd.required_success_criteria []
  reject_if (is_empty cmd.success_criteria_evidence) missing_evidence
  evidence_counts ← count_evidence cmd.success_criteria_evidence []
  reject_if (not (counts_eq required_counts evidence_counts)) invariant_violation

-- The loop of `validate_non_empty_side_effect_refs`.
unfoldable pub check_ref_ids : List SideEffectRef → Result DomainTaskErrorCode (Unit {0})
check_ref_ids [] = ok tt
check_ref_ids (side_effect ∷ rest) =
    let next = check_ref_ids rest in if is_blank side_effect.ref_id then err invalid_input else next

unfoldable pub validate_non_empty_side_effect_refs :
    List SideEffectRef → Result DomainTaskErrorCode (Unit {0})
validate_non_empty_side_effect_refs refs = do
  reject_if (is_empty refs) missing_evidence
  check_ref_ids refs

-- `matches!(status, Rejected | Archived)`
abbrev pub is_rejected_or_archived : TaskStatus → Bool
is_rejected_or_archived TaskStatus.rejected = true
is_rejected_or_archived TaskStatus.archived = true
is_rejected_or_archived _ = false

-- `matches!(status, Succeeded | Failed | Cancelled | RolledBack)`
abbrev pub may_be_archived : TaskStatus → Bool
may_be_archived TaskStatus.succeeded = true
may_be_archived TaskStatus.failed = true
may_be_archived TaskStatus.cancelled = true
may_be_archived TaskStatus.rolled_back = true
may_be_archived _ = false

-- `if b { check?; }`
abbrev pub when :
    Bool → Result DomainTaskErrorCode (Unit {0}) → Result DomainTaskErrorCode (Unit {0})
when true check = check
when false check = ok tt

unfoldable pub enforce_task_invariants :
    TaskTransitionCommand → Result DomainTaskErrorCode (Unit {0})
enforce_task_invariants cmd = do
  reject_if (is_rejected_or_archived cmd.current_status) illegal_transition
  reject_if
      (task_eq cmd.target_status TaskStatus.archived && not (may_be_archived cmd.current_status))
      illegal_transition
  when (task_eq cmd.target_status TaskStatus.succeeded) (enforce_succeeded_coverage cmd)
  when (task_eq cmd.target_status TaskStatus.partially_completed)
      (validate_non_empty_side_effect_refs cmd.produced_side_effect_refs)
  when (task_eq cmd.target_status TaskStatus.rolling_back)
      (validate_non_empty_side_effect_refs cmd.rollback_required_side_effect_refs)
  reject_if (cmd.replan && not (is_replan_edge cmd.current_status cmd.target_status))
      invariant_violation

-- `if let Some(expected) = expected_revision { if expected != current_revision { .. } }`
abbrev pub check_expected_revision : Option ℕ → ℕ → Result DomainTaskErrorCode (Unit {0})
check_expected_revision none current_revision = ok tt
check_expected_revision (some expected) current_revision =
    reject_if (not (expected == current_revision)) expected_revision_conflict

unfoldable pub apply_task_transition :
    TaskTransitionCommand → Result DomainTaskErrorCode TaskTransitionOutcome
apply_task_transition cmd = do
  validate_base_inputs cmd
  check_expected_revision cmd.expected_revision cmd.current_revision
  reject_if (not (is_task_transition_allowed cmd.current_status cmd.target_status))
      illegal_transition
  enforce_task_invariants cmd
  let plan_version_incremented = requires_plan_version_increment cmd
  reject_if (cmd.replan && not plan_version_incremented) invariant_violation
  new_plan_version ←
      if plan_version_incremented
      then ok_or (checked_increment cmd.current_plan_version) invalid_input
      else ok cmd.current_plan_version
  new_revision ← ok_or (checked_increment cmd.current_revision) invalid_input
  ok (
      task_with_event cmd.current_status cmd.target_status new_revision new_plan_version
        plan_version_incremented cmd.reason)
