-- ===== src/Contracts/TaskTypes.antt =====
-- The closed status sets of Tasks and Actions
-- (rust/crates/kernel-contracts/src/generated/types.rs). The derived `PartialEq` of an enum without
-- fields compares discriminants.
use shittim.Base.{ℕ, Bool, true, ◌≡◌, ◌↔◌, arith, ◌==◌}

pub data TaskStatus : Type 0 where
  candidate awaiting_approval planned rejected running waiting_user paused : TaskStatus
  partially_completed succeeded failed cancelled rolling_back rolled_back archived : TaskStatus

pub data ActionStatus : Type 0 where
  pending approved leased in_flight completed failed unknown_side_effect : ActionStatus
  rolling_back rolled_back rollback_failed cancelled : ActionStatus

pub data VerificationResultOutcome : Type 0 where
  verified_ok verified_failed inconclusive : VerificationResultOutcome

pub data RecoveryDecisionCandidateCandidateKind : Type 0 where
  verify_external_state retry_original compensate : RecoveryDecisionCandidateCandidateKind
  continue_task stop_task mark_failed : RecoveryDecisionCandidateCandidateKind

abbrev pub task_discriminant : TaskStatus → ℕ
task_discriminant TaskStatus.candidate = 0
task_discriminant TaskStatus.awaiting_approval = 1
task_discriminant TaskStatus.planned = 2
task_discriminant TaskStatus.rejected = 3
task_discriminant TaskStatus.running = 4
task_discriminant TaskStatus.waiting_user = 5
task_discriminant TaskStatus.paused = 6
task_discriminant TaskStatus.partially_completed = 7
task_discriminant TaskStatus.succeeded = 8
task_discriminant TaskStatus.failed = 9
task_discriminant TaskStatus.cancelled = 10
task_discriminant TaskStatus.rolling_back = 11
task_discriminant TaskStatus.rolled_back = 12
task_discriminant TaskStatus.archived = 13

abbrev pub action_discriminant : ActionStatus → ℕ
action_discriminant ActionStatus.pending = 0
action_discriminant ActionStatus.approved = 1
action_discriminant ActionStatus.leased = 2
action_discriminant ActionStatus.in_flight = 3
action_discriminant ActionStatus.completed = 4
action_discriminant ActionStatus.failed = 5
action_discriminant ActionStatus.unknown_side_effect = 6
action_discriminant ActionStatus.rolling_back = 7
action_discriminant ActionStatus.rolled_back = 8
action_discriminant ActionStatus.rollback_failed = 9
action_discriminant ActionStatus.cancelled = 10

-- `==` on TaskStatus and on ActionStatus
abbrev pub task_eq : TaskStatus → TaskStatus → Bool
task_eq s t = task_discriminant s == task_discriminant t

abbrev pub action_eq : ActionStatus → ActionStatus → Bool
action_eq s t = action_discriminant s == action_discriminant t

pub task_eq_iff : (s t : TaskStatus) → (task_eq s t ≡ true) ↔ (s ≡ t)
task_eq_iff s t = (λ h. ground arith, λ e. ground arith)

pub action_eq_iff : (s t : ActionStatus) → (action_eq s t ≡ true) ↔ (s ≡ t)
action_eq_iff s t = (λ h. ground arith, λ e. ground arith)
