-- ===== src/DomainTask/Task/Errors.antt =====
-- The order in which `apply_task_transition` refuses (rust/crates/domain-task/src/task.rs).
use shittim.Base.{ℕ, ◌≤◌, true, false, none, some, ◌≡◌, ◌≢◌, ◌⊎◌, arith, err, is_blank}
use shittim.DomainTask.Error.{illegal_transition, expected_revision_conflict, invalid_input}
use shittim.DomainTask.Task.{
  TaskTransitionCommand, is_task_transition_allowed, validate_base_inputs, apply_task_transition,
}
use shittim.DomainTask.Task.Coverage.{IsNotBlank}

-- A command with no revision or a blank reason is refused as invalid input, whatever else it asks
-- for. Otherwise an expected revision other than the current one is refused as a conflict, also on
-- an illegal edge. Otherwise, with no expected revision or the current one, an illegal edge is
-- refused as an illegal transition, before any evidence is looked at.
pub apply_task_transition_refusals :
    (cmd : TaskTransitionCommand)
    → ((cmd.current_revision ≡ 0) ⊎ (is_blank cmd.reason ≡ true)
        → apply_task_transition cmd ≡ err invalid_input)
      × ((n : ℕ)
          → 1 ≤ cmd.current_revision
          → IsNotBlank cmd.reason
          → cmd.expected_revision ≡ some n
          → n ≢ cmd.current_revision
          → apply_task_transition cmd ≡ err expected_revision_conflict)
      × (1 ≤ cmd.current_revision
          → IsNotBlank cmd.reason
          → (cmd.expected_revision ≡ none) ⊎ (cmd.expected_revision ≡ some cmd.current_revision)
          → is_task_transition_allowed cmd.current_status cmd.target_status ≡ false
          → apply_task_transition cmd ≡ err illegal_transition)
unfolding apply_task_transition validate_base_inputs
apply_task_transition_refusals cmd = (
  λ h. ground arith,
  λ n positive reason expected other. ground arith,
  λ positive reason expected edge. ground arith,
)
