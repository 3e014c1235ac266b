-- ===== src/DomainTask/TaskExamples.antt =====
-- The Task theorems at concrete commands, and tests of the transitions.
use shittim.Base.{
  none, ℕ, ◌+◌, ◌≤◌, true, false, some, List, [], ◌∷◌, ◌≡◌, ◌≢◌, ◌↔◌, ◌⊎◌, inl, refl, arith, ok,
  err, Text, codes, is_blank, text_cmp, text_eq,
}
use shittim.Contracts.TaskTypes.{
  candidate, planned, running, succeeded, failed, rejected, archived, rolling_back,
  partially_completed,
}
use shittim.DomainTask.Error.{
  illegal_transition, expected_revision_conflict, invariant_violation, invalid_input,
}
use shittim.DomainTask.CountMap.{increment, counts_eq}
use shittim.DomainTask.Task.{
  TaskTransitionCommand, is_task_transition_allowed, validate_base_inputs,
  enforce_succeeded_coverage, enforce_task_invariants, count_required, count_evidence,
  check_evidence, apply_task_transition,
}
use shittim.DomainTask.Types.{task_with_event}
use shittim.DomainTask.Task.Coverage.{IsNotBlank, IsCovered, enforce_succeeded_coverage_iff}
use shittim.DomainTask.Task.Apply.{
  IsApplicable, NamesSideEffects, outcome_of, apply_task_transition_iff,
}
use shittim.DomainTask.Task.Errors.{apply_task_transition_refusals}
use shittim.DomainTask.Task.History.{
  TaskState, Step, History, start, next, steps, History-counts, History-final, History-evidence,
}
use shittim.DomainTask.Task.Realize.{
  command_for, is_task_transition_allowed-realized, Walk, Walk-complete,
}

abbrev succeed : TaskTransitionCommand
succeed = command_for running succeeded 4 1

-- The evidence names another criterion.
abbrev uncovered : TaskTransitionCommand
uncovered = record succeed { required_success_criteria = codes "done" ∷ codes " done " ∷ [] }

uncovered_refused : apply_task_transition uncovered ≡ err invariant_violation
unfolding apply_task_transition validate_base_inputs is_task_transition_allowed
    enforce_task_invariants enforce_succeeded_coverage count_required count_evidence check_evidence
    counts_eq increment is_blank text_cmp text_eq
uncovered_refused = refl

apply_task_transition_iff_example :
    (apply_task_transition succeed ≡ ok (outcome_of succeed))
    ↔ (IsApplicable succeed × (outcome_of succeed ≡ outcome_of succeed))
apply_task_transition_iff_example = apply_task_transition_iff succeed (outcome_of succeed)

enforce_succeeded_coverage_iff_example :
    (enforce_succeeded_coverage uncovered ≡ ok tt) ↔ IsCovered uncovered
enforce_succeeded_coverage_iff_example = enforce_succeeded_coverage_iff uncovered

abbrev two_texts : List Text
two_texts = codes "b" ∷ codes "a" ∷ []

abbrev stale : TaskTransitionCommand
stale = record (command_for candidate archived 4 1) { expected_revision = some 3 }

apply_task_transition_refusals_example :
    ((stale.current_revision ≡ 0) ⊎ (is_blank stale.reason ≡ true)
      → apply_task_transition stale ≡ err invalid_input)
    × ((n : ℕ)
        → 1 ≤ stale.current_revision
        → IsNotBlank stale.reason
        → stale.expected_revision ≡ some n
        → n ≢ stale.current_revision
        → apply_task_transition stale ≡ err expected_revision_conflict)
    × (1 ≤ stale.current_revision
        → IsNotBlank stale.reason
        → (stale.expected_revision ≡ none) ⊎ (stale.expected_revision ≡ some stale.current_revision)
        → is_task_transition_allowed stale.current_status stale.target_status ≡ false
        → apply_task_transition stale ≡ err illegal_transition)
apply_task_transition_refusals_example = apply_task_transition_refusals stale

realized_example : apply_task_transition succeed ≡ ok (outcome_of succeed)
unfolding is_task_transition_allowed
realized_example =
    is_task_transition_allowed-realized running succeeded 4 1 refl (omega arith) (omega arith)
      (omega arith)

Walk-complete_example :
    Walk candidate rolling_back × (Walk rolling_back rejected ⊎ Walk rolling_back archived)
Walk-complete_example = Walk-complete rolling_back

abbrev at_failed : TaskState
at_failed = record { status = failed; revision = 5; plan_version = 0 }

abbrev at_planned : TaskState
at_planned = record { status = planned; revision = 6; plan_version = 1 }

abbrev replan : TaskTransitionCommand
replan = command_for failed planned 5 0

replan-Step : Step at_failed at_planned replan
unfolding is_task_transition_allowed task_with_event
replan-Step = record {
  status_read = refl;
  revision_read = refl;
  plan_version_read = refl;
  out = outcome_of replan;
  applied =
      is_task_transition_allowed-realized failed planned 5 0 refl (omega arith) (omega arith)
        (omega arith);
  status_stored = refl;
  revision_stored = refl;
  plan_version_stored = refl;
}

abbrev replanned : History at_failed at_planned
replanned = next replan start replan-Step

History-counts_example : (6 ≡ at_failed.revision + 1) × (1 ≡ at_failed.plan_version + 1)
History-counts_example = History-counts replanned

abbrev at_rejected : TaskState
at_rejected = record { status = rejected; revision = 2; plan_version = 0 }

abbrev rejected_at_once : History at_rejected at_rejected
rejected_at_once = start

History-final_example : steps rejected_at_once ≡ 0
History-final_example = History-final rejected_at_once (inl refl)

abbrev at_running : TaskState
at_running = record { status = running; revision = 4; plan_version = 1 }

abbrev at_succeeded : TaskState
at_succeeded = record { status = succeeded; revision = 5; plan_version = 1 }

succeed-Step : Step at_running at_succeeded succeed
unfolding task_with_event
succeed-Step = record {
  status_read = refl;
  revision_read = refl;
  plan_version_read = refl;
  out = outcome_of succeed;
  applied = realized_example;
  status_stored = refl;
  revision_stored = refl;
  plan_version_stored = refl;
}

History-evidence_example :
    (succeeded ≡ succeeded → IsCovered succeed)
    × (succeeded ≡ partially_completed → NamesSideEffects succeed.produced_side_effect_refs)
    × (succeeded ≡ rolling_back → NamesSideEffects succeed.rollback_required_side_effect_refs)
History-evidence_example = History-evidence (next succeed start succeed-Step) succeed refl
