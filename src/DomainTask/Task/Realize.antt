-- ===== src/DomainTask/Task/Realize.antt =====
-- Every edge of the Task graph can be taken, and every Task can be finished
-- (rust/crates/domain-task/src/task.rs).
use shittim.Base.{
  ℕ, ◌+◌, ◌≤◌, ◌<◌, true, false, none, some, [], ◌∷◌, ◌≡◌, ◌⊎◌, inl, inr, refl, ok, Text, codes,
  is_blank,
}
use shittim.Contracts.TaskTypes.{TaskStatus, rejected, archived, candidate, verified_ok}
use shittim.DomainTask.Task.{
  SuccessCriterionEvidence, TaskTransitionCommand, is_task_transition_allowed,
  apply_task_transition,
}
use shittim.DomainTask.Task.Coverage.{IsCovered}
use shittim.DomainTask.Task.Apply.{NamesSideEffects, outcome_of, apply_task_transition_iff}

abbrev done : Text
done = codes "done"

abbrev done_proof : SuccessCriterionEvidence
done_proof = record {
  criterion = done;
  satisfied = true;
  verification = some (record {
    outcome = verified_ok;
    verification_result_ref = none;
    side_effect_confirmed = some true;
  });
}

-- A command for an edge, with evidence for whatever the target asks.
abbrev pub command_for : TaskStatus → TaskStatus → ℕ → ℕ → TaskTransitionCommand
command_for from to revision plan_version = record {
  current_status = from;
  current_revision = revision;
  current_plan_version = plan_version;
  expected_revision = some revision;
  target_status = to;
  reason = done;
  replan = false;
  required_success_criteria = done ∷ [];
  success_criteria_evidence = done_proof ∷ [];
  produced_side_effect_refs = record { ref_id = done } ∷ [];
  rollback_required_side_effect_refs = record { ref_id = done } ∷ [];
}

done_named : is_blank done ≡ false
unfolding is_blank
done_named = refl

command_for-IsCovered :
    (from to : TaskStatus) (revision plan_version : ℕ)
    → IsCovered (command_for from to revision plan_version)
command_for-IsCovered from to revision plan_version = record {
  some_required = λ e. cc;
  all_named = (done_named, tt);
  all_proofs = (record { named = done_named; satisfied = refl; verified = (_, refl, refl) }, tt);
  same_multiset = λ content. refl;
}

names_done : NamesSideEffects (record { ref_id = done } ∷ [])
names_done = (λ e. cc, (done_named, tt))

-- Whatever the graph allows can be done: for every allowed edge, revision and plan version with
-- room to grow there is a command that is applied, and the Task then has the target status.
pub is_task_transition_allowed-realized :
    (from to : TaskStatus) (revision plan_version : ℕ)
    → is_task_transition_allowed from to ≡ true
    → 1 ≤ revision
    → revision + 1 < 18446744073709551616
    → plan_version + 1 < 18446744073709551616
    → apply_task_transition (command_for from to revision plan_version)
      ≡ ok (outcome_of (command_for from to revision plan_version))
is_task_transition_allowed-realized from to revision plan_version edge positive room plan_room =
    let cmd = command_for from to revision plan_version in
    (apply_task_transition_iff cmd (outcome_of cmd)).1 (
      record {
        revision_positive = positive;
        reason_given = done_named;
        revision_expected = inr refl;
        edge_allowed = edge;
        success_covered = λ e. command_for-IsCovered from to revision plan_version;
        partial_effects = λ e. names_done;
        rollback_effects = λ e. names_done;
        replan_edge = λ e. cc;
        plan_version_room = λ e. plan_room;
        revision_room = room;
      },
      refl,
    )

-- A walk along allowed edges.
pub data Walk (from : TaskStatus) : TaskStatus → Type 0 where
  here : Walk from from
  along : {s t : TaskStatus} → Walk from s → is_task_transition_allowed s t ≡ true → Walk from t

to_planned : Walk candidate TaskStatus.planned
unfolding is_task_transition_allowed
to_planned = along here refl

to_running : Walk candidate TaskStatus.running
unfolding is_task_transition_allowed
to_running = along to_planned refl

to_rolling_back : Walk candidate TaskStatus.rolling_back
unfolding is_task_transition_allowed
to_rolling_back = along to_running refl

from_candidate : (s : TaskStatus) → Walk candidate s
unfolding is_task_transition_allowed
from_candidate TaskStatus.candidate = here
from_candidate TaskStatus.awaiting_approval = along here refl
from_candidate TaskStatus.planned = to_planned
from_candidate TaskStatus.rejected = along here refl
from_candidate TaskStatus.running = to_running
from_candidate TaskStatus.rolling_back = to_rolling_back
from_candidate TaskStatus.rolled_back = along to_rolling_back refl
from_candidate TaskStatus.archived = along (along {t = TaskStatus.failed} to_running refl) refl
from_candidate _ = along to_running refl

to_the_end : (s : TaskStatus) → Walk s rejected ⊎ Walk s archived
unfolding is_task_transition_allowed
to_the_end TaskStatus.candidate = inl (along here refl)
to_the_end TaskStatus.awaiting_approval = inl (along here refl)
to_the_end TaskStatus.planned = inl (along here refl)
to_the_end TaskStatus.rejected = inl here
to_the_end TaskStatus.archived = inr here
to_the_end TaskStatus.succeeded = inr (along here refl)
to_the_end TaskStatus.failed = inr (along here refl)
to_the_end TaskStatus.cancelled = inr (along here refl)
to_the_end TaskStatus.rolled_back = inr (along here refl)
to_the_end TaskStatus.rolling_back = inr (along (along {t = TaskStatus.failed} here refl) refl)
to_the_end _ = inr (along (along {t = TaskStatus.cancelled} here refl) refl)

-- Every status is reached from candidate along allowed edges, and from every status allowed edges
-- lead on to rejected or to archived.
pub Walk-complete : (s : TaskStatus) → Walk candidate s × (Walk s rejected ⊎ Walk s archived)
Walk-complete s = (from_candidate s, to_the_end s)
