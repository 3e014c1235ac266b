-- ===== src/DomainTask/Task/Apply.antt =====
-- What `apply_task_transition` accepts, and what it then returns
-- (rust/crates/domain-task/src/task.rs).
use shittim.Base.{
  ◌+◌, ◌<◌, ◌≤◌, true, false, not, ◌&&◌, none, some, List, [], ◌∷◌, ◌≡◌, ◌≢◌, ◌↔◌, ◌⊎◌, inl, inr,
  refl, arith, All, Result, ok, is_blank, if◌then◌else◌, Bool-cases,
}
use shittim.Contracts.TaskTypes.{
  TaskStatus, task_eq, task_eq_iff, succeeded, partially_completed, rolling_back, archived,
}
use shittim.DomainTask.Error.{DomainTaskErrorCode}
use shittim.DomainTask.Types.{
  SideEffectRef, TaskTransitionOutcome, task_with_event, checked_increment,
}
use shittim.DomainTask.Task.{
  TaskTransitionCommand, is_task_transition_allowed, validate_base_inputs, is_replan_edge,
  requires_plan_version_increment, check_ref_ids, validate_non_empty_side_effect_refs,
  is_rejected_or_archived, may_be_archived, when, enforce_task_invariants, apply_task_transition,
}
use shittim.DomainTask.Task.Coverage.{IsNotBlank, IsCovered, enforce_succeeded_coverage_iff}

-- The list names at least one side effect, and none of its entries is blank.
abbrev pub NamesSideEffects : List SideEffectRef → Type 0
NamesSideEffects refs = (refs ≢ []) × All (λ r. IsNotBlank r.ref_id) refs

check_ref_ids_iff :
    (refs : List SideEffectRef) → (check_ref_ids refs ≡ ok tt) ↔ All (λ r. IsNotBlank r.ref_id) refs
unfolding check_ref_ids
check_ref_ids_iff [] = (λ h. tt, λ a. refl)
check_ref_ids_iff (r ∷ refs) = elim (Bool-cases (is_blank r.ref_id)) [
  | inl blank ↦ rw blank ((λ h. cc), λ a. cc)
  | inr named ↦
      rw named ((λ h. (refl, (check_ref_ids_iff refs).0 h)), λ a. (check_ref_ids_iff refs).1 a.1)
]

pub validate_non_empty_side_effect_refs_iff :
    (refs : List SideEffectRef)
    → (validate_non_empty_side_effect_refs refs ≡ ok tt) ↔ NamesSideEffects refs
unfolding validate_non_empty_side_effect_refs
validate_non_empty_side_effect_refs_iff [] = (λ h. cc, λ n. absurd (n.0 refl))
validate_non_empty_side_effect_refs_iff (r ∷ refs) =
    (λ h. (λ e. cc, (check_ref_ids_iff (r ∷ refs)).0 h), λ n. (check_ref_ids_iff (r ∷ refs)).1 n.1)

-- All that a command has to bring for its transition to be applied.
pub record IsApplicable (cmd : TaskTransitionCommand) : Type 0 where
  pub revision_positive : 1 ≤ cmd.current_revision
  pub reason_given : IsNotBlank cmd.reason
  pub revision_expected :
      (cmd.expected_revision ≡ none) ⊎ (cmd.expected_revision ≡ some cmd.current_revision)
  pub edge_allowed : is_task_transition_allowed cmd.current_status cmd.target_status ≡ true
  pub success_covered : cmd.target_status ≡ succeeded → IsCovered cmd
  pub partial_effects :
      cmd.target_status ≡ partially_completed → NamesSideEffects cmd.produced_side_effect_refs
  pub rollback_effects :
      cmd.target_status ≡ rolling_back → NamesSideEffects cmd.rollback_required_side_effect_refs
  pub replan_edge : cmd.replan ≡ true → is_replan_edge cmd.current_status cmd.target_status ≡ true
  pub plan_version_room :
      is_replan_edge cmd.current_status cmd.target_status ≡ true
      → cmd.current_plan_version + 1 < 18446744073709551616
  pub revision_room : cmd.current_revision + 1 < 18446744073709551616

-- The only outcome that an applicable command can have.
abbrev pub outcome_of : TaskTransitionCommand → TaskTransitionOutcome
outcome_of cmd =
    let replanned = is_replan_edge cmd.current_status cmd.target_status in
    task_with_event cmd.current_status cmd.target_status (cmd.current_revision + 1)
      (if replanned then cmd.current_plan_version + 1 else cmd.current_plan_version) replanned
      cmd.reason

-- A target status is checked for its own evidence.
when-eq-ok :
    (s t : TaskStatus) (check : Result DomainTaskErrorCode (Unit {0}))
    → (when (task_eq s t) check ≡ ok tt) ↔ (s ≡ t → check ≡ ok tt)
when-eq-ok s t check = elim (Bool-cases (task_eq s t)) [
  | inl same ↦ rw same ((λ h e. h), λ h. h ((task_eq_iff s t).0 same))
  | inr other ↦ rw other ((λ h e. cc (rw ((task_eq_iff s t).1 e) at other)), λ h. refl)
]

not_terminal :
    (s t : TaskStatus)
    → is_task_transition_allowed s t ≡ true
    → (is_rejected_or_archived s ≡ false)
      × ((task_eq t archived && not (may_be_archived s)) ≡ false)
unfolding is_task_transition_allowed
not_terminal s t h = ground arith

-- The part of `IsApplicable` that `enforce_task_invariants` checks.
abbrev KeepsInvariants : TaskTransitionCommand → Type 0
KeepsInvariants cmd =
    (cmd.target_status ≡ succeeded → IsCovered cmd)
    × (cmd.target_status ≡ partially_completed → NamesSideEffects cmd.produced_side_effect_refs)
    × (cmd.target_status ≡ rolling_back → NamesSideEffects cmd.rollback_required_side_effect_refs)
    × (cmd.replan ≡ true → is_replan_edge cmd.current_status cmd.target_status ≡ true)

enforce_task_invariants_sound :
    (cmd : TaskTransitionCommand) → enforce_task_invariants cmd ≡ ok tt → KeepsInvariants cmd
unfolding enforce_task_invariants
enforce_task_invariants_sound cmd h = (
  λ e. (enforce_succeeded_coverage_iff cmd).0 (ground arith),
  λ e. (validate_non_empty_side_effect_refs_iff cmd.produced_side_effect_refs).0 (ground arith),
  λ e.
      (validate_non_empty_side_effect_refs_iff cmd.rollback_required_side_effect_refs).0
        (ground arith),
  λ e. ground arith,
)

enforce_task_invariants_complete :
    (cmd : TaskTransitionCommand)
    → is_task_transition_allowed cmd.current_status cmd.target_status ≡ true
    → KeepsInvariants cmd
    → enforce_task_invariants cmd ≡ ok tt
unfolding enforce_task_invariants
enforce_task_invariants_complete cmd edge keeps =
    let (live, archivable) = not_terminal cmd.current_status cmd.target_status edge in
    rw
      (
        live,
        archivable,
        (when-eq-ok cmd.target_status succeeded _).1
            (λ e. (enforce_succeeded_coverage_iff cmd).1 (keeps.0 e)),
        (when-eq-ok cmd.target_status partially_completed _).1
            (λ e. (validate_non_empty_side_effect_refs_iff _).1 (keeps.1 e)),
        (when-eq-ok cmd.target_status rolling_back _).1
            (λ e. (validate_non_empty_side_effect_refs_iff _).1 (keeps.2 e)),
      )
      (ground (arith, keeps.3))

validate_base_inputs_iff :
    (cmd : TaskTransitionCommand)
    → (validate_base_inputs cmd ≡ ok tt) ↔ ((1 ≤ cmd.current_revision) × IsNotBlank cmd.reason)
unfolding validate_base_inputs
validate_base_inputs_iff cmd = (λ h. (ground arith, ground arith), λ h. ground arith)

apply_task_transition_sound :
    (cmd : TaskTransitionCommand) (out : TaskTransitionOutcome)
    → apply_task_transition cmd ≡ ok out
    → IsApplicable cmd × (out ≡ outcome_of cmd)
unfolding apply_task_transition requires_plan_version_increment checked_increment
apply_task_transition_sound cmd out h =
    let base = (validate_base_inputs_iff cmd).0 (ground arith) in
    let keeps = enforce_task_invariants_sound cmd (ground arith) in
    (
      record {
        revision_positive = base.0;
        reason_given = base.1;
        revision_expected = ground arith;
        edge_allowed = ground arith;
        success_covered = keeps.0;
        partial_effects = keeps.1;
        rollback_effects = keeps.2;
        replan_edge = keeps.3;
        plan_version_room = λ e. ground arith;
        revision_room = ground arith;
      },
      ground arith,
    )

apply_task_transition_complete :
    (cmd : TaskTransitionCommand)
    → IsApplicable cmd
    → apply_task_transition cmd ≡ ok (outcome_of cmd)
unfolding apply_task_transition requires_plan_version_increment checked_increment
apply_task_transition_complete cmd a =
    rw
      (
        (validate_base_inputs_iff cmd).1 (a.revision_positive, a.reason_given),
        a.edge_allowed,
        enforce_task_invariants_complete cmd a.edge_allowed
            (a.success_covered, a.partial_effects, a.rollback_effects, a.replan_edge),
      )
      (ground (arith, a.revision_expected, a.replan_edge, a.plan_version_room, a.revision_room))

-- A command is applied exactly when it is applicable, and the outcome is then `outcome_of`: the
-- target status, the revision raised by one, the plan version raised by one on a replan edge and
-- kept otherwise, and one event that says so.
pub apply_task_transition_iff :
    (cmd : TaskTransitionCommand) (out : TaskTransitionOutcome)
    → (apply_task_transition cmd ≡ ok out) ↔ (IsApplicable cmd × (out ≡ outcome_of cmd))
apply_task_transition_iff cmd out =
    (apply_task_transition_sound cmd out, λ p. rw p.1 (apply_task_transition_complete cmd p.0))
