-- ===== src/DomainTask/Task/History.antt =====
-- Histories of a Task: what holds after any number of applied commands
-- (rust/crates/domain-task/src/task.rs).
use shittim.Base.{
  ℕ, suc, ◌+◌, false, Option, none, some, ◌≡◌, ◌⊎◌, refl, sym, ◌∙◌, arith, subst, ok, if◌then◌else◌,
}
use shittim.Contracts.TaskTypes.{
  TaskStatus, rejected, archived, succeeded, rolling_back, partially_completed,
}
use shittim.DomainTask.Types.{TaskTransitionOutcome, task_with_event}
use shittim.DomainTask.Task.{
  TaskTransitionCommand, is_task_transition_allowed, is_replan_edge, apply_task_transition,
}
use shittim.DomainTask.Task.Coverage.{IsCovered}
use shittim.DomainTask.Task.Apply.{IsApplicable, NamesSideEffects, apply_task_transition_iff}

-- What persistence keeps of a Task between two commands.
pub record TaskState : Type 0 where
  pub status : TaskStatus
  pub revision : ℕ
  pub plan_version : ℕ

-- A command is issued for the stored state, and its outcome is stored.
pub record Step (s : TaskState) (t : TaskState) (cmd : TaskTransitionCommand) : Type 0 where
  pub status_read : cmd.current_status ≡ s.status
  pub revision_read : cmd.current_revision ≡ s.revision
  pub plan_version_read : cmd.current_plan_version ≡ s.plan_version
  pub out : TaskTransitionOutcome
  pub applied : apply_task_transition cmd ≡ ok out
  pub status_stored : t.status ≡ out.new_status
  pub revision_stored : t.revision ≡ out.new_revision
  pub plan_version_stored : t.plan_version ≡ out.new_plan_version

pub data History (s : TaskState) : TaskState → Type 0 where
  start : History s s
  next : {t u : TaskState} (cmd : TaskTransitionCommand) → History s t → Step t u cmd → History s u

abbrev pub steps : {s t : TaskState} → History s t → ℕ
steps start = 0
steps (next cmd h st) = suc (steps h)

-- The commands of the history that lead from failed or rolled_back to planned.
abbrev pub replans : {s t : TaskState} → History s t → ℕ
replans start = 0
replans (next cmd h st) =
    if is_replan_edge cmd.current_status cmd.target_status then suc (replans h) else replans h

-- What one step tells about the two states.
record StepFacts (s : TaskState) (t : TaskState) (cmd : TaskTransitionCommand) : Type 0 where
  applicable : IsApplicable cmd
  target : t.status ≡ cmd.target_status
  revision_next : t.revision ≡ s.revision + 1
  plan_next : t.plan_version ≡ (
      if is_replan_edge cmd.current_status cmd.target_status
      then s.plan_version + 1
      else s.plan_version)

Step-facts : {s t : TaskState} (cmd : TaskTransitionCommand) → Step s t cmd → StepFacts s t cmd
unfolding task_with_event
Step-facts {s} {t} cmd st =
    let (a, e) = (apply_task_transition_iff cmd st.out).0 st.applied in
    record {
      applicable = a;
      target = ground (arith, st.status_stored);
      revision_next = ground (arith, st.revision_stored, st.revision_read);
      plan_next = ground (arith, st.plan_version_stored, st.plan_version_read);
    }

-- Along every history the revision counts the applied commands, and the plan version counts the
-- replans among them.
pub History-counts :
    {s t : TaskState} (h : History s t)
    → (t.revision ≡ s.revision + steps h) × (t.plan_version ≡ s.plan_version + replans h)
History-counts start = (omega arith, omega arith)
History-counts (next {t} {u} cmd h st) =
    let f = Step-facts cmd st in
    let (r, p) = History-counts h in (omega (arith, f.revision_next), ground (arith, f.plan_next))

no_exit :
    (s t : TaskStatus) → (s ≡ rejected) ⊎ (s ≡ archived) → is_task_transition_allowed s t ≡ false
unfolding is_task_transition_allowed
no_exit s t h = ground arith

final_stays :
    {s t : TaskState} (h : History s t)
    → (s.status ≡ rejected) ⊎ (s.status ≡ archived)
    → (t.status ≡ s.status) × (steps h ≡ 0)
final_stays start final = (refl, refl)
final_stays {s} (next {t} {u} cmd h st) final =
    let (same, _) = final_stays h final in
    let a = (Step-facts cmd st).applicable in
    let current : cmd.current_status ≡ s.status = st.status_read ∙ same in
    absurd (ground (arith, a.edge_allowed, no_exit cmd.current_status cmd.target_status, current))

-- Nothing leaves rejected or archived: a history that starts in one of them has no step.
pub History-final :
    {s t : TaskState} (h : History s t)
    → (s.status ≡ rejected) ⊎ (s.status ≡ archived)
    → steps h ≡ 0
History-final h final = (final_stays h final).1

abbrev pub last_command : {s t : TaskState} → History s t → Option TaskTransitionCommand
last_command start = none
last_command (next cmd h st) = some cmd

-- A Task that has a history and is found succeeded was brought there by a command whose evidence
-- covers its required criteria, one that is found partially_completed by a command that names
-- produced side effects, and one that is found rolling_back by a command that names the side
-- effects to compensate: the last command of the history.
pub History-evidence :
    {s t : TaskState} (h : History s t) (cmd : TaskTransitionCommand)
    → last_command h ≡ some cmd
    → (t.status ≡ succeeded → IsCovered cmd)
      × (t.status ≡ partially_completed → NamesSideEffects cmd.produced_side_effect_refs)
      × (t.status ≡ rolling_back → NamesSideEffects cmd.rollback_required_side_effect_refs)
History-evidence start cmd last = cc
History-evidence {t} (next last_cmd h st) cmd last =
    let same : last_cmd ≡ cmd = cc in
    let f : StepFacts _ t cmd = subst (StepFacts _ t) same (Step-facts last_cmd st) in
    let a = f.applicable in
    (
      λ e. a.success_covered (sym f.target ∙ e),
      λ e. a.partial_effects (sym f.target ∙ e),
      λ e. a.rollback_effects (sym f.target ∙ e),
    )
