-- ===== src/DomainTask/Action/History.antt =====
-- Histories of one Action: what holds after any number of applied commands
-- (rust/crates/domain-task/src/action.rs).
use shittim.Base.{
  ℕ, suc, ◌+◌, true, false, Option, some, List, [], ◌∷◌, ◌≡◌, ◌≢◌, ◌⊎◌, inl, inr, refl, sym, ◌∙◌,
  arith, ok, if◌then◌else◌, Text, All, Bool-cases,
}
use shittim.Contracts.TaskTypes.{ActionStatus, pending, cancelled}
use shittim.DomainTask.Types.{ActionTransitionOutcome, action_with_event}
use shittim.DomainTask.Action.{
  ActionTransitionCommand, is_action_transition_allowed, is_edge, is_terminal, is_recovery,
}
use shittim.DomainTask.Action.Enforce.{apply_action_transition, apply_confirm_metadata_update}
use shittim.DomainTask.Action.Rules.{IsGiven}
use shittim.DomainTask.Action.Apply.{IsApplicable, apply_action_transition_iff}
use shittim.DomainTask.Action.Confirm.{apply_confirm_metadata_update_iff}

pub record ActionState : Type 0 where
  pub status : ActionStatus
  pub revision : ℕ

module _ (action_id : Text) (parent : Option Text) where
  -- A command for the stored state of the Action is applied, as a transition or as a confirm
  -- update, and its outcome is stored.
  pub record Step (s : ActionState) (t : ActionState) (cmd : ActionTransitionCommand) : Type 0 where
    pub id_read : cmd.action_id ≡ action_id
    pub parent_read : cmd.parent_action_id ≡ parent
    pub status_read : cmd.current_status ≡ s.status
    pub revision_read : cmd.current_revision ≡ s.revision
    pub out : ActionTransitionOutcome
    pub applied :
        (apply_action_transition cmd ≡ ok out) ⊎ (apply_confirm_metadata_update cmd ≡ ok out)
    pub status_stored : t.status ≡ out.new_status
    pub revision_stored : t.revision ≡ out.new_revision

  pub data History (s : ActionState) : ActionState → Type 0 where
    start : History s s
    next :
        {t u : ActionState} (cmd : ActionTransitionCommand)
        → History s t
        → Step t u cmd
        → History s u

  abbrev pub steps : {s t : ActionState} → History s t → ℕ
  steps start = 0
  steps (next cmd h st) = suc (steps h)

  -- The commands of the history that lead from pending to approved.
  abbrev pub approvals : {s t : ActionState} → History s t → List ActionTransitionCommand
  approvals start = []
  approvals (next cmd h st) =
      if is_edge cmd ActionStatus.pending ActionStatus.approved
      then cmd ∷ approvals h
      else approvals h

  -- A step is a transition along an allowed edge, or it stays pending.
  Step-facts :
      {s t : ActionState} (cmd : ActionTransitionCommand)
      → Step s t cmd
      → (t.revision ≡ s.revision + 1)
        × ((IsApplicable cmd × (t.status ≡ cmd.target_status))
            ⊎ ((s.status ≡ pending) × (t.status ≡ pending) × (cmd.target_status ≡ pending)))
  unfolding action_with_event
  Step-facts {s} {t} cmd st = elim st.applied [
    | inl moved ↦
        let (a, same) = (apply_action_transition_iff cmd st.out).0 moved in
        (
          ground (arith, st.revision_stored, st.revision_read),
          inl (a, ground (arith, st.status_stored)),
        )
    | inr confirmed ↦
        let (c, same) = (apply_confirm_metadata_update_iff cmd st.out).0 confirmed in
        (
          ground (arith, st.revision_stored, st.revision_read),
          inr (
            sym st.status_read ∙ c.is_pending,
            ground (arith, st.status_stored),
            c.stays_pending,
          ),
        )
  ]

  -- Every applied command raises the revision by one.
  pub History-revision : {s t : ActionState} (h : History s t) → t.revision ≡ s.revision + steps h
  History-revision start = omega arith
  History-revision (next cmd h st) = omega (arith, (Step-facts cmd st).0, History-revision h)

  no_exit : (s t : ActionStatus) → is_terminal s ≡ true → is_action_transition_allowed s t ≡ false
  unfolding is_action_transition_allowed
  no_exit s t h = ground arith

  final_stays :
      {s t : ActionState} (h : History s t)
      → is_terminal s.status ≡ true
      → (t.status ≡ s.status) × (steps h ≡ 0)
  final_stays start final = (refl, refl)
  final_stays {s} (next {t} {u} cmd h st) final =
      let (same, _) = final_stays h final in
      let current : cmd.current_status ≡ s.status = st.status_read ∙ same in
      elim (Step-facts cmd st).1 [
        | inl (a, _) ↦
            absurd (
              ground (arith, a.edge_allowed, no_exit cmd.current_status cmd.target_status, current))
        | inr (p, _, _) ↦ absurd (ground (arith, p, same))
      ]

  -- Nothing leaves completed, rolled_back, rollback_failed or cancelled: a history that starts in
  -- one of them has no step.
  pub History-terminal :
      {s t : ActionState} (h : History s t) → is_terminal s.status ≡ true → steps h ≡ 0
  History-terminal h final = (final_stays h final).1

  from_pending :
      (s t : ActionStatus)
      → is_action_transition_allowed s t ≡ true
      → s ≡ pending
      → (t ≡ ActionStatus.approved) ⊎ (t ≡ cancelled)
  unfolding is_action_transition_allowed
  from_pending s t e h = ground arith

  abbrev pub IsPermitted : ActionTransitionCommand → Type 0
  IsPermitted cmd = IsGiven cmd.evidence.permission_decision_ref

  approvals-IsPermitted : {s t : ActionState} (h : History s t) → All IsPermitted (approvals h)
  approvals-IsPermitted start = tt
  approvals-IsPermitted (next cmd h st) =
      elim (Bool-cases (is_edge cmd ActionStatus.pending ActionStatus.approved)) [
        | inl at ↦ rw at (
          elim (Step-facts cmd st).1 [
            | inl (a, _) ↦ a.justified.approval at
            | inr (p, _, q) ↦ absurd (ground arith)
          ],
          approvals-IsPermitted h,
        )
        | inr off ↦ rw off (approvals-IsPermitted h)
      ]

  -- Nothing but pending and cancelled is left without an approval.
  approved_before :
      {s t : ActionState} (h : History s t)
      → s.status ≡ pending
      → (t.status ≡ pending) ⊎ ((t.status ≡ cancelled) ⊎ (approvals h ≢ []))
  approved_before start p = inl p
  approved_before (next cmd h st) p = elim (Step-facts cmd st).1 [
    | inl (a, to) ↦ ground (
      arith,
      approved_before h p,
      from_pending cmd.current_status cmd.target_status a.edge_allowed,
      no_exit cmd.current_status cmd.target_status,
      a.edge_allowed,
    )
    | inr (_, still, _) ↦ inl still
  ]

  -- An Action that began pending and is found beyond pending and cancelled was approved by a
  -- command of its history, and every approving command named its permission decision.
  pub History-approval :
      {s t : ActionState} (h : History s t)
      → s.status ≡ pending
      → t.status ≢ pending
      → t.status ≢ cancelled
      → (approvals h ≢ []) × All IsPermitted (approvals h)
  History-approval h p n c = (ground (arith, approved_before h p), approvals-IsPermitted h)

-- A compensation Action that began outside the recovery statuses is never found rolling_back,
-- rolled_back or rollback_failed.
pub History-compensation :
    (action_id p : Text) {s t : ActionState} (h : History action_id (some p) s t)
    → is_recovery s.status ≡ false
    → is_recovery t.status ≡ false
History-compensation action_id p start n = n
History-compensation action_id p (next cmd h st) n = elim (Step-facts action_id (some p) cmd st).1 [
  | inl (a, to) ↦ rw to (a.ordinary_chain p st.parent_read)
  | inr (_, to, _) ↦ rw to
]
