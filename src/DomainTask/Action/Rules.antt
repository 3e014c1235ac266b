-- ===== src/DomainTask/Action/Rules.antt =====
-- What each guard of an Action transition lets pass, and the effects that it records
-- (rust/crates/domain-task/src/action.rs).
use shittim.Base.{
  ◌≤◌, true, false, Option, none, some, ◌≡◌, ◌≢◌, ◌↔◌, ◌⊎◌, inl, inr, refl, arith, ok, Text, codes,
  text_eq_iff, is_blank, Bool-cases, Option-cases,
}
use shittim.Contracts.TaskTypes.{ActionStatus, verified_ok, verified_failed, inconclusive}
use shittim.DomainTask.Types.{VerificationEvidenceSummary}
use shittim.DomainTask.Action.{
  not_started, uncertain, started, ActionTransitionCommand, is_action_transition_allowed,
  validate_base_inputs, check_parent_id, is_edge, require_ref, is_recovery,
  enforce_compensation_parent_constraints,
}
use shittim.DomainTask.Action.Enforce.{check_approval, check_present_ref}

abbrev pub IsNotBlank : Text → Type 0
IsNotBlank s = is_blank s ≡ false

-- The reference is there and not blank.
abbrev pub IsGiven : Option Text → Type 0
IsGiven o = (s : Text) × (o ≡ some s) × IsNotBlank s

-- A reference that is there is not blank.
abbrev pub IsNotBlankIfGiven : Option Text → Type 0
IsNotBlankIfGiven o = (s : Text) → o ≡ some s → IsNotBlank s

pub require_ref_iff : (o : Option Text) → (require_ref o ≡ ok tt) ↔ IsGiven o
unfolding require_ref
require_ref_iff none = (λ h. cc, λ g. cc (g.1))
require_ref_iff (some s) = (λ h. (s, refl, ground arith), λ g. ground (arith, g.1, g.2))

pub check_present_ref_iff : (o : Option Text) → (check_present_ref o ≡ ok tt) ↔ IsNotBlankIfGiven o
check_present_ref_iff none = (λ h s e. cc, λ g. refl)
check_present_ref_iff (some s) = (λ h t e. ground arith, λ g. ground (arith, g s refl))

-- The parent, if there is one, is named and is another Action.
abbrev pub HasOtherParent : ActionTransitionCommand → Type 0
HasOtherParent cmd = (p : Text) → cmd.parent_action_id ≡ some p → IsNotBlank p × (p ≢ cmd.action_id)

check_parent_id_iff :
    (o : Option Text) (a : Text)
    → (check_parent_id o a ≡ ok tt) ↔ ((p : Text) → o ≡ some p → IsNotBlank p × (p ≢ a))
unfolding check_parent_id
check_parent_id_iff none a = (λ h p e. cc, λ g. refl)
check_parent_id_iff (some q) a = (
  λ h p e. (ground arith, λ d. ground (arith, text_eq_iff q a)),
  λ g. ground (arith, (g q refl).0, (g q refl).1, text_eq_iff q a),
)

pub record IsWellFormed (cmd : ActionTransitionCommand) : Type 0 where
  pub action_named : IsNotBlank cmd.action_id
  pub other_parent : HasOtherParent cmd
  pub revision_positive : 1 ≤ cmd.current_revision
  pub reason_given : IsNotBlank cmd.reason

pub validate_base_inputs_iff :
    (cmd : ActionTransitionCommand) → (validate_base_inputs cmd ≡ ok tt) ↔ IsWellFormed cmd
unfolding validate_base_inputs
validate_base_inputs_iff cmd = (
  λ h. record {
    action_named = ground arith;
    other_parent = (check_parent_id_iff cmd.parent_action_id cmd.action_id).0 (ground arith);
    revision_positive = ground arith;
    reason_given = ground arith;
  },
  λ w.
      rw (w.action_named, (check_parent_id_iff cmd.parent_action_id cmd.action_id).1 w.other_parent)
        (ground (arith, w.revision_positive, w.reason_given)),
)

-- A compensation Action keeps out of the recovery statuses.
abbrev pub KeepsToOrdinaryChain : ActionTransitionCommand → Type 0
KeepsToOrdinaryChain cmd =
    (p : Text) → cmd.parent_action_id ≡ some p → is_recovery cmd.target_status ≡ false

pub enforce_compensation_iff :
    (cmd : ActionTransitionCommand)
    → is_action_transition_allowed cmd.current_status cmd.target_status ≡ true
    → (enforce_compensation_parent_constraints cmd ≡ ok tt) ↔ KeepsToOrdinaryChain cmd
unfolding enforce_compensation_parent_constraints is_action_transition_allowed
enforce_compensation_iff cmd edge = elim (Option-cases cmd.parent_action_id) [
  | inl original ↦ (λ h p e. cc, λ k. ground (arith, original))
  | inr (parent, is_child) ↦
      (λ h p e. ground (arith, is_child), λ k. ground (arith, is_child, k parent is_child))
]

-- A verification says that the Action did what it should.
abbrev pub IsVerifiedOk : ActionTransitionCommand → Type 0
IsVerifiedOk cmd =
    (v : VerificationEvidenceSummary) × (cmd.evidence.verification ≡ some v)
    × (v.outcome ≡ verified_ok)

-- A verification says that the Action failed and confirms no side effect, or it is inconclusive and
-- confirms that there was no side effect.
abbrev pub IsProvedFailed : ActionTransitionCommand → Type 0
IsProvedFailed cmd =
    (v : VerificationEvidenceSummary) × (cmd.evidence.verification ≡ some v)
    × (((v.outcome ≡ verified_failed) × (v.side_effect_confirmed ≢ some true))
        ⊎ ((v.outcome ≡ inconclusive) × (v.side_effect_confirmed ≡ some false)))

-- How each leased exit has to be justified, and the other guarded edges.
pub record IsJustified (cmd : ActionTransitionCommand) : Type 0 where
  pub approval :
      is_edge cmd ActionStatus.pending ActionStatus.approved ≡ true
      → IsGiven cmd.evidence.permission_decision_ref
  pub permission_named : IsNotBlankIfGiven cmd.evidence.permission_decision_ref
  pub expiry :
      is_edge cmd ActionStatus.leased ActionStatus.approved ≡ true
      → cmd.evidence.reason_code ≡ some (codes "lease_expired")
  pub cancellation :
      is_edge cmd ActionStatus.leased ActionStatus.cancelled ≡ true
      → cmd.evidence.dispatch_certainty ≡ some not_started
  pub abandonment :
      is_edge cmd ActionStatus.leased ActionStatus.unknown_side_effect ≡ true
      → (cmd.evidence.dispatch_certainty ≡ some uncertain)
        ⊎ (cmd.evidence.dispatch_certainty ≡ some started)
  pub uncertainty :
      is_edge cmd ActionStatus.in_flight ActionStatus.unknown_side_effect ≡ true
      → cmd.evidence.uncertain_outcome_reason ≢ none
  pub completion : cmd.target_status ≡ ActionStatus.completed → IsVerifiedOk cmd
  pub failure : cmd.target_status ≡ ActionStatus.failed → IsProvedFailed cmd

pub check_approval_iff :
    (cmd : ActionTransitionCommand)
    → (check_approval cmd ≡ ok tt) ↔ (
        is_edge cmd ActionStatus.pending ActionStatus.approved ≡ true
        → IsGiven cmd.evidence.permission_decision_ref)
unfolding check_approval
check_approval_iff cmd =
    elim (Bool-cases (is_edge cmd ActionStatus.pending ActionStatus.approved)) [
      | inl at ↦ rw at ((λ h e. (require_ref_iff _).0 h), λ g. (require_ref_iff _).1 (g refl))
      | inr off ↦ rw off ((λ h e. cc), λ g. refl)
    ]
