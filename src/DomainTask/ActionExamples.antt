-- ===== src/DomainTask/ActionExamples.antt =====
-- The Action theorems at concrete commands, and tests of the transitions.
use shittim.Base.{
  true, false, none, some, [], ◌∷◌, ◌≡◌, ◌≢◌, ◌↔◌, ◌⊎◌, inl, inr, refl, arith, ok, err, Text, codes,
  is_blank, text_eq, All,
}
use shittim.Contracts.TaskTypes.{
  pending, approved, leased, in_flight, cancelled, unknown_side_effect, retry_original,
}
use shittim.DomainTask.Error.{
  DomainTaskErrorCode, illegal_compensation_draft, illegal_recovery_candidate,
}
use shittim.DomainTask.Types.{action_with_event}
use shittim.DomainTask.Action.{
  ActionEvidence, ActionTransitionCommand, CompensationActionDraft, started,
  is_action_transition_allowed, validate_base_inputs, is_recovery,
}
use shittim.DomainTask.Action.Enforce.{
  apply_action_transition, apply_confirm_metadata_update, validate_compensation_action_draft,
}
use shittim.DomainTask.Action.Rules.{IsNotBlank, IsWellFormed, IsJustified}
use shittim.DomainTask.Action.Apply.{IsApplicable, outcome_of, apply_action_transition_iff}
use shittim.DomainTask.Action.Confirm.{
  IsConfirmable, confirmed_outcome, apply_confirm_metadata_update_iff,
}
use shittim.DomainTask.Action.Leases.{ReleasesLease, apply_action_transition_effects}
use shittim.DomainTask.Action.Draft.{
  IsCompensation, validate_compensation_action_draft_iff, draft-validate_base_inputs,
}
use shittim.DomainTask.Action.History.{
  ActionState, Step, History, start, next, steps, approvals, IsPermitted, History-terminal,
  History-approval, History-compensation,
}
use shittim.DomainTask.PolicyOutcome.{
  PolicyEvaluationOutcome, confirm, apply_policy_evaluation_outcome,
}
use shittim.DomainTask.PolicyOutcome.Effects.{
  IsAccepted, result, apply_policy_evaluation_outcome_iff,
}
use shittim.DomainTask.Recovery.{
  RetryOriginalFacts, validate_recovery_candidate_kind, validate_recovery_candidate_kind_iff,
}

abbrev child : Text
child = b'a' ∷ []

abbrev parent : Text
parent = b'b' ∷ []

abbrev decision : Text
decision = b'd' ∷ []

abbrev permission : ActionEvidence
permission = record {
  permission_decision_ref = some decision;
  approval_record_ref = none;
  verification = none;
  provider_reported_success = false;
  reason_code = none;
  dispatch_certainty = some started;
  uncertain_outcome_reason = none;
}

abbrev approve : ActionTransitionCommand
approve = record {
  action_id = child;
  parent_action_id = some parent;
  current_status = pending;
  current_revision = 1;
  expected_revision = some 1;
  target_status = approved;
  reason = codes "ok";
  evidence = permission;
}

abbrev lose_lease : ActionTransitionCommand
lose_lease = record approve { current_status = leased; target_status = unknown_side_effect }

well_formed : IsWellFormed approve
unfolding is_blank
well_formed = record {
  action_named = refl;
  other_parent = λ p e. (named_parent p e, λ d. other p e d);
  revision_positive = omega arith;
  reason_given = refl;
}
  where
    named_parent : (p : Text) → some parent ≡ some p → IsNotBlank p
    named_parent p e = let q : parent ≡ p = cc in rw (← q)

    other : (p : Text) → some parent ≡ some p → p ≡ child → ⊥
    other p e d = ground arith

approved_by_policy : IsJustified approve
unfolding is_blank
approved_by_policy = record {
  approval = λ _. (decision, refl, refl);
  permission_named = λ s e. named_permission s e;
  expiry = λ e. ground arith;
  cancellation = λ e. ground arith;
  abandonment = λ e. ground arith;
  uncertainty = λ e. ground arith;
  completion = λ e. ground arith;
  failure = λ e. ground arith;
}
  where
    named_permission : (s : Text) → some decision ≡ some s → IsNotBlank s
    named_permission s e = let q : decision ≡ s = cc in rw (← q)

approve-IsApplicable : IsApplicable approve
unfolding is_action_transition_allowed
approve-IsApplicable = record {
  well_formed = well_formed;
  revision_expected = inr refl;
  edge_allowed = refl;
  ordinary_chain = λ p e. refl;
  justified = approved_by_policy;
  revision_room = omega arith;
}

apply_action_transition_iff_example :
    (apply_action_transition approve ≡ ok (outcome_of approve))
    ↔ (IsApplicable approve × (outcome_of approve ≡ outcome_of approve))
apply_action_transition_iff_example = apply_action_transition_iff approve (outcome_of approve)

approve_applied : apply_action_transition approve ≡ ok (outcome_of approve)
approve_applied = apply_action_transition_iff_example.1 (approve-IsApplicable, refl)

apply_confirm_metadata_update_iff_example :
    (apply_confirm_metadata_update approve ≡ ok (confirmed_outcome approve))
    ↔ (IsConfirmable approve × (confirmed_outcome approve ≡ confirmed_outcome approve))
apply_confirm_metadata_update_iff_example =
    apply_confirm_metadata_update_iff approve (confirmed_outcome approve)

abbrev at_pending : ActionState
at_pending = record { status = pending; revision = 1 }

abbrev at_approved : ActionState
at_approved = record { status = approved; revision = 2 }

approve-Step : Step child (some parent) at_pending at_approved approve
unfolding action_with_event
approve-Step = record {
  id_read = refl;
  parent_read = refl;
  status_read = refl;
  revision_read = refl;
  out = outcome_of approve;
  applied = inl approve_applied;
  status_stored = refl;
  revision_stored = refl;
}

abbrev one_approval : History child (some parent) at_pending at_approved
one_approval = next approve start approve-Step

History-approval_example :
    (approvals child (some parent) one_approval ≢ [])
    × All (IsPermitted child (some parent)) (approvals child (some parent) one_approval)
History-approval_example =
    History-approval child (some parent) one_approval refl (λ e. cc) (λ e. cc)

History-compensation_example : is_recovery at_approved.status ≡ false
History-compensation_example = History-compensation child parent one_approval refl

abbrev at_cancelled : ActionState
at_cancelled = record { status = cancelled; revision = 1 }

abbrev cancelled_at_once : History child none at_cancelled at_cancelled
cancelled_at_once = start

History-terminal_example : steps child none cancelled_at_once ≡ 0
History-terminal_example = History-terminal child none cancelled_at_once refl

lose_lease-IsApplicable : IsApplicable lose_lease
unfolding is_action_transition_allowed
lose_lease-IsApplicable = record {
  well_formed = record {
    action_named = well_formed.action_named;
    other_parent = well_formed.other_parent;
    revision_positive = well_formed.revision_positive;
    reason_given = well_formed.reason_given;
  };
  revision_expected = inr refl;
  edge_allowed = refl;
  ordinary_chain = λ p e. refl;
  justified = record {
    approval = λ e. ground arith;
    permission_named = approved_by_policy.permission_named;
    expiry = λ e. ground arith;
    cancellation = λ e. ground arith;
    abandonment = λ e. inr refl;
    uncertainty = λ e. ground arith;
    completion = λ e. ground arith;
    failure = λ e. ground arith;
  };
  revision_room = omega arith;
}

lose_lease_applied : apply_action_transition lose_lease ≡ ok (outcome_of lose_lease)
lose_lease_applied =
    (apply_action_transition_iff lose_lease (outcome_of lose_lease)).1
      (lose_lease-IsApplicable, refl)

apply_action_transition_effects_example :
    (lose_lease.current_status ≡ leased
      → lose_lease.target_status ≢ in_flight
      → ReleasesLease lose_lease (outcome_of lose_lease).effects)
    × ((lose_lease.current_status ≢ leased) ⊎ (lose_lease.target_status ≡ in_flight)
        → (outcome_of lose_lease).effects.release_lease_and_locks ≡ none)
    × (((outcome_of lose_lease).effects.forbid_automatic_replay ≡ true)
        ↔ (lose_lease.target_status ≡ unknown_side_effect))
apply_action_transition_effects_example =
    apply_action_transition_effects lose_lease (outcome_of lose_lease) lose_lease_applied

abbrev compensation : CompensationActionDraft
compensation = record {
  action_id = child;
  parent_action_id = parent;
  idempotency_key = child;
  original_action_id = parent;
  original_idempotency_key = parent;
  status = pending;
  permission_decision_ref = none;
}

compensation_accepted : validate_compensation_action_draft compensation ≡ ok tt
unfolding validate_compensation_action_draft is_blank text_eq
compensation_accepted = refl

validate_compensation_action_draft_iff_example :
    ((validate_compensation_action_draft compensation ≡ ok tt) ↔ IsCompensation compensation)
    × ((e : DomainTaskErrorCode)
        → validate_compensation_action_draft compensation ≡ err e
        → e ≡ illegal_compensation_draft)
validate_compensation_action_draft_iff_example = validate_compensation_action_draft_iff compensation

draft-validate_base_inputs_example :
    validate_base_inputs (record {
      action_id = child;
      parent_action_id = some parent;
      current_status = pending;
      current_revision = 1;
      expected_revision = none;
      target_status = approved;
      reason = child;
      evidence = permission;
    })
    ≡ ok tt
unfolding is_blank
draft-validate_base_inputs_example =
    draft-validate_base_inputs compensation 1 none approved child permission compensation_accepted
      (omega arith) refl

abbrev confirmation : PolicyEvaluationOutcome
confirmation = record {
  effect = confirm;
  permission_decision_ref = decision;
  approval_record_ref = none;
  reason = child;
}

apply_policy_evaluation_outcome_iff_example :
    (apply_policy_evaluation_outcome child none pending 3 none confirmation
      ≡ ok (result child none pending 3 none confirmation))
    ↔ (IsAccepted child none pending 3 none confirmation
        × (result child none pending 3 none confirmation
            ≡ result child none pending 3 none confirmation))
apply_policy_evaluation_outcome_iff_example =
    apply_policy_evaluation_outcome_iff child none pending 3 none confirmation
      (result child none pending 3 none confirmation)

abbrev unknown_effect : RetryOriginalFacts
unknown_effect = record { side_effect_confirmed = none; original_idempotency_guaranteed = true }

validate_recovery_candidate_kind_iff_example :
    ((validate_recovery_candidate_kind retry_original unknown_effect ≡ ok tt) ↔ (
      retry_original ≡ retry_original
      → (unknown_effect.side_effect_confirmed ≡ some false)
        × (unknown_effect.original_idempotency_guaranteed ≡ true)))
    × ((e : DomainTaskErrorCode)
        → validate_recovery_candidate_kind retry_original unknown_effect ≡ err e
        → e ≡ illegal_recovery_candidate)
validate_recovery_candidate_kind_iff_example =
    validate_recovery_candidate_kind_iff retry_original unknown_effect
