-- ===== src/DomainTask/PolicyOutcome/Effects.antt =====
-- What applying a Policy evaluation accepts, and what it does to the Action
-- (rust/crates/domain-task/src/policy_outcome.rs).
use shittim.Base.{
  ℕ, ◌+◌, ◌<◌, Bool, true, false, not, Option, none, some, ◌≡◌, ◌↔◌, ◌⊎◌, inl, inr, refl, arith, ok,
  reject_if, Text, and_then-eq-ok, is_blank,
}
use shittim.Contracts.TaskTypes.{
  ActionStatus, action_eq, action_eq_iff, pending, approved, cancelled,
}
use shittim.DomainTask.Error.{invariant_violation, missing_evidence}
use shittim.DomainTask.Types.{
  ActionTransitionOutcome, action_with_event, default_effects, ActionEffects,
}
use shittim.DomainTask.Action.{ActionTransitionCommand, is_action_transition_allowed, is_recovery}
use shittim.DomainTask.Action.Rules.{IsNotBlank, IsWellFormed, IsJustified}
use shittim.DomainTask.Action.Apply.{IsApplicable, apply_action_transition_iff}
use shittim.DomainTask.Action.Confirm.{apply_confirm_metadata_update_iff}
use shittim.DomainTask.PolicyOutcome.{
  PolicyEvaluationEffect, allow, deny, confirm, PolicyEvaluationOutcome, policy_command,
  apply_effect, apply_policy_evaluation_outcome,
}

-- The status that each effect leads to, whether that is a change of status, and whether an approval
-- is then awaited.
abbrev pub status_after : PolicyEvaluationEffect → ActionStatus
status_after allow = approved
status_after deny = cancelled
status_after confirm = pending

abbrev pub changes_status : PolicyEvaluationEffect → Bool
changes_status allow = true
changes_status deny = true
changes_status confirm = false

abbrev pub effects_after : PolicyEvaluationEffect → ActionEffects
effects_after allow = default_effects
effects_after deny = default_effects
effects_after confirm = record default_effects { requires_approval_record_ref = true }

module _ (action_id : Text) (parent : Option Text) (status : ActionStatus) (revision : ℕ)
    (expected : Option ℕ) (outcome : PolicyEvaluationOutcome) where
  -- The command that stands for the evaluation.
  abbrev pub command : ActionTransitionCommand
  command =
      policy_command action_id parent status revision expected (status_after outcome.effect) outcome

  pub record IsAccepted : Type 0 where
    pub is_pending : status ≡ pending
    pub permission_named : IsNotBlank outcome.permission_decision_ref
    pub well_formed : IsWellFormed command
    pub revision_expected : (expected ≡ none) ⊎ (expected ≡ some revision)
    pub revision_room : revision + 1 < 18446744073709551616

  abbrev pub result : ActionTransitionOutcome
  result =
      action_with_event pending (status_after outcome.effect) (revision + 1)
        (changes_status outcome.effect) (effects_after outcome.effect) outcome.reason

  abbrev command_to : ActionStatus → ActionTransitionCommand
  command_to t = policy_command action_id parent status revision expected t outcome

  -- What the transition and the confirm update ask for alike.
  abbrev Asked : ActionStatus → Type 0
  Asked t =
      IsWellFormed (command_to t)
      × ((expected ≡ none) ⊎ (expected ≡ some revision))
      × (revision + 1 < 18446744073709551616)

  abbrev result_of : PolicyEvaluationEffect → ActionTransitionOutcome
  result_of f =
      action_with_event pending (status_after f) (revision + 1) (changes_status f) (effects_after f)
        outcome.reason

  effect_sound :
      (f : PolicyEvaluationEffect) (out : ActionTransitionOutcome)
      → status ≡ pending
      → apply_effect f command_to ≡ ok out
      → Asked (status_after f) × (out ≡ result_of f)
  effect_sound allow out st h =
      let (a, same) = (apply_action_transition_iff (command_to approved) out).0 h in
      ((a.well_formed, a.revision_expected, a.revision_room), rw (same, st))
  effect_sound deny out st h =
      let (a, same) = (apply_action_transition_iff (command_to cancelled) out).0 h in
      ((a.well_formed, a.revision_expected, a.revision_room), rw (same, st))
  effect_sound confirm out st h =
      let (c, same) = (apply_confirm_metadata_update_iff (command_to pending) out).0 h in
      ((c.well_formed, c.revision_expected, c.revision_room), same)

  module _ (st : status ≡ pending) (named : IsNotBlank outcome.permission_decision_ref) where
    -- Both ways out of pending are justified by the permission decision alone.
    IsJustified-by_policy :
        (t : ActionStatus) → (t ≡ approved) ⊎ (t ≡ cancelled) → IsJustified (command_to t)
    IsJustified-by_policy t h = record {
      approval = λ _. (outcome.permission_decision_ref, refl, named);
      permission_named = λ s e. let q : outcome.permission_decision_ref ≡ s = cc in rw (← q) named;
      expiry = λ e. ground arith;
      cancellation = λ e. ground arith;
      abandonment = λ e. ground arith;
      uncertainty = λ e. ground arith;
      completion = λ e. ground arith;
      failure = λ e. ground arith;
    }

    leaves :
        (t : ActionStatus)
        → (t ≡ approved) ⊎ (t ≡ cancelled)
        → (is_action_transition_allowed status t ≡ true) × (is_recovery t ≡ false)
    unfolding is_action_transition_allowed
    leaves t h = ground arith

    permitted :
        (t : ActionStatus)
        → (t ≡ approved) ⊎ (t ≡ cancelled)
        → Asked t
        → IsApplicable (command_to t)
    permitted t h (w, e, room) = record {
      well_formed = w;
      revision_expected = e;
      edge_allowed = (leaves t h).0;
      ordinary_chain = λ p q. (leaves t h).1;
      justified = IsJustified-by_policy t h;
      revision_room = room;
    }

    effect_complete :
        (f : PolicyEvaluationEffect)
        → Asked (status_after f)
        → apply_effect f command_to ≡ ok (result_of f)
    effect_complete allow asked =
        (apply_action_transition_iff (command_to approved) _).1
          (permitted approved (inl refl) asked, rw st)
    effect_complete deny asked =
        (apply_action_transition_iff (command_to cancelled) _).1
          (permitted cancelled (inr refl) asked, rw st)
    effect_complete confirm (w, e, room) =
        (apply_confirm_metadata_update_iff (command_to pending) _).1 (
          record {
            well_formed = w;
            revision_expected = e;
            is_pending = st;
            stays_pending = refl;
            permission_given = (outcome.permission_decision_ref, refl, named);
            revision_room = room;
          },
          refl,
        )

  -- A Policy evaluation is applied exactly to a pending Action with a named permission decision, on
  -- well-formed ids, reason and revision. allow then approves the Action, deny cancels it, and
  -- confirm leaves it pending without a status event and awaiting an approval; the revision is
  -- raised by one each time, and no lease is touched.
  pub apply_policy_evaluation_outcome_iff :
      (out : ActionTransitionOutcome)
      → (apply_policy_evaluation_outcome action_id parent status revision expected outcome ≡ ok out)
        ↔ (IsAccepted × (out ≡ result))
  unfolding apply_policy_evaluation_outcome
  apply_policy_evaluation_outcome_iff out = (
    λ h.
        let (_, at, h1) =
          and_then-eq-ok (reject_if (not (action_eq status pending)) invariant_violation) _ h in
        let (_, named, h2) =
          and_then-eq-ok (reject_if (is_blank outcome.permission_decision_ref) missing_evidence) _
            h1 in
        let st : status ≡ pending = ground (arith, at, action_eq_iff status pending) in
        let ((w, e, room), same) = effect_sound outcome.effect out st h2 in
        (
          record {
            is_pending = st;
            permission_named = ground (arith, named);
            well_formed = w;
            revision_expected = e;
            revision_room = room;
          },
          same,
        ),
    λ p.
        let a = p.0 in
        rw (
          (action_eq_iff status pending).1 a.is_pending,
          a.permission_named,
          effect_complete a.is_pending a.permission_named outcome.effect
              (a.well_formed, a.revision_expected, a.revision_room),
          p.1,
        ),
  )
