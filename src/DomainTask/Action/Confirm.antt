-- ===== src/DomainTask/Action/Confirm.antt =====
-- What `apply_confirm_metadata_update` accepts, and what it then returns
-- (rust/crates/domain-task/src/action.rs).
use shittim.Base.{
  ◌+◌, ◌<◌, true, false, not, ◌||◌, none, some, ◌≡◌, ◌↔◌, ◌⊎◌, refl, arith, ok, reject_if, ok_or,
  and_then-eq-ok,
}
use shittim.Contracts.TaskTypes.{ActionStatus, action_eq, action_eq_iff}
use shittim.DomainTask.Error.{invariant_violation, invalid_input}
use shittim.DomainTask.Types.{
  ActionEffects, default_effects, ActionTransitionOutcome, action_with_event, checked_increment,
}
use shittim.DomainTask.Action.{
  ActionTransitionCommand, validate_base_inputs, check_expected_revision, require_ref,
}
use shittim.DomainTask.Action.Enforce.{enforce_confirm_metadata, apply_confirm_metadata_update}
use shittim.DomainTask.Action.Rules.{
  IsWellFormed, validate_base_inputs_iff, IsGiven, require_ref_iff,
}
use shittim.DomainTask.Action.Apply.{expected_ok, checked_increment_iff}

pub record IsConfirmable (cmd : ActionTransitionCommand) : Type 0 where
  pub well_formed : IsWellFormed cmd
  pub revision_expected :
      (cmd.expected_revision ≡ none) ⊎ (cmd.expected_revision ≡ some cmd.current_revision)
  pub is_pending : cmd.current_status ≡ ActionStatus.pending
  pub stays_pending : cmd.target_status ≡ ActionStatus.pending
  pub permission_given : IsGiven cmd.evidence.permission_decision_ref
  pub revision_room : cmd.current_revision + 1 < 18446744073709551616

-- Still pending, one revision on, an approval awaited, and no event.
abbrev pub confirmed_outcome : ActionTransitionCommand → ActionTransitionOutcome
confirmed_outcome cmd =
    action_with_event ActionStatus.pending ActionStatus.pending (cmd.current_revision + 1) false
      (record default_effects { requires_approval_record_ref = true }) cmd.reason

stays :
    (cmd : ActionTransitionCommand)
    → ((not (action_eq cmd.current_status ActionStatus.pending)
          || not (action_eq cmd.target_status ActionStatus.pending))
        ≡ false)
      ↔ ((cmd.current_status ≡ ActionStatus.pending) × (cmd.target_status ≡ ActionStatus.pending))
stays cmd = ground (
  arith,
  action_eq_iff cmd.current_status ActionStatus.pending,
  action_eq_iff cmd.target_status ActionStatus.pending,
)

confirm_effects :
    (cmd : ActionTransitionCommand) (e : ActionEffects)
    → (enforce_confirm_metadata cmd default_effects ≡ ok e) ↔ (
        IsGiven cmd.evidence.permission_decision_ref
        × (e ≡ record default_effects { requires_approval_record_ref = true }))
unfolding enforce_confirm_metadata
confirm_effects cmd e = (
  λ h.
      let (_, given, same) =
        and_then-eq-ok (require_ref cmd.evidence.permission_decision_ref) _ h in
      ((require_ref_iff cmd.evidence.permission_decision_ref).0 given, ground (arith, same)),
  λ p. rw ((require_ref_iff cmd.evidence.permission_decision_ref).1 p.0, p.1),
)

confirm_sound :
    (cmd : ActionTransitionCommand) (out : ActionTransitionOutcome)
    → apply_confirm_metadata_update cmd ≡ ok out
    → IsConfirmable cmd × (out ≡ confirmed_outcome cmd)
unfolding apply_confirm_metadata_update
confirm_sound cmd out h =
    let (_, base, h1) = and_then-eq-ok (validate_base_inputs cmd) _ h in
    let (_, expected, h2) =
      and_then-eq-ok (check_expected_revision cmd.expected_revision cmd.current_revision) _ h1 in
    let (_, pending, h3) =
      and_then-eq-ok
        (reject_if
          (not (action_eq cmd.current_status ActionStatus.pending)
            || not (action_eq cmd.target_status ActionStatus.pending))
          invariant_violation)
        _ h2 in
    let (e, enforced, h4) = and_then-eq-ok (enforce_confirm_metadata cmd default_effects) _ h3 in
    let (n, raised, done) =
      and_then-eq-ok (ok_or (checked_increment cmd.current_revision) invalid_input) _ h4 in
    let (at, to) = (stays cmd).0 (ground (arith, pending)) in
    let (given, effects) = (confirm_effects cmd e).0 enforced in
    let room = (checked_increment_iff cmd.current_revision n).0 (ground (arith, raised)) in
    (
      record {
        well_formed = (validate_base_inputs_iff cmd).0 base;
        revision_expected = ground (arith, expected);
        is_pending = at;
        stays_pending = to;
        permission_given = given;
        revision_room = room.0;
      },
      rw (← effects, ← room.1) (ground (arith, done)),
    )

confirm_complete :
    (cmd : ActionTransitionCommand)
    → IsConfirmable cmd
    → apply_confirm_metadata_update cmd ≡ ok (confirmed_outcome cmd)
unfolding apply_confirm_metadata_update
confirm_complete cmd c = rw (
  (validate_base_inputs_iff cmd).1 c.well_formed,
  expected_ok cmd c.revision_expected,
  (stays cmd).1 (c.is_pending, c.stays_pending),
  (confirm_effects cmd _).1 (c.permission_given, refl),
  (checked_increment_iff cmd.current_revision _).1 (c.revision_room, refl),
)

-- A confirm update is applied exactly to a well-formed command of a pending Action that stays
-- pending and names its permission decision. The Action is then still pending, one revision on,
-- bound to an approval, and no status event is emitted.
pub apply_confirm_metadata_update_iff :
    (cmd : ActionTransitionCommand) (out : ActionTransitionOutcome)
    → (apply_confirm_metadata_update cmd ≡ ok out)
      ↔ (IsConfirmable cmd × (out ≡ confirmed_outcome cmd))
apply_confirm_metadata_update_iff cmd out =
    (confirm_sound cmd out, λ p. rw p.1 (confirm_complete cmd p.0))
