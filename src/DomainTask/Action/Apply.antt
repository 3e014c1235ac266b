-- ===== src/DomainTask/Action/Apply.antt =====
-- What `apply_action_transition` accepts, and what it then returns
-- (rust/crates/domain-task/src/action.rs).
use shittim.Base.{
  ℕ, ◌+◌, ◌<◌, true, false, not, none, some, ◌≡◌, ◌↔◌, ◌⊎◌, refl, sym, ◌∙◌, arith, Result, ok,
  reject_if, ok_or, and_then-eq-ok,
}
use shittim.Contracts.TaskTypes.{ActionStatus}
use shittim.DomainTask.Error.{DomainTaskErrorCode, illegal_transition, invalid_input}
use shittim.DomainTask.Types.{
  ActionEffects, default_effects, ActionTransitionOutcome, action_with_event, checked_increment,
}
use shittim.DomainTask.Action.{
  ActionTransitionCommand, is_action_transition_allowed, validate_base_inputs,
  check_expected_revision, is_terminal, enforce_compensation_parent_constraints,
}
use shittim.DomainTask.Action.Enforce.{
  check_approval, check_present_ref, release_expired_lease, release_cancelled_lease,
  release_uncertain_lease, forbid_replay_in_flight, check_completed, check_failed,
  forbid_replay_unknown, enforce_action_invariants, apply_action_transition,
}
use shittim.DomainTask.Action.Rules.{
  IsWellFormed, validate_base_inputs_iff, KeepsToOrdinaryChain, enforce_compensation_iff,
  IsJustified, check_approval_iff, check_present_ref_iff,
}
use shittim.DomainTask.Action.Effects.{
  edge_effects, edge_effects_lem, expired_effects, cancelled_effects, abandoned_effects,
  in_flight_effects, release_expired_lease_iff, release_cancelled_lease_iff,
  release_uncertain_lease_iff, forbid_replay_in_flight_iff, check_completed_iff, check_failed_iff,
}

-- All that a command has to bring for its transition to be applied.
pub record IsApplicable (cmd : ActionTransitionCommand) : Type 0 where
  pub well_formed : IsWellFormed cmd
  pub revision_expected :
      (cmd.expected_revision ≡ none) ⊎ (cmd.expected_revision ≡ some cmd.current_revision)
  pub edge_allowed : is_action_transition_allowed cmd.current_status cmd.target_status ≡ true
  pub ordinary_chain : KeepsToOrdinaryChain cmd
  pub justified : IsJustified cmd
  pub revision_room : cmd.current_revision + 1 < 18446744073709551616

-- The only outcome that an applicable command can have.
abbrev pub outcome_of : ActionTransitionCommand → ActionTransitionOutcome
outcome_of cmd =
    action_with_event cmd.current_status cmd.target_status (cmd.current_revision + 1) true
      (edge_effects cmd.current_status cmd.target_status cmd) cmd.reason

abbrev step1 : ActionTransitionCommand → ActionEffects
step1 cmd = expired_effects cmd default_effects

abbrev step2 : ActionTransitionCommand → ActionEffects
step2 cmd = cancelled_effects cmd (step1 cmd)

abbrev step3 : ActionTransitionCommand → ActionEffects
step3 cmd = abandoned_effects cmd (step2 cmd)

abbrev step4 : ActionTransitionCommand → ActionEffects
step4 cmd = in_flight_effects cmd (step3 cmd)

not_terminal :
    (s t : ActionStatus) → is_action_transition_allowed s t ≡ true → is_terminal s ≡ false
unfolding is_action_transition_allowed
not_terminal s t h = ground arith

enforce_action_invariants_complete :
    (cmd : ActionTransitionCommand)
    → is_action_transition_allowed cmd.current_status cmd.target_status ≡ true
    → KeepsToOrdinaryChain cmd
    → IsJustified cmd
    → enforce_action_invariants cmd default_effects
      ≡ ok (edge_effects cmd.current_status cmd.target_status cmd)
unfolding enforce_action_invariants
enforce_action_invariants_complete cmd edge chain j = rw (
  not_terminal cmd.current_status cmd.target_status edge,
  (enforce_compensation_iff cmd edge).1 chain,
  (check_approval_iff cmd).1 j.approval,
  (check_present_ref_iff _).1 j.permission_named,
  (release_expired_lease_iff cmd default_effects (step1 cmd)).1 (j.expiry, refl),
  (release_cancelled_lease_iff cmd (step1 cmd) (step2 cmd)).1 (j.cancellation, refl),
  (release_uncertain_lease_iff cmd (step2 cmd) (step3 cmd)).1 (j.abandonment, refl),
  (forbid_replay_in_flight_iff cmd (step3 cmd) (step4 cmd)).1 (j.uncertainty, refl),
  (check_completed_iff cmd).1 j.completion,
  (check_failed_iff cmd).1 j.failure,
  edge_effects_lem cmd,
)

last_effects :
    (cmd : ActionTransitionCommand) (e e1 e2 e3 e4 : ActionEffects)
    → e1 ≡ expired_effects cmd default_effects
    → e2 ≡ cancelled_effects cmd e1
    → e3 ≡ abandoned_effects cmd e2
    → e4 ≡ in_flight_effects cmd e3
    → ◌≡◌ {A = Result DomainTaskErrorCode ActionEffects} (ok (forbid_replay_unknown cmd e4)) (ok e)
    → e ≡ edge_effects cmd.current_status cmd.target_status cmd
last_effects cmd e e1 e2 e3 e4 q1 q2 q3 q4 h =
    let p : forbid_replay_unknown cmd e4 ≡ e = cc in
    sym p ∙ rw (q4, q3, q2, q1) (edge_effects_lem cmd)

pub expected_ok :
    (cmd : ActionTransitionCommand)
    → (cmd.expected_revision ≡ none) ⊎ (cmd.expected_revision ≡ some cmd.current_revision)
    → check_expected_revision cmd.expected_revision cmd.current_revision ≡ ok tt
expected_ok cmd h = ground arith

enforce_action_invariants_sound :
    (cmd : ActionTransitionCommand) (e : ActionEffects)
    → is_action_transition_allowed cmd.current_status cmd.target_status ≡ true
    → enforce_action_invariants cmd default_effects ≡ ok e
    → KeepsToOrdinaryChain cmd
      × IsJustified cmd
      × (e ≡ edge_effects cmd.current_status cmd.target_status cmd)
unfolding enforce_action_invariants
enforce_action_invariants_sound cmd e edge h =
    let (_, _, h1) =
      and_then-eq-ok (reject_if (is_terminal cmd.current_status) illegal_transition) _ h in
    let (_, chain, h2) = and_then-eq-ok (enforce_compensation_parent_constraints cmd) _ h1 in
    let (_, approval, h3) = and_then-eq-ok (check_approval cmd) _ h2 in
    let (_, present, h4) =
      and_then-eq-ok (check_present_ref cmd.evidence.permission_decision_ref) _ h3 in
    let (e1, p1, h5) = and_then-eq-ok (release_expired_lease cmd default_effects) _ h4 in
    let (e2, p2, h6) = and_then-eq-ok (release_cancelled_lease cmd e1) _ h5 in
    let (e3, p3, h7) = and_then-eq-ok (release_uncertain_lease cmd e2) _ h6 in
    let (e4, p4, h8) = and_then-eq-ok (forbid_replay_in_flight cmd e3) _ h7 in
    let (_, completed, h9) = and_then-eq-ok (check_completed cmd) _ h8 in
    let (_, failed, h10) = and_then-eq-ok (check_failed cmd) _ h9 in
    let (expiry, q1) = (release_expired_lease_iff cmd default_effects e1).0 p1 in
    let (cancellation, q2) = (release_cancelled_lease_iff cmd e1 e2).0 p2 in
    let (abandonment, q3) = (release_uncertain_lease_iff cmd e2 e3).0 p3 in
    let (uncertainty, q4) = (forbid_replay_in_flight_iff cmd e3 e4).0 p4 in
    (
      (enforce_compensation_iff cmd edge).0 chain,
      record {
        approval = (check_approval_iff cmd).0 approval;
        permission_named = (check_present_ref_iff _).0 present;
        expiry = expiry;
        cancellation = cancellation;
        abandonment = abandonment;
        uncertainty = uncertainty;
        completion = (check_completed_iff cmd).0 completed;
        failure = (check_failed_iff cmd).0 failed;
      },
      last_effects cmd e e1 e2 e3 e4 q1 q2 q3 q4 h10,
    )

pub checked_increment_iff :
    (n m : ℕ) → (checked_increment n ≡ some m) ↔ ((n + 1 < 18446744073709551616) × (m ≡ n + 1))
unfolding checked_increment
checked_increment_iff n m = ground arith

apply_action_transition_sound :
    (cmd : ActionTransitionCommand) (out : ActionTransitionOutcome)
    → apply_action_transition cmd ≡ ok out
    → IsApplicable cmd × (out ≡ outcome_of cmd)
unfolding apply_action_transition
apply_action_transition_sound cmd out h =
    let (_, base, h1) = and_then-eq-ok (validate_base_inputs cmd) _ h in
    let (_, expected, h2) =
      and_then-eq-ok (check_expected_revision cmd.expected_revision cmd.current_revision) _ h1 in
    let (_, allowed, h3) =
      and_then-eq-ok
        (reject_if (not (is_action_transition_allowed cmd.current_status cmd.target_status))
          illegal_transition)
        _ h2 in
    let (e, enforced, h4) = and_then-eq-ok (enforce_action_invariants cmd default_effects) _ h3 in
    let (n, raised, done) =
      and_then-eq-ok (ok_or (checked_increment cmd.current_revision) invalid_input) _ h4 in
    let edge : is_action_transition_allowed cmd.current_status cmd.target_status ≡ true =
      ground arith in
    let (chain, justified, effects) = enforce_action_invariants_sound cmd e edge enforced in
    let room = (checked_increment_iff cmd.current_revision n).0 (ground (arith, raised)) in
    (
      record {
        well_formed = (validate_base_inputs_iff cmd).0 base;
        revision_expected = ground (arith, expected);
        edge_allowed = edge;
        ordinary_chain = chain;
        justified = justified;
        revision_room = room.0;
      },
      rw (← effects, ← room.1) (ground (arith, done)),
    )

apply_action_transition_complete :
    (cmd : ActionTransitionCommand)
    → IsApplicable cmd
    → apply_action_transition cmd ≡ ok (outcome_of cmd)
unfolding apply_action_transition
apply_action_transition_complete cmd a = rw (
  (validate_base_inputs_iff cmd).1 a.well_formed,
  expected_ok cmd a.revision_expected,
  a.edge_allowed,
  enforce_action_invariants_complete cmd a.edge_allowed a.ordinary_chain a.justified,
  (checked_increment_iff cmd.current_revision _).1 (a.revision_room, refl),
)

-- A command is applied exactly when it is applicable, and the outcome is then `outcome_of`: the
-- target status, the revision raised by one, the effects of the edge and one event that says so.
pub apply_action_transition_iff :
    (cmd : ActionTransitionCommand) (out : ActionTransitionOutcome)
    → (apply_action_transition cmd ≡ ok out) ↔ (IsApplicable cmd × (out ≡ outcome_of cmd))
apply_action_transition_iff cmd out =
    (apply_action_transition_sound cmd out, λ p. rw p.1 (apply_action_transition_complete cmd p.0))
