-- ===== src/DomainTask/Action/Draft.antt =====
-- Compensation drafts (rust/crates/domain-task/src/action.rs,
-- `validate_compensation_action_draft`).
use shittim.Base.{
  ℕ, ◌≤◌, true, false, Option, none, some, ◌≡◌, ◌≢◌, ◌↔◌, refl, sym, ◌∙◌, arith, ok, err, Text,
  text_eq_iff, is_blank,
}
use shittim.Contracts.TaskTypes.{ActionStatus, action_eq_iff}
use shittim.DomainTask.Error.{DomainTaskErrorCode, illegal_compensation_draft}
use shittim.DomainTask.Action.{ActionEvidence, CompensationActionDraft, validate_base_inputs}
use shittim.DomainTask.Action.Enforce.{is_named, validate_compensation_action_draft}
use shittim.DomainTask.Action.Rules.{IsNotBlank, validate_base_inputs_iff}

-- A new Action of its own for the original.
pub record IsCompensation (draft : CompensationActionDraft) : Type 0 where
  pub action_named : IsNotBlank draft.action_id
  pub parent_named : IsNotBlank draft.parent_action_id
  pub new_action : draft.action_id ≢ draft.original_action_id
  pub of_original : draft.parent_action_id ≡ draft.original_action_id
  pub key_named : IsNotBlank draft.idempotency_key
  pub new_key : draft.idempotency_key ≢ draft.original_idempotency_key
  pub starts_pending : draft.status ≡ ActionStatus.pending
  pub not_yet_permitted : (r : Text) → draft.permission_decision_ref ≡ some r → is_blank r ≡ true

unnamed : (o : Option Text) → ((r : Text) → o ≡ some r → is_blank r ≡ true) → is_named o ≡ false
unnamed none h = refl
unnamed (some r) h = rw (h r refl)

-- A draft is accepted exactly when it is a new, pending, not yet permitted Action of its own for
-- the original, under a new idempotency key; any other is refused as an illegal compensation draft.
pub validate_compensation_action_draft_iff :
    (draft : CompensationActionDraft)
    → ((validate_compensation_action_draft draft ≡ ok tt) ↔ IsCompensation draft)
      × ((e : DomainTaskErrorCode)
          → validate_compensation_action_draft draft ≡ err e
          → e ≡ illegal_compensation_draft)
unfolding validate_compensation_action_draft
validate_compensation_action_draft_iff draft = (
  (
    λ h. record {
      action_named = ground arith;
      parent_named = ground arith;
      new_action = λ e. ground (arith, text_eq_iff draft.action_id draft.original_action_id);
      of_original = ground (arith, text_eq_iff draft.parent_action_id draft.original_action_id);
      key_named = ground arith;
      new_key =
          λ e. ground (arith, text_eq_iff draft.idempotency_key draft.original_idempotency_key);
      starts_pending = ground arith;
      not_yet_permitted = λ r e. ground arith;
    },
    λ c. ground (
      arith,
      text_eq_iff draft.action_id draft.original_action_id,
      text_eq_iff draft.parent_action_id draft.original_action_id,
      text_eq_iff draft.idempotency_key draft.original_idempotency_key,
      unnamed draft.permission_decision_ref c.not_yet_permitted,
      action_eq_iff draft.status ActionStatus.pending,
    ),
  ),
  λ e h. ground arith,
)

-- An accepted draft, issued as an Action with its parent, passes the checks of ids that every
-- command of that Action has to pass, at any revision and for any target, reason and evidence.
pub draft-validate_base_inputs :
    (draft : CompensationActionDraft) (revision : ℕ) (expected : Option ℕ) (target : ActionStatus)
    (reason : Text) (evidence : ActionEvidence)
    → validate_compensation_action_draft draft ≡ ok tt
    → 1 ≤ revision
    → IsNotBlank reason
    → validate_base_inputs (record {
      action_id = draft.action_id;
      parent_action_id = some draft.parent_action_id;
      current_status = draft.status;
      current_revision = revision;
      expected_revision = expected;
      target_status = target;
      reason = reason;
      evidence = evidence;
    })
      ≡ ok tt
draft-validate_base_inputs draft revision expected target reason evidence h positive given =
    let c = (validate_compensation_action_draft_iff draft).0.0 h in
    (validate_base_inputs_iff _).1 (record {
      action_named = c.action_named;
      other_parent = λ p e.
          let q : draft.parent_action_id ≡ p = cc in
          (rw (← q) c.parent_named, λ d. c.new_action (sym d ∙ sym q ∙ c.of_original));
      revision_positive = positive;
      reason_given = given;
    })
