-- ===== src/DomainTask/Types.antt =====
-- Transition outcomes, evidence and event intents
-- (rust/crates/domain-task/src/types.rs and event_intent.rs, and `LeaseReleaseEffect` of action.rs).
use shittim.Base.{ℕ, ◌+◌, Bool, false, Option, none, some, List, [], ◌∷◌, Text, ltb, if◌then◌else◌}
use shittim.Contracts.TaskTypes.{TaskStatus, ActionStatus, VerificationResultOutcome}

pub record SideEffectRef : Type 0 where
  pub ref_id : Text

pub record VerificationEvidenceSummary : Type 0 where
  pub outcome : VerificationResultOutcome
  pub verification_result_ref : Option Text
  pub side_effect_confirmed : Option Bool

pub record LeaseReleaseEffect : Type 0 where
  pub action_id : Text
  pub reason : Text
  pub release_all_resource_locks : Bool
  pub invalidate_lease : Bool

pub record ActionEffects : Type 0 where
  pub release_lease_and_locks : Option LeaseReleaseEffect
  pub forbid_automatic_replay : Bool
  pub requires_approval_record_ref : Bool

-- `ActionEffects::default()`
abbrev pub default_effects : ActionEffects
default_effects = record {
  release_lease_and_locks = none;
  forbid_automatic_replay = false;
  requires_approval_record_ref = false;
}

pub record TaskEventIntent : Type 0 where
  pub from_status : TaskStatus
  pub to_status : TaskStatus
  pub revision : ℕ
  pub plan_version : ℕ
  pub reason : Text

pub record ActionEventIntent : Type 0 where
  pub from_status : ActionStatus
  pub to_status : ActionStatus
  pub revision : ℕ
  pub reason : Text

pub data EventIntent : Type 0 where
  task : TaskEventIntent → EventIntent
  action : ActionEventIntent → EventIntent

pub record TaskTransitionOutcome : Type 0 where
  pub new_status : TaskStatus
  pub new_revision : ℕ
  pub new_plan_version : ℕ
  pub plan_version_incremented : Bool
  pub event_intents : List EventIntent

pub record ActionTransitionOutcome : Type 0 where
  pub new_status : ActionStatus
  pub new_revision : ℕ
  pub status_changed : Bool
  pub effects : ActionEffects
  pub event_intents : List EventIntent

-- `TaskTransitionOutcome::with_event`
unfoldable pub task_with_event :
    TaskStatus → TaskStatus → ℕ → ℕ → Bool → Text → TaskTransitionOutcome
task_with_event from to new_revision new_plan_version plan_version_incremented reason = record {
  new_status = to;
  new_revision = new_revision;
  new_plan_version = new_plan_version;
  plan_version_incremented = plan_version_incremented;
  event_intents =
      EventIntent.task (record {
        from_status = from;
        to_status = to;
        revision = new_revision;
        plan_version = new_plan_version;
        reason = reason;
      })
      ∷ [];
}

-- `ActionTransitionOutcome::with_event`
unfoldable pub action_with_event :
    ActionStatus → ActionStatus → ℕ → Bool → ActionEffects → Text → ActionTransitionOutcome
action_with_event from to new_revision status_changed effects reason = record {
  new_status = to;
  new_revision = new_revision;
  status_changed = status_changed;
  effects = effects;
  event_intents =
      if status_changed
      then EventIntent.action
          (record { from_status = from; to_status = to; revision = new_revision; reason = reason })
        ∷ []
      else [];
}

-- `u64::checked_add(1)`
unfoldable pub checked_increment : ℕ → Option ℕ
checked_increment n = if ltb (n + 1) 18446744073709551616 then some (n + 1) else none
