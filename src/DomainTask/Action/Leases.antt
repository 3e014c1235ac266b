-- ===== src/DomainTask/Action/Leases.antt =====
-- Leases and replay at Action transitions (rust/crates/domain-task/src/action.rs).
use shittim.Base.{true, none, some, ◌≡◌, ◌≢◌, ◌↔◌, ◌⊎◌, refl, arith, ok}
use shittim.Contracts.TaskTypes.{ActionStatus}
use shittim.DomainTask.Types.{
  ActionEffects, LeaseReleaseEffect, ActionTransitionOutcome, action_with_event,
}
use shittim.DomainTask.Action.{ActionTransitionCommand, is_action_transition_allowed, lease_release}
use shittim.DomainTask.Action.Enforce.{apply_action_transition}
use shittim.DomainTask.Action.Apply.{apply_action_transition_iff}
use shittim.DomainTask.Action.Effects.{edge_effects}

-- The lease of the Action is given up, with all its locks.
abbrev pub ReleasesLease : ActionTransitionCommand → ActionEffects → Type 0
ReleasesLease cmd effects =
    (r : LeaseReleaseEffect) × (effects.release_lease_and_locks ≡ some r)
    × (r.action_id ≡ cmd.action_id)
    × (r.release_all_resource_locks ≡ true)
    × (r.invalidate_lease ≡ true)

release_of_edge :
    (s t : ActionStatus) (cmd : ActionTransitionCommand)
    → is_action_transition_allowed s t ≡ true
    → s ≡ ActionStatus.leased
    → t ≢ ActionStatus.in_flight
    → ReleasesLease cmd (edge_effects s t cmd)
unfolding is_action_transition_allowed lease_release
release_of_edge ActionStatus.leased ActionStatus.approved cmd e l n = (_, refl, refl, refl, refl)
release_of_edge ActionStatus.leased ActionStatus.cancelled cmd e l n = (_, refl, refl, refl, refl)
release_of_edge ActionStatus.leased ActionStatus.unknown_side_effect cmd e l n =
    (_, refl, refl, refl, refl)
release_of_edge s t cmd e l n = absurd (ground arith)

no_release_off_lease :
    (s t : ActionStatus) (cmd : ActionTransitionCommand)
    → (s ≢ ActionStatus.leased) ⊎ (t ≡ ActionStatus.in_flight)
    → (edge_effects s t cmd).release_lease_and_locks ≡ none
no_release_off_lease s t cmd h = ground arith

replay_of_edge :
    (s t : ActionStatus) (cmd : ActionTransitionCommand)
    → ((edge_effects s t cmd).forbid_automatic_replay ≡ true)
      ↔ (t ≡ ActionStatus.unknown_side_effect)
replay_of_edge s t cmd = ground arith

-- An applied transition out of leased releases the lease and all locks of that very Action, unless
-- it starts the dispatch; no other transition releases a lease. Automatic replay is forbidden
-- exactly on the way into unknown_side_effect.
pub apply_action_transition_effects :
    (cmd : ActionTransitionCommand) (out : ActionTransitionOutcome)
    → apply_action_transition cmd ≡ ok out
    → (cmd.current_status ≡ ActionStatus.leased
        → cmd.target_status ≢ ActionStatus.in_flight
        → ReleasesLease cmd out.effects)
      × ((cmd.current_status ≢ ActionStatus.leased) ⊎ (cmd.target_status ≡ ActionStatus.in_flight)
          → out.effects.release_lease_and_locks ≡ none)
      × ((out.effects.forbid_automatic_replay ≡ true)
          ↔ (cmd.target_status ≡ ActionStatus.unknown_side_effect))
unfolding action_with_event
apply_action_transition_effects cmd out h =
    let (a, same) = (apply_action_transition_iff cmd out).0 h in
    let s = cmd.current_status in
    let t = cmd.target_status in
    rw same
      (release_of_edge s t cmd a.edge_allowed, no_release_off_lease s t cmd, replay_of_edge s t cmd)
