-- ===== src/DomainTask/Action/Effects.antt =====
-- The effects that a permitted Action transition records
-- (rust/crates/domain-task/src/action.rs, `enforce_action_invariants`).
use shittim.Base.{
  true, Option, none, some, ◌≡◌, ◌≢◌, ◌↔◌, ◌⊎◌, inl, inr, refl, arith, if◌then◌else◌, ok, Text,
  codes, text_eq_iff, text_eq_refl, Bool-cases,
}
use shittim.Contracts.TaskTypes.{ActionStatus, action_eq, action_eq_iff}
use shittim.DomainTask.Types.{ActionEffects, default_effects}
use shittim.DomainTask.Action.{
  not_started, uncertain, started, ActionTransitionCommand, is_edge, lease_release,
  enforce_failed_verification,
}
use shittim.DomainTask.Action.Enforce.{
  release_expired_lease, release_cancelled_lease, release_uncertain_lease, forbid_replay_in_flight,
  check_completed, check_failed, forbid_replay_unknown, text_or_empty,
}
use shittim.DomainTask.Action.Rules.{IsVerifiedOk, IsProvedFailed}

-- The effects of an edge, read off its two ends: the release of the lease with the reason of the
-- exit, and whether replay is forbidden.
abbrev pub edge_effects : ActionStatus → ActionStatus → ActionTransitionCommand → ActionEffects
edge_effects ActionStatus.leased ActionStatus.approved cmd = record default_effects {
  release_lease_and_locks = some (lease_release cmd (codes "lease_expired"));
}
edge_effects ActionStatus.leased ActionStatus.cancelled cmd = record default_effects {
  release_lease_and_locks = some (lease_release cmd (codes "cancelled_before_dispatch"));
}
edge_effects ActionStatus.leased ActionStatus.unknown_side_effect cmd = record default_effects {
  release_lease_and_locks = some (lease_release cmd (codes "dispatch_uncertain"));
  forbid_automatic_replay = true;
}
edge_effects _ ActionStatus.unknown_side_effect cmd = record default_effects {
  forbid_automatic_replay = true;
}
edge_effects _ _ cmd = default_effects

reason_is :
    (o : Option Text) → text_or_empty o ≡ codes "lease_expired" → o ≡ some (codes "lease_expired")
reason_is none h = cc
reason_is (some s) h = cc h

module _ (cmd : ActionTransitionCommand) (effects : ActionEffects) where
  abbrev pub expired_effects : ActionEffects
  expired_effects =
      if is_edge cmd ActionStatus.leased ActionStatus.approved
      then record effects {
        release_lease_and_locks = some (lease_release cmd (codes "lease_expired"));
      }
      else effects

  abbrev pub cancelled_effects : ActionEffects
  cancelled_effects =
      if is_edge cmd ActionStatus.leased ActionStatus.cancelled
      then record effects {
        release_lease_and_locks = some (lease_release cmd (codes "cancelled_before_dispatch"));
      }
      else effects

  abbrev pub abandoned_effects : ActionEffects
  abandoned_effects =
      if is_edge cmd ActionStatus.leased ActionStatus.unknown_side_effect
      then record effects {
        forbid_automatic_replay = true;
        release_lease_and_locks = some (lease_release cmd (codes "dispatch_uncertain"));
      }
      else effects

  abbrev pub in_flight_effects : ActionEffects
  in_flight_effects =
      if is_edge cmd ActionStatus.in_flight ActionStatus.unknown_side_effect
      then record effects { forbid_automatic_replay = true }
      else effects

  pub release_expired_lease_iff :
      (e : ActionEffects)
      → (release_expired_lease cmd effects ≡ ok e) ↔ (
          (is_edge cmd ActionStatus.leased ActionStatus.approved ≡ true
            → cmd.evidence.reason_code ≡ some (codes "lease_expired"))
          × (e ≡ expired_effects))
  unfolding release_expired_lease
  release_expired_lease_iff e =
      elim (Bool-cases (is_edge cmd ActionStatus.leased ActionStatus.approved)) [
        | inl at ↦ rw at (
          λ h. (
            λ e. reason_is cmd.evidence.reason_code ((text_eq_iff _ _).0 (ground arith)),
            ground arith,
          ),
          λ p. rw (p.1, p.0 refl, text_eq_refl (codes "lease_expired")),
        )
        | inr off ↦ rw off ((λ h. ((λ e. cc), ground arith)), λ p. ground arith)
      ]

  pub release_cancelled_lease_iff :
      (e : ActionEffects)
      → (release_cancelled_lease cmd effects ≡ ok e) ↔ (
          (is_edge cmd ActionStatus.leased ActionStatus.cancelled ≡ true
            → cmd.evidence.dispatch_certainty ≡ some not_started)
          × (e ≡ cancelled_effects))
  unfolding release_cancelled_lease
  release_cancelled_lease_iff e =
      elim (Bool-cases (is_edge cmd ActionStatus.leased ActionStatus.cancelled)) [
        | inl at ↦ rw at ((λ h. ((λ e. ground arith), ground arith)), λ p. rw (p.1, p.0 refl))
        | inr off ↦ rw off ((λ h. ((λ e. cc), ground arith)), λ p. ground arith)
      ]

  pub release_uncertain_lease_iff :
      (e : ActionEffects)
      → (release_uncertain_lease cmd effects ≡ ok e) ↔ (
          (is_edge cmd ActionStatus.leased ActionStatus.unknown_side_effect ≡ true
            → (cmd.evidence.dispatch_certainty ≡ some uncertain)
              ⊎ (cmd.evidence.dispatch_certainty ≡ some started))
          × (e ≡ abandoned_effects))
  unfolding release_uncertain_lease
  release_uncertain_lease_iff e =
      elim (Bool-cases (is_edge cmd ActionStatus.leased ActionStatus.unknown_side_effect)) [
        | inl at ↦ rw at (
          (λ h. ((λ e. ground arith), ground arith)),
          λ p. elim (p.0 refl) [ inl u ↦ rw (p.1, u) | inr s ↦ rw (p.1, s) ],
        )
        | inr off ↦ rw off ((λ h. ((λ e. cc), ground arith)), λ p. ground arith)
      ]

  pub forbid_replay_in_flight_iff :
      (e : ActionEffects)
      → (forbid_replay_in_flight cmd effects ≡ ok e) ↔ (
          (is_edge cmd ActionStatus.in_flight ActionStatus.unknown_side_effect ≡ true
            → cmd.evidence.uncertain_outcome_reason ≢ none)
          × (e ≡ in_flight_effects))
  unfolding forbid_replay_in_flight
  forbid_replay_in_flight_iff e =
      elim (Bool-cases (is_edge cmd ActionStatus.in_flight ActionStatus.unknown_side_effect)) [
        | inl at ↦
            rw at ((λ h. ((λ e n. ground arith), ground arith)), λ p. ground (arith, p.0 refl))
        | inr off ↦ rw off ((λ h. ((λ e. cc), ground arith)), λ p. ground arith)
      ]

pub check_completed_iff :
    (cmd : ActionTransitionCommand)
    → (check_completed cmd ≡ ok tt)
      ↔ (cmd.target_status ≡ ActionStatus.completed → IsVerifiedOk cmd)
unfolding check_completed
check_completed_iff cmd = elim (Bool-cases (action_eq cmd.target_status ActionStatus.completed)) [
  | inl at ↦ rw at (λ h e. ground arith, λ g. ground (arith, g ((action_eq_iff _ _).0 at)))
  | inr off ↦ rw off ((λ h e. cc (rw ((action_eq_iff _ _).1 e) at off)), λ g. refl)
]

pub check_failed_iff :
    (cmd : ActionTransitionCommand)
    → (check_failed cmd ≡ ok tt) ↔ (cmd.target_status ≡ ActionStatus.failed → IsProvedFailed cmd)
unfolding check_failed enforce_failed_verification
check_failed_iff cmd = elim (Bool-cases (action_eq cmd.target_status ActionStatus.failed)) [
  | inl at ↦ rw at (λ h e. ground arith, λ g. ground (arith, g ((action_eq_iff _ _).0 at)))
  | inr off ↦ rw off ((λ h e. cc (rw ((action_eq_iff _ _).1 e) at off)), λ g. refl)
]

-- The steps together record the effects of the edge.
pub edge_effects_lem :
    (cmd : ActionTransitionCommand)
    → forbid_replay_unknown cmd (
        in_flight_effects cmd
          (abandoned_effects cmd (cancelled_effects cmd (expired_effects cmd default_effects))))
      ≡ edge_effects cmd.current_status cmd.target_status cmd
edge_effects_lem cmd = ground arith
