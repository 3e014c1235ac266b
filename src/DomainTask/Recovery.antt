-- ===== src/DomainTask/Recovery.antt =====
-- Legality of recovery candidates (rust/crates/domain-task/src/recovery.rs).
use shittim.Base.{
  Bool, true, false, not, Option, none, some, ◌≡◌, ◌↔◌, arith, Result, ok, err, ◌>>◌, reject_if,
}
use shittim.Contracts.TaskTypes.{RecoveryDecisionCandidateCandidateKind, retry_original}
use shittim.DomainTask.Error.{DomainTaskErrorCode, illegal_recovery_candidate}

pub record RetryOriginalFacts : Type 0 where
  pub side_effect_confirmed : Option Bool
  pub original_idempotency_guaranteed : Bool

abbrev check_side_effect : Option Bool → Result DomainTaskErrorCode (Unit {0})
check_side_effect (some false) = ok tt
check_side_effect (some true) = err illegal_recovery_candidate
check_side_effect none = err illegal_recovery_candidate

unfoldable pub validate_retry_original_candidate :
    RetryOriginalFacts → Result DomainTaskErrorCode (Unit {0})
validate_retry_original_candidate facts = do
  check_side_effect facts.side_effect_confirmed
  reject_if (not facts.original_idempotency_guaranteed) illegal_recovery_candidate

unfoldable pub validate_recovery_candidate_kind :
    RecoveryDecisionCandidateCandidateKind
    → RetryOriginalFacts
    → Result DomainTaskErrorCode (Unit {0})
unfolding validate_retry_original_candidate
validate_recovery_candidate_kind retry_original facts = validate_retry_original_candidate facts
validate_recovery_candidate_kind _ facts = ok tt

-- A candidate is legal unless it retries the original Action without proof that its side effect
-- did not occur and that it is idempotent; the only refusal is illegal_recovery_candidate.
pub validate_recovery_candidate_kind_iff :
    (kind : RecoveryDecisionCandidateCandidateKind) (facts : RetryOriginalFacts)
    → ((validate_recovery_candidate_kind kind facts ≡ ok tt) ↔ (
        kind ≡ retry_original
        → (facts.side_effect_confirmed ≡ some false)
          × (facts.original_idempotency_guaranteed ≡ true)))
      × ((e : DomainTaskErrorCode)
          → validate_recovery_candidate_kind kind facts ≡ err e
          → e ≡ illegal_recovery_candidate)
unfolding validate_recovery_candidate_kind
validate_recovery_candidate_kind_iff kind facts =
    ((λ h e. (ground arith, ground arith), λ h. ground (arith, h)), λ e h. ground arith)
