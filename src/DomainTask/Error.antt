-- ===== src/DomainTask/Error.antt =====
-- Machine codes of domain failures (rust/crates/domain-task/src/error.rs). A `DomainTaskError` is
-- modelled by its code: the message beside it is text for a reader.
use shittim.Base.{Text, codes}

pub data DomainTaskErrorCode : Type 0 where
  illegal_transition expected_revision_conflict invariant_violation : DomainTaskErrorCode
  missing_evidence illegal_recovery_candidate : DomainTaskErrorCode
  illegal_compensation_draft invalid_input : DomainTaskErrorCode

-- `DomainTaskErrorCode::as_str`
unfoldable pub as_str : DomainTaskErrorCode → Text
as_str DomainTaskErrorCode.illegal_transition = codes "illegal_transition"
as_str DomainTaskErrorCode.expected_revision_conflict = codes "expected_revision_conflict"
as_str DomainTaskErrorCode.invariant_violation = codes "invariant_violation"
as_str DomainTaskErrorCode.missing_evidence = codes "missing_evidence"
as_str DomainTaskErrorCode.illegal_recovery_candidate = codes "illegal_recovery_candidate"
as_str DomainTaskErrorCode.illegal_compensation_draft = codes "illegal_compensation_draft"
as_str DomainTaskErrorCode.invalid_input = codes "invalid_input"
