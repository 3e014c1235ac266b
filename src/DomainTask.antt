-- ===== src/DomainTask.antt =====
-- The pure Task and Action state machines (rust/crates/domain-task).
pub mod Error
pub mod Types
pub mod CountMap
pub mod Task
pub mod Action
pub mod PolicyOutcome
pub mod Recovery
mod TaskExamples
mod ActionExamples
