-- ===== src/Contracts.antt =====
-- The generated contract types that the domain crates compute with
-- (rust/crates/kernel-contracts/src/generated/types.rs).
pub mod TaskTypes
pub mod PolicyEnums
pub mod PolicyTypes
pub mod Json
