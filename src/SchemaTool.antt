-- ===== src/SchemaTool.antt =====
-- The schema tool (rust/crates/schema-tool).
pub mod JsonPointer
pub mod JsonDocument
pub mod JsonMutation
mod JsonExamples
