-- ===== src/DomainPolicy.antt =====
-- Policy URIs, TaskScope containment, time windows and action patterns (rust/crates/domain-policy).
pub mod Error
pub mod Percent
pub mod Segments
pub mod Globs
pub mod Paths
pub mod Uri
pub mod ResourceScope
pub mod RateLimit
pub mod Context
pub mod Specificity
pub mod Rules
pub mod Dimensions
pub mod Matcher
pub mod Evaluate
pub mod TimeWindow
pub mod ActionPatterns
mod PolicyExamples
mod MatcherExamples
mod EvaluateExamples
