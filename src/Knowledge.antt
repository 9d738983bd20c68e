-- ===== src/Knowledge.antt =====
-- The life of a piece of knowledge: packages/domain/src/knowledge-lifecycle-builder.ts and
-- packages/domain/src/knowledge-evidence.ts.
pub mod Data
pub mod Evidence
pub mod Feedback
pub mod Topics
pub mod Build
mod Tests
