-- ===== src/Watch.antt =====
-- The watch daemon (src/java_codebase_rag/watch).
pub mod Lock
pub mod Warm
pub mod Reindex
pub mod Protocol
pub mod Server
pub mod Client
pub mod Debounce
pub mod DaemonExamples
mod Examples
