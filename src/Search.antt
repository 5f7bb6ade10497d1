-- ===== src/Search.antt =====
-- Vector search: the predicates that are sent to the vector store, the fusion of ranked lists, and the collapse of
-- chunks of one type (src/java_codebase_rag/search/search_lancedb.py, src/java_codebase_rag/search/search_scoring.py).
pub mod Predicates
pub mod Fusion
pub mod Dedup
mod Examples
