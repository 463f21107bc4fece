-- ===== src/Providers.antt =====
-- The models that are called.
pub mod Llm
pub mod Embeddings
