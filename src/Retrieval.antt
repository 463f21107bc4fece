-- ===== src/Retrieval.antt =====
-- Finding passages.
pub mod Fusion
pub mod Vectors
pub mod Search
