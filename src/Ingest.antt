-- ===== src/Ingest.antt =====
-- ragent/ingest: what is known of a document's format, its blocks and its chunks.
pub mod Formats
pub mod Detection
pub mod Flow
pub mod Text
pub mod Types
pub mod Chunking
pub mod Indexing
