-- ===== src/Agent.antt =====
-- Answering questions.
pub mod Answer
pub mod Prompt
