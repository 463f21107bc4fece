-- ===== src/Tests.antt =====
-- The theorems at concrete inputs, and runs of the code on them.
mod Stages
mod Scheduling
mod Workers
mod Chunking
mod Detection
mod Fusion
mod Answers
mod Flow
mod StorePg
mod Db
mod Fresh
mod Search
mod Openai
mod Llm
mod Indexing
