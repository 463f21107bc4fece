-- ===== src/Lib.antt =====
-- RAGent: documents in, cited answers out. This development models the parts of the repository
-- that decide: which stage of a document's ingest runs when, what is published and recorded for it,
-- how an upload is recognised, how a document's blocks become the chunks that are indexed, and how
-- an answer is ranked and cited.
--
-- The parts and how they interact. An upload becomes a document, once per content, and a run: a
-- `StageMessage` for each stage that may start. A worker takes one delivery, looks the stage's handler
-- up, calls it, and records the outcome in the stage store. From what the store then knows, the
-- scheduler finds the stages that have become ready, and the worker publishes a message for each. A
-- failure is planned: a retry exchange with a delay, or the dead-letter exchange. Among the handlers,
-- the chunking stage packs blocks into chunks under one of several strategies, and the tables keep
-- each chunk with the blocks that it came from. A question is searched for by two retrievers whose
-- rankings are fused; each hit becomes a passage with the place that a citation of it leads to. An
-- answer is streamed by a model from the passages, or quotes them where there is no model, and cites
-- them; an OpenAI-compatible surface gives it whole or as events.
--
-- Which file models which part of the repository:
--   Common                shared names, Boolean tests, lists, sets of names, dictionaries
--   Pipeline/Stages       ragent/pipeline/stages.py: PIPELINE, ready_stages, is_complete,
--                         retry_delay_ms, validate_pipeline
--   Pipeline/Json         the values of Python's json module
--   Pipeline/Messages     ragent/pipeline/messages.py: StageMessage, to_bytes, from_bytes
--   Pipeline/Topology     ragent/pipeline/topology.py: build_topology, declare
--   Pipeline/Store        ragent/pipeline/store.py: InMemoryStageStore
--   Pipeline/StorePg      ragent/pipeline/store_pg.py: PostgresStageStore, a transaction at a time
--   Pipeline/Runner       ragent/pipeline/runner.py: plan_failure, next_messages, resume_plan
--   Pipeline/Handlers     ragent/pipeline/handlers.py: the registry
--   Workers/Consumer      ragent/workers/run.py: StageConsumer, one delivery at a time
--   Ingest/Formats        ragent/ingest/formats.py: the families
--   Ingest/Detection      ragent/ingest/formats.py: the format tables and detect_format
--   Ingest/Types          ragent/ingest/types.py: SourceBlock, Chunk
--   Ingest/Text           Python's str as a list of code points: strip, find, slices, words
--   Ingest/Chunking       ragent/ingest/chunking.py: chunk_fixed, chunk_recursive, chunk_layout
--   Ingest/Indexing       ragent/ingest/stages/index.py: chunk_stage; chunking.py: chunk_document
--   Ingest/Flow           ragent/ingest/flowtext.py: split_csv
--   Db/Tables             infra/postgres/init.sql: the tables and their constraints
--   Db/Documents, Db/Pages ragent/db/repo.py: create_document, ensure_run, insert_pages and their like
--   Db/Blocks, Db/Chunks  ragent/db/repo.py: insert_blocks, load_blocks, replace_chunks, load_chunks
--   Db/Targets            ragent/db/repo.py: chunk_citation_targets, lexical_search
--   Retrieval/Fusion      ragent/retrieval/fusion.py: reciprocal_rank_fusion
--   Retrieval/Vectors     ragent/retrieval/vectors.py: the calls of Qdrant
--   Retrieval/Search      ragent/retrieval/search.py: hybrid_search
--   Providers/Llm         ragent/providers/llm.py: the choice of a provider, prices, calls, streams
--   Providers/Embeddings  ragent/providers/embeddings.py: get_embedder, embed_documents
--   Agent/Prompt          ragent/agent/answer.py: build_prompt, _extractive_answer
--   Agent/Answer          ragent/agent/answer.py: resolve_citations, answer_stream
--   Api/OpenaiRequests    ragent/api/openai_compat.py: the model name, the question
--   Api/OpenaiCompat      ragent/api/openai_compat.py: chat_completions, _complete, _stream
--   Tests                 the theorems at concrete inputs, and runs of the code
-- Definitions keep the names of the functions; a method is a function of its object's state, and a
-- raised exception is a value of a result type. A generator is what it yields and whether it then
-- raises. A chunker is the chunks that it makes (layout_chunks and its like) and whether one of
-- its calls of _assemble raises (layout_raises and its like). A module constant that functions
-- read is their parameter.
--
-- Parameters, for what the repository calls and does not hold: the json codec and str() of a value,
-- random ids, sorted() of strings, the handlers, the token counter, zipfile, the csv module and the
-- UTF-8 decoder, the arithmetic and the rounding of scores, the values of digits, the embedder, the
-- clients of Qdrant and of the models, how well a chunk's text matches a query, and what a `real`
-- column keeps of a number. SQL statements act on lists of rows, and a method or function that runs
-- in one transaction is one step.
--
-- Fuel. `validate_pipeline` simulates a family with one step more than the pipeline has stages, as
-- each round but the last finishes a stage. The window loop of `chunk_fixed` gets one step more
-- than the document has words, as each window starts behind the last. `_split_recursive` cuts a
-- range with one step more than it has characters, as each separator moves the cursor. A number is
-- printed with one step more than itself, as each digit divides it. The loop over batches of texts
-- to embed has one step more than there are texts. That the fuel of the loops is enough is proved
-- where it is used. Numbers are unbounded, as Python's are.
--
-- Not modelled: the clients of RabbitMQ, Redis and S3, the stage handlers but the one that chunks,
-- most HTTP routes, settings and scripts, which are mostly input and output; the semantic chunker,
-- and the floating-point scores of classify.py and bbox.py; filing metadata and columns of times
-- in the tables; the text of error messages, which stays data.
pub mod Common
pub mod Agent
pub mod Api
pub mod Db
pub mod Ingest
pub mod Pipeline
pub mod Providers
pub mod Retrieval
pub mod Workers
pub mod Tests
