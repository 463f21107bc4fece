-- ===== src/Ingest/Indexing.antt =====
-- The `chunk` stage of ragent/ingest/stages/index.py and the dispatch of ragent/ingest/chunking.py.
-- The semantic chunker is a parameter, and `none` is an exception. What is published about progress
-- is left out.
pub mod Provenance
use ragent.Common.{ℕ, ◌+◌, String, Option, none, some, List, [], ◌∷◌, str_eq, if◌then◌else◌, length}
use ragent.Common.Dict
use ragent.Common.Dict.{Dict}
use ragent.Ingest.Types.{SourceBlock, Chunk}
use ragent.Ingest.Chunking.{TokenCounter}
use ragent.Ingest.Chunking.Fixed.{chunk_fixed}
use ragent.Ingest.Chunking.Recursive.{chunk_recursive}
use ragent.Ingest.Chunking.Layout.{chunk_layout}
use ragent.Db.Tables.{Tables}
use ragent.Db.Blocks.{load_blocks}
use ragent.Db.Chunks.{replace_chunks}

abbrev pub Chunker : Type 0
Chunker = TokenCounter → ℕ → ℕ → List SourceBlock → Option (List Chunk)

-- `STRATEGIES[strategy](blocks, **kwargs)`
unfoldable pub chunk_document : Chunker → String → Chunker
chunk_document semantic strategy count_tokens target overlap blocks =
    if str_eq strategy "fixed"
    then chunk_fixed count_tokens target overlap blocks
    else if str_eq strategy "recursive"
    then chunk_recursive count_tokens target overlap blocks
    else if str_eq strategy "layout"
    then chunk_layout count_tokens target overlap blocks
    else if str_eq strategy "semantic"
    then semantic count_tokens target overlap blocks
    else none

-- What the stage needs: the chunkers, and the settings of their budgets.
pub record Chunking : Type 0 where
  pub semantic : Chunker
  pub count_tokens : TokenCounter
  pub target_tokens : ℕ
  pub overlap_tokens : ℕ

-- The body of the loop over the strategies: the number of chunks that are stored.
unfoldable pub chunk_with :
    Chunking → (ℕ → String) → String → String → List SourceBlock → Tables → Option (ℕ × Tables)
chunk_with c fresh document_id strategy blocks db =
    elim (chunk_document c.semantic strategy c.count_tokens c.target_tokens c.overlap_tokens
      blocks) [
        | none ↦ none
        | some chunks ↦ elim (replace_chunks fresh document_id strategy chunks db) [
          | none ↦ none
          | some (ids, db') ↦ some (length chunks, db')
        ]
      ]

-- How the stage ends. Each strategy is stored by a transaction of its own, so that those before an
-- exception stay.
pub data Chunked : Type 0 where
  no_blocks : Chunked
  chunked : Dict ℕ → ℕ → Chunked
  raised : Chunked

-- The loop; `fresh k` makes the ids for the k-th strategy that is stored.
unfoldable pub chunk_strategies :
    Chunking
    → (ℕ → ℕ → String)
    → ℕ
    → String
    → List SourceBlock
    → List String
    → Dict ℕ
    → Tables
    → Chunked × Tables
chunk_strategies c fresh k document_id blocks [] counts db = (chunked counts (length blocks), db)
chunk_strategies c fresh k document_id blocks (strategy ∷ rest) counts db =
    let skipped = chunk_strategies c fresh k document_id blocks rest counts db in
    let stored : Chunked × Tables = elim (chunk_with c (fresh k) document_id strategy blocks db) [
      | none ↦ (raised, db)
      | some (n, db') ↦
          chunk_strategies c fresh (k + 1) document_id blocks rest (Dict.put counts strategy n) db'
    ] in
    if str_eq strategy "semantic" then skipped else stored

unfoldable pub chunk_stage :
    Chunking → (ℕ → ℕ → String) → List String → String → Tables → Chunked × Tables
chunk_stage c fresh strategies document_id db = elim (load_blocks document_id db) [
  | none ↦ (raised, db)
  | some [] ↦ (no_blocks, db)
  | some (b ∷ rest) ↦ chunk_strategies c fresh 0 document_id (b ∷ rest) strategies [] db
]
