-- ===== src/Ingest/Indexing/Provenance.antt =====
-- Chunks that are stored keep the blocks that they came from.
use ragent.Common.{String, ◌≡◌, true, List, [], ◌∷◌, contains}
use ragent.Db.Tables.{Tables, block_ids}
use ragent.Db.Blocks.{rows_of}
use ragent.Ingest.Indexing.{Chunking}

-- The id of a stored block of the document.
abbrev pub IsStored : String → Tables → String → Type 0
IsStored document_id db id = contains (block_ids (rows_of document_id db.blocks)) id ≡ true

-- The strategies whose chunkers are part of the stage.
abbrev pub indexed : List String
indexed = "fixed" ∷ "recursive" ∷ "layout" ∷ []
