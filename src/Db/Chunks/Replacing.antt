-- ===== src/Db/Chunks/Replacing.antt =====
-- What `replace_chunks` leaves in the tables.
use ragent.Common.{
  ℕ, String, ◌≡◌, refl, ap, ◌∙◌, true, false, ◌&&◌, not, some, List, [], ◌∷◌, ◌++◌, map, str_eq,
  ◌==◌, filter, contains,
}
use mathlib.Core.List.{Memᴰ}
use ragent.Ingest.Types.{Chunk}
use ragent.Ingest.Chunking.Assembly.{IsSound}
use ragent.Db.Tables.{Link, Tables, has_document, block_ids}
use ragent.Db.Chunks.{
  with_ids, chunk_ids_of, chunk_row, chunk_keys, delete_chunks, insert_chunks, all_links, add_links,
  write_chunks, replace_chunks, load_chunks, is_chunk_of,
}
use ragent.Db.Chunks.Stored.{
  distinct-with_ids, absent-with_ids, distinct-seqs, load_chunks-new, load_chunks-other,
  keys_absent, new_rows, append_nil,
}
use ragent.Db.Chunks.Linked.{
  linked_blocks, linked_chunks, add_each, links_new, linked_blocks-filter, linkable-all_links,
  mem-with_ids,
}

-- The tables behind the transaction.
abbrev replaced : (ℕ → String) → String → String → List Chunk → Tables → Tables
replaced fresh document_id strategy chunks db =
    let db' = delete_chunks document_id strategy db in
    record db' {
      chunks = db'.chunks ++ new_rows fresh document_id strategy 0 chunks;
      chunk_blocks = add_links (all_links (with_ids fresh 0 chunks)) db'.chunk_blocks;
    }

write_chunks-some :
    (document_id strategy : String) (fresh : ℕ → String) (chunks : List Chunk) (db : Tables)
    → has_document db document_id ≡ true
    → ((m n : ℕ) → str_eq (fresh m) (fresh n) ≡ (m == n))
    → ((n : ℕ) → contains (chunk_keys db.chunks) (fresh n) ≡ false)
    → IsSound (λ id. contains (block_ids db.blocks) id ≡ true) chunks
    → write_chunks fresh document_id strategy chunks db
      ≡ some (
        chunk_ids_of (with_ids fresh 0 chunks),
        record db {
          chunks = db.chunks ++ new_rows fresh document_id strategy 0 chunks;
          chunk_blocks = add_links (all_links (with_ids fresh 0 chunks)) db.chunk_blocks;
        },
      )
unfolding write_chunks insert_chunks
write_chunks-some document_id strategy fresh chunks db known once new sound =
    let inserted : insert_chunks document_id strategy (with_ids fresh 0 chunks) db
        ≡ some (record db { chunks = db.chunks ++ new_rows fresh document_id strategy 0 chunks }) =
      rw
        (
          known,
          distinct-with_ids fresh once 0 chunks,
          absent-with_ids fresh (chunk_keys db.chunks) 0 chunks new,
          distinct-seqs fresh 0 0 chunks sound.0,
        )
        refl in
    rw (inserted, write_chunks) (rw (linkable-all_links fresh 0 db.blocks chunks sound.1) refl)

replace_chunks-some :
    (document_id strategy : String) (fresh : ℕ → String) (chunks : List Chunk) (db : Tables)
    → write_chunks fresh document_id strategy chunks (delete_chunks document_id strategy db)
      ≡ some (chunk_ids_of (with_ids fresh 0 chunks), replaced fresh document_id strategy chunks db)
    → replace_chunks fresh document_id strategy chunks db
      ≡ some (chunk_ids_of (with_ids fresh 0 chunks), replaced fresh document_id strategy chunks db)
unfolding replace_chunks with_ids all_links add_links
replace_chunks-some document_id strategy fresh [] db written =
    rw (append_nil (delete_chunks document_id strategy db).chunks) refl
replace_chunks-some document_id strategy fresh (c ∷ rest) db written = written

linked_new :
    (fresh : ℕ → String) (document_id strategy : String) (chunks : List Chunk) (db : Tables)
    (p : String × Chunk)
    → ((m n : ℕ) → str_eq (fresh m) (fresh n) ≡ (m == n))
    → ((n : ℕ) → contains (linked_chunks db.chunk_blocks) (fresh n) ≡ false)
    → Memᴰ p (with_ids fresh 0 chunks)
    → linked_blocks p.0 (replaced fresh document_id strategy chunks db).chunk_blocks
      ≡ add_each [] p.1.block_ids
unfolding delete_chunks
linked_new fresh document_id strategy chunks db p once unlinked m =
    let (k, e) = mem-with_ids fresh 0 chunks p m in
    let gone = chunk_keys (filter (is_chunk_of document_id strategy) db.chunks) in
    links_new (with_ids fresh 0 chunks) p (delete_chunks document_id strategy db).chunk_blocks
      (distinct-with_ids fresh once 0 chunks) m
      (linked_blocks-filter (λ (l : Link). not (contains gone l.chunk_id)) p.0 db.chunk_blocks
        (ap (contains (linked_chunks db.chunk_blocks)) e ∙ unlinked k))

-- A chunking is replaced as a whole, and no chunk is stored without its provenance. For a stored
-- document and chunks as the chunkers make them, numbered from 0 and of stored blocks, where each
-- `uuid4` is new and differs from the others: the transaction succeeds and returns an id for each
-- chunk. `load_chunks` then returns exactly those chunks in order for this document and strategy,
-- and for any other what it returned before. Each chunk is linked to its own blocks, each once.
pub replace_chunks_lem :
    (fresh : ℕ → String) (document_id strategy : String) (chunks : List Chunk) (db : Tables)
    → has_document db document_id ≡ true
    → IsSound (λ id. contains (block_ids db.blocks) id ≡ true) chunks
    → ((m n : ℕ) → str_eq (fresh m) (fresh n) ≡ (m == n))
    → ((n : ℕ) → contains (chunk_keys db.chunks) (fresh n) ≡ false)
    → ((n : ℕ) → contains (linked_chunks db.chunk_blocks) (fresh n) ≡ false)
    → (db' : Tables) × (replace_chunks fresh document_id strategy chunks db
        ≡ some (chunk_ids_of (with_ids fresh 0 chunks), db'))
      × (load_chunks document_id strategy db'
          ≡ map (chunk_row document_id strategy) (with_ids fresh 0 chunks))
      × ((d s : String)
          → (str_eq document_id d && str_eq strategy s) ≡ false
          → load_chunks d s db' ≡ load_chunks d s db)
      × ((p : String × Chunk)
          → Memᴰ p (with_ids fresh 0 chunks)
          → linked_blocks p.0 db'.chunk_blocks ≡ add_each [] p.1.block_ids)
unfolding delete_chunks has_document
replace_chunks_lem fresh document_id strategy chunks db known sound once new unlinked =
    let db1 = delete_chunks document_id strategy db in
    let links = add_links (all_links (with_ids fresh 0 chunks)) db1.chunk_blocks in
    let absent : (n : ℕ) → contains (chunk_keys db1.chunks) (fresh n) ≡ false = λ n.
      keys_absent (λ r. not (is_chunk_of document_id strategy r)) db.chunks (fresh n) (new n) in
    (
      replaced fresh document_id strategy chunks db,
      replace_chunks-some document_id strategy fresh chunks db
          (write_chunks-some document_id strategy fresh chunks db1 known once absent sound),
      load_chunks-new fresh document_id strategy chunks db links sound.0,
      (λ d s other. load_chunks-other fresh document_id strategy chunks db links d s other),
      (λ p m. linked_new fresh document_id strategy chunks db p once unlinked m),
    )
