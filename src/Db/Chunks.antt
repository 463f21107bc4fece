-- ===== src/Db/Chunks.antt =====
-- `replace_chunks` and `load_chunks` of ragent/db/repo.py. `fresh n` is the text of the n-th
-- `uuid.uuid4()`, and `none` is a transaction that is rolled back.
pub mod Stored
pub mod Linked
pub mod Replacing
use ragent.Common.{
  ℕ, ◌+◌, String, Bool, true, false, ◌&&◌, ◌||◌, not, Option, none, some, List, [], ◌∷◌, ◌++◌, map,
  str_eq, ltb, ◌==◌, if◌then◌else◌, filter, all, any, contains, distinct, sort_by,
}
use ragent.Ingest.Types.{Chunk}
use ragent.Db.Tables.{ChunkRow, BlockRow, Link, Tables, has_document, block_ids}

abbrev pub contains_nat : List ℕ → ℕ → Bool
contains_nat [] n = false
contains_nat (x ∷ xs) n = x == n || contains_nat xs n

abbrev pub distinct_nat : List ℕ → Bool
distinct_nat [] = true
distinct_nat (x ∷ xs) = not (contains_nat xs x) && distinct_nat xs

-- `zip(chunk_ids, chunks)`, where the ids are made for the chunks.
unfoldable pub with_ids : (ℕ → String) → ℕ → List Chunk → List (String × Chunk)
with_ids fresh n [] = []
with_ids fresh n (c ∷ rest) = (fresh n, c) ∷ with_ids fresh (n + 1) rest

abbrev pub chunk_ids_of : List (String × Chunk) → List String
chunk_ids_of = map (λ (p : String × Chunk). p.0)

unfoldable pub chunk_row : String → String → String × Chunk → ChunkRow
chunk_row document_id strategy (cid, c) = record {
  id = cid;
  document_id = document_id;
  strategy = strategy;
  seq = c.seq;
  text = c.text;
  context_prefix = c.context_prefix;
  token_count = c.token_count;
  section_path = c.section_path;
  page_from = c.page_from;
  page_to = c.page_to;
  char_start = c.char_start;
  char_end = c.char_end;
}

abbrev pub is_chunk_of : String → String → ChunkRow → Bool
is_chunk_of document_id strategy r = str_eq r.document_id document_id && str_eq r.strategy strategy

abbrev pub chunk_keys : List ChunkRow → List String
chunk_keys = map (λ (r : ChunkRow). r.id)

-- DELETE FROM chunks, which cascades to `chunk_blocks`.
unfoldable pub delete_chunks : String → String → Tables → Tables
delete_chunks document_id strategy db =
    let gone = chunk_keys (filter (is_chunk_of document_id strategy) db.chunks) in
    record db {
      chunks = filter (λ r. not (is_chunk_of document_id strategy r)) db.chunks;
      chunk_blocks = filter (λ (l : Link). not (contains gone l.chunk_id)) db.chunk_blocks;
    }

-- One INSERT of several chunks: the foreign key, the primary key, and the unique key
-- (document_id, strategy, seq), of which the DELETE has left no row.
unfoldable pub insert_chunks : String → String → List (String × Chunk) → Tables → Option Tables
insert_chunks document_id strategy pairs db =
    let ids = chunk_ids_of pairs in
    if has_document db document_id
      && distinct ids
      && all (λ id. not (contains (chunk_keys db.chunks) id)) ids
      && distinct_nat (map (λ (p : String × Chunk). p.1.seq) pairs)
    then some (record db { chunks = db.chunks ++ map (chunk_row document_id strategy) pairs })
    else none

-- The links of a chunk, by `enumerate`.
unfoldable pub links_of : String → ℕ → List String → List Link
links_of cid ordinal [] = []
links_of cid ordinal (bid ∷ rest) =
    record { chunk_id = cid; block_id = bid; ordinal = ordinal } ∷ links_of cid (ordinal + 1) rest

unfoldable pub all_links : List (String × Chunk) → List Link
all_links [] = []
all_links ((cid, c) ∷ rest) = links_of cid 0 c.block_ids ++ all_links rest

abbrev pub is_link : Link → Link → Bool
is_link l k = str_eq k.chunk_id l.chunk_id && str_eq k.block_id l.block_id

-- `executemany` of INSERT … ON CONFLICT DO NOTHING.
unfoldable pub add_links : List Link → List Link → List Link
add_links [] rows = rows
add_links (l ∷ rest) rows = add_links rest (if any (is_link l) rows then rows else rows ++ (l ∷ []))

-- The foreign key of a link's block.
abbrev pub are_linkable : List BlockRow → List Link → Bool
are_linkable blocks = all (λ (l : Link). contains (block_ids blocks) l.block_id)

-- The transaction behind the DELETE.
unfoldable pub write_chunks :
    (ℕ → String) → String → String → List Chunk → Tables → Option (List String × Tables)
write_chunks fresh document_id strategy chunks db =
    let pairs = with_ids fresh 0 chunks in
    let links = all_links pairs in
    elim (insert_chunks document_id strategy pairs db) [
      | none ↦ none
      | some db' ↦
          if are_linkable db'.blocks links
          then some
              (chunk_ids_of pairs, record db' { chunk_blocks = add_links links db'.chunk_blocks })
          else none
    ]

unfoldable pub replace_chunks :
    (ℕ → String) → String → String → List Chunk → Tables → Option (List String × Tables)
replace_chunks fresh document_id strategy [] db = some ([], delete_chunks document_id strategy db)
replace_chunks fresh document_id strategy (c ∷ rest) db =
    write_chunks fresh document_id strategy (c ∷ rest) (delete_chunks document_id strategy db)

abbrev pub chunk_before : ChunkRow → ChunkRow → Bool
chunk_before a b = ltb a.seq b.seq

-- ORDER BY seq
unfoldable pub load_chunks : String → String → Tables → List ChunkRow
load_chunks document_id strategy db =
    sort_by chunk_before (filter (is_chunk_of document_id strategy) db.chunks)
