-- ===== src/Ingest/Chunking/Layout.antt =====
-- `chunk_layout` and `_apply_block_overlap` of ragent/ingest/chunking.py.
pub mod Provenance
pub mod Atomic
pub mod Isolation
pub mod Raising
use ragent.Common.{
  ℕ, ◌+◌, String, Bool, true, false, ◌&&◌, ◌||◌, not, Option, none, some, List, [], ◌∷◌, ◌++◌, ltb,
  leb, if◌then◌else◌, length, is_empty, str_eq,
}
use ragent.Ingest.Text.{Text, strip}
use ragent.Ingest.Types.{SourceBlock, Chunk, is_atomic, is_boundary, block_join, is_none}
use ragent.Ingest.Chunking.{TokenCounter, prepare, assemble, assemble_raises, append_chunk}
use ragent.Ingest.Chunking.Recursive.{last_of}

-- `_BLOCK_JOIN.join(b.text.strip() for b in blocks)`
unfoldable pub join_blocks : List SourceBlock → Text
join_blocks [] = []
join_blocks (b ∷ []) = strip b.text
join_blocks (b ∷ c ∷ rest) = strip b.text ++ (block_join ++ join_blocks (c ∷ rest))

abbrev pub same_path : List String → List String → Bool
same_path [] [] = true
same_path (a ∷ p) (b ∷ q) = str_eq a b && same_path p q
same_path _ _ = false

-- `bool(buffer) and buffer[-1].section_path != block.section_path`
unfoldable pub section_changed : List SourceBlock → SourceBlock → Bool
section_changed [] block = false
section_changed (b ∷ []) block = not (same_path b.section_path block.section_path)
section_changed (b ∷ c ∷ rest) block = section_changed (c ∷ rest) block

-- What the loop of `chunk_layout` carries.
pub record Packing : Type 0 where
  pub chunks : List Chunk
  pub buffer : List SourceBlock
  pub buffered_tokens : ℕ

-- `chunk.meta["atomic"] = block.kind`
abbrev pub mark_atomic : String → Option Chunk → Option Chunk
mark_atomic kind none = none
mark_atomic kind (some c) = some (record c { meta = record { atomic = some kind } })

module _ (count_tokens : TokenCounter) (target : ℕ) where
  unfoldable pub flush : Packing → Packing
  flush p = if is_empty p.buffer then p else record {
    chunks =
        append_chunk p.chunks
          (assemble (length p.chunks) (join_blocks p.buffer) p.buffer "layout" count_tokens);
    buffer = [];
    buffered_tokens = 0;
  }

  -- The `is_atomic` branch of the loop's body, behind its flush.
  unfoldable pub add_atomic : Packing → SourceBlock → Packing
  add_atomic p block = record p {
    chunks = append_chunk p.chunks (
        mark_atomic block.kind
          (assemble (length p.chunks) block.text (block ∷ []) "layout" count_tokens));
  }

  unfoldable pub starts_chunk : Packing → SourceBlock → Bool
  starts_chunk p block =
      is_boundary block
      || section_changed p.buffer block
      || ltb target (p.buffered_tokens + count_tokens block.text)

  -- The rest of the loop's body.
  unfoldable pub add_block : Packing → SourceBlock → Packing
  add_block p block =
      let q = if starts_chunk p block then flush p else p in
      record {
        chunks = q.chunks;
        buffer = q.buffer ++ block ∷ [];
        buffered_tokens = q.buffered_tokens + count_tokens block.text;
      }

  -- Whether one of the calls of `_assemble` raises.
  unfoldable pub flush_raises : Packing → Bool
  flush_raises p = not (is_empty p.buffer) && assemble_raises (join_blocks p.buffer) p.buffer

  unfoldable pub pack_raises : Packing → List SourceBlock → Bool
  pack_raises p [] = flush_raises p
  pack_raises p (block ∷ rest) =
      let flushes = is_atomic block || starts_chunk p block in
      let alone = is_atomic block && assemble_raises block.text (block ∷ []) in
      let more =
        pack_raises (if is_atomic block then add_atomic (flush p) block else add_block p block)
          rest in
      flushes && flush_raises p || (alone || more)

  unfoldable pub pack : Packing → List SourceBlock → List Chunk
  pack p [] = (flush p).chunks
  pack p (block ∷ rest) =
      pack (if is_atomic block then add_atomic (flush p) block else add_block p block) rest

-- `by_id[bid]`, of a dict comprehension that keeps the last block of an id.
unfoldable pub by_id : List SourceBlock → String → Option SourceBlock
by_id [] i = none
by_id (b ∷ rest) i = elim (by_id rest i) [
  | some later ↦ some later
  | none ↦ if str_eq b.id i then some b else none
]

-- `[by_id[bid] for bid in ids if bid in by_id]`
unfoldable pub known_blocks : List SourceBlock → List String → List SourceBlock
known_blocks blocks [] = []
known_blocks blocks (i ∷ rest) = elim (by_id blocks i) [
  | none ↦ known_blocks blocks rest
  | some b ↦ b ∷ known_blocks blocks rest
]

unfoldable pub carried : TokenCounter → ℕ → List SourceBlock → Chunk → List SourceBlock
carried count_tokens overlap blocks prev = elim (known_blocks blocks (last_of prev.block_ids)) [
  | [] ↦ []
  | ◌∷◌ b rest ↦ if leb (count_tokens b.text) overlap then b ∷ [] else []
]

-- The body of the loop of `_apply_block_overlap`, for a chunk that has one before it.
unfoldable pub overlap_blocks : TokenCounter → ℕ → List SourceBlock → Chunk → Chunk → Chunk
overlap_blocks count_tokens overlap blocks prev cur =
    let carry = carried count_tokens overlap blocks prev in
    let merged_blocks = carry ++ known_blocks blocks cur.block_ids in
    if not (is_none cur.meta.atomic) || not (is_none prev.meta.atomic) || is_empty carry
    then cur
    else elim (assemble cur.seq (join_blocks merged_blocks) merged_blocks "layout" count_tokens) [
      | none ↦ cur
      | some merged ↦ merged
    ]

-- Whether its call of `_assemble` raises, and whether one of the loop's does.
unfoldable pub overlap_raises : TokenCounter → ℕ → List SourceBlock → Chunk → Chunk → Bool
overlap_raises count_tokens overlap blocks prev cur =
    let carry = carried count_tokens overlap blocks prev in
    let merged_blocks = carry ++ known_blocks blocks cur.block_ids in
    not (not (is_none cur.meta.atomic) || not (is_none prev.meta.atomic) || is_empty carry)
    && assemble_raises (join_blocks merged_blocks) merged_blocks

unfoldable pub overlaps_raise : TokenCounter → ℕ → List SourceBlock → List Chunk → Bool
overlaps_raise count_tokens overlap blocks [] = false
overlaps_raise count_tokens overlap blocks (c ∷ []) = false
overlaps_raise count_tokens overlap blocks (prev ∷ cur ∷ rest) =
    overlap_raises count_tokens overlap blocks prev cur
    || overlaps_raise count_tokens overlap blocks (cur ∷ rest)

unfoldable pub overlap_from : TokenCounter → ℕ → List SourceBlock → Chunk → List Chunk → List Chunk
overlap_from count_tokens overlap blocks prev [] = []
overlap_from count_tokens overlap blocks prev (cur ∷ rest) =
    overlap_blocks count_tokens overlap blocks prev cur
    ∷ overlap_from count_tokens overlap blocks cur rest

unfoldable pub apply_block_overlap : TokenCounter → ℕ → List SourceBlock → List Chunk → List Chunk
unfolding overlap_from
apply_block_overlap count_tokens overlap blocks [] = []
apply_block_overlap count_tokens overlap blocks (c ∷ rest) =
    c ∷ overlap_from count_tokens overlap blocks c rest

-- The chunks of `chunk_layout`, where no call raises.
unfoldable pub layout_chunks : TokenCounter → ℕ → ℕ → List SourceBlock → List Chunk
layout_chunks count_tokens target overlap blocks =
    let prepared = prepare blocks in
    let chunks =
      pack count_tokens target (record { chunks = []; buffer = []; buffered_tokens = 0 })
        prepared in
    if is_empty prepared
    then []
    else if ltb 0 overlap
    then apply_block_overlap count_tokens overlap prepared chunks
    else chunks

unfoldable pub layout_raises : TokenCounter → ℕ → ℕ → List SourceBlock → Bool
layout_raises count_tokens target overlap blocks =
    let prepared = prepare blocks in
    let start : Packing = record { chunks = []; buffer = []; buffered_tokens = 0 } in
    pack_raises count_tokens target start prepared
    || ltb 0 overlap
      && overlaps_raise count_tokens overlap prepared (pack count_tokens target start prepared)

-- `none` is the TypeError.
unfoldable pub chunk_layout : TokenCounter → ℕ → ℕ → List SourceBlock → Option (List Chunk)
chunk_layout count_tokens target overlap blocks =
    if layout_raises count_tokens target overlap blocks
    then none
    else some (layout_chunks count_tokens target overlap blocks)
