-- ===== src/Ingest/Chunking/Layout/Isolation.antt =====
-- The overlap of `chunk_layout` neither touches a table or figure nor carries one.
use ragent.Common.{
  ℕ, ◌≡◌, inl, inr, String, true, ◌||◌, not, Option, none, some, List, [], ◌∷◌, ◌++◌, arith, ltb,
  leb, if◌then◌else◌, is_empty, Bool-cases, Each, Each-append,
}
use ragent.Ingest.Types.{SourceBlock, Chunk, is_none}
use ragent.Ingest.Chunking.{TokenCounter, prepare, assemble}
use ragent.Ingest.Chunking.Assembly.{Each-prepare, FromKnown}
use ragent.Ingest.Chunking.Recursive.{last_of}
use ragent.Ingest.Chunking.Recursive.Provenance.{last_of-Each}
use ragent.Ingest.Chunking.Assembly.{Outcome, outcome_of}
use ragent.Ingest.Chunking.Layout.Raising.{layout_raises-closed}
use ragent.Ingest.Chunking.Layout.{
  Packing, join_blocks, pack, known_blocks, carried, overlap_blocks, overlap_from,
  apply_block_overlap, layout_chunks, layout_raises, chunk_layout,
}
use ragent.Ingest.Chunking.Layout.Atomic.{
  Holds, IsApart, IsSorted, IsApartIfAny, pack-IsApart, assemble-IsApart, known_blocks-Running,
}

module _ (Alone Running : String → Type 0) where
  running_ids :
      (atomic : Option String) (ids : List String)
      → Holds Alone Running atomic ids
      → is_none atomic ≡ true
      → Each Running ids
  running_ids none ids h e = h
  running_ids (some kind) ids h e = absurd (ground (arith))

  module _ (count_tokens : TokenCounter) (overlap : ℕ) (blocks : List SourceBlock) where
    carried-Running :
        (prev : Chunk)
        → Each Running prev.block_ids
        → FromKnown Running (carried count_tokens overlap blocks prev)
    unfolding carried
    carried-Running prev h = at_blocks (known_blocks blocks (last_of prev.block_ids)) (
        known_blocks-Running Alone Running blocks (last_of prev.block_ids)
          (last_of-Each Running prev.block_ids h))
      where
        at_blocks :
            (found : List SourceBlock)
            → FromKnown Running found
            → FromKnown Running (elim found [
              | [] ↦ []
              | ◌∷◌ b rest ↦ if leb (count_tokens b.text) overlap then b ∷ [] else []
            ])
        at_blocks [] h = tt
        at_blocks (b ∷ rest) (k, h) = elim (Bool-cases (leb (count_tokens b.text) overlap)) [
          | inl small ↦ rw small (k, tt)
          | inr large ↦ rw large tt
        ]

    overlap_blocks-IsApart :
        (prev cur : Chunk)
        → IsApart Alone Running prev
        → IsApart Alone Running cur
        → IsApart Alone Running (overlap_blocks count_tokens overlap blocks prev cur)
    unfolding overlap_blocks
    overlap_blocks-IsApart prev cur before apart =
        let carry = carried count_tokens overlap blocks prev in
        let own = known_blocks blocks cur.block_ids in
        let text = join_blocks (carry ++ own) in
        elim (Bool-cases
          (not (is_none cur.meta.atomic) || not (is_none prev.meta.atomic) || is_empty carry)) [
            | inl alone ↦ rw alone apart
            | inr merges ↦
                let ids = running_ids cur.meta.atomic cur.block_ids apart (ground (arith)) in
                let prev_ids =
                  running_ids prev.meta.atomic prev.block_ids before (ground (arith)) in
                rw merges (
                  at_merged (assemble cur.seq text (carry ++ own) "layout" count_tokens) (
                    assemble-IsApart Alone Running cur.seq text (carry ++ own) "layout" count_tokens
                      (Each-append (λ (b : SourceBlock). Running b.id) carry own
                        (
                          carried-Running prev prev_ids,
                          known_blocks-Running Alone Running blocks cur.block_ids ids,
                        ))))
          ]
      where
        at_merged :
            (o : Option Chunk)
            → IsApartIfAny Alone Running o
            → IsApart Alone Running (elim o [ none ↦ cur | some c ↦ c ])
        at_merged none h = apart
        at_merged (some c) h = h

    overlap_from-IsApart :
        (prev : Chunk) (chunks : List Chunk)
        → IsApart Alone Running prev
        → Each (IsApart Alone Running) chunks
        → Each (IsApart Alone Running) (overlap_from count_tokens overlap blocks prev chunks)
    unfolding overlap_from
    overlap_from-IsApart prev [] before apart = tt
    overlap_from-IsApart prev (cur ∷ rest) before (a, apart) =
        (overlap_blocks-IsApart prev cur before a, overlap_from-IsApart cur rest a apart)

    apply_block_overlap-IsApart :
        (chunks : List Chunk)
        → Each (IsApart Alone Running) chunks
        → Each (IsApart Alone Running) (apply_block_overlap count_tokens overlap blocks chunks)
    unfolding apply_block_overlap
    apply_block_overlap-IsApart [] apart = tt
    apply_block_overlap-IsApart (c ∷ rest) (a, apart) = (a, overlap_from-IsApart c rest a apart)

-- Where the ids of tables and figures satisfy one predicate and those of all other blocks another,
-- every chunk of `layout_chunks`, with or without an overlap, either is marked as atomic and names
-- exactly one block, of the first sort, or is not marked and names only blocks of the second sort.
layout_chunks-IsApart :
    (Alone Running : String → Type 0) (count_tokens : TokenCounter) (target overlap : ℕ)
    (blocks : List SourceBlock)
    → Each (IsSorted Alone Running) blocks
    → Each (IsApart Alone Running) (layout_chunks count_tokens target overlap blocks)
unfolding layout_chunks
layout_chunks-IsApart Alone Running count_tokens target overlap blocks sorted =
    let prepared = prepare blocks in
    let start : Packing = record { chunks = []; buffer = []; buffered_tokens = 0 } in
    let apart =
      pack-IsApart Alone Running count_tokens target start prepared (tt, tt)
        (Each-prepare (IsSorted Alone Running) blocks sorted) in
    elim (Bool-cases (is_empty prepared)) [
      | inl nothing ↦ rw nothing tt
      | inr something ↦ elim (Bool-cases (ltb 0 overlap)) [
        | inl overlaps ↦
            rw (something, overlaps)
              (apply_block_overlap-IsApart Alone Running count_tokens overlap prepared
                (pack count_tokens target start prepared) apart)
        | inr bare ↦ rw (something, bare) apart
      ]
    ]

-- Where the ids of tables and figures satisfy one predicate and those of all other blocks another,
-- `chunk_layout` either raises, and then some block has a start and no end, or every chunk, with or
-- without an overlap, either is marked as atomic and names exactly one block, of the first sort, or is
-- not marked and names only blocks of the second sort.
pub chunk_layout-IsApart :
    (Alone Running : String → Type 0) (count_tokens : TokenCounter) (target overlap : ℕ)
    (blocks : List SourceBlock)
    → Each (IsSorted Alone Running) blocks
    → Outcome
        (Each (IsApart Alone Running))
        blocks
        (chunk_layout count_tokens target overlap blocks)
unfolding chunk_layout
chunk_layout-IsApart Alone Running count_tokens target overlap blocks sorted =
    outcome_of (Each (IsApart Alone Running)) blocks
      (layout_raises count_tokens target overlap blocks)
      (layout_chunks count_tokens target overlap blocks)
      (layout_raises-closed count_tokens target overlap blocks)
      (layout_chunks-IsApart Alone Running count_tokens target overlap blocks sorted)
