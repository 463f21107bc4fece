-- ===== src/Ingest/Chunking/Layout/Raising.antt =====
-- `chunk_layout` raises only over a block that has a start and no end.
use ragent.Common.{
  ℕ, ◌≡◌, refl, inl, inr, String, false, Option, none, some, List, [], ◌∷◌, ◌++◌, arith, leb,
  if◌then◌else◌, is_empty, str_eq, Bool-cases, Each-append,
}
use ragent.Ingest.Types.{SourceBlock, Chunk, is_atomic}
use ragent.Ingest.Chunking.{TokenCounter, prepare, is_open}
use ragent.Ingest.Chunking.Assembly.{AreClosed, assemble_raises-closed, Each-prepare}
use ragent.Ingest.Chunking.Recursive.{last_of}
use ragent.Ingest.Chunking.Layout.{
  Packing, join_blocks, flush, add_atomic, starts_chunk, add_block, pack, flush_raises, pack_raises,
  by_id, known_blocks, carried, overlap_raises, overlaps_raise, layout_raises,
}

abbrev IsClosedIfAny : Option SourceBlock → Type 0
IsClosedIfAny none = Unit
IsClosedIfAny (some b) = is_open b ≡ false

by_id-closed :
    (blocks : List SourceBlock) (i : String) → AreClosed blocks → IsClosedIfAny (by_id blocks i)
unfolding by_id
by_id-closed [] i h = tt
by_id-closed (b ∷ rest) i (closed, h) = at_later (by_id rest i) (by_id-closed rest i h)
  where
    at_later :
        (o : Option SourceBlock)
        → IsClosedIfAny o
        → IsClosedIfAny
            (elim o [ some later ↦ some later | none ↦ if str_eq b.id i then some b else none ])
    at_later (some later) k = k
    at_later none k = elim (Bool-cases (str_eq b.id i)) [
      | inl same ↦ rw same closed
      | inr other ↦ rw other tt
    ]

known_blocks-closed :
    (blocks : List SourceBlock) (ids : List String)
    → AreClosed blocks
    → AreClosed (known_blocks blocks ids)
unfolding known_blocks
known_blocks-closed blocks [] h = tt
known_blocks-closed blocks (i ∷ rest) h =
    at_look (by_id blocks i) (by_id-closed blocks i h) (known_blocks-closed blocks rest h)
  where
    at_look :
        (o : Option SourceBlock)
        → IsClosedIfAny o
        → AreClosed (known_blocks blocks rest)
        → AreClosed
            (elim o [ none ↦ known_blocks blocks rest | some b ↦ b ∷ known_blocks blocks rest ])
    at_look none _ more = more
    at_look (some b) closed more = (closed, more)

module _ (count_tokens : TokenCounter) (target overlap : ℕ) where
  flush_raises-closed :
      (p : Packing) → AreClosed p.buffer → flush_raises count_tokens target p ≡ false
  unfolding flush_raises
  flush_raises-closed p h = ground (arith, assemble_raises-closed (join_blocks p.buffer) p.buffer h)

  flush-closed : (p : Packing) → AreClosed p.buffer → AreClosed (flush count_tokens target p).buffer
  unfolding flush
  flush-closed p h = elim (Bool-cases (is_empty p.buffer)) [
    | inl nothing ↦ rw nothing h
    | inr something ↦ rw something tt
  ]

  add_block-closed :
      (p : Packing) (block : SourceBlock)
      → AreClosed p.buffer
      → is_open block ≡ false
      → AreClosed (add_block count_tokens target p block).buffer
  unfolding add_block
  add_block-closed p block h closed =
      let snoc = Each-append (λ (b : SourceBlock). is_open b ≡ false) in
      elim (Bool-cases (starts_chunk count_tokens target p block)) [
        | inl cut ↦ rw cut (
            snoc (flush count_tokens target p).buffer (block ∷ []) (flush-closed p h, (closed, tt)))
        | inr joined ↦ rw joined (snoc p.buffer (block ∷ []) (h, (closed, tt)))
      ]

  pack_raises-closed :
      (p : Packing) (blocks : List SourceBlock)
      → AreClosed p.buffer
      → AreClosed blocks
      → pack_raises count_tokens target p blocks ≡ false
  unfolding pack_raises add_atomic
  pack_raises-closed p [] h closed = flush_raises-closed p h
  pack_raises-closed p (block ∷ rest) h (first, closed) =
      let flushed = flush_raises-closed p h in
      let alone = assemble_raises-closed block.text (block ∷ []) (first, tt) in
      elim (Bool-cases (is_atomic block)) [
        | inl atomic ↦
            let more =
              pack_raises-closed
                (add_atomic count_tokens target (flush count_tokens target p) block) rest
                (flush-closed p h) closed in
            rw (atomic, flushed, alone, more) refl
        | inr packed ↦
            let more =
              pack_raises-closed (add_block count_tokens target p block) rest
                (add_block-closed p block h first) closed in
            rw (packed, flushed, more) (ground arith)
      ]

  module _ (blocks : List SourceBlock) (closed : AreClosed blocks) where
    carried-closed : (prev : Chunk) → AreClosed (carried count_tokens overlap blocks prev)
    unfolding carried
    carried-closed prev =
        at_blocks (known_blocks blocks (last_of prev.block_ids))
          (known_blocks-closed blocks (last_of prev.block_ids) closed)
      where
        at_blocks :
            (found : List SourceBlock)
            → AreClosed found
            → AreClosed (elim found [
              | [] ↦ []
              | ◌∷◌ b rest ↦ if leb (count_tokens b.text) overlap then b ∷ [] else []
            ])
        at_blocks [] h = tt
        at_blocks (b ∷ rest) (k, h) = elim (Bool-cases (leb (count_tokens b.text) overlap)) [
          | inl small ↦ rw small (k, tt)
          | inr large ↦ rw large tt
        ]

    overlap_raises-closed :
        (prev cur : Chunk) → overlap_raises count_tokens overlap blocks prev cur ≡ false
    unfolding overlap_raises
    overlap_raises-closed prev cur =
        let merged =
          carried count_tokens overlap blocks prev ++ known_blocks blocks cur.block_ids in
        ground (
          arith,
          assemble_raises-closed (join_blocks merged) merged (
              Each-append (λ (b : SourceBlock). is_open b ≡ false)
                (carried count_tokens overlap blocks prev) (known_blocks blocks cur.block_ids)
                (carried-closed prev, known_blocks-closed blocks cur.block_ids closed)),
        )

    overlaps_raise-closed :
        (chunks : List Chunk) → overlaps_raise count_tokens overlap blocks chunks ≡ false
    unfolding overlaps_raise
    overlaps_raise-closed [] = refl
    overlaps_raise-closed (c ∷ []) = refl
    overlaps_raise-closed (prev ∷ cur ∷ rest) =
        rw (overlap_raises-closed prev cur) (overlaps_raise-closed (cur ∷ rest))

  pub layout_raises-closed :
      (blocks : List SourceBlock)
      → AreClosed blocks
      → layout_raises count_tokens target overlap blocks ≡ false
  unfolding layout_raises
  layout_raises-closed blocks h =
      let prepared = prepare blocks in
      let closed = Each-prepare (λ (b : SourceBlock). is_open b ≡ false) blocks h in
      let start : Packing = record { chunks = []; buffer = []; buffered_tokens = 0 } in
      rw
        (
          pack_raises-closed start prepared tt closed,
          overlaps_raise-closed prepared closed (pack count_tokens target start prepared),
        )
        (ground arith)
