-- ===== src/Ingest/Chunking/Layout/Provenance.antt =====
-- The chunks of `chunk_layout` know the blocks that they were drawn from.
use ragent.Common.{
  ℕ, ◌+◌, ◌≡◌, refl, ◌∙◌, inl, inr, String, ◌||◌, not, Option, none, some, List, [], ◌∷◌, ◌++◌, ltb,
  leb, if◌then◌else◌, length, is_empty, Bool-cases, Each, Each-append, str_eq,
}
use ragent.Ingest.Types.{SourceBlock, Chunk, is_atomic, is_none}
use ragent.Ingest.Chunking.{TokenCounter, prepare, assemble}
use ragent.Ingest.Chunking.Assembly.{
  IsSound, Outcome, outcome_of, IsTraced, IsNext, Numbered, FromKnown, append_chunk-IsSound,
  assemble-IsNext, Each-prepare,
}
use ragent.Ingest.Chunking.Recursive.{last_of}
use ragent.Ingest.Chunking.Layout.Raising.{layout_raises-closed}
use ragent.Ingest.Chunking.Layout.{
  Packing, join_blocks, mark_atomic, flush, add_atomic, starts_chunk, add_block, pack, by_id,
  known_blocks, carried, overlap_blocks, overlap_from, apply_block_overlap, layout_chunks,
  layout_raises, chunk_layout,
}

module _ (Known : String → Type 0) (count_tokens : TokenCounter) (target : ℕ) where
  -- Sound chunks, and a buffer of known blocks.
  abbrev pub IsSoundPacking : Packing → Type 0
  IsSoundPacking p = IsSound Known p.chunks × FromKnown Known p.buffer

  flush-IsSound : (p : Packing) → IsSoundPacking p → IsSoundPacking (flush count_tokens target p)
  unfolding flush
  flush-IsSound p (sound, known) = elim (Bool-cases (is_empty p.buffer)) [
    | inl nothing ↦ rw nothing (sound, known)
    | inr something ↦
        let text = join_blocks p.buffer in
        rw something (
          append_chunk-IsSound Known p.chunks
              (assemble (length p.chunks) text p.buffer "layout" count_tokens) sound
              (assemble-IsNext Known (length p.chunks) text p.buffer "layout" count_tokens known),
          tt,
        )
  ]

  mark_atomic-IsNext :
      (kind : String) (n : ℕ) (o : Option Chunk)
      → IsNext Known n o
      → IsNext Known n (mark_atomic kind o)
  mark_atomic-IsNext kind n none h = tt
  mark_atomic-IsNext kind n (some c) h = h

  add_atomic-IsSound :
      (p : Packing) (block : SourceBlock)
      → IsSoundPacking p
      → Known block.id
      → IsSoundPacking (add_atomic count_tokens target p block)
  unfolding add_atomic
  add_atomic-IsSound p block (sound, known) k =
      let n = length p.chunks in
      let made = assemble n block.text (block ∷ []) "layout" count_tokens in
      (
        append_chunk-IsSound Known p.chunks (mark_atomic block.kind made) sound (
            mark_atomic-IsNext block.kind n made
              (assemble-IsNext Known n block.text (block ∷ []) "layout" count_tokens (k, tt))),
        known,
      )

  add_block-IsSound :
      (p : Packing) (block : SourceBlock)
      → IsSoundPacking p
      → Known block.id
      → IsSoundPacking (add_block count_tokens target p block)
  unfolding add_block
  add_block-IsSound p block h k = elim (Bool-cases (starts_chunk count_tokens target p block)) [
    | inl cut ↦
        let (sound, known) = flush-IsSound p h in
        rw cut (
          sound,
          Each-append (λ (b : SourceBlock). Known b.id) (flush count_tokens target p).buffer
              (block ∷ []) (known, (k, tt)),
        )
    | inr joined ↦
        rw joined
          (h.0, Each-append (λ (b : SourceBlock). Known b.id) p.buffer (block ∷ []) (h.1, (k, tt)))
  ]

  pub pack-IsSound :
      (p : Packing) (blocks : List SourceBlock)
      → IsSoundPacking p
      → FromKnown Known blocks
      → IsSound Known (pack count_tokens target p blocks)
  unfolding pack
  pack-IsSound p [] h known = (flush-IsSound p h).0
  pack-IsSound p (block ∷ rest) h (k, known) = elim (Bool-cases (is_atomic block)) [
    | inl atomic ↦ rw atomic (
        pack-IsSound (add_atomic count_tokens target (flush count_tokens target p) block) rest
          (add_atomic-IsSound (flush count_tokens target p) block (flush-IsSound p h) k) known)
    | inr packed ↦ rw packed (
        pack-IsSound (add_block count_tokens target p block) rest (add_block-IsSound p block h k)
          known)
  ]

module _ (Known : String → Type 0) (blocks : List SourceBlock)
    (known : FromKnown Known blocks) where
  -- A block that a dict of known blocks returns is known.
  abbrev IsKnown : Option SourceBlock → Type 0
  IsKnown none = Unit
  IsKnown (some b) = Known b.id

  known_blocks-FromKnown :
      ((i : String) → IsKnown (by_id blocks i))
      → (ids : List String) → FromKnown Known (known_blocks blocks ids)
  unfolding known_blocks
  known_blocks-FromKnown look [] = tt
  known_blocks-FromKnown look (i ∷ rest) =
      at_look (by_id blocks i) (look i) (known_blocks-FromKnown look rest)
    where
      at_look :
          (o : Option SourceBlock)
          → IsKnown o
          → FromKnown Known (known_blocks blocks rest)
          → FromKnown Known
              (elim o [ none ↦ known_blocks blocks rest | some b ↦ b ∷ known_blocks blocks rest ])
      at_look none h more = more
      at_look (some b) h more = (h, more)

by_id-IsKnown :
    (Known : String → Type 0) (blocks : List SourceBlock) (known : FromKnown Known blocks)
    (i : String)
    → IsKnown Known blocks known (by_id blocks i)
unfolding by_id
by_id-IsKnown Known [] known i = tt
by_id-IsKnown Known (b ∷ rest) (k, known) i =
    at_later (by_id rest i) (by_id-IsKnown Known rest known i)
  where
    at_later :
        (o : Option SourceBlock)
        → IsKnown Known rest known o
        → IsKnown Known
            (b ∷ rest)
            (k, known)
            (elim o [ some later ↦ some later | none ↦ if str_eq b.id i then some b else none ])
    at_later (some later) h = h
    at_later none h = elim (Bool-cases (str_eq b.id i)) [
      | inl same ↦ rw same k
      | inr other ↦ rw other tt
    ]

module _ (Known : String → Type 0) (count_tokens : TokenCounter) (overlap : ℕ)
    (blocks : List SourceBlock) (known : FromKnown Known blocks) where
  blocks_of-FromKnown : (ids : List String) → FromKnown Known (known_blocks blocks ids)
  blocks_of-FromKnown = known_blocks-FromKnown Known blocks known (by_id-IsKnown Known blocks known)

  carried-FromKnown : (prev : Chunk) → FromKnown Known (carried count_tokens overlap blocks prev)
  unfolding carried
  carried-FromKnown prev =
      at_blocks (known_blocks blocks (last_of prev.block_ids))
        (blocks_of-FromKnown (last_of prev.block_ids))
    where
      at_blocks :
          (found : List SourceBlock)
          → FromKnown Known found
          → FromKnown Known (elim found [
            | [] ↦ []
            | ◌∷◌ b rest ↦ if leb (count_tokens b.text) overlap then b ∷ [] else []
          ])
      at_blocks [] h = tt
      at_blocks (b ∷ rest) (k, h) = elim (Bool-cases (leb (count_tokens b.text) overlap)) [
        | inl small ↦ rw small (k, tt)
        | inr large ↦ rw large tt
      ]

  abbrev IsLike : Chunk → Chunk → Type 0
  IsLike cur c = (c.seq ≡ cur.seq) × IsTraced Known c

  overlap_blocks-IsTraced :
      (prev cur : Chunk)
      → IsTraced Known cur
      → IsLike cur (overlap_blocks count_tokens overlap blocks prev cur)
  unfolding overlap_blocks
  overlap_blocks-IsTraced prev cur traced =
      let carry = carried count_tokens overlap blocks prev in
      let merged = carry ++ known_blocks blocks cur.block_ids in
      let text = join_blocks merged in
      let from =
        Each-append (λ (b : SourceBlock). Known b.id) carry (known_blocks blocks cur.block_ids)
          (carried-FromKnown prev, blocks_of-FromKnown cur.block_ids) in
      elim (Bool-cases
        (not (is_none cur.meta.atomic) || not (is_none prev.meta.atomic) || is_empty carry)) [
          | inl alone ↦ rw alone (refl, traced)
          | inr merges ↦ rw merges (
              at_merged (assemble cur.seq text merged "layout" count_tokens)
                (assemble-IsNext Known cur.seq text merged "layout" count_tokens from))
        ]
    where
      at_merged :
          (o : Option Chunk)
          → IsNext Known cur.seq o
          → IsLike cur (elim o [ none ↦ cur | some c ↦ c ])
      at_merged none h = (refl, traced)
      at_merged (some c) h = h

  overlap_from-IsSound :
      (n : ℕ) (prev : Chunk) (chunks : List Chunk)
      → Numbered n chunks
      → Each (IsTraced Known) chunks
      → Numbered n (overlap_from count_tokens overlap blocks prev chunks)
        × Each (IsTraced Known) (overlap_from count_tokens overlap blocks prev chunks)
  unfolding overlap_from
  overlap_from-IsSound n prev [] numbered traced = (tt, tt)
  overlap_from-IsSound n prev (cur ∷ rest) (e, numbered) (t, traced) =
      let (same, here) = overlap_blocks-IsTraced prev cur t in
      let (counts, all) = overlap_from-IsSound (n + 1) cur rest numbered traced in
      ((same ∙ e, counts), (here, all))

  apply_block_overlap-IsSound :
      (chunks : List Chunk)
      → IsSound Known chunks
      → IsSound Known (apply_block_overlap count_tokens overlap blocks chunks)
  unfolding apply_block_overlap
  apply_block_overlap-IsSound [] sound = sound
  apply_block_overlap-IsSound (c ∷ rest) ((e, numbered), (t, traced)) =
      let (counts, all) = overlap_from-IsSound 1 c rest numbered traced in ((e, counts), (t, all))

-- For any token counter, budget and overlap: the chunks of `layout_chunks` are numbered from 0, hold
-- text, and name at least one block each. Every id that they name satisfies whatever the ids of the
-- document's blocks satisfy, so it is one of them, also where the last block of the chunk before has
-- been put in front.
layout_chunks-IsSound :
    (Known : String → Type 0) (count_tokens : TokenCounter) (target overlap : ℕ)
    (blocks : List SourceBlock)
    → FromKnown Known blocks
    → IsSound Known (layout_chunks count_tokens target overlap blocks)
unfolding layout_chunks
layout_chunks-IsSound Known count_tokens target overlap blocks known =
    let prepared = prepare blocks in
    let from = Each-prepare (λ (b : SourceBlock). Known b.id) blocks known in
    let start : Packing = record { chunks = []; buffer = []; buffered_tokens = 0 } in
    let sound = pack-IsSound Known count_tokens target start prepared ((tt, tt), tt) from in
    elim (Bool-cases (is_empty prepared)) [
      | inl nothing ↦ rw nothing (tt, tt)
      | inr something ↦ elim (Bool-cases (ltb 0 overlap)) [
        | inl overlaps ↦
            rw (something, overlaps)
              (apply_block_overlap-IsSound Known count_tokens overlap prepared from
                (pack count_tokens target start prepared) sound)
        | inr apart ↦ rw (something, apart) sound
      ]
    ]

-- For any token counter, budget and overlap, `chunk_layout` either raises, and then some block has a
-- start and no end, or returns chunks that are numbered from 0, hold text, and name at least one block
-- each. Every id that they name satisfies whatever the ids of the document's blocks satisfy, so it is
-- one of them, also where the last block of the chunk before has been put in front.
pub chunk_layout-IsSound :
    (Known : String → Type 0) (count_tokens : TokenCounter) (target overlap : ℕ)
    (blocks : List SourceBlock)
    → FromKnown Known blocks
    → Outcome (IsSound Known) blocks (chunk_layout count_tokens target overlap blocks)
unfolding chunk_layout
chunk_layout-IsSound Known count_tokens target overlap blocks known =
    outcome_of (IsSound Known) blocks (layout_raises count_tokens target overlap blocks)
      (layout_chunks count_tokens target overlap blocks)
      (layout_raises-closed count_tokens target overlap blocks)
      (layout_chunks-IsSound Known count_tokens target overlap blocks known)
