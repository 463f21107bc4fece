-- ===== src/Ingest/Chunking/Layout/Atomic.antt =====
-- `chunk_layout` keeps tables and figures apart from the text, also under the overlap.
use ragent.Common.{
  ℕ, ◌≡◌, refl, sym, subst, inl, inr, String, ◌||◌, Option, none, some, List, [], ◌∷◌,
  if◌then◌else◌, length, is_empty, Bool-cases, Each, Each-append, str_eq, eq_iff,
}
use ragent.Ingest.Text.{Text, strip}
use ragent.Ingest.Types.{SourceBlock, Chunk, is_atomic}
use ragent.Ingest.Chunking.{TokenCounter, assemble, append_chunk}
use ragent.Ingest.Chunking.Assembly.{FromKnown, ids_Known}
use ragent.Ingest.Chunking.Layout.{
  Packing, join_blocks, mark_atomic, flush, add_atomic, starts_chunk, add_block, pack, by_id,
  known_blocks,
}

module _ (Alone Running : String → Type 0) where
  -- A chunk that is marked as atomic names one block, which is alone, and any other chunk names
  -- running blocks.
  abbrev pub Holds : Option String → List String → Type 0
  Holds (some kind) ids = (i : String) × (ids ≡ i ∷ []) × Alone i
  Holds none ids = Each Running ids

  abbrev pub IsApart : Chunk → Type 0
  IsApart c = Holds c.meta.atomic c.block_ids

  abbrev pub IsSorted : SourceBlock → Type 0
  IsSorted b = if is_atomic b then Alone b.id else Running b.id

  abbrev pub IsApartIfAny : Option Chunk → Type 0
  IsApartIfAny none = Unit
  IsApartIfAny (some c) = IsApart c

  append_chunk-IsApart :
      (chunks : List Chunk) (o : Option Chunk)
      → Each IsApart chunks
      → IsApartIfAny o
      → Each IsApart (append_chunk chunks o)
  append_chunk-IsApart chunks none h next = h
  append_chunk-IsApart chunks (some c) h next = Each-append IsApart chunks (c ∷ []) (h, (next, tt))

  pub assemble-IsApart :
      (n : ℕ) (text : Text) (blocks : List SourceBlock) (strategy : String)
      (count_tokens : TokenCounter)
      → FromKnown Running blocks
      → IsApartIfAny (assemble n text blocks strategy count_tokens)
  unfolding assemble
  assemble-IsApart n text blocks strategy count_tokens h =
      elim (Bool-cases (is_empty (strip text) || is_empty blocks)) [
        | inl nothing ↦ rw nothing tt
        | inr something ↦ rw something (ids_Known Running blocks h)
      ]

  mark_atomic-IsApart :
      (n : ℕ) (block : SourceBlock) (count_tokens : TokenCounter)
      → Alone block.id
      → IsApartIfAny
          (mark_atomic block.kind (assemble n block.text (block ∷ []) "layout" count_tokens))
  unfolding assemble
  mark_atomic-IsApart n block count_tokens h =
      elim (Bool-cases (is_empty (strip block.text) || is_empty (block ∷ []))) [
        | inl nothing ↦ rw nothing tt
        | inr something ↦ rw something (block.id, refl, h)
      ]

  module _ (count_tokens : TokenCounter) (target : ℕ) where
    abbrev pub IsApartPacking : Packing → Type 0
    IsApartPacking p = Each IsApart p.chunks × FromKnown Running p.buffer

    flush-IsApart : (p : Packing) → IsApartPacking p → IsApartPacking (flush count_tokens target p)
    unfolding flush
    flush-IsApart p (apart, running) = elim (Bool-cases (is_empty p.buffer)) [
      | inl nothing ↦ rw nothing (apart, running)
      | inr something ↦
          let n = length p.chunks in
          let text = join_blocks p.buffer in
          rw something (
            append_chunk-IsApart p.chunks (assemble n text p.buffer "layout" count_tokens) apart
                (assemble-IsApart n text p.buffer "layout" count_tokens running),
            tt,
          )
    ]

    add_atomic-IsApart :
        (p : Packing) (block : SourceBlock)
        → IsApartPacking p
        → Alone block.id
        → IsApartPacking (add_atomic count_tokens target p block)
    unfolding add_atomic
    add_atomic-IsApart p block (apart, running) alone =
        let n = length p.chunks in
        (
          append_chunk-IsApart p.chunks
              (mark_atomic block.kind (assemble n block.text (block ∷ []) "layout" count_tokens))
              apart (mark_atomic-IsApart n block count_tokens alone),
          running,
        )

    add_block-IsApart :
        (p : Packing) (block : SourceBlock)
        → IsApartPacking p
        → Running block.id
        → IsApartPacking (add_block count_tokens target p block)
    unfolding add_block
    add_block-IsApart p block h k =
        let snoc = Each-append (λ (b : SourceBlock). Running b.id) in
        elim (Bool-cases (starts_chunk count_tokens target p block)) [
          | inl cut ↦
              let (apart, running) = flush-IsApart p h in
              rw cut
                (apart, snoc (flush count_tokens target p).buffer (block ∷ []) (running, (k, tt)))
          | inr joined ↦ rw joined (h.0, snoc p.buffer (block ∷ []) (h.1, (k, tt)))
        ]

    pub pack-IsApart :
        (p : Packing) (blocks : List SourceBlock)
        → IsApartPacking p
        → Each IsSorted blocks
        → Each IsApart (pack count_tokens target p blocks)
    unfolding pack
    pack-IsApart p [] h sorted = (flush-IsApart p h).0
    pack-IsApart p (block ∷ rest) h (s, sorted) = elim (Bool-cases (is_atomic block)) [
      | inl atomic ↦ rw atomic (
          pack-IsApart (add_atomic count_tokens target (flush count_tokens target p) block) rest
            (add_atomic-IsApart (flush count_tokens target p) block (flush-IsApart p h)
              (rw atomic at s))
            sorted)
      | inr packed ↦ rw packed (
          pack-IsApart (add_block count_tokens target p block) rest
            (add_block-IsApart p block h (rw packed at s)) sorted)
    ]

  abbrev IsRunningIfAny : Option SourceBlock → Type 0
  IsRunningIfAny none = Unit
  IsRunningIfAny (some b) = Running b.id

  -- A block that is looked up has the id that it is looked up by.
  by_id-IsRunning :
      (blocks : List SourceBlock) (i : String) → Running i → IsRunningIfAny (by_id blocks i)
  unfolding by_id
  by_id-IsRunning [] i h = tt
  by_id-IsRunning (b ∷ rest) i h = at_later (by_id rest i) (by_id-IsRunning rest i h)
    where
      at_later :
          (o : Option SourceBlock)
          → IsRunningIfAny o
          → IsRunningIfAny
              (elim o [ some later ↦ some later | none ↦ if str_eq b.id i then some b else none ])
      at_later (some later) k = k
      at_later none k = elim (Bool-cases (str_eq b.id i)) [
        | inl same ↦ rw same (subst Running (sym ((eq_iff b.id i).0 same)) h)
        | inr other ↦ rw other tt
      ]

  pub known_blocks-Running :
      (blocks : List SourceBlock) (ids : List String)
      → Each Running ids
      → FromKnown Running (known_blocks blocks ids)
  unfolding known_blocks
  known_blocks-Running blocks [] h = tt
  known_blocks-Running blocks (i ∷ rest) (k, h) =
      at_look (by_id blocks i) (by_id-IsRunning blocks i k) (known_blocks-Running blocks rest h)
    where
      at_look :
          (o : Option SourceBlock)
          → IsRunningIfAny o
          → FromKnown Running (known_blocks blocks rest)
          → FromKnown Running
              (elim o [ none ↦ known_blocks blocks rest | some b ↦ b ∷ known_blocks blocks rest ])
      at_look none _ more = more
      at_look (some b) r more = (r, more)
