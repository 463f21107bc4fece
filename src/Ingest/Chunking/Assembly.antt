-- ===== src/Ingest/Chunking/Assembly.antt =====
-- What `_assemble` makes: chunks that are numbered in order, hold text, and name the blocks they
-- were drawn from. The strategies share these lemmas.
use ragent.Common.{
  ℕ, ◌+◌, ◌≡◌, refl, inl, inr, String, Bool, true, false, ◌&&◌, ◌||◌, not, Option, none, some, List,
  [], ◌∷◌, ◌++◌, map, arith, ltb, length, filter, is_empty, any, if◌then◌else◌, Each, Each-append,
  Each-filter, Each-map, Bool-cases,
}
use ragent.Ingest.Text.{Text, strip}
use ragent.Ingest.Types.{SourceBlock, Chunk, is_furniture}
use ragent.Ingest.Chunking.{
  TokenCounter, Span, flatten_from, flatten, blocks_in_range, reads_before, insert_block,
  sort_blocks, prepare, assemble, append_chunk, is_open, assemble_raises,
}

-- The sequence numbers count up from `n`.
abbrev pub Numbered : ℕ → List Chunk → Type 0
Numbered n [] = Unit
Numbered n (c ∷ rest) = (c.seq ≡ n) × Numbered (n + 1) rest

-- A chunk with text and at least one block, all of whose block ids are known.
abbrev pub IsTraced : (String → Type 0) → Chunk → Type 0
IsTraced Known c =
    (is_empty c.text ≡ false) × (is_empty c.block_ids ≡ false) × Each Known c.block_ids

abbrev pub IsSound : (String → Type 0) → List Chunk → Type 0
IsSound Known chunks = Numbered 0 chunks × Each (IsTraced Known) chunks

Numbered-snoc :
    (n : ℕ) (chunks : List Chunk) (c : Chunk)
    → Numbered n chunks
    → c.seq ≡ n + length chunks
    → Numbered n (chunks ++ c ∷ [])
Numbered-snoc n [] c h e = (omega (arith, e), tt)
Numbered-snoc n (d ∷ chunks) c (first, h) e =
    (first, Numbered-snoc (n + 1) chunks c h (omega (arith, e)))

module _ (Known : String → Type 0) where
  -- What a chunk to be appended has to be.
  abbrev pub IsNext : ℕ → Option Chunk → Type 0
  IsNext n none = Unit
  IsNext n (some c) = (c.seq ≡ n) × IsTraced Known c

  pub append_chunk-IsSound :
      (chunks : List Chunk) (o : Option Chunk)
      → IsSound Known chunks
      → IsNext (length chunks) o
      → IsSound Known (append_chunk chunks o)
  append_chunk-IsSound chunks none h next = h
  append_chunk-IsSound chunks (some c) (numbered, traced) (e, t) = (
    Numbered-snoc 0 chunks c numbered (omega (arith, e)),
    Each-append (IsTraced Known) chunks (c ∷ []) (traced, (t, tt)),
  )

  abbrev pub FromKnown : List SourceBlock → Type 0
  FromKnown blocks = Each (λ (b : SourceBlock). Known b.id) blocks

  pub ids_Known :
      (blocks : List SourceBlock)
      → FromKnown blocks
      → Each Known (map (λ (b : SourceBlock). b.id) blocks)
  ids_Known [] h = tt
  ids_Known (b ∷ blocks) (known, h) = (known, ids_Known blocks h)

  ids_some :
      (blocks : List SourceBlock)
      → is_empty blocks ≡ false
      → is_empty (map (λ (b : SourceBlock). b.id) blocks) ≡ false
  ids_some [] h = h
  ids_some (b ∷ blocks) h = refl

  pub assemble-IsNext :
      (n : ℕ) (text : Text) (blocks : List SourceBlock) (strategy : String)
      (count_tokens : TokenCounter)
      → FromKnown blocks
      → IsNext n (assemble n text blocks strategy count_tokens)
  unfolding assemble
  assemble-IsNext n text blocks strategy count_tokens known =
      elim (Bool-cases (is_empty (strip text) || is_empty blocks)) [
        | inl nothing ↦ rw nothing tt
        | inr something ↦
            rw something
              (refl, (ground (arith), ids_some blocks (ground (arith)), ids_Known blocks known))
      ]

-- No block has a start and no end.
abbrev pub AreClosed : List SourceBlock → Type 0
AreClosed = Each (λ (b : SourceBlock). is_open b ≡ false)

none_open : (blocks : List SourceBlock) → AreClosed blocks → any is_open blocks ≡ false
none_open [] h = refl
none_open (b ∷ rest) (closed, h) = rw closed (none_open rest h)

all_closed : (blocks : List SourceBlock) → any is_open blocks ≡ false → AreClosed blocks
all_closed [] h = tt
all_closed (b ∷ rest) h = (ground arith, all_closed rest (ground arith))

pub assemble_raises-closed :
    (text : Text) (blocks : List SourceBlock)
    → AreClosed blocks
    → assemble_raises text blocks ≡ false
unfolding assemble_raises
assemble_raises-closed text blocks h = ground (arith, none_open blocks h)

-- How a chunker ends: with such chunks, or by an exception, and then some block has a start and no
-- end.
abbrev pub Outcome : (List Chunk → Type 0) → List SourceBlock → Option (List Chunk) → Type 0
Outcome P blocks none = any is_open blocks ≡ true
Outcome P blocks (some chunks) = P chunks

module _ (P : List Chunk → Type 0) (blocks : List SourceBlock) where
  pub outcome_of :
      (raises : Bool) (chunks : List Chunk)
      → (AreClosed blocks → raises ≡ false)
      → P chunks
      → Outcome P blocks (if raises then none else some chunks)
  outcome_of false chunks h p = p
  outcome_of true chunks h p = elim (Bool-cases (any is_open blocks)) [
    | inl broken ↦ broken
    | inr closed ↦ absurd (ground (arith, h (all_closed blocks closed)))
  ]

  -- Without such a block there is no exception.
  pub outcome_closed :
      (o : Option (List Chunk))
      → any is_open blocks ≡ false
      → Outcome P blocks o
      → (chunks : List Chunk) × (o ≡ some chunks) × P chunks
  outcome_closed none closed broken = absurd (ground arith)
  outcome_closed (some chunks) closed p = (chunks, refl, p)

-- What holds of every block.
module _ (P : SourceBlock → Type 0) where
  Each-insert_block :
      (b : SourceBlock) (blocks : List SourceBlock)
      → P b
      → Each P blocks
      → Each P (insert_block b blocks)
  unfolding insert_block
  Each-insert_block b [] p h = (p, tt)
  Each-insert_block b (x ∷ rest) p (q, h) = elim (Bool-cases (reads_before x b)) [
    | inl before ↦ rw before (q, Each-insert_block b rest p h)
    | inr behind ↦ rw behind (p, (q, h))
  ]

  Each-sort_blocks : (blocks : List SourceBlock) → Each P blocks → Each P (sort_blocks blocks)
  unfolding sort_blocks
  Each-sort_blocks [] h = tt
  Each-sort_blocks (b ∷ rest) (p, h) =
      Each-insert_block b (sort_blocks rest) p (Each-sort_blocks rest h)

  pub Each-prepare : (blocks : List SourceBlock) → Each P blocks → Each P (prepare blocks)
  unfolding prepare
  Each-prepare blocks h =
      let keep = λ (b : SourceBlock). not (is_empty (strip b.text)) && not (is_furniture b) in
      Each-sort_blocks (filter keep blocks) (
        Each-map (λ b. (keep b ≡ true) × P b) P (filter keep blocks) (λ b h. h.1)
          (Each-filter P keep blocks h))

  abbrev pub EachSpan : List Span → Type 0
  EachSpan spans = Each (λ (s : Span). P s.block) spans

  Each-flatten_from :
      (blocks : List SourceBlock) (first : Bool) (cursor : ℕ)
      → Each P blocks
      → EachSpan (flatten_from blocks first cursor).1
  unfolding flatten_from
  Each-flatten_from [] first cursor h = tt
  Each-flatten_from (b ∷ rest) first cursor (p, h) = elim (Bool-cases (is_empty (strip b.text))) [
    | inl blank ↦ rw blank (Each-flatten_from rest first cursor h)
    | inr text ↦ rw text (p, Each-flatten_from rest false _ h)
  ]

  pub Each-flatten : (blocks : List SourceBlock) → Each P blocks → EachSpan (flatten blocks).1
  unfolding flatten
  Each-flatten blocks h = Each-flatten_from blocks true 0 h

  Each-block_of : (spans : List Span) → EachSpan spans → Each P (map (λ (s : Span). s.block) spans)
  Each-block_of [] h = tt
  Each-block_of (s ∷ spans) (p, h) = (p, Each-block_of spans h)

  pub Each-blocks_in_range :
      (spans : List Span) (start end : ℕ)
      → EachSpan spans
      → Each P (blocks_in_range spans start end)
  unfolding blocks_in_range
  Each-blocks_in_range spans start end h =
      let meets = λ (s : Span). ltb s.start end && ltb start s.end in
      Each-block_of (filter meets spans) (
        Each-map (λ s. (meets s ≡ true) × P s.block) (λ (s : Span). P s.block) (filter meets spans)
          (λ s h. h.1) (Each-filter (λ (s : Span). P s.block) meets spans h))
