-- ===== src/Ingest/Chunking/Recursive/Raising.antt =====
-- `chunk_recursive` raises only over a block that has a start and no end.
use ragent.Common.{ℕ, ◌≡◌, refl, false, Option, none, some, List, [], ◌∷◌, arith, length}
use ragent.Ingest.Text.{Text, slice}
use ragent.Ingest.Types.{SourceBlock}
use ragent.Ingest.Chunking.{
  TokenCounter, Span, flatten, blocks_in_range, prepare, is_open, assemble_raises,
}
use ragent.Ingest.Chunking.Assembly.{
  AreClosed, EachSpan, assemble_raises-closed, Each-prepare, Each-flatten, Each-blocks_in_range,
}
use ragent.Ingest.Chunking.Recursive.{
  Packing, flush_raises, pack_raises, pack_piece, split_recursive, separators, recursive_raises,
}

module _ (doc : Text) (target : ℕ) (count_tokens : TokenCounter) (spans : List Span)
    (closed : EachSpan (λ (b : SourceBlock). is_open b ≡ false) spans) where
  flush_raises-closed :
      (p : Packing doc target count_tokens) → flush_raises doc target count_tokens spans p ≡ false
  unfolding flush_raises
  flush_raises-closed p = at_start p.cur_start
    where
      at_start :
          (o : Option ℕ)
          → (elim o [
            | none ↦ false
            | some start ↦
                assemble_raises (slice doc start p.cur_end) (blocks_in_range spans start p.cur_end)
          ])
            ≡ false
      at_start none = refl
      at_start (some start) =
          assemble_raises-closed (slice doc start p.cur_end) (blocks_in_range spans start p.cur_end)
            (Each-blocks_in_range (λ (b : SourceBlock). is_open b ≡ false) spans start p.cur_end
              closed)

  pack_raises-closed :
      (p : Packing doc target count_tokens) (pieces : List (ℕ × ℕ))
      → pack_raises doc target count_tokens spans p pieces ≡ false
  unfolding pack_raises
  pack_raises-closed p [] = flush_raises-closed p
  pack_raises-closed p (piece ∷ rest) =
      rw
        (
          flush_raises-closed p,
          pack_raises-closed (pack_piece doc target count_tokens spans p piece) rest,
        )
        (ground arith)

pub recursive_raises-closed :
    (count_tokens : TokenCounter) (target : ℕ) (blocks : List SourceBlock)
    → AreClosed blocks
    → recursive_raises count_tokens target blocks ≡ false
unfolding recursive_raises
recursive_raises-closed count_tokens target blocks h =
    let P = λ (b : SourceBlock). is_open b ≡ false in
    let (doc, spans) = flatten (prepare blocks) in
    let start : Packing doc target count_tokens = record {
      chunks = [];
      cur_start = none;
      cur_end = 0;
      cur_tokens = 0;
    } in
    ground (
      arith,
      pack_raises-closed doc target count_tokens spans
          (Each-flatten P (prepare blocks) (Each-prepare P blocks h)) start
          (split_recursive doc target count_tokens separators 0 (length doc)),
    )
