-- ===== src/Tests/Flow.antt =====
-- A small table of three rows and a blank line, in groups of two.
use ragent.Common.{ℕ, ◌≡◌, refl, arith, true, Option, none, some, List, [], ◌∷◌, map, Each}
use ragent.Ingest.Text.{Text, lstrip, rstrip, strip, slice, is_space}
use ragent.Ingest.Flow.{
  FlowBlock, flow_block, is_break, lines_from, spans_from, line_spans, group_rows, group_block,
  group_blocks, split_csv,
}
use ragent.Ingest.Flow.Rows.{rows_from, flat, IsGroup, group_rows_lem}

-- "h\na\n\r\nb\nc"
abbrev csv : Text
csv = b'h' ∷ 10 ∷ b'a' ∷ 10 ∷ 13 ∷ 10 ∷ b'b' ∷ 10 ∷ b'c' ∷ []

abbrev spans_of : Option (List FlowBlock) → List (ℕ × ℕ)
spans_of none = []
spans_of (some blocks) = map (λ (b : FlowBlock). (b.char_start, b.char_end)) blocks

csv_run : spans_of (split_csv (λ text delimiter. true) csv 2 b',') ≡ (2, 7) ∷ (8, 9) ∷ []
unfolding split_csv lines_from is_break line_spans spans_from group_rows strip lstrip rstrip
    is_space group_blocks group_block flow_block slice
csv_run = refl

abbrev body : List (Text × ℕ)
body = (b'a' ∷ [], 2) ∷ ([], 2) ∷ (b'b' ∷ [], 2) ∷ (b'c' ∷ [], 1) ∷ []

group_rows_lem_example :
    (flat (group_rows 2 1 body []) ≡ rows_from 1 body) × Each (IsGroup 2) (group_rows 2 1 body [])
group_rows_lem_example = group_rows_lem 2 1 body [] (omega arith)
