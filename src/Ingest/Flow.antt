-- ===== src/Ingest/Flow.antt =====
-- `split_csv` of ragent/ingest/flowtext.py, with the spans of lines. The csv module is a parameter:
-- whether its first row of a text, with a delimiter, holds a cell.
pub mod Rows
use ragent.Common.{
  ℕ, suc, ◌+◌, ◌-◌, Bool, true, false, ◌&&◌, ◌||◌, not, Option, none, some, List, [], ◌∷◌, ◌++◌,
  map, leb, ◌==◌, if◌then◌else◌, length, nth, is_empty,
}
use mathlib.Core.Option
use ragent.Ingest.Text.{Text, rstrip, strip, slice}

pub record FlowBlock : Type 0 where
  pub kind : Text
  pub text : Text
  pub char_start : ℕ
  pub char_end : ℕ
  pub section_path : List Text

-- `FlowBlock(…)`: an empty span is a ValueError.
unfoldable pub flow_block : FlowBlock → Option FlowBlock
flow_block b = if leb b.char_end b.char_start then none else some b

-- The characters at which `str.splitlines` ends a line.
unfoldable pub is_break : ℕ → Bool
is_break c = leb 10 c && leb c 13 || leb 28 c && leb c 30 || c == 133 || c == 8232 || c == 8233

abbrev pub starts_with_newline : Text → Bool
starts_with_newline [] = false
starts_with_newline (c ∷ t) = c == 10

-- The lines of a text, each with its length including the line end. `skip` says that the next
-- character belongs to the line end before.
unfoldable pub lines_from : Bool → Text → Text → List (Text × ℕ)
lines_from skip [] [] = []
lines_from skip [] (d ∷ line) = (d ∷ line, length (d ∷ line)) ∷ []
lines_from true (c ∷ t) line = lines_from false t line
lines_from false (c ∷ t) line =
    let pair = c == 13 && starts_with_newline t in
    let ended = lines_from pair t [] in
    let longer = lines_from false t (line ++ c ∷ []) in
    if is_break c then (line, length line + (if pair then 2 else 1)) ∷ ended else longer

-- The cursor loop of `_line_spans`.
unfoldable pub spans_from : ℕ → List (Text × ℕ) → List (ℕ × ℕ)
spans_from cursor [] = []
spans_from cursor ((line, size) ∷ rest) = (cursor, cursor + size) ∷ spans_from (cursor + size) rest

unfoldable pub line_spans : Text → List (ℕ × ℕ)
line_spans text = spans_from 0 (lines_from false text [])

-- "table"
abbrev pub table : Text
table = b't' ∷ b'a' ∷ b'b' ∷ b'l' ∷ b'e' ∷ []

-- `group[-1]`
abbrev pub last_row : ℕ → List ℕ → ℕ
last_row first [] = first
last_row first (i ∷ rest) = last_row i rest

-- The loop over the body: its groups of rows, numbered from `idx`. Blank lines are left out.
unfoldable pub group_rows : ℕ → ℕ → List (Text × ℕ) → List ℕ → List (List ℕ)
group_rows rows idx [] [] = []
group_rows rows idx [] (i ∷ group) = (i ∷ group) ∷ []
group_rows rows idx ((line, size) ∷ rest) group =
    let skipped = group_rows rows (idx + 1) rest group in
    let flushed = (group ++ idx ∷ []) ∷ group_rows rows (idx + 1) rest [] in
    let kept = group_rows rows (idx + 1) rest (group ++ idx ∷ []) in
    if is_empty (strip line) then skipped else if leb rows (length group + 1) then flushed else kept

-- `flush_group` for the group of a first row and others.
unfoldable pub group_block : Text → List (ℕ × ℕ) → Text → ℕ → List ℕ → Option FlowBlock
group_block text spans header_line first others =
    let start = (nth spans first (0, 0)).0 in
    let end = (nth spans (last_row first others) (0, 0)).1 in
    let body_text = rstrip (slice text start end) in
    flow_block (record {
      kind = table;
      text = if is_empty header_line then body_text else header_line ++ (10 ∷ body_text);
      char_start = start;
      char_end = start + length body_text;
      section_path = [];
    })

unfoldable pub group_blocks : Text → List (ℕ × ℕ) → Text → List (List ℕ) → Option (List FlowBlock)
group_blocks text spans header_line [] = some []
group_blocks text spans header_line ([] ∷ rest) = group_blocks text spans header_line rest
group_blocks text spans header_line ((first ∷ others) ∷ rest) =
    let more = group_blocks text spans header_line rest in
    elim (group_block text spans header_line first others) [
      | none ↦ none
      | some b ↦ Option.map (λ (blocks : List FlowBlock). b ∷ blocks) more
    ]

unfoldable pub split_csv : (Text → ℕ → Bool) → Text → ℕ → ℕ → Option (List FlowBlock)
split_csv has_header text rows_per_block delimiter = elim (lines_from false text []) [
  | [] ↦ some []
  | ◌∷◌ first rest ↦
      if has_header text delimiter
      then group_blocks text (line_spans text) first.0 (group_rows rows_per_block 1 rest [])
      else group_blocks text (line_spans text) [] (group_rows rows_per_block 0 (first ∷ rest) [])
]
