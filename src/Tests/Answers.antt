-- ===== src/Tests/Answers.antt =====
-- Citations of two passages, which are numbers here, and an answer over two passages of a search. A
-- digit is an ASCII one.
use ragent.Common.{
  false, ℕ, ◌+◌, ◌-◌, ◌≡◌, refl, true, ◌&&◌, not, Option, none, some, List, [], ◌∷◌, map, arith,
  ltb, leb, if◌then◌else◌, Each,
}
use ragent.Ingest.Text.{Text, codes, strip, lstrip, rstrip, is_space}
use ragent.Agent.Answer.{
  contains_nat, marker_at, markers_of, insert_marker, sort_markers, keep_markers, cite,
  resolve_citations, StreamText, Rounding, answer_stream,
}
use ragent.Agent.Answer.Evidence.{ReadsDigits, extractive_answer-cites}
use ragent.Agent.Prompt.{
  extractive_answer, build_prompt, prompt_blocks, header_of, decimal, snippet_of,
}
use ragent.Providers.Llm.{Usage}
use ragent.Retrieval.Search.{Passage, to_dict}
use ragent.Tests.Fusion.{numbers}
use ragent.Agent.Answer.Citations.{Ascending, marks, IsOf, resolve_citations_lem}
use ragent.Agent.Answer.Frames.{IsAnswer, answer_stream_lem}

abbrev digit : ℕ → Option ℕ
digit c = if leb b'0' c && leb c b'9' then some (c - b'0') else none

-- "[2][9][1]x[2]"
abbrev answer : Text
answer =
    b'[' ∷ b'2' ∷ b']' ∷ b'[' ∷ b'9' ∷ b']' ∷ b'[' ∷ b'1' ∷ b']' ∷ b'x' ∷ b'[' ∷ b'2' ∷ b']' ∷ []

abbrev passages : List ℕ
passages = 70 ∷ 80 ∷ []

cited_numbers : marks (resolve_citations digit answer passages) ≡ 1 ∷ 2 ∷ []
unfolding resolve_citations cite sort_markers insert_marker keep_markers markers_of marker_at
cited_numbers = refl

resolve_citations_lem_example :
    Ascending 0 (marks (resolve_citations digit answer passages))
    × Each (IsOf passages) (resolve_citations digit answer passages)
    × ((m : ℕ)
        → contains_nat (marks (resolve_citations digit answer passages)) m
          ≡ (contains_nat (markers_of digit answer) m && not (ltb m 1) && not (ltb 2 m)))
resolve_citations_lem_example = resolve_citations_lem digit answer passages

abbrev pub rounding : Rounding numbers
rounding = record { round_score = λ x. x; round_cost = λ x. x; digit = digit }

abbrev pub passage : Text → Passage numbers
passage text = record {
  chunk_id = "c0";
  text = text;
  score = 16;
  document_id = "doc";
  document_name = "report.pdf";
  provenance = "paged";
  section_path = "Part II" ∷ "Item 7" ∷ [];
  regions = record { page_no = 12; bbox = record { x0 = 1; y0 = 1; x1 = 2; y1 = 2 } } ∷ [];
  char_start = none;
  char_end = none;
  retrievers = [];
}

abbrev pub found_passages : List (Passage numbers)
found_passages = passage (codes "Revenue rose.") ∷ passage (codes " Costs fell. ") ∷ []

abbrev pub used : Usage
used = record {
  model = "gpt-4o-mini";
  provider = "openai";
  input_tokens = 1000;
  output_tokens = 10;
  latency_ms = 5;
}

abbrev pub stream_text : StreamText
stream_text prompt system = record { items = (answer, none) ∷ ([], some used) ∷ []; raised = false }

answer_stream_lem_example :
    (ds : List Text) × IsAnswer rounding true stream_text
      (codes "Why?")
      found_passages
      (answer_stream rounding true stream_text (codes "Why?") found_passages)
      ds
answer_stream_lem_example =
    answer_stream_lem rounding true stream_text (codes "Why?") found_passages

prompt_of_one :
    build_prompt (codes "Why?") (passage (codes "Revenue rose.") ∷ [])
    ≡ codes
        "Passages:\n\n[1] report.pdf — Part II > Item 7 (page 12)\nRevenue rose.\n\n---\n\nQuestion: Why?"
unfolding build_prompt prompt_blocks header_of decimal
prompt_of_one = refl

cut_at_a_space : snippet_of (codes " Costs fell. ") ≡ codes "Costs fell."
unfolding snippet_of strip lstrip rstrip is_space
cut_at_a_space = refl

reads_digits : ReadsDigits digit
reads_digits k small =
    let low : leb b'0' (b'0' + k) ≡ true = ground arith in
    let high : leb (b'0' + k) b'9' ≡ true = ground arith in
    let value : b'0' + k - b'0' ≡ k = omega arith in rw (low, high, value) refl

extractive_answer-cites_example :
    contains_nat
      (marks (
        resolve_citations digit
          (extractive_answer found_passages)
          (map (to_dict numbers (λ x. x)) found_passages)))
      2
    ≡ true
extractive_answer-cites_example =
    extractive_answer-cites digit (to_dict numbers (λ x. x)) found_passages 2 reads_digits
      (omega arith) (omega arith) (omega arith)
