-- ===== src/Agent/Prompt.antt =====
-- The texts of ragent/agent/answer.py: `build_prompt` and `_extractive_answer`.
use ragent.Common.{
  ℕ, zero, suc, ◌+◌, ◌/◌, ◌%◌, Option, none, some, List, [], ◌∷◌, ◌++◌, map, ltb, ◌==◌,
  if◌then◌else◌, length, is_empty,
}
use ragent.Ingest.Text.{Text, codes, strip, take}
use ragent.Retrieval.Fusion.{Numbers}
use ragent.Retrieval.Search.{Passage}

-- `str(n)`, with one step of fuel more than `n`, which each division makes smaller.
abbrev pub digits : ℕ → ℕ → Text
digits zero n = []
digits (suc fuel) n =
    let front = digits fuel (n / 10) in
    if ltb n 10 then (b'0' + n) ∷ [] else front ++ ((b'0' + n % 10) ∷ [])

unfoldable pub decimal : ℕ → Text
decimal n = digits (n + 1) n

-- `sep.join(parts)`
abbrev pub join : Text → List Text → Text
join sep [] = []
join sep (t ∷ []) = t
join sep (t ∷ u ∷ rest) = t ++ (sep ++ join sep (u ∷ rest))

abbrev pub newline : Text
newline = 10 ∷ []

-- "\n\n---\n\n"
abbrev pub rule_line : Text
rule_line = 10 ∷ 10 ∷ b'-' ∷ b'-' ∷ b'-' ∷ 10 ∷ 10 ∷ []

-- `snippet.rsplit(" ", 1)[0]`: the text in front of its last space, if there is one.
abbrev pub before_last_space : Text → Option Text
before_last_space [] = none
before_last_space (c ∷ t) = elim (before_last_space t) [
  | some front ↦ some (c ∷ front)
  | none ↦ if c == 32 then some [] else none
]

unfoldable pub snippet_of : Text → Text
snippet_of text =
    let snippet = strip text in
    let cut = take 600 snippet in
    let front : Text = elim (before_last_space cut) [ none ↦ cut | some t ↦ t ] in
    if ltb 600 (length snippet) then front ++ codes "…" else snippet

abbrev pub evidence_note : Text
evidence_note =
    codes "_No model provider is configured, so this is the retrieved evidence rather "
    ++ (codes "than a written answer. Retrieval, ranking and citations are live. Set "
        ++ codes "`ANTHROPIC_API_KEY` or `OPENAI_API_KEY` for a written one._")

module _ {num : Numbers} where
  -- "[i] name", with the section and the page where they are known.
  unfoldable pub header_of : ℕ → Passage num → Text
  header_of i p =
      let section = join (codes " > ") (map codes p.section_path) in
      let page : Text = elim p.regions [
        | [] ↦ []
        | ◌∷◌ r (rs → _) ↦ codes " (page " ++ (decimal r.page_no ++ codes ")")
      ] in
      codes "["
      ++ (decimal i
          ++ (codes "] "
              ++ (codes p.document_name
                  ++ ((if is_empty section then [] else codes " — " ++ section) ++ page))))

  unfoldable pub prompt_blocks : ℕ → List (Passage num) → List Text
  prompt_blocks i [] = []
  prompt_blocks i (p ∷ rest) = (header_of i p ++ (newline ++ p.text)) ∷ prompt_blocks (i + 1) rest

  unfoldable pub build_prompt : Text → List (Passage num) → Text
  build_prompt question passages =
      codes "Passages:"
      ++ (newline
          ++ (newline
              ++ (join rule_line (prompt_blocks 1 passages)
                  ++ (rule_line ++ (codes "Question: " ++ question)))))

  unfoldable pub evidence : ℕ → List (Passage num) → List Text
  evidence i [] = []
  evidence i (p ∷ rest) =
      (codes "**[" ++ (decimal i ++ (codes "] " ++ (codes p.document_name ++ codes "**"))))
      ∷ snippet_of p.text
      ∷ []
      ∷ evidence (i + 1) rest

  unfoldable pub extractive_answer : List (Passage num) → Text
  extractive_answer [] = codes "No passages in the indexed corpus match that question."
  extractive_answer (p ∷ rest) = join newline (evidence_note ∷ [] ∷ evidence 1 (p ∷ rest))
