-- ===== src/Agent/Answer.antt =====
-- The citations and the frames of ragent/agent/answer.py. The value of a digit (`\d` and `int`), how
-- scores and costs are rounded and what the model streams are parameters.
pub mod Citations
pub mod Frames
pub mod Evidence
use ragent.Common.{
  ℕ, ◌+◌, ◌-◌, ◌*◌, String, Bool, true, false, ◌||◌, not, Option, none, some, List, [], ◌∷◌, ◌++◌,
  map, ltb, ◌==◌, if◌then◌else◌, length, get_elem?, is_empty,
}
use ragent.Ingest.Text.{Text, codes}
use ragent.Providers.Llm.{Usage, Streamed, priced, cost_usd}
use ragent.Retrieval.Fusion.{Numbers}
use ragent.Retrieval.Search.{Passage, to_dict}
use ragent.Agent.Prompt.{join, newline, build_prompt, extractive_answer}

abbrev pub contains_nat : List ℕ → ℕ → Bool
contains_nat [] n = false
contains_nat (x ∷ xs) n = x == n || contains_nat xs n

-- A match of `\[(\d{1,2})\]` at the start of a text, as the number that `int` reads.
unfoldable pub marker_at : (ℕ → Option ℕ) → Text → Option ℕ
marker_at digit (o ∷ a ∷ b ∷ rest) =
    if o == b'['
    then elim (digit a) [
      | none ↦ none
      | some x ↦ if b == b']' then some x else elim (digit b) [
        | none ↦ none
        | some y ↦ elim rest [ [] ↦ none | ◌∷◌ c _ ↦ if c == b']' then some (10 * x + y) else none ]
      ]
    ]
    else none
marker_at digit _ = none

-- `_MARKER_RE.finditer(text)`. A match holds no other, as no digit and no "]" is a "[".
unfoldable pub markers_of : (ℕ → Option ℕ) → Text → List ℕ
unfolding marker_at
markers_of digit [] = []
markers_of digit (c ∷ t) = elim (marker_at digit (c ∷ t)) [
  | none ↦ markers_of digit t
  | some m ↦ m ∷ markers_of digit t
]

-- `sorted(seen)`
unfoldable pub insert_marker : ℕ → List ℕ → List ℕ
insert_marker m [] = m ∷ []
insert_marker m (x ∷ rest) = if ltb x m then x ∷ insert_marker m rest else m ∷ x ∷ rest

unfoldable pub sort_markers : List ℕ → List ℕ
unfolding insert_marker
sort_markers [] = []
sort_markers (m ∷ rest) = insert_marker m (sort_markers rest)

-- The loop of `resolve_citations`: the markers that are kept, in the order of their first use.
unfoldable pub keep_markers : ℕ → List ℕ → List ℕ → List ℕ
keep_markers supplied seen [] = []
keep_markers supplied seen (m ∷ rest) =
    let skipped = keep_markers supplied seen rest in
    let kept = keep_markers supplied (m ∷ seen) rest in
    if ltb m 1 || ltb supplied m || contains_nat seen m then skipped else m ∷ kept

module _ (P : Type 0) where
  -- `{"marker": marker, **passage.to_dict()}`
  pub record Citation : Type 0 where
    pub marker : ℕ
    pub passage : P

module _ {P : Type 0} where
  -- `[seen[k] for k in sorted(seen)]`
  unfoldable pub cite : List P → List ℕ → List (Citation P)
  cite passages [] = []
  cite passages (m ∷ rest) =
      let more = cite passages rest in
      elim (get_elem? passages (m - 1)) [
        | none ↦ more
        | some p ↦ record { marker = m; passage = p } ∷ more
      ]

  unfoldable pub resolve_citations : (ℕ → Option ℕ) → Text → List P → List (Citation P)
  resolve_citations digit text passages =
      cite passages (sort_markers (keep_markers (length passages) [] (markers_of digit text)))

-- `AnswerChunk`, one frame of the stream. The figures of the usage frame are those of the provider.
pub data Frame (P Usage : Type 0) : Type 0 where
  delta : Text → Frame P Usage
  citations : List (Citation P) → Frame P Usage
  usage : Usage → Frame P Usage
  done : Frame P Usage

-- The `data` of the usage frame. The cost is rounded by a parameter.
pub record UsageData : Type 0 where
  pub model : String
  pub provider : String
  pub input_tokens : ℕ
  pub output_tokens : ℕ
  pub latency_ms : ℕ
  pub cost_usd : ℕ
  pub priced : Bool

unfoldable pub usage_data : (ℕ → ℕ) → Usage → UsageData
usage_data round_cost u = record {
  model = u.model;
  provider = u.provider;
  input_tokens = u.input_tokens;
  output_tokens = u.output_tokens;
  latency_ms = u.latency_ms;
  cost_usd = round_cost (cost_usd u);
  priced = priced u;
}

-- `SYSTEM`
abbrev pub system : Text
system = join newline (
    codes "You answer questions about documents using only the passages provided."
    ∷ []
    ∷ codes "Rules:"
    ∷ codes "- Cite every factual claim with a bracketed passage number, like [1] or [2]."
    ∷ codes "- Use only the numbered passages given. Never use outside knowledge."
    ∷ codes "- If the passages do not contain the answer, say so plainly. Do not guess."
    ∷ codes "- Quote exact figures rather than paraphrasing them."
    ∷ codes "- Be concise. No preamble, no restating the question."
    ∷ [])

abbrev pub nothing_relevant : Text
nothing_relevant = codes "I could not find anything relevant in the corpus."

-- What `llm.stream_text` yields for a prompt and a system text. It may raise.
abbrev pub StreamText : Type 0
StreamText = Text → Text → Streamed (Text × Option Usage)

-- `"".join(collected)`
unfoldable pub collected : List (Text × Option Usage) → Text
collected [] = []
collected ((text, final) ∷ rest) = text ++ collected rest

-- The last usage that is reported.
unfoldable pub last_usage : List (Text × Option Usage) → Option Usage → Option Usage
last_usage [] before = before
last_usage ((text, none) ∷ rest) before = last_usage rest before
last_usage ((text, some u) ∷ rest) before = last_usage rest (some u)

-- The functions that round a score and a cost, and the values of digits.
pub record Rounding (num : Numbers) : Type 0 where
  pub round_score : num.Float → num.Float
  pub round_cost : ℕ → ℕ
  pub digit : ℕ → Option ℕ

module _ {num : Numbers} (rounding : Rounding num) where
  -- The frames of the deltas of a provider's stream, which are not empty.
  unfoldable pub delta_frames : List (Text × Option Usage) → List (Frame (Passage num) UsageData)
  delta_frames [] = []
  delta_frames ((text, final) ∷ rest) =
      let more = delta_frames rest in if is_empty text then more else delta text ∷ more

  -- The frames behind the citations.
  unfoldable pub closing : Option Usage → List (Frame (Passage num) UsageData)
  closing none = done ∷ []
  closing (some u) = usage (usage_data rounding.round_cost u) ∷ done ∷ []

  -- An exception of the provider's stream ends the answer behind the deltas that have come.
  unfoldable pub answer_stream :
      Bool → StreamText → Text → List (Passage num) → Streamed (Frame (Passage num) UsageData)
  answer_stream available stream_text question [] = record {
    items = delta nothing_relevant ∷ citations [] ∷ done ∷ [];
    raised = false;
  }
  answer_stream available stream_text question (p ∷ rest) =
      let passages = p ∷ rest in
      let dicts = map (to_dict num rounding.round_score) passages in
      let text = extractive_answer passages in
      let stream = stream_text (build_prompt question passages) system in
      let cited = citations (resolve_citations rounding.digit (collected stream.items) dicts) in
      if available
      then if stream.raised
        then record { items = delta_frames stream.items; raised = true }
        else record {
          items = delta_frames stream.items ++ (cited ∷ closing (last_usage stream.items none));
          raised = false;
        }
      else record {
        items = delta text ∷ citations (resolve_citations rounding.digit text dicts) ∷ done ∷ [];
        raised = false;
      }
