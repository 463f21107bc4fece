-- ===== src/Providers/Llm/Reading.antt =====
-- What an answer makes of a provider's stream.
use ragent.Common.{
  ℕ, String, ◌≡◌, ◌⊎◌, refl, sym, ap, ◌∙◌, inl, inr, Bool, true, false, Option, none, some, List,
  [], ◌∷◌, ◌++◌, Bool-cases, Option-cases, is_empty, map, Each, get_elem?, if◌then◌else◌,
}
use mathlib.Core.List.{append-nil}
use ragent.Ingest.Text.{Text}
use ragent.Providers.Llm.{Usage, Streamed}
use ragent.Providers.Llm.Calls.{
  usage_of, anthropic_stream, StreamChunk, counts_after, first_delta, openai_items, openai_stream,
}

abbrev pub joined_texts : List Text → Text
joined_texts [] = []
joined_texts (t ∷ rest) = t ++ joined_texts rest

-- What a chunk says: the content of its choice at the first position.
abbrev pub said : StreamChunk → Text
said chunk = elim (get_elem? chunk.choices 0) [
  | none ↦ []
  | some none ↦ []
  | some (some text) ↦ text
]

-- The token counts that some chunks report: those of the last chunk that reports any, or else those
-- from before.
abbrev pub AreCounts : ℕ × ℕ → List StreamChunk → ℕ × ℕ → Type 0
AreCounts start chunks counts =
    Each (λ (c : StreamChunk). c.usage ≡ none) chunks × (counts ≡ start)
    ⊎ ((before : List StreamChunk) × (c : StreamChunk) × (after : List StreamChunk) × (chunks
          ≡ before ++ c ∷ after)
        × (c.usage ≡ some counts)
        × Each (λ (d : StreamChunk). d.usage ≡ none) after)

abbrev pub IsDelta : Text → Type 0
IsDelta t = is_empty t ≡ false

-- The items of a stream: its deltas without a usage, and then, unless it raises, one usage without
-- text, which is the last item.
abbrev pub items_of : List Text → Bool → Usage → List (Text × Option Usage)
items_of deltas raised u =
    map (λ (t : Text). (t, none)) deltas ++ (if raised then [] else ([], some u) ∷ [])

counts_further :
    (start counts : ℕ × ℕ) (chunk : StreamChunk) (rest : List StreamChunk)
    → AreCounts (counts_after start chunk.usage) rest counts
    → AreCounts start (chunk ∷ rest) counts
counts_further start counts chunk rest (inr (before, c, after, split, reports, silent)) =
    inr (chunk ∷ before, c, after, ap (λ cs. chunk ∷ cs) split, reports, silent)
counts_further start counts chunk rest (inl (silent, e)) = elim (Option-cases chunk.usage) [
  | inl none_here ↦ inl ((none_here, silent), e ∙ rw none_here refl)
  | inr (new, here) ↦ inr ([], chunk, rest, refl, here ∙ ap some (sym (e ∙ rw here refl)), silent)
]

first_delta-said : (chunk : StreamChunk) → first_delta chunk.choices ≡ said chunk
first_delta-said chunk = at_choices chunk.choices
  where
    at_choices :
        (choices : List (Option Text))
        → first_delta choices
          ≡ (elim (get_elem? choices 0) [ none ↦ [] | some none ↦ [] | some (some text) ↦ text ])
    at_choices [] = refl
    at_choices (none ∷ _) = refl
    at_choices (some t ∷ _) = refl

empty_text : (t : Text) → is_empty t ≡ true → t ≡ []
empty_text [] h = refl
empty_text (c ∷ t) h = cc

-- What the items of a stream of chunks are.
abbrev IsRead : String → ℕ → Bool → ℕ × ℕ → List StreamChunk → List Text → ℕ × ℕ → Type 0
IsRead model latency_ms raised start chunks deltas counts =
    AreCounts start chunks counts
    × Each IsDelta deltas
    × (joined_texts deltas ≡ joined_texts (map said chunks))
    × (openai_items model latency_ms raised start chunks
        ≡ items_of deltas raised (usage_of model "openai" latency_ms (some counts)))

openai_items_lem :
    (model : String) (latency_ms : ℕ) (raised : Bool) (start : ℕ × ℕ) (chunks : List StreamChunk)
    → (deltas : List Text) × (counts : ℕ × ℕ) × IsRead model latency_ms raised start chunks deltas
        counts
unfolding openai_items
openai_items_lem model latency_ms raised start [] = ([], start, (inl (tt, refl), tt, refl, refl))
openai_items_lem model latency_ms raised start (chunk ∷ rest) =
    let (deltas, counts, (reported, spoken, text, items)) =
      openai_items_lem model latency_ms raised (counts_after start chunk.usage) rest in
    let further = counts_further start counts chunk rest reported in
    let first = first_delta-said chunk in
    elim (Bool-cases (is_empty (first_delta chunk.choices))) [
      | inl silent ↦
          let nothing : said chunk ≡ [] =
            sym first ∙ empty_text (first_delta chunk.choices) silent in
          (
            deltas,
            counts,
            (
              further,
              spoken,
              text ∙ ap (λ t. t ++ joined_texts (map said rest)) (sym nothing),
              rw silent items,
            ),
          )
      | inr speaks ↦ (
        first_delta chunk.choices ∷ deltas,
        counts,
        (
          further,
          (speaks, spoken),
          ap (λ t. first_delta chunk.choices ++ t) text
              ∙ ap (λ t. t ++ joined_texts (map said rest)) first,
          rw speaks (ap (λ l. (first_delta chunk.choices, none) ∷ l) items),
        ),
      )
    ]

-- What either provider's stream sends, for whatever the SDK's stream sends and wherever that raises:
-- deltas without a usage, and behind them, unless the stream raises, one usage without text, so that
-- a usage comes once and last. Anthropic's deltas are the SDK's, the counts are those of the final
-- message, and the stream raises where the SDK's stream or its final message does. OpenAI's deltas
-- are not empty and together are what the first choices of the chunks say, the counts are those of
-- the last chunk that reports any and 0 where none does, and the stream raises exactly where the
-- SDK's does.
pub stream_text_lem :
    (model : String) (latency_ms : ℕ)
    → ((sent : Streamed Text)
        → ((counts : ℕ × ℕ)
            → ((anthropic_stream model latency_ms sent (some counts)).raised ≡ sent.raised)
              × ((anthropic_stream model latency_ms sent (some counts)).items
                  ≡ items_of sent.items sent.raised
                      (usage_of model "anthropic" latency_ms (some counts))))
          × ((anthropic_stream model latency_ms sent none).raised ≡ true)
          × ((anthropic_stream model latency_ms sent none).items
              ≡ map (λ (t : Text). (t, none)) sent.items))
      × ((sent : Streamed StreamChunk)
          → (deltas : List Text) × (counts : ℕ × ℕ) × AreCounts (0, 0) sent.items counts
            × Each IsDelta deltas
            × (joined_texts deltas ≡ joined_texts (map said sent.items))
            × ((openai_stream model latency_ms sent).items
                ≡ items_of deltas sent.raised (usage_of model "openai" latency_ms (some counts)))
            × ((openai_stream model latency_ms sent).raised ≡ sent.raised))
unfolding anthropic_stream openai_stream
stream_text_lem model latency_ms = (
  λ sent. elim (Bool-cases sent.raised) [
    | inl broken ↦ (
      (λ counts. (rw broken refl, rw broken (sym (append-nil _)))),
      rw broken refl,
      rw broken refl,
    )
    | inr whole ↦ ((λ counts. (rw whole refl, rw whole refl)), rw whole refl, rw whole refl)
  ],
  λ sent.
      let (deltas, counts, (reported, spoken, text, items)) =
        openai_items_lem model latency_ms sent.raised (0, 0) sent.items in
      (deltas, counts, reported, spoken, text, items, refl),
)
