-- ===== src/Agent/Answer/Frames.antt =====
-- The order of the frames of `answer_stream`, and what its citations are taken from.
use mathlib.Core.List.{append-nil}
use ragent.Common.{
  ◌∙◌, ◌&&◌, not, if◌then◌else◌, ℕ, ◌≡◌, refl, sym, ap, Bool, true, false, Option, none, List, [],
  ◌∷◌, ◌++◌, map, arith, ltb, ◌||◌, inl, inr, is_empty, Bool-cases,
}
use ragent.Ingest.Text.{Text}
use ragent.Agent.Answer.{
  Frame, UsageData, contains_nat, markers_of, keep_markers, sort_markers, cite, resolve_citations,
  delta, citations, done, system, nothing_relevant, StreamText, collected, last_usage, Rounding,
  delta_frames, closing, answer_stream,
}
use ragent.Providers.Llm.{Usage, Streamed}
use ragent.Retrieval.Fusion.{Numbers}
use ragent.Retrieval.Search.{Passage, to_dict}
use ragent.Agent.Prompt.{build_prompt, extractive_answer}

-- The text of some deltas.
abbrev pub joined : List Text → Text
joined [] = []
joined (t ∷ rest) = t ++ joined rest

joined_one : (text : Text) → joined (text ∷ []) ≡ text
joined_one [] = refl
joined_one (c ∷ t) = ap (λ s. c ∷ s) (joined_one t)

nothing_kept : (seen ms : List ℕ) → keep_markers 0 seen ms ≡ []
unfolding keep_markers
nothing_kept seen [] = refl
nothing_kept seen (x ∷ rest) =
    let out : (ltb x 1 || ltb 0 x || contains_nat seen x) ≡ true = ground (arith) in
    rw out (nothing_kept seen rest)

no_passage_is_cited :
    (P : Type 0) (digit : ℕ → Option ℕ) (text : Text) → resolve_citations {P = P} digit text [] ≡ []
unfolding resolve_citations sort_markers cite
no_passage_is_cited P digit text = rw (nothing_kept [] (markers_of digit text)) refl

-- The deltas of the frames, whose text is what is collected.
sent :
    {num : Numbers} (rounding : Rounding num) (stream : List (Text × Option Usage))
    → (ds : List Text) × (delta_frames rounding stream ≡ map delta ds)
      × (collected stream ≡ joined ds)
unfolding delta_frames collected
sent rounding [] = ([], refl, refl)
sent rounding (([], final) ∷ rest) = sent rounding rest
sent rounding ((c ∷ t, final) ∷ rest) =
    let (ds, frames, text) = sent rounding rest in
    ((c ∷ t) ∷ ds, ap (λ fs. delta (c ∷ t) ∷ fs) frames, ap (λ rest. (c ∷ t) ++ rest) text)

-- What an answer has sent when it ends. Where there are passages and a provider, whose stream raises,
-- it raises behind a run of text frames. Otherwise it ends behind a run of text frames, one frame of
-- citations, which are those of exactly the text that was sent, at most one frame of usage, with the
-- usage that the provider has reported last, and the closing frame.
abbrev pub IsAnswer :
    {num : Numbers} (rounding : Rounding num) (available : Bool) (stream_text : StreamText)
    (question : Text) (passages : List (Passage num))
    → Streamed (Frame (Passage num) UsageData)
    → List Text
    → Type 0
IsAnswer {num} rounding available stream_text question passages answer ds =
    let asks = not (is_empty passages) && available in
    let stream = stream_text (build_prompt question passages) system in
    (answer.raised ≡ (asks && stream.raised))
    × (answer.items
        ≡ map delta ds
          ++ (if asks && stream.raised
              then []
              else citations (
                  resolve_citations rounding.digit (joined ds)
                    (map (to_dict num rounding.round_score) passages))
                ∷ closing rounding (if asks then last_usage stream.items none else none)))

-- On every path, without passages, without a provider and with one, an answer raises exactly where
-- there are passages and a provider whose stream raises, and it has then sent a run of text frames
-- alone. Any other answer is a run of text frames, then one frame of citations, which are those of
-- exactly the text that was sent, then at most one frame of usage, with the usage that the provider
-- has reported last, then the closing frame.
pub answer_stream_lem :
    {num : Numbers} (rounding : Rounding num) (available : Bool) (stream_text : StreamText)
    (question : Text) (passages : List (Passage num))
    → (ds : List Text) × IsAnswer rounding available stream_text question passages
        (answer_stream rounding available stream_text question passages)
        ds
unfolding answer_stream closing
answer_stream_lem {num} rounding available stream_text question [] = (
  nothing_relevant ∷ [],
  (
    refl,
    ap (λ cs. delta nothing_relevant ∷ citations cs ∷ done ∷ [])
        (sym (no_passage_is_cited (Passage num) rounding.digit (joined (nothing_relevant ∷ [])))),
  ),
)
answer_stream_lem {num} rounding true stream_text question (p ∷ rest) =
    let stream = stream_text (build_prompt question (p ∷ rest)) system in
    let (ds, frames, text) = sent rounding stream.items in
    elim (Bool-cases stream.raised) [
      | inl broken ↦ (ds, (rw broken refl, rw broken (frames ∙ sym (append-nil (map delta ds)))))
      | inr whole ↦ (ds, (rw whole refl, rw whole (rw (frames, text) refl)))
    ]
answer_stream_lem {num} rounding false stream_text question (p ∷ rest) =
    let text = extractive_answer (p ∷ rest) in
    (
      text ∷ [],
      (
        refl,
        ap
            (λ t.
              delta text
              ∷ citations (
                  resolve_citations rounding.digit t
                    (map (to_dict num rounding.round_score) (p ∷ rest)))
              ∷ done
              ∷ [])
            (sym (joined_one text)),
      ),
    )
