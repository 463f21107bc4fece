-- ===== src/Ingest/Detection/Ties.antt =====
-- When the name of an upload matters to `detect_format`, and when the flow family is its answer.
use ragent.Common.{
  ◌≡◌, refl, inl, inr, String, Bool, false, ◌&&◌, Option, none, some, List, [], ◌∷◌, arith, Each,
  is_empty, Bool-cases,
}
use ragent.Common.Dict
use ragent.Ingest.Formats.{flow, family_eq}
use ragent.Ingest.Text.{text_eq, Text, is_prefix, slice}
use ragent.Ingest.Detection.Tables.{Bytes, DetectedFormat, magic, ole2, ole2_by_ext}
use ragent.Ingest.Detection.{
  Archive, Detection, detected, unsupported, first_match, extension_of, looks_like_html,
  looks_like_text, detect_unsigned, detect_container, detect_format, legacy_container, riff,
  webp_tag, zip_start,
}

-- The format that an upload is given, if any.
abbrev pub format_of : Detection → Option DetectedFormat
format_of (detected f) = some f
format_of (unsupported _) = none

-- A format that is not of the flow family.
abbrev pub IsPaged : DetectedFormat → Type 0
IsPaged f = family_eq f.family flow ≡ false

abbrev pub IsPagedIfAny : Option DetectedFormat → Type 0
IsPagedIfAny none = Unit
IsPagedIfAny (some f) = IsPaged f

first_match-IsPaged :
    (test : Text → Bool) (table : List (Text × DetectedFormat))
    → Each (λ (entry : Text × DetectedFormat). IsPaged entry.1) table
    → IsPagedIfAny (first_match test table)
unfolding first_match
first_match-IsPaged test [] h = tt
first_match-IsPaged test ((key, f) ∷ rest) (paged, h) = elim (Bool-cases (test key)) [
  | inl here ↦ rw here paged
  | inr later ↦ rw later (first_match-IsPaged test rest h)
]

magic-IsPaged : Each (λ (entry : Bytes × DetectedFormat). IsPaged entry.1) magic
magic-IsPaged = (refl, (refl, (refl, (refl, (refl, (refl, (refl, (refl, (refl, tt)))))))))

get?-IsPaged :
    (table : Dict.Dict DetectedFormat) (key : String)
    → Each (λ (entry : String × DetectedFormat). IsPaged entry.1) table
    → IsPagedIfAny (Dict.get? table key)
unfolding Dict.get?
get?-IsPaged [] key h = tt
get?-IsPaged ((k, f) ∷ rest) key (paged, h) = ground (arith, paged, get?-IsPaged rest key h)

module _ (open_zip : Bytes → Option Archive) (decode : Bytes → Option Text)
    (lower : Text → String) where
  unsigned_ties :
      (content : Bytes) (ext other : String)
      → looks_like_text open_zip decode lower content ≡ false
      → format_of (detect_unsigned open_zip decode lower content ext)
        ≡ format_of (detect_unsigned open_zip decode lower content other)
  unfolding detect_unsigned
  unsigned_ties content ext other text = elim (Bool-cases (looks_like_html content)) [
    | inl page ↦ rw page refl
    | inr other ↦ rw (other, text) refl
  ]

  container_ties :
      (content : Bytes) (ext other : String)
      → is_prefix zip_start content ≡ false
      → is_prefix ole2 content ≡ false
      → looks_like_text open_zip decode lower content ≡ false
      → format_of (detect_container open_zip decode lower content ext)
        ≡ format_of (detect_container open_zip decode lower content other)
  unfolding detect_container
  container_ties content ext other zip legacy text =
      elim (Bool-cases (is_prefix riff content && text_eq (slice content 8 12) webp_tag)) [
        | inl picture ↦ rw picture refl
        | inr rest ↦ rw (rest, zip, legacy) (unsigned_ties content ext other text)
      ]

  -- The bytes decide. For content that is neither a ZIP archive, nor a legacy Microsoft container,
  -- nor text, the name of the file makes no difference to the format.
  pub name_breaks_ties :
      (content : Bytes) (filename other : Text)
      → is_prefix zip_start content ≡ false
      → is_prefix ole2 content ≡ false
      → looks_like_text open_zip decode lower content ≡ false
      → format_of (detect_format open_zip decode lower content filename)
        ≡ format_of (detect_format open_zip decode lower content other)
  unfolding detect_format
  name_breaks_ties content filename other zip legacy text = elim (Bool-cases (is_empty content)) [
    | inl nothing ↦ rw nothing refl
    | inr something ↦ rw something (
        at_match (first_match (λ (signature : Bytes). is_prefix signature content) magic) (
          container_ties content (extension_of open_zip decode lower filename)
            (extension_of open_zip decode lower other) zip legacy text))
  ]
    where
      at_match :
          (o : Option DetectedFormat)
          → format_of (
              detect_container open_zip decode lower content
                (extension_of open_zip decode lower filename))
            ≡ format_of (
                detect_container open_zip decode lower content
                  (extension_of open_zip decode lower other))
          → format_of (elim o [
            | some f ↦ detected f
            | none ↦
                detect_container open_zip decode lower content
                  (extension_of open_zip decode lower filename)
          ])
            ≡ format_of (elim o [
              | some f ↦ detected f
              | none ↦
                  detect_container open_zip decode lower content
                    (extension_of open_zip decode lower other)
            ])
      at_match none same = same
      at_match (some f) same = refl

  container-IsPaged :
      (content : Bytes) (ext : String)
      → is_prefix zip_start content ≡ false
      → looks_like_text open_zip decode lower content ≡ false
      → IsPagedIfAny (format_of (detect_container open_zip decode lower content ext))
  unfolding detect_container detect_unsigned
  container-IsPaged content ext zip text =
      elim (Bool-cases (is_prefix riff content && text_eq (slice content 8 12) webp_tag)) [
        | inl picture ↦ rw picture refl
        | inr rest ↦ elim (Bool-cases (is_prefix ole2 content)) [
          | inl legacy ↦
              rw (rest, zip, legacy)
                (at_entry (Dict.get? ole2_by_ext ext)
                  (get?-IsPaged ole2_by_ext ext (refl, (refl, (refl, tt)))))
          | inr unsigned ↦ elim (Bool-cases (looks_like_html content)) [
            | inl page ↦ rw (rest, zip, unsigned, page) refl
            | inr other ↦ rw (rest, zip, unsigned, other, text) tt
          ]
        ]
      ]
    where
      at_entry :
          (o : Option DetectedFormat)
          → IsPagedIfAny o
          → IsPagedIfAny (
              format_of
                (elim o [ some f ↦ detected f | none ↦ unsupported (legacy_container ext) ]))
      at_entry none h = tt
      at_entry (some f) h = h

  -- Only what starts as a ZIP archive does, and what looks like text, can be of the flow family.
  -- However other content is named, a format that it is given is a paged one.
  pub flow_is_text_or_zip :
      (content : Bytes) (filename : Text)
      → is_prefix zip_start content ≡ false
      → looks_like_text open_zip decode lower content ≡ false
      → IsPagedIfAny (format_of (detect_format open_zip decode lower content filename))
  unfolding detect_format
  flow_is_text_or_zip content filename zip text =
      let ext = extension_of open_zip decode lower filename in
      elim (Bool-cases (is_empty content)) [
        | inl nothing ↦ rw nothing tt
        | inr something ↦ rw something (
            at_match (first_match (λ (signature : Bytes). is_prefix signature content) magic)
              (first_match-IsPaged (λ (signature : Bytes). is_prefix signature content) magic
                magic-IsPaged)
              (container-IsPaged content ext zip text))
      ]
    where
      at_match :
          (o : Option DetectedFormat)
          → IsPagedIfAny o
          → IsPagedIfAny (
              format_of (
                detect_container open_zip decode lower content
                  (extension_of open_zip decode lower filename)))
          → IsPagedIfAny (
              format_of (elim o [
                | some f ↦ detected f
                | none ↦
                    detect_container open_zip decode lower content
                      (extension_of open_zip decode lower filename)
              ]))
      at_match none _ paged = paged
      at_match (some f) paged _ = paged
