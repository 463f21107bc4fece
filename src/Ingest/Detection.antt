-- ===== src/Ingest/Detection.antt =====
-- `detect_format` of ragent/ingest/formats.py: what was uploaded, and which family it takes. The
-- zipfile module, the UTF-8 decoder and `str.lower` are parameters.
pub mod Tables
pub mod Ties
use ragent.Common.{
  ℕ, zero, suc, ◌+◌, ◌*◌, max, String, Bool, true, false, ◌&&◌, ◌||◌, not, Option, none, some, List,
  [], ◌∷◌, leb, ltb, ◌==◌, if◌then◌else◌, length, filter, any, is_empty,
}
use ragent.Common.Dict
use ragent.Ingest.Formats.{FormatFamily, office, web, image, flow, family_eq}
use ragent.Ingest.Text.{text_eq, Text, is_prefix, take, drop, slice}
use Tables.{
  Bytes, DetectedFormat, magic, ole2, ole2_by_ext, zip_entry_markers, odf_mimetypes, by_extension,
  webp, html, txt,
}

pub data ProvenanceMode : Type 0 where
  by_page by_offset : ProvenanceMode

unfoldable pub provenance : DetectedFormat → ProvenanceMode
provenance f = if family_eq f.family flow then by_offset else by_page

unfoldable pub needs_conversion : DetectedFormat → Bool
needs_conversion f = family_eq f.family office || family_eq f.family web

unfoldable pub always_ocr : DetectedFormat → Bool
always_ocr f = family_eq f.family image

-- The messages of `UnsupportedFormatError`.
pub data Unsupported : Type 0 where
  empty_file unrecognised_zip : Unsupported
  legacy_container unrecognised_content : (extension : String) → Unsupported

pub data Detection : Type 0 where
  detected : DetectedFormat → Detection
  unsupported : Unsupported → Detection

-- What `_sniff_zip` reads of an archive: the names of its entries, and the stripped text of its
-- `mimetype` entry. `none` is a read that raises one of the errors that are caught.
pub record Archive : Type 0 where
  pub names : List Text
  pub declared : Option String

-- What stands behind the last "." of a name.
unfoldable pub after_last : ℕ → Text → Option Text
after_last c [] = none
after_last c (d ∷ t) = elim (after_last c t) [
  | some rest ↦ some rest
  | none ↦ if d == c then some t else none
]

-- "mimetype"
abbrev pub mimetype : Text
mimetype = b'm' ∷ b'i' ∷ b'm' ∷ b'e' ∷ b't' ∷ b'y' ∷ b'p' ∷ b'e' ∷ []

-- The first format of a table whose key is a prefix of a text that satisfies a test.
unfoldable pub first_match : (Text → Bool) → List (Text × DetectedFormat) → Option DetectedFormat
first_match test [] = none
first_match test ((key, f) ∷ rest) = if test key then some f else first_match test rest

-- The whitespace of `bytes.lstrip()`, and `bytes.lower()`.
unfoldable pub lstrip_bytes : Bytes → Bytes
lstrip_bytes [] = []
lstrip_bytes (c ∷ t) = if leb 9 c && leb c 13 || c == 32 then lstrip_bytes t else c ∷ t

unfoldable pub lower_bytes : Bytes → Bytes
lower_bytes [] = []
lower_bytes (c ∷ t) = (if leb 65 c && leb c 90 then c + 32 else c) ∷ lower_bytes t

-- b"<!doctype html", b"<html", b"<?xml-stylesheet" and b"<head"
abbrev pub html_starts : List Bytes
html_starts =
    (b'<' ∷ b'!' ∷ b'd' ∷ b'o' ∷ b'c' ∷ b't' ∷ b'y' ∷ b'p' ∷ b'e' ∷ b' ' ∷ b'h' ∷ b't' ∷ b'm' ∷ b'l'
      ∷ [])
    ∷ (b'<' ∷ b'h' ∷ b't' ∷ b'm' ∷ b'l' ∷ [])
    ∷ (b'<' ∷ b'?' ∷ b'x' ∷ b'm' ∷ b'l' ∷ b'-' ∷ b's' ∷ b't' ∷ b'y' ∷ b'l' ∷ b'e' ∷ b's' ∷ b'h'
        ∷ b'e' ∷ b'e' ∷ b't' ∷ [])
    ∷ (b'<' ∷ b'h' ∷ b'e' ∷ b'a' ∷ b'd' ∷ [])
    ∷ []

unfoldable pub looks_like_html : Bytes → Bool
looks_like_html head =
    let probe = lower_bytes (lstrip_bytes (take 1024 head)) in
    any (λ (start : Bytes). is_prefix start probe) html_starts

-- `ord(ch) < 32 and ch not in "\t\n\r"`
abbrev pub is_control : ℕ → Bool
is_control c = ltb c 32 && not (c == 9 || c == 10 || c == 13)

-- b"RIFF", b"WEBP" and b"PK\x03\x04"
abbrev pub riff : Bytes
riff = b'R' ∷ b'I' ∷ b'F' ∷ b'F' ∷ []

abbrev pub webp_tag : Bytes
webp_tag = b'W' ∷ b'E' ∷ b'B' ∷ b'P' ∷ []

abbrev pub zip_start : Bytes
zip_start = b'P' ∷ b'K' ∷ 3 ∷ 4 ∷ []

module _ (open_zip : Bytes → Option Archive) (decode : Bytes → Option Text)
    (lower : Text → String) where
  unfoldable pub extension_of : Text → String
  extension_of filename = elim (after_last b'.' filename) [
    | none ↦ ""
    | some ext ↦ if is_empty ext then "" else lower ext
  ]

  -- The loop over the markers, and the extension behind it.
  unfoldable pub by_markers : List Text → String → Option DetectedFormat
  by_markers names extension =
      elim (first_match (λ (marker : Text). any (is_prefix marker) names) zip_entry_markers) [
        | some f ↦ some f
        | none ↦ Dict.get? by_extension extension
      ]

  unfoldable pub sniff_zip : Bytes → String → Option DetectedFormat
  sniff_zip content extension = elim (open_zip content) [
    | none ↦ none
    | some zf ↦
        if any (text_eq mimetype) zf.names
        then elim zf.declared [
          | none ↦ none
          | some declared ↦ elim (Dict.get? odf_mimetypes declared) [
            | some f ↦ some f
            | none ↦ by_markers zf.names extension
          ]
        ]
        else by_markers zf.names extension
  ]

  -- `control / max(len(decoded), 1) < 0.02`
  unfoldable pub looks_like_text : Bytes → Bool
  looks_like_text content =
      let sample = take 8192 content in
      if any (◌==◌ 0) sample then false else elim (decode sample) [
        | none ↦ false
        | some decoded ↦ ltb (length (filter is_control decoded) * 50) (max (length decoded) 1)
      ]

  -- The last three branches, for content without a signature.
  unfoldable pub detect_unsigned : Bytes → String → Detection
  detect_unsigned content extension =
      if looks_like_html content
      then detected html
      else if looks_like_text content
      then elim (Dict.get? by_extension extension) [
        | none ↦ detected txt
        | some f ↦ if family_eq f.family flow then detected f else detected txt
      ]
      else unsupported (unrecognised_content extension)

  -- What follows the loop over the signatures.
  unfoldable pub detect_container : Bytes → String → Detection
  detect_container content extension =
      if is_prefix riff content && text_eq (slice content 8 12) webp_tag
      then detected webp
      else if is_prefix zip_start content
      then elim (sniff_zip content extension) [
        | some f ↦ detected f
        | none ↦ unsupported unrecognised_zip
      ]
      else if is_prefix ole2 content
      then elim (Dict.get? ole2_by_ext extension) [
        | some f ↦ detected f
        | none ↦ unsupported (legacy_container extension)
      ]
      else detect_unsigned content extension

  unfoldable pub detect_format : Bytes → Text → Detection
  detect_format content filename =
      if is_empty content
      then unsupported empty_file
      else elim (first_match (λ (signature : Bytes). is_prefix signature content) magic) [
        | some f ↦ detected f
        | none ↦ detect_container content (extension_of filename)
      ]
