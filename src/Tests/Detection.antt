-- ===== src/Tests/Detection.antt =====
-- Uploads. The decoder takes bytes for code points, no archive states its type, and names are not
-- lowered.
use ragent.Common.{◌≡◌, refl, String, Option, none, some, [], ◌∷◌, if◌then◌else◌}
use ragent.Common.Dict
use ragent.Ingest.Text.{text_eq, Text}
use ragent.Ingest.Detection.Tables.{Bytes, txt}
use ragent.Ingest.Detection.{
  Archive, detected, first_match, looks_like_text, detect_format, detect_container, sniff_zip,
  by_markers, after_last, extension_of,
}
use ragent.Ingest.Detection.Ties.{format_of, IsPagedIfAny, name_breaks_ties, flow_is_text_or_zip}

abbrev open_zip : Bytes → Option Archive
open_zip _ = some (record { names = []; declared = none })

abbrev lower : Text → String
lower t = if text_eq t (b't' ∷ b'x' ∷ b't' ∷ []) then "txt" else "pdf"

-- "a.txt" and "a.pdf"
abbrev text_name : Text
text_name = b'a' ∷ b'.' ∷ b't' ∷ b'x' ∷ b't' ∷ []

abbrev pdf_name : Text
pdf_name = b'a' ∷ b'.' ∷ b'p' ∷ b'd' ∷ b'f' ∷ []

-- "BM", and a zero byte
abbrev bitmap : Bytes
bitmap = b'B' ∷ b'M' ∷ 0 ∷ []

name_breaks_ties_example :
    format_of (detect_format open_zip some lower bitmap text_name)
    ≡ format_of (detect_format open_zip some lower bitmap pdf_name)
unfolding looks_like_text
name_breaks_ties_example =
    name_breaks_ties open_zip some lower bitmap text_name pdf_name refl refl refl

flow_is_text_or_zip_example :
    IsPagedIfAny (format_of (detect_format open_zip some lower bitmap text_name))
unfolding looks_like_text
flow_is_text_or_zip_example = flow_is_text_or_zip open_zip some lower bitmap text_name refl refl

-- An archive without a known marker is what its name says.
zip_named_as_text :
    detect_format open_zip some lower (b'P' ∷ b'K' ∷ 3 ∷ 4 ∷ []) text_name ≡ detected txt
unfolding detect_format detect_container sniff_zip by_markers first_match Dict.get? extension_of
    after_last
zip_named_as_text = refl
