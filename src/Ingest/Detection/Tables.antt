-- ===== src/Ingest/Detection/Tables.antt =====
-- The format tables of ragent/ingest/formats.py. Bytes are numbers, and so are code points.
use ragent.Common.{ℕ, String, List, [], ◌∷◌}
use ragent.Common.Dict.{Dict}
use ragent.Ingest.Formats.{FormatFamily, pdf, image, office, web, flow}
use ragent.Ingest.Text.{Text}

abbrev pub Bytes : Type 0
Bytes = List ℕ

pub record DetectedFormat : Type 0 where
  pub mime : String
  pub family : FormatFamily
  pub extension : String
  pub label : String

-- `_f`
abbrev pub fmt : String → FormatFamily → String → String → DetectedFormat
fmt mime family ext label = record { mime = mime; family = family; extension = ext; label = label }

-- _MAGIC
abbrev pub magic : List (Bytes × DetectedFormat)
magic =
    (b'%' ∷ b'P' ∷ b'D' ∷ b'F' ∷ b'-' ∷ [], fmt "application/pdf" pdf "pdf" "PDF")
    ∷ (137 ∷ 80 ∷ 78 ∷ 71 ∷ 13 ∷ 10 ∷ 26 ∷ 10 ∷ [], fmt "image/png" image "png" "PNG image")
    ∷ (255 ∷ 216 ∷ 255 ∷ [], fmt "image/jpeg" image "jpg" "JPEG image")
    ∷ (b'G' ∷ b'I' ∷ b'F' ∷ b'8' ∷ b'7' ∷ b'a' ∷ [], fmt "image/gif" image "gif" "GIF image")
    ∷ (b'G' ∷ b'I' ∷ b'F' ∷ b'8' ∷ b'9' ∷ b'a' ∷ [], fmt "image/gif" image "gif" "GIF image")
    ∷ (73 ∷ 73 ∷ 42 ∷ 0 ∷ [], fmt "image/tiff" image "tiff" "TIFF image")
    ∷ (77 ∷ 77 ∷ 0 ∷ 42 ∷ [], fmt "image/tiff" image "tiff" "TIFF image")
    ∷ (b'B' ∷ b'M' ∷ [], fmt "image/bmp" image "bmp" "BMP image")
    ∷ (123 ∷ 92 ∷ 114 ∷ 116 ∷ 102 ∷ [], fmt "application/rtf" office "rtf" "Rich Text")
    ∷ []

-- _OLE2
abbrev pub ole2 : Bytes
ole2 = 208 ∷ 207 ∷ 17 ∷ 224 ∷ 161 ∷ 177 ∷ 26 ∷ 225 ∷ []

-- _OLE2_BY_EXT
abbrev pub ole2_by_ext : Dict DetectedFormat
ole2_by_ext =
    ("doc", fmt "application/msword" office "doc" "Word 97-2003")
    ∷ ("xls", fmt "application/vnd.ms-excel" office "xls" "Excel 97-2003")
    ∷ ("ppt", fmt "application/vnd.ms-powerpoint" office "ppt" "PowerPoint 97-2003")
    ∷ []

-- _ZIP_ENTRY_MARKERS
abbrev pub zip_entry_markers : List (Text × DetectedFormat)
zip_entry_markers =
    (
      b'w' ∷ b'o' ∷ b'r' ∷ b'd' ∷ b'/' ∷ [],
      fmt "application/vnd.openxmlformats-officedocument.wordprocessingml.document" office "docx"
          "Word document",
    )
    ∷ (
      b'x' ∷ b'l' ∷ b'/' ∷ [],
      fmt "application/vnd.openxmlformats-officedocument.spreadsheetml.sheet" office "xlsx"
          "Excel workbook",
    )
    ∷ (
      b'p' ∷ b'p' ∷ b't' ∷ b'/' ∷ [],
      fmt "application/vnd.openxmlformats-officedocument.presentationml.presentation" office "pptx"
          "PowerPoint deck",
    )
    ∷ []

-- _ODF_MIMETYPES
abbrev pub odf_mimetypes : Dict DetectedFormat
odf_mimetypes =
    (
      "application/vnd.oasis.opendocument.text",
      fmt "application/vnd.oasis.opendocument.text" office "odt" "OpenDocument Text",
    )
    ∷ (
      "application/vnd.oasis.opendocument.spreadsheet",
      fmt "application/vnd.oasis.opendocument.spreadsheet" office "ods" "OpenDocument Sheet",
    )
    ∷ (
      "application/vnd.oasis.opendocument.presentation",
      fmt "application/vnd.oasis.opendocument.presentation" office "odp" "OpenDocument Slides",
    )
    ∷ []

-- _BY_EXTENSION["webp"], ["html"] and ["txt"]
abbrev pub webp : DetectedFormat
webp = fmt "image/webp" image "webp" "WebP image"

abbrev pub html : DetectedFormat
html = fmt "text/html" web "html" "HTML page"

abbrev pub txt : DetectedFormat
txt = fmt "text/plain" flow "txt" "Plain text"

-- _BY_EXTENSION
abbrev pub by_extension : Dict DetectedFormat
by_extension =
    ("pdf", fmt "application/pdf" pdf "pdf" "PDF")
    ∷ ("png", fmt "image/png" image "png" "PNG image")
    ∷ ("jpg", fmt "image/jpeg" image "jpg" "JPEG image")
    ∷ ("jpeg", fmt "image/jpeg" image "jpg" "JPEG image")
    ∷ ("tif", fmt "image/tiff" image "tiff" "TIFF image")
    ∷ ("tiff", fmt "image/tiff" image "tiff" "TIFF image")
    ∷ ("webp", fmt "image/webp" image "webp" "WebP image")
    ∷ ("bmp", fmt "image/bmp" image "bmp" "BMP image")
    ∷ ("html", fmt "text/html" web "html" "HTML page")
    ∷ ("htm", fmt "text/html" web "html" "HTML page")
    ∷ ("md", fmt "text/markdown" flow "md" "Markdown")
    ∷ ("markdown", fmt "text/markdown" flow "md" "Markdown")
    ∷ ("txt", fmt "text/plain" flow "txt" "Plain text")
    ∷ ("text", fmt "text/plain" flow "txt" "Plain text")
    ∷ ("log", fmt "text/plain" flow "txt" "Plain text")
    ∷ ("csv", fmt "text/csv" flow "csv" "CSV")
    ∷ ("tsv", fmt "text/tab-separated-values" flow "tsv" "TSV")
    ∷ ("json", fmt "application/json" flow "json" "JSON")
    ∷ ("xml", fmt "application/xml" flow "xml" "XML")
    ∷ ("doc", fmt "application/msword" office "doc" "Word 97-2003")
    ∷ ("xls", fmt "application/vnd.ms-excel" office "xls" "Excel 97-2003")
    ∷ ("ppt", fmt "application/vnd.ms-powerpoint" office "ppt" "PowerPoint 97-2003")
    ∷ (
      "docx",
      fmt "application/vnd.openxmlformats-officedocument.wordprocessingml.document" office "docx"
          "Word document",
    )
    ∷ (
      "xlsx",
      fmt "application/vnd.openxmlformats-officedocument.spreadsheetml.sheet" office "xlsx"
          "Excel workbook",
    )
    ∷ (
      "pptx",
      fmt "application/vnd.openxmlformats-officedocument.presentationml.presentation" office "pptx"
          "PowerPoint deck",
    )
    ∷ ("rtf", fmt "application/rtf" office "rtf" "Rich Text")
    ∷ []
