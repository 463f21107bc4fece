-- ===== src/Db/Documents.antt =====
-- The documents and runs of ragent/db/repo.py. `fresh` is the id that `gen_random_uuid` makes, and
-- `none` is a statement that fails. Documents are created in the order of their rows.
pub mod Dedupe
use ragent.Common.{
  ℕ, zero, suc, ◌+◌, String, Bool, true, false, ◌&&◌, Option, none, some, List, [], ◌∷◌, ◌++◌, map,
  str_eq, if◌then◌else◌, length, filter, contains,
}
use mathlib.Core.List.{reverse}
use ragent.Db.Tables.{ChunkRow, DocumentRow, RunRow, Tables, has_document}

-- The row of a unique key (tenant_id, sha256).
unfoldable pub find_document : List DocumentRow → String → String → Option DocumentRow
find_document [] tenant_id sha256 = none
find_document (d ∷ rest) tenant_id sha256 =
    if str_eq d.tenant_id tenant_id && str_eq d.sha256 sha256
    then some d
    else find_document rest tenant_id sha256

-- The row that the INSERT writes, with the defaults of the other columns.
abbrev pub new_document :
    String → (sha256 source_uri original_name mime_type : String) → ℕ → String → DocumentRow
new_document fresh sha256 source_uri original_name mime_type byte_size tenant_id = record {
  id = fresh;
  tenant_id = tenant_id;
  sha256 = sha256;
  source_uri = source_uri;
  original_name = original_name;
  mime_type = mime_type;
  byte_size = byte_size;
  page_count = none;
  status = "pending";
  format_family = none;
  provenance = none;
}

-- INSERT … ON CONFLICT (tenant_id, sha256) DO NOTHING, and the SELECT where nothing is inserted.
unfoldable pub create_document :
    String
    → (sha256 source_uri original_name mime_type : String) → ℕ
    → String
    → Tables
    → (String × Bool) × Tables
create_document fresh sha256 source_uri original_name mime_type byte_size tenant_id db =
    elim (find_document db.documents tenant_id sha256) [
      | some existing ↦ ((existing.id, false), db)
      | none ↦
          let row =
            new_document fresh sha256 source_uri original_name mime_type byte_size tenant_id in
          ((fresh, true), record db { documents = db.documents ++ (row ∷ []) })
    ]

-- COALESCE(new, old)
abbrev pub coalesce : Option ℕ → Option ℕ → Option ℕ
coalesce none old = old
coalesce (some new) old = some new

-- UPDATE documents … WHERE id = $1
unfoldable pub update_document : (DocumentRow → DocumentRow) → String → Tables → Tables
update_document change document_id db = record db {
  documents =
      map (λ (d : DocumentRow). if str_eq d.id document_id then change d else d) db.documents;
}

-- The family and the provenance are those of the detected format.
unfoldable pub set_document_format :
    String → (family provenance mime : String) → Option ℕ → Tables → Tables
set_document_format document_id family provenance mime page_count =
    update_document
      (λ (d : DocumentRow). record d {
        format_family = some family;
        provenance = some provenance;
        mime_type = mime;
        page_count = coalesce page_count d.page_count;
        status = "processing";
      })
      document_id

-- The type `doc_status`.
abbrev pub doc_statuses : List String
doc_statuses = "pending" ∷ "processing" ∷ "ready" ∷ "failed" ∷ "quarantined" ∷ []

unfoldable pub set_document_status : String → String → Option ℕ → Tables → Option Tables
set_document_status document_id status page_count db =
    if contains doc_statuses status
    then some (
        update_document
          (λ (d : DocumentRow). record d {
            status = status;
            page_count = coalesce page_count d.page_count;
          })
          document_id db)
    else none

abbrev pub find_by_id : List DocumentRow → String → Option DocumentRow
find_by_id [] document_id = none
find_by_id (d ∷ rest) document_id =
    if str_eq d.id document_id then some d else find_by_id rest document_id

unfoldable pub get_document : String → Tables → Option DocumentRow
get_document document_id db = find_by_id db.documents document_id

-- INSERT … ON CONFLICT (document_id, pipeline_version) DO UPDATE … RETURNING id
unfoldable pub upsert_run : String → String → String → List RunRow → String × List RunRow
upsert_run fresh document_id pipeline_version [] =
    let row : RunRow = record {
      id = fresh;
      document_id = document_id;
      pipeline_version = pipeline_version;
      status = "running";
    } in
    (fresh, row ∷ [])
upsert_run fresh document_id pipeline_version (r ∷ rest) =
    let (found, rest') = upsert_run fresh document_id pipeline_version rest in
    if str_eq r.document_id document_id && str_eq r.pipeline_version pipeline_version
    then (r.id, record r { status = "running" } ∷ rest)
    else (found, r ∷ rest')

unfoldable pub ensure_run : String → String → String → Tables → Option (String × Tables)
ensure_run fresh document_id pipeline_version db =
    let (run_id, runs) = upsert_run fresh document_id pipeline_version db.runs in
    if has_document db document_id then some (run_id, record db { runs = runs }) else none

abbrev take_rows : ℕ → List (DocumentRow × ℕ) → List (DocumentRow × ℕ)
take_rows zero rows = []
take_rows (suc n) [] = []
take_rows (suc n) (r ∷ rest) = r ∷ take_rows n rest

-- The documents of a tenant, the latest first, each with the number of its layout chunks.
unfoldable pub list_documents : String → ℕ → Tables → List (DocumentRow × ℕ)
list_documents tenant_id limit db = take_rows limit (
    map
      (λ (d : DocumentRow). (
        d,
        length (
            filter (λ (c : ChunkRow). str_eq c.document_id d.id && str_eq c.strategy "layout")
              db.chunks),
      ))
      (reverse (filter (λ (d : DocumentRow). str_eq d.tenant_id tenant_id) db.documents)))
