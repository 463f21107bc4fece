-- ===== src/Db/Documents/Dedupe.antt =====
-- Uploading again, and ensuring a run again.
use ragent.Common.{
  ℕ, String, ◌≡◌, refl, inl, inr, Bool, true, false, ◌&&◌, Option, none, some, List, [], ◌∷◌, ◌++◌,
  arith, str_eq, eq_refl, Option-cases,
}
use ragent.Ingest.Types.{is_none}
use ragent.Db.Tables.{DocumentRow, Tables}
use ragent.Db.Documents.{find_document, new_document, create_document}

module _ (tenant_id sha256 : String) where
  find_document-new :
      (rows : List DocumentRow) (row : DocumentRow)
      → (str_eq row.tenant_id tenant_id && str_eq row.sha256 sha256) ≡ true
      → find_document rows tenant_id sha256 ≡ none
      → find_document (rows ++ (row ∷ [])) tenant_id sha256 ≡ some row
  unfolding find_document
  find_document-new [] row same absent = rw same refl
  find_document-new (d ∷ rest) row same absent = ground (arith, find_document-new rest row same)

  find_document-other :
      (rows : List DocumentRow) (row : DocumentRow)
      → (str_eq row.tenant_id tenant_id && str_eq row.sha256 sha256) ≡ false
      → find_document (rows ++ (row ∷ [])) tenant_id sha256 ≡ find_document rows tenant_id sha256
  unfolding find_document
  find_document-other [] row other = rw other refl
  find_document-other (d ∷ rest) row other = ground (arith, find_document-other rest row other)

abbrev pub id_of : Option DocumentRow → Option String
id_of none = none
id_of (some d) = some d.id

-- Content decides what a document is. The id that an upload returns is that of the document with its
-- content hash and tenant, it is a new one exactly if there was none, and every other hash or tenant
-- has the document that it had. To upload the same content for the tenant again, whatever its name,
-- returns the same id as not created and changes nothing.
pub create_document_lem :
    (fresh again sha256 source_uri source_uri' name name' mime mime' : String) (size size' : ℕ)
    (tenant_id : String) (db : Tables)
    → (id : String) × (created : Bool) × (db' : Tables) × (create_document fresh sha256 source_uri
          name mime size tenant_id db
        ≡ ((id, created), db'))
      × (id_of (find_document db'.documents tenant_id sha256) ≡ some id)
      × (created ≡ is_none (find_document db.documents tenant_id sha256))
      × ((t h : String)
          → (str_eq tenant_id t && str_eq sha256 h) ≡ false
          → find_document db'.documents t h ≡ find_document db.documents t h)
      × (create_document again sha256 source_uri' name' mime' size' tenant_id db'
          ≡ ((id, false), db'))
unfolding create_document
create_document_lem fresh again sha256 source_uri source_uri' name name' mime mime' size size'
      tenant_id db =
    elim (Option-cases (find_document db.documents tenant_id sha256)) [
      | inr (d, e) ↦ rw e (
        d.id,
        false,
        db,
        rw (e, create_document) refl,
        rw e refl,
        refl,
        (λ t h other. refl),
        rw (e, create_document) refl,
      )
      | inl absent ↦
          let row : DocumentRow = new_document fresh sha256 source_uri name mime size tenant_id in
          let found : find_document (db.documents ++ (row ∷ [])) tenant_id sha256 ≡ some row =
            find_document-new tenant_id sha256 db.documents row
              (rw (eq_refl tenant_id, eq_refl sha256) refl) absent in
          rw absent (
            fresh,
            true,
            record db { documents = db.documents ++ (row ∷ []) },
            rw (absent, create_document) refl,
            rw found refl,
            refl,
            (λ t h other. find_document-other t h db.documents row other),
            rw (found, create_document) refl,
          )
    ]
