-- ===== src/Db/Pages.antt =====
-- `insert_pages` of ragent/db/repo.py. `fresh n` is the id that `gen_random_uuid` makes for the n-th
-- page, and `none` is a statement that fails.
use ragent.Common.{
  ℕ, ◌+◌, String, Bool, true, false, ◌&&◌, ◌||◌, not, Option, none, some, List, [], ◌∷◌, str_eq,
  ◌==◌, if◌then◌else◌,
}
use ragent.Db.Tables.{PageRow, Tables, has_document}

-- A page of the payload.
pub record Page : Type 0 where
  pub page_no : ℕ
  pub width_pt : ℕ
  pub height_pt : ℕ
  pub rotation : ℕ
  pub render_uri : Option String
  pub text_confidence : Option ℕ
  pub needs_ocr : Bool

-- ON CONFLICT … DO UPDATE, which keeps the id and the render of a page.
abbrev pub updated_page : Page → PageRow → PageRow
updated_page p r = record r {
  width_pt = p.width_pt;
  height_pt = p.height_pt;
  rotation = p.rotation;
  text_confidence = p.text_confidence;
  needs_ocr = p.needs_ocr;
}

abbrev pub is_page : String → ℕ → PageRow → Bool
is_page document_id page_no r = str_eq r.document_id document_id && r.page_no == page_no

-- The id of the page's row, and the rows.
unfoldable pub upsert_page : String → String → Page → List PageRow → String × List PageRow
upsert_page fresh document_id p [] =
    let row : PageRow = record {
      id = fresh;
      document_id = document_id;
      page_no = p.page_no;
      width_pt = p.width_pt;
      height_pt = p.height_pt;
      rotation = p.rotation;
      render_uri = p.render_uri;
      text_confidence = p.text_confidence;
      needs_ocr = p.needs_ocr;
    } in
    (fresh, row ∷ [])
upsert_page fresh document_id p (r ∷ rest) =
    let (id, rest') = upsert_page fresh document_id p rest in
    if is_page document_id p.page_no r then (r.id, updated_page p r ∷ rest) else (id, r ∷ rest')

-- page_no -> page_id
unfoldable pub upsert_pages :
    (ℕ → String) → ℕ → String → List Page → List PageRow → List (ℕ × String) × List PageRow
upsert_pages fresh n document_id [] rows = ([], rows)
upsert_pages fresh n document_id (p ∷ rest) rows =
    let (id, rows') = upsert_page (fresh n) document_id p rows in
    let (ids, rows'') = upsert_pages fresh (n + 1) document_id rest rows' in
    ((p.page_no, id) ∷ ids, rows'')

-- One statement does not update a row twice.
abbrev pub holds_page : List Page → ℕ → Bool
holds_page [] page_no = false
holds_page (p ∷ rest) page_no = p.page_no == page_no || holds_page rest page_no

abbrev pub once_each : List Page → Bool
once_each [] = true
once_each (p ∷ rest) = not (holds_page rest p.page_no) && once_each rest

unfoldable pub insert_pages :
    (ℕ → String) → String → List Page → Tables → Option (List (ℕ × String) × Tables)
insert_pages fresh document_id [] db = some ([], db)
insert_pages fresh document_id (p ∷ rest) db =
    let (ids, rows) = upsert_pages fresh 0 document_id (p ∷ rest) db.pages in
    if has_document db document_id && once_each (p ∷ rest)
    then some (ids, record db { pages = rows })
    else none
