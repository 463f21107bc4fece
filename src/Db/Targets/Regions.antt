-- ===== src/Db/Targets/Regions.antt =====
-- The regions of a chunk hold the boxes of its blocks.
use ragent.Common.{
  ℕ, ◌≤◌, min, max, ◌≡◌, refl, sym, ap, ◌∙◌, inl, inr, true, Option, none, some, List, [], ◌∷◌,
  arith, Bool-cases,
}
use mathlib.Core.List.{Memᴰ}
use ragent.Ingest.Types.{BBox}
use ragent.Db.Tables.{BlockRow}
use ragent.Db.Targets.{Group, merge_boxes, same_page, add_to_group, group_by_page}

-- The first box lies in the second.
pub record IsInside (x b : BBox) : Type 0 where
  pub left : b.x0 ≤ x.x0
  pub top : b.y0 ≤ x.y0
  pub right : x.x1 ≤ b.x1
  pub bottom : x.y1 ≤ b.y1

abbrev pub IsAround : ℕ → BBox → Group → Type 0
IsAround p x g = (g.page_no ≡ some p) × (b : BBox) × (g.bbox ≡ some b) × IsInside x b

abbrev pub Covers : ℕ → BBox → List Group → Type 0
Covers p x groups = (g : Group) × Memᴰ g groups × IsAround p x g

merged_before :
    (x b : BBox) (other : Option BBox)
    → IsInside x b
    → (c : BBox) × (merge_boxes (some b) other ≡ some c) × IsInside x c
unfolding merge_boxes
merged_before x b none inside = (b, refl, inside)
merged_before x b (some o) inside = (
  record { x0 = min b.x0 o.x0; y0 = min b.y0 o.y0; x1 = max b.x1 o.x1; y1 = max b.y1 o.y1 },
  refl,
  record {
    left = omega (arith, inside.left);
    top = omega (arith, inside.top);
    right = omega (arith, inside.right);
    bottom = omega (arith, inside.bottom);
  },
)

merged_into :
    (x : BBox) (o : Option BBox) → (c : BBox) × (merge_boxes o (some x) ≡ some c) × IsInside x c
unfolding merge_boxes
merged_into x none = (
  x,
  refl,
  record { left = omega arith; top = omega arith; right = omega arith; bottom = omega arith },
)
merged_into x (some o) = (
  record { x0 = min o.x0 x.x0; y0 = min o.y0 x.y0; x1 = max o.x1 x.x1; y1 = max o.y1 x.y1 },
  refl,
  record { left = omega arith; top = omega arith; right = omega arith; bottom = omega arith },
)

-- A group that is there stays around what it held.
add_to_group-kept :
    (b : BlockRow) (groups : List Group) (p : ℕ) (x : BBox)
    → Covers p x groups
    → Covers p x (add_to_group b groups)
unfolding add_to_group
add_to_group-kept b [] p x (g, m, _) = elim m [ ]
add_to_group-kept b (h ∷ rest) p x (g, m, (page, box, e, inside)) =
    elim (Bool-cases (same_page h.page_no b.page_no)) [
      | inl same ↦ rw same (grown m)
      | inr other ↦ rw other (behind (add_to_group-kept b rest p x) m)
    ]
  where
    behind :
        (Covers p x rest → Covers p x (add_to_group b rest))
        → Memᴰ g (h ∷ rest)
        → Covers p x (h ∷ add_to_group b rest)
    behind later (Memᴰ.head at) = (g, Memᴰ.head at, (page, box, e, inside))
    behind later (Memᴰ.tail at) =
        let (g', m', around) = later (g, at, (page, box, e, inside)) in (g', Memᴰ.tail m', around)

    grown : Memᴰ g (h ∷ rest) → Covers p x (record h { bbox = merge_boxes h.bbox b.bbox } ∷ rest)
    grown (Memᴰ.tail at) = (g, Memᴰ.tail at, (page, box, e, inside))
    grown (Memᴰ.head at) =
        let (c, merged, larger) = merged_before x box b.bbox inside in
        (
          record h { bbox = merge_boxes h.bbox b.bbox },
          Memᴰ.head refl,
          (
            sym (ap (λ (k : Group). k.page_no) at) ∙ page,
            c,
            ap (λ o. merge_boxes o b.bbox) (sym (ap (λ (k : Group). k.bbox) at) ∙ e) ∙ merged,
            larger,
          ),
        )

same_page-eq : (o : Option ℕ) (p : ℕ) → same_page o (some p) ≡ true → o ≡ some p
same_page-eq none p h = cc
same_page-eq (some q) p h = ap some (ground (arith))

-- A block is put into the group of its page.
add_to_group-new :
    (b : BlockRow) (groups : List Group) (p : ℕ) (x : BBox)
    → b.page_no ≡ some p
    → b.bbox ≡ some x
    → Covers p x (add_to_group b groups)
unfolding add_to_group
add_to_group-new b [] p x page box = (
  record { page_no = b.page_no; bbox = b.bbox },
  Memᴰ.head refl,
  (
    page,
    x,
    box,
    record { left = omega arith; top = omega arith; right = omega arith; bottom = omega arith },
  ),
)
add_to_group-new b (h ∷ rest) p x page box = elim (Bool-cases (same_page h.page_no b.page_no)) [
  | inr other ↦
      let (g, m, around) = add_to_group-new b rest p x page box in rw other (g, Memᴰ.tail m, around)
  | inl same ↦
      let (c, e, inside) = merged_into x h.bbox in
      let here : h.page_no ≡ some p = same_page-eq h.page_no p (rw page at same) in
      rw same (
        record h { bbox = merge_boxes h.bbox b.bbox },
        Memᴰ.head refl,
        (here, c, ap (merge_boxes h.bbox) box ∙ e, inside),
      )
]

group_by_page-kept :
    (blocks : List BlockRow) (groups : List Group) (p : ℕ) (x : BBox)
    → Covers p x groups
    → Covers p x (group_by_page blocks groups)
unfolding group_by_page
group_by_page-kept [] groups p x h = h
group_by_page-kept (b ∷ rest) groups p x h =
    group_by_page-kept rest (add_to_group b groups) p x (add_to_group-kept b groups p x h)

pub group_by_page-Covers :
    (blocks : List BlockRow) (groups : List Group) (b : BlockRow) (p : ℕ) (x : BBox)
    → Memᴰ b blocks
    → b.page_no ≡ some p
    → b.bbox ≡ some x
    → Covers p x (group_by_page blocks groups)
unfolding group_by_page
group_by_page-Covers [] groups b p x m page box = elim m [ ]
group_by_page-Covers (c ∷ rest) groups b p x (Memᴰ.head e) page box =
    group_by_page-kept rest (add_to_group c groups) p x (
      add_to_group-new c groups p x (sym (ap (λ (k : BlockRow). k.page_no) e) ∙ page)
        (sym (ap (λ (k : BlockRow). k.bbox) e) ∙ box))
group_by_page-Covers (c ∷ rest) groups b p x (Memᴰ.tail m) page box =
    group_by_page-Covers rest (add_to_group c groups) b p x m page box
