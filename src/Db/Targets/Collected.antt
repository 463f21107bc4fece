-- ===== src/Db/Targets/Collected.antt =====
-- What the citation targets of chunks are.
use ragent.Common.{
  ℕ, String, ◌≡◌, refl, sym, ap, ◌∙◌, subst, inl, inr, true, false, Option, none, some, List, [],
  ◌∷◌, ◌++◌, str_eq, eq_iff, if◌then◌else◌, Bool-cases, Option-cases, Each,
}
use ragent.Common.Dict
use ragent.Common.Dict.{Dict, get?-put}
use mathlib.Core.List.{Memᴰ}
use ragent.Ingest.Types.{BBox, is_none}
use ragent.Db.Targets.{
  Region, Target, Group, TargetRow, new_target, region_of, with_region, collect_targets,
}
use ragent.Db.Targets.Regions.{IsInside, IsAround}

-- What the loop does to the entry of one chunk.
abbrev step_target : String → TargetRow → Option Target → Option Target
step_target cid r entry =
    if str_eq r.chunk.id cid
    then elim entry [
      | none ↦ some (with_region r.group (new_target r))
      | some t ↦ some (with_region r.group t)
    ]
    else entry

abbrev pub collect_one : String → List TargetRow → Option Target → Option Target
collect_one cid [] entry = entry
collect_one cid (r ∷ rest) entry = collect_one cid rest (step_target cid r entry)

get_or-none :
    (out : Dict Target) (key : String) (default : Target)
    → Dict.get? out key ≡ none
    → Dict.get_or out key default ≡ default
unfolding Dict.get? Dict.get_or
get_or-none [] key default h = refl
get_or-none ((k, v) ∷ rest) key default h = elim (Bool-cases (str_eq k key)) [
  | inl same ↦ absurd (none_or_some (rw same at h))
  | inr other ↦ rw other (get_or-none rest key default (rw other at h))
]
  where
    none_or_some : some v ≡ none → ⊥
    none_or_some e = cc

get_or-some :
    (out : Dict Target) (key : String) (default t : Target)
    → Dict.get? out key ≡ some t
    → Dict.get_or out key default ≡ t
unfolding Dict.get? Dict.get_or
get_or-some [] key default t h = absurd (none_or_some h)
  where
    none_or_some : none ≡ some t → ⊥
    none_or_some e = cc
get_or-some ((k, v) ∷ rest) key default t h = elim (Bool-cases (str_eq k key)) [
  | inl same ↦ rw same (cc (rw same at h))
  | inr other ↦ rw other (get_or-some rest key default t (rw other at h))
]

put_step :
    (r : TargetRow) (out : Dict Target) (cid : String)
    → (if str_eq r.chunk.id cid
        then some (with_region r.group (Dict.get_or out r.chunk.id (new_target r)))
        else Dict.get? out cid)
      ≡ step_target cid r (Dict.get? out cid)
put_step r out cid = elim (Bool-cases (str_eq r.chunk.id cid)) [
  | inr other ↦ rw other refl
  | inl same ↦
      let key = (eq_iff r.chunk.id cid).0 same in
      elim (Option-cases (Dict.get? out cid)) [
        | inl absent ↦
            rw (same, absent)
              (ap (λ t. some (with_region r.group t))
                (get_or-none out r.chunk.id (new_target r) (ap (Dict.get? out) key ∙ absent)))
        | inr (t, there) ↦
            rw (same, there)
              (ap (λ t. some (with_region r.group t))
                (get_or-some out r.chunk.id (new_target r) t (ap (Dict.get? out) key ∙ there)))
      ]
]

pub get?-collect_targets :
    (rows : List TargetRow) (out : Dict Target) (cid : String)
    → Dict.get? (collect_targets rows out) cid ≡ collect_one cid rows (Dict.get? out cid)
unfolding collect_targets
get?-collect_targets [] out cid = refl
get?-collect_targets (r ∷ rest) out cid =
    let entry = Dict.get_or out r.chunk.id (new_target r) in
    get?-collect_targets rest (Dict.put out r.chunk.id (with_region r.group entry)) cid
    ∙ ap (collect_one cid rest)
        (get?-put out r.chunk.id cid (with_region r.group entry) ∙ put_step r out cid)

-- A target that has a region around a box.
abbrev pub HasRegion : ℕ → BBox → Option Target → Type 0
HasRegion p x none = ⊥
HasRegion p x (some t) = (r : Region) × Memᴰ r t.regions × (r.page_no ≡ p) × IsInside x r.bbox

mem-append_left : (r : Region) (xs ys : List Region) → Memᴰ r xs → Memᴰ r (xs ++ ys)
mem-append_left r [] ys m = elim m [ ]
mem-append_left r (x ∷ xs) ys (Memᴰ.head e) = Memᴰ.head e
mem-append_left r (x ∷ xs) ys (Memᴰ.tail m) = Memᴰ.tail (mem-append_left r xs ys m)

mem-append_right : (r : Region) (xs ys : List Region) → Memᴰ r ys → Memᴰ r (xs ++ ys)
mem-append_right r [] ys m = m
mem-append_right r (x ∷ xs) ys m = Memᴰ.tail (mem-append_right r xs ys m)

with_region-kept :
    (p : ℕ) (x : BBox) (g : Group) (t : Target)
    → HasRegion p x (some t)
    → HasRegion p x (some (with_region g t))
with_region-kept p x g t (r, m, page, inside) =
    (r, mem-append_left r t.regions (region_of g) m, page, inside)

with_region-new :
    (p : ℕ) (x : BBox) (g : Group) (t : Target)
    → IsAround p x g
    → HasRegion p x (some (with_region g t))
with_region-new p x g t (page, box, e, inside) =
    let region : Region = record { page_no = p; bbox = box } in
    let here : region_of g ≡ region ∷ [] = rw (page, e) refl in
    rw here (region, mem-append_right region t.regions (region ∷ []) (Memᴰ.head refl), refl, inside)

collect_one-kept :
    (cid : String) (rows : List TargetRow) (entry : Option Target) (p : ℕ) (x : BBox)
    → HasRegion p x entry
    → HasRegion p x (collect_one cid rows entry)
collect_one-kept cid [] entry p x h = h
collect_one-kept cid (r ∷ rest) none p x h = absurd h
collect_one-kept cid (r ∷ rest) (some t) p x h = elim (Bool-cases (str_eq r.chunk.id cid)) [
  | inr other ↦ rw other (collect_one-kept cid rest (some t) p x h)
  | inl same ↦ rw same (
      collect_one-kept cid rest (some (with_region r.group t)) p x
        (with_region-kept p x r.group t h))
]

pub collect_one-new :
    (cid : String) (rows : List TargetRow) (entry : Option Target) (r : TargetRow) (p : ℕ)
    (x : BBox)
    → Memᴰ r rows
    → str_eq r.chunk.id cid ≡ true
    → IsAround p x r.group
    → HasRegion p x (collect_one cid rows entry)
collect_one-new cid [] entry r p x m same around = elim m [ ]
collect_one-new cid (q ∷ rest) entry r p x (Memᴰ.tail m) same around =
    collect_one-new cid rest (step_target cid q entry) r p x m same around
collect_one-new cid (q ∷ rest) none r p x (Memᴰ.head e) same around =
    let here = sym (ap (λ (k : TargetRow). str_eq k.chunk.id cid) e) ∙ same in
    rw here (
      collect_one-kept cid rest (some (with_region q.group (new_target q))) p x (
        with_region-new p x q.group (new_target q)
          (subst (λ (k : TargetRow). IsAround p x k.group) e around)))
collect_one-new cid (q ∷ rest) (some t) r p x (Memᴰ.head e) same around =
    let here = sym (ap (λ (k : TargetRow). str_eq k.chunk.id cid) e) ∙ same in
    rw here (
      collect_one-kept cid rest (some (with_region q.group t)) p x
        (with_region-new p x q.group t (subst (λ (k : TargetRow). IsAround p x k.group) e around)))

-- A row of a chunk gives it a target.
pub collect_one-some :
    (cid : String) (rows : List TargetRow) (entry : Option Target) (r : TargetRow)
    → Memᴰ r rows
    → str_eq r.chunk.id cid ≡ true
    → is_none (collect_one cid rows entry) ≡ false
collect_one-some cid [] entry r m same = elim m [ ]
collect_one-some cid (q ∷ rest) entry r (Memᴰ.tail m) same =
    collect_one-some cid rest (step_target cid q entry) r m same
collect_one-some cid (q ∷ rest) entry r (Memᴰ.head e) same =
    let here = sym (ap (λ (k : TargetRow). str_eq k.chunk.id cid) e) ∙ same in
    kept rest (step_target cid q entry) (stepped entry here)
  where
    stepped :
        (o : Option Target) → str_eq q.chunk.id cid ≡ true → is_none (step_target cid q o) ≡ false
    stepped none here = rw here refl
    stepped (some t) here = rw here refl

    kept :
        (more : List TargetRow) (o : Option Target)
        → is_none o ≡ false
        → is_none (collect_one cid more o) ≡ false
    kept [] o h = h
    kept (k ∷ more) none h = cc
    kept (k ∷ more) (some t) h = elim (Bool-cases (str_eq k.chunk.id cid)) [
      | inl at ↦ rw at (kept more (some (with_region k.group t)) refl)
      | inr other ↦ rw other (kept more (some t) refl)
    ]

-- What a target is but for its regions.
abbrev pub IsFrom : TargetRow → Target → Type 0
IsFrom r t = t ≡ record (new_target r) { regions = t.regions }

abbrev pub FromRow : (TargetRow → Type 0) → String → Option Target → Type 0
FromRow Q cid none = Unit
FromRow Q cid (some t) = (r : TargetRow) × Q r × (r.chunk.id ≡ cid) × IsFrom r t

-- A target comes from a row of its chunk.
pub collect_one-FromRow :
    (Q : TargetRow → Type 0) (cid : String) (rows : List TargetRow) (entry : Option Target)
    → Each Q rows
    → FromRow Q cid entry
    → FromRow Q cid (collect_one cid rows entry)
collect_one-FromRow Q cid [] entry good from = from
collect_one-FromRow Q cid (q ∷ rest) none (first, good) from =
    elim (Bool-cases (str_eq q.chunk.id cid)) [
      | inr other ↦ rw other (collect_one-FromRow Q cid rest none good tt)
      | inl same ↦ rw same (
          collect_one-FromRow Q cid rest (some (with_region q.group (new_target q))) good
            (q, first, (eq_iff q.chunk.id cid).0 same, refl))
    ]
collect_one-FromRow Q cid (q ∷ rest) (some t) (first, good) (r, ok, key, from) =
    elim (Bool-cases (str_eq q.chunk.id cid)) [
      | inr other ↦ rw other (collect_one-FromRow Q cid rest (some t) good (r, ok, key, from))
      | inl same ↦ rw same (
          collect_one-FromRow Q cid rest (some (with_region q.group t)) good (
            r,
            ok,
            key,
            ap (λ (k : Target). record k { regions = t.regions ++ region_of q.group }) from,
          ))
    ]
