-- ===== src/Db/Chunks/Linked.antt =====
-- The links of replaced chunks.
use ragent.Common.{
  ℕ, ◌+◌, String, ◌≡◌, refl, sym, ap, ◌∙◌, subst, inl, inr, Bool, true, false, List, [], ◌∷◌, ◌++◌,
  map, arith, str_eq, eq_iff, eq_refl, if◌then◌else◌, Bool-cases, filter, any, Each, contains,
  distinct,
}
use mathlib.Core.List.{Memᴰ}
use ragent.Ingest.Types.{Chunk}
use ragent.Ingest.Chunking.Assembly.{IsTraced}
use ragent.Db.Tables.{BlockRow, Link, block_ids}
use ragent.Db.Chunks.{with_ids, links_of, all_links, is_link, add_links, are_linkable}

-- The blocks that a chunk is linked to.
abbrev pub linked_blocks : String → List Link → List String
linked_blocks cid links =
    map (λ (l : Link). l.block_id) (filter (λ (l : Link). str_eq l.chunk_id cid) links)

abbrev pub linked_chunks : List Link → List String
linked_chunks = map (λ (l : Link). l.chunk_id)

-- An id that is added once, at the end.
abbrev pub add_once : List String → String → List String
add_once xs x = if contains xs x then xs else xs ++ (x ∷ [])

abbrev pub add_each : List String → List String → List String
add_each xs [] = xs
add_each xs (y ∷ ys) = add_each (add_once xs y) ys

linked_blocks-snoc :
    (cid : String) (rows : List Link) (l : Link)
    → linked_blocks cid (rows ++ (l ∷ [])) ≡ (
        if str_eq l.chunk_id cid
        then linked_blocks cid rows ++ (l.block_id ∷ [])
        else linked_blocks cid rows)
linked_blocks-snoc cid [] l = ground arith
linked_blocks-snoc cid (r ∷ rest) l = ground (arith, linked_blocks-snoc cid rest l)

any-is_link :
    (l : Link) (rows : List Link)
    → any (is_link l) rows ≡ contains (linked_blocks l.chunk_id rows) l.block_id
any-is_link l [] = refl
any-is_link l (r ∷ rest) = ground (arith, any-is_link l rest)

add_link_lem :
    (cid : String) (rows : List Link) (l : Link)
    → linked_blocks cid (if any (is_link l) rows then rows else rows ++ (l ∷ [])) ≡ (
        if str_eq l.chunk_id cid
        then add_once (linked_blocks cid rows) l.block_id
        else linked_blocks cid rows)
add_link_lem cid rows l = elim (Bool-cases (str_eq l.chunk_id cid)) [
  | inl same ↦ elim (Bool-cases (any (is_link l) rows)) [
    | inl there ↦
        let old : contains (linked_blocks cid rows) l.block_id ≡ true =
          ap (λ c. contains (linked_blocks c rows) l.block_id)
            (sym ((eq_iff l.chunk_id cid).0 same))
          ∙ sym (any-is_link l rows)
          ∙ there in
        rw (there, same, old) refl
    | inr new ↦
        let absent : contains (linked_blocks cid rows) l.block_id ≡ false =
          ap (λ c. contains (linked_blocks c rows) l.block_id)
            (sym ((eq_iff l.chunk_id cid).0 same))
          ∙ sym (any-is_link l rows)
          ∙ new in
        rw (new, linked_blocks-snoc cid rows l, same, absent) refl
  ]
  | inr other ↦ elim (Bool-cases (any (is_link l) rows)) [
    | inl there ↦ rw (there, other) refl
    | inr new ↦ rw (new, linked_blocks-snoc cid rows l, other) refl
  ]
]

linked_blocks-add_links :
    (cid : String) (links rows : List Link)
    → linked_blocks cid (add_links links rows)
      ≡ add_each (linked_blocks cid rows) (linked_blocks cid links)
unfolding add_links
linked_blocks-add_links cid [] rows = refl
linked_blocks-add_links cid (l ∷ rest) rows =
    linked_blocks-add_links cid rest (if any (is_link l) rows then rows else rows ++ (l ∷ []))
    ∙ elim (Bool-cases (str_eq l.chunk_id cid)) [
      | inl same ↦ rw (add_link_lem cid rows l, same) refl
      | inr other ↦ rw (add_link_lem cid rows l, other) refl
    ]

linked_blocks-links_of :
    (cid other : String) (ordinal : ℕ) (ids : List String) (more : List Link)
    → linked_blocks other (links_of cid ordinal ids ++ more)
      ≡ (if str_eq cid other then ids ++ linked_blocks other more else linked_blocks other more)
unfolding links_of
linked_blocks-links_of cid other ordinal [] more = ground arith
linked_blocks-links_of cid other ordinal (b ∷ rest) more =
    ground (arith, linked_blocks-links_of cid other (ordinal + 1) rest more)

unlinked :
    (pairs : List (String × Chunk)) (cid : String)
    → contains (map (λ (p : String × Chunk). p.0) pairs) cid ≡ false
    → linked_blocks cid (all_links pairs) ≡ []
unfolding all_links
unlinked [] cid h = refl
unlinked ((id, c) ∷ rest) cid h =
    ground (arith, linked_blocks-links_of id cid 0 c.block_ids (all_links rest), unlinked rest cid)

mem_contains :
    (pairs : List (String × Chunk)) (p : String × Chunk)
    → Memᴰ p pairs
    → contains (map (λ (q : String × Chunk). q.0) pairs) p.0 ≡ true
mem_contains [] p m = elim m [ ]
mem_contains (q ∷ rest) p (Memᴰ.head e) =
    rw (ap (λ (x : String × Chunk). str_eq q.0 x.0) e ∙ eq_refl q.0) refl
mem_contains (q ∷ rest) p (Memᴰ.tail m) = ground (arith, mem_contains rest p m)

append_nil : (xs : List String) → xs ++ [] ≡ xs
append_nil [] = refl
append_nil (x ∷ xs) = ap (λ ys. x ∷ ys) (append_nil xs)

linked_blocks-all_links :
    (pairs : List (String × Chunk)) (p : String × Chunk)
    → distinct (map (λ (q : String × Chunk). q.0) pairs) ≡ true
    → Memᴰ p pairs
    → linked_blocks p.0 (all_links pairs) ≡ p.1.block_ids
unfolding all_links
linked_blocks-all_links [] p apart m = elim m [ ]
linked_blocks-all_links ((id, c) ∷ rest) p apart (Memᴰ.head e) =
    let absent = unlinked rest id (ground (arith)) in
    subst
      (λ (q : String × Chunk).
        linked_blocks q.0 (links_of id 0 c.block_ids ++ all_links rest) ≡ q.1.block_ids)
      (sym e)
      (linked_blocks-links_of id id 0 c.block_ids (all_links rest)
        ∙ rw (eq_refl id, absent) (append_nil c.block_ids))
linked_blocks-all_links ((id, c) ∷ rest) p apart (Memᴰ.tail m) =
    let differs : str_eq id p.0 ≡ false = ground (arith, eq_iff id p.0, mem_contains rest p m) in
    linked_blocks-links_of id p.0 0 c.block_ids (all_links rest)
    ∙ rw differs (linked_blocks-all_links rest p (ground (arith)) m)

-- The links of a chunk that had none are those to its blocks.
pub links_new :
    (pairs : List (String × Chunk)) (p : String × Chunk) (rows : List Link)
    → distinct (map (λ (q : String × Chunk). q.0) pairs) ≡ true
    → Memᴰ p pairs
    → linked_blocks p.0 rows ≡ []
    → linked_blocks p.0 (add_links (all_links pairs) rows) ≡ add_each [] p.1.block_ids
links_new pairs p rows apart m none_before =
    linked_blocks-add_links p.0 (all_links pairs) rows
    ∙ rw (none_before, linked_blocks-all_links pairs p apart m) refl

pub linked_blocks-filter :
    (keep : Link → Bool) (cid : String) (rows : List Link)
    → contains (linked_chunks rows) cid ≡ false
    → linked_blocks cid (filter keep rows) ≡ []
linked_blocks-filter keep cid [] h = refl
linked_blocks-filter keep cid (l ∷ rest) h = ground (arith, linked_blocks-filter keep cid rest)

-- Links to known blocks pass the foreign key.
linkable-links_of :
    (blocks : List BlockRow) (cid : String) (ordinal : ℕ) (ids : List String) (more : List Link)
    → Each (λ id. contains (block_ids blocks) id ≡ true) ids
    → are_linkable blocks more ≡ true
    → are_linkable blocks (links_of cid ordinal ids ++ more) ≡ true
unfolding links_of
linkable-links_of blocks cid ordinal [] more h rest_h = rest_h
linkable-links_of blocks cid ordinal (b ∷ rest) more (first, h) rest_h =
    rw first (linkable-links_of blocks cid (ordinal + 1) rest more h rest_h)

pub linkable-all_links :
    (fresh : ℕ → String) (n : ℕ) (blocks : List BlockRow) (chunks : List Chunk)
    → Each (IsTraced (λ id. contains (block_ids blocks) id ≡ true)) chunks
    → are_linkable blocks (all_links (with_ids fresh n chunks)) ≡ true
unfolding all_links with_ids
linkable-all_links fresh n blocks [] h = refl
linkable-all_links fresh n blocks (c ∷ rest) ((_, _, known), h) =
    linkable-links_of blocks (fresh n) 0 c.block_ids (all_links (with_ids fresh (n + 1) rest)) known
      (linkable-all_links fresh (n + 1) blocks rest h)

pub mem-with_ids :
    (fresh : ℕ → String) (n : ℕ) (chunks : List Chunk) (p : String × Chunk)
    → Memᴰ p (with_ids fresh n chunks)
    → (k : ℕ) × (p.0 ≡ fresh k)
unfolding with_ids
mem-with_ids fresh n [] p m = elim m [ ]
mem-with_ids fresh n (c ∷ rest) p (Memᴰ.head e) = (n, ap (λ (q : String × Chunk). q.0) e)
mem-with_ids fresh n (c ∷ rest) p (Memᴰ.tail m) = mem-with_ids fresh (n + 1) rest p m
