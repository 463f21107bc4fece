-- ===== src/Ingest/Text/Laws.antt =====
-- Where `find` can find a separator, and how long a slice is.
use ragent.Common.{ℕ, zero, suc, ◌+◌, ◌-◌, ◌≤◌, ◌≡◌, true, some, [], ◌∷◌, arith, length}
use ragent.Ingest.Text.{Text, take, drop, slice, is_prefix, find_in, find}

length-take : (n : ℕ) (t : Text) → length (take n t) ≤ n
length-take zero t = omega arith
length-take (suc n) [] = omega arith
length-take (suc n) (c ∷ t) = omega (arith, length-take n t)

length-slice : (doc : Text) (start end : ℕ) → length (slice doc start end) ≤ end - start
unfolding slice
length-slice doc start end = length-take (end - start) (drop start doc)

prefix_is_short : (sep t : Text) → is_prefix sep t ≡ true → length sep ≤ length t
prefix_is_short [] t h = omega arith
prefix_is_short (c ∷ sep) [] h = absurd (ground (arith))
prefix_is_short (c ∷ sep) (d ∷ t) h = ground (arith, prefix_is_short sep t)

find_in_bounds :
    (sep t : Text) (at found : ℕ)
    → find_in sep t at ≡ some found
    → (at ≤ found) × (found + length sep ≤ at + length t)
unfolding find_in
find_in_bounds sep [] at found h = ground (arith, prefix_is_short sep [])
find_in_bounds sep (c ∷ t) at found h =
    ground (arith, prefix_is_short sep (c ∷ t), find_in_bounds sep t (at + 1) found)

-- A separator found between two positions lies between them.
pub find_bounds :
    (doc sep : Text) (cursor end found : ℕ)
    → cursor ≤ end
    → find doc sep cursor end ≡ some found
    → (cursor ≤ found) × (found + length sep ≤ end)
unfolding find
find_bounds doc sep cursor end found le h =
    ground
      (arith, find_in_bounds sep (slice doc cursor end) cursor found h, length-slice doc cursor end)
