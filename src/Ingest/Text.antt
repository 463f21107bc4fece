-- ===== src/Ingest/Text.antt =====
-- Python's `str` as a list of code points, with the operations that the chunkers use.
pub mod Laws
use ragent.Common.{
  ℕ, zero, suc, ◌+◌, ◌-◌, ◌<◌, Bool, true, false, ◌&&◌, ◌||◌, not, Option, none, some, List, [],
  ◌∷◌, ◌++◌, leb, ltb, ◌==◌, if◌then◌else◌, length,
}
use Prim.Native.Char.{code}
use Prim.Native.String.{String}
use mathlib.Core.List.{reverse}

abbrev pub Text : Type 0
Text = List ℕ

-- The code points of a literal.
abbrev pub codes : String → Text
codes String.[] = []
codes (String.◌∷◌ c s) = code c ∷ codes s

-- `ch.isspace()`, which is also the `\s` of a regular expression over text.
unfoldable pub is_space : ℕ → Bool
is_space c =
    leb 9 c && leb c 13
    || leb 28 c && leb c 32
    || c == 133
    || c == 160
    || c == 5760
    || leb 8192 c && leb c 8202
    || c == 8232
    || c == 8233
    || c == 8239
    || c == 8287
    || c == 12288

unfoldable pub lstrip : Text → Text
lstrip [] = []
lstrip (c ∷ t) = if is_space c then lstrip t else c ∷ t

unfoldable pub rstrip : Text → Text
rstrip t = reverse (lstrip (reverse t))

-- `t.strip()`
unfoldable pub strip : Text → Text
strip t = rstrip (lstrip t)

abbrev pub take : ℕ → Text → Text
take zero t = []
take (suc n) [] = []
take (suc n) (c ∷ t) = c ∷ take n t

abbrev pub drop : ℕ → Text → Text
drop zero t = t
drop (suc n) [] = []
drop (suc n) (c ∷ t) = drop n t

-- `doc[start:end]`
unfoldable pub slice : Text → ℕ → ℕ → Text
slice doc start end = take (end - start) (drop start doc)

abbrev pub is_prefix : Text → Text → Bool
is_prefix [] t = true
is_prefix (c ∷ sep) [] = false
is_prefix (c ∷ sep) (d ∷ t) = c == d && is_prefix sep t

-- `s == t`
abbrev pub text_eq : Text → Text → Bool
text_eq [] [] = true
text_eq (c ∷ s) (d ∷ t) = c == d && text_eq s t
text_eq _ _ = false

-- `doc.find(sep, cursor, end)` over the text from `cursor` to `end`, whose position is `at`.
unfoldable pub find_in : Text → Text → ℕ → Option ℕ
find_in sep [] at = if is_prefix sep [] then some at else none
find_in sep (c ∷ t) at = if is_prefix sep (c ∷ t) then some at else find_in sep t (at + 1)

unfoldable pub find : Text → Text → ℕ → ℕ → Option ℕ
unfolding find_in slice
find doc sep cursor end = find_in sep (slice doc cursor end) cursor

-- The spans of `re.finditer(r"\S+", doc)`: the text that is left, its position, and the start of
-- the word that is open.
unfoldable pub words_from : Text → ℕ → Option ℕ → List (ℕ × ℕ)
words_from [] at none = []
words_from [] at (some start) = (start, at) ∷ []
words_from (c ∷ t) at none = words_from t (at + 1) (if is_space c then none else some at)
words_from (c ∷ t) at (some start) =
    let closed = words_from t (at + 1) none in
    let longer = words_from t (at + 1) (some start) in
    if is_space c then (start, at) ∷ closed else longer

unfoldable pub words_of : Text → List (ℕ × ℕ)
unfolding words_from is_space
words_of doc = words_from doc 0 none
