-- ===== src/Providers/Embeddings/Ordering.antt =====
-- ragent/providers/embeddings.py: a response in any order gives each text its own vector.
use ragent.Common.{
  ℕ, zero, suc, ◌+◌, ◌<◌, ◌≡◌, refl, ap, ◌∙◌, Option, some, List, [], ◌∷◌, ◌++◌, map, length,
  sort_by, insert_by, Each-sort_by, Each, arith,
}
use ragent.Ingest.Text.{Text}
use ragent.Providers.Embeddings.{
  Datum, index_before, take_batch, drop_batch, batch_size, ordered_vectors, embed_batches,
  embed_documents,
}

module _ {A : Type 0} where
  -- `Inserted a xs ys`: `ys` is `xs` with `a` at one place.
  pub data Inserted : A → List A → List A → Type 0 where
    here : {a : A} {xs : List A} → Inserted a xs (a ∷ xs)
    there : {a x : A} {xs ys : List A} → Inserted a xs ys → Inserted a (x ∷ xs) (x ∷ ys)

  -- `Shuffled xs ys`: `ys` has the items of `xs`, in any order.
  pub data Shuffled : List A → List A → Type 0 where
    none_left : Shuffled [] []
    put : {a : A} {xs ys zs : List A} → Shuffled xs ys → Inserted a ys zs → Shuffled (a ∷ xs) zs

  Each-Inserted :
      (Q : A → Type 0) {a : A} {xs ys : List A} → Inserted a xs ys → Q a → Each Q xs → Each Q ys
  Each-Inserted Q here q h = (q, h)
  Each-Inserted Q (there i) q (first, h) = (first, Each-Inserted Q i q h)

  Each-Shuffled : (Q : A → Type 0) {xs ys : List A} → Shuffled xs ys → Each Q xs → Each Q ys
  Each-Shuffled Q none_left h = h
  Each-Shuffled Q (put s i) (q, h) = Each-Inserted Q i q (Each-Shuffled Q s h)

  length-take_batch :
      (n : ℕ) (xs : List A) → length (take_batch n xs) + length (drop_batch n xs) ≡ length xs
  length-take_batch zero xs = omega arith
  length-take_batch (suc n) [] = refl
  length-take_batch (suc n) (x ∷ xs) = ground (arith, length-take_batch n xs)

module _ {Vector : Type 0} (create : List Text → Option (List (Datum Vector))) where
  embed_batches_step :
      (fuel : ℕ) (t : Text) (rest : List Text) {items : List (Datum Vector)} {more : List Vector}
      → create (take_batch batch_size (t ∷ rest)) ≡ some items
      → embed_batches create fuel (drop_batch batch_size (t ∷ rest)) ≡ some more
      → embed_batches create (suc fuel) (t ∷ rest) ≡ some (ordered_vectors items ++ more)
  unfolding embed_batches
  embed_batches_step fuel t rest got found = rw (embed_batches, got) rw (embed_batches, found) refl

module _ {Vector : Type 0} where
  After : ℕ → Datum Vector → Type 0
  After k d = k < d.index

  insert_first :
      (a : Datum Vector) (xs : List (Datum Vector))
      → Each (After a.index) xs
      → insert_by index_before a xs ≡ a ∷ xs
  unfolding insert_by After
  insert_first a [] h = refl
  insert_first a (x ∷ rest) (later, h) = ground (arith, later)

  sort_by-Inserted :
      {a : Datum Vector} {xs ys : List (Datum Vector)}
      → Inserted a xs ys
      → Each (After a.index) xs
      → sort_by index_before ys ≡ a ∷ sort_by index_before xs
  unfolding sort_by insert_by After
  sort_by-Inserted {a} {xs} here h =
      insert_first a (sort_by index_before xs) (Each-sort_by index_before (After a.index) xs h)
  sort_by-Inserted {a} (there {x = x} i) (later, h) =
      ap (insert_by index_before x) (sort_by-Inserted i h) ∙ ground (arith, later)

  -- What a response says of each text of its batch.
  abbrev pub numbered : (Text → Vector) → ℕ → List Text → List (Datum Vector)
  numbered f k [] = []
  numbered f k (t ∷ rest) = record { index = k; embedding = f t } ∷ numbered f (suc k) rest

  numbered-After :
      (f : Text → Vector) (j k : ℕ) (texts : List Text)
      → j < k
      → Each (After j) (numbered f k texts)
  unfolding After
  numbered-After f j k [] h = tt
  numbered-After f j k (t ∷ rest) h = (h, numbered-After f j (suc k) rest (omega arith))

  embeddings_of :
      (f : Text → Vector) (k : ℕ) (texts : List Text)
      → map (λ (d : Datum Vector). d.embedding) (numbered f k texts) ≡ map f texts
  embeddings_of f k [] = refl
  embeddings_of f k (t ∷ rest) = ap (λ (vs : List Vector). f t ∷ vs) (embeddings_of f (suc k) rest)

  sort_by-Shuffled :
      (f : Text → Vector) (k : ℕ) (texts : List Text) {items : List (Datum Vector)}
      → Shuffled (numbered f k texts) items
      → sort_by index_before items ≡ numbered f k texts
  unfolding sort_by
  sort_by-Shuffled f k [] none_left = refl
  sort_by-Shuffled f k (t ∷ rest) (put s i) =
      sort_by-Inserted i (Each-Shuffled (After k) s (numbered-After f k (suc k) rest (omega arith)))
      ∙ ap (λ (ds : List (Datum Vector)). record { index = k; embedding = f t } ∷ ds)
          (sort_by-Shuffled f (suc k) rest s)

  ordered_vectors-Shuffled :
      (f : Text → Vector) (texts : List Text) {items : List (Datum Vector)}
      → Shuffled (numbered f 0 texts) items
      → ordered_vectors items ≡ map f texts
  unfolding ordered_vectors
  ordered_vectors-Shuffled f texts s =
      ap (map (λ (d : Datum Vector). d.embedding)) (sort_by-Shuffled f 0 texts s)
      ∙ embeddings_of f 0 texts

  map-take_batch :
      (f : Text → Vector) (n : ℕ) (texts : List Text)
      → map f (take_batch n texts) ++ map f (drop_batch n texts) ≡ map f texts
  map-take_batch f zero texts = refl
  map-take_batch f (suc n) [] = refl
  map-take_batch f (suc n) (t ∷ rest) =
      ap (λ (vs : List Vector). f t ∷ vs) (map-take_batch f n rest)

module _ {Vector : Type 0} (f : Text → Vector) (create : List Text → Option (List (Datum Vector)))
    (answers : (batch : List Text)
      → (items : List (Datum Vector)) × (create batch ≡ some items)
        × Shuffled (numbered f 0 batch) items) where
  embed_batches-map :
      (fuel : ℕ) (texts : List Text)
      → length texts < fuel
      → embed_batches create fuel texts ≡ some (map f texts)
  unfolding embed_batches
  embed_batches-map zero texts fuelled = absurd (omega arith)
  embed_batches-map (suc fuel) [] fuelled = refl
  embed_batches-map (suc fuel) (t ∷ rest) fuelled =
      let split = length-take_batch batch_size (t ∷ rest) in
      let (items, got, shuffled) = answers (take_batch batch_size (t ∷ rest)) in
      let later = drop_batch batch_size (t ∷ rest) in
      let found = embed_batches-map fuel later (omega (arith, split)) in
      embed_batches_step create fuel t rest got found
      ∙ ap (λ (vs : List Vector). some (vs ++ map f later))
          (ordered_vectors-Shuffled f (take_batch batch_size (t ∷ rest)) shuffled)
      ∙ ap some (map-take_batch f batch_size (t ∷ rest))

  -- For an endpoint that answers each batch with the embeddings of its texts under their indices, in
  -- any order, `embed_documents` returns the embedding of each text at the place of the text, in
  -- however many batches they are sent.
  pub embed_documents-map : (texts : List Text) → embed_documents create texts ≡ some (map f texts)
  unfolding embed_documents
  embed_documents-map texts = embed_batches-map (length texts + 1) texts (omega arith)
