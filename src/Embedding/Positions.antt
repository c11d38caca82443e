-- ===== src/Embedding/Positions.antt =====
-- Vectors line up with texts: `order_embeddings` and `embed_batch` of crates/common/src/embedding.rs.
use bot_flow.Prelude.{
  ◌∙◌, ◌⊎◌, ℕ, zero, suc, ◌+◌, ◌≤◌, Text, some, List, [], ◌∷◌, ◌++◌, map, leb, length, take, drop,
  get_elem?, All, All-map, Bool-cases, ◌≡◌, refl, sym, ap, inl, inr, arith, take-append-drop,
  length-drop,
}
use bot_flow.Outcome.{Error, Result, ok, err}
use bot_flow.Embedding.{
  EmbeddingData, insert, sort_by_index, check_positions, order_embeddings, embed_one_batch,
  embed_batches, embed_batch, embed_batch_size,
}

map-append : {A B : Type 0} (f : A → B) (xs ys : List A) → map f (xs ++ ys) ≡ map f xs ++ map f ys
map-append f [] ys = refl
map-append f (x ∷ xs) ys = ap (λ r. f x ∷ r) (map-append f xs ys)

Result-cases : {A : Type 0} (r : Result A) → ((e : Error) × (r ≡ err e)) ⊎ ((a : A) × (r ≡ ok a))
Result-cases (ok a) = inr (a, refl)
Result-cases (err e) = inl (e, refl)

module _ {F : Type 0} where
  insert-All :
      (P : EmbeddingData F → Type 0) (d : EmbeddingData F) (es : List (EmbeddingData F))
      → P d
      → All P es
      → All P (insert d es)
  unfolding insert
  insert-All P d [] h hs = (h, tt)
  insert-All P d (e ∷ es) h (he, hs) = elim (Bool-cases (leb d.index e.index)) [
    | inl l ↦ rw l (h, (he, hs))
    | inr l ↦ rw l (he, insert-All P d es h hs)
  ]

  sort-All :
      (P : EmbeddingData F → Type 0) (ds : List (EmbeddingData F))
      → All P ds
      → All P (sort_by_index ds)
  unfolding sort_by_index
  sort-All P [] h = tt
  sort-All P (d ∷ ds) (h, hs) = insert-All P d (sort_by_index ds) h (sort-All P ds hs)

  length-insert :
      (d : EmbeddingData F) (es : List (EmbeddingData F)) → length (insert d es) ≡ suc (length es)
  unfolding insert
  length-insert d [] = refl
  length-insert d (e ∷ es) = ground (arith, length-insert d es)

  length-sort : (ds : List (EmbeddingData F)) → length (sort_by_index ds) ≡ length ds
  unfolding sort_by_index
  length-sort [] = refl
  length-sort (d ∷ ds) = omega (arith, length-insert d (sort_by_index ds), length-sort ds)

module _ {F : Type 0} (f : Text → List F) where
  -- A datum holds the vector of the text that its index names.
  abbrev pub IsTrue : List Text → EmbeddingData F → Type 0
  IsTrue ts d = (t : Text) × (get_elem? ts d.index ≡ some t) × (d.embedding ≡ f t)

  -- The same, with the index counted from `i`.
  abbrev Sits : ℕ → List Text → EmbeddingData F → Type 0
  Sits i ts d =
      (k : ℕ) → d.index ≡ i + k → (t : Text) × (get_elem? ts k ≡ some t) × (d.embedding ≡ f t)

  Sits-next :
      (i : ℕ) (t : Text) (ts : List Text) (d : EmbeddingData F)
      → Sits i (t ∷ ts) d
      → Sits (suc i) ts d
  Sits-next i t ts d h k e = h (suc k) (omega arith)

  IsTrue-Sits : (ts : List Text) (d : EmbeddingData F) → IsTrue ts d → Sits 0 ts d
  IsTrue-Sits ts d (t, e, q) k same = (t, ground (arith, ap (get_elem? ts) same), q)

  -- Sorted data that pass the check are the vectors of the texts, in the order of the texts.
  check-map :
      (i : ℕ) (ts : List Text) (ds : List (EmbeddingData F))
      → length ds ≡ length ts
      → All (Sits i ts) ds
      → check_positions i ds ≡ ok tt
      → map (λ d. d.embedding) ds ≡ map f ts
  unfolding check_positions
  check-map i [] [] n h c = refl
  check-map i [] (d ∷ ds) n h c = cc
  check-map i (t ∷ ts) [] n h c = cc
  check-map i (t ∷ ts) (d ∷ ds) n (h, hs) c =
      let place : d.index ≡ i = ground arith in
      let rest : check_positions (suc i) ds ≡ ok tt = ground arith in
      let (t', e, q) = h 0 (omega arith) in
      let tail = check-map (suc i) ts ds (omega arith) (All-map (Sits-next i t ts) ds hs) rest in
      ground (arith, tail, e, q)

  order-map :
      (ts : List Text) (ds : List (EmbeddingData F)) (vs : List (List F))
      → All (IsTrue ts) ds
      → order_embeddings ds (length ts) ≡ ok vs
      → vs ≡ map f ts
  unfolding order_embeddings
  order-map ts ds vs h e =
      let n : length ds ≡ length ts = ground arith in
      let checked : check_positions 0 (sort_by_index ds) ≡ ok tt = ground arith in
      let sits = sort-All (Sits 0 ts) ds (All-map (IsTrue-Sits ts) ds h) in
      ground
        (arith, check-map 0 ts (sort_by_index ds) (omega (arith, length-sort ds, n)) sits checked)

  -- The endpoint never gives the vector of another text under an index.
  abbrev pub IsTruthful : (List Text → Result (List (EmbeddingData F))) → Type 0
  IsTruthful post =
      (ts : List Text) (ds : List (EmbeddingData F)) → post ts ≡ ok ds → All (IsTrue ts) ds

  module _ (post : List Text → Result (List (EmbeddingData F))) (truthful : IsTruthful post) where
    one_batch-map :
        (ts : List Text) (vs : List (List F)) → embed_one_batch post ts ≡ ok vs → vs ≡ map f ts
    unfolding embed_one_batch
    one_batch-map [] vs e = ground arith
    one_batch-map (t ∷ ts) vs e = elim (Result-cases (post (t ∷ ts))) [
      | inl (x, q) ↦ ground arith
      | inr (ds, q) ↦ order-map (t ∷ ts) ds vs (truthful (t ∷ ts) ds q) (ground arith)
    ]

    batches-map :
        (fuel : ℕ) (ts : List Text) (vs : List (List F))
        → length ts ≤ fuel
        → embed_batches post fuel ts ≡ ok vs
        → vs ≡ map f ts
    unfolding embed_batches
    batches-map zero [] vs n e = ground arith
    batches-map zero (t ∷ ts) vs n e = ground arith
    batches-map (suc fuel) [] vs n e = ground arith
    batches-map (suc fuel) (t ∷ ts) vs n e =
        let front = take embed_batch_size (t ∷ ts) in
        let back = drop embed_batch_size (t ∷ ts) in
        let shorter : length back ≤ fuel =
          omega (arith, length-drop embed_batch_size (t ∷ ts), n) in
        elim (Result-cases (embed_one_batch post front)) [
          | inl (x, q) ↦ ground arith
          | inr (us, q) ↦ elim (Result-cases (embed_batches post fuel back)) [
            | inl (x, q') ↦ ground arith
            | inr (ws, q') ↦
                let split : map f front ++ map f back ≡ map f (t ∷ ts) =
                  sym (map-append f front back)
                  ∙ ap (map f) (take-append-drop embed_batch_size (t ∷ ts)) in
                ground (arith, one_batch-map front us q, batches-map fuel back ws shorter q', split)
          ]
        ]

    -- When the endpoint never gives the vector of another text under an index, and `embed_batch`
    -- succeeds, it gives the vector of every text, in the order of the texts, however many requests
    -- that takes and in whatever order the endpoint answers within one.
    pub embed_batch-map :
        (ts : List Text) (vs : List (List F)) → embed_batch post ts ≡ ok vs → vs ≡ map f ts
    unfolding embed_batch
    embed_batch-map ts vs e = batches-map (length ts) ts vs (omega arith) e
