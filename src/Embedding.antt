-- ===== src/Embedding.antt =====
-- crates/common/src/embedding.rs: the client of the embeddings endpoint. The endpoint itself is an
-- argument: what it answers to the texts of one request.
pub mod Positions
use bot_flow.Prelude.{
  ℕ, zero, suc, Text, codes, List, [], ◌∷◌, ◌++◌, map, Bool, true, false, ◌||◌, ◌==◌, leb, length,
  take, drop, is_empty, contains, if◌then◌else◌,
}
use bot_flow.Outcome.{EmbedError, transport, status, protocol, Error, embed, Result, ok, err}

abbrev pub embedding_dim : ℕ
embedding_dim = 1536

abbrev pub embed_batch_size : ℕ
embed_batch_size = 96

-- `to_lowercase` of Unicode is an argument.
unfoldable pub is_fatal : (Text → Text) → EmbedError → Bool
is_fatal to_lowercase transport = false
is_fatal to_lowercase protocol = false
is_fatal to_lowercase (status s body) =
    let b = to_lowercase body in
    if s == 413
    then true
    else if s == 400
    then contains b (codes "maximum context length")
      || contains b (codes "too long")
      || contains b (codes "too many tokens")
    else false

-- `F` stands for `f32`.
pub record EmbeddingData (F : Type 0) : Type 0 where
  pub index : ℕ
  pub embedding : List F

module _ {F : Type 0} where
  -- `sort_by_key(|d| d.index)`, which is stable.
  unfoldable pub insert : EmbeddingData F → List (EmbeddingData F) → List (EmbeddingData F)
  insert d [] = d ∷ []
  insert d (e ∷ es) = let rest = insert d es in if leb d.index e.index then d ∷ e ∷ es else e ∷ rest

  unfoldable pub sort_by_index : List (EmbeddingData F) → List (EmbeddingData F)
  unfolding insert
  sort_by_index [] = []
  sort_by_index (d ∷ ds) = insert d (sort_by_index ds)

  -- The loop over the sorted data, from position `i` on.
  unfoldable pub check_positions : ℕ → List (EmbeddingData F) → Result (Unit {0})
  check_positions i [] = ok tt
  check_positions i (d ∷ ds) =
      let rest = check_positions (suc i) ds in
      if d.index == i
      then if length d.embedding == embedding_dim then rest else err (embed protocol)
      else err (embed protocol)

  unfoldable pub order_embeddings : List (EmbeddingData F) → ℕ → Result (List (List F))
  unfolding sort_by_index check_positions
  order_embeddings items expected =
      let sorted = sort_by_index items in
      elim (length items == expected) [
        | false ↦ err (embed protocol)
        | true ↦ elim (check_positions 0 sorted) [
          | err e ↦ err e
          | ok _ ↦ ok (map (λ d. d.embedding) sorted)
        ]
      ]

  module _ (post : List Text → Result (List (EmbeddingData F))) where
    unfoldable pub embed_one_batch : List Text → Result (List (List F))
    unfolding order_embeddings
    embed_one_batch [] = ok []
    embed_one_batch (t ∷ ts) = elim (post (t ∷ ts)) [
      | err e ↦ err e
      | ok items ↦ order_embeddings items (length (t ∷ ts))
    ]

    -- `slice::chunks`, and the loop over the batches.
    unfoldable pub embed_batches : ℕ → List Text → Result (List (List F))
    unfolding embed_one_batch
    embed_batches zero texts = ok []
    embed_batches (suc fuel) [] = ok []
    embed_batches (suc fuel) (t ∷ ts) =
        let rest = embed_batches fuel (drop embed_batch_size (t ∷ ts)) in
        elim (embed_one_batch (take embed_batch_size (t ∷ ts))) [
          | err e ↦ err e
          | ok vs ↦ elim rest [ err e ↦ err e | ok ws ↦ ok (vs ++ ws) ]
        ]

    unfoldable pub embed_batch : List Text → Result (List (List F))
    unfolding embed_batches
    embed_batch texts = embed_batches (length texts) texts

    unfoldable pub embed_one : Text → Result (List F)
    unfolding embed_batch
    embed_one text = elim (embed_batch (text ∷ [])) [
      | err e ↦ err e
      | ok [] ↦ err (embed protocol)
      | ok (v ∷ []) ↦ ok v
      | ok (v ∷ w ∷ vs) ↦ err (embed protocol)
    ]
