-- ===== src/Tests/Embedding.antt =====
-- An endpoint of crates/common/src/embedding.rs that answers in the opposite order.
use bot_flow.Prelude.{ℕ, zero, suc, Text, codes, List, [], ◌∷◌, ◌≡◌, refl, sym, map, length}
use bot_flow.Outcome.{Result, ok, err, unavailable}
use bot_flow.Embedding.{
  EmbeddingData, embedding_dim, insert, sort_by_index, check_positions, order_embeddings,
  embed_one_batch, embed_batches, embed_batch,
}
use bot_flow.Embedding.Positions.{IsTruthful, embed_batch-map}

abbrev repeat : ℕ → ℕ → List ℕ
repeat zero c = []
repeat (suc n) c = c ∷ repeat n c

-- The vector of a text says how long the text is.
abbrev vector : Text → List ℕ
vector t = repeat embedding_dim (length t)

abbrev backwards : List Text → Result (List (EmbeddingData ℕ))
backwards (s ∷ t ∷ []) =
    ok
      (record { index = 1; embedding = vector t } ∷ record { index = 0; embedding = vector s } ∷ [])
backwards _ = err unavailable

backwards-IsTruthful : IsTruthful vector backwards
backwards-IsTruthful [] ds e = cc
backwards-IsTruthful (s ∷ []) ds e = cc
backwards-IsTruthful (s ∷ t ∷ []) ds e =
    let same : (record { index = 1; embedding = vector t }
          ∷ record { index = 0; embedding = vector s }
          ∷ [])
        ≡ ds =
      cc in
    rw (sym same) ((t, refl, refl), ((s, refl, refl), tt))
backwards-IsTruthful (s ∷ t ∷ u ∷ ts) ds e = cc

answer :
    embed_batch backwards (codes "ab" ∷ codes "c" ∷ [])
    ≡ ok (repeat embedding_dim 2 ∷ repeat embedding_dim 1 ∷ [])
unfolding embed_batch embed_batches embed_one_batch order_embeddings sort_by_index insert
    check_positions
answer = refl

embed_batch-map_example :
    (repeat embedding_dim 2 ∷ repeat embedding_dim 1 ∷ [])
    ≡ map vector (codes "ab" ∷ codes "c" ∷ [])
embed_batch-map_example =
    embed_batch-map vector backwards backwards-IsTruthful (codes "ab" ∷ codes "c" ∷ [])
      (repeat embedding_dim 2 ∷ repeat embedding_dim 1 ∷ []) answer
