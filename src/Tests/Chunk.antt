-- ===== src/Tests/Chunk.antt =====
-- Chunks of crates/common/src/chunk.rs on concrete texts.
use bot_flow.Prelude.{◌+◌, codes}
use bot_flow.Chunk.{separators, split_to_size, chunk_text_recursive}
use bot_flow.Chunk.Budget.{Fit, split_to_size-Fit, chunk_text_recursive-Fit}

split_to_size-Fit_example : Fit 4 (split_to_size (codes "ab cd. efghijk") 4 separators)
split_to_size-Fit_example = split_to_size-Fit (codes "ab cd. efghijk") 4 separators

chunk_text_recursive-Fit_example : Fit (4 + 2) (chunk_text_recursive (codes "ab cd. efghijk") 4 2)
chunk_text_recursive-Fit_example = chunk_text_recursive-Fit (codes "ab cd. efghijk") 4 2
