-- ===== src/Worker/Points.antt =====
-- The vectors of a document after it was indexed: `ingest` of crates/worker/src/main.rs.
use bot_flow.Prelude.{ℕ, Text, List, not, filter}
use bot_flow.World.{World, Point}
use bot_flow.World.Stores.{of_document}
use bot_flow.Chunk.{Chunk}

module _ (tenant : Text) (id : ℕ) where
  abbrev others : List Point → List Point
  others = filter (λ q. not (of_document id q))
