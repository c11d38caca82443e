-- ===== src/Lib.antt =====
-- A model of bot_flow, a multi-tenant retrieval service: an api (crates/api) that tenants upload
-- documents to and ask questions of, a worker (crates/worker) that parses, chunks and embeds what was
-- uploaded, and what the two share (crates/common).
--
-- The two programs meet in Postgres, in the Qdrant collection and in the MinIO bucket. No transaction
-- spans the three, and a row of `documents` says how far a document is.
--
-- Files and what they model
--   Prelude         lists, numbers, texts and `i64`; a text is the list of its characters' codes
--   Outcome         the error types (crates/api/src/error.rs, crates/common/src/embedding.rs)
--   Documents       the table (crates/api/migrations): `Row`, `Status`
--     Sql           the statements UPDATE, SELECT and DELETE; `visible` is row-level security, which
--                   `tenant_tx` (crates/api/src/db.rs) turns on
--     Sql/Laws      what a read finds after a write
--     Lifecycle     crates/worker/src/lifecycle.rs: `claim`, `claim_decision`, `mark_ready`,
--                   `mark_failed`, `mark_quarantined`, `finish_from_processing`, `set_status`
--     Lifecycle/*   which claims proceed, and the fence
--   World           Postgres, Qdrant and MinIO as one state, and the fate of the calls to come
--     Steps         `Exec`, the monad of async code: errors keep the state that they leave behind
--     Stores        the deletions that Qdrant and MinIO are asked for
--     Triples       Hoare triples with a third assertion, which holds after an error as well
--   Actor           the principals and the management gate (crates/api/src/auth.rs)
--   Deletion        `delete_document`, `delete_document_stores` (crates/api/src/handlers.rs) with
--                   `begin`, `finish`, `redact_messages_citing` (crates/api/src/erasure.rs)
--   Reaper          crates/worker/src/reaper.rs: `sweep`, `sweep_one`, `finish_deletions`
--   Chunk           crates/common/src/chunk.rs, all of it
--   Erasure         `erase_tenant` (crates/api/src/erasure.rs)
--     Traces        what is left of a tenant wherever that stops
--   Keys            crates/common/src/key.rs: `object_key`, `parse_key`, `extension_of`
--   Uploads         crates/api/src/upload/mod.rs: `create_session`, `refresh_session`, `inline_document`
--   Embedding       crates/common/src/embedding.rs: batching, the order of the vectors, fatal errors
--   Worker          crates/worker/src/main.rs: `handle`, `finish`, `verify_and_ingest`, `ingest`, and
--                   `classify` (crates/worker/src/failure.rs)
--     Settles       how `handle` leaves the row
--     Points        what indexing leaves in the collection
--   Listing         `list_documents`, its limits and its cursors (crates/api/src/handlers.rs)
--     Order         the order of the rows, and what a cursor cuts off
--     Pages         a client that follows the cursors
--   RateLimit       crates/api/src/rate_limit.rs
--     Window        how many requests of one window pass
--   Access          crates/api/src/auth.rs: the extractors, tokens, `Platform`
--     Origins       `normalize_origin`, and `checked_origins` (crates/api/src/handlers.rs)
--     Grants        what stands behind a request that is taken for an actor
--     Erased        credentials after an erasure
--   ApiKeys         `insert_api_key`, `provision_tenant`, `create_tenant`, `mint_key`
--                   (crates/api/src/handlers.rs), and the handlers of keys (crates/api/src/accounts.rs)
--     Minting       what a minted key is good for
--   Accounts        crates/api/src/accounts.rs: its statements and checks
--     Handlers      its handlers
--     Recovery, Passwords, Login, Slug   what they do
--   Ask             crates/api/src/conversation.rs
--     Handlers      `search`, `retrieve`, `ask`, `ask_stream` (crates/api/src/handlers.rs)
--     Sources, Streams, History          what an answer rests on, and what is kept of it
--   Tests           rows, states and texts that the results are applied to
--
-- State and calls. A transaction is one function on the state: its row lock makes it run alone. A call
-- of a store, or a transaction, meets the next of the `fates` in the state: it is answered, it is
-- refused without an effect, or it takes effect and its answer is lost. So a statement about all
-- states is about every point at which the code may stop. A column that nothing here reads or writes
-- is kept in `Row` where the program has it. Timestamps count seconds, and `now()` is an argument.
-- Fresh UUIDs are arguments.
--
-- Bounds and fuel. Counts and sizes are natural numbers; none of the arithmetic modelled here comes
-- near the width of a `usize` or an `i64`. The `while` loop of `chunk_text` runs on the length of the
-- text, which bounds its rounds, since a round moves on by at least one; `hard_cut` runs on the length
-- of the text too, each cut taking at least one character of it. The descent over the separators is
-- structural.
--
-- Not modelled. The HTTP layer, the clients of Qdrant, MinIO, Redis, the queue and the language model
-- are third-party code; logging and metrics have no effect on the state.
-- How a UUID is printed and parsed, and how a PUT is signed, are arguments (`Signing`).
-- What MinIO, the sidecar and the embeddings endpoint answer is an argument (`Services`); a `Vec<f32>` is
-- a list of the numbers that the 32 bits of each are. SHA-256, Argon2 and the case tables are
-- fields of `Platform`; the embedder, the search of Qdrant and the model are fields of `Retrieval`. Of a
-- tenant's row the id is kept, not the name. The dashboard (web), the
-- sidecar and the scripts are not Rust.
pub mod Prelude
pub mod Outcome
pub mod Documents
pub mod World
pub mod Actor
pub mod RateLimit
pub mod Access
pub mod Accounts
pub mod ApiKeys
pub mod Ask
pub mod Transitions
pub mod Deletion
pub mod Reaper
pub mod Chunk
pub mod Uploads
pub mod Keys
pub mod Erasure
pub mod Listing
pub mod Worker
pub mod Embedding
pub mod Tests
