-- ===== src/Tests/Erasure.antt =====
-- The erasure of a tenant in crates/api/src/erasure.rs on a concrete state.
