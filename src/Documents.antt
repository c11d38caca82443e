-- ===== src/Documents.antt =====
-- The `documents` table (crates/api/migrations) and the SQL that the program runs on it:
-- crates/worker/src/lifecycle.rs, crates/worker/src/reaper.rs, crates/api/src/upload/mod.rs.
pub mod Sql
pub mod Lifecycle
use bot_flow.Prelude.{ℕ, Text, ℤ, Option, List, Bool, true, false, String}

-- The statuses that the CHECK of migration 0011 allows.
pub data Status : Type 0 where
  uploading uploaded processing ready failed expired quarantined deleting : Status

abbrev pub is_processing : Status → Bool
is_processing processing = true
is_processing _ = false

abbrev pub is_uploading : Status → Bool
is_uploading uploading = true
is_uploading _ = false

abbrev pub is_deleting : Status → Bool
is_deleting deleting = true
is_deleting _ = false

abbrev pub is_ready : Status → Bool
is_ready ready = true
is_ready _ = false

-- `FailureReason` of crates/worker/src/failure.rs.
pub data FailureReason : Type 0 where
  unreadable_file unsupported_type too_large system_error : FailureReason

-- A UUID is a number of 128 bits; a timestamp counts seconds.
pub record Row : Type 0 where
  pub id : ℕ
  pub tenant_id : Text
  pub filename : Text
  pub object_key : Text
  pub status : Status
  pub created_at : ℕ
  pub content_type : Option Text
  pub size_bytes : Option ℤ
  pub etag : Option Text
  pub upload_expires_at : Option ℕ
  pub uploaded_at : Option ℕ
  pub processing_started_at : Option ℕ
  pub processed_at : Option ℕ
  pub error : Option Text
  pub failure_reason : Option FailureReason
  pub attempts : ℕ
  pub external_id : Option Text

abbrev pub Table : Type 0
Table = List Row
