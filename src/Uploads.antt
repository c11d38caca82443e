-- ===== src/Uploads.antt =====
-- crates/api/src/upload/mod.rs: upload sessions, and rows for content that the api writes itself.
pub mod Sessions
use bot_flow.Prelude.{
  ℕ, ◌+◌, Text, text_eq, codes, Option, none, some, List, [], ◌∷◌, Bool, true, false, not, ◌&&◌,
  ◌||◌, if◌then◌else◌,
}
use bot_flow.Outcome.{Result, ok, err, client, ok_or}
use bot_flow.Documents.{Status, uploading, expired, Row, Table, is_uploading, is_deleting}
use bot_flow.Documents.Sql.{update, fetch, owned, visible}
use bot_flow.World.{World}
use bot_flow.World.Steps.{Exec, pure, lift, call, ◌>>=◌, ◌>>◌}
use bot_flow.Keys.{object_key, extension_of, content_type_for}

-- `std::path`, `str::to_lowercase`, the printing of UUIDs, and the local signing of a PUT by the S3
-- library.
pub record Signing : Type 0 where
  pub path_extension : Text → Option Text
  pub to_lowercase : Text → Text
  pub uuid_text : ℕ → Text
  pub presign : Text → ℕ → Result Text

pub record UploadSession : Type 0 where
  pub document_id : ℕ
  pub upload_url : Text
  pub expires_at : ℕ

-- A new row; what the INSERT does not name has its default.
unfoldable pub inserted : ℕ → ℕ → Text → Text → Text → Text → Option ℕ → Option Text → Row
inserted now id tenant filename object_key content_type upload_expires_at external_id = record {
  id = id;
  tenant_id = tenant;
  filename = filename;
  object_key = object_key;
  status = uploading;
  created_at = now;
  content_type = some content_type;
  size_bytes = none;
  etag = none;
  upload_expires_at = upload_expires_at;
  uploaded_at = none;
  processing_started_at = none;
  processed_at = none;
  error = none;
  failure_reason = none;
  attempts = 0;
  external_id = external_id;
}

-- `status IN ('uploading', 'expired')`
abbrev pub is_expired : Status → Bool
is_expired expired = true
is_expired _ = false

abbrev pub awaiting : Text → ℕ → Row → Bool
awaiting tenant id r = owned tenant id r && (is_uploading r.status || is_expired r.status)

unfoldable pub renewed : ℕ → ℕ → Row → Row
renewed now ttl_secs r = record r { upload_expires_at = some (now + ttl_secs); status = uploading }

-- The document of the tenant with an external id that is not on its way out.
abbrev pub matches : Text → Text → Row → Bool
matches tenant external_id r =
    visible tenant r
    && elim r.external_id [ none ↦ false | some e ↦ text_eq e external_id ]
    && not (is_deleting r.status)

unfoldable pub replaced : Text → Row → Row
replaced filename r = record r { status = uploading; filename = filename; error = none }

module _ (sig : Signing) where
  unfoldable pub checked_extension : Text → Result Text
  checked_extension filename =
      ok_or (extension_of sig.path_extension sig.to_lowercase filename)
        (client 400 "unsupported file type; expected one of pdf, txt, md")

  unfoldable pub create_session : ℕ → ℕ → Text → Text → ℕ → Exec UploadSession
  unfolding checked_extension inserted
  create_session now document_id tenant filename ttl_secs = do
    ext ← lift (checked_extension filename)
    expires_at ← call λ w. (
      now + ttl_secs,
      record w {
        documents =
            inserted now document_id tenant filename
              (object_key sig.uuid_text tenant document_id ext) (codes (content_type_for ext))
              (some (now + ttl_secs)) none
            ∷ w.documents;
      },
    )
    upload_url ← lift (sig.presign (object_key sig.uuid_text tenant document_id ext) ttl_secs)
    pure (record { document_id = document_id; upload_url = upload_url; expires_at = expires_at })

  -- `fetch_optional` of the UPDATE's RETURNING.
  unfoldable pub refresh_session : ℕ → Text → ℕ → ℕ → Exec UploadSession
  unfolding renewed
  refresh_session now tenant document_id ttl_secs = do
    found ← call λ w. (
      fetch (awaiting tenant document_id) w.documents,
      record w {
        documents = update (awaiting tenant document_id) (renewed now ttl_secs) w.documents;
      },
    )
    row ← lift (ok_or found (client 404 "no document awaiting upload with that id"))
    upload_url ← lift (sig.presign row.object_key ttl_secs)
    pure
        (record { document_id = document_id; upload_url = upload_url; expires_at = now + ttl_secs })

  abbrev pub lookup_external : Text → Option Text → Table → Option Row
  lookup_external tenant none t = none
  lookup_external tenant (some external_id) t = fetch (matches tenant external_id) t

  unfoldable pub inline_row :
      ℕ → ℕ → Text → Text → Text → Option Text → Option Row → Table → (ℕ × Text) × Table
  unfolding replaced inserted
  inline_row now fresh tenant filename ext external_id (some row) t =
      ((row.id, row.object_key), update (owned tenant row.id) (replaced filename) t)
  inline_row now fresh tenant filename ext external_id none t = (
    (fresh, object_key sig.uuid_text tenant fresh ext),
    inserted now fresh tenant filename (object_key sig.uuid_text tenant fresh ext)
          (codes (content_type_for ext)) none external_id
        ∷ t,
  )

  unfoldable pub inline_document : ℕ → ℕ → Text → Text → Text → Option Text → Exec (ℕ × Text)
  unfolding inline_row
  inline_document now fresh tenant filename ext external_id = call λ w.
      let (answer, t) =
        inline_row now fresh tenant filename ext external_id
          (lookup_external tenant external_id w.documents) w.documents in
      (answer, record w { documents = t })
