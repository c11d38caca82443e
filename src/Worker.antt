-- ===== src/Worker.antt =====
-- crates/worker/src/main.rs: what the worker does with an upload event. `classify` is from
-- crates/worker/src/failure.rs.
pub mod Settles
pub mod Points
use bot_flow.Prelude.{
  ℕ, suc, String, Text, codes, ℤ, lt_ℤ, eq_ℤ, Option, none, some, List, [], ◌∷◌, map, Bool, true,
  false, not, ◌==◌, length, is_empty, if◌then◌else◌,
}
use bot_flow.Outcome.{EmbedError, Error, embed, sidecar, other, Result, ok, err}
use bot_flow.Documents.{
  FailureReason, unreadable_file, unsupported_type, too_large, system_error, Table,
}
use bot_flow.Documents.Lifecycle.{
  Claim, proceed, skip, claim, mark_ready, mark_failed, mark_quarantined,
}
use bot_flow.World.{World, Point}
use bot_flow.World.Steps.{Exec, pure, fail, lift, call, ◌>>=◌, ◌>>◌}
use bot_flow.World.Stores.{of_document, delete_points, delete_object, upsert_points}
use bot_flow.Chunk.{Chunk, chunk_size, chunk_overlap, chunk_with_spans}
use bot_flow.Embedding.{EmbeddingData, embed_batch, is_fatal}

-- `UploadedObject` of crates/worker/src/event.rs.
pub record UploadedObject : Type 0 where
  pub tenant_id : Text
  pub document_id : ℕ
  pub object_key : Text
  pub size : ℤ
  pub etag : Text

-- What the worker asks of MinIO, of the sidecar and of the embeddings endpoint, none of which changes
-- the state; how `anyhow` prints an error (`{e:#}`); and `str::to_lowercase`.
pub record Services : Type 0 where
  pub head_object : Text → Result (ℕ × Option ℤ)
  pub get_object : Text → Result (ℕ × List ℕ)
  pub parse_to_text : List ℕ → Text → ℕ → Result Text
  pub post : List Text → Result (List (EmbeddingData ℕ))
  pub describe : Error → Text
  pub to_lowercase : Text → Text
  pub max_upload_bytes : ℤ
  pub quarantine_note : ℤ → Text

-- `bail!` unless the test holds.
abbrev pub ensure : Bool → String → Result (Unit {0})
ensure true why = ok tt
ensure false why = err (other why)

unfoldable pub classify : Error → FailureReason
classify (sidecar (some code)) =
    if code == 3 then unsupported_type else if code == 4 then unreadable_file else system_error
classify _ = system_error

-- `Result<(), Failure>`
pub data Verdict : Type 0 where
  handled : Verdict
  fatal retryable : Error → Verdict

-- The points of the chunks, from the chunk with index `i` on. The payload's `created_at`, which
-- nothing reads, and the sparse vector are left out.
unfoldable pub points_of : Text → ℕ → ℕ → List Chunk → List (List ℕ) → List Point
points_of tenant id i [] vs = []
points_of tenant id i (c ∷ cs) [] = []
points_of tenant id i (c ∷ cs) (v ∷ vs) =
    record {
      tenant_id = tenant;
      document_id = some id;
      chunk_index = i;
      text = c.text;
      char_start = c.char_start;
      char_end = c.char_end;
      vector = v;
    }
    ∷ points_of tenant id (suc i) cs vs

-- From the vectors on.
unfoldable pub index_chunks : Text → ℕ → List Chunk → List (List ℕ) → Exec ℕ
unfolding points_of
index_chunks tenant id chunks vectors = do
  delete_points (of_document id)
  upsert_points (points_of tenant id 0 chunks vectors)
  pure (length (points_of tenant id 0 chunks vectors))

module _ (svc : Services) where
  -- From the text on.
  unfoldable pub index_text : Text → ℕ → Text → Exec ℕ
  unfolding index_chunks
  index_text tenant id text =
      let chunks = chunk_with_spans text chunk_size chunk_overlap in
      if is_empty chunks
      then pure 0
      else lift (embed_batch svc.post (map (λ c. c.text) chunks)) >>= index_chunks tenant id chunks

  unfoldable pub ingest : Text → ℕ → Text → Text → Exec ℕ
  unfolding index_text
  ingest tenant id object_key filename_hint = do
    (status, bytes) ← lift (svc.get_object object_key)
    lift (ensure (status == 200) "download failed")
    text ← lift (svc.parse_to_text bytes filename_hint id)
    index_text tenant id text

  -- `content_length` against the size of the event.
  unfoldable pub right_length : Option ℤ → ℤ → Result (Unit {0})
  right_length none size = ok tt
  right_length (some len) size = ensure (eq_ℤ len size) "object size does not match event size"

  unfoldable pub verify_and_ingest : UploadedObject → Exec ℕ
  unfolding ingest right_length
  verify_and_ingest obj = do
    (code, content_length) ← lift (svc.head_object obj.object_key)
    lift (ensure (code == 200) "object not found")
    lift (right_length content_length obj.size)
    ingest obj.tenant_id obj.document_id obj.object_key obj.object_key

  -- A transaction of `lifecycle`.
  abbrev pub transact {ℓ} : {A : Type ℓ} → (Table → A × Table) → Exec A
  transact f = call λ w. let (a, t) = f w.documents in (a, record w { documents = t })

  -- `map_err(Retryable)`
  abbrev pub settle_call {ℓ} : {A : Type ℓ} → Result A × World → Verdict × World
  settle_call (ok a, w) = (handled, w)
  settle_call (err e, w) = (retryable e, w)

  abbrev pub is_fatal_error : Error → Bool
  is_fatal_error (embed e) = is_fatal svc.to_lowercase e
  is_fatal_error _ = false

  unfoldable pub finish : ℕ → Text → ℕ → Result ℕ → World → Verdict × World
  unfolding classify
  finish now tenant id (ok n) w = settle_call (transact (mark_ready now tenant id) w)
  finish now tenant id (err e) w =
      let (_, w') = transact (mark_failed now tenant id (svc.describe e) (classify e)) w in
      (if is_fatal_error e then fatal e else retryable e, w')

  -- After the claim; `now` is the time of the end.
  unfoldable pub handle_claim : ℕ → UploadedObject → Result Claim × World → Verdict × World
  unfolding finish verify_and_ingest
  handle_claim now obj (err e, w) = (retryable e, w)
  handle_claim now obj (ok (skip why), w) = (handled, w)
  handle_claim now obj (ok proceed, w) =
      let (result, w') = verify_and_ingest obj w in
      finish now obj.tenant_id obj.document_id result w'

  -- An object over the limit, once the row is marked: `bail!` when no row matched; the delete may fail.
  unfoldable pub drop_object : UploadedObject → Result Bool × World → Verdict × World
  drop_object obj (err e, w) = (retryable e, w)
  drop_object obj (ok false, w) = (retryable (other "status update matched 0 rows"), w)
  drop_object obj (ok true, w) = (handled, (delete_object obj.object_key w).1)

  unfoldable pub quarantine : ℕ → UploadedObject → World → Verdict × World
  unfolding drop_object
  quarantine now obj w = drop_object obj (
      transact
        (mark_quarantined now obj.tenant_id obj.document_id (svc.quarantine_note obj.size)
          too_large)
        w)

  -- `handle`, once the event is parsed; `now` is the time of the claim, `later` that of the end.
  unfoldable pub handle : ℕ → ℕ → UploadedObject → World → Verdict × World
  unfolding handle_claim quarantine
  handle now later obj w =
      let claimed = transact (claim now obj.tenant_id obj.document_id obj.size obj.etag) w in
      if lt_ℤ svc.max_upload_bytes obj.size
      then quarantine now obj w
      else handle_claim later obj claimed
