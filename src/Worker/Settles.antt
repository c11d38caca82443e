-- ===== src/Worker/Settles.antt =====
-- What the worker leaves behind: `handle` and `finish` of crates/worker/src/main.rs.
use bot_flow.Prelude.{
  filter-All-not, text_eq, All, ℕ, Text, lt_ℤ, ◌==◌, none, some, List, [], map, Bool, true, false,
  is_empty, Bool-cases, ◌⊎◌, inl, inr, ◌≡◌, refl, ap, arith, if◌then◌else◌,
}
use bot_flow.Outcome.{Error, Result, ok, err}
use bot_flow.Documents.{quarantined, too_large, Table, ready, failed, processing, Row}
use bot_flow.Documents.Sql.{owned, find, visible}
use bot_flow.Documents.Sql.Laws.{find-update, affected-Keyed, Keyed, find-id}
use bot_flow.Documents.Lifecycle.{
  mark_quarantined, set_status, Claim, proceed, claim, claimed, settled, mark_ready, mark_failed,
}
use bot_flow.Documents.Lifecycle.Rows.{owned-Selects, claim-Keyed}
use bot_flow.Documents.Lifecycle.Claims.{claim-leases, claim-proceed_iff}
use bot_flow.Documents.Lifecycle.Fence.{finish_leased}
use bot_flow.World.{World, calm}
use bot_flow.World.Steps.{Exec, lift, call, meet, ◌>>=◌}
use bot_flow.World.Stores.{delete_object, delete_points, upsert_points}
use bot_flow.Embedding.{embed_batch}
use bot_flow.Chunk.{Chunk, chunk_size, chunk_overlap, chunk_with_spans}
use bot_flow.Worker.{
  drop_object, quarantine, UploadedObject, Services, Verdict, handled, fatal, retryable, classify,
  ensure, index_chunks, index_text, ingest, right_length, verify_and_ingest, is_fatal_error, finish,
  handle_claim, handle,
}

-- When every call is answered, the documents table stays as it was, and so do the calls to come.
abbrev Quiet {ℓ} : {A : Type ℓ} → Exec A → Type 0
Quiet m = (w : World) → ((m (calm w)).1.documents ≡ w.documents) × ((m (calm w)).1.fates ≡ [])

Quiet-lift {ℓ κ} :
    {A : Type ℓ} {B : Type κ} (r : Result A) (f : A → Exec B)
    → ((a : A) → Quiet (f a))
    → Quiet (lift r >>= f)
Quiet-lift (ok a) f h w = h a w
Quiet-lift (err e) f h w = (refl, refl)

index_chunks-Quiet :
    (tenant : Text) (id : ℕ) (cs : List Chunk) (vs : List (List ℕ))
    → Quiet (index_chunks tenant id cs vs)
unfolding index_chunks delete_points upsert_points call meet
index_chunks-Quiet tenant id cs vs w = (refl, refl)

-- A state in which no call to come is decided.
calm-same : (w : World) → w.fates ≡ [] → w ≡ calm w
calm-same w h = ap (λ fs. record w { fates = fs }) h

module _ (svc : Services) where
  index_text-Quiet : (tenant : Text) (id : ℕ) (text : Text) → Quiet (index_text svc tenant id text)
  unfolding index_text
  index_text-Quiet tenant id text =
      let chunks = chunk_with_spans text chunk_size chunk_overlap in
      elim (Bool-cases (is_empty chunks)) [
        | inl e ↦ rw e (λ w. (refl, refl))
        | inr e ↦ rw e (
            Quiet-lift (embed_batch svc.post (map (λ c. c.text) chunks)) _
              (index_chunks-Quiet tenant id chunks))
      ]

  ingest-Quiet : (tenant : Text) (id : ℕ) (key hint : Text) → Quiet (ingest svc tenant id key hint)
  unfolding ingest
  ingest-Quiet tenant id key hint = Quiet-lift (svc.get_object key) _ λ got.
      Quiet-lift (ensure (got.0 == 200) "download failed") _
        λ _. Quiet-lift (svc.parse_to_text got.1 hint id) _ (index_text-Quiet tenant id)

  verify_and_ingest-Quiet : (obj : UploadedObject) → Quiet (verify_and_ingest svc obj)
  unfolding verify_and_ingest
  verify_and_ingest-Quiet obj = Quiet-lift (svc.head_object obj.object_key) _ λ got.
      Quiet-lift (ensure (got.0 == 200) "object not found") _ λ _.
        Quiet-lift (right_length svc got.1 obj.size) _
          λ _. ingest-Quiet obj.tenant_id obj.document_id obj.object_key obj.object_key

  -- How a document that was taken ends: indexed, or failed with the error that the queue is told.
  abbrev pub Ends : ℕ → Row → ℕ → Verdict × World → Type 0
  Ends now c id (verdict, w) =
      ((find id w.documents ≡ some (settled now ready none none c)) × (verdict ≡ handled))
      ⊎ ((e : Error) × (find id w.documents
            ≡ some (settled now failed (some (svc.describe e)) (some (classify e)) c))
          × (verdict ≡ (if is_fatal_error svc e then fatal e else retryable e)))

  finish-Ends :
      (now : ℕ) (tenant : Text) (id : ℕ) (c : Row) (result : Result ℕ) (w : World)
      → Keyed w.documents
      → find id w.documents ≡ some c
      → visible tenant c ≡ true
      → c.status ≡ processing
      → Ends now c id (finish svc now tenant id result (calm w))
  unfolding finish call meet mark_ready mark_failed
  finish-Ends now tenant id c (ok n) w keyed e v p =
      inl ((finish_leased now tenant id ready none none w.documents keyed c e v p).1, refl)
  finish-Ends now tenant id c (err x) w keyed e v p = inr (
    x,
    (finish_leased now tenant id failed (some (svc.describe x)) (some (classify x)) w.documents
        keyed c e v p).1,
    refl,
  )

  handle_claim-Ends :
      (now : ℕ) (obj : UploadedObject) (c : Row) (w : World)
      → Keyed w.documents
      → find obj.document_id w.documents ≡ some c
      → visible obj.tenant_id c ≡ true
      → c.status ≡ processing
      → Ends now c obj.document_id (handle_claim svc now obj (ok proceed, calm w))
  unfolding handle_claim
  handle_claim-Ends now obj c w keyed e v p =
      let (r, w') = verify_and_ingest svc obj (calm w) in
      let (docs, quiet) = verify_and_ingest-Quiet obj w in
      rw (calm-same w' quiet)
        (finish-Ends now obj.tenant_id obj.document_id c r w' (rw docs keyed) (rw docs e) v p)

  module _ (now later : ℕ) (obj : UploadedObject) (w : World) where
    abbrev taken : Claim × Table
    taken = claim now obj.tenant_id obj.document_id obj.size obj.etag w.documents

    handle-taken :
        lt_ℤ svc.max_upload_bytes obj.size ≡ false
        → handle svc now later obj (calm w)
          ≡ handle_claim svc later obj (ok taken.0, record (calm w) { documents = taken.1 })
    unfolding handle call meet
    handle-taken small = rw small refl

    -- When every call of the database and of the stores is answered and no two rows have one id: an
    -- upload within the size limit whose claim proceeds never leaves its document `processing`. The row
    -- is the claimed row made `ready`, and the event is acknowledged; or it is the claimed row made
    -- `failed`, with the text and the class of an error, and the queue is told that error, which is
    -- fatal only if the embeddings endpoint refused the document for good.
    pub handle-Ends :
        (r : Row)
        → Keyed w.documents
        → lt_ℤ svc.max_upload_bytes obj.size ≡ false
        → taken.0 ≡ proceed
        → find obj.document_id w.documents ≡ some r
        → Ends later
            (claimed now obj.size obj.etag r)
            obj.document_id
            (handle svc now later obj (calm w))
    unfolding claimed
    handle-Ends r keyed small goes e =
        let (s, e', seen, free) =
          (claim-proceed_iff now obj.tenant_id obj.document_id obj.size obj.etag w.documents
              keyed).0
            goes in
        rw (handle-taken small, goes)
          (handle_claim-Ends later obj (claimed now obj.size obj.etag r)
            (record w { documents = taken.1 })
            (claim-Keyed now obj.tenant_id obj.document_id obj.size obj.etag w.documents keyed)
            (claim-leases now obj.tenant_id obj.document_id obj.size obj.etag w.documents keyed r
              goes e)
            (ground arith) refl)

    abbrev refusal : Bool × Table
    refusal =
        mark_quarantined now obj.tenant_id obj.document_id (svc.quarantine_note obj.size) too_large
          w.documents

    refused_row : Row → Row
    refused_row = settled now quarantined (some (svc.quarantine_note obj.size)) (some too_large)

    refusal-row :
        (r : Row)
        → Keyed w.documents
        → find obj.document_id w.documents ≡ some r
        → visible obj.tenant_id r ≡ true
        → (refusal.0 ≡ true) × (find obj.document_id refusal.1 ≡ some (refused_row r))
    unfolding mark_quarantined set_status refused_row settled
    refusal-row r keyed e v =
        let mine = owned obj.tenant_id obj.document_id in
        (
          ground (
            arith,
            affected-Keyed mine obj.document_id w.documents
                (owned-Selects obj.tenant_id obj.document_id) keyed,
            find-id obj.document_id w.documents e,
          ),
          ground (
            arith,
            find-update mine refused_row obj.document_id w.documents (λ s. refl),
            find-id obj.document_id w.documents e,
          ),
        )

    handle-big :
        lt_ℤ svc.max_upload_bytes obj.size ≡ true
        → handle svc now later obj (calm w)
          ≡ drop_object svc obj (ok refusal.0, record (calm w) { documents = refusal.1 })
    unfolding handle quarantine call meet
    handle-big big = rw big refl

    -- When every call is answered and no two rows have one id: an upload over the size limit makes the
    -- tenant's row `quarantined`, whatever its status was, `deleting` included; the event is
    -- acknowledged, the object is gone, and the vectors stay as they were.
    pub handle-oversize :
        (r : Row)
        → Keyed w.documents
        → lt_ℤ svc.max_upload_bytes obj.size ≡ true
        → find obj.document_id w.documents ≡ some r
        → visible obj.tenant_id r ≡ true
        → let (verdict, w') = handle svc now later obj (calm w) in
          (verdict ≡ handled)
          × (find obj.document_id w'.documents
              ≡ some (
                  settled now quarantined (some (svc.quarantine_note obj.size)) (some too_large) r))
          × All (λ k. text_eq k obj.object_key ≡ false) w'.objects
          × (w'.points ≡ w.points)
    unfolding drop_object call meet delete_object refused_row
    handle-oversize r keyed big e v =
        let (hit, row) = refusal-row r keyed e v in
        rw (handle-big big, hit)
          (refl, row, filter-All-not (λ k. text_eq k obj.object_key) w.objects, refl)
