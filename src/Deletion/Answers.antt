-- ===== src/Deletion/Answers.antt =====
-- What `delete_document` of crates/api/src/handlers.rs does and answers when every call is answered.
use bot_flow.Prelude.{ℕ, none, some, true, false, ◌≡◌, ◌≢◌, refl, arith}
use bot_flow.Outcome.{ok, err, client}
use bot_flow.Documents.{processing, deleting, Row}
use bot_flow.Documents.Sql.{update, remove, find, owned, visible}
use bot_flow.Documents.Sql.Laws.{Keyed, Keyed-update, matching, find-update, find-remove, find-id}
use bot_flow.World.{World, calm}
use bot_flow.World.Steps.{call, meet}
use bot_flow.World.Stores.{delete_points, delete_object}
use bot_flow.Actor.{Actor, publishable, require_management, require_management-ok, actor_label}
use bot_flow.Deletion.{
  begin_erasure, finish_erasure, redact_messages_citing, entomb, tombstone_row, tombstone,
  delete_document_stores, marked, delete_row, clear_document, delete_document, entombed,
}
use bot_flow.Deletion.Crashes.{IsClear, delete_document-clears, tombstone-row, entomb-id}

-- A publishable key is answered 403, and the state is what it was, whichever calls would fail.
pub delete_document_gate :
    (audit_id : ℕ) (actor : Actor) (id : ℕ) (w : World)
    → actor.kind ≡ publishable
    → delete_document audit_id actor id w
      ≡ (err (client 403 "this endpoint requires a secret key or a session"), w)
unfolding delete_document require_management
delete_document_gate audit_id actor id w h = ground arith

opened : ℕ → Actor → ℕ → World → World
unfolding begin_erasure
opened audit_id actor id w =
    (begin_erasure audit_id actor.tenant_id "document" (some id) (actor_label actor.kind)
      (calm w)).1

module _ (audit_id : ℕ) (actor : Actor) (id : ℕ) (w : World) where
  -- Up to the tombstone.
  delete_document-tombstone :
      actor.kind ≢ publishable
      → delete_document audit_id actor id (calm w)
        ≡ clear_document audit_id actor.tenant_id id
            (tombstone actor.tenant_id id w.documents).0
            (record (opened audit_id actor id w) {
              documents = (tombstone actor.tenant_id id w.documents).1;
            })
  unfolding delete_document begin_erasure call meet opened
  delete_document-tombstone gate = rw (require_management-ok actor gate)

module _ (audit_id : ℕ) (actor : Actor) (id : ℕ) (w : World) (gate : actor.kind ≢ publishable) where
  -- With the management gate passed, every call answered and no two rows of one id: an id with no
  -- row, or with a row that the tenant cannot see, is answered 404, and the documents, the vectors and
  -- the objects stay as they were.
  pub delete_document-missing :
      Keyed w.documents
      → matching (owned actor.tenant_id id) (find id w.documents) ≡ none
      → let (r, w') = delete_document audit_id actor id (calm w) in
        (r ≡ err (client 404 "document not found"))
        × (w'.documents ≡ w.documents)
        × (w'.points ≡ w.points)
        × (w'.objects ≡ w.objects)
  unfolding clear_document opened begin_erasure call meet tombstone_row
  delete_document-missing keyed h =
      rw (delete_document-tombstone audit_id actor id w gate)
        (rw (tombstone-row actor.tenant_id id w.documents keyed, h) (refl, refl, refl, refl))

  module _ (r : Row) (keyed : Keyed w.documents) (e : find id w.documents ≡ some r)
      (v : visible actor.tenant_id r ≡ true) where
    -- The tombstone of the row.
    idle_row :
        r.status ≢ processing
        → r.status ≢ deleting
        → tombstone actor.tenant_id id w.documents
          ≡ (marked false r.object_key, update (owned actor.tenant_id id) entomb w.documents)
    unfolding tombstone_row
    idle_row free kept =
        ground (arith, tombstone-row actor.tenant_id id w.documents keyed, find-id id w.documents e)

    held_row :
        r.status ≡ processing
        → tombstone actor.tenant_id id w.documents
          ≡ (marked true r.object_key, update (owned actor.tenant_id id) entomb w.documents)
    unfolding tombstone_row
    held_row held =
        ground (arith, tombstone-row actor.tenant_id id w.documents keyed, find-id id w.documents e)

    find_entombed :
        find id (update (owned actor.tenant_id id) entomb w.documents)
        ≡ some (record r { status = deleting })
    unfolding entomb
    find_entombed = ground (
      arith,
      find-update (owned actor.tenant_id id) entomb id w.documents entomb-id,
      find-id id w.documents e,
    )

    removed :
        find id (
          remove
            (entombed actor.tenant_id id)
            (update (owned actor.tenant_id id) entomb w.documents))
        ≡ none
    removed =
        let t = update (owned actor.tenant_id id) entomb w.documents in
        let still = Keyed-update (owned actor.tenant_id id) entomb w.documents entomb-id keyed in
        ground (
          arith,
          find-remove (entombed actor.tenant_id id) id t still,
          find_entombed,
          find-id id w.documents e,
        )

    idle_answer :
        r.status ≢ processing
        → r.status ≢ deleting
        → let (x, w') = delete_document audit_id actor id (calm w) in
          (x ≡ ok 204) × (find id w'.documents ≡ none)
    unfolding opened begin_erasure call meet clear_document delete_document_stores delete_points
        delete_object redact_messages_citing delete_row finish_erasure
    idle_answer free kept =
        rw (delete_document-tombstone audit_id actor id w gate, idle_row free kept) (refl, removed)

    -- With the management gate passed, every call answered and no two rows of one id: the tenant's
    -- document that is neither `processing` nor `deleting` is answered 204, its row is gone, and so are
    -- its vectors, its object and the tenant's messages that cite it.
    pub delete_document-idle :
        r.status ≢ processing
        → r.status ≢ deleting
        → let (x, w') = delete_document audit_id actor id (calm w) in
          (x ≡ ok 204) × (find id w'.documents ≡ none) × IsClear actor.tenant_id id r.object_key w'
    delete_document-idle free kept =
        let (x, gone) = idle_answer free kept in
        (x, gone, delete_document-clears audit_id actor id (calm w) r keyed e gone)

    -- With the management gate passed, every call answered and no two rows of one id: the tenant's
    -- document that is `processing` is answered 202, and its row differs only in being `deleting`, so
    -- that it keeps the start of the lease; vectors, objects and messages stay as they were.
    pub delete_document-held :
        r.status ≡ processing
        → let (x, w') = delete_document audit_id actor id (calm w) in
          (x ≡ ok 202)
          × (find id w'.documents ≡ some (record r { status = deleting }))
          × (w'.points ≡ w.points)
          × (w'.objects ≡ w.objects)
          × (w'.messages ≡ w.messages)
    unfolding clear_document opened begin_erasure call meet entomb
    delete_document-held held =
        rw (delete_document-tombstone audit_id actor id w gate, held_row held)
          (refl, find_entombed, refl, refl, refl)
