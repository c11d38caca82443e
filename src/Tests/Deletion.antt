-- ===== src/Tests/Deletion.antt =====
-- Erasures of crates/api/src/handlers.rs on a concrete state.
use bot_flow.Prelude.{codes, text_eq, true, none, some, [], ◌∷◌, ◌≡◌, ◌≢◌, refl, arith}
use bot_flow.Outcome.{ok, err, client}
use bot_flow.Documents.{deleting, processing}
use bot_flow.Documents.Sql.{find, visible, fetch, update, remove}
use bot_flow.Documents.Sql.Laws.{Keyed}
use bot_flow.World.{calm, answered, refused, lost}
use bot_flow.World.Steps.{call, meet}
use bot_flow.World.Stores.{delete_points, delete_object}
use bot_flow.Actor.{publishable, require_management}
use bot_flow.Deletion.{
  delete_document, begin_erasure, finish_erasure, redact_messages_citing, tombstone, tombstone_row,
  entomb, delete_document_stores, delete_row, clear_document,
}
use bot_flow.Deletion.Crashes.{IsClear, delete_document-clears}
use bot_flow.Deletion.Answers.{
  delete_document_gate, delete_document-missing, delete_document-idle, delete_document-held,
}
use bot_flow.Tests.{acme, table, indexed, held, world, owner, visitor}

keyed : Keyed table
keyed = ground arith

found : find 1 table ≡ some indexed
unfolding fetch
found = refl

found_held : find 2 table ≡ some held
unfolding fetch
found_held = refl

-- The answer of the call that deletes the row is lost: the row is gone.
gone :
    find 1
      (delete_document 70 owner 1
        (world (answered ∷ answered ∷ answered ∷ answered ∷ answered ∷ lost ∷ []))).1.documents
    ≡ none
unfolding delete_document require_management begin_erasure call meet tombstone tombstone_row fetch
    update remove entomb clear_document delete_document_stores delete_points delete_object
    redact_messages_citing delete_row finish_erasure text_eq
gone = refl

delete_document-clears_example :
    IsClear acme 1
      (codes "k")
      (delete_document 70 owner 1
        (world (answered ∷ answered ∷ answered ∷ answered ∷ answered ∷ lost ∷ []))).1
delete_document-clears_example =
    delete_document-clears 70 owner 1
      (world (answered ∷ answered ∷ answered ∷ answered ∷ answered ∷ lost ∷ [])) indexed keyed found
      gone

seen : visible owner.tenant_id indexed ≡ true
unfolding text_eq
seen = refl

seen_held : visible owner.tenant_id held ≡ true
unfolding text_eq
seen_held = refl

manages : owner.kind ≢ publishable
manages = ground arith

free : indexed.status ≢ processing
free = ground arith

kept : indexed.status ≢ deleting
kept = ground arith

delete_document_gate_example :
    delete_document 70 visitor 1 (world [])
    ≡ (err (client 403 "this endpoint requires a secret key or a session"), world [])
delete_document_gate_example = delete_document_gate 70 visitor 1 (world []) refl

no_such_row : find 9 table ≡ none
unfolding fetch
no_such_row = refl

delete_document-missing_example :
    let (r, w') = delete_document 70 owner 9 (calm (world (refused ∷ []))) in
    (r ≡ err (client 404 "document not found"))
    × (w'.documents ≡ table)
    × (w'.points ≡ (world []).points)
    × (w'.objects ≡ (world []).objects)
delete_document-missing_example =
    delete_document-missing 70 owner 9 (world (refused ∷ [])) manages keyed (rw no_such_row refl)

delete_document-idle_example :
    let (x, w') = delete_document 70 owner 1 (calm (world [])) in
    (x ≡ ok 204) × (find 1 w'.documents ≡ none) × IsClear acme 1 (codes "k") w'
delete_document-idle_example =
    delete_document-idle 70 owner 1 (world []) manages indexed keyed found seen free kept

delete_document-held_example :
    let (x, w') = delete_document 70 owner 2 (calm (world [])) in
    (x ≡ ok 202)
    × (find 2 w'.documents ≡ some (record held { status = deleting }))
    × (w'.points ≡ (world []).points)
    × (w'.objects ≡ (world []).objects)
    × (w'.messages ≡ (world []).messages)
delete_document-held_example =
    delete_document-held 70 owner 2 (world []) manages held keyed found_held seen_held refl
