-- ===== src/Deletion.antt =====
-- Erasing one document: `delete_document` and `delete_document_stores` of crates/api/src/handlers.rs
-- with `begin`, `finish` and `redact_messages_citing` of crates/api/src/erasure.rs.
pub mod Crashes
pub mod Answers
use bot_flow.Prelude.{
  ℕ, Text, text_eq, String, Option, none, some, List, [], ◌∷◌, Bool, true, false, ◌&&◌, ◌||◌, ◌==◌,
  codes, if◌then◌else◌,
}
use bot_flow.Outcome.{Result, client}
use bot_flow.Documents.{deleting, Status, Row, Table, is_processing, is_deleting}
use bot_flow.Documents.Sql.{update, fetch, remove, owned}
use bot_flow.World.{World, Point, Message, Erasure}
use bot_flow.World.Steps.{Exec, pure, fail, lift, call, ◌>>=◌, ◌>>◌}
use bot_flow.World.Stores.{of_document, of_tenant, delete_points, delete_object}
use bot_flow.Actor.{Actor, require_management, actor_label}

-- `begin`: the caller gives the fresh UUID of the audit row.
unfoldable pub begin_erasure : ℕ → Text → String → Option ℕ → String → Exec ℕ
begin_erasure audit_id tenant scope document_id actor = call λ w. (
  audit_id,
  record w {
    erasures =
        record {
          id = audit_id;
          tenant_id = tenant;
          scope = scope;
          document_id = document_id;
          actor = actor;
          completed = false;
          vectors_deleted = none;
          objects_deleted = none;
        }
        ∷ w.erasures;
  },
)

complete : ℕ → Option ℕ → Option ℕ → List Erasure → List Erasure
complete audit_id vectors objects [] = []
complete audit_id vectors objects (e ∷ es) =
    (if e.id == audit_id
      then record e { completed = true; vectors_deleted = vectors; objects_deleted = objects }
      else e)
    ∷ complete audit_id vectors objects es

-- `finish`
unfoldable pub finish_erasure : ℕ → Option ℕ → Option ℕ → Exec (Unit {0})
unfolding complete
finish_erasure audit_id vectors objects =
    call λ w. (tt, record w { erasures = complete audit_id vectors objects w.erasures })

member : ℕ → List ℕ → Bool
member id [] = false
member id (d ∷ ds) = d == id || member id ds

-- `metadata -> 'document_ids' @> [id]`
unfoldable pub cites : ℕ → Message → Bool
unfolding member
cites id m = elim m.document_ids [ none ↦ false | some ds ↦ member id ds ]

-- The SET clause of `redact_messages_citing`, and the UPDATE under row-level security.
unfoldable pub redacted : Message → Message
redacted m = record m {
  content = codes "[redacted: the source document was deleted]";
  document_ids = none;
}

unfoldable pub redact : Text → ℕ → List Message → List Message
unfolding cites redacted
redact tenant id [] = []
redact tenant id (m ∷ ms) =
    (if text_eq m.tenant_id tenant && cites id m then redacted m else m) ∷ redact tenant id ms

unfoldable pub redact_messages_citing : Text → ℕ → Exec (Unit {0})
unfolding redact
redact_messages_citing tenant id =
    call λ w. (tt, record w { messages = redact tenant id w.messages })

-- What the first transaction of `delete_document` finds; a row that is marked keeps its other
-- columns, `processing_started_at` among them.
pub data Found : Type 0 where
  missing already : Found
  marked : Bool → Text → Found

unfoldable pub entomb : Row → Row
entomb r = record r { status = deleting }

unfoldable pub tombstone_row : Text → ℕ → Table → Option Row → Found × Table
tombstone_row tenant id t none = (missing, t)
tombstone_row tenant id t (some r) =
    if is_deleting r.status
    then (already, t)
    else (marked (is_processing r.status) r.object_key, update (owned tenant id) entomb t)

unfoldable pub tombstone : Text → ℕ → Table → Found × Table
unfolding tombstone_row
tombstone tenant id t = tombstone_row tenant id t (fetch (owned tenant id) t)

-- `delete_document_stores`: vectors, then the object.
unfoldable pub delete_document_stores : Text → ℕ → Text → Exec (Unit {0})
delete_document_stores tenant id object_key =
    delete_points (λ p. of_document id p && of_tenant tenant p) >> delete_object object_key

-- `DELETE FROM documents WHERE id = $1 AND status = 'deleting'`
abbrev pub entombed : Text → ℕ → Row → Bool
entombed tenant id r = owned tenant id r && is_deleting r.status

unfoldable pub delete_row : Text → ℕ → Exec (Unit {0})
delete_row tenant id =
    call λ w. (tt, record w { documents = remove (entombed tenant id) w.documents })

-- What follows the first transaction. The result is the status code.
unfoldable pub clear_document : ℕ → Text → ℕ → Found → Exec ℕ
clear_document audit_id tenant id missing = fail (client 404 "document not found")
clear_document audit_id tenant id already = pure 202
clear_document audit_id tenant id (marked true object_key) = pure 202
clear_document audit_id tenant id (marked false object_key) = do
  delete_document_stores tenant id object_key
  redact_messages_citing tenant id
  delete_row tenant id
  finish_erasure audit_id none none
  pure 204

unfoldable pub delete_document : ℕ → Actor → ℕ → Exec ℕ
delete_document audit_id actor id = do
  lift (require_management actor)
  audit ← begin_erasure audit_id actor.tenant_id "document" (some id) (actor_label actor.kind)
  found ← call (λ w.
      let (f, t) = tombstone actor.tenant_id id w.documents in (f, record w { documents = t }))
  clear_document audit actor.tenant_id id found
