-- ===== src/World/Stores.antt =====
-- The calls that the program makes of Qdrant and MinIO, with the filters it gives them.
use bot_flow.Prelude.{
  ◌&&◌, List, [], ◌∷◌, ◌==◌, ◌||◌, ◌++◌, ℕ, Text, text_eq, none, some, Bool, false, ◌==◌, not,
  filter,
}
use bot_flow.World.{Point}
use bot_flow.World.Steps.{Exec, call}

-- `Condition::matches("document_id", …)`
abbrev pub of_document : ℕ → Point → Bool
of_document id p = elim p.document_id [ none ↦ false | some d ↦ d == id ]

abbrev pub of_tenant : Text → Point → Bool
of_tenant tenant p = text_eq p.tenant_id tenant

-- `DeletePointsBuilder`, waited for.
unfoldable pub delete_points : (Point → Bool) → Exec (Unit {0})
delete_points p = call (λ w. (tt, record w { points = filter (λ x. not (p x)) w.points }))

-- MinIO succeeds on an absent key.
unfoldable pub delete_object : Text → Exec (Unit {0})
delete_object key =
    call (λ w. (tt, record w { objects = filter (λ k. not (text_eq k key)) w.objects }))

-- The ids of the points of a document are UUIDv5 hashes of the document and the index of the chunk,
-- which are taken to tell them apart.
abbrev pub same_id : Point → Point → Bool
same_id p q = elim p.document_id [
  | none ↦ false
  | some d ↦ of_document d q && p.chunk_index == q.chunk_index
]

abbrev pub id_among : List Point → Point → Bool
id_among [] q = false
id_among (p ∷ ps) q = same_id p q || id_among ps q

-- `UpsertPointsBuilder`, waited for: a point with a known id takes the place of the old one.
unfoldable pub upsert_points : List Point → Exec (Unit {0})
upsert_points ps =
    call (λ w. (tt, record w { points = filter (λ q. not (id_among ps q)) w.points ++ ps }))
