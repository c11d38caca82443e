-- ===== src/Deletion/Crashes.antt =====
-- Where an erasure may stop: `delete_document` of crates/api/src/handlers.rs, call by call.
use bot_flow.Prelude.{
  filter-All-not, ℕ, Text, text_eq, String, Option, none, some, List, [], ◌∷◌, Bool, true, false,
  ◌&&◌, ◌≡◌, ◌≢◌, ◌⊎◌, inl, inr, refl, arith, All, Bool-cases, if◌then◌else◌,
}
use bot_flow.Documents.{Row, Table, is_processing, is_deleting}
use bot_flow.Documents.Sql.{update, find, owned}
use bot_flow.Documents.Sql.Laws.{Keyed, Keyed-update, matching, fetch-Keyed, find-update, find-id}
use bot_flow.Documents.Lifecycle.Rows.{owned-Selects}
use bot_flow.World.{World, Message}
use bot_flow.World.Steps.{call}
use bot_flow.World.Stores.{of_document, of_tenant, delete_points, delete_object}
use bot_flow.World.Triples.{
  After-same, Triple, Triple-call, Triple-pure, Triple-fail, Triple-bind, Triple-lift,
}
use bot_flow.Actor.{Actor, actor_label}
use bot_flow.Deletion.{
  begin_erasure, finish_erasure, cites, redact, redact_messages_citing, Found, missing, already,
  marked, entomb, tombstone_row, tombstone, delete_document_stores, delete_row, clear_document,
  delete_document,
}

abbrev pub quotes : Text → ℕ → Message → Bool
quotes tenant id m = text_eq m.tenant_id tenant && cites id m

redact-All-not :
    (tenant : Text) (id : ℕ) (ms : List Message)
    → All (λ m. quotes tenant id m ≡ false) (redact tenant id ms)
unfolding redact
redact-All-not tenant id [] = tt
redact-All-not tenant id (m ∷ ms) = (
  (elim (Bool-cases (quotes tenant id m)) [ inl e ↦ rw e (ground arith) | inr e ↦ rw e e ]),
  redact-All-not tenant id ms,
)

abbrev pub tomb_answer : Option Row → Found
tomb_answer none = missing
tomb_answer (some r) =
    if is_deleting r.status then already else marked (is_processing r.status) r.object_key

module _ (tenant : Text) (id : ℕ) (key : Text) where
  abbrev pub NoPoints : World → Type 0
  NoPoints w = All (λ p. (of_document id p && of_tenant tenant p) ≡ false) w.points

  abbrev pub NoObject : World → Type 0
  NoObject w = All (λ k. text_eq k key ≡ false) w.objects

  abbrev pub NoQuotes : World → Type 0
  NoQuotes w = All (λ m. quotes tenant id m ≡ false) w.messages

  -- Nothing of the document is left in the stores or in the conversations.
  abbrev pub IsClear : World → Type 0
  IsClear w = NoPoints w × NoObject w × NoQuotes w

  -- The row is there, with the key of its object.
  abbrev pub Recorded : World → Type 0
  Recorded w =
      Keyed w.documents × ((r : Row) × (find id w.documents ≡ some r) × (r.object_key ≡ key))

  abbrev Accounted : World → Type 0
  Accounted w = (find id w.documents ≢ none) ⊎ IsClear w

  recorded→present : (w : World) → Recorded w → find id w.documents ≢ none
  recorded→present w (keyed, (r, e, k)) n = cc

  recorded→accounted : (w : World) → Recorded w → Accounted w
  recorded→accounted w h = inl (recorded→present w h)

  points_step :
      Triple Recorded
        (delete_points (λ p. of_document id p && of_tenant tenant p))
        (λ _ w. Recorded w × NoPoints w)
        Accounted
  unfolding delete_points
  points_step =
      Triple-call _ (λ w fs h. h) recorded→accounted
        λ w h. ((h, filter-All-not _ w.points), inl (recorded→present w h))

  object_step :
      Triple
        (λ w. Recorded w × NoPoints w)
        (delete_object key)
        (λ _ w. Recorded w × NoPoints w × NoObject w)
        Accounted
  unfolding delete_object
  object_step =
      Triple-call _ (λ w fs h. h) (λ w h. recorded→accounted w h.0)
        λ w h.
          ((h.0, h.1, filter-All-not (λ k. text_eq k key) w.objects), inl (recorded→present w h.0))

  redact_step :
      Triple
        (λ w. Recorded w × NoPoints w × NoObject w)
        (redact_messages_citing tenant id)
        (λ _ w. Recorded w × IsClear w)
        Accounted
  unfolding redact_messages_citing
  redact_step =
      Triple-call _ (λ w fs h. h) (λ w h. recorded→accounted w h.0)
        λ w h.
          ((h.0, (h.1, h.2, redact-All-not tenant id w.messages)), inl (recorded→present w h.0))

  row_step :
      Triple (λ w. Recorded w × IsClear w) (delete_row tenant id) (λ _ w. IsClear w) Accounted
  unfolding delete_row
  row_step = Triple-call _ (λ w fs h. h) (λ w h. recorded→accounted w h.0) λ w h. (h.1, inr h.1)

  finish_step :
      (audit_id : ℕ)
      → Triple IsClear (finish_erasure audit_id none none) (λ _ w. IsClear w) Accounted
  unfolding finish_erasure
  finish_step audit_id = Triple-call _ (λ w fs h. h) (λ w h. inr h) λ w h. (h, inr h)

  clear_step :
      (audit_id : ℕ) (found : Found)
      → ((b : Bool) (k : Text) → found ≡ marked b k → k ≡ key)
      → Triple Recorded (clear_document audit_id tenant id found) (λ _ w. Accounted w) Accounted
  unfolding clear_document delete_document_stores
  clear_step audit_id missing same = Triple-fail _ recorded→accounted
  clear_step audit_id already same = Triple-pure 202 recorded→accounted
  clear_step audit_id (marked true k) same = Triple-pure 202 recorded→accounted
  clear_step audit_id (marked false k) same = rw (same false k refl) saga
    where
      saga :
          Triple Recorded
            (clear_document audit_id tenant id (marked false key))
            (λ _ w. Accounted w)
            Accounted
      saga = Triple-bind _ _ _ (Triple-bind _ _ _ points_step (λ _. object_step)) λ _.
          Triple-bind _ _ _ redact_step λ _.
            Triple-bind _ _ _ row_step
              λ _. Triple-bind _ _ _ (finish_step audit_id) λ _. Triple-pure 204 (λ w h. inr h)

pub entomb-id : (r : Row) → (entomb r).id ≡ r.id
unfolding entomb
entomb-id r = refl

module _ (tenant : Text) (id : ℕ) (t : Table) (keyed : Keyed t) where
  pub tombstone-row :
      tombstone tenant id t ≡ tombstone_row tenant id t (matching (owned tenant id) (find id t))
  unfolding tombstone
  tombstone-row = rw (fetch-Keyed (owned tenant id) id t (owned-Selects tenant id) keyed)

  -- The first transaction answers by the row that the tenant has.
  pub tombstone-answer :
      (tombstone tenant id t).0 ≡ tomb_answer (matching (owned tenant id) (find id t))
  unfolding tombstone
  tombstone-answer =
      rw (fetch-Keyed (owned tenant id) id t (owned-Selects tenant id) keyed) (ground arith)

  pub tombstone-table :
      ((tombstone tenant id t).1 ≡ t)
      ⊎ ((tombstone tenant id t).1 ≡ update (owned tenant id) entomb t)
  unfolding tombstone
  tombstone-table = ground arith

  pub tombstone-Keyed : Keyed (tombstone tenant id t).1
  tombstone-Keyed =
      let same = Keyed-update (owned tenant id) entomb t entomb-id keyed in
      elim tombstone-table [ inl e ↦ rw e keyed | inr e ↦ rw e same ]

module _ (tenant : Text) (id : ℕ) (key : Text) where
  tombstone-Recorded :
      (w : World)
      → Recorded tenant id key w
      → Recorded tenant id key (record w { documents = (tombstone tenant id w.documents).1 })
  unfolding entomb
  tombstone-Recorded w (keyed, (r, e, k)) = (
    tombstone-Keyed tenant id w.documents keyed,
    elim (tombstone-table tenant id w.documents keyed) [
      | inl same ↦ rw same (r, e, k)
      | inr written ↦ rw written (
        if owned tenant id r then entomb r else r,
        ground (arith, find-update (owned tenant id) entomb id w.documents entomb-id),
        ground arith,
      )
    ],
  )

  tombstone-marked :
      (w : World) (b : Bool) (k : Text)
      → Recorded tenant id key w
      → (tombstone tenant id w.documents).0 ≡ marked b k
      → k ≡ key
  tombstone-marked w b k (keyed, (r, e, same)) h =
      ground (arith, tombstone-answer tenant id w.documents keyed, find-id id w.documents e)

  tombstone_step :
      Triple
        (Recorded tenant id key)
        (call λ w. (
          (tombstone tenant id w.documents).0,
          record w { documents = (tombstone tenant id w.documents).1 },
        ))
        (λ found w.
          Recorded tenant id key w × ((b : Bool) (k : Text) → found ≡ marked b k → k ≡ key))
        (Accounted tenant id key)
  tombstone_step =
      Triple-call _ (λ w fs h. h) (recorded→accounted tenant id key)
        λ w h. (
          (tombstone-Recorded w h, λ b k e. tombstone-marked w b k h e),
          recorded→accounted tenant id key
              (record w { documents = (tombstone tenant id w.documents).1 })
              (tombstone-Recorded w h),
        )

  begin_step :
      (audit_id : ℕ) (actor : String)
      → Triple
          (Recorded tenant id key)
          (begin_erasure audit_id tenant "document" (some id) actor)
          (λ _ w. Recorded tenant id key w)
          (Accounted tenant id key)
  unfolding begin_erasure
  begin_step audit_id actor =
      Triple-call _ (λ w fs h. h) (recorded→accounted tenant id key)
        λ w h. (h, recorded→accounted tenant id key w h)

delete_document-Triple :
    (audit_id : ℕ) (actor : Actor) (id : ℕ) (key : Text)
    → Triple
        (Recorded actor.tenant_id id key)
        (delete_document audit_id actor id)
        (λ _ w. Accounted actor.tenant_id id key w)
        (Accounted actor.tenant_id id key)
unfolding delete_document
delete_document-Triple audit_id actor id key =
    let tenant = actor.tenant_id in
    Triple-lift _ _ (recorded→accounted tenant id key) λ _ _.
      Triple-bind _ _ _ (begin_step tenant id key audit_id (actor_label actor.kind)) λ audit.
        Triple-bind _ _ _ (tombstone_step tenant id key)
          λ found. record { run = λ w h. (clear_step tenant id key audit found h.1).run w h.0 }

-- Wherever the erasure of a document that has a row stops, at whatever call and with whatever loss of
-- answers, in a table with no two rows of one id: if the row is gone, then no vector of the document
-- in the tenant, nor its object, nor a message of the tenant that cites it is left.
pub delete_document-clears :
    (audit_id : ℕ) (actor : Actor) (id : ℕ) (w : World) (r : Row)
    → Keyed w.documents
    → find id w.documents ≡ some r
    → find id (delete_document audit_id actor id w).1.documents ≡ none
    → IsClear actor.tenant_id id r.object_key (delete_document audit_id actor id w).1
delete_document-clears audit_id actor id w r keyed e gone =
    let after =
      (delete_document-Triple audit_id actor id r.object_key).run w (keyed, (r, e, refl)) in
    elim (After-same (Accounted actor.tenant_id id r.object_key) _ after) [
      | inl there ↦ absurd (there gone)
      | inr clear ↦ clear
    ]
