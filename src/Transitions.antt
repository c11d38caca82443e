-- ===== src/Transitions.antt =====
-- The transactions of the api and of the worker that write the table of documents, as one step
-- relation: crates/worker/src/lifecycle.rs, crates/worker/src/reaper.rs, crates/api/src/upload/mod.rs,
-- `delete_document` of crates/api/src/handlers.rs and `erase_tenant` of crates/api/src/erasure.rs.
pub mod Diagram
use bot_flow.Prelude.{
  ℕ, suc, ◌+◌, Text, codes, Option, none, some, Option-cases, List, [], ◌∷◌, Bool, true, false, not,
  ◌&&◌, ◌||◌, ltb, All, Bool-cases, and-true, ℤ, inl, inr, ◌⊎◌, ◌≡◌, ◌≢◌, refl, arith,
  if◌then◌else◌,
}
use bot_flow.Documents.{
  Status, uploading, uploaded, processing, ready, failed, expired, quarantined, deleting,
  FailureReason, Row, Table, is_processing, is_ready, is_deleting, is_uploading,
}
use bot_flow.Documents.Sql.{update, remove, fetch, owned, visible}
use bot_flow.Documents.Sql.Laws.{Fresh}
use bot_flow.Documents.Lifecycle.{
  Claim, proceed, coalesce, claimed, claim_decision, claim_row, claim, settled, leased,
  finish_from_processing, mark_ready, mark_failed, set_status, mark_quarantined,
}
use bot_flow.Reaper.{abandoned, expire, stale, reclaim, is_null}
use bot_flow.Uploads.{inserted, awaiting, renewed, replaced, matches}
use bot_flow.Deletion.{entomb, entombed, tombstone_row, tombstone}

-- One transaction, at its time.
pub data Step : Table → Table → Type 0 where
  creates :
      (now id : ℕ) (tenant filename key content_type : Text) (deadline : Option ℕ)
      (external : Option Text) (t : Table)
      → Fresh id t
      → Step t (inserted now id tenant filename key content_type deadline external ∷ t)
  renews :
      (now id ttl : ℕ) (tenant : Text) (t : Table)
      → Step t (update (awaiting tenant id) (renewed now ttl) t)
  replaces :
      (tenant filename external : Text) (r : Row) (t : Table)
      → fetch (matches tenant external) t ≡ some r
      → Step t (update (owned tenant r.id) (replaced filename) t)
  claims :
      (now id : ℕ) (tenant etag : Text) (size : ℤ) (t : Table)
      → Step t (claim now tenant id size etag t).1
  succeeds : (now id : ℕ) (tenant : Text) (t : Table) → Step t (mark_ready now tenant id t).1
  fails :
      (now id : ℕ) (tenant error : Text) (reason : FailureReason) (t : Table)
      → Step t (mark_failed now tenant id error reason t).1
  condemns :
      (now id : ℕ) (tenant error : Text) (reason : FailureReason) (t : Table)
      → Step t (mark_quarantined now tenant id error reason t).1
  buries : (id : ℕ) (tenant : Text) (t : Table) → Step t (tombstone tenant id t).1
  deletes : (id : ℕ) (tenant : Text) (t : Table) → Step t (remove (entombed tenant id) t)
  expires :
      (now : ℕ) (tenant : Text) (t : Table)
      → Step t (update (λ r. visible tenant r && abandoned now r) expire t)
  reclaims :
      (now : ℕ) (tenant : Text) (t : Table)
      → Step t (update (λ r. visible tenant r && stale now r) reclaim t)
  leaves : (tenant : Text) (t : Table) → Step t (remove (visible tenant) t)

-- The tables that steps reach from the empty one.
pub data Reachable : Table → Type 0 where
  empty : Reachable []
  after : (t t' : Table) → Reachable t → Step t t' → Reachable t'

abbrev pub is_given {ℓ} : {A : Type ℓ} → Option A → Bool
is_given none = false
is_given (some a) = true

-- What the columns of a row say about the work on it, by its status.
abbrev pub consistent : Status → Row → Bool
consistent processing r =
    is_given r.processing_started_at
    && is_given r.etag
    && is_given r.uploaded_at
    && ltb 0 r.attempts
consistent ready r =
    is_null r.processing_started_at
    && is_given r.etag
    && is_given r.processed_at
    && ltb 0 r.attempts
consistent failed r =
    is_null r.processing_started_at && is_given r.error && is_given r.failure_reason
consistent quarantined r =
    is_null r.processing_started_at && is_given r.error && is_given r.failure_reason
consistent _ r = true

abbrev pub IsConsistent : Row → Type 0
IsConsistent r = consistent r.status r ≡ true

update-All :
    {P : Row → Type 0} (p : Row → Bool) (f : Row → Row)
    → ((r : Row) → P r → p r ≡ true → P (f r))
    → (t : Table) → All P t
    → All P (update p f t)
unfolding update
update-All p f keeps [] h = tt
update-All p f keeps (r ∷ t) (hr, h) = elim (Bool-cases (p r)) [
  | inl e ↦ rw e (keeps r hr e, update-All p f keeps t h)
  | inr e ↦ rw e (hr, update-All p f keeps t h)
]

remove-All : (P : Row → Type 0) (p : Row → Bool) (t : Table) → All P t → All P (remove p t)
unfolding remove
remove-All P p [] h = tt
remove-All P p (r ∷ t) (hr, h) = elim (Bool-cases (p r)) [
  | inl e ↦ rw e (remove-All P p t h)
  | inr e ↦ rw e (hr, remove-All P p t h)
]

claimed-IsConsistent :
    (now : ℕ) (size : ℤ) (etag : Text) (r : Row) → IsConsistent (claimed now size etag r)
unfolding claimed
claimed-IsConsistent now size etag r = elim (Option-cases r.uploaded_at) [
  | inl e ↦ rw e (ground arith)
  | inr (t, e) ↦ rw e (ground arith)
]

-- A leased row is `processing`.
held :
    (s : Status) (r : Row)
    → is_processing s ≡ true
    → consistent s r ≡ true
    → consistent processing r ≡ true
held processing r p h = h
held uploading r p h = cc
held uploaded r p h = cc
held ready r p h = cc
held failed r p h = cc
held expired r p h = cc
held quarantined r p h = cc
held deleting r p h = cc

settled_ready :
    (now : ℕ) (r : Row)
    → consistent processing r ≡ true
    → IsConsistent (settled now ready none none r)
unfolding settled
settled_ready now r h = ground arith

ready-IsConsistent :
    (now id : ℕ) (tenant : Text) (r : Row)
    → IsConsistent r
    → leased tenant id r ≡ true
    → IsConsistent (settled now ready none none r)
unfolding settled
ready-IsConsistent now id tenant r h p = settled_ready now r (held r.status r (and-true _ _ p).1 h)

claim_row-IsConsistent :
    (now id : ℕ) (tenant etag : Text) (size : ℤ) (t : Table) (o : Option Row)
    → All IsConsistent t
    → All IsConsistent (claim_row now tenant id size etag t o).1
unfolding claim_row
claim_row-IsConsistent now id tenant etag size t none h = h
claim_row-IsConsistent now id tenant etag size t (some r) h =
    elim (claim_decision r.status r.etag etag)
      as (λ d.
        All IsConsistent
          (elim d as (λ _. Claim × Table) [
            | some c ↦ (c, t)
            | none ↦ (proceed, update (owned tenant id) (claimed now size etag) t)
          ]).1) [
            | none ↦
                update-All (owned tenant id) (claimed now size etag)
                  (λ r _ _. claimed-IsConsistent now size etag r) t h
            | some c ↦ h
          ]

tombstone_row-IsConsistent :
    (id : ℕ) (tenant : Text) (t : Table) (o : Option Row)
    → All IsConsistent t
    → All IsConsistent (tombstone_row tenant id t o).1
unfolding tombstone_row entomb
tombstone_row-IsConsistent id tenant t none h = h
tombstone_row-IsConsistent id tenant t (some r) h = elim (Bool-cases (is_deleting r.status)) [
  | inl e ↦ rw e h
  | inr e ↦ rw e (update-All (owned tenant id) entomb (λ r _ _. refl) t h)
]

Step-IsConsistent : (t t' : Table) → Step t t' → All IsConsistent t → All IsConsistent t'
unfolding inserted renewed replaced claim mark_ready mark_failed finish_from_processing
    mark_quarantined set_status settled tombstone expire reclaim
Step-IsConsistent _ _ (creates now id tenant filename key content_type deadline external t _) h =
    (refl, h)
Step-IsConsistent _ _ (renews now id ttl tenant t) h = update-All _ _ (λ r _ _. refl) t h
Step-IsConsistent _ _ (replaces tenant filename external r t _) h =
    update-All _ _ (λ r _ _. refl) t h
Step-IsConsistent _ _ (claims now id tenant etag size t) h =
    claim_row-IsConsistent now id tenant etag size t _ h
Step-IsConsistent _ _ (succeeds now id tenant t) h =
    update-All _ _ (ready-IsConsistent now id tenant) t h
Step-IsConsistent _ _ (fails now id tenant error reason t) h = update-All _ _ (λ r _ _. refl) t h
Step-IsConsistent _ _ (condemns now id tenant error reason t) h = update-All _ _ (λ r _ _. refl) t h
Step-IsConsistent _ _ (buries id tenant t) h = tombstone_row-IsConsistent id tenant t _ h
Step-IsConsistent _ _ (deletes id tenant t) h = remove-All IsConsistent _ t h
Step-IsConsistent _ _ (expires now tenant t) h = update-All _ _ (λ r _ _. refl) t h
Step-IsConsistent _ _ (reclaims now tenant t) h = update-All _ _ (λ r _ _. refl) t h
Step-IsConsistent _ _ (leaves tenant t) h = remove-All IsConsistent _ t h

-- In every table that the transactions reach from the empty one: a `processing` row has a lease, an
-- etag, an upload time and at least one attempt, so that the reaper can reclaim it; a `ready` row has no
-- lease, but an etag, a processing time and at least one attempt; and a `failed` or `quarantined` row has
-- no lease, but an error and a reason.
pub Reachable-IsConsistent : (t : Table) → Reachable t → All IsConsistent t
Reachable-IsConsistent _ empty = tt
Reachable-IsConsistent _ (after t t' r s) = Step-IsConsistent t t' s (Reachable-IsConsistent t r)
