-- ===== src/Transitions/Diagram.antt =====
-- The life of a document as a diagram of statuses, and that the transactions on the table follow it.
use bot_flow.Prelude.{
  ℤ, ℕ, Text, Option, none, some, some-injective, Option-cases, List, [], ◌∷◌, Bool, true, false,
  not, ◌&&◌, ◌||◌, and-true, Bool-cases, inl, inr, ◌⊎◌, ◌==◌, ◌≡◌, ◌≢◌, refl, sym, ap, ◌∙◌, arith,
  if◌then◌else◌,
}
use bot_flow.Documents.{
  FailureReason, Status, uploading, uploaded, processing, ready, failed, expired, quarantined,
  deleting, Row, Table, is_processing, is_deleting, is_uploading,
}
use bot_flow.Documents.Sql.{update, remove, fetch, find, owned, visible}
use bot_flow.Documents.Sql.Laws.{
  Fresh, Keyed, updated, kept, find-update, find-remove, find-Fresh, find-id, matching, fetch-Keyed,
}
use bot_flow.Documents.Lifecycle.{
  proceed, claimed, claim_decision, claim, settled, leased, finish_from_processing, mark_ready,
  mark_failed, set_status, mark_quarantined,
}
use bot_flow.Documents.Lifecycle.Rows.{
  answer, owned-Selects, claim-answer, claim-table, find-claimed,
}
use bot_flow.Reaper.{lapsed, upload_grace, processing_lease, abandoned, expire, stale, reclaim}
use bot_flow.Uploads.{inserted, awaiting, is_expired, renewed, replaced, matches}
use bot_flow.Deletion.{entomb, entombed, tombstone_row, tombstone}
use bot_flow.Transitions.{
  Step, creates, renews, replaces, claims, succeeds, fails, condemns, buries, deletes, expires,
  reclaims, leaves,
}

-- What a claim takes.
abbrev pub is_claimable : Status → Bool
is_claimable processing = false
is_claimable quarantined = false
is_claimable deleting = false
is_claimable _ = true

-- What becomes of a document: none where there is no row.
pub data Move : Option Status → Option Status → Type 0 where
  rests : (o : Option Status) → Move o o
  appears : Move none (some uploading)
  awaits : (s : Status) → is_deleting s ≡ false → Move (some s) (some uploading)
  starts : (s : Status) → is_claimable s ≡ true → Move (some s) (some processing)
  completes : Move (some processing) (some ready)
  breaks : Move (some processing) (some failed)
  condemned : (s : Status) → Move (some s) (some quarantined)
  buried : (s : Status) → Move (some s) (some deleting)
  lapses : Move (some uploading) (some expired)
  goes : (s : Status) → Move (some s) none

abbrev pub status_of : Option Row → Option Status
status_of none = none
status_of (some r) = some r.status

abbrev pub Moves : ℕ → Table → Table → Type 0
Moves id t t' = Move (status_of (find id t)) (status_of (find id t'))

updated-Move :
    (p : Row → Bool) (f : Row → Row) (o : Option Row)
    → ((r : Row) → o ≡ some r → p r ≡ true → Move (some r.status) (some (f r).status))
    → Move (status_of o) (status_of (updated p f o))
updated-Move p f none moves = rests none
updated-Move p f (some r) moves = elim (Bool-cases (p r)) [
  | inl e ↦ rw e (moves r refl e)
  | inr e ↦ rw e (rests (some r.status))
]

module _ (p : Row → Bool) (f : Row → Row) (keeps : (r : Row) → (f r).id ≡ r.id) (t : Table)
    (id : ℕ) where
  update-Moves :
      ((r : Row) → find id t ≡ some r → p r ≡ true → Move (some r.status) (some (f r).status))
      → Moves id t (update p f t)
  update-Moves moves = rw (find-update p f id t keeps) (updated-Move p f (find id t) moves)

kept-Move : (p : Row → Bool) (o : Option Row) → Move (status_of o) (status_of (kept p o))
kept-Move p none = rests none
kept-Move p (some r) = elim (Bool-cases (p r)) [
  | inl e ↦ rw e (goes r.status)
  | inr e ↦ rw e (rests (some r.status))
]

remove-Moves : (p : Row → Bool) (t : Table) (id : ℕ) → Keyed t → Moves id t (remove p t)
remove-Moves p t id keyed = rw (find-remove p id t keyed) (kept-Move p (find id t))

same_id : {a b : ℕ} → (a == b) ≡ true → a ≡ b
same_id h = ground arith

create-Moves :
    (r : Row) (t : Table) (id : ℕ) → r.status ≡ uploading → Fresh r.id t → Moves id t (r ∷ t)
unfolding fetch
create-Moves r t id new fresh = elim (Bool-cases (r.id == id)) [
  | inl e ↦ rw (e, new, find-Fresh id t (rw (same_id e) at fresh)) appears
  | inr e ↦ rw e (rests _)
]

-- The row that a SELECT finds is the row of its id.
fetch-find :
    (p : Row → Bool) (t : Table) (r : Row)
    → Keyed t
    → fetch p t ≡ some r
    → (find r.id t ≡ some r) × (p r ≡ true)
unfolding fetch
fetch-find p [] r keyed e = cc
fetch-find p (x ∷ t) r (fresh, keyed) e = elim (Bool-cases (p x)) [
  | inl c ↦ let same = some-injective x r (rw c at e) in rw (sym same) (ground arith, c)
  | inr c ↦
      let (there, holds) = fetch-find p t r keyed (rw c at e) in
      elim (Bool-cases (x.id == r.id)) [
        | inl d ↦ cc (there, find-Fresh r.id t (rw (same_id d) at fresh))
        | inr d ↦ rw d (there, holds)
      ]
]

claimable : (r : Row) (etag : Text) → answer (some r) etag ≡ proceed → is_claimable r.status ≡ true
unfolding claim_decision
claimable r etag h = ground arith

starting :
    (now : ℕ) (size : ℤ) (etag : Text) (r : Row)
    → is_claimable r.status ≡ true
    → Move (some r.status) (some (claimed now size etag r).status)
unfolding claimed
starting now size etag r h = starts r.status h

-- The row of a tenant's document, by the id that was asked for.
same_row :
    (tenant : Text) (id j : ℕ) (t : Table) (r : Row)
    → find j t ≡ some r
    → owned tenant id r ≡ true
    → find id t ≡ some r
same_row tenant id j t r f o = rw (sym (sym (find-id j t f) ∙ owned-Selects tenant id r o)) f

module _ (now id : ℕ) (tenant etag : Text) (size : ℤ) (t : Table) (j : ℕ) (keyed : Keyed t) where
  taken :
      (claim now tenant id size etag t).0 ≡ proceed
      → (r : Row) → find j t ≡ some r
      → owned tenant id r ≡ true
      → Move (some r.status) (some (claimed now size etag r).status)
  taken e r f o =
      let own : matching (owned tenant id) (find id t) ≡ some r =
        ap (matching (owned tenant id)) (same_row tenant id j t r f o) ∙ rw o refl in
      starting now size etag r (
        claimable r etag (
          ap (λ x. answer x etag) (sym own)
          ∙ (sym (claim-answer now tenant id size etag t keyed) ∙ e)))

  claim-Moves : Moves j t (claim now tenant id size etag t).1
  claim-Moves = elim (claim-table now tenant id size etag t) [
    | inl e ↦ rw e.1 (rests (status_of (find j t)))
    | inr e ↦
        rw (e.1, find-claimed now tenant id size etag t j)
          (updated-Move (owned tenant id) (claimed now size etag) (find j t) (taken e.0))
  ]

tombstone-Moves :
    (tenant : Text) (id : ℕ) (t : Table) (o : Option Row) (j : ℕ)
    → Moves j t (tombstone_row tenant id t o).1
unfolding tombstone_row entomb
tombstone-Moves tenant id t none j = rests (status_of (find j t))
tombstone-Moves tenant id t (some r) j = elim (Bool-cases (is_deleting r.status)) [
  | inl e ↦ rw e (rests (status_of (find j t)))
  | inr e ↦ rw e (update-Moves (owned tenant id) entomb (λ r. refl) t j λ r f h. buried r.status)
]

replace-Moves :
    (tenant filename external : Text) (r : Row) (t : Table) (j : ℕ)
    → Keyed t
    → fetch (matches tenant external) t ≡ some r
    → Moves j t (update (owned tenant r.id) (replaced filename) t)
unfolding replaced
replace-Moves tenant filename external r t j keyed found =
    let (there, holds) = fetch-find (matches tenant external) t r keyed found in
    update-Moves (owned tenant r.id) (replaced filename) (λ r. refl) t j
      λ x f h.
        let same = some-injective r x (sym there ∙ same_row tenant r.id j t x f h) in
        awaits x.status (rw same at (going r holds))
  where
    going : (r : Row) → matches tenant external r ≡ true → is_deleting r.status ≡ false
    going r h = ground arith

-- How a status is recognised.
processing_only : (s : Status) → is_processing s ≡ true → s ≡ processing
processing_only s h = ground arith

uploading_only : (s : Status) → is_uploading s ≡ true → s ≡ uploading
uploading_only s h = ground arith

waiting : (s : Status) → (is_uploading s || is_expired s) ≡ true → is_deleting s ≡ false
waiting s h = ground arith

middle : (a b c : Bool) → (a && (b && c)) ≡ true → b ≡ true
middle a b c h = ground arith

module _ (now id : ℕ) (tenant : Text) (status : Status) (error : Option Text)
    (reason : Option FailureReason) (t : Table) (j : ℕ) where
  finish-Moves :
      Move (some processing) (some status)
      → Moves j t (update (leased tenant id) (settled now status error reason) t)
  unfolding settled
  finish-Moves edge =
      update-Moves (leased tenant id) (settled now status error reason) (λ r. refl) t j
        λ r f h.
          rw (processing_only r.status (and-true (owned tenant id r) (is_processing r.status) h).1)
            edge

-- Every transaction moves every document along the diagram: in a table with no two rows of one id, the
-- status of each document before and after is one of the pairs of `Move`. So a document that is
-- `deleting` stays so until its row goes, unless it is quarantined; only a document that is
-- `processing` becomes `ready` or `failed`; and only an upload that never arrived expires.
pub Step-Moves : (t t' : Table) → Step t t' → Keyed t → (id : ℕ) → Moves id t t'
unfolding inserted renewed mark_ready mark_failed finish_from_processing mark_quarantined set_status
    settled expire reclaim abandoned stale tombstone
Step-Moves _ _ (creates now id tenant filename key content_type deadline external t fresh) keyed j =
    create-Moves _ t j refl fresh
Step-Moves _ _ (renews now id ttl tenant t) keyed j =
    update-Moves (awaiting tenant id) (renewed now ttl) (λ r. refl) t j
      λ r f h. awaits r.status (waiting r.status (and-true (owned tenant id r) _ h).1)
Step-Moves _ _ (replaces tenant filename external r t found) keyed j =
    replace-Moves tenant filename external r t j keyed found
Step-Moves _ _ (claims now id tenant etag size t) keyed j =
    claim-Moves now id tenant etag size t j keyed
Step-Moves _ _ (succeeds now id tenant t) keyed j =
    finish-Moves now id tenant ready none none t j completes
Step-Moves _ _ (fails now id tenant error reason t) keyed j =
    finish-Moves now id tenant failed (some error) (some reason) t j breaks
Step-Moves _ _ (condemns now id tenant error reason t) keyed j =
    update-Moves (owned tenant id) (settled now quarantined (some error) (some reason)) (λ r. refl)
      t j λ r f h. condemned r.status
Step-Moves _ _ (buries id tenant t) keyed j =
    tombstone-Moves tenant id t (fetch (owned tenant id) t) j
Step-Moves _ _ (deletes id tenant t) keyed j = remove-Moves (entombed tenant id) t j keyed
Step-Moves _ _ (expires now tenant t) keyed j =
    update-Moves (λ r. visible tenant r && abandoned now r) expire (λ r. refl) t j
      λ r f h.
        rw
          (uploading_only r.status (
            middle (visible tenant r) (is_uploading r.status)
              (lapsed upload_grace now r.upload_expires_at) h))
          lapses
Step-Moves _ _ (reclaims now tenant t) keyed j =
    update-Moves (λ r. visible tenant r && stale now r) reclaim (λ r. refl) t j
      λ r f h.
        rw
          (processing_only r.status (
            middle (visible tenant r) (is_processing r.status)
              (lapsed processing_lease now r.processing_started_at) h))
          breaks
Step-Moves _ _ (leaves tenant t) keyed j = remove-Moves (visible tenant) t j keyed
