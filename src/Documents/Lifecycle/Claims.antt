-- ===== src/Documents/Lifecycle/Claims.antt =====
-- Who may work on a document: `claim` of crates/worker/src/lifecycle.rs.
use bot_flow.Prelude.{ℕ, Text, text_eq_iff, ℤ, Option, none, some, ◌≡◌, ◌≢◌, ◌↔◌, refl, true, arith}
use bot_flow.Documents.{Status, processing, ready, quarantined, deleting, Row, Table}
use bot_flow.Documents.Sql.{owned, visible, find}
use bot_flow.Documents.Sql.Laws.{Keyed, matching, find-id}
use bot_flow.Documents.Lifecycle.{proceed, skip, claim_decision, claimed, claim}
use bot_flow.Documents.Lifecycle.Rows.{answer, claim-answer, claim-table, claim-Keyed, find-claimed}

-- What a worker may take for an object with the given etag.
pub record IsClaimable (status : Status) (known : Option Text) (etag : Text) : Type 0 where
  pub free : status ≢ processing
  pub allowed : status ≢ quarantined
  pub kept : status ≢ deleting
  pub new : status ≡ ready → known ≢ some etag

claimable→none :
    (status : Status) (known : Option Text) (etag : Text)
    → IsClaimable status known etag
    → claim_decision status known etag ≡ none
unfolding claim_decision
claimable→none ready (some e) etag h = ground (arith, text_eq_iff e etag, h.new refl)
claimable→none _ known etag h = ground arith

none→claimable :
    (status : Status) (known : Option Text) (etag : Text)
    → claim_decision status known etag ≡ none
    → IsClaimable status known etag
unfolding claim_decision
none→claimable ready (some e) etag h = ground (arith, text_eq_iff e etag)
none→claimable _ known etag h = ground arith

proceed→row :
    (tenant : Text) (id : ℕ) (etag : Text) (o : Option Row)
    → answer (matching (owned tenant id) o) etag ≡ proceed
    → (r : Row) × (o ≡ some r)
      × (visible tenant r ≡ true)
      × (claim_decision r.status r.etag etag ≡ none)
unfolding claim_decision
proceed→row tenant id etag none h = cc
proceed→row tenant id etag (some r) h = (r, refl, ground arith, ground arith)

module _ (now : ℕ) (tenant : Text) (id : ℕ) (size : ℤ) (etag : Text) (t : Table)
    (keyed : Keyed t) where
  -- In a table with no two rows of one id, `claim` proceeds exactly when the tenant has a row with
  -- that id which is not `processing`, `quarantined` or `deleting` and which, if it is `ready`, was
  -- indexed from another etag.
  pub claim-proceed_iff : ((claim now tenant id size etag t).0 ≡ proceed) ↔ (
      (r : Row) × (find id t ≡ some r)
      × (visible tenant r ≡ true)
      × IsClaimable r.status r.etag etag)
  claim-proceed_iff = (
    λ h.
        let (r, e, v, d) =
          proceed→row tenant id etag (find id t)
            (cc (claim-answer now tenant id size etag t keyed)) in
        (r, e, v, none→claimable r.status r.etag etag d),
    λ (r, e, v, c). ground (
      arith,
      claim-answer now tenant id size etag t keyed,
      find-id id t e,
      claimable→none r.status r.etag etag c,
    ),
  )

  pub claim-leases :
      (r : Row)
      → (claim now tenant id size etag t).0 ≡ proceed
      → find id t ≡ some r
      → find id (claim now tenant id size etag t).1 ≡ some (claimed now size etag r)
  claim-leases r h e = ground (
    arith,
    claim-table now tenant id size etag t,
    claim-proceed_iff.0 h,
    find-id id t e,
    find-claimed now tenant id size etag t id,
  )

  -- In a table with no two rows of one id, when `claim` proceeds, a later claim of that document by
  -- that tenant on the table it left is skipped, whatever the time, the size and the etag.
  pub claim-claim :
      (now' : ℕ) (size' : ℤ) (etag' : Text)
      → (claim now tenant id size etag t).0 ≡ proceed
      → (claim now' tenant id size' etag' (claim now tenant id size etag t).1).0
        ≡ skip "another worker is processing it"
  unfolding claimed claim_decision
  claim-claim now' size' etag' h =
      let (r, e, v, c) = claim-proceed_iff.0 h in
      let first = (claim now tenant id size etag t).1 in
      ground (
        arith,
        claim-answer now' tenant id size' etag' first (claim-Keyed now tenant id size etag t keyed),
        claim-leases r h e,
        find-id id t e,
        v,
      )
