-- ===== src/Documents/Lifecycle/Rows.antt =====
-- What each transition of crates/worker/src/lifecycle.rs makes of the row with a given id.
use bot_flow.Prelude.{ℕ, Text, ℤ, Option, none, some, ◌≡◌, ◌≢◌, ◌⊎◌, inl, inr, refl, arith, ltb}
use bot_flow.Documents.{Status, FailureReason, Row, Table}
use bot_flow.Documents.Sql.{update, owned, find}
use bot_flow.Documents.Sql.Laws.{
  updated, find-update, Keyed, Selects, matching, count_of, fetch-Keyed, affected-Keyed,
  Keyed-update,
}
use bot_flow.Documents.Lifecycle.{
  Claim, proceed, skip, claim_decision, claimed, claim, settled, leased, finish_from_processing,
  set_status,
}

abbrev pub answer : Option Row → Text → Claim
answer none etag = skip "no such document for this tenant"
answer (some r) etag = elim (claim_decision r.status r.etag etag) [ some c ↦ c | none ↦ proceed ]

pub owned-Selects : (tenant : Text) (id : ℕ) → Selects id (owned tenant id)
owned-Selects tenant id r h = ground arith

pub leased-Selects : (tenant : Text) (id : ℕ) → Selects id (leased tenant id)
leased-Selects tenant id r h = ground arith

claimed-id : (now : ℕ) (size : ℤ) (etag : Text) (r : Row) → (claimed now size etag r).id ≡ r.id
unfolding claimed
claimed-id now size etag r = refl

settled-id :
    (now : ℕ) (status : Status) (error : Option Text) (reason : Option FailureReason) (r : Row)
    → (settled now status error reason r).id ≡ r.id
unfolding settled
settled-id now status error reason r = refl

module _ (now : ℕ) (tenant : Text) (id : ℕ) (size : ℤ) (etag : Text) (t : Table) where
  pub claim-answer :
      Keyed t
      → (claim now tenant id size etag t).0 ≡ answer (matching (owned tenant id) (find id t)) etag
  unfolding claim
  claim-answer keyed =
      rw (fetch-Keyed (owned tenant id) id t (owned-Selects tenant id) keyed) (ground arith)

  -- The table after a claim: unchanged, or with the row claimed.
  pub claim-table :
      (((claim now tenant id size etag t).0 ≢ proceed) × ((claim now tenant id size etag t).1 ≡ t))
      ⊎ (((claim now tenant id size etag t).0 ≡ proceed)
          × ((claim now tenant id size etag t).1
              ≡ update (owned tenant id) (claimed now size etag) t))
  unfolding claim claim_decision
  claim-table = ground arith

  pub claim-Keyed : Keyed t → Keyed (claim now tenant id size etag t).1
  claim-Keyed keyed =
      let same =
        Keyed-update (owned tenant id) (claimed now size etag) t (claimed-id now size etag) keyed in
      elim claim-table [ inl e ↦ rw e.1 keyed | inr e ↦ rw e.1 same ]

  pub find-claimed :
      (j : ℕ)
      → find j (update (owned tenant id) (claimed now size etag) t)
        ≡ updated (owned tenant id) (claimed now size etag) (find j t)
  find-claimed j =
      find-update (owned tenant id) (claimed now size etag) j t (claimed-id now size etag)

module _ (now : ℕ) (tenant : Text) (id : ℕ) (status : Status) (error : Option Text)
    (reason : Option FailureReason) (t : Table) where
  pub find-finish :
      (j : ℕ)
      → find j (finish_from_processing now tenant id status error reason t).1
        ≡ updated (leased tenant id) (settled now status error reason) (find j t)
  unfolding finish_from_processing
  find-finish j =
      find-update (leased tenant id) (settled now status error reason) j t
        (settled-id now status error reason)

  pub finish-answer :
      Keyed t
      → (finish_from_processing now tenant id status error reason t).0
        ≡ ltb 0 (count_of (matching (leased tenant id) (find id t)))
  unfolding finish_from_processing
  finish-answer keyed =
      rw (affected-Keyed (leased tenant id) id t (leased-Selects tenant id) keyed) refl

  pub find-set_status :
      (j : ℕ)
      → find j (set_status now tenant id status error reason t).1
        ≡ updated (owned tenant id) (settled now status error reason) (find j t)
  unfolding set_status
  find-set_status j =
      find-update (owned tenant id) (settled now status error reason) j t
        (settled-id now status error reason)
