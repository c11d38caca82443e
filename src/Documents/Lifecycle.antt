-- ===== src/Documents/Lifecycle.antt =====
-- crates/worker/src/lifecycle.rs: the worker's status transitions. A function stands for one
-- committed transaction of a tenant; the row lock makes transactions on a row run one by one.
pub mod Rows
pub mod Claims
pub mod Fence
use bot_flow.Prelude.{
  ℕ, suc, ◌+◌, Text, text_eq, ℤ, String, Option, none, some, Bool, true, false, ◌&&◌, ltb,
  if◌then◌else◌,
}
use bot_flow.Documents.{
  Status, uploading, processing, ready, failed, quarantined, deleting, FailureReason, Row, Table,
  is_processing, is_ready,
}
use bot_flow.Documents.Sql.{update, affected, fetch, owned}

pub data Claim : Type 0 where
  proceed : Claim
  skip : String → Claim

-- `none` means proceed.
unfoldable pub claim_decision : Status → Option Text → Text → Option Claim
claim_decision ready none etag = none
claim_decision ready (some known) etag =
    if text_eq known etag then some (skip "already indexed, same etag") else none
claim_decision processing known etag = some (skip "another worker is processing it")
claim_decision quarantined known etag = some (skip "quarantined")
claim_decision deleting known etag = some (skip "being deleted")
claim_decision _ known etag = none

-- `coalesce(x, now())`
abbrev pub coalesce : Option ℕ → ℕ → Option ℕ
coalesce none now = some now
coalesce (some t) now = some t

-- The SET clause of `claim`.
unfoldable pub claimed : ℕ → ℤ → Text → Row → Row
claimed now size etag r = record r {
  status = processing;
  size_bytes = some size;
  etag = some etag;
  uploaded_at = coalesce r.uploaded_at now;
  processing_started_at = some now;
  attempts = r.attempts + 1;
  error = none;
  failure_reason = none;
}

-- The answer of `claim` to a row, and what the transaction does to the table.
unfoldable pub claim_row : ℕ → Text → ℕ → ℤ → Text → Table → Option Row → Claim × Table
claim_row now tenant id size etag t none = (skip "no such document for this tenant", t)
claim_row now tenant id size etag t (some row) = elim (claim_decision row.status row.etag etag) [
  | some c ↦ (c, t)
  | none ↦ (proceed, update (owned tenant id) (claimed now size etag) t)
]

unfoldable pub claim : ℕ → Text → ℕ → ℤ → Text → Table → Claim × Table
unfolding claim_row
claim now tenant id size etag t = claim_row now tenant id size etag t (fetch (owned tenant id) t)

-- The SET clause that `finish_from_processing` and `set_status` share.
unfoldable pub settled : ℕ → Status → Option Text → Option FailureReason → Row → Row
settled now status error reason r = record r {
  status = status;
  error = error;
  failure_reason = reason;
  processed_at = if is_ready status then some now else r.processed_at;
  processing_started_at = none;
}

-- `WHERE id = $1 AND status = 'processing'`
abbrev pub leased : Text → ℕ → Row → Bool
leased tenant id r = owned tenant id r && is_processing r.status

unfoldable pub finish_from_processing :
    ℕ → Text → ℕ → Status → Option Text → Option FailureReason → Table → Bool × Table
finish_from_processing now tenant id status error reason t = (
  ltb 0 (affected (leased tenant id) t),
  update (leased tenant id) (settled now status error reason) t,
)

unfoldable pub mark_ready : ℕ → Text → ℕ → Table → Bool × Table
unfolding finish_from_processing
mark_ready now tenant id t = finish_from_processing now tenant id ready none none t

unfoldable pub mark_failed : ℕ → Text → ℕ → Text → FailureReason → Table → Bool × Table
unfolding finish_from_processing
mark_failed now tenant id error reason t =
    finish_from_processing now tenant id failed (some error) (some reason) t

-- The flag says that a row matched; `bail!` otherwise.
unfoldable pub set_status :
    ℕ → Text → ℕ → Status → Option Text → Option FailureReason → Table → Bool × Table
set_status now tenant id status error reason t = (
  ltb 0 (affected (owned tenant id) t),
  update (owned tenant id) (settled now status error reason) t,
)

unfoldable pub mark_quarantined : ℕ → Text → ℕ → Text → FailureReason → Table → Bool × Table
unfolding set_status
mark_quarantined now tenant id error reason t =
    set_status now tenant id quarantined (some error) (some reason) t
