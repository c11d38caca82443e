-- ===== src/Documents/Lifecycle/Fence.antt =====
-- The fence of crates/worker/src/lifecycle.rs: a worker finishes only what it still holds.
use bot_flow.Prelude.{ℕ, Text, Option, some, ◌≡◌, ◌≢◌, true, false, arith}
use bot_flow.Documents.{Status, processing, FailureReason, Row, Table}
use bot_flow.Documents.Sql.{affected, visible, find}
use bot_flow.Documents.Sql.Laws.{Keyed, update_of_affected_zero, affected-Keyed, find-id}
use bot_flow.Documents.Lifecycle.{settled, leased, finish_from_processing}
use bot_flow.Documents.Lifecycle.Rows.{find-finish, finish-answer, leased-Selects}

module _ (now : ℕ) (tenant : Text) (id : ℕ) (status : Status) (error : Option Text)
    (reason : Option FailureReason) (t : Table) (keyed : Keyed t) where
  -- In a table with no two rows of one id, a worker that finishes a document whose row is no longer
  -- `processing` is told `false`, and the table stays as it was.
  pub finish_fenced :
      (r : Row)
      → find id t ≡ some r
      → r.status ≢ processing
      → finish_from_processing now tenant id status error reason t ≡ (false, t)
  unfolding finish_from_processing
  finish_fenced r e h =
      let none_leased : affected (leased tenant id) t ≡ 0 =
        ground (arith, affected-Keyed (leased tenant id) id t (leased-Selects tenant id) keyed) in
      ground (
        arith,
        none_leased,
        update_of_affected_zero (leased tenant id) (settled now status error reason) t none_leased,
      )

  pub finish_leased :
      (r : Row)
      → find id t ≡ some r
      → visible tenant r ≡ true
      → r.status ≡ processing
      → ((finish_from_processing now tenant id status error reason t).0 ≡ true)
        × (find id (finish_from_processing now tenant id status error reason t).1
            ≡ some (settled now status error reason r))
  finish_leased r e v h = (
    ground (arith, finish-answer now tenant id status error reason t keyed, find-id id t e),
    ground (arith, find-finish now tenant id status error reason t id, find-id id t e),
  )
