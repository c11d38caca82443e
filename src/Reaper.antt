-- ===== src/Reaper.antt =====
-- crates/worker/src/reaper.rs: settles the documents that no event will arrive for.
pub mod Rounds
pub mod Sweep
pub mod Crashes
use bot_flow.Prelude.{
  ℕ, suc, ◌+◌, ◌*◌, Text, Option, none, some, List, [], ◌∷◌, Bool, true, false, ◌&&◌, ◌||◌, ltb,
  ◌==◌, codes, if◌then◌else◌,
}
use bot_flow.Documents.{
  expired, failed, FailureReason, system_error, Row, Table, is_uploading, is_processing,
  is_deleting,
}
use bot_flow.Documents.Sql.{update, affected, select, remove, visible, owned}
use bot_flow.World.{World}
use bot_flow.World.Steps.{Exec, pure, call, ◌>>=◌, ◌>>◌}
use bot_flow.World.Stores.{of_document, of_tenant, delete_points, delete_object}
use bot_flow.Deletion.{entombed}

-- `5 minutes` and `30 minutes`, in seconds.
abbrev pub upload_grace : ℕ
upload_grace = 5 * 60

abbrev pub processing_lease : ℕ
processing_lease = 30 * 60

-- `t < now() - interval`; a NULL satisfies no comparison.
abbrev pub lapsed : ℕ → ℕ → Option ℕ → Bool
lapsed grace now none = false
lapsed grace now (some t) = ltb (t + grace) now

abbrev pub is_null : Option ℕ → Bool
is_null none = true
is_null (some t) = false

-- The UPDATE that expires abandoned uploads.
unfoldable pub abandoned : ℕ → Row → Bool
abandoned now r = is_uploading r.status && lapsed upload_grace now r.upload_expires_at

unfoldable pub expire : Row → Row
expire r = record r { status = expired }

-- `reclaim_stale_leases_sql`
unfoldable pub stale : ℕ → Row → Bool
stale now r = is_processing r.status && lapsed processing_lease now r.processing_started_at

unfoldable pub reclaim : Row → Row
reclaim r = record r {
  status = failed;
  error = some (codes "processing lease expired; worker presumed dead");
  failure_reason = some system_error;
  processing_started_at = none;
}

-- `sweep_one` with one of these statements, under the tenant's policy.
unfoldable pub sweep_one : Text → (Row → Bool) → (Row → Row) → Exec ℕ
sweep_one tenant p f = call λ w. (
  affected (λ r. visible tenant r && p r) w.documents,
  record w { documents = update (λ r. visible tenant r && p r) f w.documents },
)

-- The `deleting` rows whose worker has provably released them.
unfoldable pub released : ℕ → Row → Bool
released now r =
    is_deleting r.status
    && (is_null r.processing_started_at || lapsed processing_lease now r.processing_started_at)

-- `DELETE … WHERE id = $1 AND status = 'deleting'`, with its `rows_affected`.
unfoldable pub delete_entombed : Text → ℕ → Exec ℕ
delete_entombed tenant id = call λ w. (
  affected (entombed tenant id) w.documents,
  record w { documents = remove (entombed tenant id) w.documents },
)

-- One round of the loop of `finish_deletions`: vectors, object, row.
unfoldable pub finish_deletion : Text → ℕ → Text → Exec ℕ
finish_deletion tenant id object_key =
    delete_points (λ p. of_document id p && of_tenant tenant p)
    >> delete_object object_key
    >> delete_entombed tenant id

unfoldable pub finish_rows : Text → List Row → ℕ → Exec ℕ
finish_rows tenant [] finished = pure finished
finish_rows tenant (r ∷ rs) finished = do
  n ← finish_deletion tenant r.id r.object_key
  finish_rows tenant rs (finished + n)

unfoldable pub finish_deletions : ℕ → Text → Exec ℕ
finish_deletions now tenant = do
  rows ← call (λ w. (select (λ r. visible tenant r && released now r) w.documents, w))
  finish_rows tenant rows 0

-- One round of the loop of `sweep`.
unfoldable pub sweep_tenant : ℕ → Text → Exec (Unit {0})
sweep_tenant now tenant = do
  n ← sweep_one tenant (abandoned now) expire
  m ← sweep_one tenant (stale now) reclaim
  k ← finish_deletions now tenant
  pure tt

unfoldable pub sweep_tenants : ℕ → List Text → Exec (Unit {0})
sweep_tenants now [] = pure tt
sweep_tenants now (t ∷ ts) = do sweep_tenant now t; sweep_tenants now ts

unfoldable pub sweep : ℕ → Exec (Unit {0})
sweep now = do tenants ← call (λ w. (w.tenants, w)); sweep_tenants now tenants
