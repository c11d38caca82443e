-- ===== src/Reaper/Sweep.antt =====
-- The whole sweep of crates/worker/src/reaper.rs.
use bot_flow.Prelude.{
  ℕ, ◌+◌, ◌<◌, Text, text_eq, text_eq_iff, Option, some, List, [], ◌∷◌, ◌≡◌, refl, Bool, true,
  false, ◌||◌, arith,
}
use bot_flow.Documents.{Row, processing, failed, system_error}
use bot_flow.Documents.Sql.{find}
use bot_flow.Documents.Sql.Laws.{Keyed}
use bot_flow.World.{World, calm}
use bot_flow.World.Steps.{call, meet}
use bot_flow.Reaper.{sweep_tenant, sweep_tenants, sweep, reclaim, processing_lease}
use bot_flow.Reaper.Rounds.{
  settle, settle_for, sweep_tenant-calm, find-sweep_tenant, Keyed-sweep_tenant,
}

settle_all : ℕ → List Text → Option Row → Option Row
settle_all now [] o = o
settle_all now (t ∷ ts) o = settle_all now ts (settle_for now t o)

abbrev pub listed : Text → List Text → Bool
listed tenant [] = false
listed tenant (t ∷ ts) = text_eq tenant t || listed tenant ts

sweep_tenants-cons :
    (now : ℕ) (t : Text) (ts : List Text) (w : World)
    → sweep_tenants now (t ∷ ts) (calm w)
      ≡ sweep_tenants now ts (calm (sweep_tenant now t (calm w)).1)
unfolding sweep_tenants
sweep_tenants-cons now t ts w = rw sweep_tenant-calm

find-sweep_tenants :
    (now : ℕ) (ts : List Text) (id : ℕ) (w : World)
    → Keyed w.documents
    → find id (sweep_tenants now ts (calm w)).1.documents ≡ settle_all now ts (find id w.documents)
unfolding sweep_tenants settle_all
find-sweep_tenants now [] id w h = refl
find-sweep_tenants now (t ∷ ts) id w h = rw (
  sweep_tenants-cons now t ts w,
  find-sweep_tenants now ts id (sweep_tenant now t (calm w)).1 (Keyed-sweep_tenant now t w h),
  find-sweep_tenant now t w id h,
)

settle-settle : (now : ℕ) (t : Text) (r : Row) → settle_for now t (settle now r) ≡ settle now r
unfolding settle
settle-settle now t r = ground arith

-- Whom a row is settled for a second time makes no difference.
settle_all-settled :
    (now : ℕ) (ts : List Text) (r : Row) → settle_all now ts (settle now r) ≡ settle now r
unfolding settle_all
settle_all-settled now [] r = refl
settle_all-settled now (t ∷ ts) r = rw settle-settle (settle_all-settled now ts r)

settle_all-listed :
    (now : ℕ) (ts : List Text) (r : Row)
    → listed r.tenant_id ts ≡ true
    → settle_all now ts (some r) ≡ settle now r
unfolding settle_all
settle_all-listed now [] r h = cc
settle_all-listed now (t ∷ ts) r h =
    ground
      (arith, text_eq_iff r.tenant_id t, settle_all-settled now ts r, settle_all-listed now ts r)

-- When every call is answered and no two rows have one id, a sweep settles the row of every document
-- whose tenant is listed: an abandoned upload expires, a stale lease is reclaimed, a released
-- tombstone is gone, and any other row stays as it was.
pub find-sweep :
    (now : ℕ) (id : ℕ) (w : World) (r : Row)
    → Keyed w.documents
    → find id w.documents ≡ some r
    → listed r.tenant_id w.tenants ≡ true
    → find id (sweep now (calm w)).1.documents ≡ settle now r
unfolding sweep call meet
find-sweep now id w r h e l =
    rw (find-sweep_tenants now w.tenants id w h, e) (settle_all-listed now w.tenants r l)

-- When every call is answered, no two rows have one id and the tenant is listed: a document that has
-- been `processing` for longer than `PROCESSING_LEASE` is `failed` after one sweep, with the reason
-- `system_error`.
pub sweep-reclaims :
    (now : ℕ) (id : ℕ) (w : World) (r : Row) (started : ℕ)
    → Keyed w.documents
    → find id w.documents ≡ some r
    → listed r.tenant_id w.tenants ≡ true
    → r.status ≡ processing
    → r.processing_started_at ≡ some started
    → started + processing_lease < now
    → (r' : Row) × (find id (sweep now (calm w)).1.documents ≡ some r')
      × (r'.status ≡ failed)
      × (r'.failure_reason ≡ some system_error)
unfolding settle reclaim
sweep-reclaims now id w r started h e l p s lt =
    (reclaim r, ground (arith, find-sweep now id w r h e l), refl, refl)
