-- ===== src/Tests/Reaper.antt =====
-- Sweeps of crates/worker/src/reaper.rs on a concrete state.
use bot_flow.Prelude.{codes, text_eq, none, some, [], ◌∷◌, ◌≡◌, refl, true, arith, ◌<◌, ◌+◌}
use bot_flow.Documents.{Row, failed, system_error}
use bot_flow.Documents.Sql.{find, fetch, visible, select, remove}
use bot_flow.Documents.Sql.Laws.{Keyed}
use bot_flow.World.{calm, answered, lost}
use bot_flow.World.Steps.{call, meet}
use bot_flow.World.Stores.{delete_points, delete_object}
use bot_flow.Deletion.Crashes.{NoPoints, NoObject}
use bot_flow.Reaper.{
  processing_lease, released, delete_entombed, finish_deletion, finish_rows, finish_deletions,
  sweep,
}
use bot_flow.Reaper.Rounds.{settle}
use bot_flow.Reaper.Sweep.{listed, find-sweep, sweep-reclaims}
use bot_flow.Reaper.Crashes.{IsReleased, finish_deletions-clears}
use bot_flow.Tests.{acme, table, held, dying, pending, world}

keyed : Keyed table
keyed = ground arith

found_held : find 2 table ≡ some held
unfolding fetch
found_held = refl

found_dying : find 3 table ≡ some dying
unfolding fetch
found_dying = refl

found_pending : find 4 table ≡ some pending
unfolding fetch
found_pending = refl

known : listed pending.tenant_id (world []).tenants ≡ true
unfolding text_eq
known = refl

find-sweep_example : find 4 (sweep 9000 (calm (world []))).1.documents ≡ settle 9000 pending
find-sweep_example = find-sweep 9000 4 (world []) pending keyed found_pending known

late : 5000 + processing_lease < 9000
late = omega arith

sweep-reclaims_example :
    (r' : Row) × (find 2 (sweep 9000 (calm (world []))).1.documents ≡ some r')
    × (r'.status ≡ failed)
    × (r'.failure_reason ≡ some system_error)
sweep-reclaims_example =
    sweep-reclaims 9000 2 (world []) held 5000 keyed found_held known refl refl late

-- The answer of the call that deletes the row is lost.
gone :
    find 3
      (finish_deletions 9000 acme (world (answered ∷ answered ∷ answered ∷ lost ∷ []))).1.documents
    ≡ none
unfolding finish_deletions released call meet select finish_rows finish_deletion delete_points
    delete_object delete_entombed remove fetch text_eq
gone = refl

finish_deletions-clears_example :
    NoPoints acme 3
      (codes "k")
      (finish_deletions 9000 acme (world (answered ∷ answered ∷ answered ∷ lost ∷ []))).1
    × NoObject acme 3
        (codes "k")
        (finish_deletions 9000 acme (world (answered ∷ answered ∷ answered ∷ lost ∷ []))).1
    × (visible acme dying ≡ true)
    × IsReleased 9000 dying
finish_deletions-clears_example =
    finish_deletions-clears 9000 acme 3 (world (answered ∷ answered ∷ answered ∷ lost ∷ [])) dying
      keyed found_dying gone
