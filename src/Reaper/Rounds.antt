-- ===== src/Reaper/Rounds.antt =====
-- One round of the sweep of crates/worker/src/reaper.rs when every call is answered: what becomes
-- of the row with a given id.
use bot_flow.Prelude.{
  ℕ, Text, Option, none, some, List, [], ◌∷◌, ◌≡◌, refl, Bool, false, ◌&&◌, ◌||◌, ◌==◌, arith,
  if◌then◌else◌,
}
use bot_flow.Outcome.{Result, ok, err}
use bot_flow.Documents.{Row, Table, is_deleting}
use bot_flow.Documents.Sql.{update, select, fetch, remove, find, visible}
use bot_flow.Documents.Sql.Laws.{
  updated, kept, Keyed, Keyed-update, Keyed-remove, find-update, find-remove, find-id, Fresh,
}
use bot_flow.World.{World, calm}
use bot_flow.World.Steps.{pure, call, meet, continue}
use bot_flow.World.Stores.{delete_points, delete_object}
use bot_flow.Deletion.{entombed}
use bot_flow.Reaper.{
  abandoned, expire, stale, reclaim, sweep_one, released, delete_entombed, finish_deletion,
  finish_rows, finish_deletions, sweep_tenant,
}

-- What the sweep makes of a row of the tenant that it works for.
unfoldable pub settle : ℕ → Row → Option Row
unfolding abandoned expire stale reclaim released
settle now r =
    if abandoned now r
    then some (expire r)
    else if stale now r
    then some (reclaim r)
    else if released now r
    then none
    else some r

abbrev pub settle_for : ℕ → Text → Option Row → Option Row
settle_for now tenant none = none
settle_for now tenant (some r) = if visible tenant r then settle now r else some r

-- The rows of the documents table after `finish_rows`.
without : Text → List Row → Table → Table
without tenant [] t = t
without tenant (r ∷ rs) t = without tenant rs (remove (entombed tenant r.id) t)

finish_rows-documents :
    (tenant : Text) (rows : List Row) (n : ℕ) (w : World)
    → ((finish_rows tenant rows n (calm w)).1.documents ≡ without tenant rows w.documents)
      × ((finish_rows tenant rows n (calm w)).1.fates ≡ [])
      × ((m : ℕ) × ((finish_rows tenant rows n (calm w)).0 ≡ ok m))
unfolding finish_rows finish_deletion delete_points delete_object delete_entombed call meet without
finish_rows-documents tenant [] n w = (refl, refl, (n, refl))
finish_rows-documents tenant (r ∷ rs) n w =
    finish_rows-documents tenant rs _ (finish_deletion tenant r.id r.object_key (calm w)).1

has_id : ℕ → List Row → Bool
has_id id [] = false
has_id id (r ∷ rs) = r.id == id || has_id id rs

Keyed-without :
    (tenant : Text) (rows : List Row) (t : Table) → Keyed t → Keyed (without tenant rows t)
unfolding without
Keyed-without tenant [] t h = h
Keyed-without tenant (r ∷ rs) t h =
    Keyed-without tenant rs _ (Keyed-remove (entombed tenant r.id) t h)

-- The rows that `finish_rows` takes away.
abbrev taken : Text → List Row → Row → Bool
taken tenant rows r = (visible tenant r && is_deleting r.status) && has_id r.id rows

kept-taken :
    (tenant : Text) (s : Row) (rs : List Row) (o : Option Row)
    → kept (taken tenant rs) (kept (entombed tenant s.id) o) ≡ kept (taken tenant (s ∷ rs)) o
unfolding has_id
kept-taken tenant s rs none = refl
kept-taken tenant s rs (some r) = ground arith

find-without :
    (tenant : Text) (rows : List Row) (id : ℕ) (t : Table)
    → Keyed t
    → find id (without tenant rows t) ≡ kept (taken tenant rows) (find id t)
unfolding without
find-without tenant [] id t h = kept-none (find id t)
  where
    kept-none : (o : Option Row) → o ≡ kept (taken tenant []) o
    kept-none none = refl
    kept-none (some r) = unfold has_id in ground arith
find-without tenant (s ∷ rs) id t h =
    rw
      (
        find-without tenant rs id _ (Keyed-remove (entombed tenant s.id) t h),
        find-remove (entombed tenant s.id) id t h,
      )
      (kept-taken tenant s rs (find id t))

has_id-Fresh : (p : Row → Bool) (id : ℕ) (t : Table) → Fresh id t → has_id id (select p t) ≡ false
unfolding has_id select
has_id-Fresh p id [] h = refl
has_id-Fresh p id (r ∷ t) (ne, h) = ground (arith, has_id-Fresh p id t h)

-- A row is among those that a SELECT returns exactly when it meets the condition.
has_id-select :
    (p : Row → Bool) (id : ℕ) (t : Table) (r : Row)
    → Keyed t
    → find id t ≡ some r
    → has_id id (select p t) ≡ p r
unfolding has_id select fetch
has_id-select p id [] r h e = cc
has_id-select p id (s ∷ t) r (fresh, h) e =
    ground (arith, has_id-select p id t r h, λ (q : s.id ≡ id). has_id-Fresh p id t (rw q at fresh))

find-finish_deletions :
    (now : ℕ) (tenant : Text) (id : ℕ) (w : World)
    → Keyed w.documents
    → find id (finish_deletions now tenant (calm w)).1.documents
      ≡ kept (λ r. visible tenant r && released now r) (find id w.documents)
unfolding finish_deletions call meet released
find-finish_deletions now tenant id w h =
    let rows = select (λ r. visible tenant r && released now r) w.documents in
    rw ((finish_rows-documents tenant rows 0 w).0, find-without tenant rows id w.documents h)
      (both (find id w.documents) refl)
  where
    both :
        (o : Option Row)
        → find id w.documents ≡ o
        → kept (taken tenant (select (λ r. visible tenant r && released now r) w.documents)) o
          ≡ kept (λ r. visible tenant r && released now r) o
    both none e = refl
    both (some r) e = ground (
      arith,
      find-id id w.documents e,
      has_id-select (λ x. visible tenant x && released now x) r.id w.documents r h,
    )

expire-id : (r : Row) → (expire r).id ≡ r.id
unfolding expire
expire-id r = refl

reclaim-id : (r : Row) → (reclaim r).id ≡ r.id
unfolding reclaim
reclaim-id r = refl

-- The three statements of a round, one after the other, settle the row.
settle_steps :
    (now : ℕ) (tenant : Text) (o : Option Row)
    → kept
        (λ r. visible tenant r && released now r)
        (updated
          (λ r. visible tenant r && stale now r)
          reclaim
          (updated (λ r. visible tenant r && abandoned now r) expire o))
      ≡ settle_for now tenant o
unfolding settle
settle_steps now tenant none = refl
settle_steps now tenant (some r) = ground arith

unfoldable pub swept_documents : ℕ → Text → Table → Table
swept_documents now tenant t =
    update (λ r. visible tenant r && stale now r) reclaim
      (update (λ r. visible tenant r && abandoned now r) expire t)

Keyed-swept : (now : ℕ) (tenant : Text) (t : Table) → Keyed t → Keyed (swept_documents now tenant t)
unfolding swept_documents
Keyed-swept now tenant t h =
    Keyed-update _ reclaim _ reclaim-id (Keyed-update _ expire t expire-id h)

find-swept :
    (now : ℕ) (tenant : Text) (id : ℕ) (t : Table)
    → find id (swept_documents now tenant t)
      ≡ updated
          (λ r. visible tenant r && stale now r)
          reclaim
          (updated (λ r. visible tenant r && abandoned now r) expire (find id t))
unfolding swept_documents
find-swept now tenant id t =
    rw (find-update _ reclaim id _ reclaim-id, find-update _ expire id t expire-id)

-- What a program that answers and leaves the later calls answered leaves behind it.
settled_call :
    (x : Result ℕ × World)
    → ((m : ℕ) × (x.0 ≡ ok m))
    → x.1.fates ≡ []
    → continue x.0 (λ _. pure (tt {0})) x.1 ≡ (ok tt, calm x.1)
settled_call (ok n, w) m f = λ i. (ok tt, record w { fates = f i })
settled_call (err e, w) (m, q) f = cc

module _ (now : ℕ) (tenant : Text) (w : World) where
  abbrev pub swept_world : World
  swept_world = calm (record w { documents = swept_documents now tenant w.documents })

  finish_deletions-fates : (finish_deletions now tenant (calm w)).1.fates ≡ []
  unfolding finish_deletions call meet
  finish_deletions-fates = (finish_rows-documents tenant _ 0 w).1

  finish_deletions-ok : (m : ℕ) × ((finish_deletions now tenant (calm w)).0 ≡ ok m)
  unfolding finish_deletions call meet
  finish_deletions-ok = (finish_rows-documents tenant _ 0 w).2

  Keyed-finish_deletions :
      Keyed w.documents → Keyed (finish_deletions now tenant (calm w)).1.documents
  unfolding finish_deletions call meet
  Keyed-finish_deletions h =
      rw (finish_rows-documents tenant _ 0 w).0 (Keyed-without tenant _ w.documents h)

module _ (now : ℕ) (tenant : Text) (w : World) where
  -- A round answers, and leaves every call to come answered.
  pub sweep_tenant-calm :
      sweep_tenant now tenant (calm w)
      ≡ (ok tt, calm (finish_deletions now tenant (swept_world now tenant w)).1)
  unfolding sweep_tenant sweep_one call meet swept_documents
  sweep_tenant-calm =
      settled_call (finish_deletions now tenant (swept_world now tenant w))
        (finish_deletions-ok now tenant (swept_world now tenant w))
        (finish_deletions-fates now tenant (swept_world now tenant w))

  pub find-sweep_tenant :
      (id : ℕ)
      → Keyed w.documents
      → find id (sweep_tenant now tenant (calm w)).1.documents
        ≡ settle_for now tenant (find id w.documents)
  find-sweep_tenant id h =
      rw
        (
          sweep_tenant-calm,
          find-finish_deletions now tenant id
              (record w { documents = swept_documents now tenant w.documents })
              (Keyed-swept now tenant w.documents h),
          find-swept now tenant id w.documents,
        )
        (settle_steps now tenant (find id w.documents))

  pub Keyed-sweep_tenant : Keyed w.documents → Keyed (sweep_tenant now tenant (calm w)).1.documents
  Keyed-sweep_tenant h = rw sweep_tenant-calm (
      Keyed-finish_deletions now tenant
        (record w { documents = swept_documents now tenant w.documents })
        (Keyed-swept now tenant w.documents h))
