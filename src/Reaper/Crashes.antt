-- ===== src/Reaper/Crashes.antt =====
-- Where the erasures of crates/worker/src/reaper.rs may stop: `finish_deletions`, call by call.
use bot_flow.Prelude.{
  All-filter, filter-All-not, Option-cases, ◌<◌, ℕ, ◌+◌, Text, text_eq, none, some, List, [], ◌∷◌,
  ◌≡◌, ◌≢◌, ◌⊎◌, inl, inr, Bool, true, ◌&&◌, not, arith, filter, All, All-map, Bool-cases,
}
use native.Mathlib.Decide.{ℕ_discrete}
use bot_flow.Documents.{Row, Table, deleting}
use bot_flow.Documents.Sql.{select, fetch, remove, find, visible}
use bot_flow.Documents.Sql.Laws.{Keyed, Keyed-remove, find-remove, find-id, Fresh}
use bot_flow.World.{World, Point}
use bot_flow.World.Stores.{of_document, of_tenant, delete_points, delete_object}
use bot_flow.World.Triples.{After-same, Triple, Triple-call, Triple-pure, Triple-bind}
use bot_flow.Deletion.{entombed}
use bot_flow.Deletion.Crashes.{NoPoints, NoObject}
use bot_flow.Reaper.{
  processing_lease, released, delete_entombed, finish_deletion, finish_rows, finish_deletions,
}

module _ (now : ℕ) (tenant : Text) (id : ℕ) (r : Row) where
  -- The row is there, or it was the tenant's to erase, its worker had released it, and the stores
  -- are clear of it.
  abbrev pub Swept : World → Type 0
  Swept w =
      Keyed w.documents
      × ((find id w.documents ≡ some r)
          ⊎ (NoPoints tenant id r.object_key w
              × NoObject tenant id r.object_key w
              × (visible tenant r ≡ true)
              × (released now r ≡ true)))

  -- What the SELECT says of a row that it returned.
  abbrev Fits : Row → Type 0
  Fits s = s.id ≡ id → (s ≡ r) × (visible tenant r ≡ true) × (released now r ≡ true)

  Swept-points :
      (p : Point → Bool) (w : World)
      → Swept w
      → Swept (record w { points = filter (λ x. not (p x)) w.points })
  Swept-points p w (keyed, inl e) = (keyed, inl e)
  Swept-points p w (keyed, inr (np, clear, v, l)) =
      (keyed, inr (All-filter _ _ w.points np, clear, v, l))

  Swept-objects :
      (key : Text) (w : World)
      → Swept w
      → Swept (record w { objects = filter (λ k. not (text_eq k key)) w.objects })
  Swept-objects key w (keyed, inl e) = (keyed, inl e)
  Swept-objects key w (keyed, inr (np, clear, v, l)) =
      (keyed, inr (np, All-filter _ _ w.objects clear, v, l))

  -- Taking another row away.
  Swept-other :
      (j : ℕ) (w : World)
      → j ≢ id
      → Swept w
      → Swept (record w { documents = remove (entombed tenant j) w.documents })
  Swept-other j w ne (keyed, inr c) = (Keyed-remove (entombed tenant j) w.documents keyed, inr c)
  Swept-other j w ne (keyed, inl e) = (
    Keyed-remove (entombed tenant j) w.documents keyed,
    inl (
        ground
          (arith, find-remove (entombed tenant j) id w.documents keyed, find-id id w.documents e)),
  )

  abbrev Emptied : World → Type 0
  Emptied w = Swept w × NoPoints tenant id r.object_key w

  points_any : (p : Point → Bool) → Triple Swept (delete_points p) (λ _ w. Swept w) Swept
  unfolding delete_points
  points_any p =
      Triple-call _ (λ w fs h. h) (λ w h. h) λ w h. (Swept-points p w h, Swept-points p w h)

  object_any : (key : Text) → Triple Swept (delete_object key) (λ _ w. Swept w) Swept
  unfolding delete_object
  object_any key =
      Triple-call _ (λ w fs h. h) (λ w h. h) λ w h. (Swept-objects key w h, Swept-objects key w h)

  row_other : (j : ℕ) → j ≢ id → Triple Swept (delete_entombed tenant j) (λ _ w. Swept w) Swept
  unfolding delete_entombed
  row_other j ne =
      Triple-call _ (λ w fs h. h) (λ w h. h) λ w h. (Swept-other j w ne h, Swept-other j w ne h)

  points_own :
      Triple Swept
        (delete_points (λ p. of_document id p && of_tenant tenant p))
        (λ _ w. Emptied w)
        Swept
  unfolding delete_points
  points_own =
      Triple-call _ (λ w fs h. h) (λ w h. h)
        λ w h. ((Swept-points _ w h, filter-All-not _ w.points), Swept-points _ w h)

  object_own :
      Triple Emptied
        (delete_object r.object_key)
        (λ _ w. Emptied w × NoObject tenant id r.object_key w)
        Swept
  unfolding delete_object
  object_own =
      Triple-call _ (λ w fs h. h) (λ w h. h.0)
        λ w h. (
          (
            (Swept-objects r.object_key w h.0, h.1),
            filter-All-not (λ k. text_eq k r.object_key) w.objects,
          ),
          Swept-objects r.object_key w h.0,
        )

  row_own :
      visible tenant r ≡ true
      → released now r ≡ true
      → Triple
          (λ w. Emptied w × NoObject tenant id r.object_key w)
          (delete_entombed tenant id)
          (λ _ w. Swept w)
          Swept
  unfolding delete_entombed
  row_own v l =
      Triple-call _ (λ w fs h. h) (λ w h. h.0.0)
        λ w h. (
          (Keyed-remove (entombed tenant id) w.documents h.0.0.0, inr (h.0.1, h.1, v, l)),
          (Keyed-remove (entombed tenant id) w.documents h.0.0.0, inr (h.0.1, h.1, v, l)),
        )

  deletion_step :
      (s : Row)
      → Fits s
      → Triple Swept (finish_deletion tenant s.id s.object_key) (λ _ w. Swept w) Swept
  unfolding finish_deletion
  deletion_step s fits = elim (ℕ_discrete s.id id) [
    | yes same ↦
        let (e, v, l) = fits same in
        rw (same, e)
          (Triple-bind _ _ _ (Triple-bind _ _ _ points_own (λ _. object_own)) (λ _. row_own v l))
    | no other ↦
        Triple-bind _ _ _ (Triple-bind _ _ _ (points_any _) (λ _. object_any s.object_key))
          (λ _. row_other s.id other)
  ]

  rows_step :
      (rows : List Row) (n : ℕ)
      → All Fits rows
      → Triple Swept (finish_rows tenant rows n) (λ _ w. Swept w) Swept
  unfolding finish_rows
  rows_step [] n h = Triple-pure n (λ w s. s)
  rows_step (s ∷ rows) n (f, h) =
      Triple-bind _ _ _ (deletion_step s f) λ m. rows_step rows (n + m) h

module _ (p : Row → Bool) (id : ℕ) (r : Row) where
  abbrev IsIt : Row → Type 0
  IsIt s = s.id ≡ id → (s ≡ r) × (p r ≡ true)

  select-Fresh : (t : Table) → Fresh id t → All IsIt (select p t)
  unfolding select
  select-Fresh [] h = tt
  select-Fresh (s ∷ t) (ne, h) = elim (Bool-cases (p s)) [
    | inl y ↦ rw y ((λ q. absurd (ne q)), select-Fresh t h)
    | inr n ↦ rw n (select-Fresh t h)
  ]

  select-IsIt : (t : Table) → Keyed t → find id t ≡ some r → All IsIt (select p t)
  unfolding select fetch
  select-IsIt [] h e = tt
  select-IsIt (s ∷ t) (fresh, h) e = elim (ℕ_discrete s.id id) [
    | yes q ↦
        let tail = select-Fresh t (rw q at fresh) in
        elim (Bool-cases (p s)) [
          | inl y ↦ rw y ((λ _. (ground arith, ground arith)), tail)
          | inr n ↦ rw n tail
        ]
    | no q ↦
        let tail = select-IsIt t h (ground arith) in
        elim (Bool-cases (p s)) [ inl y ↦ rw y ((λ z. absurd (q z)), tail) | inr n ↦ rw n tail ]
  ]

IsIt-Fits :
    (now : ℕ) (tenant : Text) (id : ℕ) (r : Row) (s : Row)
    → IsIt (λ x. visible tenant x && released now x) id r s
    → Fits now tenant id r s
IsIt-Fits now tenant id r s it same = let (e, both) = it same in (e, ground arith, ground arith)

module _ (now : ℕ) (tenant : Text) (id : ℕ) (r : Row) where
  abbrev Present : World → Type 0
  Present w = Keyed w.documents × (find id w.documents ≡ some r)

  finish_deletions-Triple :
      Triple Present
        (finish_deletions now tenant)
        (λ _ w. Swept now tenant id r w)
        (Swept now tenant id r)
  unfolding finish_deletions
  finish_deletions-Triple =
      Triple-bind (λ rows w. Swept now tenant id r w × All (Fits now tenant id r) rows) _ _
        (Triple-call _ (λ w fs h. h) (λ w h. (h.0, inl h.1))
          λ w h. (
            (
              (h.0, inl h.1),
              All-map (IsIt-Fits now tenant id r) _ (select-IsIt _ id r w.documents h.0 h.1),
            ),
            (h.0, inl h.1),
          ))
        λ rows. record { run = λ w h. (rows_step now tenant id r rows 0 h.1).run w h.0 }

-- A tombstone that the sweep may finish: no worker took the document, or its lease has lapsed.
abbrev pub IsReleased : ℕ → Row → Type 0
IsReleased now r =
    (r.status ≡ deleting)
    × ((r.processing_started_at ≡ none)
        ⊎ ((started : ℕ) × (r.processing_started_at ≡ some started)
            × (started + processing_lease < now)))

released→IsReleased : (now : ℕ) (r : Row) → released now r ≡ true → IsReleased now r
unfolding released
released→IsReleased now r h = (
  ground arith,
  elim (Option-cases r.processing_started_at) [
    | inl e ↦ inl e
    | inr (t, e) ↦ inr (t, e, ground arith)
  ],
)

-- Wherever the sweep of a tenant's tombstones stops, at whatever call and with whatever loss of
-- answers, in a table with no two rows of one id: if a document's row is gone, then it was the
-- tenant's, it was `deleting` with no lease or one older than `PROCESSING_LEASE`, and no vector of it
-- in the tenant nor its object is left.
pub finish_deletions-clears :
    (now : ℕ) (tenant : Text) (id : ℕ) (w : World) (r : Row)
    → Keyed w.documents
    → find id w.documents ≡ some r
    → find id (finish_deletions now tenant w).1.documents ≡ none
    → NoPoints tenant id r.object_key (finish_deletions now tenant w).1
      × NoObject tenant id r.object_key (finish_deletions now tenant w).1
      × (visible tenant r ≡ true)
      × IsReleased now r
finish_deletions-clears now tenant id w r h e gone =
    let after = (finish_deletions-Triple now tenant id r).run w (h, e) in
    elim (After-same (Swept now tenant id r) _ after).1 [
      | inl there ↦ cc
      | inr (np, nk, v, l) ↦ (np, nk, v, released→IsReleased now r l)
    ]
