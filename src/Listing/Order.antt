-- ===== src/Listing/Order.antt =====
-- The order of the listing in crates/api/src/handlers.rs, and what a cursor cuts off.
use bot_flow.Prelude.{
  filter-same, All-filter, ℕ, Option, none, some, List, [], ◌∷◌, ◌++◌, Bool, true, false, ◌&&◌,
  filter, All, Bool-cases, inl, inr, ◌≡◌, ◌≢◌, refl, arith, if◌then◌else◌,
}
use bot_flow.Documents.{Row, Table}
use bot_flow.Documents.Sql.{select}
use bot_flow.Documents.Sql.Laws.{Keyed, Fresh}
use bot_flow.Listing.{Cursor, key, below, beyond, insert_row, order_rows}

pub below_trans :
    (c : Cursor) (r s : Row) → below c r ≡ true → below (key r) s ≡ true → below c s ≡ true
below_trans c r s h h' = ground arith

-- A filter that a row passes only if every later row does commutes with the insertion.
filter-insert_row :
    (c : Option Cursor) (r : Row) (l : List Row)
    → filter (beyond c) (insert_row r l)
      ≡ (if beyond c r then insert_row r (filter (beyond c) l) else filter (beyond c) l)
unfolding insert_row
filter-insert_row none r [] = refl
filter-insert_row none r (s ∷ l) = ground (arith, filter-insert_row none r l)
filter-insert_row (some c) r [] = refl
filter-insert_row (some c) r (s ∷ l) =
    ground (arith, filter-insert_row (some c) r l, below_trans c r s)

pub order_rows-select :
    (p : Row → Bool) (c : Option Cursor) (t : Table)
    → order_rows (select (λ r. p r && beyond c r) t) ≡ filter (beyond c) (order_rows (select p t))
unfolding order_rows select
order_rows-select p c [] = refl
order_rows-select p c (r ∷ t) =
    ground (arith, order_rows-select p c t, filter-insert_row c r (order_rows (select p t)))

-- Each row is above all that follow it.
abbrev pub Descending : List Row → Type 0
Descending [] = Unit
Descending (r ∷ rs) = All (λ s. below (key r) s ≡ true) rs × Descending rs

insert_row-All :
    (P : Row → Type 0) (r : Row) (l : List Row) → P r → All P l → All P (insert_row r l)
unfolding insert_row
insert_row-All P r [] h hs = (h, tt)
insert_row-All P r (s ∷ l) h (hs, hl) = elim (Bool-cases (below (key r) s)) [
  | inl e ↦ rw e (h, (hs, hl))
  | inr e ↦ rw e (hs, insert_row-All P r l h hl)
]

order_rows-All : (P : Row → Type 0) (l : List Row) → All P l → All P (order_rows l)
unfolding order_rows
order_rows-All P [] h = tt
order_rows-All P (r ∷ l) (h, hl) = insert_row-All P r (order_rows l) h (order_rows-All P l hl)

below-All :
    (r s : Row) (l : List Row)
    → below (key r) s ≡ true
    → All (λ x. below (key s) x ≡ true) l
    → All (λ x. below (key r) x ≡ true) l
below-All r s [] h hs = tt
below-All r s (x ∷ l) h (hx, hs) = (below_trans (key r) s x h hx, below-All r s l h hs)

below_total : (r s : Row) → s.id ≢ r.id → below (key r) s ≡ false → below (key s) r ≡ true
below_total r s ne h = ground arith

insert_row-Descending :
    (r : Row) (l : List Row) → All (λ s. s.id ≢ r.id) l → Descending l → Descending (insert_row r l)
unfolding insert_row
insert_row-Descending r [] ne d = (tt, tt)
insert_row-Descending r (s ∷ l) (ne, nes) (hs, d) = elim (Bool-cases (below (key r) s)) [
  | inl e ↦ rw e ((e, below-All r s l e hs), (hs, d))
  | inr e ↦ rw e (
    insert_row-All (λ x. below (key s) x ≡ true) r l (below_total r s ne e) hs,
    insert_row-Descending r l nes d,
  )
]

select-Fresh : (p : Row → Bool) (id : ℕ) (t : Table) → Fresh id t → Fresh id (select p t)
unfolding select
select-Fresh p id [] h = tt
select-Fresh p id (r ∷ t) (ne, h) = elim (Bool-cases (p r)) [
  | inl e ↦ rw e (ne, select-Fresh p id t h)
  | inr e ↦ rw e (select-Fresh p id t h)
]

-- In a table with no two rows of one id, the order is strict.
pub order_rows-Descending :
    (p : Row → Bool) (t : Table) → Keyed t → Descending (order_rows (select p t))
unfolding order_rows select
order_rows-Descending p [] h = tt
order_rows-Descending p (r ∷ t) (fresh, h) = elim (Bool-cases (p r)) [
  | inl e ↦ rw e (
      insert_row-Descending r (order_rows (select p t))
        (order_rows-All (λ s. s.id ≢ r.id) (select p t) (select-Fresh p r.id t fresh))
        (order_rows-Descending p t h))
  | inr e ↦ rw e (order_rows-Descending p t h)
]

pub filter-Descending : (q : Row → Bool) (l : List Row) → Descending l → Descending (filter q l)
filter-Descending q [] d = tt
filter-Descending q (r ∷ l) (h, d) = elim (Bool-cases (q r)) [
  | inl e ↦ rw e (All-filter q _ l h, filter-Descending q l d)
  | inr e ↦ rw e (filter-Descending q l d)
]

pub All-middle :
    (P : Row → Type 0) (pre : List Row) (r : Row) (post : List Row) → All P (pre ++ r ∷ post) → P r
All-middle P [] r post (h, _) = h
All-middle P (s ∷ pre) r post (_, h) = All-middle P pre r post h

below_asym : (r s : Row) → below (key s) r ≡ true → below (key r) s ≡ false
below_asym r s h = ground arith

below_irrefl : (r : Row) → below (key r) r ≡ false
below_irrefl r = ground arith

-- What stands below a row of a strictly descending list is what follows it.
pub below-rest :
    (pre : List Row) (r : Row) (post : List Row)
    → Descending (pre ++ r ∷ post)
    → filter (below (key r)) (pre ++ r ∷ post) ≡ post
below-rest [] r post (h, d) = rw (below_irrefl r) (filter-same (below (key r)) post h)
below-rest (s ∷ pre) r post (h, d) =
    rw (below_asym r s (All-middle (λ x. below (key s) x ≡ true) pre r post h))
      (below-rest pre r post d)
