-- ===== src/Documents/Sql/Laws.antt =====
-- Laws of the statements: what a read finds after a write, and what a write cannot reach.
use bot_flow.Prelude.{
  ℕ, Text, Option, none, some, [], ◌∷◌, ◌≡◌, ◌≢◌, refl, Bool, true, arith, if◌then◌else◌, All,
  Bool-cases, inl, inr,
}
use bot_flow.Documents.{Row, Table}
use bot_flow.Documents.Sql.{update, affected, select, fetch, remove, visible, find, foreign}

-- What an UPDATE makes of one row.
abbrev pub updated : (Row → Bool) → (Row → Row) → Option Row → Option Row
updated p f none = none
updated p f (some r) = some (if p r then f r else r)

-- The same for a DELETE.
abbrev pub kept : (Row → Bool) → Option Row → Option Row
kept p none = none
kept p (some r) = if p r then none else some r

pub find-update :
    (p : Row → Bool) (f : Row → Row) (id : ℕ) (t : Table)
    → ((r : Row) → (f r).id ≡ r.id)
    → find id (update p f t) ≡ updated p f (find id t)
unfolding update fetch
find-update p f id [] keeps = refl
find-update p f id (r ∷ t) keeps = ground (arith, keeps r, find-update p f id t keeps)

-- No two rows have the same id (the primary key).
abbrev pub Fresh : ℕ → Table → Type 0
Fresh id = All (λ r. r.id ≢ id)

abbrev pub Keyed : Table → Type 0
Keyed [] = Unit
Keyed (r ∷ t) = Fresh r.id t × Keyed t

pub find-Fresh : (id : ℕ) (t : Table) → Fresh id t → find id t ≡ none
unfolding fetch
find-Fresh id [] h = refl
find-Fresh id (r ∷ t) (ne, h) = ground (arith, find-Fresh id t h)

Fresh-update :
    (p : Row → Bool) (f : Row → Row) (id : ℕ) (t : Table)
    → ((r : Row) → (f r).id ≡ r.id)
    → Fresh id t
    → Fresh id (update p f t)
unfolding update
Fresh-update p f id [] keeps h = tt
Fresh-update p f id (r ∷ t) keeps (ne, h) = (ground (arith, keeps r), Fresh-update p f id t keeps h)

pub Keyed-update :
    (p : Row → Bool) (f : Row → Row) (t : Table)
    → ((r : Row) → (f r).id ≡ r.id)
    → Keyed t
    → Keyed (update p f t)
unfolding update
Keyed-update p f [] keeps h = tt
Keyed-update p f (r ∷ t) keeps (fresh, h) = elim (Bool-cases (p r)) [
  | inl e ↦ rw e (rw (keeps r) (Fresh-update p f r.id t keeps fresh), Keyed-update p f t keeps h)
  | inr e ↦ rw e (Fresh-update p f r.id t keeps fresh, Keyed-update p f t keeps h)
]

Fresh-remove : (p : Row → Bool) (id : ℕ) (t : Table) → Fresh id t → Fresh id (remove p t)
unfolding remove
Fresh-remove p id [] h = tt
Fresh-remove p id (r ∷ t) (ne, h) = ground (arith, Fresh-remove p id t h)

pub Keyed-remove : (p : Row → Bool) (t : Table) → Keyed t → Keyed (remove p t)
unfolding remove
Keyed-remove p [] h = tt
Keyed-remove p (r ∷ t) (fresh, h) = elim (Bool-cases (p r)) [
  | inl e ↦ rw e (Keyed-remove p t h)
  | inr e ↦ rw e (Fresh-remove p r.id t fresh, Keyed-remove p t h)
]

pub find-remove :
    (p : Row → Bool) (id : ℕ) (t : Table) → Keyed t → find id (remove p t) ≡ kept p (find id t)
unfolding remove fetch
find-remove p id [] h = refl
find-remove p id (r ∷ t) (fresh, h) =
    ground (arith, find-remove p id t h, λ (e : r.id ≡ id). find-Fresh id t (rw e at fresh))

pub find-id : (id : ℕ) (t : Table) {r : Row} → find id t ≡ some r → r.id ≡ id
unfolding fetch
find-id id [] h = cc
find-id id (s ∷ t) {r} h = ground (arith, find-id id t {r = r})

-- A condition that holds of one id only, such as `WHERE id = $1 AND …`.
abbrev pub Selects : ℕ → (Row → Bool) → Type 0
Selects id p = (r : Row) → p r ≡ true → r.id ≡ id

fetch-Fresh : (p : Row → Bool) (id : ℕ) (t : Table) → Selects id p → Fresh id t → fetch p t ≡ none
unfolding fetch
fetch-Fresh p id [] sel h = refl
fetch-Fresh p id (r ∷ t) sel (ne, h) = ground (arith, sel r, fetch-Fresh p id t sel h)

affected-Fresh :
    (p : Row → Bool) (id : ℕ) (t : Table) → Selects id p → Fresh id t → affected p t ≡ 0
unfolding affected
affected-Fresh p id [] sel h = refl
affected-Fresh p id (r ∷ t) sel (ne, h) = ground (arith, sel r, affected-Fresh p id t sel h)

-- The row of a read result that a condition holds of.
abbrev pub matching : (Row → Bool) → Option Row → Option Row
matching p none = none
matching p (some r) = if p r then some r else none

abbrev pub count_of : Option Row → ℕ
count_of none = 0
count_of (some r) = 1

-- Under a key, such a condition meets at most the row with that id.
pub fetch-Keyed :
    (p : Row → Bool) (id : ℕ) (t : Table)
    → Selects id p
    → Keyed t
    → fetch p t ≡ matching p (find id t)
unfolding fetch
fetch-Keyed p id [] sel h = refl
fetch-Keyed p id (r ∷ t) sel (fresh, h) = ground (
  arith,
  sel r,
  fetch-Keyed p id t sel h,
  λ (e : r.id ≡ id). fetch-Fresh p id t sel (rw e at fresh),
)

pub affected-Keyed :
    (p : Row → Bool) (id : ℕ) (t : Table)
    → Selects id p
    → Keyed t
    → affected p t ≡ count_of (matching p (find id t))
unfolding fetch affected
affected-Keyed p id [] sel h = refl
affected-Keyed p id (r ∷ t) sel (fresh, h) = ground (
  arith,
  sel r,
  affected-Keyed p id t sel h,
  λ (e : r.id ≡ id). affected-Fresh p id t sel (rw e at fresh),
)

-- A statement confined to a tenant leaves the others' rows as they were.
abbrev pub Confined : Text → (Row → Bool) → Type 0
Confined tenant p = (r : Row) → p r ≡ true → visible tenant r ≡ true

pub foreign-update :
    (tenant : Text) (p : Row → Bool) (f : Row → Row) (t : Table)
    → ((r : Row) → (f r).tenant_id ≡ r.tenant_id)
    → Confined tenant p
    → foreign tenant (update p f t) ≡ foreign tenant t
unfolding update select
foreign-update tenant p f [] keeps c = refl
foreign-update tenant p f (r ∷ t) keeps c =
    ground (arith, keeps r, c r, foreign-update tenant p f t keeps c)

pub foreign-remove :
    (tenant : Text) (p : Row → Bool) (t : Table)
    → Confined tenant p
    → foreign tenant (remove p t) ≡ foreign tenant t
unfolding remove select
foreign-remove tenant p [] c = refl
foreign-remove tenant p (r ∷ t) c = ground (arith, c r, foreign-remove tenant p t c)

-- An UPDATE or a DELETE that affects no row changes nothing.
pub update_of_affected_zero :
    (p : Row → Bool) (f : Row → Row) (t : Table) → affected p t ≡ 0 → update p f t ≡ t
unfolding update affected
update_of_affected_zero p f [] h = refl
update_of_affected_zero p f (r ∷ t) h = ground (arith, update_of_affected_zero p f t)
