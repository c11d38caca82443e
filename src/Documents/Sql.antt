-- ===== src/Documents/Sql.antt =====
-- What the SQL statements do to a table, and row-level security: a transaction opened by
-- `tenant_tx` (crates/api/src/db.rs and its copies in the worker) sees one tenant's rows only.
pub mod Laws
use bot_flow.Prelude.{
  ℕ, suc, Text, text_eq, Option, none, some, List, [], ◌∷◌, Bool, true, false, ◌&&◌, ◌==◌, not,
  if◌then◌else◌,
}
use bot_flow.Documents.{Row, Table}

-- `UPDATE documents SET f WHERE p`
unfoldable pub update : (Row → Bool) → (Row → Row) → Table → Table
update p f [] = []
update p f (r ∷ t) = (if p r then f r else r) ∷ update p f t

-- `rows_affected` of an UPDATE or a DELETE
unfoldable pub affected : (Row → Bool) → Table → ℕ
affected p [] = 0
affected p (r ∷ t) = let n = affected p t in if p r then suc n else n

-- `SELECT … WHERE p`
unfoldable pub select : (Row → Bool) → Table → List Row
select p [] = []
select p (r ∷ t) = let rest = select p t in if p r then r ∷ rest else rest

-- `fetch_optional` of a SELECT: the first row
unfoldable pub fetch : (Row → Bool) → Table → Option Row
fetch p [] = none
fetch p (r ∷ t) = let rest = fetch p t in if p r then some r else rest

-- `DELETE FROM documents WHERE p`
unfoldable pub remove : (Row → Bool) → Table → Table
remove p [] = []
remove p (r ∷ t) = let rest = remove p t in if p r then rest else r ∷ rest

-- The policy compares `tenant_id` with `app.current_tenant`.
abbrev pub visible : Text → Row → Bool
visible tenant r = text_eq r.tenant_id tenant

-- `WHERE id = $1` under the policy
abbrev pub owned : Text → ℕ → Row → Bool
owned tenant id r = visible tenant r && r.id == id

-- The row with an id, whoever owns it.
abbrev pub find : ℕ → Table → Option Row
find id = fetch (λ r. r.id == id)

-- The rows that a tenant's transaction cannot see.
abbrev pub foreign : Text → Table → Table
foreign tenant = select (λ r. not (visible tenant r))
