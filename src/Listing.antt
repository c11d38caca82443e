-- ===== src/Listing.antt =====
-- `list_documents` of crates/api/src/handlers.rs: the pages of a tenant's documents, and the bounds on
-- what a caller may ask for.
pub mod Order
pub mod Pages
use bot_flow.Prelude.{
  ℕ, suc, ◌+◌, ◌*◌, max, Text, Option, none, some, List, [], ◌∷◌, ◌++◌, map, Bool, true, false, not,
  ◌&&◌, ◌||◌, ◌==◌, ltb, length, take, if◌then◌else◌,
}
use bot_flow.Outcome.{Result, ok, err, client}
use bot_flow.Documents.{Status, FailureReason, Row, Table, is_deleting}
use bot_flow.Documents.Sql.{select, visible}
use bot_flow.World.{World}
use bot_flow.World.Steps.{Exec, pure, lift, call, ◌>>=◌, ◌>>◌}
use bot_flow.Actor.{Actor, require_management}

abbrev pub max_limit : ℕ
max_limit = 20

unfoldable pub over_fetch : ℕ → ℕ
over_fetch limit = max (limit * 4) (limit + 8)

unfoldable pub checked_limit : ℕ → Result ℕ
checked_limit limit =
    if limit == 0 || ltb max_limit limit
    then err (client 422 "limit must be between 1 and 20")
    else ok limit

abbrev pub default_page_limit : ℕ
default_page_limit = 50

abbrev pub max_page_limit : ℕ
max_page_limit = 200

abbrev bounded_page_limit : ℕ → Result ℕ
bounded_page_limit limit =
    if limit == 0 || ltb max_page_limit limit
    then err (client 422 "limit must be between 1 and 200")
    else ok limit

unfoldable pub checked_page_limit : Option ℕ → Result ℕ
checked_page_limit none = bounded_page_limit default_page_limit
checked_page_limit (some limit) = bounded_page_limit limit

-- The timestamp is the time that its text names, as Postgres reads it.
pub record Cursor : Type 0 where
  pub created_at : ℕ
  pub id : ℕ

abbrev pub key : Row → Cursor
key r = record { created_at = r.created_at; id = r.id }

-- `(created_at, id) < cursor`
abbrev pub below : Cursor → Row → Bool
below c r = ltb r.created_at c.created_at || (r.created_at == c.created_at && ltb r.id c.id)

-- The WHERE clause, under the policy.
abbrev pub shown : Text → Row → Bool
shown tenant r = visible tenant r && not (is_deleting r.status)

abbrev pub beyond : Option Cursor → Row → Bool
beyond none r = true
beyond (some c) r = below c r

-- `ORDER BY created_at DESC, id DESC`
unfoldable pub insert_row : Row → List Row → List Row
insert_row r [] = r ∷ []
insert_row r (s ∷ ss) =
    let rest = insert_row r ss in if below (key r) s then r ∷ s ∷ ss else s ∷ rest

unfoldable pub order_rows : List Row → List Row
unfolding insert_row
order_rows [] = []
order_rows (r ∷ rs) = insert_row r (order_rows rs)

unfoldable pub select_page : Text → Option Cursor → ℕ → Table → List Row
unfolding order_rows
select_page tenant before limit t =
    take limit (order_rows (select (λ r. shown tenant r && beyond before r) t))

-- What a caller is shown of a row.
pub record Entry : Type 0 where
  pub id : ℕ
  pub filename : Text
  pub status : Status
  pub failure_reason : Option FailureReason
  pub created_at : ℕ

abbrev pub entry : Row → Entry
entry r = record {
  id = r.id;
  filename = r.filename;
  status = r.status;
  failure_reason = r.failure_reason;
  created_at = r.created_at;
}

abbrev pub last_key : List Row → Option Cursor
last_key [] = none
last_key (r ∷ []) = some (key r)
last_key (r ∷ s ∷ rs) = last_key (s ∷ rs)

pub record Page : Type 0 where
  pub documents : List Entry
  pub next_cursor : Option Cursor
  pub limit : ℕ

-- The page of the rows that were read, of which the last one is only a probe.
unfoldable pub page : ℕ → List Row → Page
page limit rows = record {
  documents = map entry (take limit rows);
  next_cursor = if ltb limit (length rows) then last_key (take limit rows) else none;
  limit = limit;
}

unfoldable pub list_documents : Actor → Option ℕ → Option Cursor → Exec Page
unfolding page
list_documents actor limit before = do
  lift (require_management actor)
  n ← lift (checked_page_limit limit)
  rows ← call (λ w. (select_page actor.tenant_id before (n + 1) w.documents, w))
  pure (page n rows)
