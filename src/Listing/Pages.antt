-- ===== src/Listing/Pages.antt =====
-- A client that follows the cursors of `list_documents` (crates/api/src/handlers.rs).
use bot_flow.Prelude.{
  ℕ, zero, suc, ◌+◌, ◌≤◌, ◌<◌, Option, none, some, List, [], ◌∷◌, ◌++◌, map, append_assoc, Bool,
  true, ◌&&◌, ltb, filter, All, length, take, length-take, Bool-cases, inl, inr, ◌≡◌, ◌≢◌, refl,
  sym, ap, ◌∙◌, arith,
}
use bot_flow.Outcome.{Result, ok, err}
use bot_flow.Documents.{Row, Table}
use bot_flow.Documents.Sql.{select}
use bot_flow.Documents.Sql.Laws.{Keyed}
use bot_flow.World.{World, calm}
use bot_flow.World.Steps.{call, meet}
use bot_flow.Actor.{Actor, publishable, require_management-ok}
use bot_flow.Listing.{
  Cursor, key, below, shown, beyond, insert_row, order_rows, select_page, Entry, entry, last_key,
  Page, page, list_documents, checked_page_limit, max_page_limit,
}
use bot_flow.Listing.Order.{
  below_trans, order_rows-select, Descending, order_rows-Descending, All-middle, below-rest,
}

-- What a client has after a page: the page, and the pages from its cursor on.
abbrev turn : List Entry → Option Cursor → (Cursor → List Entry) → List Entry
turn entries none next = entries
turn entries (some c) next = entries ++ next c

abbrev onward : Result Page → (Cursor → List Entry) → List Entry
onward (err e) next = []
onward (ok p) next = turn p.documents p.next_cursor next

-- Page after page, while the api answers with a cursor and there is fuel.
unfoldable pub follow : ℕ → Actor → ℕ → Option Cursor → World → List Entry
follow zero actor limit before w = []
follow (suc fuel) actor limit before w =
    onward (list_documents actor (some limit) before (calm w)).0
      (λ c. follow fuel actor limit (some c) w)

filter-All : (p : Row → Bool) (l : List Row) → All (λ r. p r ≡ true) (filter p l)
filter-All p [] = tt
filter-All p (r ∷ l) = elim (Bool-cases (p r)) [
  | inl e ↦ rw e (e, filter-All p l)
  | inr e ↦ rw e (filter-All p l)
]

filter-filter :
    (p q : Row → Bool) (l : List Row)
    → ((r : Row) → p r ≡ true → q r ≡ true)
    → filter p (filter q l) ≡ filter p l
filter-filter p q [] h = refl
filter-filter p q (r ∷ l) h = ground (arith, filter-filter p q l h, h r)

last_key-snoc : (pre : List Row) (x : Row) → last_key (pre ++ x ∷ []) ≡ some (key x)
last_key-snoc [] x = refl
last_key-snoc (r ∷ []) x = refl
last_key-snoc (r ∷ s ∷ pre) x = last_key-snoc (s ∷ pre) x

take-take : (n m : ℕ) (l : List Row) → n ≤ m → take n (take m l) ≡ take n l
take-take zero m l h = refl
take-take (suc n) zero l h = ground arith
take-take (suc n) (suc m) [] h = refl
take-take (suc n) (suc m) (r ∷ l) h = ap (λ x. r ∷ x) (take-take n m l (omega arith))

take-same : (n : ℕ) (l : List Row) → length l ≤ n → take n l ≡ l
take-same zero [] h = refl
take-same zero (r ∷ l) h = ground arith
take-same (suc n) [] h = refl
take-same (suc n) (r ∷ l) h = ap (λ x. r ∷ x) (take-same n l (omega arith))

-- A list that is longer than a page, cut at the last row of the page.
abbrev Cut : ℕ → List Row → Type 0
Cut n l =
    (pre : List Row) × (x : Row) × (post : List Row) × (l ≡ pre ++ x ∷ post)
    × (take n l ≡ pre ++ x ∷ [])
    × (length post < length l)

cut : (k : ℕ) (l : List Row) → suc k < length l → Cut (suc k) l
cut k [] h = ground arith
cut zero (x ∷ l) h = ([], x, l, refl, refl, omega arith)
cut (suc k) (y ∷ l) h =
    let (pre, x, post, e, t, n) = cut k l (omega arith) in
    (y ∷ pre, x, post, ap (λ r. y ∷ r) e, ap (λ r. y ∷ r) t, omega arith)

checked_page_limit-ok :
    (k : ℕ) → suc k ≤ max_page_limit → checked_page_limit (some (suc k)) ≡ ok (suc k)
unfolding checked_page_limit
checked_page_limit-ok k h = ground arith

beyond_trans :
    (c : Option Cursor) (x r : Row) → beyond c x ≡ true → below (key x) r ≡ true → beyond c r ≡ true
beyond_trans none x r h h' = refl
beyond_trans (some c) x r h h' = below_trans c x r h h'

page-documents : (n : ℕ) (l : List Row) → (page n (take (n + 1) l)).documents ≡ map entry (take n l)
unfolding page
page-documents n l = ap (map entry) (take-take n (n + 1) l (omega arith))

page-last : (n : ℕ) (l : List Row) → length l ≤ n → (page n (take (n + 1) l)).next_cursor ≡ none
unfolding page
page-last n l h = ground (arith, length-take (n + 1) l)

page-more :
    (n : ℕ) (l : List Row)
    → n < length l
    → (page n (take (n + 1) l)).next_cursor ≡ last_key (take n l)
unfolding page
page-more n l h =
    let full : ltb n (length (take (n + 1) l)) ≡ true = ground (arith, length-take (n + 1) l) in
    rw full (ap last_key (take-take n (n + 1) l (omega arith)))

module _ (fuel : ℕ) (actor : Actor) (limit : ℕ) (before : Option Cursor) (w : World) (p : Page)
    (h : (list_documents actor (some limit) before (calm w)).0 ≡ ok p) where
  follow-last : p.next_cursor ≡ none → follow (suc fuel) actor limit before w ≡ p.documents
  unfolding follow
  follow-last e = rw (h, e) refl

  follow-more :
      (c : Cursor)
      → p.next_cursor ≡ some c
      → follow (suc fuel) actor limit before w ≡ p.documents ++ follow fuel actor limit (some c) w
  unfolding follow
  follow-more c e = rw (h, e) refl

map-append : (xs ys : List Row) → map entry (xs ++ ys) ≡ map entry xs ++ map entry ys
map-append [] ys = refl
map-append (x ∷ xs) ys = ap (λ r. entry x ∷ r) (map-append xs ys)

length-insert_row : (r : Row) (l : List Row) → length (insert_row r l) ≡ suc (length l)
unfolding insert_row
length-insert_row r [] = refl
length-insert_row r (s ∷ l) = ground (arith, length-insert_row r l)

length-order_rows-select :
    (p : Row → Bool) (t : Table) → length (order_rows (select p t)) ≤ length t
unfolding order_rows select
length-order_rows-select p [] = omega arith
length-order_rows-select p (r ∷ t) =
    ground (arith, length-order_rows-select p t, length-insert_row r (order_rows (select p t)))

beyond-none : (l : List Row) → filter (beyond none) l ≡ l
beyond-none [] = refl
beyond-none (r ∷ l) = ap (λ x. r ∷ x) (beyond-none l)

module _ (actor : Actor) (k : ℕ) (w : World) (gate : actor.kind ≢ publishable)
    (most : suc k ≤ max_page_limit) (keyed : Keyed w.documents) where
  abbrev rows : Option Cursor → List Row
  rows c = order_rows (select (λ r. shown actor.tenant_id r && beyond c r) w.documents)

  abbrev everything : List Row
  everything = order_rows (select (shown actor.tenant_id) w.documents)

  -- One page, when every call is answered.
  one_page :
      (c : Option Cursor)
      → (list_documents actor (some (suc k)) c (calm w)).0
        ≡ ok (page (suc k) (take (suc k + 1) (rows c)))
  unfolding list_documents call meet select_page
  one_page c = rw (require_management-ok actor gate, checked_page_limit-ok k most) refl

  -- After the cursor of a row come the rows that follow it.
  rows-next :
      (c : Option Cursor) (pre : List Row) (x : Row) (post : List Row)
      → rows c ≡ pre ++ x ∷ post
      → rows (some (key x)) ≡ post
  rows-next c pre x post e =
      let q : filter (beyond c) everything ≡ pre ++ x ∷ post =
        sym (order_rows-select (shown actor.tenant_id) c w.documents) ∙ e in
      let strict =
        rw e at
          (order_rows-Descending (λ r. shown actor.tenant_id r && beyond c r) w.documents keyed) in
      let inside : beyond c x ≡ true =
        All-middle (λ r. beyond c r ≡ true) pre x post
          (rw q at (filter-All (beyond c) everything)) in
      order_rows-select (shown actor.tenant_id) (some (key x)) w.documents
      ∙ sym (filter-filter (below (key x)) (beyond c) everything (λ r. beyond_trans c x r inside))
      ∙ ap (filter (below (key x))) q
      ∙ below-rest pre x post strict

  -- The first of several pages, and what follows it.
  follow-long :
      (fuel : ℕ) (c : Option Cursor) (pre : List Row) (x : Row) (post : List Row)
      → suc k < length (rows c)
      → rows c ≡ pre ++ x ∷ post
      → take (suc k) (rows c) ≡ pre ++ x ∷ []
      → follow fuel actor (suc k) (some (key x)) w ≡ map entry post
      → follow (suc fuel) actor (suc k) c w ≡ map entry (rows c)
  follow-long fuel c pre x post long e t rest =
      follow-more fuel actor (suc k) c w (page (suc k) (take (suc k + 1) (rows c))) (one_page c)
        (key x) (page-more (suc k) (rows c) long ∙ ap last_key t ∙ last_key-snoc pre x)
      ∙ ap (λ ds. ds ++ follow fuel actor (suc k) (some (key x)) w)
          (page-documents (suc k) (rows c) ∙ ap (map entry) t)
      ∙ ap (λ ds. map entry (pre ++ x ∷ []) ++ ds) rest
      ∙ sym (map-append (pre ++ x ∷ []) post)
      ∙ ap (map entry) (append_assoc pre (x ∷ []) post ∙ sym e)

  follow-short :
      (fuel : ℕ) (c : Option Cursor)
      → length (rows c) ≤ suc k
      → follow (suc fuel) actor (suc k) c w ≡ map entry (rows c)
  follow-short fuel c h =
      follow-last fuel actor (suc k) c w (page (suc k) (take (suc k + 1) (rows c))) (one_page c)
        (page-last (suc k) (rows c) h)
      ∙ page-documents (suc k) (rows c)
      ∙ ap (map entry) (take-same (suc k) (rows c) h)

  follow-rows :
      (fuel : ℕ) (c : Option Cursor)
      → length (rows c) ≤ fuel
      → follow (suc fuel) actor (suc k) c w ≡ map entry (rows c)
  follow-rows zero c h = follow-short zero c (omega (arith, h))
  follow-rows (suc fuel) c h = elim (Bool-cases (ltb (suc k) (length (rows c)))) [
    | inr short ↦ follow-short (suc fuel) c (ground arith)
    | inl long ↦
        let bound : suc k < length (rows c) = ground arith in
        let (pre, x, post, e, t, shorter) = cut k (rows c) bound in
        let next = rows-next c pre x post e in
        let fits : length (rows (some (key x))) ≤ fuel = rw next (omega (arith, shorter, h)) in
        follow-long (suc fuel) c pre x post bound e t
          (follow-rows fuel (some (key x)) fits ∙ ap (map entry) next)
  ]

  -- When every call is answered, the table stays the same from page to page and no two rows have one
  -- id: a client that passes the management gate, asks for pages of 1 to 200 rows and follows the
  -- cursors until there is none gets the tenant's documents that are not `deleting`, each of them once,
  -- the newest first; one request more than the table has rows is enough.
  pub follow-everything :
      (follow (suc (length w.documents)) actor (suc k) none w
        ≡ map entry (order_rows (select (shown actor.tenant_id) w.documents)))
      × Descending (order_rows (select (shown actor.tenant_id) w.documents))
  follow-everything =
      let same : rows none ≡ everything =
        order_rows-select (shown actor.tenant_id) none w.documents ∙ beyond-none everything in
      let enough : length (rows none) ≤ length w.documents =
        rw same (length-order_rows-select (shown actor.tenant_id) w.documents) in
      (
        follow-rows (length w.documents) none enough ∙ ap (map entry) same,
        order_rows-Descending (shown actor.tenant_id) w.documents keyed,
      )
