-- ===== src/Tests/Listing.antt =====
-- Pages of crates/api/src/handlers.rs on a concrete table.
use bot_flow.Prelude.{none, map, ◌≡◌, ◌≢◌, ◌≤◌, [], arith}
use bot_flow.Documents.Sql.{select}
use bot_flow.Documents.Sql.Laws.{Keyed}
use bot_flow.Actor.{publishable}
use bot_flow.Listing.{max_page_limit, entry, order_rows, shown}
use bot_flow.Listing.Order.{Descending}
use bot_flow.Listing.Pages.{follow, follow-everything}
use bot_flow.Tests.{acme, table, owner, world}

keyed : Keyed table
keyed = ground arith

manages : owner.kind ≢ publishable
manages = ground arith

few : 2 ≤ max_page_limit
few = omega arith

follow-everything_example :
    (follow 5 owner 2 none (world []) ≡ map entry (order_rows (select (shown acme) table)))
    × Descending (order_rows (select (shown acme) table))
follow-everything_example = follow-everything owner 1 (world []) manages few keyed
