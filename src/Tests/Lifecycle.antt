-- ===== src/Tests/Lifecycle.antt =====
-- The transitions of crates/worker/src/lifecycle.rs on concrete rows.
use bot_flow.Prelude.{codes, text_eq, pos, none, some, ◌≡◌, ◌≢◌, ◌↔◌, refl, true, false, arith}
use bot_flow.Documents.{processing, ready, Row}
use bot_flow.Documents.Sql.{find, visible, fetch}
use bot_flow.Documents.Sql.Laws.{Keyed}
use bot_flow.Documents.Lifecycle.{
  proceed, skip, claim, claim_decision, claim_row, finish_from_processing,
}
use bot_flow.Documents.Lifecycle.Claims.{IsClaimable, claim-proceed_iff, claim-claim}
use bot_flow.Documents.Lifecycle.Fence.{finish_fenced}
use bot_flow.Tests.{acme, indexed, table}

keyed : Keyed table
keyed = ground arith

proceeds : (claim 9000 acme 1 (pos 5) (codes "e2") table).0 ≡ proceed
unfolding claim claim_row claim_decision fetch text_eq
proceeds = refl

found : find 1 table ≡ some indexed
unfolding fetch
found = refl

claim-proceed_iff_example : ((claim 9000 acme 1 (pos 5) (codes "e2") table).0 ≡ proceed) ↔ (
    (r : Row) × (find 1 table ≡ some r)
    × (visible acme r ≡ true)
    × IsClaimable r.status r.etag (codes "e2"))
claim-proceed_iff_example = claim-proceed_iff 9000 acme 1 (pos 5) (codes "e2") table keyed

claim-claim_example :
    (claim 9001 acme 1 (pos 6) (codes "e3") (claim 9000 acme 1 (pos 5) (codes "e2") table).1).0
    ≡ skip "another worker is processing it"
claim-claim_example =
    claim-claim 9000 acme 1 (pos 5) (codes "e2") table keyed 9001 (pos 6) (codes "e3") proceeds

not_processing : indexed.status ≢ processing
not_processing = ground arith

finish_fenced_example : finish_from_processing 9000 acme 1 ready none none table ≡ (false, table)
finish_fenced_example =
    finish_fenced 9000 acme 1 ready none none table keyed indexed found not_processing
