-- ===== src/Tests/Transitions.antt =====
-- A document that is uploaded, claimed and indexed.
use bot_flow.Prelude.{codes, none, some, [], ◌∷◌, All, pos}
use bot_flow.Documents.{Table}
use bot_flow.Documents.Lifecycle.{claim, mark_ready}
use bot_flow.Uploads.{inserted}
use bot_flow.Transitions.{
  Reachable, empty, after, creates, claims, succeeds, IsConsistent, Reachable-IsConsistent,
}
use bot_flow.Tests.{acme}

abbrev uploaded_table : Table
uploaded_table =
    inserted 100 5 acme (codes "a.pdf") (codes "k5") (codes "application/pdf") (some 1000) none ∷ []

abbrev claimed_table : Table
claimed_table = (claim 200 acme 5 (pos 10) (codes "e") uploaded_table).1

abbrev indexed_table : Table
indexed_table = (mark_ready 300 acme 5 claimed_table).1

way : Reachable indexed_table
way =
    after claimed_table indexed_table
      (after uploaded_table claimed_table
        (after [] uploaded_table empty (
          creates 100 5 acme (codes "a.pdf") (codes "k5") (codes "application/pdf") (some 1000) none
            [] tt))
        (claims 200 5 acme (codes "e") (pos 10) uploaded_table))
      (succeeds 300 5 acme claimed_table)

Reachable-IsConsistent_example : All IsConsistent indexed_table
Reachable-IsConsistent_example = Reachable-IsConsistent indexed_table way
