-- ===== src/Tests/Worker.antt =====
-- Upload events of crates/worker/src/main.rs on a concrete state.
use bot_flow.Prelude.{
  ℕ, pos, codes, text_eq, some, List, [], ◌∷◌, ◌≡◌, refl, true, false, All, arith,
}
use bot_flow.Outcome.{unavailable, ok, err}
use bot_flow.Documents.{quarantined, too_large}
use bot_flow.Documents.Sql.{find, fetch, visible}
use bot_flow.Documents.Sql.Laws.{Keyed}
use bot_flow.Documents.Lifecycle.{proceed, claim, claim_row, claim_decision, claimed, settled}
use bot_flow.World.{calm}
use bot_flow.Chunk.{Chunk}
use bot_flow.Worker.{UploadedObject, Services, handled, handle}
use bot_flow.Worker.Settles.{Ends, handle-Ends, handle-oversize}
use bot_flow.Tests.{acme, table, indexed, dying, world}

-- The embeddings endpoint is down.
abbrev services : Services
services = record {
  head_object = λ _. ok (200, some (pos 5));
  get_object = λ _. ok (200, codes "hello");
  parse_to_text = λ bytes _ _. ok bytes;
  post = λ _. err unavailable;
  describe = λ _. codes "unavailable";
  to_lowercase = λ t. t;
  max_upload_bytes = pos 1000;
  quarantine_note = λ _. codes "too large";
}

abbrev event : ℕ → ℕ → UploadedObject
event id size = record {
  tenant_id = acme;
  document_id = id;
  object_key = codes "k";
  size = pos size;
  etag = codes "e2";
}

keyed : Keyed table
keyed = ground arith

found : find 1 table ≡ some indexed
unfolding fetch
found = refl

found_dying : find 3 table ≡ some dying
unfolding fetch
found_dying = refl

seen : visible acme dying ≡ true
unfolding text_eq
seen = refl

proceeds : (claim 9000 acme 1 (pos 5) (codes "e2") table).0 ≡ proceed
unfolding claim claim_row claim_decision fetch text_eq
proceeds = refl

handle-Ends_example :
    Ends services 9100
      (claimed 9000 (pos 5) (codes "e2") indexed)
      1
      (handle services 9000 9100 (event 1 5) (calm (world [])))
handle-Ends_example =
    handle-Ends services 9000 9100 (event 1 5) (world []) indexed keyed refl proceeds found

handle-oversize_example :
    let (verdict, w') = handle services 9000 9100 (event 3 2000) (calm (world [])) in
    (verdict ≡ handled)
    × (find 3 w'.documents
        ≡ some (settled 9000 quarantined (some (codes "too large")) (some too_large) dying))
    × All (λ k. text_eq k (codes "k") ≡ false) w'.objects
    × (w'.points ≡ (world []).points)
handle-oversize_example =
    handle-oversize services 9000 9100 (event 3 2000) (world []) dying keyed refl found_dying seen

abbrev pieces : List Chunk
pieces =
    record { text = codes "one"; char_start = 0; char_end = 3 }
    ∷ record { text = codes "two"; char_start = 4; char_end = 7 }
    ∷ []
