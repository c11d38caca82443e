-- ===== src/Tests/Uploads.antt =====
-- Upload URLs of crates/api/src/upload/mod.rs that are asked for again.
use bot_flow.Prelude.{codes, text_eq, none, some, [], ◌≡◌, refl, true, arith}
use bot_flow.Outcome.{ok, err, client}
use bot_flow.Documents.{uploading}
use bot_flow.Documents.Sql.{find, fetch}
use bot_flow.Documents.Sql.Laws.{Keyed, matching}
use bot_flow.World.{calm}
use bot_flow.Uploads.{Signing, awaiting, refresh_session}
use bot_flow.Uploads.Sessions.{refresh_session-refused, refresh_session-renewed}
use bot_flow.Tests.{acme, table, pending, world}

abbrev signing : Signing
signing = record {
  path_extension = λ _. some (codes "pdf");
  to_lowercase = λ t. t;
  uuid_text = λ _. codes "u";
  presign = λ key _. ok key;
}

keyed : Keyed table
keyed = ground arith

found : find 4 table ≡ some pending
unfolding fetch
found = refl

awaited : awaiting acme 4 pending ≡ true
unfolding text_eq
awaited = refl

settled_one : matching (awaiting acme 1) (find 1 table) ≡ none
unfolding fetch text_eq
settled_one = refl

refresh_session-refused_example :
    refresh_session signing 9000 acme 1 600 (calm (world []))
    ≡ (err (client 404 "no document awaiting upload with that id"), calm (world []))
refresh_session-refused_example =
    refresh_session-refused signing 9000 acme 1 600 (world []) keyed settled_one

refresh_session-renewed_example :
    let (answer, w') = refresh_session signing 9000 acme 4 600 (calm (world [])) in
    (answer ≡ ok (record { document_id = 4; upload_url = codes "k"; expires_at = 9600 }))
    × (find 4 w'.documents
        ≡ some (record pending { upload_expires_at = some 9600; status = uploading }))
refresh_session-renewed_example =
    refresh_session-renewed signing 9000 acme 4 600 (world []) keyed pending (codes "k") found
      awaited refl
