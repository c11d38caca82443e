-- ===== src/Uploads/Sessions.antt =====
-- Which documents an upload URL is minted for again: `refresh_session` of crates/api/src/upload/mod.rs.
use bot_flow.Prelude.{ℕ, ◌+◌, Text, none, some, ◌≡◌, refl, true, arith}
use bot_flow.Outcome.{ok, err, client}
use bot_flow.Documents.{uploading, Row}
use bot_flow.Documents.Sql.{update, affected, find, fetch}
use bot_flow.Documents.Sql.Laws.{
  Keyed, matching, Selects, fetch-Keyed, affected-Keyed, find-update, update_of_affected_zero,
}
use bot_flow.World.{World, calm}
use bot_flow.World.Steps.{call, meet}
use bot_flow.Uploads.{Signing, awaiting, renewed, refresh_session}

awaiting-Selects : (tenant : Text) (id : ℕ) → Selects id (awaiting tenant id)
awaiting-Selects tenant id r h = ground arith

renewed-id : (now ttl : ℕ) (r : Row) → (renewed now ttl r).id ≡ r.id
unfolding renewed
renewed-id now ttl r = refl

module _ (sig : Signing) (now : ℕ) (tenant : Text) (id ttl : ℕ) (w : World)
    (keyed : Keyed w.documents) where
  -- When every call is answered and no two rows have one id: unless the tenant has a row with that id
  -- which is `uploading` or `expired`, a URL is refused with 404 and the state stays as it was.
  pub refresh_session-refused :
      matching (awaiting tenant id) (find id w.documents) ≡ none
      → refresh_session sig now tenant id ttl (calm w)
        ≡ (err (client 404 "no document awaiting upload with that id"), calm w)
  unfolding refresh_session call meet
  refresh_session-refused h =
      let missing : fetch (awaiting tenant id) w.documents ≡ none =
        rw (fetch-Keyed (awaiting tenant id) id w.documents (awaiting-Selects tenant id) keyed) h in
      let untouched : affected (awaiting tenant id) w.documents ≡ 0 = ground (
        arith,
        affected-Keyed (awaiting tenant id) id w.documents (awaiting-Selects tenant id) keyed,
      ) in
      rw
        (
          missing,
          update_of_affected_zero (awaiting tenant id) (renewed now ttl) w.documents untouched,
        )
        refl

  -- When every call is answered, no two rows have one id and the URL can be signed: the tenant's row
  -- that is `uploading` or `expired` becomes `uploading` with a window that ends `ttl` seconds from now,
  -- and the answer is the document, the URL signed for the key of the row, and that end.
  pub refresh_session-renewed :
      (r : Row) (url : Text)
      → find id w.documents ≡ some r
      → awaiting tenant id r ≡ true
      → sig.presign r.object_key ttl ≡ ok url
      → let (answer, w') = refresh_session sig now tenant id ttl (calm w) in
        (answer ≡ ok (record { document_id = id; upload_url = url; expires_at = now + ttl }))
        × (find id w'.documents
            ≡ some (record r { upload_expires_at = some (now + ttl); status = uploading }))
  unfolding refresh_session call meet renewed
  refresh_session-renewed r url e a signed =
      let there : fetch (awaiting tenant id) w.documents ≡ some r =
        rw
          (fetch-Keyed (awaiting tenant id) id w.documents (awaiting-Selects tenant id) keyed, e, a)
          refl in
      let row : find id (update (awaiting tenant id) (renewed now ttl) w.documents)
          ≡ some (renewed now ttl r) =
        rw
          (
            find-update (awaiting tenant id) (renewed now ttl) id w.documents (renewed-id now ttl),
            e,
            a,
          )
          refl in
      rw (there, signed) (refl, row)
