-- ===== src/Access/Erased.antt =====
-- After a tenant's erasure (crates/api/src/erasure.rs) no credential is taken for the tenant's
-- (crates/api/src/auth.rs).
use bot_flow.Prelude.{ℕ, Text, text_eq, text_eq_refl, All, All-Any, Any_rec, List, false, ◌≡◌, ◌≢◌}
use bot_flow.World.{World, ApiKey, Session}
use bot_flow.World.Triples.{After, After-map}
use bot_flow.Actor.{ActorKind, secret, publishable, session}
use bot_flow.Erasure.{erase_tenant}
use bot_flow.Erasure.Traces.{IsListed, NoCredentials, erase_tenant-Traceless}
use bot_flow.Access.{Platform, Headers, actor}
use bot_flow.Access.Grants.{Grant, actor-Grant}

module _ (os : Platform) (now : ℕ) (h : Headers) (tenant : Text) where
  unbacked :
      (ks : List ApiKey) (ss : List Session) (kind : ActorKind)
      → All (λ k. text_eq k.tenant_id tenant ≡ false) ks
      → All (λ s. text_eq s.tenant_id tenant ≡ false) ss
      → Grant os now h ks ss kind tenant
      → ⊥
  unbacked ks ss session hk hs (token, et, c, row) =
      Any_rec (λ x (e, (_, _, t)). cc (rw t at e, text_eq_refl tenant)) ss (All-Any _ _ ss hs row)
  unbacked ks ss secret hk hs (token, et, row) =
      Any_rec (λ x (e, (_, _, t, _)). cc (rw t at e, text_eq_refl tenant)) ks
        (All-Any _ _ ks hk row)
  unbacked ks ss publishable hk hs (token, et, row) =
      Any_rec (λ x (e, (_, _, t, _)). cc (rw t at e, text_eq_refl tenant)) ks
        (All-Any _ _ ks hk row)

  shut_out :
      (w : World)
      → NoCredentials tenant w
      → After (λ a _. a.tenant_id ≢ tenant) (λ _. Unit {0}) (actor os now h w)
  shut_out w (hk, hs) =
      After-map (λ a _ g e. unbacked w.api_keys w.sessions a.kind hk hs (rw e at g)) (λ _ u. u)
        (actor os now h w) (actor-Grant os now h w)

  -- Once the erasure of a listed tenant has succeeded, no request is taken for the tenant's,
  -- whatever credential it presents and whichever calls fail.
  pub actor-erase_tenant :
      (w : World)
      → IsListed tenant w
      → After
          (λ _ w'. After (λ a _. a.tenant_id ≢ tenant) (λ _. Unit {0}) (actor os now h w'))
          (λ _. Unit {0})
          (erase_tenant tenant w)
  actor-erase_tenant w listed =
      After-map (λ _ w' traceless. shut_out w' traceless.0) (λ _ _. tt) (erase_tenant tenant w)
        (erase_tenant-Traceless tenant w listed)
