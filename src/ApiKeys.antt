-- ===== src/ApiKeys.antt =====
-- How API keys and tenants are made, changed and revoked: crates/api/src/handlers.rs
-- (`insert_api_key`, `provision_tenant`, `create_tenant`, `mint_key`) and crates/api/src/accounts.rs
-- (`list_keys`, `create_key`, `update_key`, `revoke_key`). Fresh UUIDs, as texts, are arguments.
pub mod Minting
use bot_flow.Prelude.{
  ℕ, Text, text_eq, codes, Option, none, some, List, [], ◌∷◌, ◌++◌, Bool, true, false, not, ◌&&◌,
  ◌||◌, map, filter, is_empty, find_first, if◌then◌else◌,
}
use bot_flow.Outcome.{Result, ok, err, client, unavailable, ok_or, require}
use bot_flow.World.{World, ApiKey}
use bot_flow.World.Steps.{
  execute, Exec, Executor, pure, fail, lift, call, transact, pool, within, ◌>>=◌, ◌>>◌,
}
use bot_flow.Keys.{is_valid_slug}
use bot_flow.RateLimit.{check}
use bot_flow.Access.{Platform, AuthTenant, SessionAuth, generate_key, hash_key, find_key, member}
use bot_flow.Access.Origins.{checked_origins}

-- `INSERT INTO api_keys`, with its primary key and its foreign key.
unfoldable pub store_key : ApiKey → Exec (Unit {0})
store_key k w =
    let known = elim (find_key k.key_hash w.api_keys) as (λ _. Bool) [
      | none ↦ false
      | some _ ↦ true
    ] in
    if known || not (member k.tenant_id w.tenants)
    then (err unavailable, w)
    else (ok tt, record w { api_keys = w.api_keys ++ k ∷ [] })

unfoldable pub label_or_default : Text → Text
label_or_default label = if is_empty label then codes "default" else label

unfoldable pub checked_kind : Text → Result (Unit {0})
checked_kind kind =
    if not (text_eq kind (codes "secret")) && not (text_eq kind (codes "publishable"))
    then err (client 400 "kind must be 'secret' or 'publishable'")
    else ok tt

-- `INSERT INTO tenants … ON CONFLICT (id) DO NOTHING`: whether a row was inserted.
unfoldable pub store_tenant : Text → Exec Bool
store_tenant slug w =
    if member slug w.tenants
    then (ok false, w)
    else (ok true, record w { tenants = w.tenants ++ slug ∷ [] })

-- `WHERE tenant_id = $1 AND key_hash = $2`
unfoldable pub is_key : Text → Text → ApiKey → Bool
is_key tenant hash k = text_eq k.tenant_id tenant && text_eq k.key_hash hash

unfoldable pub set_origins : Text → Text → List Text → ApiKey → ApiKey
unfolding is_key
set_origins tenant hash origins k =
    if is_key tenant hash k then record k { allowed_origins = origins } else k

module _ (os : Platform) where
  unfoldable pub insert_api_key :
      Executor → Text → Text → Text → Text → Text → List Text → Exec Text
  unfolding store_key generate_key hash_key
  insert_api_key exec u v tenant kind label raw_origins = do
    origins ← lift (checked_origins kind raw_origins)
    exec (Unit {0}) (
        store_key record {
          key_hash = hash_key os (generate_key kind u v);
          tenant_id = tenant;
          kind = kind;
          label = label;
          allowed_origins = origins;
        })
    pure (generate_key kind u v)

  unfoldable pub provision_tenant : Executor → Text → Text → Text → Exec Text
  unfolding store_tenant insert_api_key is_valid_slug
  provision_tenant exec u v slug = do
    lift
        (require (is_valid_slug slug) (client 400 "tenant id must match ^[a-z0-9][a-z0-9-]{0,62}$"))
    inserted ← exec Bool (store_tenant slug)
    lift (require inserted (client 409 "tenant already exists"))
    insert_api_key exec u v slug (codes "secret") (codes "default") []

  -- On one connection, with no transaction.
  unfoldable pub create_tenant : Text → Text → Text → Exec Text
  unfolding provision_tenant
  create_tenant u v slug = provision_tenant pool u v slug

  unfoldable pub mint_key : Text → Text → Text → Text → Text → List Text → Exec Text
  unfolding checked_kind label_or_default insert_api_key
  mint_key u v tenant kind label origins = do
    lift (checked_kind kind)
    exists ← call (λ w. (member tenant w.tenants, w))
    lift (require exists (client 404 "tenant does not exist; create it first"))
    insert_api_key pool u v tenant kind (label_or_default label) origins

  unfoldable pub create_key :
      ℕ → ℕ → Text → Text → SessionAuth → Text → Text → List Text → Exec Text
  unfolding checked_kind label_or_default insert_api_key check
  create_key limit now u v session kind label origins = do
    check limit now (codes "keys:" ++ session.tenant_id)
    lift (checked_kind kind)
    insert_api_key pool u v session.tenant_id kind (label_or_default label) origins

unfoldable pub list_keys : SessionAuth → Exec (List ApiKey)
list_keys session = call λ w. (filter (λ k. text_eq k.tenant_id session.tenant_id) w.api_keys, w)

unfoldable pub update_key : SessionAuth → Text → List Text → Exec (List Text)
unfolding is_key set_origins checked_origins
update_key session hash raw_origins = do
  found ← call (λ w. (find_first (is_key session.tenant_id hash) w.api_keys, w))
  key ← lift (ok_or found (client 404 "key not found"))
  origins ← lift (checked_origins key.kind raw_origins)
  execute (λ w. record w { api_keys = map (set_origins session.tenant_id hash origins) w.api_keys })
  pure origins

-- The rows that the DELETE leaves, and whether it took any.
unfoldable pub revoke_key : SessionAuth → Text → Exec (Unit {0})
unfolding is_key
revoke_key session hash = do
  deleted ← call (λ w. (
    not (is_empty (filter (is_key session.tenant_id hash) w.api_keys)),
    record w { api_keys = filter (λ k. not (is_key session.tenant_id hash k)) w.api_keys },
  ))
  lift (require deleted (client 404 "key not found"))
