-- ===== src/Accounts/Handlers.antt =====
-- The handlers of crates/api/src/accounts.rs.
use bot_flow.Prelude.{
  ℕ, ◌+◌, Text, text_eq, codes, Option, none, some, List, [], ◌∷◌, ◌++◌, Bool, true, false, not,
  ◌||◌, filter, is_empty, find_first, trim, if◌then◌else◌,
}
use bot_flow.Outcome.{Result, ok, err, client, unavailable, other, ok_or, require}
use bot_flow.World.{Account, ResetToken}
use bot_flow.World.Steps.{
  Exec, Executor, pure, lift, call, execute, transact, pool, within, ◌>>=◌, ◌>>◌,
}
use bot_flow.RateLimit.{check}
use bot_flow.Access.{
  Platform, SessionAuth, generate_session_token, generate_reset_token, hash_key, member,
}
use bot_flow.ApiKeys.{provision_tenant}
use bot_flow.Accounts.{
  Settings, reset_ttl_secs, is_plausible_email, slugify, find_account, store_session,
  checked_password, reset_transaction, replace_password, trim_slashes_end,
}

pub record RegisterRequest : Type 0 where
  pub email : Text
  pub password : Text
  pub tenant_name : Text
  pub slug : Text

pub record Registered : Type 0 where
  pub session_token : Text
  pub tenant_id : Text
  pub api_key : Text

-- The random values of one registration: a salt, an account id, and the texts of four UUIDs.
pub record Fresh : Type 0 where
  pub salt : Text
  pub account_id : ℕ
  pub key_u : Text
  pub key_v : Text
  pub token_u : Text
  pub token_v : Text

module _ (os : Platform) (settings : Settings) where
  unfoldable pub hash_password : Text → Text → Result Text
  hash_password salt password = ok_or (os.argon2_hash salt password) (other "argon2 hash")

  unfoldable pub verify_password : Text → Text → Bool
  verify_password password phc = if os.phc_valid phc then os.argon2_verify password phc else false

  -- `WHERE lower(email) = lower($1)`
  unfoldable pub find_email : Text → List Account → Option Account
  find_email email accounts =
      find_first (λ a. text_eq (os.sql_lower a.email) (os.sql_lower email)) accounts

  unfoldable pub create_session : Executor → ℕ → Text → Text → ℕ → Text → Exec Text
  unfolding store_session generate_session_token hash_key
  create_session exec now u v account tenant =
      exec (Unit {0}) (
        store_session record {
          token_hash = hash_key os (generate_session_token u v);
          account_id = account;
          tenant_id = tenant;
          expires_at = now + settings.session_ttl_secs;
        })
      >> pure (generate_session_token u v)

  -- `INSERT INTO accounts`, with the unique index on `lower(email)` and the foreign key.
  unfoldable pub store_account : Account → Exec (Unit {0})
  unfolding find_email find_account
  store_account a w =
      let taken = elim (find_email a.email w.accounts) as (λ _. Bool) [
        | none ↦ false
        | some _ ↦ true
      ] in
      let known = elim (find_account a.id w.accounts) as (λ _. Bool) [
        | none ↦ false
        | some _ ↦ true
      ] in
      if taken || known || not (member a.tenant_id w.tenants)
      then (err unavailable, w)
      else (ok tt, record w { accounts = w.accounts ++ a ∷ [] })

  unfoldable pub not_taken : Option Account → Result (Unit {0})
  not_taken none = ok tt
  not_taken (some a) = err (client 409 "an account with this email already exists")

  -- The transaction of `register`.
  unfoldable pub register_transaction : ℕ → Fresh → Text → Text → Text → Exec Registered
  unfolding find_email not_taken provision_tenant store_account create_session
  register_transaction now fresh slug email phc = do
    taken ← within (Option Account) (λ w. (ok (find_email email w.accounts), w))
    lift (not_taken taken)
    key ← provision_tenant os within fresh.key_u fresh.key_v slug
    store_account
        record { id = fresh.account_id; tenant_id = slug; email = email; password_hash = phc }
    token ← create_session within now fresh.token_u fresh.token_v fresh.account_id slug
    pure record { session_token = token; tenant_id = slug; api_key = key }

  unfoldable pub chosen_slug : RegisterRequest → Text
  chosen_slug req =
      if is_empty req.slug then slugify os.char_lowercase req.tenant_name else req.slug

  unfoldable pub register : ℕ → Fresh → RegisterRequest → Exec Registered
  unfolding check is_plausible_email checked_password hash_password register_transaction chosen_slug
  register now fresh req = do
    check settings.rate_limit_per_minute now (codes "auth:register")
    lift (require (is_plausible_email req.email) (client 422 "email is not a valid address"))
    lift (checked_password req.password)
    lift (
        require (not (is_empty (chosen_slug req)))
          (client 422 "could not derive a tenant slug from tenant_name; provide 'slug' explicitly"))
    phc ← lift (hash_password fresh.salt req.password)
    transact (register_transaction now fresh (chosen_slug req) (trim req.email) phc)

  abbrev unauthorized : {A : Type 0} → Result A
  unauthorized = err (client 401 "invalid email or password")

  -- The account of a login, if the password is its own.
  unfoldable pub verified : Text → Option Account → Result Account
  unfolding verify_password
  verified password none = unauthorized
  verified password (some a) =
      if verify_password password a.password_hash then ok a else unauthorized

  unfoldable pub login : ℕ → Text → Text → Text → Text → Exec (Text × Text)
  unfolding check find_email verified create_session
  login now u v raw_email password = do
    check settings.rate_limit_per_minute now
        (codes "auth:login:" ++ os.str_lowercase (trim raw_email))
    row ← call (λ w. (find_email (trim raw_email) w.accounts, w))
    account ← lift (verified password row)
    token ← create_session pool now u v account.id account.tenant_id
    pure (token, account.tenant_id)

  -- `INSERT INTO password_reset_tokens`, with its primary key and its foreign key.
  unfoldable pub store_reset : ResetToken → Exec (Unit {0})
  unfolding find_account
  store_reset t w =
      let known =
        elim (find_first (λ x. text_eq x.token_hash t.token_hash) w.resets) as (λ _. Bool) [
          | none ↦ false
          | some _ ↦ true
        ] in
      let owner = elim (find_account t.account_id w.accounts) as (λ _. Bool) [
        | none ↦ false
        | some _ ↦ true
      ] in
      if known || not owner
      then (err unavailable, w)
      else (ok tt, record w { resets = w.resets ++ t ∷ [] })

  unfoldable pub issue_reset : ℕ → Text → Text → Option Account → Exec (Option Text)
  unfolding store_reset generate_reset_token hash_key trim_slashes_end
  issue_reset now u v none = pure none
  issue_reset now u v (some a) = do
    transact (
        store_reset record {
          token_hash = hash_key os (generate_reset_token u v);
          account_id = a.id;
          expires_at = now + reset_ttl_secs;
          used_at = none;
        })
    pure (
        some (
          trim_slashes_end settings.app_base_url
          ++ codes "/reset-password?token="
          ++ generate_reset_token u v))

  -- The status is 202; beside it, the link that is mailed.
  unfoldable pub forgot_password : ℕ → Text → Text → Text → Exec (ℕ × Option Text)
  unfolding check find_email issue_reset
  forgot_password now u v raw_email = do
    check settings.rate_limit_per_minute now
        (codes "auth:forgot:" ++ os.str_lowercase (trim raw_email))
    row ← call (λ w. (find_email (trim raw_email) w.accounts, w))
    link ← issue_reset now u v row
    pure (202, link)

  unfoldable pub reset_password : ℕ → Text → Text → Text → Exec (Unit {0})
  unfolding check checked_password hash_password reset_transaction hash_key
  reset_password now salt token password = do
    check settings.rate_limit_per_minute now (codes "auth:reset:" ++ hash_key os token)
    lift (checked_password password)
    phc ← lift (hash_password salt password)
    transact (reset_transaction now (hash_key os token) phc)

  unfoldable pub change_password : ℕ → Text → SessionAuth → Text → Text → Exec (Unit {0})
  unfolding check checked_password find_account verify_password hash_password replace_password
  change_password now salt session current_password new_password = do
    check settings.rate_limit_per_minute now (codes "auth:change:" ++ session.tenant_id)
    lift (checked_password new_password)
    row ← call (λ w. (find_account session.account_id w.accounts, w))
    account ← lift (ok_or row (other "session outlived its account"))
    lift (
        require (verify_password current_password account.password_hash)
          (client 403 "current password is incorrect"))
    phc ← lift (hash_password salt new_password)
    transact (replace_password session phc)

unfoldable pub logout : SessionAuth → Exec (Unit {0})
logout session = execute λ w. record w {
  sessions = filter (λ s. not (text_eq s.token_hash session.token_hash)) w.sessions;
}

-- The email of the account, and the id of its tenant; of the tenant's name there is no model.
unfoldable pub me : SessionAuth → Exec (Text × Text)
unfolding find_account
me session = do
  row ← call (λ w. (find_account session.account_id w.accounts, w))
  account ← lift (ok_or row unavailable)
  pure (account.email, account.tenant_id)
