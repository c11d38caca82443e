-- ===== src/Accounts.antt =====
-- crates/api/src/accounts.rs: accounts, sessions and password resets. Argon2 and its random salt, fresh
-- UUIDs (a number for an account, texts for tokens) and the clock are arguments. Mail is sent by a task
-- of its own, so that `forgot_password` gives the link instead, which its caller never sees.
pub mod Handlers
pub mod Recovery
pub mod Passwords
pub mod Login
pub mod Slug
use bot_flow.Prelude.{
  ℕ, ◌+◌, Text, text_eq, codes, Option, none, some, List, [], ◌∷◌, ◌++◌, Bool, true, false, not,
  ◌&&◌, ◌||◌, ◌==◌, leb, ltb, map, filter, take, is_empty, find_first, all, trim, is_space,
  contains, starts_with, reverse, if◌then◌else◌,
}
use bot_flow.Outcome.{Result, ok, err, client, unavailable, other, ok_or, require}
use bot_flow.World.{World, Account, Session, ResetToken}
use bot_flow.World.Steps.{
  Exec, Executor, pure, fail, lift, call, execute, transact, pool, within, ◌>>=◌, ◌>>◌,
}
use bot_flow.Keys.{is_slug_start}
use bot_flow.RateLimit.{check}
use bot_flow.Access.{
  Platform, SessionAuth, generate_session_token, generate_reset_token, hash_key, member,
}
use bot_flow.Access.Origins.{split_once}
use bot_flow.ApiKeys.{provision_tenant}

-- The settings of the service that these handlers read.
pub record Settings : Type 0 where
  pub rate_limit_per_minute : ℕ
  pub session_ttl_secs : ℕ
  pub app_base_url : Text

abbrev pub reset_ttl_secs : ℕ
reset_ttl_secs = 3600

-- `str::len` of a character.
abbrev pub utf8_length : ℕ → ℕ
utf8_length c = if ltb c 0x80 then 1 else if ltb c 0x800 then 2 else if ltb c 0x10000 then 3 else 4

unfoldable pub byte_length : Text → ℕ
byte_length [] = 0
byte_length (c ∷ s) = utf8_length c + byte_length s

unfoldable pub ends_with_dot : Text → Bool
ends_with_dot [] = false
ends_with_dot (c ∷ []) = c == 46
ends_with_dot (c ∷ d ∷ s) = ends_with_dot (d ∷ s)

abbrev plausible_parts : Text → Option (Text × Text) → Bool
plausible_parts s none = false
plausible_parts s (some (local, domain)) =
    not (is_empty local)
    && contains domain (codes ".")
    && not (starts_with domain (codes "."))
    && not (ends_with_dot domain)
    && all (λ c. not (is_space c)) s

unfoldable pub is_plausible_email : Text → Bool
unfolding split_once contains ends_with_dot starts_with
is_plausible_email s = plausible_parts (trim s) (split_once (codes "@") (trim s))

-- One character of `slugify`, after what is out and whether a dash was the last to come.
unfoldable pub slug_step : Text → Bool → ℕ → Text × Bool
slug_step out prev_dash c =
    if is_slug_start c || (leb 65 c && leb c 90)
    then (out ++ c ∷ [], false)
    else if not (is_empty out) && not prev_dash
    then (out ++ 45 ∷ [], true)
    else (out, prev_dash)

unfoldable pub slug_loop : Text → Bool → Text → Text
unfolding slug_step
slug_loop out prev_dash [] = out
slug_loop out prev_dash (c ∷ s) =
    let (out', dash) = slug_step out prev_dash c in slug_loop out' dash s

unfoldable pub trim_dashes_start : Text → Text
trim_dashes_start [] = []
trim_dashes_start (c ∷ s) = let rest = trim_dashes_start s in if c == 45 then rest else c ∷ s

unfoldable pub trim_dashes_end : Text → Text
trim_dashes_end [] = []
trim_dashes_end (c ∷ s) =
    let rest = trim_dashes_end s in if is_empty rest && c == 45 then [] else c ∷ rest

-- `flat_map(char::to_lowercase)`
abbrev pub lowercase : (ℕ → Text) → Text → Text
lowercase char_lowercase [] = []
lowercase char_lowercase (c ∷ s) = char_lowercase c ++ lowercase char_lowercase s

unfoldable pub slugify : (ℕ → Text) → Text → Text
unfolding slug_loop trim_dashes_start trim_dashes_end
slugify char_lowercase s =
    take 63 (trim_dashes_end (trim_dashes_start (slug_loop [] false (lowercase char_lowercase s))))

unfoldable pub find_account : ℕ → List Account → Option Account
find_account id accounts = find_first (λ a. a.id == id) accounts

-- `INSERT INTO sessions`, with its primary key and its foreign keys.
unfoldable pub store_session : Session → Exec (Unit {0})
unfolding find_account
store_session s w =
    let known =
      elim (find_first (λ x. text_eq x.token_hash s.token_hash) w.sessions) as (λ _. Bool) [
        | none ↦ false
        | some _ ↦ true
      ] in
    let owner = elim (find_account s.account_id w.accounts) as (λ _. Bool) [
      | none ↦ false
      | some _ ↦ true
    ] in
    if known || not owner || not (member s.tenant_id w.tenants)
    then (err unavailable, w)
    else (ok tt, record w { sessions = w.sessions ++ s ∷ [] })

unfoldable pub checked_password : Text → Result (Unit {0})
unfolding byte_length
checked_password password =
    if ltb (byte_length password) 8
    then err (client 422 "password must be at least 8 characters")
    else ok tt

unfoldable pub set_password : ℕ → Text → Account → Account
set_password id phc a = if a.id == id then record a { password_hash = phc } else a

-- `WHERE token_hash = $1 AND used_at IS NULL AND expires_at > now()`
unfoldable pub is_redeemable : ℕ → Text → ResetToken → Bool
is_redeemable now hash t =
    text_eq t.token_hash hash
    && (elim t.used_at [ none ↦ true | some _ ↦ false ])
    && ltb now t.expires_at

unfoldable pub redeem : ℕ → Text → ResetToken → ResetToken
unfolding is_redeemable
redeem now hash t = if is_redeemable now hash t then record t { used_at = some now } else t

-- `WHERE account_id = $1 AND used_at IS NULL`
unfoldable pub burn : ℕ → ℕ → ResetToken → ResetToken
burn now account t =
    if t.account_id == account && (elim t.used_at [ none ↦ true | some _ ↦ false ])
    then record t { used_at = some now }
    else t

-- The statements of `reset_password`'s transaction, once the token is redeemed.
unfoldable pub reset_account : ℕ → Text → ℕ → Exec (Unit {0})
unfolding set_password burn
reset_account now phc account w = (
  ok tt,
  record w {
    accounts = map (set_password account phc) w.accounts;
    resets = map (burn now account) w.resets;
    sessions = filter (λ s. not (s.account_id == account)) w.sessions;
  },
)

unfoldable pub redeem_token : ℕ → Text → Exec (Option ResetToken)
unfolding is_redeemable redeem
redeem_token now hash w = (
  ok (find_first (is_redeemable now hash) w.resets),
  record w { resets = map (redeem now hash) w.resets },
)

unfoldable pub redeemed_or : Option ResetToken → Result ℕ
redeemed_or none = err (client 400 "this reset link is invalid or has expired")
redeemed_or (some t) = ok t.account_id

unfoldable pub reset_transaction : ℕ → Text → Text → Exec (Unit {0})
unfolding redeem_token redeemed_or reset_account
reset_transaction now hash phc = do
  found ← redeem_token now hash
  account ← lift (redeemed_or found)
  reset_account now phc account

-- The two statements of `change_password`'s transaction.
unfoldable pub replace_password : SessionAuth → Text → Exec (Unit {0})
unfolding set_password
replace_password session phc w = (
  ok tt,
  record w {
    accounts = map (set_password session.account_id phc) w.accounts;
    sessions =
        filter
          (λ s.
            not
              (s.account_id == session.account_id && not (text_eq s.token_hash session.token_hash)))
          w.sessions;
  },
)

unfoldable pub trim_slashes_end : Text → Text
trim_slashes_end [] = []
trim_slashes_end (c ∷ s) =
    let rest = trim_slashes_end s in if is_empty rest && c == 47 then [] else c ∷ rest
