-- ===== src/Access.antt =====
-- crates/api/src/auth.rs: who a request is taken for. SHA-256, Argon2 and the case tables of Unicode and
-- Postgres are fields of `Platform`. A header that is not valid text counts as absent.
pub mod Origins
pub mod Grants
pub mod Erased
use bot_flow.Prelude.{
  ℕ, Text, text_eq, codes, Option, none, some, List, [], ◌∷◌, ◌++◌, Bool, true, false, not, ◌&&◌,
  ◌||◌, ltb, length, drop, is_empty, find_first, starts_with, trim, if◌then◌else◌,
}
use bot_flow.Outcome.{Result, ok, err, client, ok_or}
use bot_flow.World.{World, ApiKey, Session}
use bot_flow.World.Steps.{Exec, pure, fail, lift, call, ◌>>=◌}
use bot_flow.Actor.{Actor, ActorKind, secret, publishable, session}

-- `argon2_hash` takes the random salt; `phc_valid` is whether `PasswordHash::new` accepts a text.
pub record Platform : Type 0 where
  pub sha256_hex : Text → Text
  pub argon2_hash : Text → Text → Option Text
  pub phc_valid : Text → Bool
  pub argon2_verify : Text → Text → Bool
  pub char_lowercase : ℕ → Text
  pub str_lowercase : Text → Text
  pub sql_lower : Text → Text

pub record Headers : Type 0 where
  pub authorization : Option Text
  pub origin : Option Text

pub record AuthTenant : Type 0 where
  pub tenant_id : Text
  pub kind : Text

pub record SessionAuth : Type 0 where
  pub account_id : ℕ
  pub tenant_id : Text
  pub token_hash : Text

abbrev pub strip_prefix : Text → Text → Option Text
strip_prefix s p = if starts_with s p then some (drop (length p) s) else none

abbrev pub session_prefix : Text
session_prefix = codes "sess_"

abbrev pub reset_prefix : Text
reset_prefix = codes "rst_"

-- The texts of two fresh UUIDs are arguments.
unfoldable pub generate_key : Text → Text → Text → Text
generate_key kind u v =
    (if text_eq kind (codes "publishable") then codes "pk" else codes "sk") ++ codes "_" ++ u ++ v

unfoldable pub generate_session_token : Text → Text → Text
generate_session_token u v = session_prefix ++ u ++ v

unfoldable pub generate_reset_token : Text → Text → Text
generate_reset_token u v = reset_prefix ++ u ++ v

unfoldable pub is_session_token : Text → Bool
is_session_token token = starts_with token session_prefix

-- The bearer token of `AdminAuth`, `MetricsAuth`, `SessionAuth` and `Actor`.
abbrev pub bearer : Text → Option Text
bearer header = elim (strip_prefix header (codes "Bearer ")) [
  | none ↦ none
  | some t ↦ some (trim t)
]

unfoldable pub presented : Headers → Option Text
presented h = elim h.authorization [ none ↦ none | some header ↦ bearer header ]

-- The same for `AuthTenant`, which tells the two ways to fail apart.
unfoldable pub tenant_token : Headers → Result Text
tenant_token h = elim h.authorization [
  | none ↦ err (client 401 "missing authorization header")
  | some header ↦ ok_or (bearer header) (client 401 "expected 'Bearer <key>' authorization")
]

abbrev pub missing_header {ℓ} : {A : Type ℓ} → Result A
missing_header = err (client 401 "missing authorization header")

unfoldable pub admin_auth : Text → Headers → Result (Unit {0})
unfolding presented
admin_auth admin_api_key h = elim (presented h) [
  | none ↦ missing_header
  | some token ↦ if text_eq token admin_api_key then ok tt else err (client 401 "invalid admin key")
]

unfoldable pub metrics_auth : Option Text → Headers → Result (Unit {0})
unfolding presented
metrics_auth metrics_token h =
    let configured : Text = elim metrics_token [ none ↦ [] | some t ↦ t ] in
    elim (presented h) [
      | none ↦ missing_header
      | some token ↦
          if not (is_empty configured) && text_eq token configured
          then ok tt
          else err (client 401 "invalid metrics token")
    ]

unfoldable pub find_key : Text → List ApiKey → Option ApiKey
find_key hash keys = find_first (λ k. text_eq k.key_hash hash) keys

-- `WHERE token_hash = $1 AND expires_at > now()`
unfoldable pub find_session : ℕ → Text → List Session → Option Session
find_session now hash sessions =
    find_first (λ s. text_eq s.token_hash hash && ltb now s.expires_at) sessions

abbrev pub member : Text → List Text → Bool
member o [] = false
member o (a ∷ os) = text_eq a o || member o os

-- A publishable key is valid from an allowed origin only.
unfoldable pub origin_gate : Headers → ApiKey → Result AuthTenant
origin_gate h k =
    let allowed : Bool = elim h.origin [ none ↦ false | some o ↦ member o k.allowed_origins ] in
    if text_eq k.kind (codes "publishable") && not allowed
    then err (client 403 "origin not allowed for this key")
    else ok record { tenant_id = k.tenant_id; kind = k.kind }

abbrev pub actor_of_key : AuthTenant → Result Actor
actor_of_key t =
    if text_eq t.kind (codes "secret")
    then ok record { tenant_id = t.tenant_id; kind = secret }
    else if text_eq t.kind (codes "publishable")
    then ok record { tenant_id = t.tenant_id; kind = publishable }
    else err (client 401 "invalid API key")

unfoldable pub require_secret : AuthTenant → Result (Unit {0})
require_secret t =
    if text_eq t.kind (codes "secret")
    then ok tt
    else err (client 403 "this endpoint requires a secret key")

module _ (os : Platform) where
  unfoldable pub hash_key : Text → Text
  hash_key raw = os.sha256_hex raw

  unfoldable pub auth_tenant : Headers → Exec AuthTenant
  unfolding hash_key tenant_token find_key origin_gate
  auth_tenant h = do
    token ← lift (tenant_token h)
    found ← call (λ w. (find_key (hash_key token) w.api_keys, w))
    key ← lift (ok_or found (client 401 "invalid API key"))
    lift (origin_gate h key)

  unfoldable pub session_auth : ℕ → Headers → Exec SessionAuth
  unfolding hash_key presented find_session
  session_auth now h = do
    token ← lift (ok_or (presented h) (client 401 "missing authorization header"))
    found ← call (λ w. (find_session now (hash_key token) w.sessions, w))
    row ← lift (ok_or found (client 401 "invalid or expired session"))
    pure record {
      account_id = row.account_id;
      tenant_id = row.tenant_id;
      token_hash = hash_key token;
    }

  -- `Actor`: the prefix of the token picks the table.
  unfoldable pub actor : ℕ → Headers → Exec Actor
  unfolding presented is_session_token session_auth auth_tenant
  actor now h =
      let is_session : Bool = elim (presented h) [ none ↦ false | some t ↦ is_session_token t ] in
      if is_session
      then session_auth now h >>= (λ s. pure record { tenant_id = s.tenant_id; kind = session })
      else auth_tenant h >>= (λ t. lift (actor_of_key t))
