-- ===== src/Tests/Access.antt =====
-- Requests of acme's dashboard and of its widget.
use bot_flow.Prelude.{
  lower, is_space, arith, trim, ℕ, Text, codes, none, some, List, [], ◌∷◌, ◌++◌, true, false, not,
  is_empty, text_eq, ◌≡◌, ◌≢◌, ◌⊎◌, refl, All,
}
use bot_flow.Outcome.{Result}
use bot_flow.World.{Account, answered, lost}
use bot_flow.World.Triples.{After}
use bot_flow.Erasure.{erase_tenant}
use bot_flow.Access.{Platform, Headers, SessionAuth, actor}
use bot_flow.Access.Grants.{Grant, actor-Grant}
use bot_flow.Access.Erased.{actor-erase_tenant}
use bot_flow.ApiKeys.{create_key}
use bot_flow.ApiKeys.Minting.{IsTaken, create_key-actor}
use bot_flow.Accounts.{Settings, slugify}
use bot_flow.Accounts.Handlers.{reset_password, change_password, login, find_email, verify_password}
use bot_flow.Accounts.Recovery.{Done, Start, reset_password-Done, reset_password-once}
use bot_flow.Accounts.Passwords
use bot_flow.Accounts.Passwords.{Changed, change_password-Changed}
use bot_flow.Accounts.Login.{with_accounts, login_uniform}
use bot_flow.Accounts.Slug.{NoCapital, slugify-is_valid_slug}
use bot_flow.Keys.{is_valid_slug}
use bot_flow.Tests.{acme, world}

-- Hashes that show what they hash, and the case table of ASCII.
abbrev platform : Platform
platform = record {
  sha256_hex = λ s. s;
  argon2_hash = λ salt password. some (salt ++ password);
  phc_valid = λ s. not (is_empty s);
  argon2_verify = λ password phc. text_eq password phc;
  char_lowercase = λ c. lower c ∷ [];
  str_lowercase = λ s. s;
  sql_lower = λ s. s;
}

abbrev settings : Settings
settings = record {
  rate_limit_per_minute = 2;
  session_ttl_secs = 600;
  app_base_url = codes "https://app.test/";
}

abbrev widget : Headers
widget = record {
  authorization = some (codes "Bearer h1");
  origin = some (codes "https://acme.test");
}

abbrev tab : SessionAuth
tab = record { account_id = 60; tenant_id = acme; token_hash = codes "h2" }

actor-Grant_example :
    let w = world (answered ∷ []) in
    After
      (λ a _. Grant platform 100 widget w.api_keys w.sessions a.kind a.tenant_id)
      (λ _. Unit {0})
      (actor platform 100 widget w)
actor-Grant_example = actor-Grant platform 100 widget (world (answered ∷ []))

actor-erase_tenant_example :
    After
      (λ _ w'. After (λ a _. a.tenant_id ≢ acme) (λ _. Unit {0}) (actor platform 100 widget w'))
      (λ _. Unit {0})
      (erase_tenant acme (world []))
unfolding text_eq
actor-erase_tenant_example = actor-erase_tenant platform 100 widget acme (world []) refl

abbrev requests : List (ℕ × Text)
requests = (100, acme) ∷ (101, acme) ∷ (119, acme) ∷ (120, acme) ∷ []

create_key-actor_example :
    After
      (IsTaken platform tab (codes "publishable") (codes "HTTPS://Acme.test/" ∷ []))
      (λ _. Unit {0})
      (create_key platform 2 100
        (codes "u")
        (codes "v")
        tab
        (codes "publishable")
        []
        (codes "HTTPS://Acme.test/" ∷ [])
        (world []))
create_key-actor_example =
    create_key-actor platform 2 100 (codes "u") (codes "v") tab (codes "publishable") []
      (codes "HTTPS://Acme.test/" ∷ []) (world [])

abbrev new_password : Text
new_password = codes "long enough"

reset_password-Done_example :
    let w = world [] in
    let done =
      Done platform settings 9000
        (codes "s")
        (codes "h4")
        new_password
        (codes "s" ++ new_password)
        refl
        w.sessions
        w.accounts
        w.resets in
    let start =
      Start platform settings 9000
        (codes "s")
        (codes "h4")
        new_password
        (codes "s" ++ new_password)
        refl
        w.sessions
        w.accounts
        w.resets in
    After
      (λ _. done)
      (λ w'. done w' ⊎ start w')
      (reset_password platform settings 9000 (codes "s") (codes "h4") new_password w)
reset_password-Done_example =
    reset_password-Done platform settings 9000 (codes "s") (codes "h4") new_password
      (codes "s" ++ new_password) refl (world [])

-- The account behind acme's sessions.
abbrev owner_account : Account
owner_account = record {
  id = 60;
  tenant_id = acme;
  email = codes "a@b.c";
  password_hash = codes "p";
}

reset_password-once_example :
    After
      (λ _ w'.
        After
          (λ _ _. ⊥)
          (λ _. Unit {0})
          (reset_password platform settings 9500 (codes "t") (codes "h4") (codes "another one") w'))
      (λ _. Unit {0})
      (reset_password platform settings 9000 (codes "s") (codes "h4") new_password (world []))
reset_password-once_example =
    reset_password-once platform settings 9000 (codes "s") (codes "h4") new_password
      (codes "s" ++ new_password) refl 9500 (codes "t") (codes "another one") (world [])
      (omega arith)

change_password-Changed_example :
    let w = world (answered ∷ answered ∷ answered ∷ lost ∷ []) in
    let changed =
      Changed platform settings 100
        (codes "s")
        tab
        (codes "p")
        new_password
        (codes "s" ++ new_password)
        refl
        w.sessions
        w.accounts in
    let start =
      Passwords.Start platform settings 100
        (codes "s")
        tab
        (codes "p")
        new_password
        (codes "s" ++ new_password)
        refl
        w.sessions
        w.accounts in
    After
      (λ _. changed)
      (λ w'. changed w' ⊎ start w')
      (change_password platform settings 100 (codes "s") tab (codes "p") new_password w)
change_password-Changed_example =
    change_password-Changed platform settings 100 (codes "s") tab (codes "p") new_password
      (codes "s" ++ new_password) refl (world (answered ∷ answered ∷ answered ∷ lost ∷ []))

abbrev try_login : List Account → Result (Text × Text)
try_login accounts =
    (login platform settings 100 (codes "u") (codes "v") (codes "a@b.c") (codes "guess")
      (with_accounts accounts (world []))).0

missing : find_email platform settings (trim (codes "a@b.c")) [] ≡ none
unfolding find_email
missing = refl

there :
    find_email platform settings (trim (codes "a@b.c")) (owner_account ∷ []) ≡ some owner_account
unfolding find_email text_eq trim is_space
there = refl

wrong : verify_password platform settings (codes "guess") owner_account.password_hash ≡ false
unfolding verify_password text_eq
wrong = refl

login_uniform_example : try_login [] ≡ try_login (owner_account ∷ [])
login_uniform_example =
    login_uniform platform settings 100 (codes "u") (codes "v") (codes "a@b.c") (codes "guess") []
      (owner_account ∷ []) (world []) missing owner_account there wrong

lowered : (c : ℕ) → All NoCapital (platform.char_lowercase c)
unfolding lower
lowered c = (ground arith, tt)

named : is_empty (slugify platform.char_lowercase (codes "Acme, Inc.")) ≡ false
unfolding slugify lower
named = refl

slugify-is_valid_slug_example :
    is_valid_slug (slugify platform.char_lowercase (codes "Acme, Inc.")) ≡ true
slugify-is_valid_slug_example =
    slugify-is_valid_slug platform.char_lowercase lowered (codes "Acme, Inc.") named
