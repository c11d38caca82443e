-- ===== src/Accounts/Passwords.antt =====
-- What changing a password does: `change_password` of crates/api/src/accounts.rs.
use bot_flow.Prelude.{
  ℕ, Text, text_eq, text_eq→eq, Option, some, List, [], ◌∷◌, Bool, true, not, ◌&&◌, ◌==◌, All,
  filter, Bool-cases, ◌⊎◌, inl, inr, ◌≡◌, refl, sym, ap, ◌∙◌, some-injective, arith,
}
use bot_flow.Outcome.{client, other, ok_or, require, require-ok, ok_or-ok}
use bot_flow.World.{World, Account, Session}
use bot_flow.World.Steps.{lift, transact, ◌>>=◌, ◌>>◌}
use bot_flow.World.Triples.{
  After, Triple, Triple-map, Triple-call, Triple-bind, Triple-lift, Triple-transact,
}
use bot_flow.RateLimit.Window.{check-Triple}
use bot_flow.Access.{Platform, SessionAuth}
use bot_flow.Accounts.{Settings, find_account, replace_password, checked_password}
use bot_flow.Accounts.Handlers.{hash_password, verify_password, change_password}
use bot_flow.Accounts.Recovery.{All-mapped, password_set}

module _ {A : Type 0} (p q : A → Bool) (sub : (x : A) → q x ≡ true → p x ≡ true) where
  filter-filter : (xs : List A) → filter q (filter p xs) ≡ filter q xs
  filter-filter [] = refl
  filter-filter (x ∷ xs) = elim (Bool-cases (q x)) [
    | inl e ↦ rw (sub x e, e, filter-filter xs) refl
    | inr e ↦ elim (Bool-cases (p x)) [
      | inl d ↦ rw (d, e, filter-filter xs) refl
      | inr d ↦ rw (d, e, filter-filter xs) refl
    ]
  ]

-- The sessions that are not the account's.
abbrev pub others : ℕ → List Session → List Session
others account ss = filter (λ s. not (s.account_id == account)) ss

abbrev pub holding : Text → List Session → List Session
holding hash ss = filter (λ s. text_eq s.token_hash hash) ss

module _ (session : SessionAuth) where
  abbrev stays : Session → Bool
  stays s =
      not (s.account_id == session.account_id && not (text_eq s.token_hash session.token_hash))

  only_current :
      (ss : List Session)
      → All
          (λ s. s.account_id ≡ session.account_id → s.token_hash ≡ session.token_hash)
          (filter stays ss)
  only_current [] = tt
  only_current (s ∷ ss) = elim (Bool-cases (stays s)) [
    | inl e ↦ rw e (λ h. text_eq→eq _ _ (ground arith), only_current ss)
    | inr e ↦ rw e (only_current ss)
  ]

module _ (os : Platform) (settings : Settings) (now : ℕ) (salt : Text) (session : SessionAuth)
    (current new phc : Text) (hashed : os.argon2_hash salt new ≡ some phc) where
  module _ (ss : List Session) (as_ : List Account) where
    abbrev pub Start : World → Type 0
    Start w = (w.sessions ≡ ss) × (w.accounts ≡ as_)

    -- The caller knew the password; it is replaced; of the account's sessions the caller's is left, and
    -- no other account's is touched.
    abbrev pub Changed : World → Type 0
    Changed w =
        ((a : Account) × (find_account session.account_id as_ ≡ some a)
          × (verify_password os settings current a.password_hash ≡ true))
        × All (λ a. a.id ≡ session.account_id → a.password_hash ≡ phc) w.accounts
        × All (λ s. s.account_id ≡ session.account_id → s.token_hash ≡ session.token_hash)
            w.sessions
        × (holding session.token_hash w.sessions ≡ holding session.token_hash ss)
        × (others session.account_id w.sessions ≡ others session.account_id ss)

    store_step :
        (phc' : Text)
        → phc' ≡ phc
        → (a : Account) → find_account session.account_id as_ ≡ some a
        → verify_password os settings current a.password_hash ≡ true
        → Triple Start
            (transact (replace_password session phc'))
            (λ _ w. Changed w)
            (λ w. Changed w ⊎ Start w)
    unfolding replace_password
    store_step phc' e a found knew = rw e (
        Triple-transact _ (λ w fs h. h) (λ w h. inr h)
          λ w h.
            let done : Changed (replace_password session phc w).1 = (
              (a, found, knew),
              All-mapped _ (λ a. a.id ≡ session.account_id → a.password_hash ≡ phc)
                  (password_set phc session.account_id) w.accounts,
              only_current session w.sessions,
              rw (sym h.0) (
                  filter-filter (stays session) (λ s. text_eq s.token_hash session.token_hash)
                    (λ s t. ground arith) w.sessions),
              rw (sym h.0) (
                  filter-filter (stays session) (λ s. not (s.account_id == session.account_id))
                    (λ s t. ground arith) w.sessions),
            ) in
            (done, inl done))

    pair_step :
        (a : Account) (row : Option Account)
        → row ≡ some a
        → Triple
            (λ w. (row ≡ find_account session.account_id as_) × Start w)
            (lift (
                require
                  (verify_password os settings current a.password_hash)
                  (client 403 "current password is incorrect"))
              >> (lift (hash_password os settings salt new)
                  >>= (λ phc. transact (replace_password session phc))))
            (λ _ w. Changed w)
            (λ w. Changed w ⊎ Start w)
    unfolding hash_password
    pair_step a row e =
        Triple-lift _ _ (λ w h. inr h.1)
          λ _ knew.
            Triple-lift _ _ (λ w h. inr h.1)
              λ phc' ep. record {
                run = λ w h.
                    (store_step phc'
                        (some-injective phc' phc
                          (sym (ok_or-ok _ (other "argon2 hash") phc' ep) ∙ hashed))
                        a (sym h.0 ∙ e) (require-ok _ _ _ _ knew).0).run
                      w h.1;
              }

    change_step :
        Triple Start
          (change_password os settings now salt session current new)
          (λ _ w. Changed w)
          (λ w. Changed w ⊎ Start w)
    unfolding change_password hash_password
    change_step =
        Triple-bind (λ _ w. Start w) _ _
          (Triple-map (λ _ w h. h) (λ w h. inr h) _ _
            (check-Triple Start _ now _ (λ w fs h. h) (λ w cs h. h)))
          λ _.
            Triple-lift (checked_password new) _ (λ w h. inr h)
              λ _ long.
                Triple-bind (λ row w. (row ≡ find_account session.account_id as_) × Start w) _ _
                  (Triple-call _ (λ w fs h. h) (λ w h. inr h)
                    λ w h. ((ap (find_account session.account_id) h.1, h), inr h))
                  λ row.
                    Triple-lift (ok_or row (other "session outlived its account")) _
                      (λ w h. inr h.1) λ a ea. pair_step a row (ok_or-ok row _ a ea)

  -- Changing a password to one whose hash is `phc`. If it succeeds, the caller presented the
  -- password of the session's account; the account has the new hash; of its sessions only those with the
  -- caller's token are left, and these stay; no session of another account is touched. If it fails, at
  -- whatever call, the sessions and the accounts are as they were, or all of this holds.
  pub change_password-Changed :
      (w : World)
      → After
          (λ _ w'. Changed w.sessions w.accounts w')
          (λ w'. Changed w.sessions w.accounts w' ⊎ Start w.sessions w.accounts w')
          (change_password os settings now salt session current new w)
  change_password-Changed w = (change_step w.sessions w.accounts).run w (refl, refl)
