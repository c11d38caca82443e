-- ===== src/Accounts/Recovery.antt =====
-- What redeeming a reset link does: `reset_password` of crates/api/src/accounts.rs.
use bot_flow.Prelude.{
  ℕ, ◌≤◌, Text, Option, none, some, List, [], ◌∷◌, Bool, true, false, ◌&&◌, ◌==◌, All, Any, Any-map,
  filter-All-not, map, find_first, find_first-Any, find_first-none, All-map, ◌⊎◌, inl, inr, ◌≡◌,
  refl, sym, ap, ◌∙◌, some-injective, arith,
}
use bot_flow.Outcome.{other, ok_or-ok}
use bot_flow.World.{World, Account, Session, ResetToken}
use bot_flow.World.Steps.{continue, transact}
use bot_flow.World.Triples.{
  After, After-map, Triple, Triple-map, Triple-bind, Triple-lift, Triple-transact,
}
use bot_flow.RateLimit.Window.{check-Triple}
use bot_flow.Access.{Platform, hash_key}
use bot_flow.Accounts.{
  Settings, set_password, is_redeemable, redeem, burn, reset_account, redeem_token, redeemed_or,
  reset_transaction, checked_password,
}
use bot_flow.Accounts.Handlers.{hash_password, reset_password}

-- A token that no reset takes any more, at a time or later.
abbrev pub IsSpent : ℕ → Text → ResetToken → Type 0
IsSpent now hash t = (later : ℕ) → now ≤ later → is_redeemable later hash t ≡ false

abbrev pub is_open_for : ℕ → ResetToken → Bool
is_open_for account t = t.account_id == account && (elim t.used_at [ none ↦ true | some _ ↦ false ])

-- The account has the password; no session, and no token that is not used, is left of it.
abbrev pub Secured : Text → ℕ → World → Type 0
Secured phc account w =
    All (λ s. (s.account_id == account) ≡ false) w.sessions
    × All (λ t. is_open_for account t ≡ false) w.resets
    × All (λ a. a.id ≡ account → a.password_hash ≡ phc) w.accounts

module _ (now : ℕ) (hash : Text) where
  redeem-IsSpent : (t : ResetToken) → IsSpent now hash (redeem now hash t)
  unfolding redeem is_redeemable
  redeem-IsSpent t later le = ground arith

  burn-IsSpent :
      (account : ℕ) (t : ResetToken) → IsSpent now hash t → IsSpent now hash (burn now account t)
  unfolding burn is_redeemable
  burn-IsSpent account t h later le = let before = h later le in ground arith

burned : (now account : ℕ) (t : ResetToken) → is_open_for account (burn now account t) ≡ false
unfolding burn
burned now account t = ground arith

pub password_set :
    (phc : Text) (account : ℕ) (a : Account)
    → (set_password account phc a).id ≡ account
    → (set_password account phc a).password_hash ≡ phc
unfolding set_password
password_set phc account a h = ground arith

pub All-mapped {ℓ κ} :
    {A : Type ℓ} {B : Type ℓ} (f : A → B) (P : B → Type κ)
    → ((x : A) → P (f x))
    → (xs : List A) → All P (map f xs)
All-mapped f P h [] = tt
All-mapped f P h (x ∷ xs) = (h x, All-mapped f P h xs)

All-mapped-All :
    {A : Type 0} {P : A → Type 0} (f : A → A)
    → ((x : A) → P x → P (f x))
    → (xs : List A) → All P xs
    → All P (map f xs)
All-mapped-All f h [] _ = tt
All-mapped-All f h (x ∷ xs) (p, ps) = (h x p, All-mapped-All f h xs ps)

module _ (os : Platform) (settings : Settings) (now : ℕ) (token : Text) (later : ℕ)
    (salt password : Text) (le : now ≤ later) where
  abbrev Spent : World → Type 0
  Spent w = All (IsSpent now (hash_key os token)) w.resets

  refuse :
      (phc : Text) (w : World) (o : Option ResetToken)
      → find_first (is_redeemable later (hash_key os token)) w.resets ≡ o
      → o ≡ none
      → After
          (λ _ _. ⊥ × Unit {0})
          (λ _. Unit {0})
          (continue
            (redeemed_or o)
            (reset_account later phc)
            (record w { resets = map (redeem later (hash_key os token)) w.resets }))
  unfolding redeemed_or
  refuse phc w none e n = tt
  refuse phc w (some t) e n = cc

  refuse_step :
      (phc : Text)
      → Triple Spent
          (transact (reset_transaction later (hash_key os token) phc))
          (λ _ _. ⊥)
          (λ _. Unit {0})
  unfolding reset_transaction redeem_token
  refuse_step phc =
      Triple-transact _ (λ w fs h. h) (λ w h. tt)
        λ w h.
          refuse phc w _ refl (find_first-none _ w.resets (All-map (λ t s. s later le) w.resets h))

  later_step :
      Triple Spent (reset_password os settings later salt token password) (λ _ _. ⊥) (λ _. Unit {0})
  unfolding reset_password hash_password
  later_step =
      Triple-bind (λ _ w. Spent w) _ _
        (Triple-map (λ _ w h. h) (λ w h. tt) _ _
          (check-Triple Spent _ later _ (λ w fs h. h) (λ w cs h. h)))
        λ _.
          Triple-lift (checked_password password) _ (λ w h. tt)
            λ _ long. Triple-lift _ _ (λ w h. tt) λ phc e. refuse_step phc

module _ (os : Platform) (settings : Settings) (now : ℕ) (salt token password phc : Text)
    (hashed : os.argon2_hash salt password ≡ some phc) where
  abbrev hash : Text
  hash = hash_key os token

  module _ (ss : List Session) (as_ : List Account) (rs : List ResetToken) where
    -- A token that could be redeemed, of an account.
    abbrev pub Redeemed : ℕ → Type 0
    Redeemed account = Any (λ t. (is_redeemable now hash t ≡ true) × (t.account_id ≡ account)) rs

    abbrev pub Done : World → Type 0
    Done w =
        (account : ℕ) × Redeemed account × Secured phc account w × All (IsSpent now hash) w.resets

    abbrev pub Start : World → Type 0
    Start w = (w.sessions ≡ ss) × (w.accounts ≡ as_) × (w.resets ≡ rs)

    complete :
        (w : World) (o : Option ResetToken)
        → Start w
        → find_first (is_redeemable now hash) w.resets ≡ o
        → After
            (λ _ w'. Done w' × (Done w' ⊎ Start w'))
            (λ _. Unit {0})
            (continue
              (redeemed_or o)
              (reset_account now phc)
              (record w { resets = map (redeem now hash) w.resets }))
    unfolding redeemed_or reset_account
    complete w none start e = tt
    complete w (some t) start e = (done, inl done)
      where
        spent : All (IsSpent now hash) (map (redeem now hash) w.resets)
        spent = All-mapped (redeem now hash) (IsSpent now hash) (redeem-IsSpent now hash) w.resets

        done :
            Done
              (reset_account now phc t.account_id
                (record w { resets = map (redeem now hash) w.resets })).1
        done = (
          t.account_id,
          Any-map (λ x (ex, h). (h, ap (λ y. y.account_id) ex)) rs
              (find_first-Any _ rs t (ap (find_first (is_redeemable now hash)) (sym start.2) ∙ e)),
          (
            filter-All-not (λ s. s.account_id == t.account_id) w.sessions,
            All-mapped _ (λ t'. is_open_for t.account_id t' ≡ false) (burned now t.account_id)
                (map (redeem now hash) w.resets),
            All-mapped _ (λ a. a.id ≡ t.account_id → a.password_hash ≡ phc)
                (password_set phc t.account_id) w.accounts,
          ),
          All-mapped-All (burn now t.account_id) (burn-IsSpent now hash t.account_id)
              (map (redeem now hash) w.resets) spent,
        )

    store_step :
        (phc' : Text)
        → phc' ≡ phc
        → Triple Start
            (transact (reset_transaction now hash phc'))
            (λ _ w. Done w)
            (λ w. Done w ⊎ Start w)
    unfolding reset_transaction redeem_token
    store_step phc' e =
        rw e (Triple-transact _ (λ w fs h. h) (λ w h. inr h) λ w h. complete w _ h refl)

    reset_step :
        Triple Start
          (reset_password os settings now salt token password)
          (λ _ w. Done w)
          (λ w. Done w ⊎ Start w)
    unfolding reset_password hash_password
    reset_step =
        Triple-bind (λ _ w. Start w) _ _
          (Triple-map (λ _ w h. h) (λ w h. inr h) _ _
            (check-Triple Start _ now _ (λ w fs h. h) (λ w cs h. h)))
          λ _.
            Triple-lift _ _ (λ w h. inr h)
              λ _ long.
                Triple-lift _ _ (λ w h. inr h)
                  λ phc' e. store_step phc' (
                    some-injective phc' phc
                      (sym (ok_or-ok _ (other "argon2 hash") phc' e) ∙ hashed))

  -- Resetting a password whose hash is `phc`. If it succeeds, the token was one of an account that was
  -- neither used nor expired; the account has that hash, none of its sessions and no unused token of
  -- it is left; and no row with the hash of the token can be redeemed from then on. If it fails, at whatever
  -- call, the sessions, the accounts and the tokens are as they were, or all of this holds.
  pub reset_password-Done :
      (w : World)
      → After
          (λ _ w'. Done w.sessions w.accounts w.resets w')
          (λ w'. Done w.sessions w.accounts w.resets w' ⊎ Start w.sessions w.accounts w.resets w')
          (reset_password os settings now salt token password w)
  reset_password-Done w = (reset_step w.sessions w.accounts w.resets).run w (refl, refl, refl)

  -- A reset link works once: after a reset with it that succeeded, at that time or later and with
  -- whatever password, no reset with it succeeds.
  pub reset_password-once :
      (later : ℕ) (salt' password' : Text) (w : World)
      → now ≤ later
      → After
          (λ _ w'.
            After
              (λ _ _. ⊥)
              (λ _. Unit {0})
              (reset_password os settings later salt' token password' w'))
          (λ _. Unit {0})
          (reset_password os settings now salt token password w)
  reset_password-once later salt' password' w le =
      After-map
        (λ _ w' (account, redeemed, secured, spent).
          (later_step os settings now token later salt' password' le).run w' spent)
        (λ _ _. tt) (reset_password os settings now salt token password w) (reset_password-Done w)
