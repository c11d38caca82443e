-- ===== src/Accounts/Login.antt =====
-- What a failed login tells: `login` of crates/api/src/accounts.rs.
use bot_flow.Prelude.{
  ℕ, Text, codes, Option, none, some, List, [], ◌∷◌, false, ◌==◌, ltb, Bool-cases, inl, inr, trim,
  ◌++◌, ◌≡◌, refl, sym, ◌∙◌, ◌⊎◌,
}
use bot_flow.Outcome.{Result, ok, err, client, unavailable}
use bot_flow.World.{World, Account, Fate, answered, refused, lost}
use bot_flow.World.Steps.{Exec, call, meet, continue, ◌>>=◌, lift}
use bot_flow.RateLimit.{expire_first, admit, check}
use bot_flow.Access.{Platform}
use bot_flow.Accounts.{Settings}
use bot_flow.Accounts.Handlers.{find_email, verify_password, verified, login}

-- The same state with other accounts.
abbrev pub with_accounts : List Account → World → World
with_accounts as_ w = record w { accounts = as_ }

module _ (as_ : List Account) where
  -- A program that neither reads nor writes the accounts.
  record Blind {A : Type 0} (m : Exec A) : Type 0 where
    same : (w : World) → m (with_accounts as_ w) ≡ ((m w).0, with_accounts as_ (m w).1)

  meet-Blind :
      {A : Type 0} (f : World → A × World)
      → ((w : World) → f (with_accounts as_ w) ≡ ((f w).0, with_accounts as_ (f w).1))
      → (fs : List Fate) (w : World)
      → meet fs f (with_accounts as_ w) ≡ ((meet fs f w).0, with_accounts as_ (meet fs f w).1)
  unfolding meet
  meet-Blind f frame [] w = rw (frame w) refl
  meet-Blind f frame (answered ∷ fs) w = rw (frame (record w { fates = fs })) refl
  meet-Blind f frame (refused ∷ fs) w = refl
  meet-Blind f frame (lost ∷ fs) w = rw (frame (record w { fates = fs })) refl

  call-Blind :
      {A : Type 0} (f : World → A × World)
      → ((w : World) → f (with_accounts as_ w) ≡ ((f w).0, with_accounts as_ (f w).1))
      → Blind (call f)
  unfolding call
  call-Blind f frame = record { same = λ w. meet-Blind f frame w.fates w }

  continue-Blind :
      {A B : Type 0} (r : Result A) (f : A → Exec B)
      → ((a : A) → Blind (f a))
      → Blind (continue r f)
  continue-Blind (ok a) f h = h a
  continue-Blind (err e) f h = record { same = λ w. refl }

  bind-Blind :
      {A B : Type 0} (m : Exec A) (f : A → Exec B)
      → Blind m
      → ((a : A) → Blind (f a))
      → Blind (m >>= f)
  bind-Blind m f first rest = record {
    same = λ w. rw (first.same w) ((continue-Blind (m w).0 f rest).same (m w).1);
  }

  expire-Blind : (count : ℕ) → Blind (expire_first count)
  expire-Blind count = elim (Bool-cases (count == 1)) [
    | inl e ↦ rw e (call-Blind _ λ w. refl)
    | inr e ↦ rw e (record { same = λ w. refl })
  ]

  admit-Blind : (limit count : ℕ) → Blind (admit limit count)
  admit-Blind limit count = elim (Bool-cases (ltb limit count)) [
    | inl e ↦ rw e (record { same = λ w. refl })
    | inr e ↦ rw e (record { same = λ w. refl })
  ]

  check-Blind : (limit now : ℕ) (bucket : Text) → Blind (check limit now bucket)
  unfolding check
  check-Blind limit now bucket =
      bind-Blind _ _ (call-Blind _ λ w. refl)
        λ count. bind-Blind _ _ (expire-Blind count) λ _. admit-Blind limit count

module _ (os : Platform) (settings : Settings) (now : ℕ) (u v email password : Text) where
  abbrev invalid : Result (Text × Text)
  invalid = err (client 401 "invalid email or password")

  -- What a login answers that fails once it has asked for the account.
  abbrev asked : List Fate → Result (Text × Text)
  asked [] = invalid
  asked (answered ∷ fs) = invalid
  asked (refused ∷ fs) = err unavailable
  asked (lost ∷ fs) = err unavailable

  abbrev refusal : Result (Unit {0}) × World → Result (Text × Text)
  refusal (err e, w) = err e
  refusal (ok _, w) = asked w.fates

  abbrev found : List Account → Option Account
  found as_ = find_email os settings (trim email) as_

  -- No account has the email, or the one that has it has another password.
  abbrev pub Fails : List Account → Type 0
  Fails as_ =
      (found as_ ≡ none)
      ⊎ ((a : Account) × (found as_ ≡ some a)
          × (verify_password os settings password a.password_hash ≡ false))

  Fails-verified :
      (as_ : List Account)
      → Fails as_
      → verified os settings password (found as_) ≡ err (client 401 "invalid email or password")
  unfolding verified
  Fails-verified as_ (inl e) = rw e refl
  Fails-verified as_ (inr (a, e, wrong)) = rw (e, wrong) refl

  module _ (as_ : List Account) (fails : Fails as_) (rest : Account → Exec (Text × Text)) where
    ask-asked :
        (fs : List Fate) (w : World)
        → (continue
            (meet fs (λ w. (found w.accounts, w)) (with_accounts as_ w)).0
            (λ row. lift (verified os settings password row) >>= rest)
            (meet fs (λ w. (found w.accounts, w)) (with_accounts as_ w)).1).0
          ≡ asked fs
    unfolding meet
    ask-asked [] w = rw (Fails-verified as_ fails) refl
    ask-asked (answered ∷ fs) w = rw (Fails-verified as_ fails) refl
    ask-asked (refused ∷ fs) w = refl
    ask-asked (lost ∷ fs) w = refl

    ask-refusal :
        (x : Result (Unit {0}) × World)
        → (continue x.0
            (λ _.
              call (λ w. (found w.accounts, w))
              >>= (λ row. lift (verified os settings password row) >>= rest))
            (with_accounts as_ x.1)).0
          ≡ refusal x
    unfolding call
    ask-refusal (err e, w) = refl
    ask-refusal (ok _, w) = ask-asked w.fates w

  login-refusal :
      (as_ : List Account) (w : World)
      → Fails as_
      → (login os settings now u v email password (with_accounts as_ w)).0
        ≡ refusal (
            check settings.rate_limit_per_minute now
              (codes "auth:login:" ++ os.str_lowercase (trim email))
              w)
  unfolding login
  login-refusal as_ w fails =
      rw
        ((check-Blind as_ settings.rate_limit_per_minute now
            (codes "auth:login:" ++ os.str_lowercase (trim email))).same
          w)
        (ask-refusal as_ fails _ (
          check settings.rate_limit_per_minute now
            (codes "auth:login:" ++ os.str_lowercase (trim email)) w))

  -- A login whose email has no account and one whose email has an account with another password are
  -- answered alike, in states that differ in the accounts only, whichever calls fail and whatever the
  -- limiter says.
  pub login_uniform :
      (as_ bs : List Account) (w : World)
      → found as_ ≡ none
      → (b : Account) → found bs ≡ some b
      → verify_password os settings password b.password_hash ≡ false
      → (login os settings now u v email password (with_accounts as_ w)).0
        ≡ (login os settings now u v email password (with_accounts bs w)).0
  login_uniform as_ bs w missing b there wrong =
      login-refusal as_ w (inl missing) ∙ sym (login-refusal bs w (inr (b, there, wrong)))
