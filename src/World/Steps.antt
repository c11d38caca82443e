-- ===== src/World/Steps.antt =====
-- Async code over the shared state: what was done before an error stays done, so the state comes
-- back beside the error too. `?` on a result is the bind.
use bot_flow.Prelude.{List, [], ◌∷◌}
use bot_flow.Outcome.{Error, unavailable, Result, ok, err}
use bot_flow.World.{World, Fate, answered, refused, lost}

abbrev pub Exec {ℓ} : Type ℓ → Type ℓ
Exec A = World → Result A × World

module _ {ℓ} {A : Type ℓ} where
  abbrev pub pure : A → Exec A
  pure a w = (ok a, w)

  abbrev pub fail : Error → Exec A
  fail e w = (err e, w)

  abbrev pub lift : Result A → Exec A
  lift r w = (r, w)

  unfoldable pub meet : List Fate → (World → A × World) → Exec A
  meet [] f w = let (a, w') = f w in (ok a, w')
  meet (answered ∷ fs) f w = let (a, w') = f (record w { fates = fs }) in (ok a, w')
  meet (refused ∷ fs) f w = (err unavailable, record w { fates = fs })
  meet (lost ∷ fs) f w = (err unavailable, (f (record w { fates = fs })).1)

  -- One call of a store, or one transaction.
  unfoldable pub call : (World → A × World) → Exec A
  unfolding meet
  call f w = meet w.fates f w

module _ {ℓ κ} {A : Type ℓ} {B : Type κ} where
  abbrev pub continue : Result A → (A → Exec B) → Exec B
  continue (ok a) f w = f a w
  continue (err e) f w = (err e, w)

  infixl 10 ◌>>=◌
  abbrev pub ◌>>=◌ : Exec A → (A → Exec B) → Exec B
  ◌>>=◌ m f w = let (r, w') = m w in continue r f w'

module _ {ℓ κ} {A : Type ℓ} {B : Type κ} where
  infixl 10 ◌>>◌
  abbrev pub ◌>>◌ : Exec A → Exec B → Exec B
  m >> n = m >>= λ _. n

-- What a transaction with the body `f` does to the state: it commits, or it rolls back.
abbrev pub rollback {ℓ} : {A : Type ℓ} → World → Result A × World → Result A × World
rollback w (ok a, w') = (ok a, w')
rollback w (err e, w') = (err e, w)

-- A transaction whose body may answer with an error.
unfoldable pub transact {ℓ} : {A : Type ℓ} → Exec A → Exec A
transact f = call (λ w. rollback w (f w)) >>= lift

-- Whatever runs a single statement, which a constraint may refuse: the pool, or a transaction that is
-- open.
abbrev pub Executor : Type 1
Executor = (A : Type 0) → Exec A → Exec A

abbrev pub pool : Executor
pool A f = transact f

abbrev pub within : Executor
within A f = f

-- A statement that returns nothing.
abbrev pub execute : (World → World) → Exec (Unit {0})
execute f = call λ w. (tt, f w)
