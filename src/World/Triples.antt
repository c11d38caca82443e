-- ===== src/World/Triples.antt =====
-- What holds after a program over the shared state, if it returns and if it stops with an error.
use bot_flow.Prelude.{◌≡◌, refl, List, [], ◌∷◌}
use bot_flow.Outcome.{Error, Result, ok, err}
use bot_flow.World.{World, Fate, answered, refused, lost}
use bot_flow.World.Steps.{transact, rollback, Exec, pure, fail, lift, meet, call, continue, ◌>>=◌}

module _ {ℓ} {A : Type ℓ} where
  abbrev pub After : (A → World → Type 0) → (World → Type 0) → Result A × World → Type 0
  After Q E (ok a, w) = Q a w
  After Q E (err e, w) = E w

  -- From `P`, the program returns with `Q` of its result, or stops with `E`.
  pub record Triple (P : World → Type 0) (m : Exec A) (Q : A → World → Type 0) (E : World → Type 0)
      : Type ℓ where
    pub run : (w : World) → P w → After Q E (m w)

-- What does not look at the fates of the calls to come.
abbrev pub Stable : (World → Type 0) → Type 0
Stable P = (w : World) (fs : List Fate) → P w → P (record w { fates = fs })

module _ {ℓ} {A : Type ℓ} (P : World → Type 0) (Q : A → World → Type 0) (E : World → Type 0)
    (f : World → A × World) where
  meet-After :
      (fs : List Fate) (w : World)
      → Stable P
      → ((w : World) → P w → E w)
      → ((w : World) → P w → Q (f w).0 (f w).1 × E (f w).1)
      → P w
      → After Q E (meet fs f w)
  unfolding meet
  meet-After [] w stable stop step h = (step w h).0
  meet-After (answered ∷ fs) w stable stop step h =
      (step (record w { fates = fs }) (stable w fs h)).0
  meet-After (refused ∷ fs) w stable stop step h = stop (record w { fates = fs }) (stable w fs h)
  meet-After (lost ∷ fs) w stable stop step h = (step (record w { fates = fs }) (stable w fs h)).1

module _ {ℓ κ} {A : Type ℓ} {B : Type κ} (R : A → World → Type 0) (Q : B → World → Type 0)
    (E : World → Type 0) where
  continue-After :
      (x : Result A × World) (f : A → Exec B)
      → After R E x
      → ((a : A) → Triple (R a) (f a) Q E)
      → After Q E (continue x.0 f x.1)
  continue-After (ok a, w) f h rest = (rest a).run w h
  continue-After (err e, w) f h rest = h

module _ {ℓ} {A : Type ℓ} {P : World → Type 0} {Q : A → World → Type 0} {E : World → Type 0} where
  pub Triple-call :
      (f : World → A × World)
      → Stable P
      → ((w : World) → P w → E w)
      → ((w : World) → P w → Q (f w).0 (f w).1 × E (f w).1)
      → Triple P (call f) Q E
  unfolding call
  Triple-call f stable stop step = record {
    run = λ w h. meet-After P Q E f w.fates w stable stop step h;
  }

  pub Triple-pure : (a : A) → ((w : World) → P w → Q a w) → Triple P (pure a) Q E
  Triple-pure a h = record { run = h }

  pub Triple-fail : (e : Error) → ((w : World) → P w → E w) → Triple P (fail e) Q E
  Triple-fail e h = record { run = h }

module _ {ℓ κ} {A : Type ℓ} {B : Type κ} {P : World → Type 0} {Q : B → World → Type 0}
    {E : World → Type 0} where
  pub Triple-bind :
      (R : A → World → Type 0) (m : Exec A) (f : A → Exec B)
      → Triple P m R E
      → ((a : A) → Triple (R a) (f a) Q E)
      → Triple P (m >>= f) Q E
  Triple-bind R m f first rest = record {
    run = λ w h. continue-After R Q E (m w) f (first.run w h) rest;
  }

  pub Triple-lift :
      (r : Result A) (f : A → Exec B)
      → ((w : World) → P w → E w)
      → ((a : A) → r ≡ ok a → Triple P (f a) Q E)
      → Triple P (lift r >>= f) Q E
  Triple-lift (ok a) f stop rest = rest a refl
  Triple-lift (err e) f stop rest = record { run = stop }

-- A program whose success and failure end in the same condition ends in it.
pub After-same {ℓ} :
    {A : Type ℓ} (E : World → Type 0) (x : Result A × World) → After (λ _. E) E x → E x.1
After-same E (ok a, w) h = h
After-same E (err e, w) h = h

module _ {ℓ} {A : Type ℓ} {Q R : A → World → Type 0} {E D : World → Type 0}
    (weaker : (a : A) (w : World) → Q a w → R a w) (stopped : (w : World) → E w → D w) where
  pub After-map : (x : Result A × World) → After Q E x → After R D x
  After-map (ok a, w) h = weaker a w h
  After-map (err e, w) h = stopped w h

  -- A weaker end.
  pub Triple-map : (P : World → Type 0) (m : Exec A) → Triple P m Q E → Triple P m R D
  Triple-map P m t = record { run = λ w h. After-map (m w) (t.run w h) }

pub Triple-last {ℓ} :
    {A : Type ℓ} {P : World → Type 0} {Q : A → World → Type 0} {E : World → Type 0} (r : Result A)
    → ((w : World) → P w → E w)
    → ((a : A) → r ≡ ok a → (w : World) → P w → Q a w)
    → Triple P (lift r) Q E
Triple-last (ok a) stop done = record { run = done a refl }
Triple-last (err e) stop done = record { run = stop }

-- A transaction, whose body gives the state to commit or an error.
pub Triple-transact {ℓ} :
    {A : Type ℓ} {P : World → Type 0} {Q : A → World → Type 0} {E : World → Type 0} (f : Exec A)
    → Stable P
    → ((w : World) → P w → E w)
    → ((w : World) → P w → After (λ a w'. Q a w' × E w') (λ _. Unit {0}) (f w))
    → Triple P (transact f) Q E
unfolding transact
Triple-transact {Q = Q} {E = E} f stable stop step =
    Triple-bind (λ r w. After Q E (r, w)) _ _
      (Triple-call _ stable stop λ w h. committed w (stop w h) (f w) (step w h)) λ r. result r
  where
    committed :
        (w : World)
        → E w
        → (x : Result _ × World) → After (λ a w'. Q a w' × E w') (λ _. Unit {0}) x
        → After Q E (rollback w x) × E (rollback w x).1
    committed w e (ok a, w') h = h
    committed w e (err _, w') h = (e, e)

    result : (r : Result _) → Triple (λ w. After Q E (r, w)) (lift r) Q E
    result (ok a) = record { run = λ w h. h }
    result (err e) = record { run = λ w h. h }
