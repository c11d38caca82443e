-- ===== src/Outcome.antt =====
-- Errors as values: `AppError` of crates/api/src/error.rs, and the `anyhow` errors that the worker
-- tells apart by `downcast_ref`.
use bot_flow.Prelude.{ℕ, Text, String, Option, Bool, true, false, if◌then◌else◌, ◌≡◌, refl, ap}

-- `EmbedError` of crates/common/src/embedding.rs.
pub data EmbedError : Type 0 where
  transport : EmbedError
  status : ℕ → Text → EmbedError
  protocol : EmbedError

pub data Error : Type 0 where
  -- `AppError::Client`: a status code, and a message that is safe to share
  client : ℕ → String → Error
  -- a call of the database or of a store that failed
  unavailable : Error
  -- `SidecarExit` of crates/worker/src/parser.rs, with its exit code
  sidecar : Option ℕ → Error
  embed : EmbedError → Error
  -- any other `anyhow!` or `bail!`
  other : String → Error

pub data Result {ℓ} (A : Type ℓ) : Type ℓ where
  ok : A → Result A
  err : Error → Result A

abbrev pub ok_or {ℓ} : {A : Type ℓ} → Option A → Error → Result A
ok_or Option.none e = err e
ok_or (Option.some a) e = ok a

-- `if !b { return Err(e) }`
abbrev pub require : Bool → Error → Result (Unit {0})
require b e = if b then ok tt else err e

module _ {ℓ} {A : Type ℓ} where
  abbrev from_ok : A → Result A → A
  from_ok d (ok x) = x
  from_ok d (err _) = d

  pub ok_inj : (a b : A) → ok a ≡ ok b → a ≡ b
  ok_inj a b h = ap (from_ok a) h

  pub ok_or-ok : (o : Option A) (e : Error) (a : A) → ok_or o e ≡ ok a → o ≡ Option.some a
  ok_or-ok Option.none e a h = cc
  ok_or-ok (Option.some b) e a h = ap Option.some (ok_inj b a h)

  -- A guard that was passed.
  pub guard-ok :
      (b : Bool) (e : Error) (r a : A) → (if b then err e else ok r) ≡ ok a → (b ≡ false) × (r ≡ a)
  guard-ok true e r a h = cc
  guard-ok false e r a h = (refl, ok_inj r a h)

  pub require-ok :
      (b : Bool) (e : Error) (r a : A) → (if b then ok r else err e) ≡ ok a → (b ≡ true) × (r ≡ a)
  require-ok true e r a h = (refl, ok_inj r a h)
  require-ok false e r a h = cc
