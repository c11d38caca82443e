-- ===== src/RateLimit.antt =====
-- crates/api/src/rate_limit.rs: the fixed window of the limiter. The clock, in seconds, and the limit
-- are arguments. A counter's key holds its minute, so that it is never read again when its time to
-- live, which is left out, has run out.
pub mod Window
use bot_flow.Prelude.{
  ℕ, suc, ◌+◌, ◌/◌, Text, text_eq, List, [], ◌∷◌, Bool, ◌&&◌, ◌==◌, ltb, if◌then◌else◌,
}
use bot_flow.Outcome.{client}
use bot_flow.World.{World, Counter}
use bot_flow.World.Steps.{Exec, pure, fail, call, ◌>>=◌, ◌>>◌}

abbrev pub window_secs : ℕ
window_secs = 60

abbrev pub is_counter : Text → ℕ → Counter → Bool
is_counter bucket minute c = text_eq c.bucket bucket && c.minute == minute

-- `INCR`: the new count, and the counters.
unfoldable pub incr : Text → ℕ → List Counter → ℕ × List Counter
incr bucket minute [] = (1, record { bucket = bucket; minute = minute; count = 1 } ∷ [])
incr bucket minute (c ∷ cs) =
    let rest = incr bucket minute cs in
    if is_counter bucket minute c
    then (suc c.count, record c { count = suc c.count } ∷ cs)
    else (rest.0, c ∷ rest.1)

-- `EXPIRE` on the first request of a window.
abbrev pub expire_first : ℕ → Exec (Unit {0})
expire_first count = if count == 1 then call (λ w. (tt, w)) else pure tt

abbrev pub admit : ℕ → ℕ → Exec (Unit {0})
admit limit count =
    if ltb limit count then fail (client 429 "rate limit exceeded, slow down") else pure tt

unfoldable pub check : ℕ → ℕ → Text → Exec (Unit {0})
unfolding incr
check limit now bucket = do
  count ← call (λ w.
      let (n, cs) = incr bucket (now / window_secs) w.counters in (n, record w { counters = cs }))
  expire_first count
  admit limit count
