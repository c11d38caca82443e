-- ===== src/RateLimit/Window.antt =====
-- How many requests of one window `check` of crates/api/src/rate_limit.rs lets through.
use bot_flow.Prelude.{
  ℕ, ◌+◌, ◌/◌, ◌≤◌, Text, List, [], ◌∷◌, Bool, ◌&&◌, ◌==◌, ltb, Bool-cases, text_eq, if◌then◌else◌,
  ◌≡◌, inl, inr, arith,
}
use bot_flow.Outcome.{Result, ok, err}
use bot_flow.World.{World, Counter}
use bot_flow.World.Triples.{
  Stable, Triple, Triple-map, Triple-call, Triple-pure, Triple-fail, Triple-bind,
}
use bot_flow.World.Steps.{◌>>◌}
use bot_flow.RateLimit.{expire_first, window_secs, is_counter, incr, admit, check}

module _ (bucket : Text) (minute : ℕ) where
  -- The requests counted so far.
  abbrev pub counted : List Counter → ℕ
  counted [] = 0
  counted (c ∷ cs) = let rest = counted cs in if is_counter bucket minute c then c.count else rest

-- One where a request was let through.
abbrev pub passed : Result (Unit {0}) → ℕ
passed (ok _) = 1
passed (err _) = 0

module _ (limit : ℕ) (bucket : Text) (minute : ℕ) where
  abbrev pub in_window : ℕ × Text → Bool
  in_window (now, b) = text_eq b bucket && now / window_secs == minute

  -- Requests one after another, each at its time and in its bucket: how many of the given window
  -- are let through.
  abbrev pub passes : List (ℕ × Text) → World → ℕ
  passes [] w = 0
  passes (q ∷ qs) w =
      let (r, w') = check limit q.0 q.1 w in
      let rest = passes qs w' in if in_window q then passed r + rest else rest

module _ (P E : World → Type 0) (stable : Stable P) (stop : (w : World) → P w → E w) where
  settle_step :
      (limit count : ℕ)
      → Triple P (expire_first count >> admit limit count) (λ _ w. P w × (count ≤ limit)) E
  settle_step limit count =
      Triple-bind (λ _ w. P w) _ _ (expire_step count) λ _. admit_step limit count
    where
      expire_step : (count : ℕ) → Triple P (expire_first count) (λ _ w. P w) E
      expire_step count = elim (Bool-cases (count == 1)) [
        | inl e ↦ rw e (Triple-call _ stable stop λ w h. (h, stop w h))
        | inr e ↦ rw e (Triple-pure tt λ w h. h)
      ]

      admit_step : (limit count : ℕ) → Triple P (admit limit count) (λ _ w. P w × (count ≤ limit)) E
      admit_step limit count = elim (Bool-cases (ltb limit count)) [
        | inl e ↦ rw e (Triple-fail _ stop)
        | inr e ↦ rw e (Triple-pure tt λ w h. (h, ground arith))
      ]

module _ (bucket : Text) (minute : ℕ) (limit now : ℕ) (b : Text) (n : ℕ) where
  abbrev AtLeast : ℕ → World → Type 0
  AtLeast m w = m ≤ counted bucket minute w.counters

module _ (limit now : ℕ) (bucket : Text) (n : ℕ) where
  abbrev Exactly : World → Type 0
  Exactly w = counted bucket (now / window_secs) w.counters ≡ n

  abbrev More : ℕ → World → Type 0
  More m w = m ≤ counted bucket (now / window_secs) w.counters

-- What does not look at the counters survives a request.
pub check-Triple :
    (P : World → Type 0) (limit now : ℕ) (b : Text)
    → Stable P
    → ((w : World) (cs : List Counter) → P w → P (record w { counters = cs }))
    → Triple P (check limit now b) (λ _ w. P w) P
unfolding check
check-Triple P limit now b stable frame =
    Triple-bind (λ _ w. P w) _ _
      (Triple-call _ stable (λ w h. h)
        λ w h. let h' = frame w (incr b (now / window_secs) w.counters).1 h in (h', h'))
      λ count.
        Triple-map (λ _ w h. h.0) (λ w h. h) _ _ (settle_step P P stable (λ w h. h) limit count)
