-- ===== src/Chunk/Blank.antt =====
-- What `trim` takes from a text: its length never grows, and no character but white space goes.
use bot_flow.Prelude.{
  ◌≤◌, ◌∙◌, Bool-cases, inl, inr, Text, [], ◌∷◌, ◌++◌, ◌≡◌, refl, sym, true, not, arith, length,
  filter, is_space, trim_start, trim_end, trim,
}
use bot_flow.Chunk.{is_blank}

-- The text without its white space.
unfoldable pub squeeze : Text → Text
squeeze = filter (λ c. not (is_space c))

pub squeeze-append : (s t : Text) → squeeze (s ++ t) ≡ squeeze s ++ squeeze t
unfolding squeeze
squeeze-append [] t = refl
squeeze-append (c ∷ s) t = ground (arith, squeeze-append s t)

squeeze-trim_start : (s : Text) → squeeze (trim_start s) ≡ squeeze s
unfolding squeeze trim_start
squeeze-trim_start [] = refl
squeeze-trim_start (c ∷ s) = ground (arith, squeeze-trim_start s)

squeeze-trim_end : (s : Text) → squeeze (trim_end s) ≡ squeeze s
unfolding squeeze trim_end
squeeze-trim_end [] = refl
squeeze-trim_end (c ∷ s) = ground (arith, squeeze-trim_end s)

pub squeeze-trim : (s : Text) → squeeze (trim s) ≡ squeeze s
unfolding trim
squeeze-trim s = rw (squeeze-trim_end (trim_start s)) (squeeze-trim_start s)

length-trim_start : (s : Text) → length (trim_start s) ≤ length s
unfolding trim_start
length-trim_start [] = omega arith
length-trim_start (c ∷ s) = ground (arith, length-trim_start s)

length-trim_end : (s : Text) → length (trim_end s) ≤ length s
unfolding trim_end
length-trim_end [] = omega arith
length-trim_end (c ∷ s) = ground (arith, length-trim_end s)

pub length-trim : (s : Text) → length (trim s) ≤ length s
unfolding trim
length-trim s = omega (arith, length-trim_end (trim_start s), length-trim_start s)

pub squeeze-blank : (s : Text) → is_blank s ≡ true → squeeze s ≡ []
unfolding squeeze
squeeze-blank s h = ground (arith, squeeze-trim s)

trim_end_nil : (s : Text) → squeeze s ≡ [] → trim_end s ≡ []
unfolding squeeze trim_end
trim_end_nil [] h = refl
trim_end_nil (c ∷ s) h = ground (arith, trim_end_nil s)

-- A text is blank when it holds nothing but white space.
pub blank-squeeze : (s : Text) → squeeze s ≡ [] → is_blank s ≡ true
unfolding trim
blank-squeeze s h = ground (arith, squeeze-trim_start s, trim_end_nil (trim_start s))

pub is_blank-trim : (s : Text) → is_blank (trim s) ≡ is_blank s
is_blank-trim s = elim (Bool-cases (is_blank s)) [
  | inl e ↦ rw e (blank-squeeze (trim s) (squeeze-trim s ∙ squeeze-blank s e))
  | inr e ↦ elim (Bool-cases (is_blank (trim s))) [
    | inl f ↦ cc (blank-squeeze s (sym (squeeze-trim s) ∙ squeeze-blank (trim s) f))
    | inr f ↦ cc
  ]
]
