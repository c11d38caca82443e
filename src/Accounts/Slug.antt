-- ===== src/Accounts/Slug.antt =====
-- The slugs that `slugify` of crates/api/src/accounts.rs derives are ones that `is_valid_slug` of
-- crates/common/src/key.rs takes.
use bot_flow.Prelude.{
  ℕ, ◌≤◌, Text, [], ◌∷◌, Bool, true, false, not, ◌&&◌, ◌==◌, leb, length, take, all, is_empty, All,
  All-append, All-take, length-take, le→leb, Bool-cases, inl, inr, ◌≡◌, refl, arith,
}
use bot_flow.Keys.{is_slug_start, is_slug_char, is_valid_slug}
use bot_flow.Accounts.{slug_step, slug_loop, trim_dashes_start, trim_dashes_end, lowercase, slugify}

abbrev IsSlugChar : ℕ → Type 0
IsSlugChar c = is_slug_char c ≡ true

-- No capital letter of ASCII.
abbrev pub NoCapital : ℕ → Type 0
NoCapital c = (leb 65 c && leb c 90) ≡ false

All-all : (s : Text) → All IsSlugChar s → all is_slug_char s ≡ true
All-all [] h = refl
All-all (c ∷ s) (hc, h) = let rest = All-all s h in rw (hc, rest) refl

slug_step-All :
    (out : Text) (dash : Bool) (c : ℕ)
    → NoCapital c
    → All IsSlugChar out
    → All IsSlugChar (slug_step out dash c).0
unfolding slug_step
slug_step-All out dash c low h = elim (Bool-cases (is_slug_start c)) [
  | inl e ↦ rw e (All-append IsSlugChar out (c ∷ []) h (ground arith, tt))
  | inr e ↦
      rw (e, low)
        (elim (Bool-cases (not (is_empty out) && not dash)) [
          | inl d ↦ rw d (All-append IsSlugChar out (45 ∷ []) h (refl, tt))
          | inr d ↦ rw d h
        ])
]

slug_loop-All :
    (s out : Text) (dash : Bool)
    → All NoCapital s
    → All IsSlugChar out
    → All IsSlugChar (slug_loop out dash s)
unfolding slug_loop
slug_loop-All [] out dash low h = h
slug_loop-All (c ∷ s) out dash (lc, low) h = slug_loop-All s _ _ low (slug_step-All out dash c lc h)

-- Empty, or a slug but for its length.
abbrev Starts : Text → Type 0
Starts [] = Unit
Starts (c ∷ s) = is_slug_start c ≡ true

start :
    (s : Text)
    → All IsSlugChar s
    → All IsSlugChar (trim_dashes_start s) × Starts (trim_dashes_start s)
unfolding trim_dashes_start
start [] h = (tt, tt)
start (c ∷ s) (hc, h) = elim (Bool-cases (c == 45)) [
  | inl e ↦ rw e (start s h)
  | inr e ↦ rw e ((hc, h), ground arith)
]

end_All : (s : Text) → All IsSlugChar s → All IsSlugChar (trim_dashes_end s)
unfolding trim_dashes_end
end_All [] h = tt
end_All (c ∷ s) (hc, h) = elim (Bool-cases (is_empty (trim_dashes_end s) && c == 45)) [
  | inl e ↦ rw e tt
  | inr e ↦ rw e (hc, end_All s h)
]

end_Starts : (s : Text) → Starts s → Starts (trim_dashes_end s)
unfolding trim_dashes_end
end_Starts [] h = tt
end_Starts (c ∷ s) h = elim (Bool-cases (is_empty (trim_dashes_end s) && c == 45)) [
  | inl e ↦ rw e tt
  | inr e ↦ rw e h
]

valid :
    (s : Text)
    → All IsSlugChar s
    → Starts s
    → is_empty (take 63 s) ≡ false
    → is_valid_slug (take 63 s) ≡ true
unfolding is_valid_slug
valid [] h st ne = cc
valid (c ∷ s) h st ne =
    let chars = All-all (take 62 s) (All-take IsSlugChar 62 s h.1) in
    rw (le→leb _ 63 (short c s), st, chars) refl
  where
    short : (c : ℕ) (s : Text) → length (take 63 (c ∷ s)) ≤ 63
    short c s = omega (arith, length-take 63 (c ∷ s))

lowercase-All :
    (char_lowercase : ℕ → Text)
    → ((c : ℕ) → All NoCapital (char_lowercase c))
    → (s : Text) → All NoCapital (lowercase char_lowercase s)
lowercase-All f low [] = tt
lowercase-All f low (c ∷ s) =
    All-append NoCapital (f c) (lowercase f s) (low c) (lowercase-All f low s)

-- If the lower case of a character has no capital letter of ASCII, then what `slugify` derives from a
-- text is empty or a valid slug.
pub slugify-is_valid_slug :
    (char_lowercase : ℕ → Text)
    → ((c : ℕ) → All NoCapital (char_lowercase c))
    → (s : Text) → is_empty (slugify char_lowercase s) ≡ false
    → is_valid_slug (slugify char_lowercase s) ≡ true
unfolding slugify
slugify-is_valid_slug f low s ne =
    let chars = slug_loop-All (lowercase f s) [] false (lowercase-All f low s) tt in
    let (h, st) = start (slug_loop [] false (lowercase f s)) chars in
    valid (trim_dashes_end (trim_dashes_start (slug_loop [] false (lowercase f s)))) (end_All _ h)
      (end_Starts _ st) ne
