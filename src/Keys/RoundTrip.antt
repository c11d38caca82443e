-- ===== src/Keys/RoundTrip.antt =====
-- Keys that are minted are read back: `object_key` and `parse_key` of crates/common/src/key.rs.
use bot_flow.Prelude.{
  ℕ, Text, text_eq, codes, Option, some, [], ◌∷◌, ◌++◌, append-nil, append_assoc, Bool, true, false,
  not, ◌==◌, all, starts_with, ◌≡◌, refl, sym, ap, ◌∙◌, arith,
}
use bot_flow.Chunk.{split_at}
use bot_flow.Keys.{object_key, is_slug_char, is_valid_slug, parse_parts, parse_key}

abbrev pub no_slash : Text → Bool
no_slash = all (λ c. not (c == 47))

split-slash :
    (part a rest : Text)
    → no_slash a ≡ true
    → split_at (codes "/") 0 part (a ++ 47 ∷ rest) ≡ (part ++ a) ∷ split_at (codes "/") 0 [] rest
unfolding split_at starts_with
split-slash part [] rest h = ap (λ x. x ∷ split_at (codes "/") 0 [] rest) (sym (append-nil part))
split-slash part (c ∷ a) rest h =
    let other : (c == 47) ≡ false = ground arith in
    rw (other, split_at)
      (split-slash (part ++ c ∷ []) a rest (ground arith)
        ∙ ap (λ x. x ∷ split_at (codes "/") 0 [] rest) (append_assoc part (c ∷ []) a))

split-end : (part a : Text) → no_slash a ≡ true → split_at (codes "/") 0 part a ≡ (part ++ a) ∷ []
unfolding split_at starts_with
split-end part [] h = ap (λ x. x ∷ []) (sym (append-nil part))
split-end part (c ∷ a) h =
    let other : (c == 47) ≡ false = ground arith in
    rw (other, split_at)
      (split-end (part ++ c ∷ []) a (ground arith)
        ∙ ap (λ x. x ∷ []) (append_assoc part (c ∷ []) a))

slug-no_slash : (s : Text) → all is_slug_char s ≡ true → no_slash s ≡ true
slug-no_slash [] h = refl
slug-no_slash (c ∷ s) h = ground (arith, slug-no_slash s)

all-append : (p : ℕ → Bool) (s t : Text) → all p s ≡ true → all p t ≡ true → all p (s ++ t) ≡ true
all-append p [] t h h' = h'
all-append p (c ∷ s) t h h' = ground (arith, all-append p s t)

starts_with-append : (p s : Text) → starts_with (p ++ s) p ≡ true
unfolding starts_with
starts_with-append [] s = refl
starts_with-append (c ∷ p) s = ground (arith, starts_with-append p s)

valid_chars : (s : Text) → is_valid_slug s ≡ true → all is_slug_char s ≡ true
unfolding is_valid_slug
valid_chars s h = ground arith

module _ (uuid_text : ℕ → Text) (parse_uuid : Text → Option ℕ) (tenant : Text) (id : ℕ)
    (ext : Text) where
  -- The parts of a key that was minted.
  key-parts :
      no_slash tenant ≡ true
      → no_slash (uuid_text id) ≡ true
      → no_slash ext ≡ true
      → split_at (codes "/") 0 [] (object_key uuid_text tenant id ext)
        ≡ codes "tenants"
          ∷ tenant
          ∷ codes "documents"
          ∷ uuid_text id
          ∷ (codes "original." ++ ext)
          ∷ []
  unfolding object_key
  key-parts t u e =
      split-slash [] (codes "tenants") _ refl
      ∙ ap (λ r. codes "tenants" ∷ r)
          (split-slash [] tenant _ t
            ∙ ap (λ r. tenant ∷ r)
                (split-slash [] (codes "documents") _ refl
                  ∙ ap (λ r. codes "documents" ∷ r)
                      (split-slash [] (uuid_text id) _ u
                        ∙ ap (λ r. uuid_text id ∷ r)
                            (split-end [] (codes "original." ++ ext)
                              (all-append (λ c. not (c == 47)) (codes "original.") ext refl e)))))

  -- A key that is minted for a tenant with a valid slug, with an extension that has no slash, is read
  -- back as that tenant and that document, as long as a printed UUID has no slash and parses to itself.
  pub parse_key-object_key :
      is_valid_slug tenant ≡ true
      → no_slash ext ≡ true
      → no_slash (uuid_text id) ≡ true
      → parse_uuid (uuid_text id) ≡ some id
      → parse_key parse_uuid (object_key uuid_text tenant id ext) ≡ some (tenant, id)
  unfolding parse_key parse_parts text_eq
  parse_key-object_key slug e u p =
      let valid : all is_slug_char tenant ≡ true = valid_chars tenant slug in
      rw
        (
          key-parts (slug-no_slash tenant valid) u e,
          starts_with-append (codes "original.") ext,
          slug,
          p,
        )
        refl
