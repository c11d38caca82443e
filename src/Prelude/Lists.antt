-- ===== src/Prelude/Lists.antt =====
-- Lists measured by native numbers, and predicates on their elements.
use Prim.Native.Nat.{ℕ, zero, suc, ◌+◌, ◌-◌, ◌≤◌, min}
use mathlib.Core.Path.{◌≡◌, refl, ap}
use mathlib.Core.List.{List, [], ◌∷◌, ◌++◌}
use mathlib.Core.Option.{Option, none, some, some-injective}
use mathlib.Core.Bool.{Bool, true, false, not, ◌&&◌}
use native.Mathlib.Omega.{arith}
use mathlib.Core.Logic.{◌⊎◌, inl, inr}
use bot_flow.Prelude.Tests.{if◌then◌else◌, Bool-cases}

module _ {ℓ} {A : Type ℓ} where
  abbrev pub length : List A → ℕ
  length [] = 0
  length (x ∷ xs) = suc (length xs)

  abbrev pub get_elem? : List A → ℕ → Option A
  get_elem? [] i = none
  get_elem? (x ∷ xs) zero = some x
  get_elem? (x ∷ xs) (suc i) = get_elem? xs i

  abbrev pub take : ℕ → List A → List A
  take zero xs = []
  take (suc n) [] = []
  take (suc n) (x ∷ xs) = x ∷ take n xs

  abbrev pub drop : ℕ → List A → List A
  drop zero xs = xs
  drop (suc n) [] = []
  drop (suc n) (x ∷ xs) = drop n xs

  -- The library's `filter` takes a decision; this one a test.
  abbrev pub filter : (A → Bool) → List A → List A
  filter p [] = []
  filter p (x ∷ xs) = let rest = filter p xs in if p x then x ∷ rest else rest

  abbrev pub all : (A → Bool) → List A → Bool
  all p [] = true
  all p (x ∷ xs) = p x && all p xs

  abbrev pub is_empty : List A → Bool
  is_empty [] = true
  is_empty (x ∷ xs) = false

  pub length-append : (xs ys : List A) → length (xs ++ ys) ≡ length xs + length ys
  length-append [] ys = omega arith
  length-append (x ∷ xs) ys = omega (arith, length-append xs ys)

  pub take-append-drop : (n : ℕ) (xs : List A) → take n xs ++ drop n xs ≡ xs
  take-append-drop zero xs = refl
  take-append-drop (suc n) [] = refl
  take-append-drop (suc n) (x ∷ xs) = ap (λ r. x ∷ r) (take-append-drop n xs)

  pub length-take : (n : ℕ) (xs : List A) → length (take n xs) ≡ min n (length xs)
  length-take zero xs = omega arith
  length-take (suc n) [] = omega arith
  length-take (suc n) (x ∷ xs) = omega (arith, length-take n xs)

  pub length-drop : (n : ℕ) (xs : List A) → length (drop n xs) ≡ length xs - n
  length-drop zero xs = omega arith
  length-drop (suc n) [] = omega arith
  length-drop (suc n) (x ∷ xs) = omega (arith, length-drop n xs)

  pub length-filter-le : (p : A → Bool) (xs : List A) → length (filter p xs) ≤ length xs
  length-filter-le p [] = omega arith
  length-filter-le p (x ∷ xs) = ground (arith, length-filter-le p xs)

  pub take-length : (xs ys : List A) → take (length xs) (xs ++ ys) ≡ xs
  take-length [] ys = refl
  take-length (x ∷ xs) ys = ap (λ r. x ∷ r) (take-length xs ys)

  pub drop-length : (xs ys : List A) → drop (length xs) (xs ++ ys) ≡ ys
  drop-length [] ys = refl
  drop-length (x ∷ xs) ys = drop-length xs ys

module _ {ℓ κ} {A : Type ℓ} (P : A → Type κ) where
  abbrev pub All : List A → Type κ
  All [] = Unit
  All (x ∷ xs) = P x × All xs

-- Some element has the property.
abbrev pub Any {ℓ} : {A : Type ℓ} (P : A → Type 0) → List A → Type 0
Any P [] = ⊥
Any P (x ∷ xs) = P x ⊎ Any P xs

module _ {ℓ κ} {A : Type ℓ} where
  pub All-append : (P : A → Type κ) (xs ys : List A) → All P xs → All P ys → All P (xs ++ ys)
  All-append P [] ys _ hy = hy
  All-append P (x ∷ xs) ys (px, hx) hy = (px, All-append P xs ys hx hy)

  pub All-take : (P : A → Type κ) (n : ℕ) (xs : List A) → All P xs → All P (take n xs)
  All-take P zero xs h = tt
  All-take P (suc n) [] h = tt
  All-take P (suc n) (x ∷ xs) (px, h) = (px, All-take P n xs h)

  pub All-drop : (P : A → Type κ) (n : ℕ) (xs : List A) → All P xs → All P (drop n xs)
  All-drop P zero xs h = h
  All-drop P (suc n) [] h = tt
  All-drop P (suc n) (x ∷ xs) (px, h) = All-drop P n xs h

  pub All-map {ι} :
      {P : A → Type κ} {Q : A → Type ι} (f : (x : A) → P x → Q x) (xs : List A)
      → All P xs
      → All Q xs
  All-map f [] h = tt
  All-map f (x ∷ xs) (px, h) = (f x px, All-map f xs h)

module _ {ℓ} {A : Type ℓ} (p : A → Bool) where
  pub filter-same : (xs : List A) → All (λ x. p x ≡ true) xs → filter p xs ≡ xs
  filter-same [] h = refl
  filter-same (x ∷ xs) (hx, h) = ground (arith, filter-same xs h)

  pub filter-nil : (xs : List A) → All (λ x. p x ≡ false) xs → filter p xs ≡ []
  filter-nil [] h = refl
  filter-nil (x ∷ xs) (hx, h) = ground (arith, filter-nil xs h)

  pub filter-append : (xs ys : List A) → filter p (xs ++ ys) ≡ filter p xs ++ filter p ys
  filter-append [] ys = refl
  filter-append (x ∷ xs) ys = ground (arith, filter-append xs ys)

  -- What is filtered out is not there.
  pub filter-All-not : (xs : List A) → All (λ x. p x ≡ false) (filter (λ x. not (p x)) xs)
  filter-All-not [] = tt
  filter-All-not (x ∷ xs) = elim (Bool-cases (p x)) [
    | inl e ↦ rw e (filter-All-not xs)
    | inr e ↦ rw e (e, filter-All-not xs)
  ]

  pub All-filter {κ} : (P : A → Type κ) (xs : List A) → All P xs → All P (filter p xs)
  All-filter P [] h = tt
  All-filter P (x ∷ xs) (px, h) = elim (Bool-cases (p x)) [
    | inl e ↦ rw e (px, All-filter P xs h)
    | inr e ↦ rw e (All-filter P xs h)
  ]

module _ {ℓ} {A : Type ℓ} where
  pub Any-map : {P Q : A → Type 0} (f : (x : A) → P x → Q x) (xs : List A) → Any P xs → Any Q xs
  Any-map f [] h = absurd h
  Any-map f (x ∷ xs) (inl p) = inl (f x p)
  Any-map f (x ∷ xs) (inr h) = inr (Any-map f xs h)

  pub All-Any : (P Q : A → Type 0) (xs : List A) → All P xs → Any Q xs → Any (λ x. P x × Q x) xs
  All-Any P Q [] _ h = absurd h
  All-Any P Q (x ∷ xs) (p, h) (inl q) = inl (p, q)
  All-Any P Q (x ∷ xs) (p, h) (inr q) = inr (All-Any P Q xs h q)

  pub Any_rec : {P : A → Type 0} {B : Type 0} (f : (x : A) → P x → B) (xs : List A) → Any P xs → B
  Any_rec f [] h = absurd h
  Any_rec f (x ∷ xs) (inl p) = f x p
  Any_rec f (x ∷ xs) (inr h) = Any_rec f xs h

module _ {A : Type 0} (p : A → Bool) where
  -- The first element that passes a test: a SELECT of at most one row.
  abbrev pub find_first : List A → Option A
  find_first [] = none
  find_first (x ∷ xs) = let rest = find_first xs in if p x then some x else rest

  pub find_first-Any :
      (xs : List A) (a : A) → find_first xs ≡ some a → Any (λ x. (x ≡ a) × (p x ≡ true)) xs
  find_first-Any [] a h = cc
  find_first-Any (x ∷ xs) a h = elim (Bool-cases (p x)) [
    | inl e ↦ inl (some-injective x a (rw e at h), e)
    | inr e ↦ inr (find_first-Any xs a (rw e at h))
  ]

  pub find_first-none : (xs : List A) → All (λ x. p x ≡ false) xs → find_first xs ≡ none
  find_first-none [] h = refl
  find_first-none (x ∷ xs) (e, h) = rw e (find_first-none xs h)
