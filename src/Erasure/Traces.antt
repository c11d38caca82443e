-- ===== src/Erasure/Traces.antt =====
-- What is left of a tenant wherever its erasure stops: `erase_tenant` of crates/api/src/erasure.rs.
use bot_flow.Prelude.{
  text_eq_iff, All-map, ℕ, ◌+◌, Text, text_eq, List, [], ◌∷◌, Bool, true, false, not, ◌&&◌, ◌||◌,
  ◌==◌, length, filter, starts_with, All, filter-All-not, Bool-cases, ◌⊎◌, inl, inr, ◌≡◌, refl,
  arith,
}
use bot_flow.Documents.{Row, Table}
use bot_flow.Documents.Sql.{visible, remove}
use bot_flow.World.{World}
use bot_flow.World.Stores.{of_tenant, delete_points, delete_object}
use bot_flow.World.Triples.{After, Stable, Triple, Triple-call, Triple-pure, Triple-bind}
use bot_flow.Erasure.{
  revoke_keys, revoke_sessions, count_tenant_vectors, delete_counted, delete_tenant_vectors, prefix,
  delete_listed, delete_tenant_objects, delete_tenant_rows, erase_tenant,
}

abbrev pub among : Text → List Text → Bool
among k [] = false
among k (t ∷ ts) = text_eq k t || among k ts

counted-zero :
    {A : Type 0} (p : A → Bool) (xs : List A) → length (filter p xs) ≡ 0 → All (λ x. p x ≡ false) xs
counted-zero p [] h = tt
counted-zero p (x ∷ xs) h = elim (Bool-cases (p x)) [
  | inl e ↦ ground arith
  | inr e ↦ (e, counted-zero p xs (ground arith))
]

remove-All-not : (p : Row → Bool) (t : Table) → All (λ r. p r ≡ false) (remove p t)
unfolding remove
remove-All-not p [] = tt
remove-All-not p (r ∷ t) = elim (Bool-cases (p r)) [
  | inl e ↦ rw e (remove-All-not p t)
  | inr e ↦ rw e (e, remove-All-not p t)
]

twice : {A B : Type 0} → A → A × (B ⊎ A)
twice a = (a, inr a)

module _ (tenant : Text) where
  abbrev pub NoVectors : World → Type 0
  NoVectors w = All (λ p. of_tenant tenant p ≡ false) w.points

  abbrev pub NoObjects : World → Type 0
  NoObjects w = All (λ k. starts_with k (prefix tenant) ≡ false) w.objects

  abbrev pub NoCredentials : World → Type 0
  NoCredentials w =
      All (λ k. text_eq k.tenant_id tenant ≡ false) w.api_keys
      × All (λ s. text_eq s.tenant_id tenant ≡ false) w.sessions

  abbrev pub NoRows : World → Type 0
  NoRows w =
      All (λ r. visible tenant r ≡ false) w.documents
      × (All (λ m. text_eq m.tenant_id tenant ≡ false) w.messages
          × (All (λ c. text_eq c.tenant_id tenant ≡ false) w.conversations
              × All (λ a. text_eq a.tenant_id tenant ≡ false) w.accounts))

  -- Nothing of the tenant is left.
  abbrev pub Traceless : World → Type 0
  Traceless w = NoCredentials w × (NoRows w × (NoVectors w × NoObjects w))

  abbrev pub IsListed : World → Type 0
  IsListed w = among tenant w.tenants ≡ true

  abbrev pub Accounted : World → Type 0
  Accounted w = IsListed w ⊎ Traceless w

  module _ (P : World → Type 0) (stable : Stable P)
      (apart : (w : World)
        → P w
        → P (record w { points = filter (λ p. not (of_tenant tenant p)) w.points }))
      (counts : (w : World) → P w → Accounted w) where
    count_step :
        Triple P
          (count_tenant_vectors tenant)
          (λ n w. P w × (length (filter (of_tenant tenant) w.points) ≡ n))
          Accounted
    unfolding count_tenant_vectors
    count_step = Triple-call _ stable counts λ w h. ((h, refl), counts w h)

    delete_step :
        (n : ℕ)
        → Triple
            (λ w. P w × (length (filter (of_tenant tenant) w.points) ≡ n))
            (delete_counted tenant n)
            (λ _ w. P w × NoVectors w)
            Accounted
    unfolding delete_counted delete_points
    delete_step n = elim (Bool-cases (n == 0)) [
      | inl e ↦
          rw e (Triple-pure 0 λ w h. (h.0, counted-zero (of_tenant tenant) w.points (ground arith)))
      | inr e ↦ rw e (
          Triple-bind _ _ _
            (Triple-call _ (λ w fs h. (stable w fs h.0, h.1)) (λ w h. counts w h.0)
              λ w h.
                ((apart w h.0, filter-All-not (of_tenant tenant) w.points), counts _ (apart w h.0)))
            λ _. Triple-pure n (λ w h. h))
    ]

    vectors_step : Triple P (delete_tenant_vectors tenant) (λ _ w. P w × NoVectors w) Accounted
    unfolding delete_tenant_vectors
    vectors_step = Triple-bind _ _ _ count_step delete_step

  -- Access is revoked, and the tenant is still listed.
  abbrev Revoked : World → Type 0
  Revoked w = IsListed w × NoCredentials w

  keys_step :
      Triple IsListed
        (revoke_keys tenant)
        (λ _ w. IsListed w × All (λ k. text_eq k.tenant_id tenant ≡ false) w.api_keys)
        Accounted
  unfolding revoke_keys
  keys_step =
      Triple-call _ (λ w fs h. h) (λ w h. inl h)
        λ w h. ((h, filter-All-not (λ k. text_eq k.tenant_id tenant) w.api_keys), inl h)

  sessions_step :
      Triple
        (λ w. IsListed w × All (λ k. text_eq k.tenant_id tenant ≡ false) w.api_keys)
        (revoke_sessions tenant)
        (λ _ w. Revoked w)
        Accounted
  unfolding revoke_sessions
  sessions_step =
      Triple-call _ (λ w fs h. h) (λ w h. inl h.0)
        λ w h. ((h.0, (h.1, filter-All-not (λ s. text_eq s.tenant_id tenant) w.sessions)), inl h.0)

  -- The objects that are still to be deleted are listed.
  abbrev Pending : List Text → World → Type 0
  Pending ks w =
      (Revoked w × NoVectors w)
      × All (λ k. (starts_with k (prefix tenant) && not (among k ks)) ≡ false) w.objects

  dropped :
      (k : Text) (ks : List Text) (os : List Text)
      → All (λ x. (starts_with x (prefix tenant) && not (among x (k ∷ ks))) ≡ false) os
      → All
          (λ x. (starts_with x (prefix tenant) && not (among x ks)) ≡ false)
          (filter (λ x. not (text_eq x k)) os)
  dropped k ks [] h = tt
  dropped k ks (x ∷ os) (hx, h) = elim (Bool-cases (text_eq x k)) [
    | inl e ↦ rw e (dropped k ks os h)
    | inr e ↦ rw e (rw e at hx, dropped k ks os h)
  ]

  listed_step :
      (ks : List Text) (n : ℕ)
      → Triple
          (Pending ks)
          (delete_listed ks n)
          (λ _ w. (Revoked w × NoVectors w) × NoObjects w)
          Accounted
  unfolding delete_listed delete_object
  listed_step [] n = Triple-pure n λ w h. (h.0, All-map (λ k e. ground arith) w.objects h.1)
  listed_step (k ∷ ks) n =
      Triple-bind _ _ _
        (Triple-call _ (λ w fs h. h) (λ w h. inl h.0.0.0)
          λ w h. ((h.0, dropped k ks w.objects h.1), inl h.0.0.0))
        λ _. listed_step ks (n + 1)

  covered :
      (os : List Text)
      → All
          (λ k.
            (starts_with k (prefix tenant)
              && not (among k (filter (λ x. starts_with x (prefix tenant)) os)))
            ≡ false)
          os
  covered [] = tt
  covered (k ∷ os) =
      let rest = covered os in
      (ground (arith, text_eq_iff k k), All-map (λ x h. ground arith) os rest)

  objects_step :
      Triple
        (λ w. Revoked w × NoVectors w)
        (delete_tenant_objects tenant)
        (λ _ w. (Revoked w × NoVectors w) × NoObjects w)
        Accounted
  unfolding delete_tenant_objects
  objects_step =
      Triple-bind Pending _ _
        (Triple-call _ (λ w fs h. h) (λ w h. inl h.0.0) λ w h. ((h, covered w.objects), inl h.0.0))
        λ ks. listed_step ks 0

  rows_step :
      Triple
        (λ w. (Revoked w × NoVectors w) × NoObjects w)
        (delete_tenant_rows tenant)
        (λ _ w. Traceless w)
        Accounted
  unfolding delete_tenant_rows
  rows_step =
      Triple-call _ (λ w fs h. h) (λ w h. inl h.0.0.0)
        λ w h. twice (
          (
            filter-All-not (λ k. text_eq k.tenant_id tenant) w.api_keys,
            filter-All-not (λ s. text_eq s.tenant_id tenant) w.sessions,
          ),
          (
            (
              remove-All-not (visible tenant) w.documents,
              (
                filter-All-not (λ m. text_eq m.tenant_id tenant) w.messages,
                (
                  filter-All-not (λ c. text_eq c.tenant_id tenant) w.conversations,
                  filter-All-not (λ a. text_eq a.tenant_id tenant) w.accounts,
                ),
              ),
            ),
            (h.0.1, h.1),
          ),
        )

  erase_tenant-Triple : Triple IsListed (erase_tenant tenant) (λ _ w. Traceless w) Accounted
  unfolding erase_tenant
  erase_tenant-Triple = Triple-bind _ _ _ keys_step λ _. Triple-bind _ _ _ sessions_step λ _.
      Triple-bind _ _ _ (vectors_step Revoked (λ w fs h. h) (λ w h. h) (λ w h. inl h.0)) λ vectors.
        Triple-bind _ _ _ objects_step λ objects. Triple-bind _ _ _ rows_step λ _.
          Triple-bind _ _ _
            (vectors_step Traceless (λ w fs h. h)
              (λ w h. (h.0, (h.1.0, (filter-All-not (of_tenant tenant) w.points, h.1.1.1))))
              (λ w h. inr h))
            λ late. Triple-pure (vectors + late, objects) λ w h. h.0

  pub erase_tenant-Traceless :
      (w : World) → IsListed w → After (λ _ w'. Traceless w') Accounted (erase_tenant tenant w)
  erase_tenant-Traceless w h = erase_tenant-Triple.run w h
