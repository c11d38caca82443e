-- ===== src/ApiKeys/Minting.antt =====
-- A key that was minted is taken for its tenant: `create_key` of crates/api/src/accounts.rs and then
-- `Actor` of crates/api/src/auth.rs.
use bot_flow.Prelude.{
  ℕ, Text, text_eq, text_eq→eq, text_eq_refl, codes, Option, none, some, List, [], ◌∷◌, ◌++◌, Bool,
  false, find_first, Bool-cases, Option-cases, starts_with, inl, inr, ◌⊎◌, ◌≡◌, refl, ap, ◌∙◌,
  if◌then◌else◌,
}
use bot_flow.Outcome.{Result, ok, err, client, ok_or}
use bot_flow.World.{World, ApiKey, calm}
use bot_flow.World.Steps.{lift, ◌>>=◌, pool, call, meet}
use bot_flow.World.Triples.{
  After, After-map, Triple, Triple-map, Triple-bind, Triple-lift, Triple-pure, Triple-transact,
}
use bot_flow.RateLimit.Window.{check-Triple}
use bot_flow.Actor.{Actor, secret, publishable}
use bot_flow.Access.{
  Platform, Headers, SessionAuth, generate_key, hash_key, find_key, member, bearer, presented,
  tenant_token, actor_of_key, auth_tenant, actor, origin_gate, is_session_token,
}
use bot_flow.Access.Origins.{checked_origins}
use bot_flow.ApiKeys.{store_key, checked_kind, insert_api_key, create_key, label_or_default}

module _ {A : Type 0} (p : A → Bool) where
  -- The rows in front do not match.
  find_first-append :
      (xs ys : List A) → find_first p xs ≡ none → find_first p (xs ++ ys) ≡ find_first p ys
  find_first-append [] ys h = refl
  find_first-append (x ∷ xs) ys h = elim (Bool-cases (p x)) [
    | inl e ↦ cc (rw e at h)
    | inr e ↦ rw e (find_first-append xs ys (rw e at h))
  ]

module _ (os : Platform) where
  -- The row of a key.
  abbrev pub Stored : Text → Text → Text → List Text → World → Type 0
  Stored raw tenant kind origins w =
      (k : ApiKey) × (find_key (hash_key os raw) w.api_keys ≡ some k)
      × (k.tenant_id ≡ tenant)
      × (k.kind ≡ kind)
      × (k.allowed_origins ≡ origins)

  store_key-Stored :
      (k : ApiKey) (w : World)
      → After (λ _ w'. find_key k.key_hash w'.api_keys ≡ some k) (λ _. Unit {0}) (store_key k w)
  unfolding store_key find_key
  store_key-Stored k w =
      elim (Option-cases (find_first (λ x. text_eq x.key_hash k.key_hash) w.api_keys)) [
        | inl e ↦ elim (Bool-cases (member k.tenant_id w.tenants)) [
          | inl m ↦
              rw (e, m)
                (find_first-append _ w.api_keys (k ∷ []) e ∙ rw (text_eq_refl k.key_hash) refl)
          | inr m ↦ rw (e, m) tt
        ]
        | inr (x, e) ↦ rw e tt
      ]

  abbrev key_row : Text → Text → Text → Text → List Text → ApiKey
  key_row raw tenant kind label origins = record {
    key_hash = hash_key os raw;
    tenant_id = tenant;
    kind = kind;
    label = label;
    allowed_origins = origins;
  }

  store_step :
      (raw tenant kind label : Text) (origins : List Text) (w : World)
      → After
          (λ _ w'. Stored raw tenant kind origins w' × Unit {0})
          (λ _. Unit {0})
          (store_key (key_row raw tenant kind label origins) w)
  store_step raw tenant kind label origins w =
      After-map {R = λ _ w'. Stored raw tenant kind origins w' × Unit {0}}
        (λ _ w' f. ((key_row raw tenant kind label origins, f, refl, refl, refl), tt)) (λ _ h. h)
        (store_key (key_row raw tenant kind label origins) w)
        (store_key-Stored (key_row raw tenant kind label origins) w)

  -- What `insert_api_key` leaves behind.
  abbrev Minted : Text → Text → List Text → Text → Text → Text → World → Type 0
  Minted tenant kind raw_origins u v raw w =
      (raw ≡ generate_key kind u v)
      × ((origins : List Text) × (checked_origins kind raw_origins ≡ ok origins)
          × Stored raw tenant kind origins w)

  mint_step :
      (u v tenant kind label : Text) (raw_origins : List Text)
      → Triple
          (λ _. Unit {0})
          (insert_api_key os pool u v tenant kind label raw_origins)
          (Minted tenant kind raw_origins u v)
          (λ _. Unit {0})
  unfolding insert_api_key
  mint_step u v tenant kind label raw_origins =
      Triple-lift _ _ (λ w h. tt)
        λ origins e.
          Triple-bind (λ _ w. Stored (generate_key kind u v) tenant kind origins w) _ _
            (Triple-transact _ (λ w fs h. h) (λ w h. tt)
              λ w h. store_step (generate_key kind u v) tenant kind label origins w)
            λ _. Triple-pure _ λ w st. (refl, (origins, e, st))

  -- What a request with the key is answered.
  abbrev pub taken_for : Text → Text → List Text → Option Text → Result Actor
  taken_for tenant kind origins origin =
      if text_eq kind (codes "secret")
      then ok record { tenant_id = tenant; kind = secret }
      else if elim origin as (λ _. Bool) [ none ↦ false | some o ↦ member o origins ]
      then ok record { tenant_id = tenant; kind = publishable }
      else err (client 403 "origin not allowed for this key")

  module _ (now : ℕ) (h : Headers) (w : World) (raw : Text) (token : presented h ≡ some raw) where
    token-ok : tenant_token h ≡ ok raw
    unfolding tenant_token presented
    token-ok = token_of h.authorization token
      where
        token_of :
            (a : Option Text)
            → (elim a [ none ↦ none | some header ↦ bearer header ]) ≡ some raw
            → (elim a [
              | none ↦ err (client 401 "missing authorization header")
              | some header ↦
                  ok_or (bearer header) (client 401 "expected 'Bearer <key>' authorization")
            ])
              ≡ ok raw
        token_of none e = cc
        token_of (some header) e = rw e refl

    actor-calm :
        (k : ApiKey)
        → is_session_token raw ≡ false
        → find_key (hash_key os raw) w.api_keys ≡ some k
        → (actor os now h (calm w)).0
          ≡ ((lift (origin_gate h k) >>= (λ t. lift (actor_of_key t))) (calm w)).0
    unfolding actor auth_tenant call meet
    actor-calm k no_session f = rw (token, no_session, token-ok, f) refl

  known_kind :
      (kind : Text)
      → checked_kind kind ≡ ok tt
      → (kind ≡ codes "secret") ⊎ (kind ≡ codes "publishable")
  unfolding checked_kind
  known_kind kind e = elim (Bool-cases (text_eq kind (codes "secret"))) [
    | inl s ↦ inl (text_eq→eq kind _ s)
    | inr s ↦ elim (Bool-cases (text_eq kind (codes "publishable"))) [
      | inl p ↦ inr (text_eq→eq kind _ p)
      | inr p ↦ cc (rw (s, p) at e)
    ]
  ]

  no_session : (kind u v : Text) → is_session_token (generate_key kind u v) ≡ false
  unfolding is_session_token generate_key starts_with
  no_session kind u v = elim (Bool-cases (text_eq kind (codes "publishable"))) [
    | inl p ↦ rw p refl
    | inr p ↦ rw p refl
  ]

  answer_key :
      (h : Headers) (k : ApiKey) (w : World)
      → (k.kind ≡ codes "secret") ⊎ (k.kind ≡ codes "publishable")
      → ((lift (origin_gate h k) >>= (λ t. lift (actor_of_key t))) (calm w)).0
        ≡ taken_for k.tenant_id k.kind k.allowed_origins h.origin
  unfolding origin_gate text_eq
  answer_key h k w (inl s) = rw s refl
  answer_key h k w (inr p) =
      elim (Bool-cases
        (elim h.origin as (λ _. Bool) [ none ↦ false | some o ↦ member o k.allowed_origins ])) [
          | inl e ↦ rw (p, e) refl
          | inr e ↦ rw (p, e) refl
        ]

  -- What the key of the origins is good for.
  abbrev pub IsTaken : SessionAuth → Text → List Text → Text → World → Type 0
  IsTaken session kind raw_origins raw w =
      (origins : List Text) × (checked_origins kind raw_origins ≡ ok origins)
      × ((later : ℕ) (h : Headers)
          → presented h ≡ some raw
          → (actor os later h (calm w)).0 ≡ taken_for session.tenant_id kind origins h.origin)

  taken :
      (session : SessionAuth) (kind : Text) (raw_origins : List Text) (u v raw : Text) (w : World)
      → checked_kind kind ≡ ok tt
      → Minted session.tenant_id kind raw_origins u v raw w
      → IsTaken session kind raw_origins raw w
  taken session kind raw_origins u v raw w known (er, (origins, e, (k, f, et, ek, eo))) = (
    origins,
    e,
    λ later h token.
        actor-calm later h w raw token k (rw er (no_session kind u v)) f
        ∙ (answer_key h k w (rw ek (known_kind kind known))
            ∙ rw (et, ek) (ap (λ allowed. taken_for session.tenant_id kind allowed h.origin) eo)),
  )

  create_step :
      (limit now : ℕ) (u v : Text) (session : SessionAuth) (kind label : Text)
      (raw_origins : List Text)
      → Triple
          (λ _. Unit {0})
          (create_key os limit now u v session kind label raw_origins)
          (IsTaken session kind raw_origins)
          (λ _. Unit {0})
  unfolding create_key
  create_step limit now u v session kind label raw_origins =
      Triple-bind (λ _ _. Unit {0}) _ _
        (check-Triple (λ _. Unit {0}) limit now _ (λ w fs h. h) (λ w cs h. h))
        λ _.
          Triple-lift (checked_kind kind) _ (λ w h. tt)
            λ _ known.
              Triple-map (λ raw w h. taken session kind raw_origins u v raw w known h) (λ _ h. h) _
                _ (mint_step u v session.tenant_id kind (label_or_default label) raw_origins)

  -- A tenant that mints a key for itself. Where that succeeds, a request that presents the key is taken
  -- for the tenant, in the state left behind and with every call answered: with a secret key, if it
  -- is one; with a publishable key, if the request comes from one of the listed origins in
  -- canonical form; and from any other origin, or from none, a publishable key is answered 403.
  pub create_key-actor :
      (limit now : ℕ) (u v : Text) (session : SessionAuth) (kind label : Text)
      (raw_origins : List Text) (w : World)
      → After
          (IsTaken session kind raw_origins)
          (λ _. Unit {0})
          (create_key os limit now u v session kind label raw_origins w)
  create_key-actor limit now u v session kind label raw_origins w =
      (create_step limit now u v session kind label raw_origins).run w tt
