-- ===== src/Access/Grants.antt =====
-- What the row behind a credential has, when a request is taken for an `Actor` (crates/api/src/auth.rs).
use bot_flow.Prelude.{
  ℕ, Text, text_eq, text_eq→eq, text_eq_refl, codes, Option, none, some, List, [], ◌∷◌, Bool, true,
  false, not, ◌&&◌, ltb→lt, and-true, Bool-cases, Any, Any-map, find_first-Any, some-injective, ◌∙◌,
  ◌<◌, ◌≡◌, refl, sym, ap, inl, inr, if◌then◌else◌, arith,
}
use bot_flow.Outcome.{ok, err, client, ok_or, ok_inj, guard-ok, require-ok, ok_or-ok}
use bot_flow.World.{World, ApiKey, Session}
use bot_flow.World.Triples.{
  After, Triple, Triple-call, Triple-pure, Triple-bind, Triple-lift, Triple-last,
}
use bot_flow.World.Steps.{pure, lift, ◌>>=◌}
use bot_flow.Actor.{Actor, ActorKind, secret, publishable, session}
use bot_flow.Access.{
  Platform, Headers, AuthTenant, bearer, presented, tenant_token, find_key, find_session, member,
  origin_gate, actor_of_key, hash_key, auth_tenant, session_auth, is_session_token, actor,
}

pub member-Any : (o : Text) (os : List Text) → member o os ≡ true → Any (λ a. some o ≡ some a) os
member-Any o [] e = cc
member-Any o (a ∷ os) e = elim (Bool-cases (text_eq a o)) [
  | inl c ↦ inl (rw (text_eq→eq a o c) refl)
  | inr c ↦ inr (member-Any o os (rw c at e))
]

allows-Any :
    (origin : Option Text) (os : List Text)
    → (elim origin [ none ↦ false | some o ↦ member o os ]) ≡ true
    → Any (λ a. origin ≡ some a) os
allows-Any none os e = cc
allows-Any (some o) os e = member-Any o os e

gate_origin :
    (k : ApiKey) (t : AuthTenant) (origin : Option Text)
    → (if text_eq k.kind (codes "publishable")
          && not (elim origin [ none ↦ false | some o ↦ member o k.allowed_origins ])
        then err (client 403 "origin not allowed for this key")
        else ok record { tenant_id = k.tenant_id; kind = k.kind })
      ≡ ok t
    → (k.kind ≡ t.kind)
      × (k.tenant_id ≡ t.tenant_id)
      × (k.kind ≡ codes "publishable" → Any (λ a. origin ≡ some a) k.allowed_origins)
gate_origin k t origin g =
    let (shut, same) = guard-ok _ _ _ t g in
    (
      ap (λ t. t.kind) same,
      ap (λ t. t.tenant_id) same,
      λ q.
          let p = text_eq_refl (codes "publishable") in
          allows-Any origin k.allowed_origins (ground (arith, rw q at shut)),
    )

module _ (os : Platform) (now : ℕ) (h : Headers) where
  -- A live session of the tenant, for a token of the session family.
  abbrev pub BySession : Text → List Session → Type 0
  BySession tenant ss =
      (token : Text) × (presented h ≡ some token)
      × (is_session_token token ≡ true)
      × Any
          (λ s. (s.token_hash ≡ hash_key os token) × (now < s.expires_at) × (s.tenant_id ≡ tenant))
          ss

  -- A key of the tenant and of a kind, with `P`.
  abbrev pub ByKey : Text → Text → (ApiKey → Type 0) → List ApiKey → Type 0
  ByKey tenant kind P ks =
      (token : Text) × (presented h ≡ some token)
      × Any (λ k. (k.key_hash ≡ hash_key os token) × (k.kind ≡ kind) × (k.tenant_id ≡ tenant) × P k)
          ks

  abbrev pub FromAllowed : ApiKey → Type 0
  FromAllowed k = Any (λ o. h.origin ≡ some o) k.allowed_origins

  -- What stands behind an actor of a kind.
  abbrev pub Grant : List ApiKey → List Session → ActorKind → Text → Type 0
  Grant ks ss session tenant = BySession tenant ss
  Grant ks ss secret tenant = ByKey tenant (codes "secret") (λ k. Unit {0}) ks
  Grant ks ss publishable tenant = ByKey tenant (codes "publishable") FromAllowed ks

  tenant_token-ok : (token : Text) → tenant_token h ≡ ok token → presented h ≡ some token
  unfolding tenant_token presented
  tenant_token-ok token e = token_of h.authorization e
    where
      token_of :
          (a : Option Text)
          → (elim a [
            | none ↦ err (client 401 "missing authorization header")
            | some header ↦
                ok_or (bearer header) (client 401 "expected 'Bearer <key>' authorization")
          ])
            ≡ ok token
          → (elim a [ none ↦ none | some header ↦ bearer header ]) ≡ some token
      token_of none e = cc
      token_of (some header) e = ok_or-ok (bearer header) _ token e

  module _ (ks : List ApiKey) (ss : List Session) where
    abbrev Rows : World → Type 0
    Rows w = (w.api_keys ≡ ks) × (w.sessions ≡ ss)

    abbrev Anything : World → Type 0
    Anything w = Unit

    session_row :
        (hash : Text) (s : Session)
        → some s ≡ find_session now hash ss
        → Any (λ x. (x.token_hash ≡ hash) × (now < x.expires_at) × (x.tenant_id ≡ s.tenant_id)) ss
    unfolding find_session
    session_row hash s e =
        Any-map
          (λ x (ex, t).
            let (a, b) = and-true _ _ t in
            (text_eq→eq _ _ a, ltb→lt _ _ b, ap (λ y. y.tenant_id) ex))
          ss (find_first-Any _ ss s (sym e))

    session_step :
        ((token : Text) → presented h ≡ some token → is_session_token token ≡ true)
        → Triple Rows (session_auth os now h) (λ s _. BySession s.tenant_id ss) Anything
    unfolding session_auth
    session_step c =
        Triple-lift _ _ (λ w r. tt)
          λ token e.
            Triple-bind (λ o _. o ≡ find_session now (hash_key os token) ss) _ _
              (Triple-call _ (λ w fs r. r) (λ w r. tt)
                λ w r. (ap (find_session now (hash_key os token)) r.1, tt))
              λ o.
                Triple-lift _ _ (λ w r. tt)
                  λ s es. Triple-pure _ λ w r.
                    let et =
                      ok_or-ok (presented h) (client 401 "missing authorization header") token e in
                    (
                      token,
                      et,
                      c token et,
                      session_row (hash_key os token) s
                          (sym (ok_or-ok o (client 401 "invalid or expired session") s es) ∙ r),
                    )

    -- What `auth_tenant` finds of the row.
    abbrev KeyRow : Text → AuthTenant → Type 0
    KeyRow token t =
        Any
          (λ k.
            (k.key_hash ≡ hash_key os token)
            × (k.kind ≡ t.kind)
            × (k.tenant_id ≡ t.tenant_id)
            × (k.kind ≡ codes "publishable" → FromAllowed k))
          ks

    key_row :
        (token : Text) (k : ApiKey) (t : AuthTenant)
        → some k ≡ find_key (hash_key os token) ks
        → origin_gate h k ≡ ok t
        → KeyRow token t
    unfolding find_key origin_gate
    key_row token k t e g =
        Any-map
          (λ x (ex, hx).
            rw ex (
              let (a, b, c) = gate_origin k t h.origin g in
              (text_eq→eq _ _ (rw ex at hx), a, b, c)))
          ks (find_first-Any _ ks k (sym e))

    tenant_step :
        Triple Rows
          (auth_tenant os h)
          (λ t _. (token : Text) × (presented h ≡ some token) × KeyRow token t)
          Anything
    unfolding auth_tenant
    tenant_step =
        Triple-lift _ _ (λ w r. tt)
          λ token e.
            Triple-bind (λ o _. o ≡ find_key (hash_key os token) ks) _ _
              (Triple-call _ (λ w fs r. r) (λ w r. tt)
                λ w r. (ap (find_key (hash_key os token)) r.0, tt))
              λ o.
                Triple-lift _ _ (λ w r. tt)
                  λ k ek.
                    Triple-last _ (λ w r. tt)
                      λ t g w r. (
                        token,
                        tenant_token-ok token e,
                        key_row token k t (sym (ok_or-ok o (client 401 "invalid API key") k ek) ∙ r)
                            g,
                      )

    family :
        (o : Option Text) (token : Text)
        → (elim o [ none ↦ false | some t ↦ is_session_token t ]) ≡ true
        → o ≡ some token
        → is_session_token token ≡ true
    family none token c e = cc
    family (some t) token c e = rw (sym (some-injective t token e)) c

    kind_step :
        (t : AuthTenant) (a : Actor)
        → actor_of_key t ≡ ok a
        → (token : Text) → presented h ≡ some token
        → KeyRow token t
        → Grant ks ss a.kind a.tenant_id
    kind_step t a e token et row = elim (Bool-cases (text_eq t.kind (codes "secret"))) [
      | inl b ↦
          let same = ok_inj _ a (rw b at e) in
          rw (sym same) (
            token,
            et,
            Any-map (λ x (hx, kx, tx, _). (hx, kx ∙ text_eq→eq t.kind (codes "secret") b, tx, tt))
                ks row,
          )
      | inr b ↦
          let (c, same) = require-ok _ _ _ a (rw b at e) in
          let kind = text_eq→eq t.kind (codes "publishable") c in
          rw (sym same)
            (token, et, Any-map (λ x (hx, kx, tx, o). (hx, kx ∙ kind, tx, o (kx ∙ kind))) ks row)
    ]

    route :
        (b : Bool)
        → (b ≡ true → (token : Text) → presented h ≡ some token → is_session_token token ≡ true)
        → Triple Rows
            (if b
              then session_auth os now h
                >>= (λ s. pure record { tenant_id = s.tenant_id; kind = session })
              else auth_tenant os h >>= (λ t. lift (actor_of_key t)))
            (λ a _. Grant ks ss a.kind a.tenant_id)
            Anything
    route true c =
        Triple-bind (λ s _. BySession s.tenant_id ss) _ _ (session_step (c refl))
          λ s. Triple-pure _ λ w g. g
    route false c =
        Triple-bind _ _ _ tenant_step
          λ t. Triple-last _ (λ w r. tt) λ a e w (token, et, row). kind_step t a e token et row

    actor-Triple : Triple Rows (actor os now h) (λ a _. Grant ks ss a.kind a.tenant_id) Anything
    unfolding actor
    actor-Triple =
        route (elim (presented h) [ none ↦ false | some t ↦ is_session_token t ])
          λ c token. family (presented h) token c

  -- A request is taken for a session only if it presents a token of the `sess_` family whose hash is
  -- that of a session of the tenant that has not expired; for a secret or a publishable key only if
  -- the hash of its token is that of a key of the tenant and of that kind; and for a publishable one
  -- only if it comes from an origin that the key allows. This holds whichever calls fail.
  pub actor-Grant :
      (w : World)
      → After
          (λ a _. Grant w.api_keys w.sessions a.kind a.tenant_id)
          (λ _. Unit {0})
          (actor os now h w)
  actor-Grant w = (actor-Triple w.api_keys w.sessions).run w (refl, refl)
