-- ===== src/Ask/Sources.antt =====
-- The passages behind an answer: `retrieve` and `ask` of crates/api/src/handlers.rs.
use bot_flow.Prelude.{
  ℕ, ◌≤◌, Text, List, [], ◌∷◌, Bool, true, All, All-take, Any, Any-map, filter, map, length,
  length-take, Option, none, some, Bool-cases, inl, inr, ◌≡◌, refl, sym, ap, ◌∙◌, arith,
}
use bot_flow.Outcome.{Result, ok, err, client, other, require, ok_or-ok, guard-ok}
use bot_flow.World.{World, Point}
use bot_flow.World.Stores.{of_tenant}
use bot_flow.World.Triples.{
  After, Triple, Triple-map, Triple-call, Triple-pure, Triple-bind, Triple-lift,
}
use bot_flow.Actor.{Actor, ActorKind}
use bot_flow.Listing.{checked_limit, over_fetch}
use bot_flow.RateLimit.Window.{check-Triple}
use bot_flow.Ask.{append_turn, ensure, recent}
use bot_flow.Ask.Handlers.{
  AskRequest, Hit, Retrieval, Answer, hit, enumerate, query_tenant, relevant_hits, retrieve,
  prepare, answer_from, ask, no_answer, rag_system_prompt, rag_user,
}

module _ {A : Type 0} (p : A → Bool) where
  filter-All :
      (P : A → Type 0) (xs : List A) → All P xs → All (λ x. P x × (p x ≡ true)) (filter p xs)
  filter-All P [] h = tt
  filter-All P (x ∷ xs) (hx, h) = elim (Bool-cases (p x)) [
    | inl e ↦ rw e ((hx, e), filter-All P xs h)
    | inr e ↦ rw e (filter-All P xs h)
  ]

  filter-Any :
      (xs : List A) (a : A) → Any (λ x. x ≡ a) (filter p xs) → Any (λ x. (x ≡ a) × (p a ≡ true)) xs
  filter-Any [] a h = absurd h
  filter-Any (x ∷ xs) a h = elim (Bool-cases (p x)) [
    | inl e ↦ elim (rw e at h) [
      | inl same ↦ inl (same, ap p (sym same) ∙ e)
      | inr rest ↦ inr (filter-Any xs a rest)
    ]
    | inr e ↦ inr (filter-Any xs a (rw e at h))
  ]

module _ {Score : Type 0} (svc : Retrieval Score)
    (among : (v : List ℕ) (n : ℕ) (ps : List Point)
      → All (λ (s, p). Any (λ q. q ≡ p) ps) (svc.query_points v n ps))
    (tenant : Text) (ps : List Point) where
  -- A passage of the tenant's that reaches the floor.
  abbrev pub IsSource : Hit Score → Type 0
  IsSource h =
      Any (λ p. (p.text ≡ h.text) × (p.document_id ≡ h.document_id) × (of_tenant tenant p ≡ true))
        ps
      × (svc.at_least h.score svc.threshold ≡ true)

  abbrev Here : World → Type 0
  Here w = w.points ≡ ps

  abbrev Owned : Hit Score → Type 0
  Owned h =
      Any (λ p. (p.text ≡ h.text) × (p.document_id ≡ h.document_id) × (of_tenant tenant p ≡ true))
        ps

  owned :
      (s : Score) (p : Point) → Any (λ q. q ≡ p) (filter (of_tenant tenant) ps) → Owned (hit (s, p))
  unfolding hit
  owned s p h =
      Any-map
        (λ q (same, mine).
          (ap (λ x. x.text) same, ap (λ x. x.document_id) same, ap (of_tenant tenant) same ∙ mine))
        ps (filter-Any (of_tenant tenant) ps p h)

  mapped :
      (xs : List (Score × Point))
      → All (λ (s, p). Any (λ q. q ≡ p) (filter (of_tenant tenant) ps)) xs
      → All Owned (map hit xs)
  mapped [] h = tt
  mapped (x ∷ xs) (hx, h) = (owned x.0 x.1 hx, mapped xs h)

  query-Owned :
      (v : List ℕ) (n : ℕ)
      → All Owned (map hit (svc.query_points v n (filter (of_tenant tenant) ps)))
  query-Owned v n =
      mapped (svc.query_points v n (filter (of_tenant tenant) ps))
        (among v n (filter (of_tenant tenant) ps))

  query-here :
      (v : List ℕ) (n : ℕ) (w : World)
      → Here w
      → All Owned (map hit (svc.query_points v n (filter (of_tenant tenant) w.points)))
  query-here v n w h = rw h (query-Owned v n)

  query_step :
      (v : List ℕ) (n : ℕ)
      → Triple Here (query_tenant svc tenant v n) (λ hits _. All Owned hits) (λ _. Unit {0})
  unfolding query_tenant
  query_step v n = Triple-call _ (λ w fs h. h) (λ w h. tt) λ w h. (query-here v n w h, tt)

  relevant-All :
      (limit : ℕ) (hits : List (Hit Score))
      → All Owned hits
      → All IsSource (relevant_hits svc limit hits)
        × (length (relevant_hits svc limit hits) ≤ limit)
  unfolding relevant_hits
  relevant-All limit hits h = (
    All-take IsSource limit _ (filter-All _ Owned hits h),
    omega (arith, length-take limit (filter (λ h. svc.at_least h.score svc.threshold) hits)),
  )

  retrieve_step :
      (query : Text) (limit : ℕ)
      → Triple Here
          (retrieve svc tenant query limit)
          (λ hits _. All IsSource hits × (length hits ≤ limit))
          (λ _. Unit {0})
  unfolding retrieve
  retrieve_step query limit =
      Triple-lift (svc.embed_one query) _ (λ w h. tt)
        λ v _.
          Triple-bind (λ hits _. All Owned hits) _ _ (query_step v (over_fetch limit))
            λ hits. Triple-pure _ λ w h. relevant-All limit hits h

  -- An empty context is refused without the model; otherwise the model answered a prompt made of it.
  abbrev pub Grounds : List (Hit Score) → Text → Type 0
  Grounds [] answer = answer ≡ no_answer
  Grounds (h ∷ hits) answer =
      (standalone : Text) × (svc.llm rag_system_prompt (rag_user (h ∷ hits) standalone)
        ≡ some answer)

  abbrev pub Grounded : ℕ → Answer Score → Type 0
  Grounded limit a =
      (hits : List (Hit Score)) × (a.sources ≡ enumerate 1 hits)
      × All IsSource hits
      × (length hits ≤ limit)
      × Grounds hits a.answer

  abbrev Anything : World → Type 0
  Anything _ = Unit

  append_step :
      (id : ℕ) (q a : Text) (docs : List ℕ)
      → Triple Anything (append_turn tenant id q a docs) (λ _ _. Unit {0}) Anything
  unfolding append_turn
  append_step id q a docs = record { run = λ w _. any _ }
    where
      any : (x : Result (Unit {0}) × World) → After (λ _ _. Unit {0}) Anything x
      any (ok _, w) = tt
      any (err _, w) = tt

  answer_step :
      (req : AskRequest) (id : ℕ) (standalone : Text) (limit : ℕ) (hits : List (Hit Score))
      → All IsSource hits
      → length hits ≤ limit
      → Triple Anything
          (answer_from svc tenant req id standalone hits)
          (λ a _. Grounded limit a)
          Anything
  unfolding answer_from
  answer_step req id standalone limit [] all le =
      Triple-bind (λ _ _. Unit {0}) _ _ (append_step id req.query no_answer [])
        λ _. Triple-pure _ λ w _. ([], refl, all, le, refl)
  answer_step req id standalone limit (h ∷ hits) all le =
      Triple-lift _ _ (λ w _. tt)
        λ answer e.
          Triple-bind (λ _ _. Unit {0}) _ _ (append_step id req.query answer _)
            λ _.
              Triple-pure _
                λ w _. (h ∷ hits, refl, all, le, (standalone, ok_or-ok _ (other "LLM") answer e))

  ensure_step :
      (fresh : ℕ) (o : Option ℕ) → Triple Here (ensure fresh tenant o) (λ _ w. Here w) Anything
  unfolding ensure
  ensure_step fresh none = Triple-call _ (λ w fs h. h) (λ w h. tt) λ w h. (h, tt)
  ensure_step fresh (some id) =
      Triple-bind (λ _ w. Here w) _ _ (Triple-call _ (λ w fs h. h) (λ w h. tt) λ w h. (h, tt))
        λ there.
          Triple-lift (require there (client 404 "conversation not found")) _ (λ w h. tt)
            λ _ e. Triple-pure id λ w h. h

  prepare_step :
      (fresh : ℕ) (req : AskRequest)
      → Triple Here (prepare svc fresh tenant req) (λ _ w. Here w) Anything
  unfolding prepare recent
  prepare_step fresh req =
      Triple-bind (λ _ w. Here w) _ _ (ensure_step fresh req.conversation_id)
        λ id.
          Triple-bind (λ _ w. Here w) _ _ (Triple-call _ (λ w fs h. h) (λ w h. tt) λ w h. (h, tt))
            λ history. Triple-pure _ λ w h. h

  limit-ok : (raw limit : ℕ) → checked_limit raw ≡ ok limit → (limit ≡ raw) × (raw ≤ 20)
  unfolding checked_limit
  limit-ok raw limit e = let (in_range, same) = guard-ok _ _ _ limit e in (sym same, ground arith)

  answer_from_step :
      (req : AskRequest) (id : ℕ) (standalone : Text) (limit : ℕ) (hits : List (Hit Score))
      → (limit ≡ req.limit) × (req.limit ≤ 20)
      → Triple
          (λ _. All IsSource hits × (length hits ≤ limit))
          (answer_from svc tenant req id standalone hits)
          (λ a _. Grounded req.limit a × (req.limit ≤ 20))
          Anything
  answer_from_step req id standalone limit hits (same, le) = record {
    run = λ w (sound, short).
        (Triple-map (λ a _ g. (g, le)) (λ _ h. h) _ _
            (answer_step req id standalone req.limit hits sound (omega arith))).run
          w tt;
  }

  ask_step :
      (rate now fresh : ℕ) (kind : ActorKind) (req : AskRequest)
      → Triple Here
          (ask svc rate now fresh (record { tenant_id = tenant; kind = kind }) req)
          (λ a _. Grounded req.limit a × (req.limit ≤ 20))
          Anything
  unfolding ask
  ask_step rate now fresh kind req =
      Triple-lift (checked_limit req.limit) _ (λ w h. tt)
        λ limit bound.
          Triple-bind (λ _ w. Here w) _ _
            (Triple-map (λ _ w h. h) (λ w h. tt) _ _
              (check-Triple Here rate now tenant (λ w fs h. h) (λ w cs h. h)))
            λ _.
              Triple-bind (λ _ w. Here w) _ _ (prepare_step fresh req)
                λ prepared. Triple-bind _ _ _ (retrieve_step prepared.1 limit) λ hits.
                  answer_from_step req prepared.0 prepared.1 limit hits
                    (limit-ok req.limit limit bound)

module _ {Score : Type 0} (svc : Retrieval Score)
    (among : (v : List ℕ) (n : ℕ) (ps : List Point)
      → All (λ (s, p). Any (λ q. q ≡ p) ps) (svc.query_points v n ps)) where
  -- If Qdrant returns only points that it is asked about, then an answer rests on at most as many
  -- passages as the caller asked for, which is at most 20; each is the text of a vector of
  -- the caller's tenant and scores no less than the floor; the answer to an empty context is the fixed
  -- refusal; and any other is what the model answered to a prompt made of those very passages.
  pub ask-Grounded :
      (rate now fresh : ℕ) (actor : Actor) (req : AskRequest) (w : World)
      → After
          (λ a _. Grounded svc among actor.tenant_id w.points req.limit a × (req.limit ≤ 20))
          (λ _. Unit {0})
          (ask svc rate now fresh actor req w)
  ask-Grounded rate now fresh actor req w =
      (ask_step svc among actor.tenant_id w.points rate now fresh actor.kind req).run w refl
