-- ===== src/Ask/Handlers.antt =====
-- Retrieval and answers: `search`, `retrieve`, `prepare`, `ask` and `ask_stream` of
-- crates/api/src/handlers.rs. The embedder and the language model are arguments, and so is the search of
-- Qdrant: what it finds for a vector among points, at most so many of them. Scores are
-- elements of a type `Score` with the comparison `≥`. Counting for the metrics is left out.
use bot_flow.Prelude.{
  ℕ, suc, Text, codes, Option, none, some, List, [], ◌∷◌, ◌++◌, Bool, true, false, not, ◌&&◌, ◌==◌,
  leb, map, filter, take, is_empty, if◌then◌else◌,
}
use bot_flow.Outcome.{Result, ok, other, ok_or}
use bot_flow.World.{Point}
use bot_flow.World.Steps.{Exec, pure, lift, call, ◌>>=◌, ◌>>◌}
use bot_flow.World.Stores.{of_tenant}
use bot_flow.Actor.{Actor, require_management}
use bot_flow.RateLimit.{check}
use bot_flow.Listing.{checked_limit, over_fetch}
use bot_flow.Access.Origins.{decimal}
use bot_flow.Ask.{ensure, recent, history_limit, rewrite, append_turn, join_lines}

abbrev pub no_answer : Text
no_answer = codes "Sorry, I couldn't find any relevant information."

abbrev pub rag_system_prompt : Text
rag_system_prompt =
    codes
      "You are a customer service assistant. Answer the user's question ONLY using the numbered CONTEXT passages below. If the answer is not in the context, say honestly that you don't have that information — do not make anything up. Be concise. Write the answer as plain prose: never include citation markers, bracketed numbers, or any reference to the passage numbers. Always answer in the same language as the user's question, even when the passages are in a different language — translate what you need from them rather than switching language."

pub record AskRequest : Type 0 where
  pub query : Text
  pub limit : ℕ
  pub conversation_id : Option ℕ

-- What a poll of the model's stream gives: some text, a failure, or the deadline of the answer.
pub data Delta : Type 0 where
  text : Text → Delta
  broken elapsed : Delta

-- `ids.sort(); ids.dedup()`. A UUID is a number, and its text sorts as the number does.
unfoldable pub insert_id : ℕ → List ℕ → List ℕ
insert_id id [] = id ∷ []
insert_id id (d ∷ ds) = let rest = insert_id id ds in if leb id d then id ∷ d ∷ ds else d ∷ rest

unfoldable pub sort_ids : List ℕ → List ℕ
unfolding insert_id
sort_ids [] = []
sort_ids (d ∷ ds) = insert_id d (sort_ids ds)

unfoldable pub dedup : List ℕ → List ℕ
dedup [] = []
dedup (d ∷ []) = d ∷ []
dedup (d ∷ e ∷ ds) = let rest = dedup (e ∷ ds) in if d == e then rest else d ∷ rest

module _ (Score : Type 0) where
  pub record Hit : Type 0 where
    pub score : Score
    pub text : Text
    pub document_id : Option ℕ

  -- What the handlers take of the services.
  pub record Retrieval : Type 0 where
    pub threshold : Score
    pub at_least : Score → Score → Bool
    pub embed_one : Text → Result (List ℕ)
    pub query_points : List ℕ → ℕ → List Point → List (Score × Point)
    pub llm : Text → Text → Option Text
    pub llm_stream : Text → Text → Option (List Delta)

  -- An answer with the passages it was made from, numbered from 1.
  pub record Answer : Type 0 where
    pub answer : Text
    pub sources : List (ℕ × Hit)
    pub conversation_id : ℕ

  pub data Event : Type 0 where
    conversation : ℕ → Event
    sources : List (ℕ × Hit) → Event
    token : Text → Event
    error done : Event

module _ {Score : Type 0} where
  unfoldable pub hit : Score × Point → Hit Score
  hit (s, p) = record { score = s; text = p.text; document_id = p.document_id }

  unfoldable pub cited_ids : List (Hit Score) → List ℕ
  cited_ids [] = []
  cited_ids (h ∷ hs) = elim h.document_id [ none ↦ cited_ids hs | some d ↦ d ∷ cited_ids hs ]

  unfoldable pub source_document_ids : List (Hit Score) → List ℕ
  unfolding cited_ids sort_ids dedup
  source_document_ids hits = dedup (sort_ids (cited_ids hits))

  abbrev pub enumerate : ℕ → List (Hit Score) → List (ℕ × Hit Score)
  enumerate i [] = []
  enumerate i (h ∷ hs) = (i, h) ∷ enumerate (suc i) hs

  abbrev pub passage : ℕ × Hit Score → Text
  passage (i, h) = codes "[" ++ decimal i ++ codes "] " ++ h.text

  unfoldable pub rag_user : List (Hit Score) → Text → Text
  rag_user relevant standalone =
      codes "CONTEXT:"
      ++ 10
        ∷ (join_lines (map passage (enumerate 1 relevant))
            ++ 10 ∷ 10 ∷ (codes "QUESTION: " ++ standalone))

  module _ (svc : Retrieval Score) where
    -- The query of Qdrant, with the mandatory filter on the tenant.
    unfoldable pub query_tenant : Text → List ℕ → ℕ → Exec (List (Hit Score))
    unfolding hit
    query_tenant tenant vector limit =
        call λ w. (map hit (svc.query_points vector limit (filter (of_tenant tenant) w.points)), w)

    unfoldable pub search : ℕ → ℕ → Actor → Text → ℕ → Exec (List (Hit Score))
    unfolding query_tenant checked_limit check require_management
    search rate now actor query raw_limit = do
      lift (require_management actor)
      limit ← lift (checked_limit raw_limit)
      check rate now actor.tenant_id
      vector ← lift (svc.embed_one query)
      query_tenant actor.tenant_id vector limit

    -- The floor first, then the limit.
    unfoldable pub relevant_hits : ℕ → List (Hit Score) → List (Hit Score)
    relevant_hits limit hits = take limit (filter (λ h. svc.at_least h.score svc.threshold) hits)

    unfoldable pub retrieve : Text → Text → ℕ → Exec (List (Hit Score))
    unfolding query_tenant over_fetch relevant_hits
    retrieve tenant query limit = do
      vector ← lift (svc.embed_one query)
      hits ← query_tenant tenant vector (over_fetch limit)
      pure (relevant_hits limit hits)

    unfoldable pub prepare : ℕ → Text → AskRequest → Exec (ℕ × Text)
    unfolding ensure recent rewrite
    prepare fresh tenant req = do
      id ← ensure fresh tenant req.conversation_id
      history ← recent tenant id history_limit
      pure (id, rewrite svc.llm history req.query)

    -- What follows retrieval in `ask`.
    unfoldable pub answer_from :
        Text → AskRequest → ℕ → Text → List (Hit Score) → Exec (Answer Score)
    unfolding append_turn rag_user source_document_ids
    answer_from tenant req id standalone [] = do
      append_turn tenant id req.query no_answer []
      pure record { answer = no_answer; sources = []; conversation_id = id }
    answer_from tenant req id standalone (h ∷ hits) = do
      answer ←
          lift (ok_or (svc.llm rag_system_prompt (rag_user (h ∷ hits) standalone)) (other "LLM"))
      append_turn tenant id req.query answer (source_document_ids (h ∷ hits))
      pure record { answer = answer; sources = enumerate 1 (h ∷ hits); conversation_id = id }

    unfoldable pub ask : ℕ → ℕ → ℕ → Actor → AskRequest → Exec (Answer Score)
    unfolding checked_limit check prepare retrieve answer_from
    ask rate now fresh actor req = do
      limit ← lift (checked_limit req.limit)
      check rate now actor.tenant_id
      prepared ← prepare fresh actor.tenant_id req
      relevant ← retrieve actor.tenant_id prepared.1 limit
      answer_from actor.tenant_id req prepared.0 prepared.1 relevant

    -- The loop over the stream: the frames, the answer so far, and whether it failed.
    unfoldable pub consume : Text → List Delta → List (Event Score) × Text × Bool
    consume answer [] = ([], answer, false)
    consume answer (elapsed ∷ ds) = ([], answer, false)
    consume answer (broken ∷ ds) = (error ∷ [], answer, true)
    consume answer (text [] ∷ ds) = consume answer ds
    consume answer (text (c ∷ s) ∷ ds) =
        let (events, all, failed) = consume (answer ++ c ∷ s) ds in
        (token (c ∷ s) ∷ events, all, failed)

    unfoldable pub streamed : Option (List Delta) → List (Event Score) × Text × Bool
    unfolding consume
    streamed none = (error ∷ [], [], true)
    streamed (some ds) = consume [] ds

    -- An error of the database is logged, and the stream goes on.
    abbrev pub attempt : Exec (Unit {0}) → Exec (Unit {0})
    attempt m w = (ok tt, (m w).1)

    unfoldable pub keep_turn : Text → AskRequest → ℕ → List ℕ → Text → Bool → Exec (Unit {0})
    unfolding append_turn
    keep_turn tenant req id docs answer failed =
        if not failed && not (is_empty answer)
        then attempt (append_turn tenant id req.query answer docs)
        else pure tt

    -- The frames after the conversation and the sources.
    unfoldable pub stream_from :
        Text → AskRequest → ℕ → Text → List (Hit Score) → Exec (List (Event Score))
    unfolding keep_turn streamed rag_user source_document_ids append_turn
    stream_from tenant req id standalone [] = do
      attempt (append_turn tenant id req.query no_answer [])
      pure (token no_answer ∷ done ∷ [])
    stream_from tenant req id standalone (h ∷ hits) =
        let (events, answer, failed) =
          streamed (svc.llm_stream rag_system_prompt (rag_user (h ∷ hits) standalone)) in
        keep_turn tenant req id (source_document_ids (h ∷ hits)) answer failed
        >> pure (events ++ done ∷ [])

    unfoldable pub ask_stream : ℕ → ℕ → ℕ → Actor → AskRequest → Exec (List (Event Score))
    unfolding checked_limit check prepare retrieve stream_from
    ask_stream rate now fresh actor req = do
      limit ← lift (checked_limit req.limit)
      check rate now actor.tenant_id
      prepared ← prepare fresh actor.tenant_id req
      relevant ← retrieve actor.tenant_id prepared.1 limit
      events ← stream_from actor.tenant_id req prepared.0 prepared.1 relevant
      pure (conversation prepared.0 ∷ sources (enumerate 1 relevant) ∷ events)
