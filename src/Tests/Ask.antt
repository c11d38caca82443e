-- ===== src/Tests/Ask.antt =====
-- A question to acme's documents, with a search that returns every point it is asked about.
use bot_flow.Prelude.{ℕ, ◌≤◌, codes, some, List, [], ◌∷◌, leb, All, Any, inl, inr, ◌≡◌, refl}
use bot_flow.Outcome.{ok}
use bot_flow.World.{Point, answered}
use bot_flow.World.Triples.{After}
use bot_flow.Ask.Handlers.{AskRequest, text, Retrieval, ask}
use bot_flow.Ask.Sources.{Grounded, ask-Grounded}
use bot_flow.Tests.{acme, world, visitor}

abbrev scored : List Point → List (ℕ × Point)
scored [] = []
scored (p ∷ ps) = (7, p) ∷ scored ps

abbrev services : Retrieval ℕ
services = record {
  threshold = 5;
  at_least = λ a b. leb b a;
  embed_one = λ q. ok (1 ∷ []);
  query_points = λ v n ps. scored ps;
  llm = λ system user. some (codes "hi");
  llm_stream = λ system user. some (text (codes "h") ∷ text [] ∷ text (codes "i") ∷ []);
}

abbrev question : AskRequest
question = record { query = codes "hello?"; limit = 3; conversation_id = some 7 }

scored-among :
    (all ps : List Point)
    → ((p : Point) → Any (λ q. q ≡ p) ps → Any (λ q. q ≡ p) all)
    → All (λ (s, p). Any (λ q. q ≡ p) all) (scored ps)
scored-among all [] sub = tt
scored-among all (p ∷ ps) sub = (sub p (inl refl), scored-among all ps (λ q h. sub q (inr h)))

abbrev among :
    (v : List ℕ) (n : ℕ) (ps : List Point) → All (λ (s, p). Any (λ q. q ≡ p) ps) (scored ps)
among v n ps = scored-among ps ps (λ p h. h)

ask-Grounded_example :
    After
      (λ a _. Grounded services among acme (world (answered ∷ [])).points 3 a × (3 ≤ 20))
      (λ _. Unit {0})
      (ask services 60 100 8 visitor question (world (answered ∷ [])))
ask-Grounded_example = ask-Grounded services among 60 100 8 visitor question (world (answered ∷ []))
