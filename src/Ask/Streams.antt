-- ===== src/Ask/Streams.antt =====
-- `ask_stream` of crates/api/src/handlers.rs against `ask`.
use bot_flow.Prelude.{Text, some, List, [], false, is_empty, ◌≡◌}
use bot_flow.World.{World}
use bot_flow.World.Steps.{Exec}
use bot_flow.Actor.{Actor}
use bot_flow.Ask.Handlers.{Delta, Retrieval, Event, rag_system_prompt, consume}

-- Programs that leave the same state.
record Alike {B C : Type 0} (m : Exec B) (n : Exec C) : Type 0 where
  same : (w : World) → (m w).1 ≡ (n w).1

module _ {Score : Type 0} (svc : Retrieval Score) where
  -- The stream of an answer gives, in pieces and without a failure, what the model answers at once.
  abbrev pub Agrees : Text → Type 0
  Agrees prompt =
      (a : Text) × (svc.llm rag_system_prompt prompt ≡ some a)
      × (is_empty a ≡ false)
      × ((ds : List Delta) × (events : List (Event Score)) × (svc.llm_stream rag_system_prompt
              prompt
            ≡ some ds)
          × (consume svc [] ds ≡ (events, a, false)))
