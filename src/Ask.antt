-- ===== src/Ask.antt =====
-- crates/api/src/conversation.rs: the memory of a conversation. The language model is an argument: the
-- text it answers to a system prompt and a message, or nothing where the call fails.
pub mod Handlers
pub mod History
pub mod Sources
pub mod Streams
use bot_flow.Prelude.{
  ℕ, ◌+◌, Text, text_eq, codes, Option, none, some, List, [], ◌∷◌, ◌++◌, Bool, true, false, not,
  ◌&&◌, ◌||◌, ◌==◌, ltb, map, filter, take, length, reverse, is_empty, find_first, trim,
  if◌then◌else◌,
}
use bot_flow.Outcome.{Result, ok, err, client, unavailable, require}
use bot_flow.World.{World, Message, Role, user, assistant, Conversation}
use bot_flow.World.Steps.{Exec, pure, lift, call, transact, ◌>>=◌, ◌>>◌}

abbrev pub history_limit : ℕ
history_limit = 10

abbrev pub max_rewrite_chars : ℕ
max_rewrite_chars = 500

-- A conversation that the tenant sees.
unfoldable pub is_conversation : Text → ℕ → Conversation → Bool
is_conversation tenant id c = text_eq c.tenant_id tenant && c.id == id

abbrev pub is_some {ℓ} : {A : Type ℓ} → Option A → Bool
is_some none = false
is_some (some a) = true

-- `ensure`: `fresh` is the UUID of a conversation that is created.
unfoldable pub ensure : ℕ → Text → Option ℕ → Exec ℕ
unfolding is_conversation
ensure fresh tenant (some id) = do
  found ← call (λ w. (is_some (find_first (is_conversation tenant id) w.conversations), w))
  lift (require found (client 404 "conversation not found"))
  pure id
ensure fresh tenant none = call λ w. (
  fresh,
  record w { conversations = w.conversations ++ record { id = fresh; tenant_id = tenant } ∷ [] },
)

-- A message of a conversation that the tenant sees.
unfoldable pub is_turn : Text → ℕ → Message → Bool
is_turn tenant id m = text_eq m.tenant_id tenant && m.conversation_id == id

-- The newest `limit` of them, and these in their order.
unfoldable pub newest : Text → ℕ → ℕ → List Message → List Message
unfolding is_turn
newest tenant id limit messages =
    reverse (take limit (reverse (filter (is_turn tenant id) messages)))

unfoldable pub recent : Text → ℕ → ℕ → Exec (List Message)
unfolding newest
recent tenant id limit = call λ w. (newest tenant id limit w.messages, w)

-- The two rows of an exchange.
unfoldable pub turn : Text → ℕ → Text → Text → List ℕ → List Message
turn tenant id question answer source_documents =
    record {
      conversation_id = id;
      tenant_id = tenant;
      role = user;
      content = question;
      document_ids = none;
    }
    ∷ record {
      conversation_id = id;
      tenant_id = tenant;
      role = assistant;
      content = answer;
      document_ids = if is_empty source_documents then none else some source_documents;
    }
    ∷ []

-- The INSERTs, with the foreign key on the conversation.
unfoldable pub store_turn : Text → ℕ → Text → Text → List ℕ → Exec (Unit {0})
unfolding turn
store_turn tenant id question answer source_documents w =
    if is_some (find_first (λ c. c.id == id) w.conversations)
    then (
      ok tt,
      record w { messages = w.messages ++ turn tenant id question answer source_documents },
    )
    else (err unavailable, w)

unfoldable pub append_turn : Text → ℕ → Text → Text → List ℕ → Exec (Unit {0})
unfolding store_turn
append_turn tenant id question answer source_documents =
    transact (store_turn tenant id question answer source_documents)

abbrev pub role_text : Role → Text
role_text user = codes "user"
role_text assistant = codes "assistant"

abbrev pub line : Message → Text
line m = role_text m.role ++ codes ": " ++ m.content

-- `join("\n")`
abbrev pub join_lines : List Text → Text
join_lines [] = []
join_lines (l ∷ []) = l
join_lines (l ∷ m ∷ ls) = l ++ 10 ∷ join_lines (m ∷ ls)

unfoldable pub transcript : List Message → Text
transcript history = join_lines (map line history)

-- `trim_matches('"')`
abbrev pub trim_quotes_start : Text → Text
trim_quotes_start [] = []
trim_quotes_start (c ∷ s) = let rest = trim_quotes_start s in if c == 34 then rest else c ∷ s

abbrev pub trim_quotes_end : Text → Text
trim_quotes_end [] = []
trim_quotes_end (c ∷ s) =
    let rest = trim_quotes_end s in if is_empty rest && c == 34 then [] else c ∷ rest

abbrev pub rewrite_system_prompt : Text
rewrite_system_prompt =
    codes
      "You rewrite a user's latest message into a standalone question. Use the conversation to resolve every pronoun and implicit reference (\"he\", \"his\", \"that one\", \"there\") into the explicit name or noun it refers to. Preserve names, numbers, emails and spelling EXACTLY as they appear. Do NOT answer the question. Do NOT explain. Output only the rewritten question and nothing else. If the message is already standalone, output it unchanged."

abbrev pub rewrite_user : List Message → Text → Text
rewrite_user history query =
    codes "CONVERSATION:"
    ++ 10
      ∷ (transcript history
          ++ 10
            ∷ 10
            ∷ (codes "LATEST MESSAGE: "
                ++ query
                ++ 10 ∷ 10 ∷ codes "Rewritten standalone question:"))

-- An answer of the model, if it is one that serves as a question.
unfoldable pub usable : Text → Text → Text
usable query answer =
    let rewritten = trim (trim_quotes_end (trim_quotes_start (trim answer))) in
    if is_empty rewritten || ltb max_rewrite_chars (length rewritten) then query else rewritten

unfoldable pub rewrite : (Text → Text → Option Text) → List Message → Text → Text
unfolding transcript usable
rewrite llm [] query = query
rewrite llm (m ∷ history) query =
    elim (llm rewrite_system_prompt (rewrite_user (m ∷ history) query)) [
      | none ↦ query
      | some answer ↦ usable query answer
    ]
