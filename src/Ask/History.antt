-- ===== src/Ask/History.antt =====
-- What `recent` of crates/api/src/conversation.rs reads after `append_turn`.
use bot_flow.Prelude.{ℕ, suc, Text, List, ◌++◌, take, reverse, ◌≡◌, ◌≢◌}
use bot_flow.World.{World, Message}
use bot_flow.Ask.{newest, turn}

-- The newest `n` of a list, in its order.
abbrev newest_of : ℕ → List Message → List Message
newest_of n ms = reverse (take n (reverse ms))

module _ (tenant : Text) (id : ℕ) (question answer : Text) (docs : List ℕ) where
  abbrev exchange : List Message
  exchange = turn tenant id question answer docs

  -- What the turn adds to messages.
  abbrev pub Recorded : List Message → World → Type 0
  Recorded ms w =
      ((n : ℕ)
        → newest tenant id (suc (suc n)) w.messages
          ≡ newest tenant id n ms ++ turn tenant id question answer docs)
      × ((other : ℕ)
          → other ≢ id
          → (n : ℕ) → newest tenant other n w.messages ≡ newest tenant other n ms)
