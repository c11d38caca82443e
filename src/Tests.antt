-- ===== src/Tests.antt =====
-- Rows and states that the tests run on: the tables of crates/api/migrations and the stores beside them.
pub mod Lifecycle
pub mod Deletion
pub mod Reaper
pub mod Chunk
pub mod Embedding
pub mod Keys
pub mod Uploads
pub mod Erasure
pub mod Listing
pub mod Worker
pub mod Access
pub mod Ask
pub mod Transitions
use bot_flow.Prelude.{ℕ, Text, codes, Option, none, some, List, [], ◌∷◌}
use bot_flow.Documents.{Status, uploading, processing, ready, deleting, Row}
use bot_flow.World.{World, Point, Message, Fate, refused, assistant}
use bot_flow.Actor.{Actor, secret, publishable}

abbrev pub acme : Text
acme = codes "acme"

abbrev pub row : ℕ → Status → Option ℕ → Row
row id status started = record {
  id = id;
  tenant_id = acme;
  filename = codes "a.pdf";
  object_key = codes "k";
  status = status;
  created_at = 100;
  content_type = none;
  size_bytes = none;
  etag = some (codes "e1");
  upload_expires_at = some 1000;
  uploaded_at = none;
  processing_started_at = started;
  processed_at = none;
  error = none;
  failure_reason = none;
  attempts = 0;
  external_id = none;
}

abbrev pub indexed : Row
indexed = row 1 ready none

abbrev pub held : Row
held = row 2 processing (some 5000)

abbrev pub dying : Row
dying = row 3 deleting none

abbrev pub pending : Row
pending = row 4 uploading none

abbrev pub table : List Row
table = indexed ∷ held ∷ dying ∷ pending ∷ []

-- Every call that `fates` does not decide is answered.
abbrev pub world : List Fate → World
world fates = record {
  tenants = acme ∷ [];
  documents = table;
  points =
      record {
        tenant_id = acme;
        document_id = some 1;
        chunk_index = 0;
        text = codes "hi";
        char_start = 0;
        char_end = 2;
        vector = [];
      }
      ∷ record {
        tenant_id = acme;
        document_id = some 3;
        chunk_index = 0;
        text = codes "yo";
        char_start = 0;
        char_end = 2;
        vector = [];
      }
      ∷ [];
  objects = codes "k" ∷ codes "other" ∷ [];
  messages =
      record {
        conversation_id = 7;
        tenant_id = acme;
        role = assistant;
        content = codes "hi [1]";
        document_ids = some (1 ∷ []);
      }
      ∷ [];
  erasures = [];
  api_keys =
      record {
        key_hash = codes "h1";
        tenant_id = acme;
        kind = codes "publishable";
        label = codes "default";
        allowed_origins = codes "https://acme.test" ∷ [];
      }
      ∷ [];
  sessions =
      record { token_hash = codes "h2"; account_id = 60; tenant_id = acme; expires_at = 20000 }
      ∷ record { token_hash = codes "h3"; account_id = 60; tenant_id = acme; expires_at = 20000 }
      ∷ [];
  accounts =
      record { id = 60; tenant_id = acme; email = codes "a@b.c"; password_hash = codes "p" } ∷ [];
  resets =
      record { token_hash = codes "h4"; account_id = 60; expires_at = 12600; used_at = none }
      ∷ record { token_hash = codes "h5"; account_id = 60; expires_at = 12600; used_at = none }
      ∷ [];
  conversations = record { id = 7; tenant_id = acme } ∷ [];
  counters = [];
  fates = fates;
}

abbrev pub owner : Actor
owner = record { tenant_id = acme; kind = secret }

abbrev pub visitor : Actor
visitor = record { tenant_id = acme; kind = publishable }
