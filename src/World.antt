-- ===== src/World.antt =====
-- The state that the api and the worker share: Postgres, Qdrant and MinIO, and how a call to one of
-- them can fail. No transaction spans the three, so each call is a step of its own.
pub mod Steps
pub mod Stores
pub mod Triples
use bot_flow.Prelude.{ℕ, Text, Option, List, [], Bool, String}
use bot_flow.Documents.{Table}

-- A vector in the Qdrant collection, with the payload that filters read. Points that predate
-- attribution have no `document_id`. An `f32` is the number that its 32 bits are.
pub record Point : Type 0 where
  pub tenant_id : Text
  pub document_id : Option ℕ
  pub chunk_index : ℕ
  pub text : Text
  pub char_start : ℕ
  pub char_end : ℕ
  pub vector : List ℕ

pub data Role : Type 0 where
  user assistant : Role

-- A row of `messages`; `document_ids` is that key of its `metadata`.
pub record Message : Type 0 where
  pub conversation_id : ℕ
  pub tenant_id : Text
  pub role : Role
  pub content : Text
  pub document_ids : Option (List ℕ)

-- A row of `erasures`; `completed` says that `completed_at` is set.
pub record Erasure : Type 0 where
  pub id : ℕ
  pub tenant_id : Text
  pub scope : String
  pub document_id : Option ℕ
  pub actor : String
  pub completed : Bool
  pub vectors_deleted : Option ℕ
  pub objects_deleted : Option ℕ

-- What becomes of a call: it takes effect and answers; it fails without an effect; or it takes
-- effect, and the caller sees an error all the same.
pub data Fate : Type 0 where
  answered refused lost : Fate

-- A row of `api_keys`.
pub record ApiKey : Type 0 where
  pub key_hash : Text
  pub tenant_id : Text
  pub kind : Text
  pub label : Text
  pub allowed_origins : List Text

-- A row of `sessions`.
pub record Session : Type 0 where
  pub token_hash : Text
  pub account_id : ℕ
  pub tenant_id : Text
  pub expires_at : ℕ

-- A row of `accounts`.
pub record Account : Type 0 where
  pub id : ℕ
  pub tenant_id : Text
  pub email : Text
  pub password_hash : Text

-- A row of `password_reset_tokens`.
pub record ResetToken : Type 0 where
  pub token_hash : Text
  pub account_id : ℕ
  pub expires_at : ℕ
  pub used_at : Option ℕ

-- A row of `conversations`.
pub record Conversation : Type 0 where
  pub id : ℕ
  pub tenant_id : Text

-- A counter of the rate limiter in Redis: a bucket and a minute, with the requests counted so far.
pub record Counter : Type 0 where
  pub bucket : Text
  pub minute : ℕ
  pub count : ℕ

-- `objects` holds the keys of the bucket, `messages` are in the order of `seq`, and of a tenant only
-- the id is kept. `fates` decides the calls to come; with none left they are answered.
pub record World : Type 0 where
  pub tenants : List Text
  pub documents : Table
  pub points : List Point
  pub objects : List Text
  pub messages : List Message
  pub erasures : List Erasure
  pub api_keys : List ApiKey
  pub sessions : List Session
  pub accounts : List Account
  pub resets : List ResetToken
  pub conversations : List Conversation
  pub counters : List Counter
  pub fates : List Fate

-- A world in which every call to come is answered.
abbrev pub calm : World → World
calm w = record w { fates = [] }
