-- ===== src/Actor.antt =====
-- Who asks: `Actor`, `AuthTenant` and their gates in crates/api/src/auth.rs.
use bot_flow.Prelude.{Text, String, ◌≡◌, ◌≢◌, arith}
use bot_flow.Outcome.{Result, ok, err, client}

pub data ActorKind : Type 0 where
  secret publishable session : ActorKind

pub record Actor : Type 0 where
  pub tenant_id : Text
  pub kind : ActorKind

management_gate : ActorKind → Result (Unit {0})
management_gate secret = ok tt
management_gate session = ok tt
management_gate publishable = err (client 403 "this endpoint requires a secret key or a session")

unfoldable pub require_management : Actor → Result (Unit {0})
unfolding management_gate
require_management a = management_gate a.kind

pub require_management-ok :
    (actor : Actor) → actor.kind ≢ publishable → require_management actor ≡ ok tt
unfolding require_management management_gate
require_management-ok actor h = ground arith

-- `actor_label` of crates/api/src/erasure.rs.
unfoldable pub actor_label : ActorKind → String
actor_label secret = "secret"
actor_label session = "session"
actor_label publishable = "publishable"
