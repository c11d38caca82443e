-- ===== src/Erasure.antt =====
-- Erasing a tenant: `erase_tenant` of crates/api/src/erasure.rs.
pub mod Traces
use bot_flow.Prelude.{
  ℕ, suc, ◌+◌, Text, text_eq, codes, List, [], ◌∷◌, ◌++◌, Bool, true, false, not, ◌==◌, length,
  filter, starts_with, if◌then◌else◌, ◌&&◌, ◌||◌,
}
use bot_flow.Documents.{Row}
use bot_flow.Documents.Sql.{visible, remove}
use bot_flow.World.{World, Message, Account, ResetToken}
use bot_flow.World.Steps.{Exec, pure, call, ◌>>=◌, ◌>>◌}
use bot_flow.World.Stores.{of_tenant, delete_points, delete_object}

-- `DELETE FROM api_keys WHERE tenant_id = $1`, and the same for the sessions.
unfoldable pub revoke_keys : Text → Exec (Unit {0})
revoke_keys tenant =
    call
      λ w. (tt, record w { api_keys = filter (λ k. not (text_eq k.tenant_id tenant)) w.api_keys })

unfoldable pub revoke_sessions : Text → Exec (Unit {0})
revoke_sessions tenant =
    call
      λ w. (tt, record w { sessions = filter (λ s. not (text_eq s.tenant_id tenant)) w.sessions })

unfoldable pub count_tenant_vectors : Text → Exec ℕ
count_tenant_vectors tenant = call λ w. (length (filter (of_tenant tenant) w.points), w)

unfoldable pub delete_counted : Text → ℕ → Exec ℕ
delete_counted tenant before =
    if before == 0 then pure 0 else delete_points (of_tenant tenant) >> pure before

unfoldable pub delete_tenant_vectors : Text → Exec ℕ
unfolding delete_counted count_tenant_vectors
delete_tenant_vectors tenant = count_tenant_vectors tenant >>= delete_counted tenant

abbrev pub prefix : Text → Text
prefix tenant = codes "tenants/" ++ tenant ++ codes "/"

unfoldable pub delete_listed : List Text → ℕ → Exec ℕ
delete_listed [] deleted = pure deleted
delete_listed (k ∷ ks) deleted = delete_object k >> delete_listed ks (deleted + 1)

unfoldable pub delete_tenant_objects : Text → Exec ℕ
unfolding delete_listed
delete_tenant_objects tenant = do
  keys ← call (λ w. (filter (λ k. starts_with k (prefix tenant)) w.objects, w))
  delete_listed keys 0

-- Whether a reset token stands for an account of the tenant.
abbrev pub of_account_in : Text → List Account → ResetToken → Bool
of_account_in tenant [] r = false
of_account_in tenant (a ∷ accounts) r =
    (text_eq a.tenant_id tenant && a.id == r.account_id) || of_account_in tenant accounts r

-- `DELETE FROM tenants WHERE id = $1`, with what the foreign keys take along.
unfoldable pub delete_tenant_rows : Text → Exec (Unit {0})
delete_tenant_rows tenant = call λ w. (
  tt,
  record w {
    tenants = filter (λ t. not (text_eq t tenant)) w.tenants;
    documents = remove (visible tenant) w.documents;
    messages = filter (λ m. not (text_eq m.tenant_id tenant)) w.messages;
    conversations = filter (λ c. not (text_eq c.tenant_id tenant)) w.conversations;
    api_keys = filter (λ k. not (text_eq k.tenant_id tenant)) w.api_keys;
    sessions = filter (λ s. not (text_eq s.tenant_id tenant)) w.sessions;
    resets = filter (λ r. not (of_account_in tenant w.accounts r)) w.resets;
    accounts = filter (λ a. not (text_eq a.tenant_id tenant)) w.accounts;
  },
)

unfoldable pub erase_tenant : Text → Exec (ℕ × ℕ)
unfolding revoke_keys revoke_sessions delete_tenant_vectors delete_tenant_objects delete_tenant_rows
erase_tenant tenant = do
  revoke_keys tenant
  revoke_sessions tenant
  vectors ← delete_tenant_vectors tenant
  objects ← delete_tenant_objects tenant
  delete_tenant_rows tenant
  late ← delete_tenant_vectors tenant
  pure (vectors + late, objects)
