-- ===== src/Repositories/Audit.antt =====
-- app/repositories/audit_log.py: insert-only writes and the tenant's trail.
use contract_change_intel.Prelude.{
  ℕ, ◌+◌, String, List, [], ◌∷◌, ◌++◌, Option, none, some, Bool, true, ◌||◌, ◌&&◌, ltb, ◌==◌,
  select, take, insert_by,
}
use text.Mathlib.Text.{◌==◌ as str_eq}
use contract_change_intel.Store.Json.{Json}
use contract_change_intel.Store.Rows.{AuditLog, Db, Ctx}

unfoldable pub record_entry : Ctx → ℕ → String → String → ℕ → Json → Db → Db
record_entry ctx tenant_id action resource_type resource_id detail db = record db {
  audit_log =
      db.audit_log
      ++ record {
        id = db.next_id;
        tenant_id = tenant_id;
        actor = ctx.actor;
        request_id = ctx.request_id;
        action = action;
        resource_type = resource_type;
        resource_id = some resource_id;
        detail = some detail;
        created_at = ctx.now;
      }
        ∷ [];
  next_id = db.next_id + 1;
}

abbrev action_matches : Option String → AuditLog → Bool
action_matches none e = true
action_matches (some a) e = str_eq e.action a

-- ORDER BY created_at ASC, id ASC.
unfoldable pub older : AuditLog → AuditLog → Bool
older a b = ltb a.created_at b.created_at || (a.created_at == b.created_at && ltb a.id b.id)

unfoldable pub list_for_tenant : ℕ → Option String → ℕ → Db → List AuditLog
list_for_tenant tenant_id action limit db = take limit (
    insert_by older
      (select (λ (e : AuditLog). e.tenant_id == tenant_id && action_matches action e) db.audit_log))
