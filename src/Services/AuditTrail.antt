-- ===== src/Services/AuditTrail.antt =====
-- app/services/audit.py: the read side of the audit log.
use contract_change_intel.Prelude.{ℕ, String, List, Option}
use contract_change_intel.Store.Rows.{AuditLog, Db}
use contract_change_intel.Repositories.Audit

unfoldable pub list_audit_entries : ℕ → Option String → ℕ → Db → List AuditLog
list_audit_entries tenant_id action limit db = Audit.list_for_tenant tenant_id action limit db
