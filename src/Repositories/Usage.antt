-- ===== src/Repositories/Usage.antt =====
-- app/repositories/llm_usage.py: one row for each model call, and the tenant's spend.
pub mod Spend
use contract_change_intel.Prelude.{ℕ, ℤ, ◌+◌, Text, [], ◌∷◌, ◌++◌, Option}
use contract_change_intel.Store.Rows.{UsageJobKind, Db, Ctx}

-- app/llm/client.py: the usage facts of one completed call.
pub record LlmUsage : Type 0 where
  pub model : Text
  pub prompt_tokens : ℕ
  pub completion_tokens : ℕ
  pub cost_usd : ℤ
  pub latency_ms : ℕ

unfoldable pub record_usage : Ctx → ℕ → UsageJobKind → Option ℕ → LlmUsage → Db → Db
record_usage ctx tenant_id job_type job_id usage db = record db {
  llm_usage =
      db.llm_usage
      ++ record {
        id = db.next_id;
        tenant_id = tenant_id;
        job_type = job_type;
        job_id = job_id;
        model = usage.model;
        prompt_tokens = usage.prompt_tokens;
        completion_tokens = usage.completion_tokens;
        cost_usd = usage.cost_usd;
        latency_ms = usage.latency_ms;
        request_id = ctx.request_id;
        created_at = ctx.now;
      }
        ∷ [];
  next_id = db.next_id + 1;
}
