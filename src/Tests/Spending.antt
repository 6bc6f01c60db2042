-- ===== src/Tests/Spending.antt =====
-- A spend report by job: one search without a job, and two calls of one extraction.
use contract_change_intel.Prelude.{ℕ, ℤ, pos, codes, List, [], ◌∷◌, Option, none, some, true}
use contract_change_intel.Store.Rows.{UsageJobKind, LlmUsageRecord, Db, empty_db}
use contract_change_intel.Store.Rows
use contract_change_intel.Repositories.Usage.Spend.{spend}
use contract_change_intel.Repositories.Usage.Spend.Totals.{AddsUp, spend-AddsUp}

abbrev call : ℕ → UsageJobKind → Option ℕ → ℕ → LlmUsageRecord
call id kind job_id tokens = record {
  id = id;
  tenant_id = 7;
  job_type = kind;
  job_id = job_id;
  model = codes "small";
  prompt_tokens = tokens;
  completion_tokens = 2;
  cost_usd = pos 3;
  latency_ms = 40;
  request_id = [];
  created_at = 50;
}

abbrev db : Db
db = record empty_db {
  llm_usage =
      call 1 Rows.UsageJobKind.search none 10
      ∷ call 2 Rows.UsageJobKind.extraction (some 5) 20
      ∷ call 3 Rows.UsageJobKind.extraction (some 5) 30
      ∷ [];
  next_id = 9;
}

-- The database's sum, as the first of the costs.
abbrev first_cost : List ℤ → ℤ
first_cost [] = pos 0
first_cost (cost ∷ costs) = cost

spend-AddsUp_example : AddsUp (spend first_cost true 7 db)
spend-AddsUp_example = spend-AddsUp first_cost true 7 db
