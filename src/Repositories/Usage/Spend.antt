-- ===== src/Repositories/Usage/Spend.antt =====
-- The spend aggregations of app/repositories/llm_usage.py, and `spend` of app/services/usage.py. The
-- sum of doubles in the order of the rows is a parameter.
pub mod Totals
use contract_change_intel.Prelude.{
  ℕ, suc, ◌+◌, ℤ, String, List, [], ◌∷◌, Option, none, some, Bool, true, false, not, ◌&&◌, ◌||◌,
  ltb, ◌==◌, select, exists, insert_by, length, if◌then◌else◌,
}
use contract_change_intel.Store.Rows.{UsageJobKind, LlmUsageRecord, Db}
use contract_change_intel.Store.Rows

pub record SpendRow : Type 0 where
  pub job_type : String
  pub job_id : Option ℕ
  pub calls : ℕ
  pub prompt_tokens : ℕ
  pub completion_tokens : ℕ
  pub cost_usd : ℤ
  pub latency_ms : ℕ

-- The order of the enumeration's members.
abbrev pub kind_rank : UsageJobKind → ℕ
kind_rank Rows.UsageJobKind.ingestion = 0
kind_rank Rows.UsageJobKind.extraction = 1
kind_rank Rows.UsageJobKind.change_report = 2
kind_rank Rows.UsageJobKind.search = 3

abbrev pub kind_word : UsageJobKind → String
kind_word Rows.UsageJobKind.ingestion = "ingestion"
kind_word Rows.UsageJobKind.extraction = "extraction"
kind_word Rows.UsageJobKind.change_report = "change_report"
kind_word Rows.UsageJobKind.search = "search"

-- What the rows are grouped by; `job_id` is none in the grouping by kind.
pub record Group : Type 0 where
  pub kind : UsageJobKind
  pub job_id : Option ℕ

abbrev pub same_id : Option ℕ → Option ℕ → Bool
same_id none none = true
same_id (some a) (some b) = a == b
same_id _ _ = false

-- NULLS LAST
abbrev pub id_before : Option ℕ → Option ℕ → Bool
id_before (some a) (some b) = ltb a b
id_before (some a) none = true
id_before none b = false

abbrev pub same_group : Group → Group → Bool
same_group a b = kind_rank a.kind == kind_rank b.kind && same_id a.job_id b.job_id

abbrev pub group_before : Group → Group → Bool
group_before a b =
    ltb (kind_rank a.kind) (kind_rank b.kind)
    || (kind_rank a.kind == kind_rank b.kind && id_before a.job_id b.job_id)

-- The columns of the two groupings.
abbrev pub by_kind : LlmUsageRecord → Group
by_kind r = record { kind = r.job_type; job_id = none }

abbrev pub by_job : LlmUsageRecord → Group
by_job r = record { kind = r.job_type; job_id = r.job_id }

abbrev pub sum_of : (LlmUsageRecord → ℕ) → List LlmUsageRecord → ℕ
sum_of column [] = 0
sum_of column (r ∷ rows) = column r + sum_of column rows

-- Each group once.
abbrev pub groups_of : (LlmUsageRecord → Group) → List LlmUsageRecord → List Group
groups_of group [] = []
groups_of group (r ∷ rows) =
    let rest = groups_of group rows in
    if exists (same_group (group r)) rest then rest else group r ∷ rest

abbrev pub costs_of : List LlmUsageRecord → List ℤ
costs_of [] = []
costs_of (r ∷ rows) = r.cost_usd ∷ costs_of rows

abbrev pub tenant_rows : ℕ → Db → List LlmUsageRecord
tenant_rows tenant_id db = select (λ (r : LlmUsageRecord). r.tenant_id == tenant_id) db.llm_usage

pub record SpendReport : Type 0 where
  pub rows : List SpendRow
  pub total : SpendRow

module _ (sum_costs : List ℤ → ℤ) where
  -- `_spend_row` of the totals of some rows.
  abbrev pub spend_row : String → Option ℕ → List LlmUsageRecord → SpendRow
  spend_row kind job_id rows = record {
    job_type = kind;
    job_id = job_id;
    calls = length rows;
    prompt_tokens = sum_of (λ (r : LlmUsageRecord). r.prompt_tokens) rows;
    completion_tokens = sum_of (λ (r : LlmUsageRecord). r.completion_tokens) rows;
    cost_usd = sum_costs (costs_of rows);
    latency_ms = sum_of (λ (r : LlmUsageRecord). r.latency_ms) rows;
  }

  abbrev pub group_rows :
      (LlmUsageRecord → Group) → List LlmUsageRecord → List Group → List SpendRow
  group_rows group rows [] = []
  group_rows group rows (g ∷ groups) =
      spend_row (kind_word g.kind) g.job_id (select (λ r. same_group g (group r)) rows)
      ∷ group_rows group rows groups

  -- GROUP BY and ORDER BY.
  unfoldable pub grouped : (LlmUsageRecord → Group) → List LlmUsageRecord → List SpendRow
  grouped group rows = group_rows group rows (insert_by group_before (groups_of group rows))

  unfoldable pub spend_by_job_type : ℕ → Db → List SpendRow
  unfolding grouped
  spend_by_job_type tenant_id db = grouped by_kind (tenant_rows tenant_id db)

  unfoldable pub spend_by_job : ℕ → Db → List SpendRow
  unfolding grouped
  spend_by_job tenant_id db = grouped by_job (tenant_rows tenant_id db)

  unfoldable pub spend_total : ℕ → Db → SpendRow
  spend_total tenant_id db = spend_row "" none (tenant_rows tenant_id db)

  -- `is_by_job` is `group_by == "job"`.
  unfoldable pub spend : Bool → ℕ → Db → SpendReport
  unfolding spend_by_job_type spend_by_job spend_total
  spend is_by_job tenant_id db = record {
    rows = if is_by_job then spend_by_job tenant_id db else spend_by_job_type tenant_id db;
    total = spend_total tenant_id db;
  }
