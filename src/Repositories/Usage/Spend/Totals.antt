-- ===== src/Repositories/Usage/Spend/Totals.antt =====
-- The rows of a spend report add up to its total.
use contract_change_intel.Prelude.{
  String, ℕ, ◌+◌, ℤ, List, [], ◌∷◌, Option, Bool, true, false, ◌≡◌, refl, sym, ◌∙◌, arith, All,
  Pairwise, select, exists, insert_by, insert_by-Pairwise, exists-insert_by, length, if◌then◌else◌,
  inl, inr, Bool-cases, All-map_implies,
}
use contract_change_intel.Store.Rows.{LlmUsageRecord, Db}
use contract_change_intel.Repositories.Usage.Spend.{
  SpendRow, Group, same_group, group_before, kind_word, by_kind, by_job, sum_of, groups_of,
  tenant_rows, group_rows, grouped, spend_by_job_type, spend_by_job, spend_total, SpendReport,
  spend, spend_row,
}

abbrev Different : Group → Group → Type 0
Different a b = same_group a b ≡ false

same_group-sym : (a b : Group) → same_group a b ≡ same_group b a
same_group-sym a b = ground arith

same_group_trans :
    (a b c : Group) → same_group a b ≡ true → same_group a c ≡ true → same_group b c ≡ true
same_group_trans a b c h k = ground arith

-- Groups: each row's group is in the list once.
no_match : (g : Group) (ks : List Group) → exists (same_group g) ks ≡ false → All (Different g) ks
no_match g [] h = tt
no_match g (k ∷ ks) h = elim (Bool-cases (same_group g k)) [
  | inl e ↦ ground arith
  | inr e ↦ (e, no_match g ks (ground arith))
]

groups_of-Pairwise :
    (group : LlmUsageRecord → Group) (rows : List LlmUsageRecord)
    → Pairwise Different (groups_of group rows)
groups_of-Pairwise group [] = tt
groups_of-Pairwise group (r ∷ rows) =
    elim (Bool-cases (exists (same_group (group r)) (groups_of group rows))) [
      | inl e ↦ rw e (groups_of-Pairwise group rows)
      | inr e ↦ rw e (no_match (group r) _ e, groups_of-Pairwise group rows)
    ]

hits : ℕ → Group → List Group → ℕ
hits v g [] = 0
hits v g (k ∷ ks) = let rest = hits v g ks in if same_group k g then v + rest else rest

hits-none :
    (v : ℕ) (g k : Group) (ks : List Group)
    → same_group k g ≡ true
    → All (Different k) ks
    → hits v g ks ≡ 0
unfolding hits
hits-none v g k [] e h = refl
hits-none v g k (j ∷ ks) e h = elim (Bool-cases (same_group j g)) [
  | inl m ↦ ground (arith, same_group_trans g k j, same_group-sym g k, same_group-sym g j, h.0)
  | inr m ↦ rw m (hits-none v g k ks e h.1)
]

hits-once :
    (v : ℕ) (g : Group) (ks : List Group)
    → Pairwise Different ks
    → exists (same_group g) ks ≡ true
    → hits v g ks ≡ v
unfolding hits
hits-once v g [] p h = ground arith
hits-once v g (k ∷ ks) p h = elim (Bool-cases (same_group k g)) [
  | inl m ↦ rw m (omega (arith, hits-none v g k ks m p.0))
  | inr m ↦ rw m (hits-once v g ks p.1 (ground (arith, same_group-sym k g)))
]

-- One column, summed over the rows of each group, summed over the groups.
group_sums : (LlmUsageRecord → ℕ) → (LlmUsageRecord → Group) → List LlmUsageRecord → List Group → ℕ
group_sums column group rows [] = 0
group_sums column group rows (k ∷ ks) =
    sum_of column (select (λ r. same_group k (group r)) rows) + group_sums column group rows ks

group_sums-none :
    (column : LlmUsageRecord → ℕ) (group : LlmUsageRecord → Group) (ks : List Group)
    → group_sums column group [] ks ≡ 0
unfolding group_sums
group_sums-none column group [] = refl
group_sums-none column group (k ∷ ks) = omega (arith, group_sums-none column group ks)

group_sums-row :
    (column : LlmUsageRecord → ℕ) (group : LlmUsageRecord → Group) (r : LlmUsageRecord)
    (rows : List LlmUsageRecord) (ks : List Group)
    → group_sums column group (r ∷ rows) ks
      ≡ hits (column r) (group r) ks + group_sums column group rows ks
unfolding group_sums hits
group_sums-row column group r rows [] = refl
group_sums-row column group r rows (k ∷ ks) = elim (Bool-cases (same_group k (group r))) [
  | inl m ↦ rw m (omega (arith, group_sums-row column group r rows ks))
  | inr m ↦ rw m (omega (arith, group_sums-row column group r rows ks))
]

Covers : (LlmUsageRecord → Group) → List Group → LlmUsageRecord → Type 0
Covers group ks r = exists (same_group (group r)) ks ≡ true

group_sums-all :
    (column : LlmUsageRecord → ℕ) (group : LlmUsageRecord → Group) (rows : List LlmUsageRecord)
    (ks : List Group)
    → Pairwise Different ks
    → All (Covers group ks) rows
    → group_sums column group rows ks ≡ sum_of column rows
unfolding Covers
group_sums-all column group [] ks p c = group_sums-none column group ks
group_sums-all column group (r ∷ rows) ks p c = omega (
  arith,
  group_sums-row column group r rows ks,
  hits-once (column r) (group r) ks p c.0,
  group_sums-all column group rows ks p c.1,
)

same_group_refl : (a : Group) → same_group a a ≡ true
same_group_refl a = ground arith

Covers-more :
    (group : LlmUsageRecord → Group) (g : Group) (ks : List Group) (rows : List LlmUsageRecord)
    → All (Covers group ks) rows
    → All (Covers group (g ∷ ks)) rows
unfolding Covers
Covers-more group g ks rows = All-map_implies _ _ rows (λ r c. ground (arith, c))

Covers-row :
    (group : LlmUsageRecord → Group) (r : LlmUsageRecord) (rows : List LlmUsageRecord)
    (ks : List Group) (known : Bool)
    → exists (same_group (group r)) ks ≡ known
    → All (Covers group ks) rows
    → All (Covers group (if known then ks else group r ∷ ks)) (r ∷ rows)
unfolding Covers
Covers-row group r rows ks true e c = (e, c)
Covers-row group r rows ks false e c =
    (rw (same_group_refl (group r)) refl, Covers-more group (group r) ks rows c)

groups_of-Covers :
    (group : LlmUsageRecord → Group) (rows : List LlmUsageRecord)
    → All (Covers group (groups_of group rows)) rows
groups_of-Covers group [] = tt
groups_of-Covers group (r ∷ rows) =
    Covers-row group r rows (groups_of group rows) _ refl (groups_of-Covers group rows)

grouped-Covers :
    (group : LlmUsageRecord → Group) (rows : List LlmUsageRecord)
    → All (Covers group (insert_by group_before (groups_of group rows))) rows
unfolding Covers
grouped-Covers group rows =
    All-map_implies _ _ rows (λ r c. exists-insert_by group_before (same_group (group r)) _ ∙ c)
      (groups_of-Covers group rows)

grouped-Pairwise :
    (group : LlmUsageRecord → Group) (rows : List LlmUsageRecord)
    → Pairwise Different (insert_by group_before (groups_of group rows))
grouped-Pairwise group rows =
    insert_by-Pairwise group_before Different _ (λ a b h. same_group-sym b a ∙ h)
      (groups_of-Pairwise group rows)

-- The sum of a column of a report.
abbrev pub total_of : (SpendRow → ℕ) → List SpendRow → ℕ
total_of column [] = 0
total_of column (r ∷ rows) = column r + total_of column rows

length-sum_of : (rows : List LlmUsageRecord) → length rows ≡ sum_of (λ _. 1) rows
length-sum_of [] = refl
length-sum_of (r ∷ rows) = omega (arith, length-sum_of rows)

-- The columns whose sums over the rows are those of the totals.
pub record AddsUp (report : SpendReport) : Type 0 where
  pub calls : total_of (λ (r : SpendRow). r.calls) report.rows ≡ report.total.calls
  pub prompt_tokens :
      total_of (λ (r : SpendRow). r.prompt_tokens) report.rows ≡ report.total.prompt_tokens
  pub completion_tokens :
      total_of (λ (r : SpendRow). r.completion_tokens) report.rows ≡ report.total.completion_tokens
  pub latency_ms : total_of (λ (r : SpendRow). r.latency_ms) report.rows ≡ report.total.latency_ms

module _ (sum_costs : List ℤ → ℤ) where
  -- `out` of a row of the report is the sum of `column`.
  IsColumn : (SpendRow → ℕ) → (LlmUsageRecord → ℕ) → Type 0
  IsColumn out column =
      (kind : String) (job_id : Option ℕ) (rows : List LlmUsageRecord)
      → out (spend_row sum_costs kind job_id rows) ≡ sum_of column rows

  group_rows-total :
      (out : SpendRow → ℕ) (column : LlmUsageRecord → ℕ) (group : LlmUsageRecord → Group)
      (rows : List LlmUsageRecord) (ks : List Group)
      → IsColumn out column
      → total_of out (group_rows sum_costs group rows ks) ≡ group_sums column group rows ks
  unfolding group_sums IsColumn
  group_rows-total out column group rows [] c = refl
  group_rows-total out column group rows (k ∷ ks) c = omega (
    arith,
    c (kind_word k.kind) k.job_id (select (λ r. same_group k (group r)) rows),
    group_rows-total out column group rows ks c,
  )

  grouped-total :
      (out : SpendRow → ℕ) (column : LlmUsageRecord → ℕ) (group : LlmUsageRecord → Group)
      (rows : List LlmUsageRecord)
      → IsColumn out column
      → total_of out (grouped sum_costs group rows) ≡ sum_of column rows
  unfolding grouped
  grouped-total out column group rows c =
      group_rows-total out column group rows _ c
      ∙ group_sums-all column group rows _ (grouped-Pairwise group rows) (grouped-Covers group rows)

  spend-total :
      (out : SpendRow → ℕ) (column : LlmUsageRecord → ℕ) (is_by_job : Bool) (tenant_id : ℕ)
      (db : Db)
      → IsColumn out column
      → total_of out (spend sum_costs is_by_job tenant_id db).rows
        ≡ sum_of column (tenant_rows tenant_id db)
  unfolding spend spend_by_job spend_by_job_type
  spend-total out column true tenant_id db c = grouped-total out column by_job _ c
  spend-total out column false tenant_id db c = grouped-total out column by_kind _ c

  -- In a spend report, grouped by kind or by job, the calls, the prompt tokens, the completion
  -- tokens and the latency of the rows add up to those of the total: each usage row of the tenant is
  -- counted in one group.
  pub spend-AddsUp :
      (is_by_job : Bool) (tenant_id : ℕ) (db : Db) → AddsUp (spend sum_costs is_by_job tenant_id db)
  unfolding spend spend_total IsColumn
  spend-AddsUp is_by_job tenant_id db = record {
    calls =
        spend-total (λ r. r.calls) (λ _. 1) is_by_job tenant_id db (λ _ _. length-sum_of)
        ∙ sym (length-sum_of (tenant_rows tenant_id db));
    prompt_tokens =
        spend-total (λ r. r.prompt_tokens) (λ r. r.prompt_tokens) is_by_job tenant_id db
          (λ _ _ _. refl);
    completion_tokens =
        spend-total (λ r. r.completion_tokens) (λ r. r.completion_tokens) is_by_job tenant_id db
          (λ _ _ _. refl);
    latency_ms =
        spend-total (λ r. r.latency_ms) (λ r. r.latency_ms) is_by_job tenant_id db (λ _ _ _. refl);
  }
