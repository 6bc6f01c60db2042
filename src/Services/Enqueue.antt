-- ===== src/Services/Enqueue.antt =====
-- What the requests for jobs leave: app/services/ingestion.py, extraction.py and change_report.py.
use contract_change_intel.Prelude.{
  ℕ, none, ap, ◌∙◌, exists, ◌==◌, [], ◌∷◌, ◌++◌, some, true, ◌≡◌, refl, inl, inr, ◌⊎◌, Bool-cases,
  Option-cases,
}
use contract_change_intel.Store.Rows.{
  Document, ReportPair, ChangeReportJob, Db, Ctx, is_parsed, queued,
}
use contract_change_intel.Store.Json.{ident, obj, field, end}
use contract_change_intel.Store.Errors.{
  Error, prerequisite_missing, ingestion, extraction, document_not_found, amendment_mismatch,
}
use contract_change_intel.Store.Exec.{alone, ok, err}
use contract_change_intel.Jobs.Table.{new_job}
use contract_change_intel.Jobs.Active.{AtMostOneActive, AtMostOneActive-new_job}
use contract_change_intel.Repositories.Documents.{find_by_id, document_exists, amends}
use contract_change_intel.Repositories.IngestionJobs
use contract_change_intel.Repositories.ExtractionJobs
use contract_change_intel.Repositories.ChangeReportJobs
use contract_change_intel.Repositories.Audit.{record_entry}
use contract_change_intel.Services.Ingestion.{enqueue_ingestion}
use contract_change_intel.Services.Extraction.{id_of}
use contract_change_intel.Services.ChangeReport.{
  enqueue_change_report, check_prerequisites, latest_completed,
}

-- Where no document has two such jobs that are queued or running, and what other sessions commit
-- between the check and the INSERT gives no document a second one, nor this document one where it had
-- none, then no document has two after a request for an ingestion, whether it succeeds or fails. The table has no
-- constraint that would refuse a second one.
pub enqueue_ingestion-one_active :
    (meanwhile : Db → Db) (ctx : Ctx) (tenant_id document_id : ℕ) (db : Db)
    → AtMostOneActive db.ingestion_jobs
    → AtMostOneActive (meanwhile db).ingestion_jobs
    → (IngestionJobs.find_active_for_document document_id db ≡ none
        → IngestionJobs.find_active_for_document document_id (meanwhile db) ≡ none)
    → AtMostOneActive (enqueue_ingestion meanwhile ctx tenant_id document_id db).1.ingestion_jobs
unfolding enqueue_ingestion IngestionJobs.find_active_for_document IngestionJobs.create record_entry
enqueue_ingestion-one_active meanwhile ctx tenant_id document_id db one others free =
    elim (Option-cases (find_by_id tenant_id document_id db)) [
      | inl e ↦ rw e one
      | inr (d, e) ↦ elim (Option-cases (IngestionJobs.find_active_for_document document_id db)) [
        | inl f ↦ elim (Bool-cases (document_exists (meanwhile db) document_id)) [
          | inl t ↦
              rw (e, f, t)
                (AtMostOneActive-new_job ctx (meanwhile db).next_id tenant_id document_id
                  (meanwhile db).ingestion_jobs (free f) others)
          | inr t ↦ rw (e, f, t) others
        ]
        | inr (j, f) ↦ rw (e, f) one
      ]
    ]

-- What a request that is not refused leaves of what it found in the window.
module _ (meanwhile : Db → Db) (ctx : Ctx) (tenant_id document_id : ℕ) (db : Db) where
  abbrev Inserted : Db → Type 0
  Inserted db' =
      (db'.ingestion_jobs
        ≡ (meanwhile db).ingestion_jobs
          ++ new_job ctx (meanwhile db).next_id tenant_id document_id ∷ [])
      × (db'.documents ≡ (meanwhile db).documents)

  enqueue_ingestion-Inserted :
      (d : Document)
      → find_by_id tenant_id document_id db ≡ some d
      → IngestionJobs.find_active_for_document document_id db ≡ none
      → document_exists (meanwhile db) document_id ≡ true
      → Inserted (enqueue_ingestion meanwhile ctx tenant_id document_id db).1
  unfolding enqueue_ingestion IngestionJobs.create record_entry
  enqueue_ingestion-Inserted d e f t = rw (e, f, t) (refl, refl)

-- Two requests at once for a document that has no active job, where the whole of one runs between the
-- check and the INSERT of the other, both insert a job: the table has two that are queued.
pub enqueue_ingestion-races :
    (ctx : Ctx) (tenant_id document_id : ℕ) (db : Db) (d : Document)
    → find_by_id tenant_id document_id db ≡ some d
    → IngestionJobs.find_active_for_document document_id db ≡ none
    → document_exists db document_id ≡ true
    → (id : ℕ) × ((enqueue_ingestion
          (λ t. (enqueue_ingestion alone ctx tenant_id document_id t).1)
          ctx
          tenant_id
          document_id
          db).1.ingestion_jobs
        ≡ (db.ingestion_jobs ++ new_job ctx db.next_id tenant_id document_id ∷ [])
          ++ new_job ctx id tenant_id document_id ∷ [])
enqueue_ingestion-races ctx tenant_id document_id db d e f t =
    let other : Db → Db = λ x. (enqueue_ingestion alone ctx tenant_id document_id x).1 in
    let (jobs, documents) = enqueue_ingestion-Inserted alone ctx tenant_id document_id db d e f t in
    let there : document_exists (other db) document_id ≡ true =
      ap (exists (λ (x : Document). x.id == document_id)) documents ∙ t in
    (
      (other db).next_id,
      (enqueue_ingestion-Inserted other ctx tenant_id document_id db d e f there).0
          ∙ ap (λ js. js ++ new_job ctx (other db).next_id tenant_id document_id ∷ []) jobs,
    )

-- A version is ready for a report: it is parsed, and its latest extraction is complete.
abbrev pub IsReady : Db → Document → Type 0
IsReady db d =
    (is_parsed d.status ≡ true)
    × (latest_completed (ExtractionJobs.find_latest_for_document d.id db) ≡ true)

-- Two documents of the tenant that a report can compare.
abbrev pub IsComparable : ℕ → ℕ → ℕ → Db → Type 0
IsComparable tenant_id base_id amended_id db =
    (base : Document) × (amended : Document) × (find_by_id tenant_id base_id db ≡ some base)
    × (find_by_id tenant_id amended_id db ≡ some amended)
    × (amends base.id amended ≡ true)
    × IsReady db base
    × IsReady db amended

check_prerequisites-cases :
    (d : Document) (db : Db)
    → (IsReady db d × (check_prerequisites d db ≡ (ok tt, db)))
      ⊎ ((e : Error) × (check_prerequisites d db ≡ (err e, db)))
unfolding check_prerequisites
check_prerequisites-cases d db = elim (Bool-cases (is_parsed d.status)) [
  | inr p ↦ inr (
    prerequisite_missing d.id ingestion (id_of (IngestionJobs.find_latest_for_document d.id db)),
    rw p refl,
  )
  | inl p ↦ elim (Bool-cases (latest_completed (ExtractionJobs.find_latest_for_document d.id db))) [
    | inr q ↦ inr (
      prerequisite_missing d.id extraction
          (id_of (ExtractionJobs.find_latest_for_document d.id db)),
      rw (p, q) refl,
    )
    | inl q ↦ inl ((p, q), rw (p, q) refl)
  ]
]

-- What a request that passes its checks does.
abbrev pub Accepted : Ctx → ℕ → ℕ → ℕ → Db → Type 0
Accepted ctx tenant_id base_id amended_id db =
    (job : ChangeReportJob) × (db' : Db) × (enqueue_change_report ctx tenant_id base_id amended_id
        db
      ≡ (ok job, db'))
    × (job.status ≡ queued)
    × (db'.change_report_jobs ≡ db.change_report_jobs ++ job ∷ [])
    × (db'.documents ≡ db.documents)

accepted :
    (ctx : Ctx) (tenant_id base_id amended_id : ℕ) (db : Db) (b a : Document)
    → find_by_id tenant_id base_id db ≡ some b
    → find_by_id tenant_id amended_id db ≡ some a
    → amends b.id a ≡ true
    → check_prerequisites b db ≡ (ok tt, db)
    → check_prerequisites a db ≡ (ok tt, db)
    → Accepted ctx tenant_id base_id amended_id db
unfolding enqueue_change_report ChangeReportJobs.create record_entry
accepted ctx tenant_id base_id amended_id db b a e f m p q =
    let pair : ReportPair = record { base_document_id = b.id; amended_document_id = a.id } in
    let job = new_job ctx db.next_id tenant_id pair in
    (
      job,
      record_entry ctx tenant_id "change_report.enqueue" "change_report_job" db.next_id
          (obj
            (field "base_document_id" (ident b.id) (field "amended_document_id" (ident a.id) end)))
          (ChangeReportJobs.create ctx tenant_id b.id a.id db).1,
      rw (e, f, m, p, q) refl,
      refl,
      refl,
      refl,
    )

-- A request for a report either fails and leaves the database as it was, or finds two documents of
-- the tenant of which one amends the other, both parsed and with a completed latest extraction, and
-- adds one queued job.
pub enqueue_change_report-cases :
    (ctx : Ctx) (tenant_id base_id amended_id : ℕ) (db : Db)
    → ((e : Error) × (enqueue_change_report ctx tenant_id base_id amended_id db ≡ (err e, db)))
      ⊎ (IsComparable tenant_id base_id amended_id db
          × Accepted ctx tenant_id base_id amended_id db)
unfolding enqueue_change_report ChangeReportJobs.create record_entry
enqueue_change_report-cases ctx tenant_id base_id amended_id db =
    elim (Option-cases (find_by_id tenant_id base_id db)) [
      | inl e ↦ inl (document_not_found base_id, rw e refl)
      | inr (b, e) ↦ elim (Option-cases (find_by_id tenant_id amended_id db)) [
        | inl f ↦ inl (document_not_found amended_id, rw (e, f) refl)
        | inr (a, f) ↦ elim (Bool-cases (amends b.id a)) [
          | inr m ↦ inl (amendment_mismatch b.id a.id, rw (e, f, m) refl)
          | inl m ↦ elim (check_prerequisites-cases b db) [
            | inr (x, p) ↦ inl (x, rw (e, f, m, p) refl)
            | inl (rb, p) ↦ elim (check_prerequisites-cases a db) [
              | inr (x, q) ↦ inl (x, rw (e, f, m, p, q) refl)
              | inl (ra, q) ↦ inr (
                (b, a, e, f, m, rb, ra),
                accepted ctx tenant_id base_id amended_id db b a e f m p q,
              )
            ]
          ]
        ]
      ]
    ]
