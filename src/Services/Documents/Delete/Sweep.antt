-- ===== src/Services/Documents/Delete/Sweep.antt =====
-- What the sweep of a deletion removes.
use contract_change_intel.Prelude.{
  ℕ, List, [], ◌∷◌, false, not, ◌≡◌, refl, arith, exists, select, inl, inr, Bool, true, All,
  All-map_implies, ◌||◌, if◌then◌else◌, Bool-cases, ◌==◌,
}
use contract_change_intel.Store.Rows.{
  DocumentText, DocumentChunk, IngestionJob, ExtractionJob, ReviewItem, ChangeReportJob, Db,
}
use contract_change_intel.Repositories.Documents.{has_amendments, is_referenced}
use contract_change_intel.Repositories.DocumentTexts
use contract_change_intel.Repositories.DocumentChunks
use contract_change_intel.Repositories.IngestionJobs
use contract_change_intel.Repositories.ExtractionJobs
use contract_change_intel.Repositories.ChangeReportJobs.{
  names_amendment, ids_of, has_id_in, delete_ids, delete_for_amendment,
}
use contract_change_intel.Repositories.ReviewItems
use contract_change_intel.Services.Documents.Delete.{sweep}

exists_kept :
    {A : Type 0} (test : A → Bool) (xs : List A)
    → exists test (select (λ x. not (test x)) xs) ≡ false
exists_kept test [] = refl
exists_kept test (x ∷ xs) = elim (Bool-cases (test x)) [
  | inl e ↦ rw e (exists_kept test xs)
  | inr e ↦ rw (e, e) (exists_kept test xs)
]

abbrev pub compares_from : ℕ → ChangeReportJob → Bool
compares_from id j = j.subject.base_document_id == id

abbrev compares : ℕ → ChangeReportJob → Bool
compares id j = j.subject.base_document_id == id || j.subject.amended_document_id == id

-- The reports on the document are among those with an id in the list.
abbrev Listed : ℕ → List ℕ → ChangeReportJob → Type 0
Listed id ids j = names_amendment id j ≡ true → has_id_in ids j ≡ true

Listed-row :
    (id : ℕ) (j : ChangeReportJob) (js rest : List ChangeReportJob) (known : Bool)
    → names_amendment id j ≡ known
    → All (Listed id (ids_of rest)) js
    → All (Listed id (ids_of (if known then j ∷ rest else rest))) (j ∷ js)
Listed-row id j js rest true e h =
    (λ k. ground arith, All-map_implies _ _ js (λ i listed k. ground (arith, listed k)) h)
Listed-row id j js rest false e h = (λ k. absurd (ground (arith, e, k)), h)

ids_of-Listed :
    (id : ℕ) (js : List ChangeReportJob)
    → All (Listed id (ids_of (select (names_amendment id) js))) js
ids_of-Listed id [] = tt
ids_of-Listed id (j ∷ js) =
    Listed-row id j js (select (names_amendment id) js) _ refl (ids_of-Listed id js)

reports_removed :
    (id : ℕ) (ids : List ℕ) (js : List ChangeReportJob)
    → All (Listed id ids) js
    → exists (compares_from id) js ≡ false
    → exists (compares id) (select (λ j. not (has_id_in ids j)) js) ≡ false
reports_removed id ids [] h b = refl
reports_removed id ids (j ∷ js) h b = elim (Bool-cases (compares_from id j)) [
  | inl c ↦ absurd (ground (arith, c, b))
  | inr c ↦
      let rest = reports_removed id ids js h.1 (rw c at b) in
      elim (Bool-cases (has_id_in ids j)) [
        | inl e ↦ rw e rest
        | inr e ↦ elim (Bool-cases (names_amendment id j)) [
          | inl n ↦ absurd (ground (arith, e, h.0 n))
          | inr n ↦ rw (e, c, n) rest
        ]
      ]
]

none-Listed :
    (id : ℕ) (js : List ChangeReportJob)
    → All (Listed id []) js
    → exists (compares_from id) js ≡ false
    → exists (compares id) js ≡ false
none-Listed id [] h b = refl
none-Listed id (j ∷ js) h b = elim (Bool-cases (compares_from id j)) [
  | inl c ↦ absurd (ground (arith, c, b))
  | inr c ↦ elim (Bool-cases (names_amendment id j)) [
    | inl n ↦ absurd (ground (arith, h.0 n))
    | inr n ↦ rw (c, n) (none-Listed id js h.1 (rw c at b))
  ]
]

-- The sweep with the ids of the reports that it deletes.
abbrev swept : ℕ → List ℕ → Db → Db
swept id ids db = IngestionJobs.delete_for_document id (
    ExtractionJobs.delete_for_document id (
      DocumentTexts.delete_for_document id (
        DocumentChunks.delete_for_document id (
          ReviewItems.delete_for_document id
            (ReviewItems.delete_for_jobs ids (delete_ids ids db))))))

swept-unreferenced :
    (id : ℕ) (ids : List ℕ) (db : Db)
    → has_amendments id db ≡ false
    → All (Listed id ids) db.change_report_jobs
    → exists (compares_from id) db.change_report_jobs ≡ false
    → is_referenced id (swept id ids db) ≡ false
unfolding is_referenced has_amendments IngestionJobs.delete_for_document
    ExtractionJobs.delete_for_document DocumentTexts.delete_for_document
    DocumentChunks.delete_for_document ReviewItems.delete_for_document ReviewItems.delete_for_jobs
swept-unreferenced id [] db a h b =
    rw
      (
        a,
        exists_kept (λ (t : DocumentText). t.document_id == id) db.document_texts,
        exists_kept (λ (c : DocumentChunk). c.document_id == id) db.document_chunks,
        exists_kept (λ (j : IngestionJob). j.subject == id) db.ingestion_jobs,
        exists_kept (λ (j : ExtractionJob). j.subject == id) db.extraction_jobs,
        none-Listed id db.change_report_jobs h b,
        exists_kept (λ (r : ReviewItem). r.document_id == id) db.review_items,
      )
      refl
swept-unreferenced id (i ∷ ids) db a h b =
    rw
      (
        a,
        exists_kept (λ (t : DocumentText). t.document_id == id) db.document_texts,
        exists_kept (λ (c : DocumentChunk). c.document_id == id) db.document_chunks,
        exists_kept (λ (j : IngestionJob). j.subject == id) db.ingestion_jobs,
        exists_kept (λ (j : ExtractionJob). j.subject == id) db.extraction_jobs,
        reports_removed id (i ∷ ids) db.change_report_jobs h b,
        exists_kept (λ (r : ReviewItem). r.document_id == id)
            (select (λ r. not (ReviewItems.from_jobs (i ∷ ids) r)) db.review_items),
      )
      refl

pub sweep-unreferenced :
    (id : ℕ) (db : Db)
    → has_amendments id db ≡ false
    → exists (compares_from id) db.change_report_jobs ≡ false
    → is_referenced id (sweep id db) ≡ false
unfolding sweep delete_for_amendment
sweep-unreferenced id db a b =
    swept-unreferenced id _ db a (ids_of-Listed id db.change_report_jobs) b

swept-files : (id : ℕ) (ids : List ℕ) (db : Db) → (swept id ids db).stored_files ≡ db.stored_files
unfolding IngestionJobs.delete_for_document ExtractionJobs.delete_for_document
    DocumentTexts.delete_for_document DocumentChunks.delete_for_document
    ReviewItems.delete_for_document ReviewItems.delete_for_jobs
swept-files id [] db = refl
swept-files id (i ∷ ids) db = refl

pub sweep-files : (id : ℕ) (db : Db) → (sweep id db).stored_files ≡ db.stored_files
unfolding sweep delete_for_amendment
sweep-files id db = swept-files id _ db
