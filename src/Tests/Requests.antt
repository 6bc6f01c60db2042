-- ===== src/Tests/Requests.antt =====
-- Requests on a small database.
use contract_change_intel.Prelude.{
  pos, Text, codes, List, [], ◌∷◌, none, some, true, false, ℕ, ◌++◌, pick, ◌≡◌, refl, arith, ◌⊎◌,
  select, ltb_ℤ, length,
}
use contract_change_intel.Store.Json.{null}
use contract_change_intel.Store.Rows.{
  Document, ReviewItem, Db, Ctx, empty_db, parsed, extraction, approved, rejected, pending,
}
use contract_change_intel.Store.Errors.{
  Error, document_already_exists, review_item_already_resolved, upload_too_large,
}
use contract_change_intel.Store.Exec.{ok, err, alone}
use contract_change_intel.Jobs.Active.{AtMostOneActive}
use contract_change_intel.Jobs.Table.{new_job, find_active}
use contract_change_intel.Repositories.Documents
use contract_change_intel.Repositories.IngestionJobs
use contract_change_intel.Repositories.Audit.{record_entry}
use contract_change_intel.Repositories.ReviewItems
use contract_change_intel.Repositories.ReviewItems.{Candidate}
use contract_change_intel.Services.Documents.Upload.{
  Codecs, upload_document, read_upload, save_document, sniff_mime, text_mime,
}
use contract_change_intel.Services.Documents.Upload.Reading.{stream_bytes, read_upload-exact}
use contract_change_intel.Services.Documents.Upload.Outcomes.{
  IsAccepted, IsInserted, upload_document-ok, upload_document-lost_parent,
}
use contract_change_intel.Services.Documents.Delete.{delete_document}
use contract_change_intel.Services.Documents.Delete.Effects.{Cleared, delete_document-Cleared}
use contract_change_intel.Services.Ingestion.{enqueue_ingestion}
use contract_change_intel.Services.ChangeReport.{enqueue_change_report}
use contract_change_intel.Services.Enqueue.{
  IsComparable, Accepted, enqueue_ingestion-one_active, enqueue_ingestion-races,
  enqueue_change_report-cases,
}
use contract_change_intel.Services.ReviewQueue.{
  get_review_item, route_for_review, resolve_review_item,
}
use contract_change_intel.Services.ReviewQueue.Routing.{Routed, route_for_review-exact}
use contract_change_intel.Services.ReviewQueue.Terminal.{resolve_review_item-final}
use contract_change_intel.Prelude.{if◌then◌else◌, ltb}

abbrev now : Ctx
now = record { now = 50; request_id = codes "r1"; actor = none }

abbrev agreement : Document
agreement = record {
  id = 1;
  tenant_id = 7;
  filename = codes "a.txt";
  mime_type = text_mime;
  sha256 = codes "aa";
  amends_document_id = none;
  status = parsed;
  created_at = 10;
}

abbrev item : ReviewItem
item = record {
  id = 4;
  tenant_id = 7;
  source = extraction;
  item_type = "obligation";
  document_id = 1;
  job_id = 3;
  payload = null;
  confidence = pos 5;
  status = pending;
  corrected_values = none;
  resolved_at = none;
  created_at = 20;
}

abbrev small_db : Db
small_db = record empty_db { documents = agreement ∷ []; review_items = item ∷ []; next_id = 9 }

-- Nothing else is committed meanwhile.
abbrev quiet : Db → Db
quiet db = db

-- Another session deletes all documents meanwhile.
abbrev emptied : Db → Db
emptied db = record db { documents = [] }

abbrev codecs : Codecs
codecs = record { sha256 = λ s. s; namelist = λ s. none; decodes = λ s. true }

abbrev hello : List Text
hello = codes "hel" ∷ codes "lo" ∷ []

delete_document-Cleared_example :
    Cleared 7 agreement small_db false (delete_document alone false now 7 1 small_db)
unfolding Documents.find_by_id Documents.has_amendments
delete_document-Cleared_example =
    delete_document-Cleared false now 7 1 small_db agreement refl refl refl

upload_document-ok_example :
    (content : Text) × IsAccepted codecs 7 (some text_mime) hello 10 (some 1) small_db content
    × IsInserted 7
        (codecs.sha256 content)
        (some 1)
        (save_document 7 (codecs.sha256 content) content small_db)
        (Documents.new_document now 9 7 (codes "untitled") text_mime (codes "hello") (some 1))
        (upload_document codecs quiet now 7 none (some text_mime) hello 10 (some 1) small_db).1
unfolding upload_document read_upload sniff_mime save_document record_entry Documents.find_by_id
    Documents.find_by_sha256 Documents.create
upload_document-ok_example =
    upload_document-ok codecs quiet now 7 none (some text_mime) hello 10 (some 1) small_db refl

upload_document-lost_parent_example :
    upload_document codecs emptied now 7 none (some text_mime) hello 10 (some 1) small_db ≡ (
      err (document_already_exists none),
      emptied (save_document 7 (codes "hello") (codes "hello") small_db),
    )
unfolding read_upload sniff_mime save_document Documents.find_by_id Documents.find_by_sha256
upload_document-lost_parent_example =
    upload_document-lost_parent codecs emptied now 7 none (some text_mime) hello 10 1 small_db
      {content = codes "hello"}
      (record {
        allowed = refl;
        complete = refl;
        sniffed = refl;
        parent_found = (agreement, refl);
        is_new = refl;
      })
      refl refl

read_upload-exact_example : read_upload 4 0 hello ≡ (
    if ltb 4 (length (stream_bytes hello))
    then err (upload_too_large 4)
    else ok (stream_bytes hello))
read_upload-exact_example = read_upload-exact 4 hello

resolve_review_item-final_example :
    resolve_review_item now 7 4 rejected none (resolve_review_item now 7 4 approved none small_db).1
    ≡ (err (review_item_already_resolved 4), (resolve_review_item now 7 4 approved none small_db).1)
unfolding resolve_review_item get_review_item ReviewItems.resolve ReviewItems.find_by_id
    record_entry
resolve_review_item-final_example =
    resolve_review_item-final now 7 4 approved none small_db
      {r = ReviewItems.disposed now approved none item} now rejected none refl refl

abbrev sure : Candidate
sure = record { item_type = "obligation"; payload = null; confidence = pos 9 }

abbrev unsure : Candidate
unsure = record { item_type = "obligation"; payload = null; confidence = pos 2 }

route_for_review-exact_example :
    Routed now 7 extraction 1 3 small_db
      (select (λ (c : Candidate). ltb_ℤ c.confidence (pos 5)) (sure ∷ unsure ∷ []))
      (route_for_review now 7 extraction 1 3 (sure ∷ unsure ∷ []) (pos 5) small_db)
route_for_review-exact_example =
    route_for_review-exact now 7 extraction 1 3 (sure ∷ unsure ∷ []) (pos 5) small_db

enqueue_ingestion-one_active_example :
    AtMostOneActive (enqueue_ingestion emptied now 7 1 small_db).1.ingestion_jobs
unfolding IngestionJobs.find_active_for_document find_active pick
enqueue_ingestion-one_active_example =
    enqueue_ingestion-one_active emptied now 7 1 small_db (λ n. omega arith) (λ n. omega arith)
      (λ f. refl)

enqueue_ingestion-races_example :
    (id : ℕ) × ((enqueue_ingestion
        (λ t. (enqueue_ingestion alone now 7 1 t).1)
        now
        7
        1
        small_db).1.ingestion_jobs
      ≡ (new_job now 9 7 1 ∷ []) ++ new_job now id 7 1 ∷ [])
unfolding Documents.find_by_id IngestionJobs.find_active_for_document find_active pick
enqueue_ingestion-races_example = enqueue_ingestion-races now 7 1 small_db agreement refl refl refl

enqueue_change_report-cases_example :
    ((e : Error) × (enqueue_change_report now 7 1 2 small_db ≡ (err e, small_db)))
    ⊎ (IsComparable 7 1 2 small_db × Accepted now 7 1 2 small_db)
enqueue_change_report-cases_example = enqueue_change_report-cases now 7 1 2 small_db
