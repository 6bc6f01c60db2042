-- ===== src/Store/Rows.antt =====
-- app/models: a record for each table's row, and the database. A UUID is a number, a timestamp a
-- number of microseconds; `updated_at`, which no code reads, is left out, and so are indexes.
use contract_change_intel.Prelude.{ℕ, ℤ, Text, String, List, [], Option, Bool, true, false}
use contract_change_intel.Store.Json.{Json}

pub data DocumentStatus : Type 0 where
  uploaded parsed failed : DocumentStatus

pub record Document : Type 0 where
  pub id : ℕ
  pub tenant_id : ℕ
  pub filename : Text
  pub mime_type : Text
  pub sha256 : Text
  pub amends_document_id : Option ℕ
  pub status : DocumentStatus
  pub created_at : ℕ

pub record PageSpan : Type 0 where
  pub page : ℕ
  pub start : ℕ
  pub end : ℕ

pub record DocumentText : Type 0 where
  pub document_id : ℕ
  pub tenant_id : ℕ
  pub text : Text
  pub page_map : List PageSpan

-- An embedding's doubles are in units of 2^-1074.
pub record DocumentChunk : Type 0 where
  pub id : ℕ
  pub tenant_id : ℕ
  pub document_id : ℕ
  pub ordinal : ℕ
  pub text : Text
  pub char_start : ℕ
  pub char_end : ℕ
  pub embedding : Option (List ℤ)

-- IngestionJobStatus, ExtractionJobStatus and ChangeReportJobStatus have the same members.
pub data JobStatus : Type 0 where
  queued running completed failed : JobStatus

-- The columns that the job tables share; `subject` is what a job is about.
pub record Job (S : Type 0) : Type 0 where
  pub id : ℕ
  pub tenant_id : ℕ
  pub subject : S
  pub status : JobStatus
  pub result : Option Json
  pub error : Option Text
  pub attempts : ℕ
  pub lease_expires_at : Option ℕ
  pub created_at : ℕ

abbrev pub IngestionJob : Type 0
IngestionJob = Job ℕ

abbrev pub ExtractionJob : Type 0
ExtractionJob = Job ℕ

pub record ReportPair : Type 0 where
  pub base_document_id : ℕ
  pub amended_document_id : ℕ

abbrev pub ChangeReportJob : Type 0
ChangeReportJob = Job ReportPair

pub data ReviewItemSource : Type 0 where
  extraction impact_mapping : ReviewItemSource

pub data ReviewItemStatus : Type 0 where
  pending approved edited rejected : ReviewItemStatus

pub record ReviewItem : Type 0 where
  pub id : ℕ
  pub tenant_id : ℕ
  pub source : ReviewItemSource
  pub item_type : String
  pub document_id : ℕ
  pub job_id : ℕ
  pub payload : Json
  pub confidence : ℤ
  pub status : ReviewItemStatus
  pub corrected_values : Option Json
  pub resolved_at : Option ℕ
  pub created_at : ℕ

pub record AuditLog : Type 0 where
  pub id : ℕ
  pub tenant_id : ℕ
  pub actor : Option Text
  pub request_id : Text
  pub action : String
  pub resource_type : String
  pub resource_id : Option ℕ
  pub detail : Option Json
  pub created_at : ℕ

pub data UsageJobKind : Type 0 where
  ingestion extraction change_report search : UsageJobKind

-- The cost is an integer number of units of 2^-1074 dollars.
pub record LlmUsageRecord : Type 0 where
  pub id : ℕ
  pub tenant_id : ℕ
  pub job_type : UsageJobKind
  pub job_id : Option ℕ
  pub model : Text
  pub prompt_tokens : ℕ
  pub completion_tokens : ℕ
  pub cost_usd : ℤ
  pub latency_ms : ℕ
  pub request_id : Text
  pub created_at : ℕ

-- app/storage/local.py: the file at {data_dir}/{tenant_id}/{sha256}.
pub record StoredFile : Type 0 where
  pub tenant_id : ℕ
  pub sha256 : Text
  pub content : Text

-- The tables and, beside them, the files. Rows stand in the order of their insertion; `next_id` is the next UUID that is drawn.
pub record Db : Type 0 where
  pub documents : List Document
  pub document_texts : List DocumentText
  pub document_chunks : List DocumentChunk
  pub ingestion_jobs : List IngestionJob
  pub extraction_jobs : List ExtractionJob
  pub change_report_jobs : List ChangeReportJob
  pub review_items : List ReviewItem
  pub audit_log : List AuditLog
  pub llm_usage : List LlmUsageRecord
  pub stored_files : List StoredFile
  pub next_id : ℕ

abbrev pub empty_db : Db
empty_db = record {
  documents = [];
  document_texts = [];
  document_chunks = [];
  ingestion_jobs = [];
  extraction_jobs = [];
  change_report_jobs = [];
  review_items = [];
  audit_log = [];
  llm_usage = [];
  stored_files = [];
  next_id = 0;
}

-- app/request_context.py and the clock: what an operation reads of its surroundings.
pub record Ctx : Type 0 where
  pub now : ℕ
  pub request_id : Text
  pub actor : Option Text

abbrev pub is_queued : JobStatus → Bool
is_queued queued = true
is_queued _ = false

abbrev pub is_running : JobStatus → Bool
is_running running = true
is_running _ = false

abbrev pub is_completed : JobStatus → Bool
is_completed completed = true
is_completed _ = false

abbrev pub is_failed : JobStatus → Bool
is_failed failed = true
is_failed _ = false

abbrev pub is_parsed : DocumentStatus → Bool
is_parsed parsed = true
is_parsed _ = false

abbrev pub is_pending : ReviewItemStatus → Bool
is_pending pending = true
is_pending _ = false
