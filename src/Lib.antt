-- ===== src/Lib.antt =====
-- contract-change-intel: the core of the contract analysis service.
--
-- The service stores contracts, parses and chunks them, extracts obligations with a language model,
-- compares an amendment with the agreement that it amends, and routes uncertain results to human
-- review. Requests enqueue rows in three job tables; worker processes claim the rows and run them.
--
-- Files and what they model:
--   Prelude: names that all files use, list and option lemmas, Boolean tests, text as code points.
--   Store/Rows: app/models, one record for each table, and the database as a record of tables.
--   Store/Errors, Store/Exec: the exceptions of app/services, and service functions as functions
--     from the database to a result and the database. What was committed before an exception stays.
--   Jobs/Table, Jobs/Claims: app/repositories/job_claims.py and what the job repositories share.
--     `claim_next` takes the time and the rows that other transactions hold locked (SKIP LOCKED).
--   Repositories: app/repositories, one file for each of its modules.
--   Services/Documents: app/services/documents.py and app/storage/local.py. What other sessions
--     commit in the race windows is a function on the database, a parameter named `meanwhile`.
--     The unlink of a deletion may be refused by the file system.
--   Services/Ingestion, Extraction, ChangeReport: the request side of these modules of app/services,
--     the first two with a `meanwhile` window between the check for an active job and the INSERT.
--   Services/IngestionRun: `run_next_ingestion_job` of app/services/ingestion.py, with its batches.
--   Services/ChangeReportRun: `run_next_change_report_job` of app/services/change_report.py, in three
--     files: the explanations, the mapped impacts, and the run that stores and routes them.
--   Services/ReviewQueue: app/services/review_queue.py.
--   Parsing: `_build` of app/services/parsing.py. Parsing/Formats: its three parsers. Chunking: app/services/chunking.py.
--   Diffing: app/services/diffing.py, split into keys, sections and alignment.
--   Extraction: `_split_cited` and `extract_obligations` of app/services/extraction.py; the model is a
--     function from the number of the call to its reply or exception. Services/ExtractionRun: its
--     `run_next_extraction_job`, with the usage sink of app/services/usage.py; no other session writes
--     to the job between the claim and the end of its run.
--   Llm/Failure: the exceptions of app/llm/client.py that a runner meets, and runs that may raise
--     them: functions from the database to an outcome and the database, since each usage row is
--     committed on its own. Jobs/Finish: what the ends of all three runners have in common.
--   Llm/Client: `complete`, `complete_structured` and `embed` of app/llm/client.py with their usage
--     rows, priced by Llm/Cost (app/llm/cost.py). Llm/Client/Tools: `complete_with_tools`.
--   Auth/Jwks: the key cache of app/auth/jwks.py; Auth/Jwks/Spacing: overlapping calls of it, as a
--     sequence of their tests and of the ends of their fetches. Auth/Verifier: app/auth/verifier.py, with
--     `get_principal` and `require_role` of app/api/deps.py.
--   Jobs/Lifecycle: the job tables as queues of leases.
--   Repositories/Usage/Spend: the aggregations of app/repositories/llm_usage.py and `spend` of
--     app/services/usage.py.
--   RateLimit: app/ratelimit.py over the counters of the limits library. RequestId:
--     `sanitize_request_id` of app/middleware.py. Responses: the handlers of app/errors.py for the
--     exceptions of the services. Services/AuditTrail: app/services/audit.py.
--   Search: app/services/search.py. Impact: app/services/impact.py. Worker: the rotation of app/worker.py, where
--     each queue's runner is a function on a state, which may raise.
--   Tests: concrete inputs.
--
-- Numbers and texts: UUIDs and timestamps (in microseconds) are natural numbers, a text is a list of
-- code points, a double is an integer number of units of 2^-1074.
--
-- Fuel: `split_loop` of Chunking runs on the number of characters left and each window begins past
-- the one before; `paragraph_loop` of Diffing/Sections runs on the length of the text and each turn
-- moves on by two characters or more; `dotted_tail` of Diffing/Keys runs on the length of the line
-- and each part takes a character. `attempt_loop` of Extraction runs on the number of attempts.
-- `embed_loop` of Services/IngestionRun runs on the number of texts and each turn takes one or more;
-- `split_blank` of Parsing/Formats runs on the length of the text and each turn takes a character.
-- `round_loop` of Llm/Client/Tools runs on `max_rounds`, the bound of the source's own loop.
--
-- Parameters: SHA-256, the ZIP reader and the UTF-8 decoder (`Codecs`, `Readers`); pdfplumber's text
-- of a page and python-docx's paragraphs (`Readers`); the Unicode character database (`Unicode`);
-- the vector distance, the full-text match and rank of the database (`Index`); addition of doubles
-- (`Doubles`), prices (`Dollars`) and sums of costs; the SDK's answers (`Wire`) and the replies of the
-- language model (`Client`, `Surroundings`); the reader and the printer of JSON; PyJWT (`Jwt`), the
-- issuer's response and the clock; the counters of a rate limit (`Limiter`); the validation of a
-- stored extraction by pydantic; the text of a UUID and of an integer.
--
-- Failures of the database: the services meet the foreign keys of the documents, and an ingestion the
-- length of a vector of the embedding column and the character 0 in a text; it refuses no other write.
--
-- Not modelled: `stream_complete` and the transport of the language model client, the responses
-- to its errors and to refused access, the HTTP routes, configuration, logging and migrations: they
-- are input and output around the operations above. Evaluation and scripts run outside the service.
pub mod Prelude
pub mod Store
pub mod Jobs
pub mod Repositories
pub mod Services
pub mod Parsing
pub mod Chunking
pub mod Diffing
pub mod Extraction
pub mod Llm
pub mod Search
pub mod Impact
pub mod Worker
pub mod Auth
pub mod RequestId
pub mod RateLimit
pub mod Responses
pub mod Tests
