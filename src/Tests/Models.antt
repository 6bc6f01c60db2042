-- ===== src/Tests/Models.antt =====
-- A model's replies to an extraction and to a mapping, and a worker with one busy queue.
use contract_change_intel.Prelude.{
  ℕ, pos, negsuc, Text, codes, List, [], ◌∷◌, none, Bool, false, ◌≡◌, refl, arith, All,
}
use contract_change_intel.Prelude.{some, ◌⊎◌}
use contract_change_intel.Store.Rows.{ExtractionJob, Db, Ctx, empty_db}
use contract_change_intel.Jobs.Table.{new_job}
use contract_change_intel.Repositories.ExtractionJobs
use contract_change_intel.Llm.Failure.{returned}
use contract_change_intel.Jobs.Claims.Invariant.{new_job-IsConsistent}
use contract_change_intel.Services.ExtractionRun.{run_next_extraction_job}
use contract_change_intel.Services.ExtractionRun.Finishes.{Ends, run_next_extraction_job-Ends}
use contract_change_intel.Repositories.Usage.{LlmUsage}
use contract_change_intel.Extraction.{
  Obligation, ObligationExtraction, LlmReply, reply, extract_obligations,
}
use contract_change_intel.Extraction.Gate.{GroundedOutcome, extract_obligations-IsGrounded}
use contract_change_intel.Search.{SearchHit}
use contract_change_intel.Tests.Searches.{contract}
use contract_change_intel.Impact.{MappedImpact, select_candidates, map_change_impacts}
use contract_change_intel.Impact.Candidates.{Overlapping, select_candidates-Overlapping}
use mathlib.Core.List.{Memᴰ}
use contract_change_intel.Impact.{visit_chunks, visit_obligations, visit, overlaps}
use contract_change_intel.Impact.Complete.{select_candidates_complete}
use contract_change_intel.Impact.Mapping.{IsChecked, map_change_impacts-IsChecked}

abbrev usage : LlmUsage
usage = record {
  model = [];
  prompt_tokens = 9;
  completion_tokens = 5;
  cost_usd = pos 0;
  latency_ms = 2;
}

abbrev payment : Obligation
payment = record {
  clause_ref = codes "1";
  description = codes "Pay the fee.";
  owner = none;
  citation = record { char_start = pos 0; char_end = pos 4 };
  confidence = pos 1;
}

abbrev invented : Obligation
invented = record payment { citation = record { char_start = negsuc 0; char_end = pos 99 } }

abbrev cited : ObligationExtraction
cited = record { obligations = payment ∷ []; defined_terms = [] }

abbrev uncited : ObligationExtraction
uncited = record { obligations = payment ∷ invented ∷ []; defined_terms = [] }

abbrev text : Text
text = codes "Pay the fee."

abbrev good_model : ℕ → LlmReply
good_model _ = reply cited usage

abbrev bad_model : ℕ → LlmReply
bad_model _ = reply uncited usage

extract_obligations-IsGrounded_example : GroundedOutcome text (extract_obligations bad_model text).0
extract_obligations-IsGrounded_example = extract_obligations-IsGrounded bad_model text

abbrev hit : SearchHit
hit = record {
  document_id = 1;
  document_sha256 = [];
  filename = [];
  chunk_id = 1;
  ordinal = 0;
  text = [];
  char_start = 2;
  char_end = 8;
  score = pos 1;
}

abbrev hits : List SearchHit
hits = hit ∷ []

select_candidates-Overlapping_example :
    All (Overlapping (payment ∷ []) hits) (select_candidates (payment ∷ []) hits 20)
select_candidates-Overlapping_example = select_candidates-Overlapping (payment ∷ []) hits 20

select_candidates_complete_example : Memᴰ payment (select_candidates (payment ∷ []) hits 20)
unfolding select_candidates visit_chunks visit_obligations visit overlaps
select_candidates_complete_example =
    select_candidates_complete (payment ∷ []) hits 20 hit payment (omega arith) (Memᴰ.head refl)
      (Memᴰ.head refl) refl

abbrev answer : List MappedImpact
answer =
    record { index = pos 0; confidence = pos 3 } ∷ record { index = pos 7; confidence = pos 1 } ∷ []

map_change_impacts-IsChecked_example :
    IsChecked (payment ∷ []) answer (map_change_impacts (payment ∷ []) answer)
map_change_impacts-IsChecked_example = map_change_impacts-IsChecked payment [] answer

abbrev at_noon : Ctx
at_noon = record { now = 50; request_id = []; actor = none }

-- One queued extraction of a parsed document.
abbrev extraction_db : Db
extraction_db = record empty_db {
  documents = contract ∷ [];
  document_texts = record { document_id = 1; tenant_id = 7; text = text; page_map = [] } ∷ [];
  extraction_jobs = new_job at_noon 3 7 1 ∷ [];
  next_id = 9;
}

abbrev show_id : ℕ → Text
show_id id = codes "id"

abbrev unlocked : ℕ → Bool
unlocked id = false

run_next_extraction_job-Ends_example :
    (run_next_extraction_job show_id at_noon bad_model (pos 5) unlocked extraction_db
      ≡ (returned false, extraction_db))
    ⊎ ((job : ExtractionJob) × (claimed : Db) × (ExtractionJobs.claim_next_queued at_noon unlocked
            extraction_db
          ≡ (some job, claimed))
        × Ends bad_model job claimed
            (run_next_extraction_job show_id at_noon bad_model (pos 5) unlocked extraction_db).0
            (run_next_extraction_job show_id at_noon bad_model (pos 5) unlocked extraction_db).1)
run_next_extraction_job-Ends_example =
    run_next_extraction_job-Ends show_id at_noon bad_model (pos 5) unlocked extraction_db
      (new_job-IsConsistent at_noon 3 7 1, tt)
