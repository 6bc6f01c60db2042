-- ===== src/Services/ChangeReportRun/MapImpacts.antt =====
-- `_map_impacts`: for each change, the search, the candidates and the mapping call.
use contract_change_intel.Prelude.{
  ℕ, ◌+◌, ℤ, Text, List, [], ◌∷◌, Option, none, some, if◌then◌else◌,
}
use contract_change_intel.Store.Json.{Json}
use contract_change_intel.Store.Rows.{ExtractionJob, Db, is_completed}
use contract_change_intel.Repositories.ExtractionJobs
use contract_change_intel.Repositories.Usage.{LlmUsage}
use contract_change_intel.Extraction.{Obligation, ObligationExtraction}
use contract_change_intel.Diffing.Align.{Change, Span}
use contract_change_intel.Search.{Doubles, Index, SearchHit, search_document}
use contract_change_intel.Impact.{MappedImpact, Impact, select_candidates, candidate_limit}
use contract_change_intel.Impact.Call.{excerpt, ask_impacts}
use contract_change_intel.Services.ChangeReportRun.Explain.{ChangeExplanation}
use contract_change_intel.Llm.Failure.{Outcome, Reply, Run, ◌>>=◌, pure, query}

abbrev pub impact_chunk_limit : ℕ
impact_chunk_limit = 5

-- The client's calls of a run: the explanation, and for the change with a number the embedding of
-- its query and its mapping.
pub record Client : Type 0 where
  pub explain : Text → Outcome (Reply (List ChangeExplanation))
  pub embed : ℕ → Text → Outcome (Reply (List (List ℤ)))
  pub map_impacts : ℕ → Text → Outcome (Reply (List MappedImpact))

-- What a run takes from its surroundings: the client, the index of the database, doubles, Python's
-- text of an integer, and `ObligationExtraction.model_validate`, `none` for its ValidationError.
pub record Tools : Type 0 where
  pub client : Client
  pub index : Index
  pub doubles : Doubles
  pub show_int : ℤ → Text
  pub validate : Json → Option ObligationExtraction

abbrev pub obligations_of : Option ObligationExtraction → List Obligation
obligations_of none = []
obligations_of (some e) = e.obligations

abbrev pub query_of : Text → Text → Option Span → Option Span → Option Text
query_of base_text amended_text (some span) base_span = some (excerpt amended_text span)
query_of base_text amended_text none (some span) = some (excerpt base_text span)
query_of base_text amended_text none none = none

unfoldable pub impact_query : Change → Text → Text → Option Text
impact_query change base_text amended_text =
    query_of base_text amended_text change.amended_span change.base_span

module _ (t : Tools) where
  abbrev pub parsed_result : Option Json → List Obligation
  parsed_result none = []
  parsed_result (some result) = obligations_of (t.validate result)

  abbrev pub latest_result : Option ExtractionJob → List Obligation
  latest_result none = []
  latest_result (some job) = if is_completed job.status then parsed_result job.result else []

  unfoldable pub base_obligations : ℕ → Db → List Obligation
  base_obligations document_id db =
      latest_result (ExtractionJobs.find_latest_for_document document_id db)

  -- The chunks recalled for the change with the number `n`.
  abbrev pub recall : (LlmUsage → Db → Db) → ℕ → ℕ → ℕ → Option Text → Run (List SearchHit)
  recall sink tenant_id document_id n none = pure []
  recall sink tenant_id document_id n (some text) =
      search_document t.index t.doubles (t.client.embed n) sink tenant_id document_id text
        impact_chunk_limit

  -- The loop over the changes, the first of which has the number `n`.
  unfoldable pub map_changes :
      (LlmUsage → Db → Db)
      → ℕ
      → ℕ
      → List Obligation
      → Text
      → Text
      → ℕ
      → List Change
      → Run (List (List Impact))
  unfolding impact_query
  map_changes sink tenant_id document_id obligations base_text amended_text n [] = pure []
  map_changes sink tenant_id document_id obligations base_text amended_text n (change ∷ changes) =
      do
        hits ← recall sink tenant_id document_id n (impact_query change base_text amended_text)
        impacts ←
            ask_impacts t.show_int (t.client.map_impacts n) sink change
              (select_candidates obligations hits candidate_limit) base_text amended_text
        rest ←
            map_changes sink tenant_id document_id obligations base_text amended_text (n + 1)
              changes
        pure (impacts ∷ rest)

  -- `[[] for _ in changes]`
  abbrev pub no_impacts : List Change → List (List Impact)
  no_impacts [] = []
  no_impacts (change ∷ changes) = [] ∷ no_impacts changes

  abbrev pub map_for :
      (LlmUsage → Db → Db)
      → ℕ
      → ℕ
      → List Change
      → Text
      → Text
      → List Obligation
      → Run (List (List Impact))
  map_for sink tenant_id document_id changes base_text amended_text [] = pure (no_impacts changes)
  map_for sink tenant_id document_id changes base_text amended_text (o ∷ obligations) =
      map_changes sink tenant_id document_id (o ∷ obligations) base_text amended_text 0 changes

  -- `_map_impacts`
  unfoldable pub map_impacts :
      (LlmUsage → Db → Db) → ℕ → ℕ → List Change → Text → Text → Run (List (List Impact))
  unfolding base_obligations map_changes
  map_impacts sink tenant_id document_id changes base_text amended_text = do
    obligations ← query (base_obligations document_id)
    map_for sink tenant_id document_id changes base_text amended_text obligations
