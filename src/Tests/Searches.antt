-- ===== src/Tests/Searches.antt =====
-- Two rankings with an item in common, a search of one document, and a file with three paragraphs.
use contract_change_intel.Prelude.{
  ◌+◌, ◌/◌, ℤ, pos, Text, codes, List, [], ◌∷◌, none, some, true, false,
}
use contract_change_intel.Store.Rows.{Document, DocumentChunk, Db, empty_db}
use contract_change_intel.Store.Rows
use contract_change_intel.Repositories.Usage.{LlmUsage}
use contract_change_intel.Parsing.Formats.{Readers, parse}
use contract_change_intel.Parsing.Kept.{Keeps, source_text, parse-Keeps}
use contract_change_intel.Llm.Failure.{Outcome, returned, Reply}
use contract_change_intel.Search.{Doubles, Index, rrf_fuse}
use contract_change_intel.Search.Fusion.{IsFusion, rrf_fuse-IsFusion}
use contract_change_intel.Tests.Versions.{ascii}

abbrev add : ℤ → ℤ → ℤ
add (pos a) (pos b) = pos (a + b)
add a b = a

-- Numbers in thousandths.
abbrev pub thousandths : Doubles
thousandths = record { plus = add; reciprocal = λ n. pos (1000 / n) }

rrf_fuse-IsFusion_example :
    IsFusion thousandths 60
      ((4 ∷ 9 ∷ []) ∷ (9 ∷ 2 ∷ []) ∷ [])
      (rrf_fuse thousandths 60 ((4 ∷ 9 ∷ []) ∷ (9 ∷ 2 ∷ []) ∷ []))
rrf_fuse-IsFusion_example = rrf_fuse-IsFusion thousandths 60 ((4 ∷ 9 ∷ []) ∷ (9 ∷ 2 ∷ []) ∷ [])

abbrev pub contract : Document
contract = record {
  id = 1;
  tenant_id = 7;
  filename = codes "a.txt";
  mime_type = codes "text/plain";
  sha256 = codes "ab";
  amends_document_id = none;
  status = Rows.DocumentStatus.uploaded;
  created_at = 3;
}

abbrev chunk : DocumentChunk
chunk = record {
  id = 5;
  tenant_id = 7;
  document_id = 1;
  ordinal = 0;
  text = codes "Pay the fee.";
  char_start = 0;
  char_end = 12;
  embedding = some (pos 1 ∷ []);
}

-- Another tenant's chunk stands beside the tenant's.
abbrev library : Db
library = record empty_db {
  documents = contract ∷ record contract { id = 2; tenant_id = 8 } ∷ [];
  document_chunks = chunk ∷ record chunk { id = 6; tenant_id = 8; document_id = 2 } ∷ [];
}

abbrev pub any_match : Index
any_match = record { closer = λ v a b. false; matches = λ text c. true; better = λ text a b. false }

abbrev pub usage : LlmUsage
usage = record {
  model = [];
  prompt_tokens = 9;
  completion_tokens = 5;
  cost_usd = pos 0;
  latency_ms = 2;
}

abbrev embed_one : Text → Outcome (Reply (List (List ℤ)))
embed_one text = returned (record { content = (pos 1 ∷ []) ∷ []; usage = usage })

abbrev no_sink : LlmUsage → Db → Db
no_sink u db = db

-- ASCII text, and no PDF or DOCX file.
abbrev pub ascii_readers : Readers
ascii_readers = record {
  pdf_pages = λ content. returned [];
  docx_paragraphs = λ content. returned [];
  decode = returned;
}

abbrev same_text : Text → Text
same_text text = text

abbrev file : Text
file = codes "One. \n \n\nTwo\nthree. \n\n Four."

parse-Keeps_example :
    Keeps
      (source_text ascii_readers same_text (codes "text/plain") file)
      (parse ascii_readers ascii same_text (codes "text/plain") file)
parse-Keeps_example = parse-Keeps ascii_readers ascii same_text (codes "text/plain") file
