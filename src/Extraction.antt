-- ===== src/Extraction.antt =====
-- The citation gate of app/services/extraction.py: `_split_cited` and `extract_obligations`.
-- A reply's messages for the log are left out; a rejected item is kept as its citation.
pub mod Gate
use contract_change_intel.Prelude.{
  ℕ, zero, suc, ◌+◌, ℤ, pos, Text, String, List, [], ◌∷◌, ◌++◌, Option, none, codes, Bool, true,
  false, not, ◌&&◌, if◌then◌else◌, ltb_ℤ, leb_ℤ, length, select, map,
}
use contract_change_intel.Repositories.Usage.{LlmUsage}
use contract_change_intel.Llm.Failure.{Failure, output_error}

-- The offsets are the model's, so they may be negative.
pub record Citation : Type 0 where
  pub char_start : ℤ
  pub char_end : ℤ

pub record Obligation : Type 0 where
  pub clause_ref : Text
  pub description : Text
  pub owner : Option Text
  pub citation : Citation
  pub confidence : ℤ

pub record DefinedTerm : Type 0 where
  pub term : Text
  pub definition : Text
  pub citation : Citation
  pub confidence : ℤ

pub record ObligationExtraction : Type 0 where
  pub obligations : List Obligation
  pub defined_terms : List DefinedTerm

-- `0 <= start < end <= len(text)`
unfoldable pub is_grounded : Text → Citation → Bool
is_grounded text span =
    leb_ℤ (pos 0) span.char_start
    && ltb_ℤ span.char_start span.char_end
    && leb_ℤ span.char_end (pos (length text))

abbrev pub obligation_citation : Obligation → Citation
obligation_citation o = o.citation

abbrev pub term_citation : DefinedTerm → Citation
term_citation t = t.citation

unfoldable pub split_cited : ObligationExtraction → Text → ObligationExtraction × List Citation
split_cited extraction text = (
  record {
    obligations = select (λ (o : Obligation). is_grounded text o.citation) extraction.obligations;
    defined_terms =
        select (λ (t : DefinedTerm). is_grounded text t.citation) extraction.defined_terms;
  },
  select (λ span. not (is_grounded text span))
      (map obligation_citation extraction.obligations
        ++ map term_citation extraction.defined_terms),
)

-- What `complete_structured` does: a parsed reply and its usage, or an exception, an LlmError or any
-- other.
pub data LlmReply : Type 0 where
  reply : ObligationExtraction → LlmUsage → LlmReply
  no_reply : Failure → LlmReply

-- What an extraction comes to; where nothing is grounded, the exception is an LlmOutputError without a
-- usage.
pub data Extracted : Type 0 where
  extracted : ObligationExtraction → Extracted
  failed : Failure → Extracted

abbrev pub ungrounded_text : Text
ungrounded_text =
    codes
      "model output failed citation validation: every item cited a span outside the document text"

abbrev pub nothing_grounded : Extracted
nothing_grounded = failed (output_error ungrounded_text none)

abbrev pub citation_attempts : ℕ
citation_attempts = 2

abbrev pub none_in {ℓ} : {A : Type ℓ} → List A → Bool
none_in [] = true
none_in (x ∷ xs) = false

abbrev pub is_empty : ObligationExtraction → Bool
is_empty e = none_in e.obligations && none_in e.defined_terms

-- What a reply leads to; `rest` is the outcome of the attempts behind it, if any.
abbrev pub judge :
    Bool
    → ObligationExtraction
    → ObligationExtraction × List Citation
    → LlmUsage
    → Extracted × List LlmUsage
    → Extracted × List LlmUsage
judge is_last extraction (grounded, []) usage rest = (extracted extraction, usage ∷ [])
judge false extraction (grounded, c ∷ rejected) usage rest = (rest.0, usage ∷ rest.1)
judge true extraction (grounded, c ∷ rejected) usage rest =
    (if is_empty grounded then nothing_grounded else extracted grounded, usage ∷ [])

abbrev pub is_zero : ℕ → Bool
is_zero zero = true
is_zero (suc n) = false

abbrev pub after_reply :
    Bool → Text → LlmReply → Extracted × List LlmUsage → Extracted × List LlmUsage
after_reply is_last text (no_reply e) rest = (failed e, [])
after_reply is_last text (reply extraction usage) rest =
    judge is_last extraction (split_cited extraction text) usage rest

-- The loop over the attempts, of which `n` are left; `llm` answers the calls by their number. The
-- usages that are reported come back beside the outcome. It is not run with no attempt left.
unfoldable pub attempt_loop : ℕ → ℕ → (ℕ → LlmReply) → Text → Extracted × List LlmUsage
attempt_loop zero attempt llm text = (nothing_grounded, [])
attempt_loop (suc n) attempt llm text =
    let rest = attempt_loop n (attempt + 1) llm text in
    after_reply (is_zero n) text (llm attempt) rest

unfoldable pub extract_obligations : (ℕ → LlmReply) → Text → Extracted × List LlmUsage
unfolding attempt_loop
extract_obligations llm text = attempt_loop citation_attempts 1 llm text
