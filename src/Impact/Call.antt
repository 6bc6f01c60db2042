-- ===== src/Impact/Call.antt =====
-- The model call of `map_change_impacts`, with its prompt.
use contract_change_intel.Prelude.{
  ℕ, ◌+◌, ℤ, Text, codes, List, [], ◌∷◌, ◌++◌, Option, none, some, slice, take, length,
}
use contract_change_intel.Store.Rows.{Db}
use contract_change_intel.Repositories.Usage.{LlmUsage}
use contract_change_intel.Extraction.{Obligation}
use contract_change_intel.Diffing.Align.{Change, ChangeKind, added, removed, modified, Span}
use contract_change_intel.Diffing.Keys.{join}
use contract_change_intel.Impact.{
  MappedImpact, Impact, Mapped, mapped, unknown_index, map_change_impacts,
}
use contract_change_intel.Llm.Failure.{
  output_error, Outcome, returned, raised, Reply, Run, ◌>>=◌, ◌>>◌, pure, attempt, write,
}

abbrev pub excerpt_limit : ℕ
excerpt_limit = 1500

abbrev pub excerpt : Text → Span → Text
excerpt text span = take excerpt_limit (slice text span.char_start span.char_end)

abbrev pub kind_word : ChangeKind → Text
kind_word added = codes "added"
kind_word removed = codes "removed"
kind_word modified = codes "modified"

abbrev pub clause_word : Option Text → Text
clause_word none = codes "preamble"
clause_word (some ref) = ref

-- The line of an excerpt, if there is a span.
abbrev pub excerpt_line : Text → Text → Option Span → List Text
excerpt_line label text none = []
excerpt_line label text (some span) = (label ++ excerpt text span) ∷ []

abbrev pub excerpt_lines : Change → Text → Text → List Text
excerpt_lines change base_text amended_text =
    excerpt_line (codes "BEFORE: ") base_text change.base_span
    ++ excerpt_line (codes "AFTER: ") amended_text change.amended_span

abbrev pub owner_words : Option Text → Text
owner_words none = []
owner_words (some owner) = codes " (owner: " ++ (owner ++ codes ")")

-- `show_int` is Python's text of an integer.
module _ (show_int : ℤ → Text) where
  unfoldable pub candidate_lines : ℕ → List Obligation → List Text
  candidate_lines n [] = []
  candidate_lines n (o ∷ candidates) =
      (codes "Obligation "
        ++ (show_int (ℤ.pos n)
            ++ (codes ": ["
                ++ (o.clause_ref ++ (codes "] " ++ (o.description ++ owner_words o.owner))))))
      ∷ candidate_lines (n + 1) candidates

  unfoldable pub mapping_prompt : Change → List Obligation → Text → Text → Text
  unfolding candidate_lines
  mapping_prompt change candidates base_text amended_text = join (10 ∷ []) (
      (codes "Change ("
        ++ (kind_word change.kind
            ++ (codes ", clause " ++ (clause_word change.clause_ref ++ codes "):"))))
      ∷ (excerpt_lines change base_text amended_text
          ++ (codes "Candidate obligations from the base agreement:"
              ∷ candidate_lines 0 candidates)))

  abbrev pub index_error : ℤ → ℕ → Text
  index_error index n =
      codes "model output failed impact-index validation: index "
      ++ (show_int index
          ++ (codes " is outside the " ++ (show_int (ℤ.pos n) ++ codes " candidate obligations")))

  abbrev pub checked : List Obligation → Mapped → Outcome (List Impact)
  checked candidates (mapped impacts) = returned impacts
  checked candidates (unknown_index index) =
      raised (output_error (index_error index (length candidates)) none)

  -- `complete` is the client's structured call on the prompt; it is not made where there is no
  -- candidate.
  unfoldable pub ask_impacts :
      (Text → Outcome (Reply (List MappedImpact)))
      → (LlmUsage → Db → Db)
      → Change
      → List Obligation
      → Text
      → Text
      → Run (List Impact)
  unfolding mapping_prompt
  ask_impacts complete sink change [] base_text amended_text = pure []
  ask_impacts complete sink change (o ∷ candidates) base_text amended_text = do
    reply ← attempt (complete (mapping_prompt change (o ∷ candidates) base_text amended_text))
    write (sink reply.usage)
    attempt (checked (o ∷ candidates) (map_change_impacts (o ∷ candidates) reply.content))
