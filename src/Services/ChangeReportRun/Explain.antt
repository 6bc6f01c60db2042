-- ===== src/Services/ChangeReportRun/Explain.antt =====
-- `explain_changes`: one explanation for each change, by its index in the prompt.
use contract_change_intel.Prelude.{
  ℕ, zero, suc, ◌+◌, ◌-◌, ℤ, pos, negsuc, Text, String, codes, List, [], ◌∷◌, ◌++◌, Option, none,
  some, Bool, false, ◌==◌, not, ltb, if◌then◌else◌, length, exists,
}
use contract_change_intel.Store.Rows.{Db}
use contract_change_intel.Repositories.Usage.{LlmUsage}
use contract_change_intel.Diffing.Align.{Change}
use contract_change_intel.Diffing.Keys.{join}
use contract_change_intel.Impact.Call.{kind_word, clause_word, excerpt_lines}
use contract_change_intel.Llm.Failure.{
  output_error, Outcome, returned, raised, Reply, Run, ◌>>=◌, ◌>>◌, pure, attempt, write,
}

pub data Severity : Type 0 where
  low medium high : Severity

abbrev pub severity_word : Severity → String
severity_word low = "low"
severity_word medium = "medium"
severity_word high = "high"

pub record ChangeExplanation : Type 0 where
  pub index : ℤ
  pub description : Text
  pub severity : Severity

abbrev pub is_pos : ℕ → ℤ → Bool
is_pos i (pos n) = n == i
is_pos i (negsuc n) = false

abbrev pub has_index : ℕ → ChangeExplanation → Bool
has_index i e = is_pos i e.index

abbrev pub or_explanation :
    Option ChangeExplanation → Option ChangeExplanation → Option ChangeExplanation
or_explanation none e = e
or_explanation (some later) e = some later

-- `by_index[i]`: of two explanations with the index the later one is in the dictionary.
abbrev pub last_for : ℕ → List ChangeExplanation → Option ChangeExplanation
last_for i [] = none
last_for i (e ∷ es) = or_explanation (last_for i es) (if has_index i e then some e else none)

-- `i in range(n)`
abbrev pub in_range : ℕ → ℤ → Bool
in_range n (pos i) = ltb i n
in_range n (negsuc i) = false

abbrev pub with_explanation :
    Option ChangeExplanation → Option (List ChangeExplanation) → Option (List ChangeExplanation)
with_explanation none rest = none
with_explanation (some e) none = none
with_explanation (some e) (some es) = some (e ∷ es)

-- The explanations of the indices i, ..., i + n - 1, in order.
unfoldable pub explanations_from : ℕ → ℕ → List ChangeExplanation → Option (List ChangeExplanation)
explanations_from i zero es = some []
explanations_from i (suc n) es = with_explanation (last_for i es) (explanations_from (i + 1) n es)

-- `[by_index[i] for i in range(n)]` if the set of the keys is that of the range.
unfoldable pub order_explanations : ℕ → List ChangeExplanation → Option (List ChangeExplanation)
unfolding explanations_from
order_explanations n es =
    let ordered = explanations_from 0 n es in
    if exists (λ (e : ChangeExplanation). not (in_range n e.index)) es then none else ordered

-- `show_int` is Python's text of an integer.
module _ (show_int : ℤ → Text) where
  unfoldable pub change_lines : ℕ → List Change → Text → Text → List Text
  change_lines n [] base_text amended_text = []
  change_lines n (change ∷ changes) base_text amended_text =
      (codes "Change "
        ++ (show_int (pos n)
            ++ (codes " ("
                ++ (kind_word change.kind
                    ++ (codes ", clause " ++ (clause_word change.clause_ref ++ codes "):"))))))
      ∷ (excerpt_lines change base_text amended_text
          ++ change_lines (n + 1) changes base_text amended_text)

  unfoldable pub explanation_prompt : List Change → Text → Text → Text
  unfolding change_lines
  explanation_prompt changes base_text amended_text = join (10 ∷ []) (
      codes "Explain each of these changes between the base agreement and its amendment."
      ∷ change_lines 0 changes base_text amended_text)

  abbrev pub coverage_error : ℕ → Text
  coverage_error n =
      codes "model output failed change-index validation: expected exactly one "
      ++ (codes "explanation per index 0.." ++ show_int (pos (n - 1)))

  abbrev pub covered : ℕ → Option (List ChangeExplanation) → Outcome (List ChangeExplanation)
  covered n none = raised (output_error (coverage_error n) none)
  covered n (some es) = returned es

  -- `complete` is the client's structured call on the prompt; without changes it is not made.
  unfoldable pub explain_changes :
      (Text → Outcome (Reply (List ChangeExplanation)))
      → (LlmUsage → Db → Db)
      → List Change
      → Text
      → Text
      → Run (List ChangeExplanation)
  unfolding explanation_prompt order_explanations
  explain_changes complete sink [] base_text amended_text = pure []
  explain_changes complete sink (change ∷ changes) base_text amended_text = do
    reply ← attempt (complete (explanation_prompt (change ∷ changes) base_text amended_text))
    write (sink reply.usage)
    attempt (
        covered (length (change ∷ changes))
          (order_explanations (length (change ∷ changes)) reply.content))
