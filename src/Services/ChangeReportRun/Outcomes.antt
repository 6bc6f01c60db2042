-- ===== src/Services/ChangeReportRun/Outcomes.antt =====
-- What the parts of a change report run return, and which exceptions they raise.
use contract_change_intel.Prelude.{
  ℕ, suc, ◌+◌, ℤ, Text, List, [], ◌∷◌, Option, none, some, true, ◌≡◌, refl, sym, ap, arith, inl,
  inr, ◌⊎◌, Option-cases, length,
}
use std.Path.{subst}
use contract_change_intel.Store.Rows.{ChangeReportJob, Db, Ctx}
use contract_change_intel.Repositories.DocumentTexts
use contract_change_intel.Repositories.Usage.{LlmUsage}
use contract_change_intel.Extraction.{Obligation}
use contract_change_intel.Diffing.Keys.{Unicode}
use contract_change_intel.Diffing.Align.{Change, detect_changes}
use contract_change_intel.Search.{only_vector, hybrid_hits, search_document}
use contract_change_intel.Impact.{
  Mapped, mapped, unknown_index, map_change_impacts, select_candidates, candidate_limit,
}
use contract_change_intel.Impact.Call.{checked, ask_impacts, mapping_prompt}
use contract_change_intel.Services.ChangeReportRun.Explain.{
  ChangeExplanation, explain_changes, explanation_prompt,
}
use contract_change_intel.Services.ChangeReportRun.Covers.{Covers, explain_changes-Covers}
use contract_change_intel.Services.ChangeReportRun.MapImpacts.{
  Tools, impact_query, recall, map_changes, no_impacts, map_for, map_impacts, base_obligations,
}
use contract_change_intel.Services.ChangeReportRun.Runner.{
  Analysis, is_caught, report_usage, parsed_text, analyse,
}
use contract_change_intel.Llm.Failure.{
  Failure, Outcome, returned, raised, Outcome-cases, ◌>>=◌, pure,
}
use contract_change_intel.Llm.Runs.{Yields, Ensures, Ensures-bind}

-- The runner catches the exception, or a call of the client raised it.
abbrev pub IsExpected : Tools → Failure → Type 0
IsExpected t e =
    (is_caught e ≡ true)
    ⊎ (((text : Text) × (t.client.explain text ≡ raised e))
        ⊎ (((n : ℕ) × (text : Text) × (t.client.embed n text ≡ raised e))
            ⊎ ((n : ℕ) × (text : Text) × (t.client.map_impacts n text ≡ raised e))))

abbrev HasLength {ℓ} : {A : Type ℓ} → ℕ → List A → Type 0
HasLength n xs = length xs ≡ n

module _ (t : Tools) (sink : LlmUsage → Db → Db) where
  Covers-IsExpected :
      (changes : List Change) (base_text amended_text : Text) (o : Outcome (List ChangeExplanation))
      → Covers t.show_int t.client.explain base_text amended_text changes o
      → Yields (HasLength (length changes)) (IsExpected t) o
  Covers-IsExpected [] base_text amended_text (returned es) h = ground (arith, h)
  Covers-IsExpected [] base_text amended_text (raised e) h = absurd (ground (arith, h))
  Covers-IsExpected (change ∷ changes) base_text amended_text (returned es) h = h.2
  Covers-IsExpected (change ∷ changes) base_text amended_text (raised e) (inl h) =
      inr (inl (explanation_prompt t.show_int (change ∷ changes) base_text amended_text, h))
  Covers-IsExpected (change ∷ changes) base_text amended_text (raised e) (inr h) =
      inl (subst (λ z. is_caught z ≡ true) (sym h.2) refl)

  explain_changes-Ensures :
      (changes : List Change) (base_text amended_text : Text)
      → Ensures
          (HasLength (length changes))
          (IsExpected t)
          (explain_changes t.show_int t.client.explain sink changes base_text amended_text)
  explain_changes-Ensures changes base_text amended_text db =
      Covers-IsExpected changes base_text amended_text
        (explain_changes t.show_int t.client.explain sink changes base_text amended_text db).0
        (explain_changes-Covers t.show_int t.client.explain base_text amended_text sink changes db)

abbrev Any {ℓ} : {A : Type ℓ} → A → Type 0
Any a = Unit

module _ (t : Tools) (sink : LlmUsage → Db → Db) where
  checked-IsExpected :
      (candidates : List Obligation) (m : Mapped)
      → Yields Any (IsExpected t) (checked t.show_int candidates m)
  checked-IsExpected candidates (mapped impacts) = tt
  checked-IsExpected candidates (unknown_index index) = inl refl

  ask_impacts-Ensures :
      (n : ℕ) (change : Change) (candidates : List Obligation) (base_text amended_text : Text)
      → Ensures Any (IsExpected t) (
          ask_impacts t.show_int
            (t.client.map_impacts n)
            sink
            change
            candidates
            base_text
            amended_text)
  unfolding ask_impacts
  ask_impacts-Ensures n change [] base_text amended_text db = tt
  ask_impacts-Ensures n change (o ∷ candidates) base_text amended_text db =
      let prompt = mapping_prompt t.show_int change (o ∷ candidates) base_text amended_text in
      elim (Outcome-cases (t.client.map_impacts n prompt)) [
        | inl (reply, e) ↦ rw e (
            checked-IsExpected (o ∷ candidates) (map_change_impacts (o ∷ candidates) reply.content))
        | inr (z, e) ↦ rw e (inr (inr (inr (n, prompt, e))))
      ]

  only_vector-IsExpected :
      (vectors : List (List ℤ)) → Yields Any (IsExpected t) (only_vector vectors)
  only_vector-IsExpected [] = inl refl
  only_vector-IsExpected (v ∷ []) = tt
  only_vector-IsExpected (v ∷ w ∷ vs) = inl refl

  recall-Ensures :
      (tenant_id document_id n : ℕ) (text : Option Text)
      → Ensures Any (IsExpected t) (recall t sink tenant_id document_id n text)
  unfolding search_document hybrid_hits
  recall-Ensures tenant_id document_id n none db = tt
  recall-Ensures tenant_id document_id n (some text) db =
      elim (Outcome-cases (t.client.embed n text)) [
        | inl (reply, e) ↦
            let one = only_vector-IsExpected reply.content in
            elim (Outcome-cases (only_vector reply.content)) [
              | inl (v, f) ↦ rw (e, f) tt
              | inr (z, f) ↦ let known : IsExpected t z = rw f at one in rw (e, f) known
            ]
        | inr (z, e) ↦ rw e (inr (inr (inl (n, text, e))))
      ]

  map_changes-Ensures :
      (tenant_id document_id : ℕ) (obligations : List Obligation) (base_text amended_text : Text)
      (n : ℕ) (changes : List Change)
      → Ensures
          (HasLength (length changes))
          (IsExpected t)
          (map_changes t sink tenant_id document_id obligations base_text amended_text n changes)
  unfolding map_changes
  map_changes-Ensures tenant_id document_id obligations base_text amended_text n [] db = refl
  map_changes-Ensures tenant_id document_id obligations base_text amended_text n (change ∷ changes)
        db =
      Ensures-bind Any (HasLength (suc (length changes))) (IsExpected t)
        (recall t sink tenant_id document_id n (impact_query change base_text amended_text))
        (λ hits.
          ask_impacts t.show_int (t.client.map_impacts n) sink change
            (select_candidates obligations hits candidate_limit) base_text amended_text
          >>= λ impacts.
              map_changes t sink tenant_id document_id obligations base_text amended_text (n + 1)
                changes
              >>= λ rest. pure (impacts ∷ rest))
        (recall-Ensures tenant_id document_id n (impact_query change base_text amended_text))
        (λ hits _.
          Ensures-bind Any (HasLength (suc (length changes))) (IsExpected t) _ _
            (ask_impacts-Ensures n change (select_candidates obligations hits candidate_limit)
              base_text amended_text)
            (λ impacts _.
              Ensures-bind (HasLength (length changes)) (HasLength (suc (length changes)))
                (IsExpected t) _ _
                (map_changes-Ensures tenant_id document_id obligations base_text amended_text
                  (n + 1) changes)
                (λ rest h db. ap suc h)))
        db

  no_impacts-HasLength : (changes : List Change) → HasLength (length changes) (no_impacts t changes)
  no_impacts-HasLength [] = refl
  no_impacts-HasLength (change ∷ changes) = ap suc (no_impacts-HasLength changes)

  map_for-Ensures :
      (tenant_id document_id : ℕ) (changes : List Change) (base_text amended_text : Text)
      (obligations : List Obligation)
      → Ensures
          (HasLength (length changes))
          (IsExpected t)
          (map_for t sink tenant_id document_id changes base_text amended_text obligations)
  map_for-Ensures tenant_id document_id changes base_text amended_text [] db =
      no_impacts-HasLength changes
  map_for-Ensures tenant_id document_id changes base_text amended_text (o ∷ obligations) db =
      map_changes-Ensures tenant_id document_id (o ∷ obligations) base_text amended_text 0 changes
        db

  map_impacts-Ensures :
      (tenant_id document_id : ℕ) (changes : List Change) (base_text amended_text : Text)
      → Ensures
          (HasLength (length changes))
          (IsExpected t)
          (map_impacts t sink tenant_id document_id changes base_text amended_text)
  unfolding map_impacts
  map_impacts-Ensures tenant_id document_id changes base_text amended_text db =
      map_for-Ensures tenant_id document_id changes base_text amended_text
        (base_obligations t document_id db) db

-- An explanation and a list of impacts for each change.
abbrev pub IsWhole : Analysis → Type 0
IsWhole a = HasLength (length a.changes) a.explanations × HasLength (length a.changes) a.impacts

module _ (t : Tools) (unicode : Unicode) (show_id : ℕ → Text) (ctx : Ctx) (threshold : ℤ) where
  parsed_text-Ensures :
      (document_id : ℕ)
      → Ensures Any (IsExpected t) (parsed_text t unicode show_id ctx threshold document_id)
  unfolding parsed_text
  parsed_text-Ensures document_id db =
      elim (Option-cases (DocumentTexts.find_by_document_id document_id db)) [
        | inl e ↦ rw e (inl refl)
        | inr (row, e) ↦ rw e tt
      ]

  pub analyse-Ensures :
      (job : ChangeReportJob)
      → Ensures IsWhole (IsExpected t) (analyse t unicode show_id ctx threshold job)
  unfolding analyse
  analyse-Ensures job =
      let sink = report_usage t unicode show_id ctx threshold job in
      Ensures-bind Any IsWhole (IsExpected t) _ _ (parsed_text-Ensures job.subject.base_document_id)
        (λ base_text _.
          Ensures-bind Any IsWhole (IsExpected t) _ _
            (parsed_text-Ensures job.subject.amended_document_id)
            (λ amended_text _.
              let changes = detect_changes unicode base_text amended_text in
              Ensures-bind (HasLength (length changes)) IsWhole (IsExpected t) _ _
                (explain_changes-Ensures t sink changes base_text amended_text)
                (λ explanations h.
                  Ensures-bind (HasLength (length changes)) IsWhole (IsExpected t) _ _
                    (map_impacts-Ensures t sink job.tenant_id job.subject.base_document_id changes
                      base_text amended_text)
                    (λ impacts k db. (h, k)))))
