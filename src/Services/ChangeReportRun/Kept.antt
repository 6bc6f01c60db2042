-- ===== src/Services/ChangeReportRun/Kept.antt =====
-- The analysis of two versions leaves as it is each part of the database that its usage rows do.
use contract_change_intel.Prelude.{
  ℕ, ◌+◌, ℤ, Text, List, [], ◌∷◌, Option, none, some, ◌≡◌, refl, inl, inr, Option-cases,
}
use contract_change_intel.Store.Rows.{ChangeReportJob, Db, Ctx}
use contract_change_intel.Repositories.DocumentTexts
use contract_change_intel.Repositories.Usage.{LlmUsage}
use contract_change_intel.Extraction.{Obligation}
use contract_change_intel.Diffing.Keys.{Unicode}
use contract_change_intel.Diffing.Align.{Change, detect_changes}
use contract_change_intel.Search.{only_vector, hybrid_hits, search_document}
use contract_change_intel.Impact.{Impact, select_candidates, candidate_limit}
use contract_change_intel.Impact.Call.{ask_impacts, mapping_prompt}
use contract_change_intel.Services.ChangeReportRun.Explain.{explain_changes, explanation_prompt}
use contract_change_intel.Services.ChangeReportRun.MapImpacts.{
  Tools, impact_query, recall, map_changes, map_for, map_impacts, base_obligations,
}
use contract_change_intel.Services.ChangeReportRun.Runner.{
  Analysis, report_usage, parsed_text, analyse,
}
use contract_change_intel.Llm.Failure.{Outcome-cases}
use contract_change_intel.Llm.Runs.{Leaves, Leaves-bind}

module _ {B : Type 0} (of : Db → B) (t : Tools) (sink : LlmUsage → Db → Db)
    (keeps : (usage : LlmUsage) (db : Db) → of (sink usage db) ≡ of db) where
  explain_changes-Leaves :
      (changes : List Change) (base_text amended_text : Text)
      → Leaves of (explain_changes t.show_int t.client.explain sink changes base_text amended_text)
  unfolding explain_changes
  explain_changes-Leaves [] base_text amended_text db = refl
  explain_changes-Leaves (change ∷ changes) base_text amended_text db =
      elim (Outcome-cases (
        t.client.explain
          (explanation_prompt t.show_int (change ∷ changes) base_text amended_text))) [
            | inl (reply, e) ↦ rw e (keeps reply.usage db)
            | inr (z, e) ↦ rw e refl
          ]

  ask_impacts-Leaves :
      (n : ℕ) (change : Change) (candidates : List Obligation) (base_text amended_text : Text)
      → Leaves of (
          ask_impacts t.show_int
            (t.client.map_impacts n)
            sink
            change
            candidates
            base_text
            amended_text)
  unfolding ask_impacts
  ask_impacts-Leaves n change [] base_text amended_text db = refl
  ask_impacts-Leaves n change (o ∷ candidates) base_text amended_text db =
      elim (Outcome-cases (
        t.client.map_impacts n
          (mapping_prompt t.show_int change (o ∷ candidates) base_text amended_text))) [
            | inl (reply, e) ↦ rw e (keeps reply.usage db)
            | inr (z, e) ↦ rw e refl
          ]

  recall-Leaves :
      (tenant_id document_id n : ℕ) (text : Option Text)
      → Leaves of (recall t sink tenant_id document_id n text)
  unfolding search_document hybrid_hits
  recall-Leaves tenant_id document_id n none db = refl
  recall-Leaves tenant_id document_id n (some text) db =
      elim (Outcome-cases (t.client.embed n text)) [
        | inl (reply, e) ↦ elim (Outcome-cases (only_vector reply.content)) [
          | inl (v, f) ↦ rw (e, f) (keeps reply.usage db)
          | inr (z, f) ↦ rw (e, f) (keeps reply.usage db)
        ]
        | inr (z, e) ↦ rw e refl
      ]

  map_changes-Leaves :
      (tenant_id document_id : ℕ) (obligations : List Obligation) (base_text amended_text : Text)
      (n : ℕ) (changes : List Change)
      → Leaves of
          (map_changes t sink tenant_id document_id obligations base_text amended_text n changes)
  unfolding map_changes
  map_changes-Leaves tenant_id document_id obligations base_text amended_text n [] db = refl
  map_changes-Leaves tenant_id document_id obligations base_text amended_text n (change ∷ changes)
        db =
      Leaves-bind of {C = List (List Impact)}
        (recall t sink tenant_id document_id n (impact_query change base_text amended_text)) _
        (recall-Leaves tenant_id document_id n (impact_query change base_text amended_text))
        (λ hits.
          let candidates = select_candidates obligations hits candidate_limit in
          Leaves-bind of {C = List (List Impact)}
            (ask_impacts t.show_int (t.client.map_impacts n) sink change candidates base_text
              amended_text)
            _ (ask_impacts-Leaves n change candidates base_text amended_text)
            (λ impacts.
              Leaves-bind of {C = List (List Impact)}
                (map_changes t sink tenant_id document_id obligations base_text amended_text (n + 1)
                  changes)
                _
                (map_changes-Leaves tenant_id document_id obligations base_text amended_text (n + 1)
                  changes)
                (λ rest db. refl)))
        db

  map_for-Leaves :
      (tenant_id document_id : ℕ) (changes : List Change) (base_text amended_text : Text)
      (obligations : List Obligation)
      → Leaves of (map_for t sink tenant_id document_id changes base_text amended_text obligations)
  map_for-Leaves tenant_id document_id changes base_text amended_text [] db = refl
  map_for-Leaves tenant_id document_id changes base_text amended_text (o ∷ obligations) db =
      map_changes-Leaves tenant_id document_id (o ∷ obligations) base_text amended_text 0 changes db

  map_impacts-Leaves :
      (tenant_id document_id : ℕ) (changes : List Change) (base_text amended_text : Text)
      → Leaves of (map_impacts t sink tenant_id document_id changes base_text amended_text)
  unfolding map_impacts
  map_impacts-Leaves tenant_id document_id changes base_text amended_text db =
      map_for-Leaves tenant_id document_id changes base_text amended_text
        (base_obligations t document_id db) db

module _ {B : Type 0} (of : Db → B) (t : Tools) (unicode : Unicode) (show_id : ℕ → Text) (ctx : Ctx)
    (threshold : ℤ) where
  parsed_text-Leaves :
      (document_id : ℕ) → Leaves of (parsed_text t unicode show_id ctx threshold document_id)
  unfolding parsed_text
  parsed_text-Leaves document_id db =
      elim (Option-cases (DocumentTexts.find_by_document_id document_id db)) [
        | inl e ↦ rw e refl
        | inr (row, e) ↦ rw e refl
      ]

  pub analyse-Leaves :
      (job : ChangeReportJob)
      → ((usage : LlmUsage) (db : Db)
          → of (report_usage t unicode show_id ctx threshold job usage db) ≡ of db)
      → Leaves of (analyse t unicode show_id ctx threshold job)
  unfolding analyse
  analyse-Leaves job keeps =
      let sink = report_usage t unicode show_id ctx threshold job in
      let text_of = parsed_text t unicode show_id ctx threshold in
      Leaves-bind of {C = Analysis} (text_of job.subject.base_document_id) _
        (parsed_text-Leaves job.subject.base_document_id)
        (λ base_text.
          Leaves-bind of {C = Analysis} (text_of job.subject.amended_document_id) _
            (parsed_text-Leaves job.subject.amended_document_id)
            (λ amended_text.
              let changes = detect_changes unicode base_text amended_text in
              Leaves-bind of {C = Analysis}
                (explain_changes t.show_int t.client.explain sink changes base_text amended_text) _
                (explain_changes-Leaves of t sink keeps changes base_text amended_text)
                (λ explanations.
                  Leaves-bind of {C = Analysis}
                    (map_impacts t sink job.tenant_id job.subject.base_document_id changes base_text
                      amended_text)
                    _
                    (map_impacts-Leaves of t sink keeps job.tenant_id job.subject.base_document_id
                      changes base_text amended_text)
                    (λ impacts db. refl))))
