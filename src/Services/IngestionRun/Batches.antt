-- ===== src/Services/IngestionRun/Batches.antt =====
-- The batched embedding of `_embed_chunk_texts` against a call for each text.
use contract_change_intel.Prelude.{
  ℕ, zero, suc, ◌+◌, ◌-◌, ◌/◌, ◌≤◌, ℤ, Text, List, [], ◌∷◌, ◌++◌, map, ◌≡◌, refl, sym, ap, ◌∙◌,
  arith, length, length-append, length-drop, take, drop, take-append-drop,
}
use mathlib.Core.List.{map-append}
use contract_change_intel.Store.Rows.{IngestionJob, Db}
use contract_change_intel.Repositories.Usage.{LlmUsage, record_usage}
use contract_change_intel.Llm.Failure.{Outcome, returned, Reply}
use contract_change_intel.Services.IngestionRun.{
  Surroundings, embed_batch, report_usage, embed_loop, embed_chunk_texts,
}

-- Each call of `embed` returns, for each text in its order, the vector that `f` gives it.
abbrev pub Embeds : Surroundings → (Text → List ℤ) → Type 0
Embeds s f =
    (n : ℕ) (texts : List Text)
    → (r : Reply (List (List ℤ))) × (s.embed n texts ≡ returned r) × (r.content ≡ map f texts)

batch_count : (n : ℕ) → (suc n + 127) / 128 ≡ 1 + (suc n - 128 + 127) / 128
batch_count n = omega arith

module _ (s : Surroundings) (f : Text → List ℤ) (embeds : Embeds s f) (job : IngestionJob) where
  -- The vectors, and a usage row for each batch.
  abbrev pub AreEmbedded : List Text → Db → Outcome (List (List ℤ)) × Db → Type 0
  AreEmbedded texts db r =
      (r.0 ≡ returned (map f texts))
      × (length r.1.llm_usage ≡ length db.llm_usage + (length texts + 127) / 128)

  length-report_usage :
      (usage : LlmUsage) (db : Db)
      → length (report_usage s job usage db).llm_usage ≡ length db.llm_usage + 1
  unfolding record_usage
  length-report_usage usage db = length-append db.llm_usage _

  embed_loop-AreEmbedded :
      (fuel n : ℕ) (texts : List Text) (db : Db)
      → length texts ≤ fuel
      → AreEmbedded texts db (embed_loop s fuel n job texts db)
  unfolding embed_loop
  embed_loop-AreEmbedded fuel n [] db h = (refl, omega arith)
  embed_loop-AreEmbedded zero n (text ∷ texts) db h = absurd (omega (arith, h))
  embed_loop-AreEmbedded (suc fuel) n (text ∷ texts) db h =
      let (r, answered, vectors) = embeds n (take embed_batch (text ∷ texts)) in
      let rest = drop embed_batch (text ∷ texts) in
      let (found, rows) =
        embed_loop-AreEmbedded fuel (n + 1) rest (report_usage s job r.usage db)
          (omega (arith, h, length-drop embed_batch (text ∷ texts))) in
      let joined : r.content ++ map f rest ≡ map f (text ∷ texts) =
        ap (λ v. v ++ map f rest) vectors
        ∙ sym (map-append f (take embed_batch (text ∷ texts)) rest)
        ∙ ap (map f) (take-append-drop embed_batch (text ∷ texts)) in
      rw (answered, found)
        (
          rw joined refl,
          omega (
            arith,
            rows,
            length-report_usage r.usage db,
            batch_count (length texts),
            length-drop embed_batch (text ∷ texts),
          ),
        )

  -- Where each call of the client returns, for each text in its order, the vector that `f` gives the
  -- text, the batches together return the vector of each text in order, and write one usage row for
  -- each 128 texts or part of 128.
  pub embed_chunk_texts-AreEmbedded :
      (texts : List Text) (db : Db) → AreEmbedded texts db (embed_chunk_texts s job texts db)
  unfolding embed_chunk_texts
  embed_chunk_texts-AreEmbedded texts db =
      embed_loop-AreEmbedded (length texts) 0 texts db (omega arith)
