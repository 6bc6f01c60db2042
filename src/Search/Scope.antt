-- ===== src/Search/Scope.antt =====
-- Whose chunks a search returns, and how many.
use contract_change_intel.Prelude.{ℕ, ◌≤◌, ℤ, Text, List, Option, true, ◌==◌, ◌≡◌, All, length, ◌⊎◌}
use mathlib.Core.List.{Memᴰ}
use contract_change_intel.Store.Rows.{Db}
use contract_change_intel.Repositories.Usage.{LlmUsage}
use contract_change_intel.Repositories.DocumentChunks.{Ranked, in_scope}
use contract_change_intel.Llm.Failure.{
  Outcome, returned, raised, Reply, Run, ◌>>=◌, ◌>>◌, attempt, write, query,
}
use contract_change_intel.Search.{Doubles, SearchHit, Index, hit_of, only_vector, hybrid_rows}

module _ (tenant_id : ℕ) (document_id : Option ℕ) (db : Db) where
  -- A chunk of the tenant's, and of the document's if one is named, with the document it is part of.
  abbrev pub IsScoped : Ranked → Type 0
  IsScoped r =
      Memᴰ r.0 db.document_chunks
      × Memᴰ r.1 db.documents
      × ((r.1.id == r.0.document_id) ≡ true)
      × (in_scope tenant_id document_id r.0 ≡ true)

  -- The hit shows such a chunk and its document as they are stored.
  abbrev pub IsScopedHit : SearchHit → Type 0
  IsScopedHit h = (r : Ranked) × IsScoped r × (h ≡ hit_of h.score r)

module _ (index : Index) (doubles : Doubles) where
  abbrev pub IsAnswer :
      (Text → Outcome (Reply (List (List ℤ))))
      → ℕ
      → Option ℕ
      → Text
      → ℕ
      → Outcome (List SearchHit)
      → Db
      → Type 0
  IsAnswer embed tenant_id document_id text limit (returned hits) db =
      All (IsScopedHit tenant_id document_id db) hits × (length hits ≤ limit)
  IsAnswer embed tenant_id document_id text limit (raised e) db =
      (embed text ≡ raised e)
      ⊎ ((reply : Reply (List (List ℤ))) × (embed text ≡ returned reply)
          × (only_vector reply.content ≡ raised e))

  -- The search once the query is embedded.
  abbrev with_reply :
      (LlmUsage → Db → Db)
      → ℕ
      → Option ℕ
      → Text
      → ℕ
      → Outcome (Reply (List (List ℤ)))
      → Run (List SearchHit)
  with_reply sink tenant_id document_id text limit o = attempt o >>= λ reply.
      write (sink reply.usage)
      >> (attempt (only_vector reply.content) >>= λ vector.
          query (hybrid_rows index doubles tenant_id document_id text limit vector))
