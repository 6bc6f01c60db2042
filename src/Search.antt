-- ===== src/Search.antt =====
-- app/services/search.py: reciprocal rank fusion and the hybrid search over chunks.
pub mod Numbering
pub mod Fusion
pub mod Scope
use contract_change_intel.Prelude.{
  ℕ, ◌+◌, ◌*◌, ℤ, pos, Text, codes, List, [], ◌∷◌, ◌++◌, map, Option, none, some, Bool, true, false,
  not, ◌&&◌, ◌||◌, ltb, ◌==◌, ltb_ℤ, if◌then◌else◌, take, insert_by, first,
}
use contract_change_intel.Store.Rows.{Document, DocumentChunk, Db}
use contract_change_intel.Repositories.DocumentChunks.{
  Ranked, rank_by_similarity, rank_by_full_text,
}
use contract_change_intel.Repositories.Usage.{LlmUsage}
use contract_change_intel.Llm.Failure.{
  Failure, value_error, Outcome, returned, raised, Reply, Run, ◌>>=◌, ◌>>◌, pure, raise, attempt,
  query, write,
}

-- Addition of doubles, and `1.0 / n`, with the rounding of the machine.
pub record Doubles : Type 0 where
  pub plus : ℤ → ℤ → ℤ
  pub reciprocal : ℕ → ℤ

abbrev pub rrf_k : ℕ
rrf_k = 60

abbrev pub candidate_depth_factor : ℕ
candidate_depth_factor = 2

-- An item with its entries in `scores` and `first_seen`.
pub record Scored : Type 0 where
  pub item : ℕ
  pub score : ℤ
  pub first_seen : ℕ

-- The key (-score, first_seen).
unfoldable pub ahead : Scored → Scored → Bool
ahead a b = ltb_ℤ b.score a.score || (not (ltb_ℤ a.score b.score) && ltb a.first_seen b.first_seen)

module _ (doubles : Doubles) (k : ℕ) where
  -- One turn of the inner loop; `n` items stand before those in the list.
  unfoldable pub score_item : ℕ → ℕ → ℕ → List Scored → List Scored
  score_item item rank n [] =
      record {
        item = item;
        score = doubles.plus (pos 0) (doubles.reciprocal (k + rank));
        first_seen = n;
      }
      ∷ []
  score_item item rank n (e ∷ es) =
      let rest = score_item item rank (n + 1) es in
      if e.item == item
      then record e { score = doubles.plus e.score (doubles.reciprocal (k + rank)) } ∷ es
      else e ∷ rest

  unfoldable pub score_ranking : ℕ → List ℕ → List Scored → List Scored
  unfolding score_item
  score_ranking rank [] scores = scores
  score_ranking rank (item ∷ ranking) scores =
      score_ranking (rank + 1) ranking (score_item item rank 0 scores)

  unfoldable pub score_rankings : List (List ℕ) → List Scored → List Scored
  unfolding score_ranking
  score_rankings [] scores = scores
  score_rankings (ranking ∷ rankings) scores =
      score_rankings rankings (score_ranking 1 ranking scores)

  -- The items with their scores, best first; the entries of `first_seen` are dropped by the caller.
  unfoldable pub rrf_fuse : List (List ℕ) → List Scored
  unfolding score_rankings ahead
  rrf_fuse rankings = insert_by ahead (score_rankings rankings [])

pub record SearchHit : Type 0 where
  pub document_id : ℕ
  pub document_sha256 : Text
  pub filename : Text
  pub chunk_id : ℕ
  pub ordinal : ℕ
  pub text : Text
  pub char_start : ℕ
  pub char_end : ℕ
  pub score : ℤ

-- The index of the database: the cosine distance to a vector, the match with a query and its rank.
pub record Index : Type 0 where
  pub closer : List ℤ → DocumentChunk → DocumentChunk → Bool
  pub matches : Text → DocumentChunk → Bool
  pub better : Text → DocumentChunk → DocumentChunk → Bool

abbrev pub ids_of : List Ranked → List ℕ
ids_of [] = []
ids_of (r ∷ rs) = r.0.id ∷ ids_of rs

abbrev pub hit_of : ℤ → Ranked → SearchHit
hit_of score (chunk, document) = record {
  document_id = document.id;
  document_sha256 = document.sha256;
  filename = document.filename;
  chunk_id = chunk.id;
  ordinal = chunk.ordinal;
  text = chunk.text;
  char_start = chunk.char_start;
  char_end = chunk.char_end;
  score = score;
}

abbrev pub or_row : Option Ranked → Option Ranked → Option Ranked
or_row none r = r
or_row (some later) r = some later

-- `by_id[chunk_id]`: of two rows with the id the later one is in the dictionary.
abbrev pub last_with : ℕ → List Ranked → Option Ranked
last_with id [] = none
last_with id (r ∷ rs) = or_row (last_with id rs) (if r.0.id == id then some r else none)

-- The loop over the fused items, each of which has a row.
abbrev pub hit_row : ℤ → Option Ranked → List SearchHit → List SearchHit
hit_row score none rest = rest
hit_row score (some r) rest = hit_of score r ∷ rest

unfoldable pub hits_of : List Ranked → List Scored → List SearchHit
hits_of rows [] = []
hits_of rows (e ∷ fused) = hit_row e.score (last_with e.item rows) (hits_of rows fused)

-- `(query_embedding,) = vectors`
abbrev pub only_vector : List (List ℤ) → Outcome (List ℤ)
only_vector [] = raised (value_error (codes "not enough values to unpack (expected 1, got 0)"))
only_vector (v ∷ []) = returned v
only_vector (v ∷ w ∷ vs) = raised (value_error (codes "too many values to unpack (expected 1)"))

module _ (index : Index) (doubles : Doubles) where
  unfoldable pub hybrid_rows : ℕ → Option ℕ → Text → ℕ → List ℤ → Db → List SearchHit
  unfolding hits_of
  hybrid_rows tenant_id document_id text limit vector db =
      let depth = limit * candidate_depth_factor in
      let vector_ranked = rank_by_similarity (index.closer vector) tenant_id depth document_id db in
      let fts_ranked =
        rank_by_full_text (index.matches text) (index.better text) tenant_id depth document_id db in
      hits_of (vector_ranked ++ fts_ranked)
        (take limit (rrf_fuse doubles rrf_k (ids_of vector_ranked ∷ ids_of fts_ranked ∷ [])))

  -- `sink` writes the usage of the query's embedding.
  unfoldable pub hybrid_hits :
      (Text → Outcome (Reply (List (List ℤ))))
      → (LlmUsage → Db → Db)
      → ℕ
      → Option ℕ
      → Text
      → ℕ
      → Run (List SearchHit)
  unfolding hybrid_rows
  hybrid_hits embed sink tenant_id document_id text limit = do
    reply ← attempt (embed text)
    write (sink reply.usage)
    vector ← attempt (only_vector reply.content)
    query (hybrid_rows tenant_id document_id text limit vector)

  -- `search`: the tenant's whole corpus.
  unfoldable pub search_corpus :
      (Text → Outcome (Reply (List (List ℤ))))
      → (LlmUsage → Db → Db)
      → ℕ
      → Text
      → ℕ
      → Run (List SearchHit)
  unfolding hybrid_hits
  search_corpus embed sink tenant_id text limit = hybrid_hits embed sink tenant_id none text limit

  -- One document's chunks.
  unfoldable pub search_document :
      (Text → Outcome (Reply (List (List ℤ))))
      → (LlmUsage → Db → Db)
      → ℕ
      → ℕ
      → Text
      → ℕ
      → Run (List SearchHit)
  unfolding hybrid_hits
  search_document embed sink tenant_id document_id text limit =
      hybrid_hits embed sink tenant_id (some document_id) text limit
