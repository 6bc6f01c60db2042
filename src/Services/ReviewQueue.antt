-- ===== src/Services/ReviewQueue.antt =====
-- app/services/review_queue.py: routing to human review, and the reviewers' operations.
pub mod Terminal
pub mod Routing
use contract_change_intel.Prelude.{
  ℕ, ℤ, String, List, [], ◌∷◌, Option, none, some, Bool, ltb_ℤ, select, length,
}
use contract_change_intel.Store.Json.{Json, word, obj, field, end}
use contract_change_intel.Store.Rows.{
  ReviewItem, ReviewItemSource, ReviewItemStatus, Db, Ctx, extraction, impact_mapping, pending,
  approved, edited, rejected,
}
use contract_change_intel.Store.Errors.{review_item_not_found, review_item_already_resolved}
use contract_change_intel.Store.Exec.{
  Exec, Result, ok, ◌>>=◌, ◌>>◌, pure, query, write, made, require,
}
use contract_change_intel.Repositories.ReviewItems
use contract_change_intel.Repositories.ReviewItems.{Candidate}
use contract_change_intel.Repositories.Audit.{record_entry}

unfoldable pub below_threshold : ℤ → ℤ → Bool
below_threshold confidence threshold = ltb_ℤ confidence threshold

abbrev pub routed : ℤ → List Candidate → List Candidate
routed threshold = select (λ (c : Candidate). below_threshold c.confidence threshold)

abbrev pub persist : Ctx → ℕ → ReviewItemSource → ℕ → ℕ → List Candidate → Db → ℕ × Db
persist ctx tenant_id source document_id job_id [] db = (0, db)
persist ctx tenant_id source document_id job_id (c ∷ items) db =
    let (rows, db') =
      ReviewItems.create_many ctx tenant_id source document_id job_id (c ∷ items) db in
    (length rows, db')

-- The number of items created, and the database with them.
unfoldable pub route_for_review :
    Ctx → ℕ → ReviewItemSource → ℕ → ℕ → List Candidate → ℤ → Db → ℕ × Db
unfolding below_threshold
route_for_review ctx tenant_id source document_id job_id candidates threshold db =
    persist ctx tenant_id source document_id job_id (routed threshold candidates) db

unfoldable pub list_review_items : ℕ → Option ReviewItemStatus → Exec (List ReviewItem)
list_review_items tenant_id status = query (ReviewItems.list_for_tenant tenant_id status)

unfoldable pub get_review_item : ℕ → ℕ → Exec ReviewItem
get_review_item tenant_id item_id = do
  item ← query (ReviewItems.find_by_id tenant_id item_id)
  require item (review_item_not_found item_id)

abbrev pub status_word : ReviewItemStatus → String
status_word pending = "pending"
status_word approved = "approved"
status_word edited = "edited"
status_word rejected = "rejected"

abbrev pub source_word : ReviewItemSource → String
source_word extraction = "extraction"
source_word impact_mapping = "impact_mapping"

unfoldable pub resolve_review_item : Ctx → ℕ → ℕ → ReviewItemStatus → Option Json → Exec ReviewItem
unfolding get_review_item
resolve_review_item ctx tenant_id item_id disposition corrected_values = do
  get_review_item tenant_id item_id
  updated ← made (ReviewItems.resolve ctx tenant_id item_id disposition corrected_values)
  resolved ← require updated (review_item_already_resolved item_id)
  write (
      record_entry ctx tenant_id "review_item.resolve" "review_item" item_id (
        obj (
          field "disposition" (word (status_word disposition))
            (field "source" (word (source_word resolved.source)) end))))
  pure resolved
