-- ===== src/Repositories/ReviewItems.antt =====
-- app/repositories/review_items.py
use contract_change_intel.Prelude.{
  ℕ, ℤ, ◌+◌, String, List, [], ◌∷◌, ◌++◌, Option, none, some, Bool, true, false, not, ◌||◌, ◌&&◌,
  ltb, ◌==◌, select, first, exists, update_where, insert_by, length,
}
use contract_change_intel.Store.Json.{Json}
use contract_change_intel.Store.Rows.{
  ReviewItem, ReviewItemSource, ReviewItemStatus, Db, Ctx, pending, approved, edited, rejected,
  is_pending,
}

-- A candidate: (item_type, payload, confidence).
pub record Candidate : Type 0 where
  pub item_type : String
  pub payload : Json
  pub confidence : ℤ

-- The rows for the candidates, with ids from `id`.
abbrev pub item_rows : Ctx → ℕ → ReviewItemSource → ℕ → ℕ → ℕ → List Candidate → List ReviewItem
item_rows ctx tenant_id source document_id job_id id [] = []
item_rows ctx tenant_id source document_id job_id id (c ∷ items) =
    record {
      id = id;
      tenant_id = tenant_id;
      source = source;
      item_type = c.item_type;
      document_id = document_id;
      job_id = job_id;
      payload = c.payload;
      confidence = c.confidence;
      status = pending;
      corrected_values = none;
      resolved_at = none;
      created_at = ctx.now;
    }
    ∷ item_rows ctx tenant_id source document_id job_id (id + 1) items

unfoldable pub create_many :
    Ctx → ℕ → ReviewItemSource → ℕ → ℕ → List Candidate → Db → List ReviewItem × Db
create_many ctx tenant_id source document_id job_id items db =
    let rows = item_rows ctx tenant_id source document_id job_id db.next_id items in
    (
      rows,
      record db { review_items = db.review_items ++ rows; next_id = db.next_id + length items },
    )

unfoldable pub find_by_id : ℕ → ℕ → Db → Option ReviewItem
find_by_id tenant_id item_id db =
    first (λ (r : ReviewItem). r.id == item_id && r.tenant_id == tenant_id) db.review_items

abbrev pub same_status : ReviewItemStatus → ReviewItemStatus → Bool
same_status pending pending = true
same_status approved approved = true
same_status edited edited = true
same_status rejected rejected = true
same_status _ _ = false

abbrev pub status_matches : Option ReviewItemStatus → ReviewItem → Bool
status_matches none r = true
status_matches (some s) r = same_status r.status s

-- ORDER BY created_at ASC, id ASC.
unfoldable pub older : ReviewItem → ReviewItem → Bool
older a b = ltb a.created_at b.created_at || (a.created_at == b.created_at && ltb a.id b.id)

unfoldable pub list_for_tenant : ℕ → Option ReviewItemStatus → Db → List ReviewItem
list_for_tenant tenant_id status db = insert_by older (
    select (λ (r : ReviewItem). r.tenant_id == tenant_id && status_matches status r)
      db.review_items)

-- The WHERE of the UPDATE that resolves an item.
abbrev pub open_item : ℕ → ℕ → ReviewItem → Bool
open_item tenant_id item_id r = r.id == item_id && r.tenant_id == tenant_id && is_pending r.status

abbrev pub disposed : Ctx → ReviewItemStatus → Option Json → ReviewItem → ReviewItem
disposed ctx status corrected_values r = record r {
  status = status;
  corrected_values = corrected_values;
  resolved_at = some ctx.now;
}

abbrev pub returned : Ctx → ReviewItemStatus → Option Json → Option ReviewItem → Option ReviewItem
returned ctx status corrected_values none = none
returned ctx status corrected_values (some r) = some (disposed ctx status corrected_values r)

-- UPDATE ... WHERE ... RETURNING.
unfoldable pub resolve : Ctx → ℕ → ℕ → ReviewItemStatus → Option Json → Db → Option ReviewItem × Db
resolve ctx tenant_id item_id status corrected_values db = (
  returned ctx status corrected_values (first (open_item tenant_id item_id) db.review_items),
  record db {
    review_items =
        update_where (open_item tenant_id item_id) (disposed ctx status corrected_values)
          db.review_items;
  },
)

unfoldable pub delete_for_document : ℕ → Db → Db
delete_for_document document_id db = record db {
  review_items = select (λ (r : ReviewItem). not (r.document_id == document_id)) db.review_items;
}

abbrev pub from_jobs : List ℕ → ReviewItem → Bool
from_jobs job_ids r = exists (λ j. j == r.job_id) job_ids

unfoldable pub delete_for_jobs : List ℕ → Db → Db
delete_for_jobs [] db = db
delete_for_jobs (j ∷ job_ids) db = record db {
  review_items = select (λ r. not (from_jobs (j ∷ job_ids) r)) db.review_items;
}
