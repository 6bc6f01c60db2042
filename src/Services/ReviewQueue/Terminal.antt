-- ===== src/Services/ReviewQueue/Terminal.antt =====
-- A resolution is final.
use contract_change_intel.Prelude.{
  ℕ, List, [], ◌∷◌, Option, none, some, Bool, false, ◌≡◌, refl, arith, first, update_where, inl,
  inr, Bool-cases, ◌==◌, ◌&&◌, Option-cases,
}
use contract_change_intel.Store.Json.{Json}
use contract_change_intel.Store.Rows.{ReviewItem, ReviewItemStatus, Db, Ctx, is_pending}
use contract_change_intel.Store.Errors.{review_item_already_resolved}
use contract_change_intel.Store.Exec.{ok, err}
use contract_change_intel.Repositories.ReviewItems.{open_item, disposed, find_by_id, resolve}
use contract_change_intel.Repositories.Audit.{record_entry}
use contract_change_intel.Services.ReviewQueue.{get_review_item, resolve_review_item}

abbrev named : ℕ → ℕ → ReviewItem → Bool
named tenant_id item_id r = r.id == item_id && r.tenant_id == tenant_id

module _ (ctx : Ctx) (tenant_id item_id : ℕ) (disposition : ReviewItemStatus)
    (values : Option Json) where
  abbrev after : List ReviewItem → List ReviewItem
  after rs = update_where (open_item tenant_id item_id) (disposed ctx disposition values) rs

  -- No open item is left.
  first-after :
      (rs : List ReviewItem)
      → is_pending disposition ≡ false
      → first (open_item tenant_id item_id) (after rs) ≡ none
  first-after [] h = refl
  first-after (r ∷ rs) h = ground (arith, first-after rs h)

  -- The item is still there.
  named-after :
      (rs : List ReviewItem)
      → first (named tenant_id item_id) (after rs) ≡ none
      → first (named tenant_id item_id) rs ≡ none
  named-after [] h = refl
  named-after (r ∷ rs) h = ground (arith, named-after rs)

-- An update that no row passes.
update_where-idle :
    (tenant_id item_id : ℕ) (f : ReviewItem → ReviewItem) (rs : List ReviewItem)
    → first (open_item tenant_id item_id) rs ≡ none
    → update_where (open_item tenant_id item_id) f rs ≡ rs
update_where-idle tenant_id item_id f [] h = refl
update_where-idle tenant_id item_id f (r ∷ rs) h =
    ground (arith, update_where-idle tenant_id item_id f rs)

named_open :
    (tenant_id item_id : ℕ) (rs : List ReviewItem) {o : ReviewItem}
    → first (open_item tenant_id item_id) rs ≡ some o
    → ¬ first (named tenant_id item_id) rs ≡ none
named_open tenant_id item_id [] h k = cc
named_open tenant_id item_id (r ∷ rs) {o = o} h k =
    elim (Bool-cases (open_item tenant_id item_id r)) [
      | inl e ↦ ground arith
      | inr e ↦ named_open tenant_id item_id rs {o = o} (rw e at h) (ground arith)
    ]

-- What the call that resolves an item did.
abbrev Resolved : Ctx → ℕ → ℕ → ReviewItemStatus → Option Json → Db → ReviewItem → Db → Type 0
Resolved ctx tenant_id item_id disposition values db r db' =
    ((o : ReviewItem) × (first (open_item tenant_id item_id) db.review_items ≡ some o)
      × (r ≡ disposed ctx disposition values o))
    × (db'.review_items ≡ after ctx tenant_id item_id disposition values db.review_items)

resolve_ok :
    (ctx : Ctx) (tenant_id item_id : ℕ) (disposition : ReviewItemStatus) (values : Option Json)
    (db : Db) {r : ReviewItem} {db' : Db}
    → resolve_review_item ctx tenant_id item_id disposition values db ≡ (ok r, db')
    → Resolved ctx tenant_id item_id disposition values db r db'
unfolding resolve_review_item get_review_item resolve record_entry find_by_id
resolve_ok ctx tenant_id item_id disposition values db h =
    elim (Option-cases (first (named tenant_id item_id) db.review_items)) [
      | inl e ↦ ground arith
      | inr (x, e) ↦ elim (Option-cases (first (open_item tenant_id item_id) db.review_items)) [
        | inl f ↦ ground arith
        | inr (o, f) ↦ ((o, f, ground arith), ground arith)
      ]
    ]

-- A second resolution, on a database whose items the first has left.
refused :
    (ctx : Ctx) (tenant_id item_id : ℕ) (disposition : ReviewItemStatus) (values : Option Json)
    (db : Db) {r : ReviewItem}
    → first (named tenant_id item_id) db.review_items ≡ some r
    → first (open_item tenant_id item_id) db.review_items ≡ none
    → resolve_review_item ctx tenant_id item_id disposition values db
      ≡ (err (review_item_already_resolved item_id), db)
unfolding resolve_review_item get_review_item resolve find_by_id
refused ctx tenant_id item_id disposition values db h k =
    rw
      (
        h,
        k,
        update_where-idle tenant_id item_id (disposed ctx disposition values) db.review_items k,
      )
      refl

-- Of two resolutions of an item the first wins: once a call with a disposition other than `pending`
-- has returned, each further call on the item, whatever its disposition, fails with
-- `review_item_already_resolved` and leaves the database as it is.
pub resolve_review_item-final :
    (ctx : Ctx) (tenant_id item_id : ℕ) (disposition : ReviewItemStatus) (values : Option Json)
    (db : Db) {r : ReviewItem} {db' : Db} (ctx' : Ctx) (disposition' : ReviewItemStatus)
    (values' : Option Json)
    → is_pending disposition ≡ false
    → resolve_review_item ctx tenant_id item_id disposition values db ≡ (ok r, db')
    → resolve_review_item ctx' tenant_id item_id disposition' values' db'
      ≡ (err (review_item_already_resolved item_id), db')
resolve_review_item-final ctx tenant_id item_id disposition values db {db' = db'} ctx' disposition'
      values' p h =
    let ((o, f, _), e) = resolve_ok ctx tenant_id item_id disposition values db h in
    let closed : first (open_item tenant_id item_id) db'.review_items ≡ none =
      rw e (first-after ctx tenant_id item_id disposition values db.review_items p) in
    elim (Option-cases (first (named tenant_id item_id) db'.review_items)) [
      | inl g ↦
          let g' : first (named tenant_id item_id)
                (after ctx tenant_id item_id disposition values db.review_items)
              ≡ none =
            rw e at g in
          absurd (
            named_open tenant_id item_id db.review_items f
              (named-after ctx tenant_id item_id disposition values db.review_items g'))
      | inr (x, g) ↦ refused ctx' tenant_id item_id disposition' values' db' g closed
    ]
