-- ===== src/Services/ReviewQueue/Routing.antt =====
-- Which candidates a review gets.
use contract_change_intel.Prelude.{
  ℕ, ℤ, ◌+◌, List, [], ◌∷◌, ◌++◌, none, ◌≡◌, refl, ap, select, length, ltb_ℤ, All, sym,
}
use mathlib.Core.List.{append-nil}
use contract_change_intel.Store.Rows.{ReviewItem, ReviewItemSource, Db, Ctx, pending}
use contract_change_intel.Repositories.ReviewItems.{Candidate, create_many, item_rows}
use contract_change_intel.Services.ReviewQueue.{route_for_review, routed, persist, below_threshold}

-- The candidate that an item was made from.
abbrev pub candidates_of : List ReviewItem → List Candidate
candidates_of [] = []
candidates_of (r ∷ rs) =
    record { item_type = r.item_type; payload = r.payload; confidence = r.confidence }
    ∷ candidates_of rs

module _ (ctx : Ctx) (tenant_id : ℕ) (source : ReviewItemSource) (document_id job_id : ℕ) where
  -- An item as it is made: open, and about the tenant's document and job.
  abbrev pub IsOpened : ReviewItem → Type 0
  IsOpened r =
      (r.status ≡ pending)
      × (r.corrected_values ≡ none)
      × (r.tenant_id ≡ tenant_id)
      × (r.source ≡ source)
      × (r.document_id ≡ document_id)
      × (r.job_id ≡ job_id)

  item_rows-IsOpened :
      (id : ℕ) (cs : List Candidate)
      → All IsOpened (item_rows ctx tenant_id source document_id job_id id cs)
  item_rows-IsOpened id [] = tt
  item_rows-IsOpened id (c ∷ cs) =
      ((refl, refl, refl, refl, refl, refl), item_rows-IsOpened (id + 1) cs)

  candidates_of-item_rows :
      (id : ℕ) (cs : List Candidate)
      → candidates_of (item_rows ctx tenant_id source document_id job_id id cs) ≡ cs
  candidates_of-item_rows id [] = refl
  candidates_of-item_rows id (c ∷ cs) = ap (λ rest. c ∷ rest) (candidates_of-item_rows (id + 1) cs)

  -- The items `new` are all that a call added, and they are the candidates `cs`.
  abbrev pub Routed : Db → List Candidate → ℕ × Db → Type 0
  Routed db cs r =
      (new : List ReviewItem) × (r.1.review_items ≡ db.review_items ++ new)
      × (r.0 ≡ length new)
      × (candidates_of new ≡ cs)
      × All IsOpened new

  persist-Routed :
      (cs : List Candidate) (db : Db)
      → Routed db cs (persist ctx tenant_id source document_id job_id cs db)
  unfolding create_many
  persist-Routed [] db = ([], sym (append-nil db.review_items), refl, refl, tt)
  persist-Routed (c ∷ cs) db = (
    item_rows ctx tenant_id source document_id job_id db.next_id (c ∷ cs),
    refl,
    refl,
    candidates_of-item_rows db.next_id (c ∷ cs),
    item_rows-IsOpened db.next_id (c ∷ cs),
  )

-- Routing adds to the review queue an open item for each candidate whose confidence is below the
-- threshold, in their order, and no other, and returns how many it added.
pub route_for_review-exact :
    (ctx : Ctx) (tenant_id : ℕ) (source : ReviewItemSource) (document_id job_id : ℕ)
    (candidates : List Candidate) (threshold : ℤ) (db : Db)
    → Routed ctx tenant_id source document_id job_id db
        (select (λ (c : Candidate). ltb_ℤ c.confidence threshold) candidates)
        (route_for_review ctx tenant_id source document_id job_id candidates threshold db)
unfolding route_for_review below_threshold
route_for_review-exact ctx tenant_id source document_id job_id candidates threshold db =
    persist-Routed ctx tenant_id source document_id job_id (routed threshold candidates) db
