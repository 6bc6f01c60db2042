-- ===== src/Llm/Client/Embedding.antt =====
-- `embed` gives each text its own vector, in whatever order the response lists them.
use contract_change_intel.Prelude.{
  ℕ, suc, ◌+◌, ◌-◌, ◌≤◌, ◌<◌, ℤ, Text, List, [], ◌∷◌, none, some, Bool, false, ◌==◌, ◌≡◌, refl, ap,
  ◌∙◌, arith, All, All-map_implies, Pairwise, IsSorted, IsOrder, insert_by, insert_by-All,
  insert_by-All_of, insert_by-Pairwise, insert_by-IsSorted, length-insert_by, length, get_elem?,
  Option-cases, inl, inr,
}
use std.Path.{subst}
use contract_change_intel.Llm.Cost.{Dollars, pricing_for, cost_usd}
use contract_change_intel.Llm.Client.{
  Wire, answered, EmbeddingItem, EmbeddingResponse, earlier, vectors_of, priced, embed,
}
use contract_change_intel.Llm.Failure.{Outcome, returned, raised, Reply}

abbrev pub Apart : EmbeddingItem → EmbeddingItem → Type 0
Apart a b = (a.index == b.index) ≡ false

abbrev Below : EmbeddingItem → EmbeddingItem → Type 0
Below a b = suc a.index ≤ b.index

-- Sorted items with different indices have growing indices.
growing :
    (before : EmbeddingItem → EmbeddingItem → Bool) (x : EmbeddingItem) (xs : List EmbeddingItem)
    → ((a b : EmbeddingItem) → before b a ≡ false → Apart a b → Below a b)
    → All (λ y. before y x ≡ false) xs
    → All (Apart x) xs
    → All (Below x) xs
growing before x [] step s d = tt
growing before x (y ∷ ys) step s d = (step x y s.0 d.0, growing before x ys step s.1 d.1)

growing_all :
    (before : EmbeddingItem → EmbeddingItem → Bool) (xs : List EmbeddingItem)
    → ((a b : EmbeddingItem) → before b a ≡ false → Apart a b → Below a b)
    → IsSorted before xs
    → Pairwise Apart xs
    → Pairwise Below xs
growing_all before [] step s d = tt
growing_all before (x ∷ xs) step s d =
    (growing before x xs step s.0 d.0, growing_all before xs step s.1 d.1)

-- Growing indices from `lo` on and below `hi` leave room for each other.
room :
    (lo hi : ℕ) (xs : List EmbeddingItem)
    → lo ≤ hi
    → All (λ x. lo ≤ x.index) xs
    → All (λ x. x.index < hi) xs
    → Pairwise Below xs
    → lo + length xs ≤ hi
room lo hi [] h low high p = omega (arith, h)
room lo hi (x ∷ xs) h low high p =
    omega (arith, low.0, room (suc x.index) hi xs (omega (arith, high.0)) p.0 high.1 p.1)

module _ (dollars : Dollars) (model : Text) (latency_ms : ℕ) where
  -- The item's vector stands at its index, counted from `lo`.
  abbrev IsAt : ℕ → List (List ℤ) → EmbeddingItem → Type 0
  IsAt lo vectors x = get_elem? vectors (x.index - lo) ≡ some x.embedding

  later-IsAt :
      (lo : ℕ) (v : List ℤ) (vectors : List (List ℤ)) (ys : List EmbeddingItem)
      → All (λ y. suc lo ≤ y.index) ys
      → All (IsAt (suc lo) vectors) ys
      → All (IsAt lo (v ∷ vectors)) ys
  later-IsAt lo v vectors [] low h = tt
  later-IsAt lo v vectors (y ∷ ys) low h =
      let one : y.index - lo ≡ suc (y.index - suc lo) = omega (arith, low.0) in
      (rw one h.0, later-IsAt lo v vectors ys low.1 h.1)

  -- Growing indices with no room left are consecutive.
  consecutive :
      (lo : ℕ) (xs : List EmbeddingItem)
      → All (λ x. lo ≤ x.index) xs
      → All (λ x. x.index < lo + length xs) xs
      → Pairwise Below xs
      → All (IsAt lo (vectors_of dollars model latency_ms xs)) xs
  consecutive lo [] low high p = tt
  consecutive lo (x ∷ xs) low high p =
      let fits =
        room (suc x.index) (lo + length (x ∷ xs)) xs (omega (arith, high.0)) p.0 high.1 p.1 in
      let first_is : x.index ≡ lo = omega (arith, fits, low.0) in
      let here : x.index - lo ≡ 0 = omega (arith, first_is) in
      let above : All (λ y. suc lo ≤ y.index) xs =
        All-map_implies _ _ xs (λ y k. omega (arith, k, first_is)) p.0 in
      (
        rw here refl,
        later-IsAt lo x.embedding (vectors_of dollars model latency_ms xs) xs above (
            consecutive (suc lo) xs above (All-map_implies _ _ xs (λ y k. omega (arith, k)) high.1)
              p.1),
      )

  earlier-IsOrder : IsOrder (earlier dollars model latency_ms)
  earlier-IsOrder = record { asym = λ x y h. ground arith; cotrans = λ x y z h k. ground arith }

  sorted-IsAt :
      (items : List EmbeddingItem)
      → Pairwise Apart items
      → All (λ x. x.index < length items) items
      → All
          (IsAt 0 (
            vectors_of dollars model latency_ms
              (insert_by (earlier dollars model latency_ms) items)))
          items
  sorted-IsAt items apart low =
      let before = earlier dollars model latency_ms in
      let sorted = insert_by before items in
      let size = length-insert_by before items in
      insert_by-All_of before (IsAt 0 (vectors_of dollars model latency_ms sorted)) items (
        consecutive 0 sorted
          (All-map_implies _ _ sorted (λ y k. omega arith) (insert_by-All before _ items low))
          (All-map_implies _ _ sorted (λ y k. omega (arith, k, size))
            (insert_by-All before _ items low))
          (growing_all before sorted (λ a b s d. ground (arith, s, d))
            (insert_by-IsSorted before earlier-IsOrder items)
            (insert_by-Pairwise before Apart items (λ a b d. ground (arith, d)) apart)))

  -- The reply has the vector of each item at the item's index, or the model has no price.
  abbrev pub IsInOrder : List EmbeddingItem → Outcome (Reply (List (List ℤ))) → Type 0
  IsInOrder items (returned reply) =
      (length reply.content ≡ length items)
      × All (λ (x : EmbeddingItem). get_elem? reply.content x.index ≡ some x.embedding) items
  IsInOrder items (raised e) = pricing_for model ≡ none

  length-vectors_of :
      (xs : List EmbeddingItem) → length (vectors_of dollars model latency_ms xs) ≡ length xs
  length-vectors_of [] = refl
  length-vectors_of (x ∷ xs) = ap suc (length-vectors_of xs)

  at_index :
      (vectors : List (List ℤ)) (x : EmbeddingItem)
      → IsAt 0 vectors x
      → get_elem? vectors x.index ≡ some x.embedding
  at_index vectors x h =
      let same : x.index - 0 ≡ x.index = omega arith in
      subst (λ i. get_elem? vectors i ≡ some x.embedding) same h

  -- Where a response has one item for each index below their number, a call that returns gives each
  -- item's vector at the item's index, whatever the order of the response, and no other; it raises
  -- only where the model has no price.
  pub embed-IsInOrder :
      (create : List Text → Wire EmbeddingResponse) (texts : List Text) (r : EmbeddingResponse)
      → create texts ≡ answered r
      → Pairwise Apart r.items
      → All (λ x. x.index < length r.items) r.items
      → IsInOrder r.items (embed dollars model latency_ms create texts)
  unfolding embed priced cost_usd
  embed-IsInOrder create texts r e apart low =
      let sorted = insert_by (earlier dollars model latency_ms) r.items in
      elim (Option-cases (pricing_for model)) [
        | inl f ↦ rw (e, f) f
        | inr (p, f) ↦
            rw (e, f)
              (
                length-vectors_of sorted
                    ∙ length-insert_by (earlier dollars model latency_ms) r.items,
                All-map_implies _ _ r.items
                    (λ x h. at_index (vectors_of dollars model latency_ms sorted) x h)
                    (sorted-IsAt r.items apart low),
              )
      ]
