-- ===== src/Search/Fusion.antt =====
-- Rank fusion against its formula.
use contract_change_intel.Prelude.{
  ℕ, ◌+◌, ℤ, pos, List, [], ◌∷◌, Bool, true, false, ◌==◌, map, if◌then◌else◌, ◌≡◌, refl, ap, ◌∙◌,
  arith, All, All-map_implies, inl, inr, Bool-cases, exists, Pairwise, IsSorted, IsOrder,
  insert_by-All, insert_by-IsSorted, insert_by-Pairwise, exists-insert_by,
}
use contract_change_intel.Search.Numbering.{
  Differ, item_of, note_rankings, index_of, score_rankings-items, score_rankings-Numbered,
  Numbered-index_of,
}
use contract_change_intel.Search.{
  Doubles, Scored, ahead, score_item, score_ranking, score_rankings, rrf_fuse,
}

ahead-IsOrder : IsOrder ahead
unfolding ahead
ahead-IsOrder = record { asym = λ x y h. ground arith; cotrans = λ x y z h k. ground arith }

Differ-sym : (a b : Scored) → Differ a b → Differ b a
Differ-sym a b h = ground arith

abbrev pub has_item : ℕ → List Scored → Bool
has_item i = exists (λ e. e.item == i)

module _ (doubles : Doubles) (k : ℕ) where
  -- The sum of 1 / (k + rank) over the ranks at which an item stands, added in their order.
  abbrev pub add_ranks : ℕ → ℕ → List ℕ → ℤ → ℤ
  add_ranks i rank [] sum = sum
  add_ranks i rank (x ∷ ranking) sum =
      add_ranks i (rank + 1) ranking
        (if x == i then doubles.plus sum (doubles.reciprocal (k + rank)) else sum)

  abbrev pub add_rankings : ℕ → List (List ℕ) → ℤ → ℤ
  add_rankings i [] sum = sum
  add_rankings i (ranking ∷ rankings) sum = add_rankings i rankings (add_ranks i 1 ranking sum)

  -- `scores.get(item, 0.0)`
  score_in : ℕ → List Scored → ℤ
  score_in i [] = pos 0
  score_in i (e ∷ es) = if e.item == i then e.score else score_in i es

  score_in-score_item :
      (i item rank n : ℕ) (es : List Scored)
      → score_in i (score_item doubles k item rank n es) ≡ (
          if item == i
          then doubles.plus (score_in i es) (doubles.reciprocal (k + rank))
          else score_in i es)
  unfolding score_item score_in
  score_in-score_item i item rank n [] = ground arith
  score_in-score_item i item rank n (e ∷ es) =
      ground (arith, score_in-score_item i item rank (n + 1) es)

  score_in-score_ranking :
      (i rank : ℕ) (ranking : List ℕ) (es : List Scored)
      → score_in i (score_ranking doubles k rank ranking es)
        ≡ add_ranks i rank ranking (score_in i es)
  unfolding score_ranking
  score_in-score_ranking i rank [] es = refl
  score_in-score_ranking i rank (x ∷ ranking) es =
      score_in-score_ranking i (rank + 1) ranking (score_item doubles k x rank 0 es)
      ∙ ap (add_ranks i (rank + 1) ranking) (score_in-score_item i x rank 0 es)

  score_in-score_rankings :
      (i : ℕ) (rankings : List (List ℕ)) (es : List Scored)
      → score_in i (score_rankings doubles k rankings es) ≡ add_rankings i rankings (score_in i es)
  unfolding score_rankings
  score_in-score_rankings i [] es = refl
  score_in-score_rankings i (ranking ∷ rankings) es =
      score_in-score_rankings i rankings (score_ranking doubles k 1 ranking es)
      ∙ ap (add_rankings i rankings) (score_in-score_ranking i 1 ranking es)

  has_item-score_item :
      (i item rank n : ℕ) (es : List Scored)
      → has_item i (score_item doubles k item rank n es)
        ≡ (if item == i then true else has_item i es)
  unfolding score_item
  has_item-score_item i item rank n [] = ground arith
  has_item-score_item i item rank n (e ∷ es) =
      ground (arith, has_item-score_item i item rank (n + 1) es)

  has_item-score_ranking :
      (i rank : ℕ) (ranking : List ℕ) (es : List Scored)
      → has_item i (score_ranking doubles k rank ranking es)
        ≡ (if has_item i es then true else exists (λ x. x == i) ranking)
  unfolding score_ranking
  has_item-score_ranking i rank [] es = ground arith
  has_item-score_ranking i rank (x ∷ ranking) es = ground (
    arith,
    has_item-score_ranking i (rank + 1) ranking (score_item doubles k x rank 0 es),
    has_item-score_item i x rank 0 es,
  )

  has_item-score_rankings :
      (i : ℕ) (rankings : List (List ℕ)) (es : List Scored)
      → has_item i (score_rankings doubles k rankings es)
        ≡ (if has_item i es then true else exists (exists (λ x. x == i)) rankings)
  unfolding score_rankings
  has_item-score_rankings i [] es = ground arith
  has_item-score_rankings i (ranking ∷ rankings) es = ground (
    arith,
    has_item-score_rankings i rankings (score_ranking doubles k 1 ranking es),
    has_item-score_ranking i 1 ranking es,
  )

  score_item-Differ :
      (e : Scored) (item rank n : ℕ) (es : List Scored)
      → (e.item == item) ≡ false
      → All (Differ e) es
      → All (Differ e) (score_item doubles k item rank n es)
  unfolding score_item
  score_item-Differ e item rank n [] d h = (d, tt)
  score_item-Differ e item rank n (x ∷ es) d h = elim (Bool-cases (x.item == item)) [
    | inl same ↦ rw same (h.0, h.1)
    | inr other ↦ rw other (h.0, score_item-Differ e item rank (n + 1) es d h.1)
  ]

  score_item-Pairwise :
      (item rank n : ℕ) (es : List Scored)
      → Pairwise Differ es
      → Pairwise Differ (score_item doubles k item rank n es)
  unfolding score_item
  score_item-Pairwise item rank n [] h = (tt, tt)
  score_item-Pairwise item rank n (x ∷ es) h = elim (Bool-cases (x.item == item)) [
    | inl same ↦ rw same (h.0, h.1)
    | inr other ↦ rw other (
      score_item-Differ x item rank (n + 1) es other h.0,
      score_item-Pairwise item rank (n + 1) es h.1,
    )
  ]

  score_ranking-Pairwise :
      (rank : ℕ) (ranking : List ℕ) (es : List Scored)
      → Pairwise Differ es
      → Pairwise Differ (score_ranking doubles k rank ranking es)
  unfolding score_ranking
  score_ranking-Pairwise rank [] es h = h
  score_ranking-Pairwise rank (x ∷ ranking) es h =
      score_ranking-Pairwise (rank + 1) ranking (score_item doubles k x rank 0 es)
        (score_item-Pairwise x rank 0 es h)

  score_rankings-Pairwise :
      (rankings : List (List ℕ)) (es : List Scored)
      → Pairwise Differ es
      → Pairwise Differ (score_rankings doubles k rankings es)
  unfolding score_rankings
  score_rankings-Pairwise [] es h = h
  score_rankings-Pairwise (ranking ∷ rankings) es h =
      score_rankings-Pairwise rankings (score_ranking doubles k 1 ranking es)
        (score_ranking-Pairwise 1 ranking es h)

  score_in-later :
      (x : Scored) (es fs : List Scored)
      → All (Differ x) fs
      → All (λ (e : Scored). e.score ≡ score_in e.item es) fs
      → All (λ (e : Scored). e.score ≡ score_in e.item (x ∷ es)) fs
  unfolding score_in
  score_in-later x es [] d h = tt
  score_in-later x es (f ∷ fs) d h = (ground (arith, d.0, h.0), score_in-later x es fs d.1 h.1)

  -- In a list of different items each entry's score is the item's.
  score_in-own :
      (es : List Scored) → Pairwise Differ es → All (λ e. e.score ≡ score_in e.item es) es
  unfolding score_in
  score_in-own [] h = tt
  score_in-own (x ∷ es) h = (ground arith, score_in-later x es es h.0 (score_in-own es h.1))

  -- What a fusion of the rankings is.
  pub record IsFusion (rankings : List (List ℕ)) (fused : List Scored) : Type 0 where
    pub scored : All (λ (e : Scored). e.score ≡ add_rankings e.item rankings (pos 0)) fused
    pub numbered :
        All (λ (e : Scored). e.first_seen ≡ index_of e.item (note_rankings [] rankings)) fused
    pub distinct : Pairwise Differ fused
    pub sorted : IsSorted ahead fused
    pub same_items : (i : ℕ) → has_item i fused ≡ exists (exists (λ x. x == i)) rankings

  -- The fusion of rankings holds each item of any of them once and no other, each with the sum of
  -- 1 / (k + rank) over its ranks, best score first and, of equal scores, the item seen first: its
  -- number is its place among the items in the order in which the rankings show them.
  pub rrf_fuse-IsFusion :
      (rankings : List (List ℕ)) → IsFusion rankings (rrf_fuse doubles k rankings)
  unfolding rrf_fuse score_in
  rrf_fuse-IsFusion rankings =
      let es = score_rankings doubles k rankings [] in
      let different = score_rankings-Pairwise rankings [] tt in
      let items = score_rankings-items doubles k rankings [] in
      record {
        scored = insert_by-All ahead _ es (
            All-map_implies _ _ es (λ e h. h ∙ score_in-score_rankings e.item rankings [])
              (score_in-own es different));
        numbered = insert_by-All ahead _ es (
            All-map_implies _ _ es
              (λ e h.
                let own : e.first_seen ≡ index_of e.item (map item_of es) = omega (arith, h) in
                own ∙ ap (index_of e.item) items)
              (Numbered-index_of doubles k 0 es different
                (score_rankings-Numbered doubles k rankings [] tt)));
        distinct = insert_by-Pairwise ahead Differ es Differ-sym different;
        sorted = insert_by-IsSorted ahead ahead-IsOrder es;
        same_items = λ i. exists-insert_by ahead _ es ∙ has_item-score_rankings i rankings [];
      }
