-- ===== src/Search/Numbering.antt =====
-- The numbers of the items in a rank fusion.
use contract_change_intel.Prelude.{
  ℕ, ◌+◌, List, [], ◌∷◌, false, ◌==◌, if◌then◌else◌, map, ◌≡◌, refl, ap, ◌∙◌, arith, All, inl, inr,
  Bool-cases, Pairwise,
}
use contract_change_intel.Search.{Doubles, Scored, score_item, score_ranking, score_rankings}

-- Two entries for different items.
abbrev pub Differ : Scored → Scored → Type 0
Differ a b = (a.item == b.item) ≡ false

-- `x` behind the items that are there, unless it is one of them.
abbrev pub note_item : List ℕ → ℕ → List ℕ
note_item [] x = x ∷ []
note_item (y ∷ ys) x = let rest = note_item ys x in if y == x then y ∷ ys else y ∷ rest

abbrev pub note_items : List ℕ → List ℕ → List ℕ
note_items seen [] = seen
note_items seen (x ∷ ranking) = note_items (note_item seen x) ranking

-- The items of the rankings in the order in which they are seen, each once.
abbrev pub note_rankings : List ℕ → List (List ℕ) → List ℕ
note_rankings seen [] = seen
note_rankings seen (ranking ∷ rankings) = note_rankings (note_items seen ranking) rankings

-- The index of the first `x`.
abbrev pub index_of : ℕ → List ℕ → ℕ
index_of x [] = 0
index_of x (y ∷ ys) = let rest = index_of x ys in if y == x then 0 else rest + 1

abbrev pub item_of : Scored → ℕ
item_of e = e.item

-- The entries are numbered from `n`.
abbrev pub Numbered : ℕ → List Scored → Type 0
Numbered n [] = Unit
Numbered n (e ∷ es) = (e.first_seen ≡ n) × Numbered (n + 1) es

module _ (doubles : Doubles) (k : ℕ) where
  score_item-items :
      (item rank n : ℕ) (es : List Scored)
      → map item_of (score_item doubles k item rank n es) ≡ note_item (map item_of es) item
  unfolding score_item
  score_item-items item rank n [] = refl
  score_item-items item rank n (e ∷ es) = elim (Bool-cases (e.item == item)) [
    | inl same ↦ rw same refl
    | inr other ↦ rw other (ap (λ is. e.item ∷ is) (score_item-items item rank (n + 1) es))
  ]

  score_ranking-items :
      (rank : ℕ) (ranking : List ℕ) (es : List Scored)
      → map item_of (score_ranking doubles k rank ranking es) ≡ note_items (map item_of es) ranking
  unfolding score_ranking
  score_ranking-items rank [] es = refl
  score_ranking-items rank (x ∷ ranking) es =
      score_ranking-items (rank + 1) ranking (score_item doubles k x rank 0 es)
      ∙ ap (λ seen. note_items seen ranking) (score_item-items x rank 0 es)

  pub score_rankings-items :
      (rankings : List (List ℕ)) (es : List Scored)
      → map item_of (score_rankings doubles k rankings es) ≡ note_rankings (map item_of es) rankings
  unfolding score_rankings
  score_rankings-items [] es = refl
  score_rankings-items (ranking ∷ rankings) es =
      score_rankings-items rankings (score_ranking doubles k 1 ranking es)
      ∙ ap (λ seen. note_rankings seen rankings) (score_ranking-items 1 ranking es)

  score_item-Numbered :
      (item rank n : ℕ) (es : List Scored)
      → Numbered n es
      → Numbered n (score_item doubles k item rank n es)
  unfolding score_item
  score_item-Numbered item rank n [] h = (refl, tt)
  score_item-Numbered item rank n (e ∷ es) h = elim (Bool-cases (e.item == item)) [
    | inl same ↦ rw same (h.0, h.1)
    | inr other ↦ rw other (h.0, score_item-Numbered item rank (n + 1) es h.1)
  ]

  score_ranking-Numbered :
      (rank : ℕ) (ranking : List ℕ) (es : List Scored)
      → Numbered 0 es
      → Numbered 0 (score_ranking doubles k rank ranking es)
  unfolding score_ranking
  score_ranking-Numbered rank [] es h = h
  score_ranking-Numbered rank (x ∷ ranking) es h =
      score_ranking-Numbered (rank + 1) ranking (score_item doubles k x rank 0 es)
        (score_item-Numbered x rank 0 es h)

  pub score_rankings-Numbered :
      (rankings : List (List ℕ)) (es : List Scored)
      → Numbered 0 es
      → Numbered 0 (score_rankings doubles k rankings es)
  unfolding score_rankings
  score_rankings-Numbered [] es h = h
  score_rankings-Numbered (ranking ∷ rankings) es h =
      score_rankings-Numbered rankings (score_ranking doubles k 1 ranking es)
        (score_ranking-Numbered 1 ranking es h)

  -- An entry behind `x` among the numbered ones is at the index of its item.
  Numbered-behind :
      (n : ℕ) (x : Scored) (items : List ℕ) (fs : List Scored)
      → All (Differ x) fs
      → All (λ (e : Scored). e.first_seen ≡ n + 1 + index_of e.item items) fs
      → All (λ (e : Scored). e.first_seen ≡ n + index_of e.item (x.item ∷ items)) fs
  Numbered-behind n x items [] d h = tt
  Numbered-behind n x items (f ∷ fs) d h =
      (ground (arith, d.0, h.0), Numbered-behind n x items fs d.1 h.1)

  -- In a numbered list of different items, each entry's number is the index of its item.
  pub Numbered-index_of :
      (n : ℕ) (es : List Scored)
      → Pairwise Differ es
      → Numbered n es
      → All (λ (e : Scored). e.first_seen ≡ n + index_of e.item (map item_of es)) es
  Numbered-index_of n [] d h = tt
  Numbered-index_of n (x ∷ es) d h = (
    ground (arith, h.0),
    Numbered-behind n x (map item_of es) es d.0 (Numbered-index_of (n + 1) es d.1 h.1),
  )
