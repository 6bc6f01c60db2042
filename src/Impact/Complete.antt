-- ===== src/Impact/Complete.antt =====
-- No obligation that overlaps a chunk is left out while there is room.
use contract_change_intel.Prelude.{
  ℕ, suc, ◌+◌, ◌<◌, List, [], ◌∷◌, some, true, false, ◌≡◌, sym, ap, ◌∙◌, arith, length, inl, inr,
  Bool-cases, get_elem?,
}
use std.Path.{subst}
use mathlib.Core.Bool.{false≢true}
use mathlib.Core.List.{Memᴰ}
use contract_change_intel.Extraction.{Obligation}
use contract_change_intel.Search.{SearchHit}
use contract_change_intel.Impact.{
  overlaps, Picking, visit, visit_obligations, visit_chunks, select_candidates,
}
use contract_change_intel.Impact.Visit.{
  StopsAt, Covers, visit-StopsAt, visit-open, visit-keeps, visit-Covers, visit-selects,
}

module _ (limit : ℕ) (obligations : List Obligation) where
  -- `os` are the obligations from `index` on.
  abbrev From : ℕ → List Obligation → Type 0
  From index os = (j : ℕ) → get_elem? os j ≡ get_elem? obligations (index + j)

  From-head :
      (index : ℕ) (o : Obligation) (os : List Obligation)
      → From index (o ∷ os)
      → get_elem? obligations index ≡ some o
  From-head index o os from =
      let z : index + 0 ≡ index = omega arith in
      subst (λ n. get_elem? obligations n ≡ some o) z (sym (from 0))

  From-tail :
      (index : ℕ) (o : Obligation) (os : List Obligation)
      → From index (o ∷ os)
      → From (index + 1) os
  From-tail index o os from j =
      let z : index + suc j ≡ index + 1 + j = omega arith in
      from (suc j) ∙ ap (get_elem? obligations) z

  visit_obligations-StopsAt :
      (chunk : SearchHit) (st : Picking) (index : ℕ) (os : List Obligation)
      → StopsAt limit st
      → StopsAt limit (visit_obligations limit chunk st index os)
  unfolding visit_obligations
  visit_obligations-StopsAt chunk st index [] h = h
  visit_obligations-StopsAt chunk st index (o ∷ os) h =
      visit_obligations-StopsAt chunk (visit limit chunk st index o) (index + 1) os
        (visit-StopsAt limit obligations chunk st index o h)

  visit_obligations-open :
      (chunk : SearchHit) (st : Picking) (index : ℕ) (os : List Obligation)
      → (visit_obligations limit chunk st index os).is_full ≡ false
      → st.is_full ≡ false
  unfolding visit_obligations
  visit_obligations-open chunk st index [] h = h
  visit_obligations-open chunk st index (o ∷ os) h =
      visit-open limit obligations chunk st index o
        (visit_obligations-open chunk (visit limit chunk st index o) (index + 1) os h)

  visit_obligations-keeps :
      (chunk : SearchHit) (st : Picking) (index : ℕ) (os : List Obligation) (x : Obligation)
      → Memᴰ x st.selected
      → Memᴰ x (visit_obligations limit chunk st index os).selected
  unfolding visit_obligations
  visit_obligations-keeps chunk st index [] x m = m
  visit_obligations-keeps chunk st index (o ∷ os) x m =
      visit_obligations-keeps chunk (visit limit chunk st index o) (index + 1) os x
        (visit-keeps limit obligations chunk st index o x m)

  visit_obligations-Covers :
      (chunk : SearchHit) (st : Picking) (index : ℕ) (os : List Obligation)
      → From index os
      → Covers obligations st
      → Covers obligations (visit_obligations limit chunk st index os)
  unfolding visit_obligations
  visit_obligations-Covers chunk st index [] from c = c
  visit_obligations-Covers chunk st index (o ∷ os) from c =
      visit_obligations-Covers chunk (visit limit chunk st index o) (index + 1) os
        (From-tail index o os from)
        (visit-Covers limit obligations chunk st index o (From-head index o os from) c)

  visit_obligations-selects :
      (chunk : SearchHit) (st : Picking) (index : ℕ) (os : List Obligation) (x : Obligation)
      → From index os
      → Covers obligations st
      → (visit_obligations limit chunk st index os).is_full ≡ false
      → overlaps chunk x ≡ true
      → Memᴰ x os
      → Memᴰ x (visit_obligations limit chunk st index os).selected
  unfolding visit_obligations
  visit_obligations-selects chunk st index [] x from c f h m = elim m [ ]
  visit_obligations-selects chunk st index (o ∷ os) x from c f h (Memᴰ.head e) =
      let open_here =
        visit-open limit obligations chunk st index o
          (visit_obligations-open chunk (visit limit chunk st index o) (index + 1) os f) in
      let hit : overlaps chunk o ≡ true = subst (λ y. overlaps chunk y ≡ true) e h in
      subst
        (λ y.
          Memᴰ y
            (visit_obligations limit chunk (visit limit chunk st index o) (index + 1) os).selected)
        (sym e)
        (visit_obligations-keeps chunk (visit limit chunk st index o) (index + 1) os o (
          visit-selects limit obligations chunk st index o (From-head index o os from) c open_here
            hit))
  visit_obligations-selects chunk st index (o ∷ os) x from c f h (Memᴰ.tail m) =
      visit_obligations-selects chunk (visit limit chunk st index o) (index + 1) os x
        (From-tail index o os from)
        (visit-Covers limit obligations chunk st index o (From-head index o os from) c) f h m

  visit_chunks-StopsAt :
      (st : Picking) (chunks : List SearchHit)
      → StopsAt limit st
      → StopsAt limit (visit_chunks limit obligations st chunks)
  unfolding visit_chunks
  visit_chunks-StopsAt st [] h = h
  visit_chunks-StopsAt st (chunk ∷ chunks) h =
      visit_chunks-StopsAt (visit_obligations limit chunk st 0 obligations) chunks
        (visit_obligations-StopsAt chunk st 0 obligations h)

  visit_chunks-open :
      (st : Picking) (chunks : List SearchHit)
      → (visit_chunks limit obligations st chunks).is_full ≡ false
      → st.is_full ≡ false
  unfolding visit_chunks
  visit_chunks-open st [] h = h
  visit_chunks-open st (chunk ∷ chunks) h =
      visit_obligations-open chunk st 0 obligations
        (visit_chunks-open (visit_obligations limit chunk st 0 obligations) chunks h)

  visit_chunks-keeps :
      (st : Picking) (chunks : List SearchHit) (x : Obligation)
      → Memᴰ x st.selected
      → Memᴰ x (visit_chunks limit obligations st chunks).selected
  unfolding visit_chunks
  visit_chunks-keeps st [] x m = m
  visit_chunks-keeps st (chunk ∷ chunks) x m =
      visit_chunks-keeps (visit_obligations limit chunk st 0 obligations) chunks x
        (visit_obligations-keeps chunk st 0 obligations x m)

  From-start : From 0 obligations
  From-start j = let z : j ≡ 0 + j = omega arith in ap (get_elem? obligations) z

  visit_chunks-selects :
      (st : Picking) (chunks : List SearchHit) (chunk : SearchHit) (x : Obligation)
      → Covers obligations st
      → (visit_chunks limit obligations st chunks).is_full ≡ false
      → overlaps chunk x ≡ true
      → Memᴰ x obligations
      → Memᴰ chunk chunks
      → Memᴰ x (visit_chunks limit obligations st chunks).selected
  unfolding visit_chunks
  visit_chunks-selects st [] chunk x c f h mx m = elim m [ ]
  visit_chunks-selects st (first ∷ chunks) chunk x c f h mx (Memᴰ.head e) =
      let after = visit_obligations limit first st 0 obligations in
      visit_chunks-keeps after chunks x (
        visit_obligations-selects first st 0 obligations x From-start c
          (visit_chunks-open after chunks f) (subst (λ y. overlaps y x ≡ true) e h) mx)
  visit_chunks-selects st (first ∷ chunks) chunk x c f h mx (Memᴰ.tail m) =
      visit_chunks-selects (visit_obligations limit first st 0 obligations) chunks chunk x
        (visit_obligations-Covers first st 0 obligations From-start c) f h mx m

-- Where fewer obligations than the limit are selected, every obligation whose citation overlaps one
-- of the chunks is selected.
pub select_candidates_complete :
    (obligations : List Obligation) (chunks : List SearchHit) (limit : ℕ) (chunk : SearchHit)
    (o : Obligation)
    → length (select_candidates obligations chunks limit) < limit
    → Memᴰ o obligations
    → Memᴰ chunk chunks
    → overlaps chunk o ≡ true
    → Memᴰ o (select_candidates obligations chunks limit)
unfolding select_candidates
select_candidates_complete obligations chunks limit chunk o few mo mc h =
    let start : Picking = record { picked = []; selected = []; is_full = false } in
    elim (Bool-cases (visit_chunks limit obligations start chunks).is_full) [
      | inl full ↦
          let n =
            visit_chunks-StopsAt limit obligations start chunks (λ e. absurd (false≢true e)) full in
          absurd (omega (arith, n, few))
      | inr f ↦
          visit_chunks-selects limit obligations start chunks chunk o
            (λ i x e g. absurd (false≢true e)) f h mo mc
    ]
