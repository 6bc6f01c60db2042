-- ===== src/Impact.antt =====
-- app/services/impact.py: the obligations shown to the model for a change, and the check of its
-- reply.
pub mod Candidates
pub mod Mapping
pub mod Visit
pub mod Complete
pub mod Call
use contract_change_intel.Prelude.{
  ℕ, ◌+◌, ℤ, pos, negsuc, Text, List, [], ◌∷◌, ◌++◌, Option, none, some, Bool, true, false, ◌&&◌,
  ◌||◌, not, ◌==◌, if◌then◌else◌, ltb_ℤ, length, exists, get_elem?,
}
use contract_change_intel.Extraction.{Obligation, Citation}
use contract_change_intel.Search.{SearchHit}

abbrev pub candidate_limit : ℕ
candidate_limit = 20

unfoldable pub overlaps : SearchHit → Obligation → Bool
overlaps chunk o =
    ltb_ℤ o.citation.char_start (pos chunk.char_end)
    && ltb_ℤ (pos chunk.char_start) o.citation.char_end

-- The variables of the loops; once `is_full` is set, the function has returned.
pub record Picking : Type 0 where
  pub picked : List ℕ
  pub selected : List Obligation
  pub is_full : Bool

module _ (limit : ℕ) where
  abbrev pub take_candidate : Picking → ℕ → Obligation → Picking
  take_candidate st index o = record {
    picked = index ∷ st.picked;
    selected = st.selected ++ o ∷ [];
    is_full = length (st.selected ++ o ∷ []) == limit;
  }

  -- One turn of the inner loop.
  unfoldable pub visit : SearchHit → Picking → ℕ → Obligation → Picking
  visit chunk st index o =
      if st.is_full || exists (λ i. i == index) st.picked || not (overlaps chunk o)
      then st
      else take_candidate st index o

  unfoldable pub visit_obligations : SearchHit → Picking → ℕ → List Obligation → Picking
  unfolding visit
  visit_obligations chunk st index [] = st
  visit_obligations chunk st index (o ∷ obligations) =
      visit_obligations chunk (visit chunk st index o) (index + 1) obligations

  unfoldable pub visit_chunks : List Obligation → Picking → List SearchHit → Picking
  unfolding visit_obligations
  visit_chunks obligations st [] = st
  visit_chunks obligations st (chunk ∷ chunks) =
      visit_chunks obligations (visit_obligations chunk st 0 obligations) chunks

unfoldable pub select_candidates : List Obligation → List SearchHit → ℕ → List Obligation
unfolding visit_chunks
select_candidates obligations chunks limit =
    (visit_chunks limit obligations (record { picked = []; selected = []; is_full = false })
      chunks).selected

-- A mapping that the model reports.
pub record MappedImpact : Type 0 where
  pub index : ℤ
  pub confidence : ℤ

pub record Impact : Type 0 where
  pub obligation : Obligation
  pub confidence : ℤ

-- The impacts, or LlmOutputError for an index outside the candidates.
pub data Mapped : Type 0 where
  mapped : List Impact → Mapped
  unknown_index : ℤ → Mapped

abbrev pub with_impact : Impact → Mapped → Mapped
with_impact i (mapped is) = mapped (i ∷ is)
with_impact i (unknown_index n) = unknown_index n

abbrev pub candidate_at : List Obligation → ℤ → Option Obligation
candidate_at candidates (pos n) = get_elem? candidates n
candidate_at candidates (negsuc n) = none

abbrev pub index_of : ℤ → ℕ
index_of (pos n) = n
index_of (negsuc n) = 0

-- One turn of the loop over the reply; `rest` and `rest_seen` are the turns behind it, without and
-- with this index seen.
abbrev pub map_with : List ℕ → MappedImpact → Option Obligation → Mapped → Mapped → Mapped
map_with seen m none rest rest_seen = unknown_index m.index
map_with seen m (some o) rest rest_seen =
    if exists (λ i. i == index_of m.index) seen
    then rest
    else with_impact (record { obligation = o; confidence = m.confidence }) rest_seen

unfoldable pub map_loop : List Obligation → List ℕ → List MappedImpact → Mapped
map_loop candidates seen [] = mapped []
map_loop candidates seen (m ∷ ms) =
    let rest = map_loop candidates seen ms in
    let rest_seen = map_loop candidates (index_of m.index ∷ seen) ms in
    map_with seen m (candidate_at candidates m.index) rest rest_seen

abbrev pub map_nonempty : List Obligation → List MappedImpact → Mapped
map_nonempty [] impacts = mapped []
map_nonempty (o ∷ candidates) impacts = map_loop (o ∷ candidates) [] impacts

-- `impacts` is the model's reply, which is not asked for where there is no candidate.
unfoldable pub map_change_impacts : List Obligation → List MappedImpact → Mapped
unfolding map_loop
map_change_impacts candidates impacts = map_nonempty candidates impacts
