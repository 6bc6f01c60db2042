-- ===== src/Diffing/Align.antt =====
-- `detect_changes`: matching the sections of two versions by key, and the changes between them.
pub mod Identity
pub mod Account
pub mod Sound
use contract_change_intel.Prelude.{
  ℕ, suc, ◌+◌, Text, List, [], ◌∷◌, ◌++◌, Option, none, some, Bool, true, false, not, ◌&&◌, ◌==◌,
  if◌then◌else◌, first, exists, slice, text_eq,
}
use contract_change_intel.Diffing.Keys.{Unicode, SectionKey, opt_key_eq}
use contract_change_intel.Diffing.Sections.{Section, sections}

pub data ChangeKind : Type 0 where
  added removed modified : ChangeKind

pub record Span : Type 0 where
  pub char_start : ℕ
  pub char_end : ℕ

pub record Change : Type 0 where
  pub kind : ChangeKind
  pub clause_ref : Option Text
  pub base_span : Option Span
  pub amended_span : Option Span

abbrev pub span_of : Section → Span
span_of s = record { char_start = s.char_start; char_end = s.char_end }

-- `_slice`
abbrev pub section_text : Text → Section → Text
section_text text s = slice text s.char_start s.char_end

-- A section with its index in the amended version.
pub record Indexed : Type 0 where
  pub index : ℕ
  pub section : Section

abbrev pub enumerate : ℕ → List Section → List Indexed
enumerate n [] = []
enumerate n (s ∷ ss) = record { index = n; section = s } ∷ enumerate (n + 1) ss

abbrev pub is_consumed : List ℕ → ℕ → Bool
is_consumed consumed i = exists (λ j. j == i) consumed

-- `next((i for i in amended_by_key.get(key, []) if i not in consumed), None)`.
abbrev pub is_match : Option SectionKey → List ℕ → Indexed → Bool
is_match key consumed a = opt_key_eq a.section.key key && not (is_consumed consumed a.index)

unfoldable pub find_match : Option SectionKey → List ℕ → List Indexed → Option Indexed
find_match key consumed amended = first (is_match key consumed) amended

-- The changes found so far, and the indices of the amended sections that are matched.
pub record Alignment : Type 0 where
  pub changes : List Change
  pub consumed : List ℕ

abbrev pub removal : Section → Change
removal s = record {
  kind = removed;
  clause_ref = s.clause_ref;
  base_span = some (span_of s);
  amended_span = none;
}

abbrev pub modification : Section → Section → Change
modification s a = record {
  kind = modified;
  clause_ref = s.clause_ref;
  base_span = some (span_of s);
  amended_span = some (span_of a);
}

abbrev pub addition : Section → Change
addition a = record {
  kind = added;
  clause_ref = a.clause_ref;
  base_span = none;
  amended_span = some (span_of a);
}

-- The change that a matched pair makes, if any.
abbrev pub pair_change : Text → Text → Section → Section → List Change
pair_change base_text amended_text s a =
    if text_eq (section_text base_text s) (section_text amended_text a)
    then []
    else modification s a ∷ []

module _ (base_text amended_text : Text) (amended : List Indexed) where
  -- One turn of the loop over the base sections.
  abbrev pub align_with : Alignment → Section → Option Indexed → Alignment
  align_with st s none = record st { changes = st.changes ++ removal s ∷ [] }
  align_with st s (some a) = record {
    changes = st.changes ++ pair_change base_text amended_text s a.section;
    consumed = a.index ∷ st.consumed;
  }

  unfoldable pub align_loop : Alignment → List Section → Alignment
  unfolding find_match
  align_loop st [] = st
  align_loop st (s ∷ ss) = align_loop (align_with st s (find_match s.key st.consumed amended)) ss

unfoldable pub additions : List ℕ → List Indexed → List Change
additions consumed [] = []
additions consumed (a ∷ more) =
    let rest = additions consumed more in
    if is_consumed consumed a.index then rest else addition a.section ∷ rest

unfoldable pub align : Text → Text → List Section → List Section → List Change
unfolding align_loop additions
align base_text amended_text base amended =
    let indexed = enumerate 0 amended in
    let st =
      align_loop base_text amended_text indexed (record { changes = []; consumed = [] }) base in
    st.changes ++ additions st.consumed indexed

unfoldable pub detect_changes : Unicode → Text → Text → List Change
unfolding align
detect_changes u base_text amended_text =
    align base_text amended_text (sections u base_text) (sections u amended_text)
