-- ===== src/Diffing/Sections/Preamble.antt =====
-- Which section has no key.
use contract_change_intel.Prelude.{
  Text, List, [], ◌∷◌, none, some, ◌≢◌, All, Option-cases, inl, inr,
}
use contract_change_intel.Diffing.Keys.{Unicode, SectionKey, clause_key}
use contract_change_intel.Diffing.Sections.{
  Section, Paragraph, first_line, section_of, section_loop, sections, paragraphs,
}

abbrev pub HasKey : Section → Type 0
HasKey s = s.key ≢ none

-- Every section but the first has a key.
abbrev pub IsKeyed : List Section → Type 0
IsKeyed [] = Unit
IsKeyed (s ∷ ss) = All HasKey ss

some_not_none : {k : SectionKey} → some k ≢ none
some_not_none h = cc

module _ (u : Unicode) where
  section_loop-HasKey :
      (last : Section) (ps : List Paragraph)
      → HasKey last
      → All HasKey (section_loop u (some last) ps)
  unfolding section_loop
  section_loop-HasKey last [] h = (h, tt)
  section_loop-HasKey last (p ∷ ps) h = elim (Option-cases (clause_key u (first_line p.text))) [
    | inl e ↦ rw e (section_loop-HasKey (record last { char_end = p.end }) ps h)
    | inr (k, e) ↦ rw e (h, section_loop-HasKey (section_of u p (some k)) ps some_not_none)
  ]

  section_loop-IsKeyed :
      (last : Section) (ps : List Paragraph) → IsKeyed (section_loop u (some last) ps)
  unfolding section_loop
  section_loop-IsKeyed last [] = tt
  section_loop-IsKeyed last (p ∷ ps) = elim (Option-cases (clause_key u (first_line p.text))) [
    | inl e ↦ rw e (section_loop-IsKeyed (record last { char_end = p.end }) ps)
    | inr (k, e) ↦ rw e (section_loop-HasKey (section_of u p (some k)) ps some_not_none)
  ]

  start-IsKeyed : (ps : List Paragraph) → IsKeyed (section_loop u none ps)
  unfolding section_loop
  start-IsKeyed [] = tt
  start-IsKeyed (p ∷ ps) =
      section_loop-IsKeyed (section_of u p (clause_key u (first_line p.text))) ps

-- Every section of a text but the first has a key.
pub sections-IsKeyed : (u : Unicode) (text : Text) → IsKeyed (sections u text)
unfolding sections
sections-IsKeyed u text = start-IsKeyed u (paragraphs text)
