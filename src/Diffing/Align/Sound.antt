-- ===== src/Diffing/Align/Sound.antt =====
-- Where each change comes from.
use contract_change_intel.Prelude.{
  ℕ, ◌+◌, Text, List, [], ◌∷◌, Option, some, true, false, ◌≡◌, refl, arith, text_eq, All,
  All-append, inl, inr, Bool-cases, Option-cases, ap,
}
use mathlib.Core.List.{Memᴰ}
use contract_change_intel.Diffing.Keys.{Unicode, SectionKey, opt_key_eq}
use contract_change_intel.Diffing.Sections.{Section, sections}
use contract_change_intel.Diffing.Align.{
  Change, Indexed, Alignment, enumerate, is_consumed, is_match, find_match, align_loop, align_with,
  additions, align, detect_changes, pair_change, removal, modification, addition, section_text,
}

-- A change is a base section's removal, an amended section's addition, or the modification of a
-- base section into an amended one with its key and another text.
pub data Explained (base_text amended_text : Text) (base amended : List Section) (c : Change)
    : Type 0 where
  removal_of :
      (s : Section) → Memᴰ s base → c ≡ removal s → Explained base_text amended_text base amended c
  addition_of :
      (a : Section)
      → Memᴰ a amended
      → c ≡ addition a
      → Explained base_text amended_text base amended c
  modification_of :
      (s a : Section)
      → Memᴰ s base
      → Memᴰ a amended
      → opt_key_eq a.key s.key ≡ true
      → text_eq (section_text base_text s) (section_text amended_text a) ≡ false
      → c ≡ modification s a
      → Explained base_text amended_text base amended c

find_match-found :
    (key : Option SectionKey) (consumed : List ℕ) (k : ℕ) (ss : List Section) {a : Indexed}
    → find_match key consumed (enumerate k ss) ≡ some a
    → Memᴰ a.section ss × (opt_key_eq a.section.key key ≡ true)
unfolding find_match
find_match-found key consumed k [] h = cc
find_match-found key consumed k (s ∷ ss) {a = a} h =
    elim (Bool-cases (is_match key consumed (record { index = k; section = s }))) [
      | inl e ↦
          let p : a ≡ record { index = k; section = s } = ground arith in
          let q : a.section ≡ s = ap (λ (x : Indexed). x.section) p in
          (Memᴰ.head q, rw q (ground arith))
      | inr e ↦
          let found = find_match-found key consumed (k + 1) ss (rw e at h) in
          (Memᴰ.tail found.0, found.1)
    ]

module _ (base_text amended_text : Text) (base amended : List Section) where
  abbrev AllExplained : List Change → Type 0
  AllExplained cs = All (Explained base_text amended_text base amended) cs

  pair_change-Explained :
      (s a : Section)
      → Memᴰ s base
      → Memᴰ a amended
      → opt_key_eq a.key s.key ≡ true
      → AllExplained (pair_change base_text amended_text s a)
  pair_change-Explained s a ms ma e =
      elim (Bool-cases (text_eq (section_text base_text s) (section_text amended_text a))) [
        | inl t ↦ rw t tt
        | inr t ↦ rw t (modification_of s a ms ma e t refl, tt)
      ]

  align_with-Explained :
      (st : Alignment) (s : Section)
      → Memᴰ s base
      → AllExplained st.changes
      → AllExplained
          (align_with base_text amended_text
            (enumerate 0 amended)
            st
            s
            (find_match s.key st.consumed (enumerate 0 amended))).changes
  align_with-Explained st s m h =
      elim (Option-cases (find_match s.key st.consumed (enumerate 0 amended))) [
        | inl e ↦ rw e (All-append _ st.changes _ h (removal_of s m refl, tt))
        | inr (a, e) ↦
            let found = find_match-found s.key st.consumed 0 amended e in
            rw e (All-append _ st.changes _ h (pair_change-Explained s a.section m found.0 found.1))
      ]

  align_loop-Explained :
      (st : Alignment) (ss : List Section)
      → ((s : Section) → Memᴰ s ss → Memᴰ s base)
      → AllExplained st.changes
      → AllExplained (align_loop base_text amended_text (enumerate 0 amended) st ss).changes
  unfolding align_loop
  align_loop-Explained st [] sub h = h
  align_loop-Explained st (s ∷ ss) sub h =
      align_loop-Explained
        (align_with base_text amended_text (enumerate 0 amended) st s
          (find_match s.key st.consumed (enumerate 0 amended)))
        ss (λ x m. sub x (Memᴰ.tail m)) (align_with-Explained st s (sub s (Memᴰ.head refl)) h)

  additions-Explained :
      (consumed : List ℕ) (k : ℕ) (ss : List Section)
      → ((a : Section) → Memᴰ a ss → Memᴰ a amended)
      → AllExplained (additions consumed (enumerate k ss))
  unfolding additions
  additions-Explained consumed k [] sub = tt
  additions-Explained consumed k (a ∷ ss) sub =
      let rest = additions-Explained consumed (k + 1) ss (λ x m. sub x (Memᴰ.tail m)) in
      elim (Bool-cases (is_consumed consumed k)) [
        | inl e ↦ rw e rest
        | inr e ↦ rw e (addition_of a (sub a (Memᴰ.head refl)) refl, rest)
      ]

  align-Explained : AllExplained (align base_text amended_text base amended)
  unfolding align
  align-Explained =
      All-append _ _ _
        (align_loop-Explained (record { changes = []; consumed = [] }) base (λ s m. m) tt)
        (additions-Explained _ 0 amended (λ a m. m))

-- Every change that is detected is the removal of a section of the base text, the addition of one of
-- the amended text, or the modification of a base section into an amended section whose key is the
-- same and whose text differs.
pub detect_changes-Explained :
    (u : Unicode) (base_text amended_text : Text)
    → All
        (Explained base_text amended_text (sections u base_text) (sections u amended_text))
        (detect_changes u base_text amended_text)
unfolding detect_changes
detect_changes-Explained u base_text amended_text =
    align-Explained base_text amended_text (sections u base_text) (sections u amended_text)
