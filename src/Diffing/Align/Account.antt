-- ===== src/Diffing/Align/Account.antt =====
-- Every section of either version is accounted for.
use contract_change_intel.Prelude.{
  ℕ, suc, ◌+◌, ◌≤◌, ◌<◌, Text, List, [], ◌∷◌, ◌++◌, Option, some, Bool, true, false, ◌≡◌, refl,
  arith, length, Option-cases, inl, inr, Bool-cases, if◌then◌else◌, ap, ◌∙◌,
}
use contract_change_intel.Diffing.Keys.{Unicode, SectionKey}
use contract_change_intel.Diffing.Sections.{Section, sections}
use contract_change_intel.Diffing.Align.{
  added, removed, Change, Indexed, Alignment, enumerate, is_match, find_match, align_loop,
  align_with, additions, align, detect_changes, pair_change, removal,
}

abbrev pub is_removed : Change → Bool
is_removed c = elim c.kind [ removed ↦ true | _ ↦ false ]

abbrev pub is_added : Change → Bool
is_added c = elim c.kind [ added ↦ true | _ ↦ false ]

abbrev pub count_if : (Change → Bool) → List Change → ℕ
count_if test [] = 0
count_if test (c ∷ cs) = let rest = count_if test cs in if test c then suc rest else rest

count_if-append :
    (test : Change → Bool) (cs ds : List Change)
    → count_if test (cs ++ ds) ≡ count_if test cs + count_if test ds
count_if-append test [] ds = omega arith
count_if-append test (c ∷ cs) ds = ground (arith, count_if-append test cs ds)

count_added-additions :
    (consumed : List ℕ) (amended : List Indexed)
    → (count_if is_added (additions consumed amended) ≡ length (additions consumed amended))
      × (count_if is_removed (additions consumed amended) ≡ 0)
unfolding additions
count_added-additions consumed [] = (refl, refl)
count_added-additions consumed (a ∷ more) = ground (arith, count_added-additions consumed more)

additions-unchanged :
    (k i : ℕ) (consumed : List ℕ) (ss : List Section)
    → i < k
    → additions (i ∷ consumed) (enumerate k ss) ≡ additions consumed (enumerate k ss)
unfolding additions
additions-unchanged k i consumed [] h = refl
additions-unchanged k i consumed (s ∷ ss) h =
    ground (arith, additions-unchanged (k + 1) i consumed ss (omega arith))

index-find_match :
    (key : Option SectionKey) (consumed : List ℕ) (k : ℕ) (ss : List Section) {a : Indexed}
    → find_match key consumed (enumerate k ss) ≡ some a
    → k ≤ a.index
unfolding find_match
index-find_match key consumed k [] h = cc
index-find_match key consumed k (s ∷ ss) {a = a} h =
    elim (Bool-cases (is_match key consumed (record { index = k; section = s }))) [
      | inl e ↦
          let p : a ≡ record { index = k; section = s } = ground arith in
          omega (arith, ap (λ (x : Indexed). x.index) p)
      | inr e ↦
          let q : find_match key consumed (enumerate (k + 1) ss) ≡ some a = rw e at h in
          omega (arith, index-find_match key consumed (k + 1) ss q)
    ]

-- A match takes one section out of those that are left.
additions-find_match :
    (key : Option SectionKey) (consumed : List ℕ) (k : ℕ) (ss : List Section) {a : Indexed}
    → find_match key consumed (enumerate k ss) ≡ some a
    → length (additions consumed (enumerate k ss))
      ≡ suc (length (additions (a.index ∷ consumed) (enumerate k ss)))
unfolding find_match additions
additions-find_match key consumed k [] h = cc
additions-find_match key consumed k (s ∷ ss) {a = a} h =
    elim (Bool-cases (is_match key consumed (record { index = k; section = s }))) [
      | inl e ↦
          let p : a ≡ record { index = k; section = s } = ground arith in
          ground (
            arith,
            ap (λ (x : Indexed). x.index) p,
            additions-unchanged (k + 1) k consumed ss (omega arith),
          )
      | inr e ↦
          let q : find_match key consumed (enumerate (k + 1) ss) ≡ some a = rw e at h in
          ground (
            arith,
            index-find_match key consumed (k + 1) ss q,
            additions-find_match key consumed (k + 1) ss q,
          )
    ]

module _ (base_text amended_text : Text) (amended : List Section) where
  abbrev left : List ℕ → ℕ
  left consumed = length (additions consumed (enumerate 0 amended))

  count_pair_change :
      (s a : Section) → count_if is_removed (pair_change base_text amended_text s a) ≡ 0
  count_pair_change s a = ground arith

  count_pair_change_added :
      (s a : Section) → count_if is_added (pair_change base_text amended_text s a) ≡ 0
  count_pair_change_added s a = ground arith

  -- What a turn does to the removals found and the sections left.
  account_with :
      (st : Alignment) (s : Section)
      → let st' =
          align_with base_text amended_text
            (enumerate 0 amended)
            st
            s
            (find_match s.key st.consumed (enumerate 0 amended)) in
        (count_if is_removed st'.changes + left st.consumed
          ≡ suc (count_if is_removed st.changes + left st'.consumed))
        × (count_if is_added st'.changes ≡ count_if is_added st.changes)
  account_with st s = elim (Option-cases (find_match s.key st.consumed (enumerate 0 amended))) [
    | inl e ↦ rw e (
      omega (arith, count_if-append is_removed st.changes (removal s ∷ [])),
      omega (arith, count_if-append is_added st.changes (removal s ∷ [])),
    )
    | inr (a, e) ↦ rw e (
      omega (
        arith,
        count_if-append is_removed st.changes (pair_change base_text amended_text s a.section),
        count_pair_change s a.section,
        additions-find_match s.key st.consumed 0 amended e,
      ),
      omega (
        arith,
        count_if-append is_added st.changes (pair_change base_text amended_text s a.section),
        count_pair_change_added s a.section,
      ),
    )
  ]

  account_loop :
      (st : Alignment) (base : List Section)
      → let st' = align_loop base_text amended_text (enumerate 0 amended) st base in
        (count_if is_removed st'.changes + left st.consumed
          ≡ length base + (count_if is_removed st.changes + left st'.consumed))
        × (count_if is_added st'.changes ≡ count_if is_added st.changes)
  unfolding align_loop
  account_loop st [] = (omega arith, refl)
  account_loop st (s ∷ base) =
      let step = account_with st s in
      let ih =
        account_loop
          (align_with base_text amended_text (enumerate 0 amended) st s
            (find_match s.key st.consumed (enumerate 0 amended)))
          base in
      (omega (arith, step, ih), ih.1 ∙ step.1)

all_left : (k : ℕ) (ss : List Section) → length (additions [] (enumerate k ss)) ≡ length ss
unfolding additions
all_left k [] = refl
all_left k (s ∷ ss) = ap suc (all_left (k + 1) ss)

align_accounts :
    (base_text amended_text : Text) (base amended : List Section)
    → count_if is_removed (align base_text amended_text base amended) + length amended
      ≡ count_if is_added (align base_text amended_text base amended) + length base
unfolding align
align_accounts base_text amended_text base amended =
    let st =
      align_loop base_text amended_text (enumerate 0 amended)
        (record { changes = []; consumed = [] }) base in
    let rest = additions st.consumed (enumerate 0 amended) in
    omega (
      arith,
      account_loop base_text amended_text amended (record { changes = []; consumed = [] }) base,
      count_if-append is_removed st.changes rest,
      count_if-append is_added st.changes rest,
      count_added-additions st.consumed (enumerate 0 amended),
      all_left 0 amended,
    )

-- The removals and the sections of the amended text together are as many as the additions and the
-- sections of the base text together.
pub detect_changes_accounts :
    (u : Unicode) (base_text amended_text : Text)
    → count_if is_removed (detect_changes u base_text amended_text)
        + length (sections u amended_text)
      ≡ count_if is_added (detect_changes u base_text amended_text) + length (sections u base_text)
unfolding detect_changes
detect_changes_accounts u base_text amended_text =
    align_accounts base_text amended_text (sections u base_text) (sections u amended_text)
