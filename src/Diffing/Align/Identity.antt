-- ===== src/Diffing/Align/Identity.antt =====
-- A version compared with itself has no changes.
use contract_change_intel.Prelude.{
  ℕ, suc, ◌+◌, ◌≤◌, Text, List, [], ◌∷◌, ◌++◌, Option, none, some, true, ◌≡◌, refl, arith, length,
  ltb, length-append, text_eq_refl, sym, ◌∙◌,
}
use std.Path.{subst}
use mathlib.Core.List.{append_assoc}
use contract_change_intel.Diffing.Keys.{Unicode, SectionKey, clause, title, opt_key_eq}
use contract_change_intel.Diffing.Sections.{Section, sections}
use contract_change_intel.Diffing.Align.{
  Alignment, enumerate, is_consumed, find_match, align_loop, align_with, additions, align,
  detect_changes, section_text,
}

opt_key_eq_refl : (k : Option SectionKey) → opt_key_eq k k ≡ true
opt_key_eq_refl none = refl
opt_key_eq_refl (some (clause a)) = text_eq_refl a
opt_key_eq_refl (some (title a)) = text_eq_refl a

-- The consumed indices are those below `n`.
abbrev UpTo : ℕ → List ℕ → Type 0
UpTo n consumed = (i : ℕ) → is_consumed consumed i ≡ ltb i n

UpTo-suc : (n : ℕ) (consumed : List ℕ) → UpTo n consumed → UpTo (suc n) (n ∷ consumed)
UpTo-suc n consumed h i = ground (arith, h i)

find_match-next :
    (k n : ℕ) (before : List Section) (s : Section) (after : List Section) (consumed : List ℕ)
    → k + length before ≡ n
    → UpTo n consumed
    → find_match s.key consumed (enumerate k (before ++ s ∷ after))
      ≡ some (record { index = n; section = s })
unfolding find_match
find_match-next k n [] s after consumed e h = ground (arith, opt_key_eq_refl s.key, h k)
find_match-next k n (x ∷ before) s after consumed e h =
    ground (arith, h k, find_match-next (k + 1) n before s after consumed (omega arith) h)

additions-none :
    (k n : ℕ) (ss : List Section) (consumed : List ℕ)
    → k + length ss ≤ n
    → UpTo n consumed
    → additions consumed (enumerate k ss) ≡ []
unfolding additions
additions-none k n [] consumed e h = refl
additions-none k n (s ∷ ss) consumed e h =
    ground (arith, h k, additions-none (k + 1) n ss consumed (omega arith) h)

-- One turn on a section that stands in both versions at the same place.
align_with-same :
    (text : Text) (n : ℕ) (all before : List Section) (s : Section) (after : List Section)
    (consumed : List ℕ)
    → all ≡ before ++ s ∷ after
    → length before ≡ n
    → UpTo n consumed
    → align_with text text
        (enumerate 0 all)
        (record { changes = []; consumed = consumed })
        s
        (find_match s.key consumed (enumerate 0 all))
      ≡ record { changes = []; consumed = n ∷ consumed }
align_with-same text n all before s after consumed w e h =
    rw (w, find_match-next 0 n before s after consumed (omega arith) h)
      (rw (text_eq_refl (section_text text s)))

-- What the loop over the sections leaves when all of them are matched to themselves.
abbrev AllMatched : ℕ → Alignment → Type 0
AllMatched n st = (st.changes ≡ []) × UpTo n st.consumed

-- The loop over the rest of the sections, with those before it matched to themselves.
align_loop-same :
    (text : Text) (n m : ℕ) (all before after : List Section) (consumed : List ℕ)
    → all ≡ before ++ after
    → length before ≡ n
    → n + length after ≡ m
    → UpTo n consumed
    → AllMatched m (
        align_loop text text (enumerate 0 all) (record { changes = []; consumed = consumed }) after)
unfolding align_loop
align_loop-same text n m all before [] consumed w e z h =
    (refl, let p : n ≡ m = omega arith in rw p at h)
align_loop-same text n m all before (s ∷ after) consumed w e z h =
    subst (λ st. AllMatched m (align_loop text text (enumerate 0 all) st after))
      (sym (align_with-same text n all before s after consumed w e h))
      (align_loop-same text (suc n) m all (before ++ s ∷ []) after (n ∷ consumed)
        (w ∙ sym (append_assoc before (s ∷ []) after))
        (omega (arith, length-append {0} before (s ∷ []))) (omega arith) (UpTo-suc n consumed h))

align-same : (text : Text) (ss : List Section) → align text text ss ss ≡ []
unfolding align
align-same text ss =
    let (none_changed, all_consumed) =
      align_loop-same text 0 (length ss) ss [] ss [] refl refl (omega arith) (λ i. ground arith) in
    rw (none_changed, additions-none 0 (length ss) ss _ (omega arith) all_consumed)

-- A text compared with itself has no changes.
pub detect_changes-same : (u : Unicode) (text : Text) → detect_changes u text text ≡ []
unfolding detect_changes
detect_changes-same u text = align-same text (sections u text)
