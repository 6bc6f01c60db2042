-- ===== src/Parsing/Visible.antt =====
-- The characters of a text that are no space, through strips and splits.
use contract_change_intel.Prelude.{
  ℕ, zero, suc, ◌≤◌, Text, List, [], ◌∷◌, ◌++◌, none, some, Bool, true, false, ◌≡◌, refl, sym, ap,
  ◌∙◌, arith, ◌==◌, ◌&&◌, if◌then◌else◌, length, select, select-append, inl, inr, Bool-cases,
  Option-cases,
}
use mathlib.Core.List.{reverse, reverse-cons, reverse-reverse, append_assoc, append-nil}
use std.Path.{subst}
use contract_change_intel.Parsing.Formats.{is_line_break, lines_from, past_blank, split_blank}
use contract_change_intel.Chunking.{is_space, is_empty}
use contract_change_intel.Diffing.Keys.{strip, lstrip, not_space}

-- The characters that are no space.
abbrev pub visible : Text → Text
visible text = select not_space text

abbrev pub visible_of : List Text → Text
visible_of [] = []
visible_of (text ∷ texts) = visible text ++ visible_of texts

visible-reverse : (text : Text) → visible (reverse text) ≡ reverse (visible text)
visible-reverse [] = refl
visible-reverse (c ∷ text) =
    ap visible (reverse-cons c text)
    ∙ select-append not_space (reverse text) (c ∷ [])
    ∙ ap (λ r. r ++ visible (c ∷ [])) (visible-reverse text)
    ∙ (elim (Bool-cases (is_space c)) [
      | inl e ↦ rw e (append-nil (reverse (visible text)))
      | inr e ↦ rw e (sym (reverse-cons c (visible text)))
    ])

visible-lstrip : (text : Text) → visible (lstrip text) ≡ visible text
visible-lstrip [] = refl
visible-lstrip (c ∷ text) = ground (arith, visible-lstrip text)

pub visible-strip : (text : Text) → visible (strip text) ≡ visible text
visible-strip text =
    visible-reverse (lstrip (reverse (lstrip text)))
    ∙ ap reverse (visible-lstrip (reverse (lstrip text)) ∙ visible-reverse (lstrip text))
    ∙ reverse-reverse (visible (lstrip text))
    ∙ visible-lstrip text

visible-is_empty : (text : Text) → is_empty text ≡ true → visible text ≡ []
visible-is_empty [] h = refl
visible-is_empty (c ∷ text) h = absurd (ground arith)

pub visible-blank : (text : Text) → is_empty (strip text) ≡ true → visible text ≡ []
visible-blank text h = sym (visible-strip text) ∙ visible-is_empty (strip text) h

line_break-is_space : (c : ℕ) → is_line_break c ≡ true → is_space c ≡ true
unfolding is_space
line_break-is_space c h = ground arith

visible-space : (c : ℕ) (text : Text) → is_space c ≡ true → visible (c ∷ text) ≡ visible text
visible-space c text e = rw e refl

line_feed-is_space : (c : ℕ) → (c == 10) ≡ true → is_space c ≡ true
unfolding is_space
line_feed-is_space c h = ground arith

-- A character moves from the text to the part that is read.
visible-move :
    (c : ℕ) (part text : Text)
    → visible (reverse (c ∷ part)) ++ visible text ≡ visible (reverse part) ++ visible (c ∷ text)
visible-move c part text =
    ap (λ r. visible r ++ visible text) (reverse-cons c part)
    ∙ ap (λ r. r ++ visible text) (select-append not_space (reverse part) (c ∷ []))
    ∙ append_assoc (visible (reverse part)) (visible (c ∷ [])) (visible text)
    ∙ ap (λ r. visible (reverse part) ++ r) (sym (select-append not_space (c ∷ []) text))

pub lines_from-visible :
    (after_cr : Bool) (line text : Text)
    → visible_of (lines_from after_cr line text) ≡ visible (reverse line) ++ visible text
unfolding lines_from
lines_from-visible after_cr [] [] = refl
lines_from-visible after_cr (d ∷ line) [] = refl
lines_from-visible after_cr line (c ∷ text) = elim (Bool-cases (after_cr && c == 10)) [
  | inl e ↦
      rw (e, visible-space c text (line_feed-is_space c (ground (arith, e))))
        (lines_from-visible false line text)
  | inr e ↦ elim (Bool-cases (is_line_break c)) [
    | inl f ↦
        rw (e, f, visible-space c text (line_break-is_space c f))
          (ap (λ r. visible (reverse line) ++ r) (lines_from-visible (c == 13) [] text))
    | inr f ↦ rw (e, f) (lines_from-visible false (c ∷ line) text ∙ visible-move c line text)
  ]
]

past_blank-visible :
    (text rest : Text)
    → past_blank text ≡ some rest
    → (visible rest ≡ visible text) × (length rest ≤ length text)
unfolding past_blank
past_blank-visible [] rest h = absurd (ground arith)
past_blank-visible (c ∷ text) rest h = elim (Bool-cases (is_space c)) [
  | inl e ↦ elim (Option-cases (past_blank text)) [
    | inl z ↦
        let own : (if c == 10 then some text else none) ≡ some rest = rw (e, z) at h in
        elim (Bool-cases (c == 10)) [
          | inl t ↦
              let same : some text ≡ some rest = rw t at own in
              let text_rest : text ≡ rest = cc in
              (
                ap visible (sym text_rest) ∙ sym (visible-space c text e),
                subst (λ r. length r ≤ suc (length text)) text_rest (omega arith),
              )
          | inr t ↦ let never : none ≡ some rest = rw t at own in absurd (ground arith)
        ]
    | inr (r, later) ↦
        let same : some r ≡ some rest = rw (e, later) at h in
        let (kept, shorter) = past_blank-visible text rest (later ∙ same) in
        (kept ∙ sym (visible-space c text e), omega (arith, shorter))
  ]
  | inr e ↦ let never : none ≡ some rest = rw e at h in absurd (ground arith)
]

pub split_blank-visible :
    (fuel : ℕ) (part text : Text)
    → length text ≤ fuel
    → visible_of (split_blank fuel part text) ≡ visible (reverse part) ++ visible text
unfolding split_blank
split_blank-visible fuel part [] h = refl
split_blank-visible zero part (c ∷ text) h = absurd (omega (arith, h))
split_blank-visible (suc fuel) part (c ∷ text) h =
    let moved =
      split_blank-visible fuel (c ∷ part) text (omega (arith, h)) ∙ visible-move c part text in
    elim (Bool-cases (c == 10)) [
      | inl e ↦ elim (Option-cases (past_blank text)) [
        | inl z ↦ rw (e, z) moved
        | inr (rest, z) ↦
            let (kept, shorter) = past_blank-visible text rest z in
            rw (e, z, visible-space c text (line_feed-is_space c e), sym kept)
              (ap (λ r. visible (reverse part) ++ r)
                (split_blank-visible fuel [] rest (omega (arith, h, shorter))))
      ]
      | inr e ↦ rw e moved
    ]
