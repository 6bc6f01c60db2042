-- ===== src/Diffing/Sections.antt =====
-- `_paragraphs` and `_sections`: the clause sections of one version, as spans into its text.
pub mod Preamble
use contract_change_intel.Prelude.{
  ℕ, zero, suc, ◌+◌, Text, List, [], ◌∷◌, Option, none, some, Bool, false, ltb, ◌==◌, ◌&&◌,
  if◌then◌else◌, length, drop, slice,
}
use contract_change_intel.Chunking.{is_empty}
use contract_change_intel.Diffing.Keys.{Unicode, SectionKey, clause_key, clause_ref, strip}

pub record Paragraph : Type 0 where
  pub start : ℕ
  pub end : ℕ
  pub text : Text

pub record Section : Type 0 where
  pub key : Option SectionKey
  pub clause_ref : Option Text
  pub char_start : ℕ
  pub char_end : ℕ

abbrev pub at_break : Text → Bool
at_break (c ∷ d ∷ text) = c == 10 && d == 10
at_break _ = false

-- Where the first "\n\n" stands, or the end of the text, counted from `n`.
unfoldable pub find_break : ℕ → Text → ℕ
find_break n [] = n
find_break n (c ∷ text) =
    let rest = find_break (n + 1) text in if at_break (c ∷ text) then n else rest

-- The `while pos < len(text)` loop, on fuel.
unfoldable pub paragraph_loop : ℕ → Text → ℕ → List Paragraph
unfolding find_break
paragraph_loop zero text pos = []
paragraph_loop (suc fuel) text pos =
    let end = find_break pos (drop pos text) in
    let rest = paragraph_loop fuel text (end + 2) in
    let here = slice text pos end in
    if ltb pos (length text)
    then (if is_empty (strip here)
        then rest
        else record { start = pos; end = end; text = here } ∷ rest)
    else []

-- Each turn moves on by two characters or more.
unfoldable pub paragraphs : Text → List Paragraph
unfolding paragraph_loop
paragraphs text = paragraph_loop (length text) text 0

-- `paragraph.split("\n", 1)[0]`
abbrev pub first_line : Text → Text
first_line [] = []
first_line (c ∷ text) = let rest = first_line text in if c == 10 then [] else c ∷ rest

module _ (u : Unicode) where
  abbrev pub section_of : Paragraph → Option SectionKey → Section
  section_of p key = record {
    key = key;
    clause_ref = clause_ref u key;
    char_start = p.start;
    char_end = p.end;
  }

  -- The paragraph starts a section: it has a key, or there is no section before it.
  abbrev pub place_paragraph :
      Option SectionKey → Section → Paragraph → (Section → List Section) → List Section
  place_paragraph none previous p rest = rest (record previous { char_end = p.end })
  place_paragraph (some key) previous p rest = previous ∷ rest (section_of p (some key))

  -- The loop of `_sections`; the argument before the paragraphs is the last section.
  unfoldable pub section_loop : Option Section → List Paragraph → List Section
  section_loop none [] = []
  section_loop (some last) [] = last ∷ []
  section_loop none (p ∷ ps) =
      section_loop (some (section_of p (clause_key u (first_line p.text)))) ps
  section_loop (some last) (p ∷ ps) =
      place_paragraph (clause_key u (first_line p.text)) last p (λ s. section_loop (some s) ps)

  unfoldable pub sections : Text → List Section
  unfolding section_loop paragraphs
  sections text = section_loop none (paragraphs text)
