-- ===== src/Parsing/Formats.antt =====
-- app/services/parsing.py: the parsers of the three formats, on what pdfplumber, python-docx and the
-- UTF-8 decoder read.
use contract_change_intel.Prelude.{
  ℕ, zero, suc, ◌+◌, Text, codes, List, [], ◌∷◌, ◌++◌, Option, none, some, Bool, true, false, ◌||◌,
  ◌&&◌, leb, ◌==◌, if◌then◌else◌, length, text_eq, starts_with,
}
use mathlib.Core.List.{reverse}
use contract_change_intel.Parsing.{BlockKind, heading, paragraph, Entry, ParsedDocument, build}
use contract_change_intel.Chunking.{is_space, is_empty}
use contract_change_intel.Diffing.Keys.{
  Unicode, strip, digits, number_parts, after_prefix, prefixed, opt_gap, dot,
}
use contract_change_intel.Llm.Failure.{Outcome, returned, raised, other_error}

-- A paragraph of python-docx, with the name of its style, if it has one.
pub record DocxParagraph : Type 0 where
  pub text : Text
  pub style : Option Text

-- pdfplumber's text of each page, python-docx's paragraphs, and `content.decode("utf-8")`.
pub record Readers : Type 0 where
  pub pdf_pages : Text → Outcome (List (Option Text))
  pub docx_paragraphs : Text → Outcome (List DocxParagraph)
  pub decode : Text → Outcome Text

-- A line break of `str.splitlines`.
abbrev pub is_line_break : ℕ → Bool
is_line_break c =
    (leb 10 c && leb c 13) || (leb 28 c && leb c 30) || c == 0x85 || c == 0x2028 || c == 0x2029

-- `text.splitlines()`, with the line that is being read, reversed; after a carriage return, a line
-- feed is part of the same break.
unfoldable pub lines_from : Bool → Text → Text → List Text
lines_from after_cr line [] = if is_empty line then [] else reverse line ∷ []
lines_from after_cr line (c ∷ text) =
    let same_break = lines_from false line text in
    let next_line = reverse line ∷ lines_from (c == 13) [] text in
    let same_line = lines_from false (c ∷ line) text in
    if after_cr && c == 10 then same_break else (if is_line_break c then next_line else same_line)

abbrev pub is_some {ℓ} : {A : Type ℓ} → Option A → Bool
is_some none = false
is_some (some a) = true

-- `\.`
abbrev pub after_dot : Text → Option Text
after_dot [] = none
after_dot (c ∷ text) = if c == dot then some text else none

-- `page.extract_text() or ""`
abbrev pub page_lines : Option Text → List Text
page_lines none = []
page_lines (some text) = lines_from false [] text

module _ (u : Unicode) where
  -- `\d+\.\s+\S`
  abbrev pub dotted_number : Text → Bool
  dotted_number text =
      if is_empty (digits u text).0 then false else opt_gap (after_dot (digits u text).1)

  -- `_HEADING_PATTERN.match(line)`
  unfoldable pub is_heading_line : Text → Bool
  is_heading_line line =
      is_some (prefixed u (after_prefix u line))
      || is_some (number_parts u true line)
      || dotted_number line

  abbrev pub line_kind : Text → BlockKind
  line_kind line = if is_heading_line line then heading else paragraph

  -- The inner loop of `parse_pdf`: the lines of one page.
  unfoldable pub line_entries : ℕ → List Text → List Entry
  unfolding is_heading_line
  line_entries number [] = []
  line_entries number (line ∷ lines) =
      let rest = line_entries number lines in
      if is_empty (strip line)
      then rest
      else record { kind = line_kind (strip line); text = strip line; page = some number } ∷ rest

  unfoldable pub page_entries : ℕ → List (Option Text) → List Entry
  unfolding line_entries lines_from
  page_entries number [] = []
  page_entries number (page ∷ pages) =
      line_entries number (page_lines page) ++ page_entries (number + 1) pages

abbrev pub heading_style : Option Text → Bool
heading_style none = false
heading_style (some style) =
    starts_with (codes "Heading") style || starts_with (codes "Title") style

unfoldable pub docx_entries : List DocxParagraph → List Entry
docx_entries [] = []
docx_entries (p ∷ ps) =
    let rest = docx_entries ps in
    if is_empty (strip p.text)
    then rest
    else record {
      kind = if heading_style p.style then heading else paragraph;
      text = strip p.text;
      page = none;
    }
      ∷ rest

-- The text behind the last line feed among the spaces at the head of a text, if there is one.
unfoldable pub past_blank : Text → Option Text
past_blank [] = none
past_blank (c ∷ text) =
    let later = past_blank text in
    if is_space c
    then (if is_some later then later else (if c == 10 then some text else none))
    else none

-- `re.split(r"\n\s*\n", text)` on fuel, with the part that is being read, reversed.
unfoldable pub split_blank : ℕ → Text → Text → List Text
unfolding past_blank
split_blank fuel part [] = reverse part ∷ []
split_blank zero part (c ∷ text) = reverse part ∷ []
split_blank (suc fuel) part (c ∷ text) =
    let more = split_blank fuel (c ∷ part) text in
    let cut = elim (past_blank text) as (λ _. List Text) [
      | none ↦ more
      | some rest ↦ reverse part ∷ split_blank fuel [] rest
    ] in
    if c == 10 then cut else more

unfoldable pub part_entries : List Text → List Entry
part_entries [] = []
part_entries (part ∷ parts) =
    let rest = part_entries parts in
    if is_empty (strip part)
    then rest
    else record { kind = paragraph; text = strip part; page = none } ∷ rest

abbrev pub build_from : {A : Type 0} → (A → List Entry) → Outcome A → Outcome ParsedDocument
build_from entries (returned a) = returned (build (entries a))
build_from entries (raised e) = raised e

abbrev pub text_entries : Text → List Entry
text_entries text = part_entries (split_blank (length text) [] text)

module _ (readers : Readers) (u : Unicode) where
  unfoldable pub parse_pdf : Text → Outcome ParsedDocument
  unfolding page_entries
  parse_pdf content = build_from (page_entries u 1) (readers.pdf_pages content)

  unfoldable pub parse_docx : Text → Outcome ParsedDocument
  unfolding docx_entries
  parse_docx content = build_from docx_entries (readers.docx_paragraphs content)

  unfoldable pub parse_text : Text → Outcome ParsedDocument
  unfolding split_blank part_entries
  parse_text content = build_from text_entries (readers.decode content)

  -- `repr` is Python's of a text, for the message.
  unfoldable pub parse : (Text → Text) → Text → Text → Outcome ParsedDocument
  unfolding parse_pdf parse_docx parse_text
  parse repr mime_type content =
      if text_eq mime_type (codes "application/pdf")
      then parse_pdf content
      else if text_eq mime_type
          (codes "application/vnd.openxmlformats-officedocument.wordprocessingml.document")
      then parse_docx content
      else if text_eq mime_type (codes "text/plain")
      then parse_text content
      else raised (other_error (codes "no parser for media type " ++ repr mime_type))
