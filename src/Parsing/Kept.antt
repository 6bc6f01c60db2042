-- ===== src/Parsing/Kept.antt =====
-- What the parsers keep of a file's text: every character that is no space, in order.
use contract_change_intel.Prelude.{
  ℕ, ◌+◌, Text, codes, List, [], ◌∷◌, ◌++◌, map, Option, none, some, false, ◌≡◌, refl, sym, ap, ◌∙◌,
  arith, if◌then◌else◌, length, select-append, text_eq, inl, inr, Bool-cases,
}
use mathlib.Core.List.{append_assoc, append-nil}
use contract_change_intel.Parsing.{
  ParsedBlock, Entry, Build, ParsedDocument, build, build_loop, build_step, build_start, gap,
}
use contract_change_intel.Parsing.Formats.{
  DocxParagraph, Readers, split_blank, part_entries, docx_entries, line_entries, page_lines,
  page_entries, text_entries, build_from, parse, parse_pdf, parse_docx, parse_text,
}
use contract_change_intel.Chunking.{is_space, is_empty}
use contract_change_intel.Diffing.Keys.{Unicode, strip, not_space}
use contract_change_intel.Llm.Failure.{Outcome, returned, raised, other_error}
use contract_change_intel.Parsing.Visible.{
  visible, visible_of, visible-strip, visible-blank, lines_from-visible, split_blank-visible,
}

-- The entries' text.
abbrev pub entries_visible : List Entry → Text
entries_visible [] = []
entries_visible (e ∷ entries) = visible e.text ++ entries_visible entries

visible-gap : (blocks : List ParsedBlock) → visible (gap blocks) ≡ []
unfolding is_space
visible-gap [] = refl
visible-gap (b ∷ blocks) = refl

build_loop-visible :
    (s : Build) (entries : List Entry)
    → visible (build_loop s entries).text ≡ visible s.text ++ entries_visible entries
unfolding build_loop build_step
build_loop-visible s [] = sym (append-nil (visible s.text))
build_loop-visible s (e ∷ entries) =
    build_loop-visible (build_step s e) entries
    ∙ ap (λ r. r ++ entries_visible entries)
        (select-append not_space s.text (gap s.blocks ++ e.text)
          ∙ ap (λ r. visible s.text ++ r)
              (select-append not_space (gap s.blocks) e.text
                ∙ ap (λ r. r ++ visible e.text) (visible-gap s.blocks)))
    ∙ append_assoc (visible s.text) (visible e.text) (entries_visible entries)

build-visible : (entries : List Entry) → visible (build entries).text ≡ entries_visible entries
unfolding build
build-visible entries = build_loop-visible build_start entries

-- A page, a paragraph or a whole text, as the readers give it.
abbrev pub page_text : Option Text → Text
page_text none = []
page_text (some text) = text

abbrev pub pieces : {A : Type 0} → (A → List Text) → Outcome A → Outcome (List Text)
pieces shown (returned a) = returned (shown a)
pieces shown (raised e) = raised e

-- The text of a file, before it is parsed.
abbrev pub source_text : Readers → (Text → Text) → Text → Text → Outcome (List Text)
source_text readers repr mime_type content =
    if text_eq mime_type (codes "application/pdf")
    then pieces (map page_text) (readers.pdf_pages content)
    else if text_eq mime_type
        (codes "application/vnd.openxmlformats-officedocument.wordprocessingml.document")
    then pieces (map (λ (p : DocxParagraph). p.text)) (readers.docx_paragraphs content)
    else if text_eq mime_type (codes "text/plain")
    then pieces (λ (text : Text). text ∷ []) (readers.decode content)
    else raised (other_error (codes "no parser for media type " ++ repr mime_type))

-- The parsed text shows the pieces' characters, or both are the same error.
abbrev pub Keeps : Outcome (List Text) → Outcome ParsedDocument → Type 0
Keeps (returned texts) (returned doc) = visible doc.text ≡ visible_of texts
Keeps (returned texts) (raised e) = ⊥
Keeps (raised e) (returned doc) = ⊥
Keeps (raised e) (raised f) = e ≡ f

part_entries-visible : (parts : List Text) → entries_visible (part_entries parts) ≡ visible_of parts
unfolding part_entries
part_entries-visible [] = refl
part_entries-visible (part ∷ parts) = elim (Bool-cases (is_empty (strip part))) [
  | inl e ↦ rw (e, visible-blank part e) (part_entries-visible parts)
  | inr e ↦ rw (e, visible-strip part) (ap (λ r. visible part ++ r) (part_entries-visible parts))
]

docx_entries-visible :
    (ps : List DocxParagraph)
    → entries_visible (docx_entries ps) ≡ visible_of (map (λ (p : DocxParagraph). p.text) ps)
unfolding docx_entries
docx_entries-visible [] = refl
docx_entries-visible (p ∷ ps) = elim (Bool-cases (is_empty (strip p.text))) [
  | inl e ↦ rw (e, visible-blank p.text e) (docx_entries-visible ps)
  | inr e ↦ rw (e, visible-strip p.text) (ap (λ r. visible p.text ++ r) (docx_entries-visible ps))
]

module _ (u : Unicode) where
  line_entries-visible :
      (number : ℕ) (lines : List Text)
      → entries_visible (line_entries u number lines) ≡ visible_of lines
  unfolding line_entries
  line_entries-visible number [] = refl
  line_entries-visible number (line ∷ lines) = elim (Bool-cases (is_empty (strip line))) [
    | inl e ↦ rw (e, visible-blank line e) (line_entries-visible number lines)
    | inr e ↦
        rw (e, visible-strip line) (ap (λ r. visible line ++ r) (line_entries-visible number lines))
  ]

  entries_visible-append :
      (xs ys : List Entry) → entries_visible (xs ++ ys) ≡ entries_visible xs ++ entries_visible ys
  entries_visible-append [] ys = refl
  entries_visible-append (x ∷ xs) ys =
      ap (λ r. visible x.text ++ r) (entries_visible-append xs ys)
      ∙ sym (append_assoc (visible x.text) (entries_visible xs) (entries_visible ys))

page_lines-visible : (page : Option Text) → visible_of (page_lines page) ≡ visible (page_text page)
page_lines-visible none = refl
page_lines-visible (some text) = lines_from-visible false [] text

page_entries-visible :
    (u : Unicode) (number : ℕ) (pages : List (Option Text))
    → entries_visible (page_entries u number pages) ≡ visible_of (map page_text pages)
unfolding page_entries
page_entries-visible u number [] = refl
page_entries-visible u number (page ∷ pages) =
    entries_visible-append u (line_entries u number (page_lines page))
      (page_entries u (number + 1) pages)
    ∙ ap (λ r. r ++ entries_visible (page_entries u (number + 1) pages))
        (line_entries-visible u number (page_lines page) ∙ page_lines-visible page)
    ∙ ap (λ r. visible (page_text page) ++ r) (page_entries-visible u (number + 1) pages)

build_from-Keeps :
    {A : Type 0} (entries : A → List Entry) (shown : A → List Text) (o : Outcome A)
    → ((a : A) → entries_visible (entries a) ≡ visible_of (shown a))
    → Keeps (pieces shown o) (build_from entries o)
build_from-Keeps entries shown (returned a) h = build-visible (entries a) ∙ h a
build_from-Keeps entries shown (raised e) h = refl

text_entries-visible : (text : Text) → entries_visible (text_entries text) ≡ visible_of (text ∷ [])
text_entries-visible text =
    part_entries-visible (split_blank (length text) [] text)
    ∙ split_blank-visible (length text) [] text (omega arith)
    ∙ sym (append-nil (visible text))

-- A file is parsed if its reader reads it, and a file that it does not read, or that is of no known
-- type, fails with the reader's error or that of an unknown type; the parsed text shows each character that is no space of what
-- the reader read, in order and no other, whatever the format.
pub parse-Keeps :
    (readers : Readers) (u : Unicode) (repr : Text → Text) (mime_type content : Text)
    → Keeps (source_text readers repr mime_type content) (parse readers u repr mime_type content)
unfolding parse parse_pdf parse_docx parse_text
parse-Keeps readers u repr mime_type content =
    elim (Bool-cases (text_eq mime_type (codes "application/pdf"))) [
      | inl e ↦ rw e (
          build_from-Keeps (page_entries u 1) (map page_text) (readers.pdf_pages content)
            (page_entries-visible u 1))
      | inr e ↦
          elim (Bool-cases (
            text_eq mime_type
              (codes "application/vnd.openxmlformats-officedocument.wordprocessingml.document"))) [
                | inl f ↦
                    rw (e, f)
                      (build_from-Keeps docx_entries (map (λ (p : DocxParagraph). p.text))
                        (readers.docx_paragraphs content) docx_entries-visible)
                | inr f ↦ elim (Bool-cases (text_eq mime_type (codes "text/plain"))) [
                  | inl g ↦
                      rw (e, f, g)
                        (build_from-Keeps text_entries (λ (text : Text). text ∷ [])
                          (readers.decode content) text_entries-visible)
                  | inr g ↦ rw (e, f, g) refl
                ]
              ]
    ]
