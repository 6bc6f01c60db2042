-- ===== src/Parsing.antt =====
-- app/services/parsing.py: `_build`, which joins block texts and computes every offset that a
-- citation uses. What the parsers read from a PDF or DOCX file are its entries.
pub mod Offsets
pub mod Formats
pub mod Visible
pub mod Kept
use contract_change_intel.Prelude.{
  ℕ, ◌+◌, Text, List, [], ◌∷◌, ◌++◌, Option, none, some, Bool, true, false, ◌==◌, length,
  if◌then◌else◌,
}
use contract_change_intel.Store.Rows.{PageSpan}

pub data BlockKind : Type 0 where
  heading paragraph : BlockKind

pub record ParsedBlock : Type 0 where
  pub kind : BlockKind
  pub text : Text
  pub start : ℕ
  pub end : ℕ
  pub page : Option ℕ

pub record ParsedDocument : Type 0 where
  pub text : Text
  pub blocks : List ParsedBlock
  pub page_map : List PageSpan

-- (kind, text, page)
pub record Entry : Type 0 where
  pub kind : BlockKind
  pub text : Text
  pub page : Option ℕ

-- The last entry of the page map, whose `end` is not written yet.
pub record OpenPage : Type 0 where
  pub page : ℕ
  pub start : ℕ

-- The variables of the loop; `text` is the join of `parts`, and the page map is `pages` and then
-- the open page.
pub record Build : Type 0 where
  pub text : Text
  pub blocks : List ParsedBlock
  pub pages : List PageSpan
  pub current : Option OpenPage
  pub pos : ℕ

abbrev pub separator : Text
separator = 10 ∷ 10 ∷ []

-- `page_map[-1]["end"] = end`, if there is a last entry.
abbrev pub close_page : Option OpenPage → ℕ → List PageSpan
close_page none end = []
close_page (some p) end = record { page = p.page; start = p.start; end = end } ∷ []

abbrev pub is_current : Option OpenPage → ℕ → Bool
is_current none page = false
is_current (some p) page = p.page == page

-- The page bookkeeping of one turn, at the block's start.
abbrev pub turn_page : Build → Option ℕ → ℕ → List PageSpan × Option OpenPage
turn_page s none start = (s.pages, s.current)
turn_page s (some page) start =
    if is_current s.current page
    then (s.pages, s.current)
    else (s.pages ++ close_page s.current start, some (record { page = page; start = start }))

abbrev pub gap : List ParsedBlock → Text
gap [] = []
gap (b ∷ bs) = separator

unfoldable pub build_step : Build → Entry → Build
build_step s e =
    let sep = gap s.blocks in
    let start = s.pos + length sep in
    let end = start + length e.text in
    let (pages, current) = turn_page s e.page start in
    record {
      text = s.text ++ (sep ++ e.text);
      blocks =
          s.blocks
          ++ record { kind = e.kind; text = e.text; start = start; end = end; page = e.page } ∷ [];
      pages = pages;
      current = current;
      pos = end;
    }

unfoldable pub build_loop : Build → List Entry → Build
build_loop s [] = s
build_loop s (e ∷ entries) = build_loop (build_step s e) entries

abbrev pub build_start : Build
build_start = record { text = []; blocks = []; pages = []; current = none; pos = 0 }

unfoldable pub build : List Entry → ParsedDocument
unfolding build_loop build_step
build entries =
    let s = build_loop build_start entries in
    record { text = s.text; blocks = s.blocks; page_map = s.pages ++ close_page s.current s.pos }
