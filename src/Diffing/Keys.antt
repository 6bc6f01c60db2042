-- ===== src/Diffing/Keys.antt =====
-- `_clause_key` and `_clause_ref`: the alignment key of a paragraph's first line. The Unicode
-- character database is a parameter. The pattern's alternatives are deterministic, since no digit
-- is a space, a dot or a parenthesis, so each is matched greedily with no way back.
use contract_change_intel.Prelude.{
  ℕ, zero, suc, ◌+◌, ◌*◌, Text, codes, List, [], ◌∷◌, ◌++◌, map, Option, none, some, Bool, true,
  false, ◌||◌, ◌&&◌, ltb, leb, ◌==◌, if◌then◌else◌, exists, length, text_eq,
}
use mathlib.Core.List.{reverse}
use contract_change_intel.Chunking.{is_space}

-- What `re`, `int` and `str` take from the Unicode character database.
pub record Unicode : Type 0 where
  -- `\d`
  pub is_digit : ℕ → Bool
  -- the value that `int` gives a digit
  pub digit : ℕ → ℕ
  -- a letter of the pattern and a character are the same but for case (re.IGNORECASE)
  pub same_letter : ℕ → ℕ → Bool
  -- `str.isalpha` of one character, `str.isupper`, `str.casefold`, and the digits of `str(int)`
  pub is_alpha : ℕ → Bool
  pub is_upper : Text → Bool
  pub casefold : Text → Text
  pub decimal : ℕ → Text

-- A tuple of numbers, or the text of a heading.
pub data SectionKey : Type 0 where
  clause : List ℕ → SectionKey
  title : Text → SectionKey

abbrev pub key_eq : SectionKey → SectionKey → Bool
key_eq (clause a) (clause b) = text_eq a b
key_eq (title a) (title b) = text_eq a b
key_eq _ _ = false

abbrev pub opt_key_eq : Option SectionKey → Option SectionKey → Bool
opt_key_eq none none = true
opt_key_eq (some a) (some b) = key_eq a b
opt_key_eq _ _ = false

abbrev pub max_heading_chars : ℕ
max_heading_chars = 60

abbrev pub dot : ℕ
dot = 46

abbrev pub paren : ℕ
paren = 41

-- The longest prefix whose characters pass a test, and the rest.
abbrev pub span_while : (ℕ → Bool) → Text → Text × Text
span_while test [] = ([], [])
span_while test (c ∷ text) =
    let rest = span_while test text in if test c then (c ∷ rest.0, rest.1) else ([], c ∷ text)

abbrev pub lstrip : Text → Text
lstrip text = (span_while is_space text).1

abbrev pub strip : Text → Text
strip text = reverse (lstrip (reverse (lstrip text)))

abbrev pub head_is : (ℕ → Bool) → Text → Bool
head_is test [] = false
head_is test (c ∷ text) = test c

-- `\s+` and then a character that passes a test.
abbrev pub gap_then : (ℕ → Bool) → Text → Bool
gap_then test text = head_is is_space text && head_is test (lstrip text)

abbrev pub not_space : ℕ → Bool
not_space c = if is_space c then false else true

abbrev pub is_capital : ℕ → Bool
is_capital c = leb 65 c && leb c 90

abbrev pub is_stop : ℕ → Bool
is_stop c = c == dot || c == paren

-- `[.)]?`
abbrev pub skip_stop : Text → Text
skip_stop [] = []
skip_stop (c ∷ text) = if is_stop c then text else c ∷ text

-- `[.)]`
abbrev pub after_stop : Text → Option Text
after_stop [] = none
after_stop (c ∷ text) = if is_stop c then some text else none

-- `text.split()`, with the word that is being read, reversed.
abbrev pub word_done : Text → List Text → List Text
word_done [] words = words
word_done (c ∷ w) words = reverse (c ∷ w) ∷ words

abbrev pub split_from : Text → Text → List Text
split_from w [] = word_done w []
split_from w (c ∷ text) =
    if is_space c then word_done w (split_from [] text) else split_from (c ∷ w) text

abbrev pub join : Text → List Text → Text
join sep [] = []
join sep (w ∷ []) = w
join sep (w ∷ v ∷ ws) = w ++ (sep ++ join sep (v ∷ ws))

abbrev pub not_empty : List Text → Bool
not_empty [] = false
not_empty (p ∷ ps) = true

abbrev pub opt_gap : Option Text → Bool
opt_gap none = false
opt_gap (some text) = gap_then not_space text

-- `[.)]?\s+\S` behind a number's parts, of which `strict` asks for two or more.
abbrev pub number_from : Bool → Text → List Text × Text → Option (List Text)
number_from strict [] tail = none
number_from strict (d ∷ ds) (parts, rest) =
    if gap_then not_space (skip_stop rest) && (if strict then not_empty parts else true)
    then some ((d ∷ ds) ∷ parts)
    else none

module _ (u : Unicode) where
  abbrev pub digits : Text → Text × Text
  digits text = span_while u.is_digit text

  -- `int(part)`
  abbrev pub int_from : ℕ → Text → ℕ
  int_from n [] = n
  int_from n (c ∷ part) = int_from (n * 10 + u.digit c) part

  -- A part of a number that is not empty, before its tail.
  abbrev pub part_before : Text → List Text × Text → Text → List Text × Text
  part_before [] tail text = ([], text)
  part_before (d ∷ ds) tail text = ((d ∷ ds) ∷ tail.0, tail.1)

  -- `(?:\.\d+)*`: the parts behind the dots, and the rest; on fuel.
  unfoldable pub dotted_tail : ℕ → Text → List Text × Text
  dotted_tail zero text = ([], text)
  dotted_tail (suc n) [] = ([], [])
  dotted_tail (suc n) (c ∷ text) =
      let tail = part_before (digits text).0 (dotted_tail n (digits text).1) (c ∷ text) in
      if c == dot then tail else ([], c ∷ text)

  -- A pattern's letters at the head of a text, case ignored; the rest.
  abbrev pub after_letters : Text → Text → Option Text
  after_letters [] text = some text
  after_letters (p ∷ ps) [] = none
  after_letters (p ∷ ps) (c ∷ text) = if u.same_letter p c then after_letters ps text else none

  abbrev pub first_of_two : Option Text → Option Text → Option Text
  first_of_two none b = b
  first_of_two (some a) b = some a

  -- `(?:article|section|clause)`
  abbrev pub after_prefix : Text → Option Text
  after_prefix text =
      first_of_two (after_letters (codes "article") text)
        (first_of_two (after_letters (codes "section") text) (after_letters (codes "clause") text))

  -- `\d+(?:\.\d+)*` or, if `strict`, `\d+(?:\.\d+)+`, and then `[.)]?\s+\S`: the number's parts.
  abbrev pub number_parts : Bool → Text → Option (List Text)
  number_parts strict text =
      number_from strict (digits text).0 (dotted_tail (length text) (digits text).1)

  -- `\s+` and a number.
  abbrev pub prefixed : Option Text → Option (List Text)
  prefixed none = none
  prefixed (some text) = if head_is is_space text then number_parts false (lstrip text) else none

  abbrev pub one_part : Text → Bool → Option (List Text)
  one_part [] matches = none
  one_part (d ∷ ds) matches = if matches then some ((d ∷ ds) ∷ []) else none

  -- `\d+[.)]\s+\S`
  abbrev pub numbered : Text → Option (List Text)
  numbered text = one_part (digits text).0 (opt_gap (after_stop (digits text).1))

  -- `\d+\s+[A-Z]`
  abbrev pub heading : Text → Option (List Text)
  heading text = one_part (digits text).0 (gap_then is_capital (digits text).1)

  abbrev pub or_else : Option (List Text) → Option (List Text) → Option (List Text)
  or_else none b = b
  or_else (some a) b = some a

  -- The parts of the number that `_CLAUSE_NUMBER_PATTERN` finds at the head of a line.
  unfoldable pub clause_number : Text → Option (List Text)
  unfolding dotted_tail
  clause_number line =
      or_else (prefixed (after_prefix line))
        (or_else (number_parts true line) (or_else (numbered line) (heading line)))

  abbrev pub heading_key : Text → Option SectionKey
  heading_key stripped =
      if ltb 0 (length stripped)
        && leb (length stripped) max_heading_chars
        && u.is_upper stripped
        && exists u.is_alpha stripped
      then some (title (join (32 ∷ []) (split_from [] (u.casefold stripped))))
      else none

  abbrev pub key_or_heading : Option (List Text) → Text → Option SectionKey
  key_or_heading (some parts) line = some (clause (map (int_from 0) parts))
  key_or_heading none line = heading_key (strip line)

  unfoldable pub clause_key : Text → Option SectionKey
  unfolding clause_number is_space
  clause_key line = key_or_heading (clause_number line) line

  unfoldable pub clause_ref : Option SectionKey → Option Text
  clause_ref none = none
  clause_ref (some (clause parts)) = some (join (dot ∷ []) (map u.decimal parts))
  clause_ref (some (title text)) = some text
