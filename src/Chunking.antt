-- ===== src/Chunking.antt =====
-- app/services/chunking.py: chunks by clause, with windows for long clauses and headless text.
-- The window size and the overlap, constants of the source, are parameters of the loop.
pub mod Windows
pub mod Clauses
pub mod Chunks
use contract_change_intel.Prelude.{
  ℕ, zero, suc, ◌+◌, ◌-◌, ◌/◌, max, min, Text, List, [], ◌∷◌, ◌++◌, Option, none, some, Bool, true,
  false, ◌||◌, ◌&&◌, ltb, leb, ◌==◌, length, get_elem?, drop, slice, select, exists, if◌then◌else◌,
}
use contract_change_intel.Parsing.{BlockKind, ParsedBlock, ParsedDocument, heading, paragraph}
use contract_change_intel.Repositories.DocumentChunks.{Chunk}

abbrev pub max_chunk_chars : ℕ
max_chunk_chars = 8000

abbrev pub overlap_chars : ℕ
overlap_chars = 200

-- [start, stop)
pub record Window : Type 0 where
  pub start : ℕ
  pub stop : ℕ

-- `str.isspace` of one character, which is also `\s` of a pattern on text.
unfoldable pub is_space : ℕ → Bool
is_space c =
    (leb 9 c && leb c 13)
    || (leb 28 c && leb c 32)
    || c == 0x85
    || c == 0xa0
    || c == 0x1680
    || (leb 0x2000 c && leb c 0x200a)
    || c == 0x2028
    || c == 0x2029
    || c == 0x202f
    || c == 0x205f
    || c == 0x3000

abbrev pub is_char : ℕ → Option ℕ → Bool
is_char c none = false
is_char c (some d) = d == c

-- `text.rfind(char, floor, limit)`, with `none` for -1.
unfoldable pub rfind : ℕ → Text → ℕ → ℕ → Option ℕ
rfind c text floor zero = none
rfind c text floor (suc i) =
    let rest = rfind c text floor i in
    if ltb i floor then none else if is_char c (get_elem? text i) then some i else rest

-- `max` of two results of `rfind`.
abbrev pub max_found : Option ℕ → Option ℕ → Option ℕ
max_found none b = b
max_found (some i) none = some i
max_found (some i) (some j) = some (max i j)

abbrev pub cut_or : Option ℕ → ℕ → ℕ → ℕ
cut_or none floor limit = limit
cut_or (some cut) floor limit = if ltb floor cut then cut else limit

unfoldable pub snap_backward : Text → ℕ → ℕ → ℕ
unfolding rfind
snap_backward text limit floor =
    cut_or (max_found (rfind 32 text floor limit) (rfind 10 text floor limit)) floor limit

abbrev pub plus_one : Option ℕ → Option ℕ
plus_one none = none
plus_one (some n) = some (n + 1)

-- How many characters stand before the first that is no space.
abbrev pub spaces_before : Text → Option ℕ
spaces_before [] = none
spaces_before (c ∷ text) =
    let rest = spaces_before text in if is_space c then plus_one rest else some 0

-- `pos + match.start() if match else len(text)`.
abbrev pub match_or : Option ℕ → Text → ℕ → ℕ
match_or none text pos = length text
match_or (some n) text pos = pos + n

unfoldable pub snap_forward : Text → ℕ → ℕ
snap_forward text pos = match_or (spaces_before (drop pos text)) text pos

-- `max(stops) if stops else default`.
abbrev pub max_or : List ℕ → ℕ → ℕ
max_or [] default = default
max_or (b ∷ []) default = b
max_or (b ∷ c ∷ bs) default = max b (max_or (c ∷ bs) default)

module _ (max_chars overlap : ℕ) where
  -- The end of the window that begins at `pos`, where the rest is longer than a window.
  unfoldable pub window_stop : Text → List ℕ → ℕ → ℕ
  unfolding snap_backward
  window_stop text bounds pos =
      max_or
        (select
          (λ bound.
            ltb pos bound && leb bound (pos + max_chars) && leb (max_chars / 2) (bound - pos))
          bounds)
        (snap_backward text (pos + max_chars) pos)

  -- Where the next window begins.
  unfoldable pub next_pos : Text → ℕ → ℕ → ℕ
  unfolding snap_forward
  next_pos text pos stop =
      max (min (snap_forward text (max (stop - overlap) (pos + 1))) stop) (pos + 1)

  -- The `while pos < end` loop, on fuel.
  unfoldable pub split_loop : ℕ → Text → ℕ → List ℕ → ℕ → List Window
  unfolding window_stop next_pos
  split_loop zero text end bounds pos = []
  split_loop (suc fuel) text end bounds pos =
      let stop = window_stop text bounds pos in
      let rest = split_loop fuel text end bounds (next_pos text pos stop) in
      if ltb pos end
      then (if leb (end - pos) max_chars
          then record { start = pos; stop = end } ∷ []
          else record { start = pos; stop = stop } ∷ rest)
      else []

-- Each turn moves on by one character or more, so `end - start` turns are enough.
unfoldable pub split_range : Text → ℕ → ℕ → List ℕ → List Window
unfolding split_loop
split_range text start end bounds =
    split_loop max_chunk_chars overlap_chars (end - start) text end bounds start

abbrev pub is_heading : BlockKind → Bool
is_heading heading = true
is_heading paragraph = false

-- The loop of `_clause_spans`: `start` is None between clauses.
unfoldable pub clause_loop : Option ℕ → ℕ → List ParsedBlock → List Window
clause_loop none end [] = []
clause_loop (some start) end [] = record { start = start; stop = end } ∷ []
clause_loop none end (b ∷ blocks) = clause_loop (some b.start) b.end blocks
clause_loop (some start) end (b ∷ blocks) =
    let same = clause_loop (some start) b.end blocks in
    let new = clause_loop (some b.start) b.end blocks in
    if is_heading b.kind then record { start = start; stop = end } ∷ new else same

unfoldable pub clause_spans : List ParsedBlock → List Window
unfolding clause_loop
clause_spans blocks = clause_loop none 0 blocks

unfoldable pub make_chunks : Text → List Window → List Chunk
make_chunks text [] = []
make_chunks text (w ∷ windows) =
    record { text = slice text w.start w.stop; char_start = w.start; char_end = w.stop }
    ∷ make_chunks text windows

-- The ends of the blocks that lie in a clause.
abbrev pub block_ends : Window → List ParsedBlock → List ℕ
block_ends w [] = []
block_ends w (b ∷ blocks) =
    let rest = block_ends w blocks in
    if leb w.start b.start && leb b.end w.stop then b.end ∷ rest else rest

unfoldable pub chunk_clauses : ParsedDocument → List Window → List Chunk
unfolding make_chunks split_range
chunk_clauses doc [] = []
chunk_clauses doc (w ∷ spans) =
    make_chunks doc.text (split_range doc.text w.start w.stop (block_ends w doc.blocks))
    ++ chunk_clauses doc spans

abbrev pub is_empty {ℓ} : {A : Type ℓ} → List A → Bool
is_empty [] = true
is_empty (x ∷ xs) = false

unfoldable pub chunk_document : ParsedDocument → List Chunk
unfolding chunk_clauses clause_spans make_chunks split_range
chunk_document doc =
    if is_empty doc.text || is_empty doc.blocks
    then []
    else if exists (λ (b : ParsedBlock). is_heading b.kind) doc.blocks
    then chunk_clauses doc (clause_spans doc.blocks)
    else make_chunks doc.text (split_range doc.text 0 (length doc.text) [])
