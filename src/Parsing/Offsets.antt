-- ===== src/Parsing/Offsets.antt =====
-- Citation offsets: each block's text is the slice of the canonical text at its offsets, blocks
-- stand in order with a separator between them, and pages partition the text in order.
use contract_change_intel.Prelude.{
  ℕ, ◌+◌, ◌≤◌, Text, List, [], ◌∷◌, ◌++◌, Option, none, some, ◌≡◌, refl, arith, sym, ap, ◌∙◌, All,
  All-append, All-map_implies, length, length-append, slice, take, drop, ◌-◌, ◌⊎◌, inl, inr,
  Bool-cases,
}
use mathlib.Core.List.{append_assoc, append-nil}
use contract_change_intel.Store.Rows.{PageSpan}
use contract_change_intel.Parsing.{
  ParsedBlock, Entry, Build, build_step, build_loop, build_start, build, gap, OpenPage, turn_page,
  close_page, is_current,
}

take-append {ℓ} : {A : Type ℓ} (xs ys : List A) → take (length xs) (xs ++ ys) ≡ xs
take-append [] ys = refl
take-append (x ∷ xs) ys = ap (λ r. x ∷ r) (take-append xs ys)

drop-append {ℓ} : {A : Type ℓ} (xs ys : List A) → drop (length xs) (xs ++ ys) ≡ ys
drop-append [] ys = refl
drop-append (x ∷ xs) ys = drop-append xs ys

slice-append {ℓ} :
    {A : Type ℓ} (before middle after : List A) (start end : ℕ)
    → start ≡ length before
    → end ≡ start + length middle
    → slice (before ++ (middle ++ after)) start end ≡ middle
slice-append before middle after start end p q =
    let n : end - start ≡ length middle = omega arith in
    rw (n, p) (rw (drop-append before (middle ++ after)) (take-append middle after))

-- A block's text is what stands at its offsets, with the text before it shown.
record At (text : Text) (b : ParsedBlock) : Type 0 where
  before : Text
  after : Text
  is_split : text ≡ before ++ (b.text ++ after)
  starts : b.start ≡ length before
  ends : b.end ≡ b.start + length b.text

At-append : (text more : Text) (b : ParsedBlock) → At text b → At (text ++ more) b
At-append text more b a = record {
  before = a.before;
  after = a.after ++ more;
  is_split = rw a.is_split (
      append_assoc a.before (b.text ++ a.after) more
      ∙ ap (λ r. a.before ++ r) (append_assoc b.text a.after more));
  starts = a.starts;
  ends = a.ends;
}

At-slice : (text : Text) (b : ParsedBlock) → At text b → slice text b.start b.end ≡ b.text
At-slice text b a =
    rw a.is_split (slice-append a.before b.text a.after b.start b.end a.starts a.ends)

-- Blocks in order from an offset on, none overlapping the next.
abbrev pub Ordered : ℕ → List ParsedBlock → Type 0
Ordered lo [] = Unit
Ordered lo (b ∷ bs) = (lo ≤ b.start) × (b.start ≤ b.end) × Ordered b.end bs

abbrev pub last_end : ℕ → List ParsedBlock → ℕ
last_end lo [] = lo
last_end lo (b ∷ bs) = last_end b.end bs

Ordered-append :
    (lo : ℕ) (bs : List ParsedBlock) (b : ParsedBlock)
    → Ordered lo bs
    → last_end lo bs ≤ b.start
    → b.start ≤ b.end
    → Ordered lo (bs ++ b ∷ [])
Ordered-append lo [] b o h k = (h, k, tt)
Ordered-append lo (x ∷ bs) b o h k = (o.0, o.1, Ordered-append x.end bs b o.2 h k)

last_end-append :
    (lo : ℕ) (bs : List ParsedBlock) (b : ParsedBlock) → last_end lo (bs ++ b ∷ []) ≡ b.end
last_end-append lo [] b = refl
last_end-append lo (x ∷ bs) b = last_end-append x.end bs b

-- Spans that follow one another without a gap, from one offset to another.
abbrev pub Tiles : ℕ → List PageSpan → ℕ → Type 0
Tiles lo [] hi = lo ≡ hi
Tiles lo (p ∷ ps) hi = (p.start ≡ lo) × (p.start ≤ p.end) × Tiles p.end ps hi

Tiles-append :
    (lo mid hi : ℕ) (ps : List PageSpan) (p : PageSpan)
    → Tiles lo ps mid
    → p.start ≡ mid
    → p.start ≤ p.end
    → p.end ≡ hi
    → Tiles lo (ps ++ p ∷ []) hi
Tiles-append lo mid hi [] p t a b c = (a ∙ sym t, b, c)
Tiles-append lo mid hi (q ∷ ps) p t a b c = (t.0, t.1, Tiles-append q.end mid hi ps p t.2 a b c)

-- The pages closed so far tile the text up to the open page.
abbrev TiledTo : List PageSpan → Option OpenPage → ℕ → Type 0
TiledTo pages none pos = pages ≡ []
TiledTo pages (some p) pos = (lo : ℕ) × Tiles lo pages p.start × (p.start ≤ pos)

TiledTo-later :
    (pages : List PageSpan) (current : Option OpenPage) (pos pos' : ℕ)
    → pos ≤ pos'
    → TiledTo pages current pos
    → TiledTo pages current pos'
TiledTo-later pages none pos pos' h t = t
TiledTo-later pages (some p) pos pos' h t = (t.0, t.1, omega (arith, t.2))

-- Closing the open page at a later offset leaves pages that tile the text up to it.
close_page-Tiles :
    (pages : List PageSpan) (current : Option OpenPage) (pos end : ℕ)
    → pos ≤ end
    → TiledTo pages current pos
    → (pages ++ close_page current end ≡ [])
      ⊎ ((lo : ℕ) × Tiles lo (pages ++ close_page current end) end)
close_page-Tiles pages none pos end h t = inl (rw t)
close_page-Tiles pages (some p) pos end h t =
    inr (t.0, Tiles-append t.0 p.start end pages _ t.1 refl (omega (arith, t.2)) refl)

open_page-TiledTo :
    (pages : List PageSpan) (page start : ℕ)
    → (pages ≡ []) ⊎ ((lo : ℕ) × Tiles lo pages start)
    → TiledTo pages (some (record { page = page; start = start })) start
open_page-TiledTo pages page start (inl e) = (start, rw e, omega arith)
open_page-TiledTo pages page start (inr (lo, t)) = (lo, t, omega arith)

turn_page-TiledTo :
    (s : Build) (page : Option ℕ) (start : ℕ)
    → s.pos ≤ start
    → TiledTo s.pages s.current s.pos
    → TiledTo (turn_page s page start).0 (turn_page s page start).1 start
turn_page-TiledTo s none start h t = TiledTo-later s.pages s.current s.pos start h t
turn_page-TiledTo s (some page) start h t = elim (Bool-cases (is_current s.current page)) [
  | inl e ↦ rw e (TiledTo-later s.pages s.current s.pos start h t)
  | inr e ↦
      rw e (open_page-TiledTo _ page start (close_page-Tiles s.pages s.current s.pos start h t))
]

record IsBuilt (s : Build) : Type 0 where
  ordered : Ordered 0 s.blocks
  ended : last_end 0 s.blocks ≡ s.pos
  tiled : TiledTo s.pages s.current s.pos
  at : All (At s.text) s.blocks
  measured : s.pos ≡ length s.text

build_step-IsBuilt : (s : Build) (e : Entry) → IsBuilt s → IsBuilt (build_step s e)
unfolding build_step
build_step-IsBuilt s e h = record {
  at = All-append _ s.blocks _ (All-map_implies _ _ s.blocks (λ b a. At-append s.text _ b a) h.at) (
    record {
      before = s.text ++ gap s.blocks;
      after = [];
      is_split = simp (append-nil, append_assoc);
      starts = omega (arith, h.measured, length-append {0} s.text (gap s.blocks));
      ends = refl;
    },
    tt,
  );
  ordered = Ordered-append 0 s.blocks _ h.ordered (omega (arith, h.ended)) (omega arith);
  ended = last_end-append 0 s.blocks _;
  tiled =
      TiledTo-later _ _ (s.pos + length (gap s.blocks)) _ (omega arith)
        (turn_page-TiledTo s e.page _ (omega arith) h.tiled);
  measured = omega (
    arith,
    h.measured,
    length-append {0} s.text (gap s.blocks ++ e.text),
    length-append {0} (gap s.blocks) e.text,
  );
}

build_loop-IsBuilt : (s : Build) (entries : List Entry) → IsBuilt s → IsBuilt (build_loop s entries)
unfolding build_loop
build_loop-IsBuilt s [] h = h
build_loop-IsBuilt s (e ∷ entries) h =
    build_loop-IsBuilt (build_step s e) entries (build_step-IsBuilt s e h)

IsBuilt-start : IsBuilt build_start
IsBuilt-start = record { ordered = tt; ended = refl; tiled = refl; at = tt; measured = refl }

built : (entries : List Entry) → IsBuilt (build_loop build_start entries)
built entries = build_loop-IsBuilt build_start entries IsBuilt-start

-- Each block's text is the slice of the document's text at the block's offsets.
pub build-slices :
    (entries : List Entry)
    → All (λ b. slice (build entries).text b.start b.end ≡ b.text) (build entries).blocks
unfolding build
build-slices entries =
    All-map_implies _ _ (build entries).blocks (λ b a. At-slice (build entries).text b a)
      (built entries).at

-- The blocks stand in the text in order, and the last of them ends it.
pub build-Ordered :
    (entries : List Entry)
    → Ordered 0 (build entries).blocks
      × (last_end 0 (build entries).blocks ≡ length (build entries).text)
unfolding build
build-Ordered entries = ((built entries).ordered, (built entries).ended ∙ (built entries).measured)

-- The page map is empty, or its spans follow one another from some offset without gap or overlap up
-- to the end of the text.
pub build-page_map :
    (entries : List Entry)
    → ((build entries).page_map ≡ [])
      ⊎ ((lo : ℕ) × Tiles lo (build entries).page_map (length (build entries).text))
unfolding build
build-page_map entries =
    let b = built entries in
    rw (← b.measured)
      (close_page-Tiles _ _ (build_loop build_start entries).pos _ (omega arith) b.tiled)
