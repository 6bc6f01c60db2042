-- ===== src/Chunking/Chunks.antt =====
-- The chunks of a parsed document: each is a citation into its text, and together they hold every
-- character of every block.
use contract_change_intel.Prelude.{
  ℕ, dec_lt, ◌-◌, ◌+◌, ◌≤◌, ◌<◌, Text, List, [], ◌∷◌, ◌++◌, ◌≡◌, refl, arith, ◌⊎◌, inl, inr, All,
  All-append, All-at, Bool-cases, length, slice, exists, ◌||◌,
}
use mathlib.Core.List.{Memᴰ}
use mathlib.Core.Path.{subst}
use contract_change_intel.Parsing.{ParsedBlock, ParsedDocument, Entry, build}
use contract_change_intel.Parsing.Offsets.{Ordered, build-Ordered, last_end}
use contract_change_intel.Repositories.DocumentChunks.{Chunk}
use contract_change_intel.Chunking.{
  Window, max_chunk_chars, overlap_chars, split_range, block_ends, clause_spans, make_chunks,
  chunk_clauses, chunk_document, is_empty, is_heading,
}
use contract_change_intel.Chunking.Windows.{Follow, Cover, split_range-Cover}
use contract_change_intel.Chunking.Clauses.{Within, clause_spans-Within, clause_spans-bounded}

-- A chunk is the slice of the text at its offsets, not empty and at most 8000 characters long.
pub record IsCitation (text : Text) (c : Chunk) : Type 0 where
  pub slices : c.text ≡ slice text c.char_start c.char_end
  pub begins : c.char_start < c.char_end
  pub ends : c.char_end ≤ length text
  pub short : c.char_end ≤ c.char_start + max_chunk_chars

-- The character at `p` is in one of the chunks.
abbrev pub Holds : ℕ → List Chunk → Type 0
Holds p [] = ⊥
Holds p (c ∷ cs) = ((c.char_start ≤ p) × (p < c.char_end)) ⊎ Holds p cs

Holds-append_left : (p : ℕ) (cs ds : List Chunk) → Holds p cs → Holds p (cs ++ ds)
Holds-append_left p [] ds h = absurd h
Holds-append_left p (c ∷ cs) ds (inl h) = inl h
Holds-append_left p (c ∷ cs) ds (inr h) = inr (Holds-append_left p cs ds h)

Holds-append_right : (p : ℕ) (cs ds : List Chunk) → Holds p ds → Holds p (cs ++ ds)
Holds-append_right p [] ds h = h
Holds-append_right p (c ∷ cs) ds h = inr (Holds-append_right p cs ds h)

Follow-Holds :
    (text : Text) (p : ℕ) (w : Window) (end : ℕ) (ws : List Window)
    → w.stop ≤ p
    → p < end
    → Follow max_chunk_chars overlap_chars w end ws
    → Holds p (make_chunks text ws)
unfolding make_chunks
Follow-Holds text p w end [] h k f = absurd (omega (arith, f))
Follow-Holds text p w end (v ∷ ws) h k f = elim (dec_lt p v.stop) [
  | yes q ↦ inl (omega (arith, f), q)
  | no q ↦ inr (Follow-Holds text p v end ws (omega arith) k f.6)
]

Cover-Holds :
    (text : Text) (p pos end : ℕ) (ws : List Window)
    → pos ≤ p
    → p < end
    → Cover max_chunk_chars overlap_chars pos end ws
    → Holds p (make_chunks text ws)
unfolding make_chunks
Cover-Holds text p pos end [] h k c = absurd c
Cover-Holds text p pos end (v ∷ ws) h k c = elim (dec_lt p v.stop) [
  | yes q ↦ inl (omega (arith, c), q)
  | no q ↦ inr (Follow-Holds text p v end ws (omega arith) k c.4)
]

Follow-IsCitation :
    (text : Text) (w : Window) (end : ℕ) (ws : List Window)
    → end ≤ length text
    → Follow max_chunk_chars overlap_chars w end ws
    → All (IsCitation text) (make_chunks text ws)
unfolding make_chunks
Follow-IsCitation text w end [] k f = tt
Follow-IsCitation text w end (v ∷ ws) k f = (
  record { slices = refl; begins = f.3; ends = omega (arith, f); short = f.4 },
  Follow-IsCitation text v end ws k f.6,
)

Cover-IsCitation :
    (text : Text) (pos end : ℕ) (ws : List Window)
    → end ≤ length text
    → Cover max_chunk_chars overlap_chars pos end ws
    → All (IsCitation text) (make_chunks text ws)
unfolding make_chunks
Cover-IsCitation text pos end [] k c = tt
Cover-IsCitation text pos end (v ∷ ws) k c = (
  record { slices = refl; begins = c.1; ends = omega (arith, c); short = c.2 },
  Follow-IsCitation text v end ws k c.4,
)

empty_range :
    (text : Text) (start end : ℕ) (bounds : List ℕ)
    → end ≤ start
    → split_range text start end bounds ≡ []
unfolding split_range
empty_range text start end bounds h = let e : end - start ≡ 0 = omega arith in rw e

split_range-IsCitation :
    (text : Text) (start end : ℕ) (bounds : List ℕ)
    → end ≤ length text
    → All (IsCitation text) (make_chunks text (split_range text start end bounds))
unfolding make_chunks
split_range-IsCitation text start end bounds k = elim (dec_lt start end) [
  | yes h ↦ Cover-IsCitation text start end _ k (split_range-Cover text start end bounds h k)
  | no h ↦ rw (empty_range text start end bounds (omega arith)) tt
]

split_range-Holds :
    (text : Text) (start end : ℕ) (bounds : List ℕ) (p : ℕ)
    → end ≤ length text
    → start ≤ p
    → p < end
    → Holds p (make_chunks text (split_range text start end bounds))
split_range-Holds text start end bounds p k h q =
    Cover-Holds text p start end _ h q (split_range-Cover text start end bounds (omega arith) k)

chunk_clauses-IsCitation :
    (doc : ParsedDocument) (spans : List Window)
    → All (λ w. w.stop ≤ length doc.text) spans
    → All (IsCitation doc.text) (chunk_clauses doc spans)
unfolding chunk_clauses
chunk_clauses-IsCitation doc [] a = tt
chunk_clauses-IsCitation doc (w ∷ spans) a =
    All-append _
      (make_chunks doc.text (split_range doc.text w.start w.stop (block_ends w doc.blocks))) _
      (split_range-IsCitation doc.text w.start w.stop _ a.0)
      (chunk_clauses-IsCitation doc spans a.1)

chunk_clauses-Holds :
    (doc : ParsedDocument) (spans : List Window) (s e p : ℕ)
    → All (λ w. w.stop ≤ length doc.text) spans
    → Within s e spans
    → s ≤ p
    → p < e
    → Holds p (chunk_clauses doc spans)
unfolding chunk_clauses
chunk_clauses-Holds doc [] s e p a w h k = absurd w
chunk_clauses-Holds doc (v ∷ spans) s e p a (inl w) h k =
    Holds-append_left p _ _
      (split_range-Holds doc.text v.start v.stop _ p a.0 (omega arith) (omega arith))
chunk_clauses-Holds doc (v ∷ spans) s e p a (inr w) h k =
    Holds-append_right p
      (make_chunks doc.text (split_range doc.text v.start v.stop (block_ends v doc.blocks))) _
      (chunk_clauses-Holds doc spans s e p a.1 w h k)

ends_within :
    (lo n : ℕ) (blocks : List ParsedBlock)
    → Ordered lo blocks
    → last_end lo blocks ≤ n
    → (lo ≤ n) × All (λ b. b.end ≤ n) blocks
ends_within lo n [] o h = (h, tt)
ends_within lo n (b ∷ blocks) o h =
    let ih = ends_within b.end n blocks o.2 h in (omega (arith, o, ih.0), (ih.0, ih.1))

-- The branches of `chunk_document`: what holds of both ways to chunk holds of it.
chunk_document-cases {ℓ} :
    (P : List Chunk → Type ℓ) (doc : ParsedDocument)
    → ((doc.text ≡ []) ⊎ (doc.blocks ≡ []) → P [])
    → P (chunk_clauses doc (clause_spans doc.blocks))
    → P (make_chunks doc.text (split_range doc.text 0 (length doc.text) []))
    → P (chunk_document doc)
unfolding chunk_document
chunk_document-cases P doc empty by_clause by_window =
    elim (Bool-cases (is_empty doc.text || is_empty doc.blocks)) [
      | inl e ↦ rw e (empty (ground arith))
      | inr e ↦
          rw e (elim (Bool-cases (exists (λ (b : ParsedBlock). is_heading b.kind) doc.blocks)) [
            | inl k ↦ rw k by_clause
            | inr k ↦ rw k by_window
          ])
    ]

not_empty :
    (doc : ParsedDocument) (b : ParsedBlock) (p : ℕ)
    → Memᴰ b doc.blocks
    → b.end ≤ length doc.text
    → p < b.end
    → (doc.text ≡ []) ⊎ (doc.blocks ≡ [])
    → ⊥
not_empty doc b p m h k (inl e) = let l : length doc.text ≡ 0 = rw e in omega arith
not_empty doc b p m h k (inr e) = let m' : Memᴰ b [] = subst (Memᴰ b) e m in elim m' [ ]

module _ (entries : List Entry) where
  abbrev doc : ParsedDocument
  doc = build entries

  in_text : All (λ b. b.end ≤ length doc.text) doc.blocks
  in_text =
      (ends_within 0 (length doc.text) doc.blocks (build-Ordered entries).0
        (omega (arith, (build-Ordered entries).1))).1

  -- Every chunk of a parsed document is the slice of its text at the chunk's offsets, is not empty,
  -- ends within the text and has at most 8000 characters.
  pub chunk_document-citations : All (IsCitation doc.text) (chunk_document doc)
  chunk_document-citations =
      chunk_document-cases (All (IsCitation doc.text)) doc (λ _. tt)
        (chunk_clauses-IsCitation doc _ (clause_spans-bounded _ doc.blocks in_text))
        (split_range-IsCitation doc.text 0 (length doc.text) [] (omega arith))

  -- Every character of every block of a parsed document is in some chunk: nothing is left out.
  pub chunk_document_complete :
      (b : ParsedBlock) (p : ℕ)
      → Memᴰ b doc.blocks
      → b.start ≤ p
      → p < b.end
      → Holds p (chunk_document doc)
  chunk_document_complete b p m h k =
      let inside : b.end ≤ length doc.text =
        All-at (λ b. b.end ≤ length doc.text) doc.blocks in_text m in
      chunk_document-cases (Holds p) doc (not_empty doc b p m inside k)
        (chunk_clauses-Holds doc _ b.start b.end p (clause_spans-bounded _ doc.blocks in_text)
          (All-at (λ b. Within b.start b.end (clause_spans doc.blocks)) doc.blocks
            (clause_spans-Within 0 doc.blocks (build-Ordered entries).0) m)
          h k)
        (split_range-Holds doc.text 0 (length doc.text) [] p (omega arith) (omega arith)
          (omega arith))
