-- ===== src/Chunking/Clauses.antt =====
-- The clauses of `_clause_spans`: every block lies in one of them.
use contract_change_intel.Prelude.{
  ℕ, ◌≤◌, List, [], ◌∷◌, Option, none, some, arith, ◌⊎◌, inl, inr, All, All-map_implies, Bool-cases,
}
use contract_change_intel.Parsing.{ParsedBlock}
use contract_change_intel.Parsing.Offsets.{Ordered}
use contract_change_intel.Chunking.{Window, clause_loop, clause_spans, is_heading}

-- [s, e] lies in one of the windows.
abbrev pub Within : ℕ → ℕ → List Window → Type 0
Within s e [] = ⊥
Within s e (w ∷ ws) = ((w.start ≤ s) × (e ≤ w.stop)) ⊎ Within s e ws

abbrev BlockWithin : List Window → ParsedBlock → Type 0
BlockWithin ws b = Within b.start b.end ws

-- From a clause that runs from `start` to `end` on, all that lies in it or in a later block lies in
-- one of the clauses.
record Extends (start end : ℕ) (blocks : List ParsedBlock) (ws : List Window) : Type 0 where
  old : (s e : ℕ) → start ≤ s → e ≤ end → Within s e ws
  new : All (BlockWithin ws) blocks

clause_loop-Extends :
    (start end : ℕ) (blocks : List ParsedBlock)
    → start ≤ end
    → Ordered end blocks
    → Extends start end blocks (clause_loop (some start) end blocks)
unfolding clause_loop
clause_loop-Extends start end [] h o = record { old = λ s e p q. inl (p, q); new = tt }
clause_loop-Extends start end (b ∷ blocks) h o = elim (Bool-cases (is_heading b.kind)) [
  | inl k ↦
      let ih = clause_loop-Extends b.start b.end blocks o.1 o.2 in
      rw k (record {
        old = λ s e p q. inl (p, q);
        new = (
          inr (ih.old b.start b.end (omega arith) (omega arith)),
          All-map_implies _ _ blocks (λ _ w. inr w) ih.new,
        );
      })
  | inr k ↦
      let ih = clause_loop-Extends start b.end blocks (omega (arith, o)) o.2 in
      rw k (record {
        old = λ s e p q. ih.old s e p (omega (arith, o));
        new = (ih.old b.start b.end (omega (arith, o)) (omega arith), ih.new);
      })
]

-- In blocks that stand in order, every block lies in one of the clauses.
pub clause_spans-Within :
    (lo : ℕ) (blocks : List ParsedBlock)
    → Ordered lo blocks
    → All (λ b. Within b.start b.end (clause_spans blocks)) blocks
unfolding clause_spans
clause_spans-Within lo [] o = tt
clause_spans-Within lo (b ∷ blocks) o =
    let x = clause_loop-Extends b.start b.end blocks o.1 o.2 in
    (x.old b.start b.end (omega arith) (omega arith), x.new)

clause_loop-bounded :
    (start : Option ℕ) (end n : ℕ) (blocks : List ParsedBlock)
    → end ≤ n
    → All (λ b. b.end ≤ n) blocks
    → All (λ w. w.stop ≤ n) (clause_loop start end blocks)
unfolding clause_loop
clause_loop-bounded none end n [] h a = tt
clause_loop-bounded (some s) end n [] h a = (h, tt)
clause_loop-bounded none end n (b ∷ blocks) h a =
    clause_loop-bounded (some b.start) b.end n blocks a.0 a.1
clause_loop-bounded (some s) end n (b ∷ blocks) h a = elim (Bool-cases (is_heading b.kind)) [
  | inl k ↦ rw k (h, clause_loop-bounded (some b.start) b.end n blocks a.0 a.1)
  | inr k ↦ rw k (clause_loop-bounded (some s) b.end n blocks a.0 a.1)
]

pub clause_spans-bounded :
    (n : ℕ) (blocks : List ParsedBlock)
    → All (λ b. b.end ≤ n) blocks
    → All (λ w. w.stop ≤ n) (clause_spans blocks)
unfolding clause_spans
clause_spans-bounded n blocks a = clause_loop-bounded none 0 n blocks (omega arith) a
