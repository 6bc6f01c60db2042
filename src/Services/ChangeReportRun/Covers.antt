-- ===== src/Services/ChangeReportRun/Covers.antt =====
-- `explain_changes` returns an explanation of its own for each change, or fails.
use contract_change_intel.Prelude.{
  ℕ, zero, suc, ◌+◌, ◌≤◌, ◌<◌, ℤ, pos, negsuc, Text, List, [], ◌∷◌, Option, none, some, true, false,
  not, ◌≡◌, refl, ap, arith, length, exists, All, inl, inr, ◌⊎◌, Bool-cases, Option-cases,
}
use mathlib.Core.List.{Memᴰ}
use contract_change_intel.Store.Rows.{Db}
use contract_change_intel.Repositories.Usage.{LlmUsage}
use contract_change_intel.Diffing.Align.{Change}
use contract_change_intel.Services.ChangeReportRun.Explain.{
  ChangeExplanation, is_pos, has_index, last_for, in_range, explanations_from, order_explanations,
  explanation_prompt, coverage_error, explain_changes,
}
use contract_change_intel.Llm.Failure.{
  output_error, Outcome, returned, raised, Outcome-cases, Reply,
}

-- The explanation is one of the reply's, for this index.
abbrev pub IsFor : List ChangeExplanation → ℕ → ChangeExplanation → Type 0
IsFor es i e = Memᴰ e es × (e.index ≡ pos i)

-- The explanations are for the indices from `i` on.
abbrev pub AreFor : List ChangeExplanation → ℕ → List ChangeExplanation → Type 0
AreFor es i [] = Unit
AreFor es i (e ∷ rest) = IsFor es i e × AreFor es (i + 1) rest

abbrev pub LacksIndex : ℕ → List ChangeExplanation → Type 0
LacksIndex i = All (λ e. has_index i e ≡ false)

pos_index : (i : ℕ) (n : ℤ) → is_pos i n ≡ true → n ≡ pos i
pos_index i (pos n) h = ap pos (ground arith)
pos_index i (negsuc n) h = absurd (ground arith)

-- What `by_index` holds at an index.
abbrev IsLast : ℕ → List ChangeExplanation → Option ChangeExplanation → Type 0
IsLast i es none = LacksIndex i es
IsLast i es (some e) = IsFor es i e

last_for-IsLast : (i : ℕ) (es : List ChangeExplanation) → IsLast i es (last_for i es)
last_for-IsLast i [] = tt
last_for-IsLast i (x ∷ es) =
    let rest = last_for-IsLast i es in
    elim (Option-cases (last_for i es)) [
      | inl e ↦
          let lacks : LacksIndex i es = rw e at rest in
          elim (Bool-cases (has_index i x)) [
            | inl t ↦ rw (e, t) (Memᴰ.head refl, pos_index i x.index t)
            | inr t ↦ rw (e, t) (t, lacks)
          ]
      | inr (y, e) ↦ let found : IsFor es i y = rw e at rest in rw e (Memᴰ.tail found.0, found.1)
    ]

-- What the list of explanations has to do with the reply.
abbrev IsRun : ℕ → ℕ → List ChangeExplanation → Option (List ChangeExplanation) → Type 0
IsRun i n es none = (j : ℕ) × (i ≤ j) × (j < i + n) × LacksIndex j es
IsRun i n es (some r) = (length r ≡ n) × AreFor es i r

explanations_from-IsRun :
    (i n : ℕ) (es : List ChangeExplanation) → IsRun i n es (explanations_from i n es)
unfolding explanations_from
explanations_from-IsRun i zero es = (refl, tt)
explanations_from-IsRun i (suc n) es =
    let rest = explanations_from-IsRun (i + 1) n es in
    let here = last_for-IsLast i es in
    elim (Option-cases (last_for i es)) [
      | inl e ↦
          let lacks : LacksIndex i es = rw e at here in rw e (i, omega arith, omega arith, lacks)
      | inr (y, e) ↦
          let found : IsFor es i y = rw e at here in
          elim (Option-cases (explanations_from (i + 1) n es)) [
            | inl f ↦
                let gone : IsRun (i + 1) n es none = rw f at rest in
                let (j, low, high, lacks) = gone in
                rw (e, f) (j, omega (arith, low), omega (arith, high), lacks)
            | inr (r, f) ↦
                let ran : IsRun (i + 1) n es (some r) = rw f at rest in
                rw (e, f) (omega (arith, ran.0), (found, ran.1))
          ]
    ]

-- The reply does not cover the indices below `n`: one is missing, or another is there.
abbrev pub Uncovered : ℕ → List ChangeExplanation → Type 0
Uncovered n es =
    ((j : ℕ) × (j < n) × LacksIndex j es)
    ⊎ (exists (λ (e : ChangeExplanation). not (in_range n e.index)) es ≡ true)

abbrev IsOrdered : ℕ → List ChangeExplanation → Option (List ChangeExplanation) → Type 0
IsOrdered n es none = Uncovered n es
IsOrdered n es (some r) = (length r ≡ n) × AreFor es 0 r

order_explanations-IsOrdered :
    (n : ℕ) (es : List ChangeExplanation) → IsOrdered n es (order_explanations n es)
unfolding order_explanations
order_explanations-IsOrdered n es =
    let run = explanations_from-IsRun 0 n es in
    elim (Bool-cases (exists (λ (e : ChangeExplanation). not (in_range n e.index)) es)) [
      | inl t ↦ rw t (inr t)
      | inr t ↦ elim (Option-cases (explanations_from 0 n es)) [
        | inl e ↦
            let gone : IsRun 0 n es none = rw e at run in
            rw (t, e) (inl (gone.0, omega (arith, gone.2), gone.3))
        | inr (r, e) ↦ let ran : IsRun 0 n es (some r) = rw e at run in rw (t, e) ran
      ]
    ]

module _ (show_int : ℤ → Text) (complete : Text → Outcome (Reply (List ChangeExplanation)))
    (base_text amended_text : Text) where
  abbrev pub prompt : List Change → Text
  prompt changes = explanation_prompt show_int changes base_text amended_text

  -- The outcome has an explanation of its own for each change, or it is the call's error, or the
  -- reply does not cover the changes.
  abbrev pub Covers : List Change → Outcome (List ChangeExplanation) → Type 0
  Covers [] o = o ≡ returned []
  Covers (change ∷ changes) (returned es) =
      (reply : Reply (List ChangeExplanation)) × (complete (prompt (change ∷ changes))
        ≡ returned reply)
      × (length es ≡ length (change ∷ changes))
      × AreFor reply.content 0 es
  Covers (change ∷ changes) (raised e) =
      (complete (prompt (change ∷ changes)) ≡ raised e)
      ⊎ ((reply : Reply (List ChangeExplanation)) × (complete (prompt (change ∷ changes))
            ≡ returned reply)
          × (e ≡ output_error (coverage_error show_int (length (change ∷ changes))) none)
          × Uncovered (length (change ∷ changes)) reply.content)

  -- A run on no change returns no explanation. On any other it returns one explanation of the reply
  -- for each change, in order and of the change's index; it raises only the error of the call, or,
  -- where the reply lacks an index of a change or has an index of none, an output error.
  pub explain_changes-Covers :
      (sink : LlmUsage → Db → Db) (changes : List Change) (db : Db)
      → Covers changes (explain_changes show_int complete sink changes base_text amended_text db).0
  unfolding explain_changes
  explain_changes-Covers sink [] db = refl
  explain_changes-Covers sink (change ∷ changes) db =
      let n = length (change ∷ changes) in
      elim (Outcome-cases (complete (prompt (change ∷ changes)))) [
        | inl (reply, e) ↦
            let ordered = order_explanations-IsOrdered n reply.content in
            elim (Option-cases (order_explanations n reply.content)) [
              | inl f ↦
                  let missing : IsOrdered n reply.content none = rw f at ordered in
                  rw (e, f) (inr (reply, e, refl, missing))
              | inr (es, f) ↦
                  let good : IsOrdered n reply.content (some es) = rw f at ordered in
                  rw (e, f) (reply, e, good.0, good.1)
            ]
        | inr (z, e) ↦ rw e (inl e)
      ]
