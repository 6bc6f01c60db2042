-- ===== src/Extraction/Gate.antt =====
-- What passes the citation gate.
use contract_change_intel.Prelude.{
  ℕ, zero, suc, ◌+◌, ◌≡◌, Text, List, [], ◌∷◌, ◌++◌, Bool, true, false, not, refl, arith, All,
  select, select-passes, select-append, map, inl, inr, Bool-cases,
}
use contract_change_intel.Repositories.Usage.{LlmUsage}
use contract_change_intel.Extraction.{
  Citation, Obligation, DefinedTerm, ObligationExtraction, is_grounded, split_cited, LlmReply,
  reply, no_reply, Extracted, extracted, is_empty, judge, after_reply, attempt_loop,
  extract_obligations, citation_attempts, obligation_citation, term_citation,
}

-- Every item cites a passage of the text.
pub record IsGrounded (text : Text) (e : ObligationExtraction) : Type 0 where
  pub obligations_cited : All (λ (o : Obligation). is_grounded text o.citation ≡ true) e.obligations
  pub terms_cited : All (λ (t : DefinedTerm). is_grounded text t.citation ≡ true) e.defined_terms

cited_before {ℓ} :
    {A : Type ℓ} (cite : A → Citation) (text : Text) (xs : List A) (more : List Citation)
    → select (λ span. not (is_grounded text span)) (map cite xs ++ more) ≡ []
    → All (λ x. is_grounded text (cite x) ≡ true) xs
      × (select (λ span. not (is_grounded text span)) more ≡ [])
cited_before cite text [] more h = (tt, h)
cited_before cite text (x ∷ xs) more h = elim (Bool-cases (is_grounded text (cite x))) [
  | inl e ↦ let rest = cited_before cite text xs more (rw e at h) in ((e, rest.0), rest.1)
  | inr e ↦ absurd (ground (arith, e))
]

cited_last {ℓ} :
    {A : Type ℓ} (cite : A → Citation) (text : Text) (xs : List A)
    → select (λ span. not (is_grounded text span)) (map cite xs) ≡ []
    → All (λ x. is_grounded text (cite x) ≡ true) xs
cited_last cite text [] h = tt
cited_last cite text (x ∷ xs) h = elim (Bool-cases (is_grounded text (cite x))) [
  | inl e ↦ (e, cited_last cite text xs (rw e at h))
  | inr e ↦ absurd (ground (arith, e))
]

split_cited-IsGrounded :
    (e : ObligationExtraction) (text : Text) → IsGrounded text (split_cited e text).0
unfolding split_cited
split_cited-IsGrounded e text = record {
  obligations_cited = select-passes _ e.obligations;
  terms_cited = select-passes _ e.defined_terms;
}

unrejected-IsGrounded :
    (e : ObligationExtraction) (text : Text) → (split_cited e text).1 ≡ [] → IsGrounded text e
unfolding split_cited
unrejected-IsGrounded e text h =
    let first =
      cited_before obligation_citation text e.obligations (map term_citation e.defined_terms) h in
    record {
      obligations_cited = first.0;
      terms_cited = cited_last term_citation text e.defined_terms first.1;
    }

-- What an extraction that is returned has.
abbrev pub GroundedOutcome : Text → Extracted → Type 0
GroundedOutcome text (extracted e) = IsGrounded text e
GroundedOutcome text _ = Unit

judge-IsGrounded :
    (is_last : Bool) (text : Text) (e : ObligationExtraction)
    (split : ObligationExtraction × List Citation) (usage : LlmUsage)
    (rest : Extracted × List LlmUsage)
    → IsGrounded text split.0
    → (split.1 ≡ [] → IsGrounded text e)
    → GroundedOutcome text rest.0
    → GroundedOutcome text (judge is_last e split usage rest).0
judge-IsGrounded is_last text e (grounded, []) usage rest g whole r = whole refl
judge-IsGrounded false text e (grounded, c ∷ rejected) usage rest g whole r = r
judge-IsGrounded true text e (grounded, c ∷ rejected) usage rest g whole r =
    elim (Bool-cases (is_empty grounded)) [ inl k ↦ rw k tt | inr k ↦ rw k g ]

after_reply-IsGrounded :
    (is_last : Bool) (text : Text) (r : LlmReply) (rest : Extracted × List LlmUsage)
    → GroundedOutcome text rest.0
    → GroundedOutcome text (after_reply is_last text r rest).0
after_reply-IsGrounded is_last text (no_reply f) rest h = tt
after_reply-IsGrounded is_last text (reply e usage) rest h =
    judge-IsGrounded is_last text e (split_cited e text) usage rest (split_cited-IsGrounded e text)
      (unrejected-IsGrounded e text) h

attempt_loop-IsGrounded :
    (n attempt : ℕ) (llm : ℕ → LlmReply) (text : Text)
    → GroundedOutcome text (attempt_loop n attempt llm text).0
unfolding attempt_loop
attempt_loop-IsGrounded zero attempt llm text = tt
attempt_loop-IsGrounded (suc n) attempt llm text =
    after_reply-IsGrounded _ text (llm attempt) _ (attempt_loop-IsGrounded n (attempt + 1) llm text)

-- Whatever the model replies, every obligation and every defined term of an extraction that is
-- returned cites a passage of the document's text that is not empty.
pub extract_obligations-IsGrounded :
    (llm : ℕ → LlmReply) (text : Text) → GroundedOutcome text (extract_obligations llm text).0
unfolding extract_obligations
extract_obligations-IsGrounded llm text = attempt_loop-IsGrounded citation_attempts 1 llm text

none_rejected {ℓ} :
    {A : Type ℓ} (cite : A → Citation) (text : Text) (xs : List A)
    → All (λ x. is_grounded text (cite x) ≡ true) xs
    → select (λ span. not (is_grounded text span)) (map cite xs) ≡ []
none_rejected cite text [] h = refl
none_rejected cite text (x ∷ xs) h = rw (h.0) (none_rejected cite text xs h.1)

grounded-unrejected :
    (e : ObligationExtraction) (text : Text) → IsGrounded text e → (split_cited e text).1 ≡ []
unfolding split_cited
grounded-unrejected e text g =
    rw
      (
        select-append (λ span. not (is_grounded text span)) (map obligation_citation e.obligations)
            (map term_citation e.defined_terms),
        none_rejected obligation_citation text e.obligations g.obligations_cited,
        none_rejected term_citation text e.defined_terms g.terms_cited,
      )
      refl

judge-unrejected :
    (e : ObligationExtraction) (split : ObligationExtraction × List Citation) (usage : LlmUsage)
    (rest : Extracted × List LlmUsage)
    → split.1 ≡ []
    → judge false e split usage rest ≡ (extracted e, usage ∷ [])
judge-unrejected e (grounded, []) usage rest h = refl
judge-unrejected e (grounded, c ∷ rejected) usage rest h = cc

-- Where the first reply cites passages of the text only, it is returned as it is, after one call.
pub extract_obligations-first :
    (llm : ℕ → LlmReply) (text : Text) {e : ObligationExtraction} {usage : LlmUsage}
    → llm 1 ≡ reply e usage
    → IsGrounded text e
    → extract_obligations llm text ≡ (extracted e, usage ∷ [])
unfolding extract_obligations attempt_loop
extract_obligations-first llm text {e = e} {usage = usage} h g =
    rw h (judge-unrejected e (split_cited e text) usage _ (grounded-unrejected e text g))
