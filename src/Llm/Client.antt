-- ===== src/Llm/Client.antt =====
-- app/llm/client.py: the calls that return one reply. The SDK is a parameter: what it answers.
pub mod Tools
pub mod Embedding
use contract_change_intel.Prelude.{
  ℕ, ◌+◌, ℤ, Text, codes, List, [], ◌∷◌, ◌++◌, Option, none, some, Bool, ltb, if◌then◌else◌,
  insert_by,
}
use contract_change_intel.Repositories.Usage.{LlmUsage}
use contract_change_intel.Llm.Cost.{Dollars, cost_usd}
use contract_change_intel.Llm.Failure.{
  Failure, call_error, output_error, other_error, Outcome, returned, raised, Reply,
}

-- CompletionUsage
pub record TokenUsage : Type 0 where
  pub prompt_tokens : ℕ
  pub completion_tokens : ℕ

-- A response or an OpenAIError.
pub data Wire (A : Type 0) : Type 0 where
  answered : A → Wire A
  openai_error : Text → Wire A

-- What `.parse()` does: also one of the errors for a reply that is not usable.
pub data Parsed (A : Type 0) : Type 0 where
  wired : Wire A → Parsed A
  unusable : Parsed A

-- A response: the first of its choices, if there is one, and its usage, if it has one.
pub record Response (A : Type 0) : Type 0 where
  pub choice : Option A
  pub usage : Option TokenUsage

pub record EmbeddingItem : Type 0 where
  pub index : ℕ
  pub embedding : List ℤ

pub record EmbeddingResponse : Type 0 where
  pub items : List EmbeddingItem
  pub prompt_tokens : Option ℕ

abbrev pub prompt_of : Option TokenUsage → ℕ
prompt_of none = 0
prompt_of (some u) = u.prompt_tokens

abbrev pub completion_of : Option TokenUsage → ℕ
completion_of none = 0
completion_of (some u) = u.completion_tokens

abbrev pub tokens_or_zero : Option ℕ → ℕ
tokens_or_zero none = 0
tokens_or_zero (some n) = n

abbrev pub then_outcome : {A B : Type 0} → (A → Outcome B) → Outcome A → Outcome B
then_outcome f (returned a) = f a
then_outcome f (raised e) = raised e

-- `f"llm call failed model={model}: {cause}"`
abbrev pub call_failed : Text → Text → Failure
call_failed model cause =
    call_error (codes "llm call failed model=" ++ (model ++ (codes ": " ++ cause)))

abbrev pub rejected_text : Text → Text
rejected_text model = codes "model output failed schema validation model=" ++ model

-- `response.choices[0]`
abbrev pub first_choice : {A : Type 0} → Option A → Outcome A
first_choice none = raised (other_error (codes "list index out of range"))
first_choice (some a) = returned a

module _ (dollars : Dollars) (model : Text) (latency_ms : ℕ) where
  -- `_log_usage`
  abbrev pub usage_record : ℕ → ℕ → ℤ → LlmUsage
  usage_record prompt_tokens completion_tokens cost = record {
    model = model;
    prompt_tokens = prompt_tokens;
    completion_tokens = completion_tokens;
    cost_usd = cost;
    latency_ms = latency_ms;
  }

  -- The usage with its cost.
  unfoldable pub priced : ℕ → ℕ → Outcome LlmUsage
  unfolding cost_usd
  priced prompt_tokens completion_tokens =
      then_outcome (λ cost. returned (usage_record prompt_tokens completion_tokens cost))
        (cost_usd dollars model prompt_tokens completion_tokens)

  -- `_usage_cost`
  abbrev pub usage_cost : Option TokenUsage → Outcome LlmUsage
  usage_cost usage = priced (prompt_of usage) (completion_of usage)

  abbrev pub text_reply : LlmUsage → Option Text → Outcome (Reply Text)
  text_reply usage none = returned (record { content = []; usage = usage })
  text_reply usage (some text) = returned (record { content = text; usage = usage })

  abbrev pub complete_with : Wire (Response (Option Text)) → Outcome (Reply Text)
  complete_with (answered r) =
      then_outcome (λ usage. then_outcome (text_reply usage) (first_choice r.choice))
        (usage_cost r.usage)
  complete_with (openai_error cause) = raised (call_failed model cause)

  unfoldable pub complete :
      (Text → Text → Wire (Response (Option Text))) → Text → Text → Outcome (Reply Text)
  unfolding priced
  complete create system user = complete_with (create system user)

  -- The parsed data, or the refusal.
  abbrev pub parsed_reply : {A : Type 0} → LlmUsage → Option A → Outcome (Reply A)
  parsed_reply usage none = raised (output_error (rejected_text model) (some usage))
  parsed_reply usage (some a) = returned (record { content = a; usage = usage })

  abbrev pub structured_with : {A : Type 0} → Parsed (Response (Option A)) → Outcome (Reply A)
  structured_with (wired (answered r)) =
      then_outcome (λ usage. then_outcome (parsed_reply usage) (first_choice r.choice))
        (usage_cost r.usage)
  structured_with (wired (openai_error cause)) = raised (call_failed model cause)
  structured_with unusable = raised (output_error (rejected_text model) none)

  unfoldable pub complete_structured :
      {A : Type 0} → (Text → Text → Parsed (Response (Option A))) → Text → Text → Outcome (Reply A)
  unfolding priced
  complete_structured parse system user = structured_with (parse system user)

  abbrev pub earlier : EmbeddingItem → EmbeddingItem → Bool
  earlier a b = ltb a.index b.index

  abbrev pub vectors_of : List EmbeddingItem → List (List ℤ)
  vectors_of [] = []
  vectors_of (x ∷ xs) = x.embedding ∷ vectors_of xs

  abbrev pub embed_with : Wire EmbeddingResponse → Outcome (Reply (List (List ℤ)))
  embed_with (answered r) =
      then_outcome
        (λ usage.
          returned (record { content = vectors_of (insert_by earlier r.items); usage = usage }))
        (priced (tokens_or_zero r.prompt_tokens) 0)
  embed_with (openai_error cause) = raised (call_failed model cause)

  unfoldable pub embed :
      (List Text → Wire EmbeddingResponse) → List Text → Outcome (Reply (List (List ℤ)))
  unfolding priced
  embed create texts = embed_with (create texts)
