-- ===== src/Llm/Client/Tools/Rounds.antt =====
-- What the tool loop spends and which tools it runs.
use contract_change_intel.Prelude.{
  ℕ, zero, suc, ◌+◌, ◌≤◌, ℤ, Text, codes, List, [], ◌∷◌, ◌++◌, Option, none, some, ◌≡◌, refl, ◌∙◌,
  arith, All, All-append, text_eq, inl, inr, Bool-cases, Option-cases, if◌then◌else◌,
}
use mathlib.Core.List.{Memᴰ}
use contract_change_intel.Store.Json.{Json}
use contract_change_intel.Llm.Cost.{Dollars, cost_usd}
use contract_change_intel.Llm.Client.{
  TokenUsage, Wire, answered, openai_error, Response, prompt_of, completion_of, then_outcome,
  priced, usage_record, text_reply,
}
use contract_change_intel.Llm.Client.Tools.{
  LlmTool, ToolCall, Message, Turn, Event, model_call, tool_run, Traced, tool_named, run_calls,
  continue, after_message, after_choice, after_call, round_loop, complete_with_tools,
  load_arguments, tool_result, assistant, system, user,
}
use contract_change_intel.Llm.Failure.{Outcome, returned, raised, Outcome-cases, Reply}

-- The sum of a weight over the model calls.
abbrev pub total : (Option TokenUsage → ℕ) → List Event → ℕ
total weight [] = 0
total weight (model_call usage ∷ events) = weight usage + total weight events
total weight (tool_run t arguments ∷ events) = total weight events

abbrev pub calls_in : List Event → ℕ
calls_in events = total (λ usage. 1) events

-- A run is one of a tool that the caller gave.
abbrev pub IsRegistered : List LlmTool → Event → Type 0
IsRegistered tools (model_call usage) = Unit
IsRegistered tools (tool_run t arguments) = Memᴰ t tools

-- The events are runs of given tools and nothing else.
record IsRuns (tools : List LlmTool) (events : List Event) : Type 0 where
  registered : All (IsRegistered tools) events
  silent : (weight : Option TokenUsage → ℕ) → total weight events ≡ 0

tool_named-given :
    (tools : List LlmTool) (name : Text) {t : LlmTool}
    → tool_named tools name ≡ some t
    → Memᴰ t tools
tool_named-given [] name h = absurd (ground arith)
tool_named-given (x ∷ tools) name {t = t} h = elim (Option-cases (tool_named tools name)) [
  | inl e ↦
      let own : (if text_eq x.name name then some x else none) ≡ some t = rw e at h in
      elim (Bool-cases (text_eq x.name name)) [
        | inl f ↦ let same : some x ≡ some t = rw f at own in Memᴰ.head (cc)
        | inr f ↦ let never : none ≡ some t = rw f at own in absurd (ground arith)
      ]
  | inr (y, e) ↦
      let same : some y ≡ some t = rw e at h in Memᴰ.tail (tool_named-given tools name (e ∙ same))
]

total-append :
    (weight : Option TokenUsage → ℕ) (xs ys : List Event)
    → total weight (xs ++ ys) ≡ total weight xs + total weight ys
total-append weight [] ys = omega arith
total-append weight (model_call usage ∷ xs) ys = omega (arith, total-append weight xs ys)
total-append weight (tool_run t arguments ∷ xs) ys = total-append weight xs ys

-- A reply's usage counts the tokens of all model calls, beside those before them.
abbrev pub IsAccounted : ℕ → ℕ → List Event → Outcome (Reply Text) → Type 0
IsAccounted prompt completion events (raised e) = Unit
IsAccounted prompt completion events (returned reply) =
    (reply.usage.prompt_tokens ≡ prompt + total prompt_of events)
    × (reply.usage.completion_tokens ≡ completion + total completion_of events)

more-IsAccounted :
    (p c : ℕ) (events more : List Event) (o : Outcome (Reply Text))
    → ((weight : Option TokenUsage → ℕ) → total weight events ≡ 0)
    → IsAccounted p c more o
    → IsAccounted p c (events ++ more) o
more-IsAccounted p c events more (raised e) silent h = tt
more-IsAccounted p c events more (returned reply) silent h = (
  omega (arith, h.0, silent prompt_of, total-append prompt_of events more),
  omega (arith, h.1, silent completion_of, total-append completion_of events more),
)

-- At most so many model calls, of which a reply's usage counts all tokens, and runs of given tools.
pub record IsBounded (tools : List LlmTool) (rounds prompt completion : ℕ)
    (o : Outcome (Reply Text)) (events : List Event) : Type 0 where
  pub bounded : calls_in events ≤ rounds
  pub registered : All (IsRegistered tools) events
  pub accounted : IsAccounted prompt completion events o

module _ (dollars : Dollars) (model : Text) (latency_ms : ℕ) (loads : Text → Option Json)
    (dumps : Json → Text) (tools : List LlmTool)
    (create : ℕ → List Turn → Wire (Response Message)) where
  run_calls-IsRuns :
      (calls : List ToolCall) (turns : List Turn)
      → IsRuns tools (run_calls dollars model latency_ms loads dumps tools create calls turns).1
  unfolding run_calls
  run_calls-IsRuns [] turns = record { registered = tt; silent = λ weight. refl }
  run_calls-IsRuns (call ∷ calls) turns = elim (Bool-cases (text_eq call.kind (codes "function"))) [
    | inl k ↦ elim (Option-cases (tool_named tools call.name)) [
      | inl e ↦ rw (k, e) (record { registered = tt; silent = λ weight. refl })
      | inr (t, e) ↦
          let given = tool_named-given tools call.name e in
          elim (Option-cases
            (load_arguments dollars model latency_ms loads dumps tools create call.arguments)) [
              | inl f ↦ rw (k, e, f) (record { registered = tt; silent = λ weight. refl })
              | inr (arguments, f) ↦ elim (Outcome-cases (t.handler arguments)) [
                | inl (result, g) ↦
                    let rest =
                      run_calls-IsRuns calls (turns ++ tool_result call.id (dumps result) ∷ []) in
                    rw (k, e, f, g)
                      (record { registered = (given, rest.registered); silent = rest.silent })
                | inr (z, g) ↦
                    rw (k, e, f, g) (record { registered = (given, tt); silent = λ weight. refl })
              ]
            ]
    ]
    | inr k ↦ rw k (record { registered = tt; silent = λ weight. refl })
  ]

  -- What each run of the rounds that are left is.
  abbrev Bounds : ℕ → (ℕ → ℕ → List Turn → Traced (Reply Text)) → Type 0
  Bounds rounds rest =
      (p c : ℕ) (turns : List Turn)
      → IsBounded tools rounds p c (rest p c turns).0 (rest p c turns).1

  priced-IsAccounted :
      (prompt completion : ℕ) (content : Option Text) (o : Outcome ℤ)
      → IsAccounted prompt completion [] (
          then_outcome
            (λ usage. text_reply dollars model latency_ms usage content)
            (then_outcome
              (λ cost. returned (usage_record dollars model latency_ms prompt completion cost))
              o))
  priced-IsAccounted prompt completion none (returned cost) = (omega arith, omega arith)
  priced-IsAccounted prompt completion (some text) (returned cost) = (omega arith, omega arith)
  priced-IsAccounted prompt completion content (raised e) = tt

  continue-IsBounded :
      (rounds p c : ℕ) (rest : List Turn → Traced (Reply Text)) (runs : Traced (List Turn))
      → IsRuns tools runs.1
      → ((turns : List Turn) → IsBounded tools rounds p c (rest turns).0 (rest turns).1)
      → IsBounded tools rounds p c
          (continue dollars model latency_ms loads dumps tools create rest runs).0
          (continue dollars model latency_ms loads dumps tools create rest runs).1
  continue-IsBounded rounds p c rest (raised e, events) runs ih = record {
    bounded = omega (arith, runs.silent (λ usage. 1));
    registered = runs.registered;
    accounted = tt;
  }
  continue-IsBounded rounds p c rest (returned turns, events) runs ih = record {
    bounded = omega (
      arith,
      (ih turns).bounded,
      runs.silent (λ usage. 1),
      total-append (λ usage. 1) events (rest turns).1,
    );
    registered =
        All-append (IsRegistered tools) events (rest turns).1 runs.registered (ih turns).registered;
    accounted =
        more-IsAccounted p c events (rest turns).1 (rest turns).0 runs.silent (ih turns).accounted;
  }

  after_message-IsBounded :
      (rounds p c : ℕ) (rest : List Turn → Traced (Reply Text)) (message : Message)
      (calls : List ToolCall) (turns : List Turn)
      → ((later : List Turn) → IsBounded tools rounds p c (rest later).0 (rest later).1)
      → IsBounded tools rounds p c
          (after_message dollars model latency_ms loads dumps tools create p c rest message calls
            turns).0
          (after_message dollars model latency_ms loads dumps tools create p c rest message calls
            turns).1
  unfolding priced
  after_message-IsBounded rounds p c rest message [] turns ih = record {
    bounded = omega arith;
    registered = tt;
    accounted = priced-IsAccounted p c message.content (cost_usd dollars model p c);
  }
  after_message-IsBounded rounds p c rest message (call ∷ calls) turns ih =
      continue-IsBounded rounds p c rest
        (run_calls dollars model latency_ms loads dumps tools create (call ∷ calls)
          (turns ++ assistant message ∷ []))
        (run_calls-IsRuns (call ∷ calls) (turns ++ assistant message ∷ [])) ih

  after_choice-IsBounded :
      (rounds p c : ℕ) (rest : List Turn → Traced (Reply Text)) (choice : Option Message)
      (turns : List Turn)
      → ((later : List Turn) → IsBounded tools rounds p c (rest later).0 (rest later).1)
      → IsBounded tools rounds p c
          (after_choice dollars model latency_ms loads dumps tools create p c rest choice turns).0
          (after_choice dollars model latency_ms loads dumps tools create p c rest choice turns).1
  after_choice-IsBounded rounds p c rest none turns ih = record {
    bounded = omega arith;
    registered = tt;
    accounted = tt;
  }
  after_choice-IsBounded rounds p c rest (some message) turns ih =
      after_message-IsBounded rounds p c rest message message.tool_calls turns ih

  -- A model call before the rest adds its tokens and a round.
  prepend-IsAccounted :
      (p c : ℕ) (usage : Option TokenUsage) (events : List Event) (o : Outcome (Reply Text))
      → IsAccounted (p + prompt_of usage) (c + completion_of usage) events o
      → IsAccounted p c (model_call usage ∷ events) o
  prepend-IsAccounted p c usage events (raised e) h = tt
  prepend-IsAccounted p c usage events (returned reply) h = (omega (arith, h.0), omega (arith, h.1))

  after_call-IsBounded :
      (rounds p c : ℕ) (rest : ℕ → ℕ → List Turn → Traced (Reply Text))
      (wire : Wire (Response Message)) (turns : List Turn)
      → Bounds rounds rest
      → IsBounded tools
          (suc rounds)
          p
          c
          (after_call dollars model latency_ms loads dumps tools create p c rest wire turns).0
          (after_call dollars model latency_ms loads dumps tools create p c rest wire turns).1
  after_call-IsBounded rounds p c rest (openai_error cause) turns ih = record {
    bounded = omega arith;
    registered = (tt, tt);
    accounted = tt;
  }
  after_call-IsBounded rounds p c rest (answered r) turns ih =
      let prompt = p + prompt_of r.usage in
      let completion = c + completion_of r.usage in
      let chosen =
        after_choice dollars model latency_ms loads dumps tools create prompt completion
          (rest prompt completion) r.choice turns in
      let done =
        after_choice-IsBounded rounds prompt completion (rest prompt completion) r.choice turns
          (ih prompt completion) in
      record {
        bounded = omega (arith, done.bounded);
        registered = (tt, done.registered);
        accounted = prepend-IsAccounted p c r.usage chosen.1 chosen.0 done.accounted;
      }

  round_loop-IsBounded :
      (exceeded : Text) (rounds n : ℕ)
      → Bounds rounds
          (round_loop dollars model latency_ms loads dumps tools create exceeded rounds n)
  unfolding round_loop
  round_loop-IsBounded exceeded zero n p c turns = record {
    bounded = omega arith;
    registered = tt;
    accounted = tt;
  }
  round_loop-IsBounded exceeded (suc rounds) n p c turns =
      after_call-IsBounded rounds p c
        (λ p c t.
          round_loop dollars model latency_ms loads dumps tools create exceeded rounds (n + 1) p c
            t)
        (create n turns) turns (round_loop-IsBounded exceeded rounds (n + 1))

  -- The tool loop makes at most `max_rounds` model calls and runs only tools that it was given,
  -- whatever the model replies; if it returns an answer, the answer's usage counts the tokens of all
  -- the calls that it made.
  pub complete_with_tools-IsBounded :
      (system_text user_text : Text) (max_rounds : ℕ) (show_rounds : Text)
      → IsBounded tools max_rounds 0 0
          (complete_with_tools dollars model latency_ms loads dumps tools create system_text
            user_text max_rounds show_rounds).0
          (complete_with_tools dollars model latency_ms loads dumps tools create system_text
            user_text max_rounds show_rounds).1
  unfolding complete_with_tools
  complete_with_tools-IsBounded system_text user_text max_rounds show_rounds =
      round_loop-IsBounded
        (codes "model exceeded " ++ (show_rounds ++ codes " tool rounds without a final answer"))
        max_rounds 0 0 0 (system system_text ∷ user user_text ∷ [])
