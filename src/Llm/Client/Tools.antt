-- ===== src/Llm/Client/Tools.antt =====
-- `complete_with_tools` of app/llm/client.py: the loop of model calls and tool runs.
pub mod Rounds
use contract_change_intel.Prelude.{
  ℕ, zero, suc, ◌+◌, ℤ, Text, codes, List, [], ◌∷◌, ◌++◌, Option, none, some, Bool, true, false,
  text_eq, if◌then◌else◌,
}
use contract_change_intel.Store.Json.{Json}
use contract_change_intel.Repositories.Usage.{LlmUsage}
use contract_change_intel.Llm.Cost.{Dollars}
use contract_change_intel.Llm.Client.{
  TokenUsage, Wire, answered, openai_error, Response, prompt_of, completion_of, then_outcome,
  call_failed, priced, text_reply,
}
use contract_change_intel.Llm.Failure.{
  Failure, output_error, llm_error, value_error, other_error, message_of, Outcome, returned, raised,
  Reply,
}

-- A tool's handler reads: it may raise, and leaves everything as it is.
pub record LlmTool : Type 0 where
  pub name : Text
  pub handler : Json → Outcome Json

pub record ToolCall : Type 0 where
  pub id : Text
  -- `call.type`
  pub kind : Text
  pub name : Text
  -- none for an empty string or a null
  pub arguments : Option Text

pub record Message : Type 0 where
  pub content : Option Text
  pub tool_calls : List ToolCall

-- The messages of a conversation.
pub data Turn : Type 0 where
  system user : Text → Turn
  assistant : Message → Turn
  tool_result : Text → Text → Turn

-- What the loop did: a model call, with the usage that came with it, and a run of a tool.
pub data Event : Type 0 where
  model_call : Option TokenUsage → Event
  tool_run : LlmTool → Json → Event

-- What a part of the loop returns or raises, and what it did before.
abbrev pub Traced : Type 0 → Type 0
Traced A = Outcome A × List Event

abbrev pub or_tool : Option LlmTool → Option LlmTool → Option LlmTool
or_tool none t = t
or_tool (some later) t = some later

-- `by_name.get(name)`: of two tools with the name the later one is in the dictionary.
abbrev pub tool_named : List LlmTool → Text → Option LlmTool
tool_named [] name = none
tool_named (t ∷ tools) name =
    or_tool (tool_named tools name) (if text_eq t.name name then some t else none)

abbrev pub is_llm_error : Failure → Bool
is_llm_error (value_error m) = false
is_llm_error (other_error m) = false
is_llm_error _ = true

-- `except LlmError: raise`, and any other exception as an LlmError.
abbrev pub handler_failure : LlmTool → Failure → Failure
handler_failure t e =
    if is_llm_error e
    then e
    else llm_error (codes "tool handler failed tool=" ++ (t.name ++ (codes ": " ++ message_of e)))

-- `loads` and `dumps` are those of `json`, and `create` is the SDK's call by its number.
module _ (dollars : Dollars) (model : Text) (latency_ms : ℕ) (loads : Text → Option Json)
    (dumps : Json → Text) (tools : List LlmTool)
    (create : ℕ → List Turn → Wire (Response Message)) where
  abbrev pub prepend : {A : Type 0} → Event → Traced A → Traced A
  prepend event (o, events) = (o, event ∷ events)

  -- `json.loads(call.function.arguments or "{}")`
  abbrev pub load_arguments : Option Text → Option Json
  load_arguments none = loads (codes "{}")
  load_arguments (some text) = loads text

  -- One run of a tool; the rest of the calls follow its result.
  abbrev pub after_handler :
      LlmTool
      → ToolCall
      → (List Turn → Traced (List Turn))
      → Outcome Json
      → List Turn
      → Traced (List Turn)
  after_handler t call rest (raised e) turns = (raised (handler_failure t e), [])
  after_handler t call rest (returned result) turns =
      rest (turns ++ tool_result call.id (dumps result) ∷ [])

  abbrev pub run_tool :
      LlmTool
      → ToolCall
      → (List Turn → Traced (List Turn))
      → Option Json
      → List Turn
      → Traced (List Turn)
  run_tool t call rest none turns = (
    raised (output_error (codes "model tool arguments failed to parse model=" ++ model) none),
    [],
  )
  run_tool t call rest (some arguments) turns =
      prepend (tool_run t arguments) (after_handler t call rest (t.handler arguments) turns)

  abbrev pub find_tool :
      ToolCall → (List Turn → Traced (List Turn)) → Option LlmTool → List Turn → Traced (List Turn)
  find_tool call rest none turns =
      (raised (output_error (codes "model requested unregistered tool " ++ call.name) none), [])
  find_tool call rest (some t) turns = run_tool t call rest (load_arguments call.arguments) turns

  -- The loop over the calls of one message.
  unfoldable pub run_calls : List ToolCall → List Turn → Traced (List Turn)
  run_calls [] turns = (returned turns, [])
  run_calls (call ∷ calls) turns =
      let found = find_tool call (run_calls calls) (tool_named tools call.name) turns in
      if text_eq call.kind (codes "function") then found else (
        raised
            (output_error (codes "model requested unsupported tool call type " ++ call.kind) none),
        [],
      )

  abbrev pub continue : (List Turn → Traced (Reply Text)) → Traced (List Turn) → Traced (Reply Text)
  continue rest (raised e, events) = (raised e, events)
  continue rest (returned turns, events) = ((rest turns).0, events ++ (rest turns).1)

  -- The answer, or the tool runs and the rounds behind them.
  abbrev pub after_message :
      ℕ
      → ℕ
      → (List Turn → Traced (Reply Text))
      → Message
      → List ToolCall
      → List Turn
      → Traced (Reply Text)
  after_message prompt completion rest message [] turns = (
    then_outcome (λ usage. text_reply dollars model latency_ms usage message.content)
        (priced dollars model latency_ms prompt completion),
    [],
  )
  after_message prompt completion rest message (call ∷ calls) turns =
      continue rest (run_calls (call ∷ calls) (turns ++ assistant message ∷ []))

  abbrev pub after_choice :
      ℕ → ℕ → (List Turn → Traced (Reply Text)) → Option Message → List Turn → Traced (Reply Text)
  after_choice prompt completion rest none turns =
      (raised (output_error (codes "model returned no choices model=" ++ model) none), [])
  after_choice prompt completion rest (some message) turns =
      after_message prompt completion rest message message.tool_calls turns

  abbrev pub after_call :
      ℕ
      → ℕ
      → (ℕ → ℕ → List Turn → Traced (Reply Text))
      → Wire (Response Message)
      → List Turn
      → Traced (Reply Text)
  after_call prompt completion rest (openai_error cause) turns =
      (raised (call_failed model cause), model_call none ∷ [])
  after_call prompt completion rest (answered r) turns = prepend (model_call r.usage) (
      after_choice (prompt + prompt_of r.usage) (completion + completion_of r.usage)
        (rest (prompt + prompt_of r.usage) (completion + completion_of r.usage)) r.choice turns)

  -- `rounds` rounds are left, of which the next has the number `n`; the tokens are those so far.
  unfoldable pub round_loop : Text → ℕ → ℕ → ℕ → ℕ → List Turn → Traced (Reply Text)
  unfolding run_calls
  round_loop exceeded zero n prompt completion turns = (raised (output_error exceeded none), [])
  round_loop exceeded (suc rounds) n prompt completion turns =
      after_call prompt completion (λ p c t. round_loop exceeded rounds (n + 1) p c t)
        (create n turns) turns

  -- `show_rounds` is the text of `max_rounds`.
  unfoldable pub complete_with_tools : Text → Text → ℕ → Text → Traced (Reply Text)
  unfolding round_loop
  complete_with_tools system_text user_text max_rounds show_rounds =
      round_loop
        (codes "model exceeded " ++ (show_rounds ++ codes " tool rounds without a final answer"))
        max_rounds 0 0 0 (system system_text ∷ user user_text ∷ [])
