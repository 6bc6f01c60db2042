-- ===== src/Tests/Clients.antt =====
-- A model that asks for a tool once, an embedding out of order, keys that are asked for twice, a
-- token, and a table as a queue.
use contract_change_intel.Prelude.{
  ℕ, ◌+◌, ◌*◌, ℤ, pos, Text, codes, List, [], ◌∷◌, Option, none, some, true, ◌≡◌, refl, arith,
  Pairwise, exists, text_eq,
}
use contract_change_intel.Store.Json.{Json, null}
use contract_change_intel.Store.Rows.{IngestionJob, Ctx}
use contract_change_intel.Jobs.Table.{new_job}
use contract_change_intel.Jobs.Claims.Invariant.{new_job-IsConsistent}
use contract_change_intel.Jobs.Lifecycle.{IsLeaseQueue, table-IsLeaseQueue}
use contract_change_intel.Llm.Cost.{Dollars}
use contract_change_intel.Llm.Client.{Wire, answered, Response, EmbeddingResponse, embed}
use contract_change_intel.Llm.Client.Embedding.{IsInOrder, embed-IsInOrder}
use contract_change_intel.Llm.Client.Tools.{LlmTool, Message, Turn, complete_with_tools}
use contract_change_intel.Llm.Client.Tools.Rounds.{IsBounded, complete_with_tools-IsBounded}
use contract_change_intel.Llm.Failure.{returned}
use contract_change_intel.Auth.Jwks.{Entry, Lookup, found}
use contract_change_intel.Auth.Jwks.Spacing.{
  Event, tests, answers, Client, IsSpaced, log_of, log_of-IsSpaced,
}
use contract_change_intel.Auth.Verifier.{
  Claim, decoded, Jwt, admin, same_role, before_space, behind_space, Principal, require_role,
}
use contract_change_intel.Chunking.{is_space}
use contract_change_intel.Auth.Verifier.Admitted.{IsVerified, require_role-IsVerified}
use contract_change_intel.Diffing.Keys.{strip}

abbrev at_noon : Ctx
at_noon = record { now = 50; request_id = []; actor = none }

abbrev table : List IngestionJob
table = new_job at_noon 1 7 100 ∷ new_job at_noon 2 7 101 ∷ []

table-IsLeaseQueue_example : IsLeaseQueue table
table-IsLeaseQueue_example =
    table-IsLeaseQueue table ((refl, tt), (tt, tt))
      (new_job-IsConsistent at_noon 1 7 100, (new_job-IsConsistent at_noon 2 7 101, tt))

abbrev sum : ℤ → ℤ → ℤ
sum (pos a) (pos b) = pos (a + b)
sum a b = a

abbrev dollars : Dollars
dollars = record { at_price = λ tokens price. pos (tokens * price); plus = sum }

abbrev mini : Text
mini = codes "gpt-4o-mini"

abbrev loads : Text → Option Json
loads text = some null

abbrev dumps : Json → Text
dumps json = codes "null"

abbrev clock_tool : LlmTool
clock_tool = record { name = codes "clock"; handler = returned }

abbrev asks : Message
asks = record {
  content = none;
  tool_calls =
      record { id = codes "1"; kind = codes "function"; name = codes "clock"; arguments = none }
      ∷ [];
}

abbrev responses : Message
responses = record { content = some (codes "Noon."); tool_calls = [] }

abbrev chat : ℕ → List Turn → Wire (Response Message)
chat ℕ.zero turns = answered (record {
  choice = some asks;
  usage = some (record { prompt_tokens = 5; completion_tokens = 1 });
})
chat (ℕ.suc n) turns = answered (record {
  choice = some responses;
  usage = some (record { prompt_tokens = 8; completion_tokens = 2 });
})

complete_with_tools-IsBounded_example :
    IsBounded
      (clock_tool ∷ [])
      3
      0
      0
      (complete_with_tools dollars mini 4 loads dumps
        (clock_tool ∷ [])
        chat
        (codes "s")
        (codes "u")
        3
        (codes "3")).0
      (complete_with_tools dollars mini 4 loads dumps
        (clock_tool ∷ [])
        chat
        (codes "s")
        (codes "u")
        3
        (codes "3")).1
complete_with_tools-IsBounded_example =
    complete_with_tools-IsBounded dollars mini 4 loads dumps (clock_tool ∷ []) chat (codes "s")
      (codes "u") 3 (codes "3")

abbrev swapped : EmbeddingResponse
swapped = record {
  items =
      record { index = 1; embedding = pos 8 ∷ [] }
      ∷ record { index = 0; embedding = pos 7 ∷ [] }
      ∷ [];
  prompt_tokens = some 3;
}

abbrev small : Text
small = codes "text-embedding-3-small"

abbrev answer_swapped : List Text → Wire EmbeddingResponse
answer_swapped texts = answered swapped

embed-IsInOrder_example :
    IsInOrder dollars small 4 swapped.items
      (embed dollars small 4 answer_swapped (codes "a" ∷ codes "b" ∷ []))
embed-IsInOrder_example =
    embed-IsInOrder dollars small 4 answer_swapped (codes "a" ∷ codes "b" ∷ []) swapped refl
      ((refl, tt), (tt, tt)) (omega arith, (omega arith, tt))

abbrev entry : Entry ℕ
entry = record { kid = some (codes "k"); use_for = none; key = some 1 }

abbrev no_keys : Client ℕ
no_keys = record { waiting = 0; cache = record { keys = []; fetched_at = none } }

-- Two calls overlap, one response has keys, and one comes 35 seconds later for an unknown id.
abbrev events : List (Event ℕ)
events =
    tests 0 0 (codes "other")
    ∷ tests 5 5 (codes "other")
    ∷ answers 10 (some (entry ∷ []))
    ∷ answers 20 none
    ∷ tests 40000000 40000000 (codes "other")
    ∷ []

log_of-IsSpaced_example : Pairwise IsSpaced (log_of 600000000 no_keys events)
log_of-IsSpaced_example = log_of-IsSpaced 600000000 (omega arith) no_keys 0 events (
  omega arith,
  omega arith,
  (omega arith, omega arith, (omega arith, (omega arith, (omega arith, omega arith, tt)))),
)

abbrev claim : Text → Option Claim
claim text = some (record { text = text; is_true = true })

abbrev trusting : Jwt ℕ
trusting = record {
  header_kid = λ token. some (codes "k");
  decode = λ key token. decoded (record {
    sub = claim (codes "ann");
    tenant = claim (codes "7");
    role = claim (codes "admin");
  });
  parse_uuid = λ text. some 7;
  lower = λ text. text;
}

abbrev one_key : Text → Lookup ℕ
one_key kid = found (some 1)

abbrev ann : Principal
ann = record { tenant_id = 7; role = admin; subject = codes "ann" }

require_role-IsVerified_example :
    IsVerified trusting one_key (strip (behind_space trusting (codes "bearer x"))) ann
    × (exists (same_role trusting admin) (admin ∷ []) ≡ true)
    × (text_eq (trusting.lower (before_space trusting (codes "bearer x"))) (codes "bearer") ≡ true)
unfolding require_role is_space
require_role-IsVerified_example =
    require_role-IsVerified trusting one_key (admin ∷ []) (codes "bearer x") ann refl
