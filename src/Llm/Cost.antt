-- ===== src/Llm/Cost.antt =====
-- app/llm/cost.py: the cost of a call from the list prices, in dollars.
use contract_change_intel.Prelude.{ℕ, ℤ, Text, codes, Option, none, some, text_eq, if◌then◌else◌}
use contract_change_intel.Llm.Failure.{Outcome, returned, raised, other_error}

-- A price is in cents for a million tokens.
pub record ModelPricing : Type 0 where
  pub input_per_million : ℕ
  pub output_per_million : ℕ

-- Doubles: `tokens / 1_000_000 * price`, and addition.
pub record Dollars : Type 0 where
  pub at_price : ℕ → ℕ → ℤ
  pub plus : ℤ → ℤ → ℤ

unfoldable pub pricing_for : Text → Option ModelPricing
pricing_for model =
    if text_eq model (codes "gpt-4o-mini")
    then some (record { input_per_million = 15; output_per_million = 60 })
    else if text_eq model (codes "gpt-4o")
    then some (record { input_per_million = 250; output_per_million = 1000 })
    else if text_eq model (codes "text-embedding-3-small")
    then some (record { input_per_million = 2; output_per_million = 0 })
    else none

module _ (dollars : Dollars) where
  -- The KeyError of a model without a price.
  abbrev pub price : Text → ℕ → ℕ → Option ModelPricing → Outcome ℤ
  price model prompt_tokens completion_tokens none = raised (other_error model)
  price model prompt_tokens completion_tokens (some p) = returned (
      dollars.plus (dollars.at_price prompt_tokens p.input_per_million)
        (dollars.at_price completion_tokens p.output_per_million))

  unfoldable pub cost_usd : Text → ℕ → ℕ → Outcome ℤ
  unfolding pricing_for
  cost_usd model prompt_tokens completion_tokens =
      price model prompt_tokens completion_tokens (pricing_for model)
