-- ===== src/Accounting/Tests.antt =====
-- Costs of concrete calls, and the theorems about costs at one of them.
use enterprise_llm_gateway.Prelude.{codes, nat_eq, pair_eq, refl, text_eq, ◌≡◌}
use enterprise_llm_gateway.Prelude.Int.{pos, ◌*ℤ◌, ◌+ℤ◌, ◌≤ℤ◌}
use enterprise_llm_gateway.Accounting.{ModelPrice, compute_cost, half_even, quantize}
use enterprise_llm_gateway.Accounting.Rounding.{compute_cost_lem}
use enterprise_llm_gateway.Ports.{ProviderUsage}

abbrev price : ModelPrice
price = record {
  provider = codes "openai";
  model = codes "gpt";
  input_price_per_1k = pos 250000;
  output_price_per_1k = pos 1000001;
  currency = codes "USD";
}

abbrev used : ProviderUsage
used = record { prompt_tokens = pos 7; completion_tokens = pos 3 }

abbrev estimated : ProviderUsage
estimated = record { prompt_tokens = pos 8; completion_tokens = pos 8 }

total_4750 : (compute_cost used price).total_cost.amount ≡ pos 4750
unfolding compute_cost quantize half_even ◌*ℤ◌ ◌+ℤ◌
total_4750 = refl

rounds_to_even : quantize (pos 2500) ≡ pos 2
unfolding quantize half_even
rounds_to_even = refl

compute_cost_lem_example :
    let c = compute_cost used price in
    let exact_input = pos 7 *ℤ pos 250000 in
    let exact_output = pos 3 *ℤ pos 1000001 in
    (c.total_cost.amount ≡ c.input_cost.amount +ℤ c.output_cost.amount)
    × (c.total_cost.currency ≡ codes "USD")
    × (pos 2 *ℤ exact_input ≤ℤ pos 2000 *ℤ c.input_cost.amount +ℤ pos 1000)
    × (pos 2000 *ℤ c.input_cost.amount ≤ℤ pos 2 *ℤ exact_input +ℤ pos 1000)
    × (pos 2 *ℤ exact_output ≤ℤ pos 2000 *ℤ c.output_cost.amount +ℤ pos 1000)
    × (pos 2000 *ℤ c.output_cost.amount ≤ℤ pos 2 *ℤ exact_output +ℤ pos 1000)
compute_cost_lem_example = compute_cost_lem used price
