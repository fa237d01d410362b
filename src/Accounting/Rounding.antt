-- ===== src/Accounting/Rounding.antt =====
-- Banker's rounding to whole units, and the costs that are made with it.
use enterprise_llm_gateway.Prelude.{
  ap, arith, nat_eq, pair_eq, refl, text_eq, ℕ, ◌%◌, ◌*◌, ◌+◌, ◌≡◌, ◌≤◌,
}
use enterprise_llm_gateway.Prelude.Int.{
  int_laws, neg_part, negsuc, pos, pos_part, ℤ, ◌*ℤ◌, ◌+ℤ◌, ◌≤ℤ◌,
}
use enterprise_llm_gateway.Accounting.{ModelPrice, compute_cost, half_even, quantize}
use enterprise_llm_gateway.Ports.{ProviderUsage}

half_even-near :
    (n : ℕ) → (2 * n ≤ 2000 * half_even n 1000 + 1000) × (2000 * half_even n 1000 ≤ 2 * n + 1000)
unfolding half_even
half_even-near n = ground arith

half_even_mono : (m n : ℕ) → m ≤ n → half_even m 1000 ≤ half_even n 1000
unfolding half_even
half_even_mono m n h = ground arith

half_even-whole : (n : ℕ) → half_even (1000 * n) 1000 ≡ n
unfolding half_even
half_even-whole n = ground arith

half_even-tie : (n : ℕ) → n % 1000 ≡ 500 → half_even n 1000 % 2 ≡ 0
unfolding half_even
half_even-tie n h = ground arith

pub quantize-mono : (a b : ℤ) → a ≤ℤ b → quantize a ≤ℤ quantize b
unfolding quantize
quantize-mono (pos m) (pos n) h = omega (int_laws, half_even_mono m n)
quantize-mono (negsuc m) (pos n) h = omega int_laws
quantize-mono (negsuc m) (negsuc n) h = omega (int_laws, half_even_mono (n + 1) (m + 1))
quantize-mono (pos m) (negsuc n) h = absurd (omega arith)

thousand_pos : (n : ℕ) → pos 1000 *ℤ pos n ≡ pos (1000 * n)
thousand_pos n = omega int_laws

thousand_negsuc : (n : ℕ) → pos 1000 *ℤ negsuc n ≡ negsuc (1000 * n + 999)
thousand_negsuc n = omega int_laws

-- A whole amount is not changed.
pub quantize-whole : (a : ℤ) → quantize (pos 1000 *ℤ a) ≡ a
unfolding quantize
quantize-whole (pos n) = rw (thousand_pos n) (ap pos (half_even-whole n))
quantize-whole (negsuc n) = rw (thousand_negsuc n) (
    let e : 1000 * n + 999 + 1 ≡ 1000 * (n + 1) = omega arith in
    rw e (rw (half_even-whole (n + 1)) (omega int_laws)))

-- An amount is rounded to a nearest whole one: twice the difference is at most one unit.
pub quantize-near :
    (a : ℤ)
    → (pos 2 *ℤ a ≤ℤ pos 2000 *ℤ quantize a +ℤ pos 1000)
      × (pos 2000 *ℤ quantize a ≤ℤ pos 2 *ℤ a +ℤ pos 1000)
unfolding quantize
quantize-near (pos n) = (omega (int_laws, half_even-near n), omega (int_laws, half_even-near n))
quantize-near (negsuc n) =
    (omega (int_laws, half_even-near (n + 1)), omega (int_laws, half_even-near (n + 1)))

-- The total is exactly the sum of the two parts, in the currency of the price; the input part is
-- within half a unit of the prompt tokens times the input price for a thousand of them, and the output
-- part within half a unit of the completion tokens times the output price.
pub compute_cost_lem :
    (usage : ProviderUsage) (price : ModelPrice)
    → let c = compute_cost usage price in
      let exact_input = usage.prompt_tokens *ℤ price.input_price_per_1k in
      let exact_output = usage.completion_tokens *ℤ price.output_price_per_1k in
      (c.total_cost.amount ≡ c.input_cost.amount +ℤ c.output_cost.amount)
      × (c.total_cost.currency ≡ price.currency)
      × (pos 2 *ℤ exact_input ≤ℤ pos 2000 *ℤ c.input_cost.amount +ℤ pos 1000)
      × (pos 2000 *ℤ c.input_cost.amount ≤ℤ pos 2 *ℤ exact_input +ℤ pos 1000)
      × (pos 2 *ℤ exact_output ≤ℤ pos 2000 *ℤ c.output_cost.amount +ℤ pos 1000)
      × (pos 2000 *ℤ c.output_cost.amount ≤ℤ pos 2 *ℤ exact_output +ℤ pos 1000)
unfolding compute_cost
compute_cost_lem usage price =
    let input = quantize-near (usage.prompt_tokens *ℤ price.input_price_per_1k) in
    let output = quantize-near (usage.completion_tokens *ℤ price.output_price_per_1k) in
    (quantize-whole _, refl, input.0, input.1, output.0, output.1)

scale : (a b p : ℕ) → a ≤ b → a * p ≤ b * p
scale a b p h = grind arith

mul_mono : (a b p : ℤ) → a ≤ℤ b → pos 0 ≤ℤ p → a *ℤ p ≤ℤ b *ℤ p
mul_mono a b (pos p) h k =
    let scaled : (pos_part a + neg_part b) * p ≤ (pos_part b + neg_part a) * p = scale _ _ p h in
    omega (int_laws, scaled)
mul_mono a b (negsuc p) h k = absurd (omega arith)

cost-mono : (a b p : ℤ) → a ≤ℤ b → pos 0 ≤ℤ p → quantize (a *ℤ p) ≤ℤ quantize (b *ℤ p)
cost-mono a b p h k = quantize-mono (a *ℤ p) (b *ℤ p) (mul_mono a b p h k)

-- A call that uses no more tokens of either kind than were estimated costs no more than its
-- estimate, where no price is negative.
compute_cost-mono :
    (used estimated : ProviderUsage) (price : ModelPrice)
    → used.prompt_tokens ≤ℤ estimated.prompt_tokens
    → used.completion_tokens ≤ℤ estimated.completion_tokens
    → pos 0 ≤ℤ price.input_price_per_1k
    → pos 0 ≤ℤ price.output_price_per_1k
    → (compute_cost used price).total_cost.amount
      ≤ℤ (compute_cost estimated price).total_cost.amount
unfolding compute_cost
compute_cost-mono used estimated price hp hc ip op =
    let p = price.input_price_per_1k in
    let q = price.output_price_per_1k in
    rw quantize-whole (
      rw quantize-whole (
        omega (
          int_laws,
          cost-mono used.prompt_tokens estimated.prompt_tokens p hp ip,
          cost-mono used.completion_tokens estimated.completion_tokens q hc op,
        )))
