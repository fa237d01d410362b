-- ===== src/Accounting.antt =====
-- application/accounting/cost_accountant.py, estimator.py, ports/pricing.py and
-- adapters/pricing/static_price_table.py. Prices are whole numbers of 10^-8 units for a thousand
-- tokens, so a cost before rounding is a whole number of thousandths of a unit.
pub mod Rounding
mod Tests
use enterprise_llm_gateway.Prelude.{
  List, Option, Text, [], if◌then◌else◌, length, ltb, max, nat_beq, nat_eq, none, pair_eq, some,
  text_eq, ℕ, ◌%◌, ◌*◌, ◌+◌, ◌/◌, ◌||◌, ◌∷◌,
}
use enterprise_llm_gateway.Prelude.Dict.{Dict, get, put}
use enterprise_llm_gateway.Prelude.Int.{ltb_ℤ, negsuc, pos, ℤ, ◌*ℤ◌, ◌+ℤ◌, ◌-ℤ◌}
use enterprise_llm_gateway.Prelude.Result.{Result, err, ok}
use enterprise_llm_gateway.Ledger.{SettlementDetail}
use enterprise_llm_gateway.Money.{Money}
use enterprise_llm_gateway.Ports.{
  InferenceRequest, ProviderDescriptor, ProviderResponse, ProviderUsage,
}

pub record ModelPrice : Type 0 where
  pub provider : Text
  pub model : Text
  pub input_price_per_1k : ℤ
  pub output_price_per_1k : ℤ
  pub currency : Text

-- `StaticPriceTable(prices)`: a later price replaces an earlier one of the same model.
price_entries : List ModelPrice → Dict (Text × Text) ModelPrice → Dict (Text × Text) ModelPrice
price_entries [] d = d
price_entries (p ∷ ps) d = price_entries ps (put (p.provider, p.model) p d)

pub static_price_table : List ModelPrice → Dict (Text × Text) ModelPrice
unfolding price_entries
static_price_table ps = price_entries ps []

-- `StaticPriceTable.price_for` ignores the tenant.
unfoldable pub static_price_for :
    Dict (Text × Text) ModelPrice → ℕ → Text → Text → Option ModelPrice
static_price_for d org provider model = get (provider, model) d

-- ROUND_HALF_EVEN of n / d, for a positive d.
unfoldable pub half_even : ℕ → ℕ → ℕ
half_even n d =
    let q = n / d in
    let r = n % d in
    if ltb (2 * r) d
    then q
    else (if ltb d (2 * r) then q + 1 else (if nat_beq (q % 2) 0 then q else q + 1))

-- `Money.quantize` of an amount in thousandths of a unit: the sign is kept aside.
unfoldable pub quantize : ℤ → ℤ
unfolding half_even
quantize (pos n) = pos (half_even n 1000)
quantize (negsuc n) = pos 0 -ℤ pos (half_even (n + 1) 1000)

pub record Cost : Type 0 where
  pub input_cost : Money
  pub output_cost : Money
  pub total_cost : Money

-- `compute_cost(usage, price)`
unfoldable pub compute_cost : ProviderUsage → ModelPrice → Cost
unfolding quantize
compute_cost usage price =
    let input = quantize (usage.prompt_tokens *ℤ price.input_price_per_1k) in
    let output = quantize (usage.completion_tokens *ℤ price.output_price_per_1k) in
    record {
      input_cost = record { amount = input; currency = price.currency };
      output_cost = record { amount = output; currency = price.currency };
      total_cost = record {
        amount = quantize (pos 1000 *ℤ (input +ℤ output));
        currency = price.currency;
      };
    }

-- `estimate_usage(request)`
unfoldable pub estimate_usage : InferenceRequest → ProviderUsage
estimate_usage request =
    let tokens = max 1 (length request.payload.repr / 4) in
    record { prompt_tokens = pos tokens; completion_tokens = pos tokens }

-- The three exceptions, ACCOUNTING_DEFECTS.
pub data AccountingDefect : Type 0 where
  unknown_price missing_usage malformed_usage : AccountingDefect

pub record CostRecord : Type 0 where
  pub organization_id : ℕ
  pub correlation_id : Text
  pub provider : Text
  pub model : Text
  pub usage : ProviderUsage
  pub cost : Cost

-- A `PricingPort`: the price for a tenant, a provider and a model.
abbrev pub PriceFor : Type 0
PriceFor = ℕ → Text → Text → Option ModelPrice

-- `CostAccountant.account` past the check of the usage.
priced :
    Option ModelPrice
    → ProviderUsage
    → ProviderDescriptor
    → ℕ
    → Text
    → Result AccountingDefect CostRecord
priced none usage provider org corr = err unknown_price
priced (some price) usage provider org corr = ok (record {
  organization_id = org;
  correlation_id = corr;
  provider = provider.name;
  model = provider.model;
  usage = usage;
  cost = compute_cost usage price;
})

checked :
    PriceFor
    → Option ProviderUsage
    → ProviderDescriptor
    → ℕ
    → Text
    → Result AccountingDefect CostRecord
unfolding priced
checked price_for none provider org corr = err missing_usage
checked price_for (some usage) provider org corr =
    if ltb_ℤ usage.prompt_tokens (pos 0) || ltb_ℤ usage.completion_tokens (pos 0)
    then err malformed_usage
    else priced (price_for org provider.name provider.model) usage provider org corr

unfoldable pub account :
    PriceFor → ProviderResponse → ProviderDescriptor → ℕ → Text → Result AccountingDefect CostRecord
unfolding checked
account price_for response provider org corr = checked price_for response.usage provider org corr

-- `SettlementDetail(…)`, as `ReservationService.settle` builds it from the record.
unfoldable pub settlement_detail : CostRecord → SettlementDetail
settlement_detail r = record {
  provider = r.provider;
  model = r.model;
  prompt_tokens = r.usage.prompt_tokens;
  completion_tokens = r.usage.completion_tokens;
  input_cost = r.cost.input_cost;
  output_cost = r.cost.output_cost;
  total_cost = r.cost.total_cost;
}
