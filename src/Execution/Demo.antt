-- ===== src/Execution/Demo.antt =====
-- A small gateway for the tests: one organization with a limit, and a provider that counts its calls
-- and answers every request in the same way.
use enterprise_llm_gateway.Prelude.{
  [], codes, false, nat_eq, none, pair_eq, some, text_eq, true, ℕ, ◌+◌, ◌∷◌,
}
use enterprise_llm_gateway.Prelude.Int.{pos}
use enterprise_llm_gateway.Accounting.{ModelPrice}
use enterprise_llm_gateway.Ledger.{new_org}
use enterprise_llm_gateway.Ports.{
  Content, InferenceRequest, ProviderDescriptor, ProviderResponse, absent, timeout,
}
use enterprise_llm_gateway.Routing.{RoutingExecution, selected}
use enterprise_llm_gateway.World.{Env, World}

abbrev pub openai : ProviderDescriptor
openai = record { name = codes "openai"; model = codes "gpt"; region = codes "global" }

abbrev pub price : ModelPrice
price = record {
  provider = codes "openai";
  model = codes "gpt";
  input_price_per_1k = pos 250000;
  output_price_per_1k = pos 1000000;
  currency = codes "USD";
}

abbrev pub served : ProviderResponse
served = record {
  ok = true;
  content = Content.text (codes "hi");
  error = none;
  provider = codes "openai";
  usage = some (record { prompt_tokens = pos 4; completion_tokens = pos 2 });
  error_category = none;
}

abbrev pub timed_out : ProviderResponse
timed_out = record {
  ok = false;
  content = absent;
  error = some (codes "timeout");
  provider = codes "openai";
  usage = none;
  error_category = some timeout;
}

-- The client's state is the number of calls; its answer is fixed.
abbrev pub demo : ProviderResponse → Env
demo response = record {
  Client = ℕ;
  invoke = λ provider request calls. (response, calls + 1);
  price_for = λ org provider model. some price;
  clock = λ n. n + 1000;
  sha256 = λ t. t;
  uuid_text = λ n. (n + 1) ∷ [];
  reservation_ttl = 60;
}

abbrev pub request : InferenceRequest
request = record {
  correlation_id = codes "r1";
  payload = record { repr = codes "payload"; canonical = some (codes "json") };
}

abbrev pub execution : RoutingExecution
execution = record {
  decision = record {
    outcome = selected;
    organization_id = 1;
    correlation_id = codes "r1";
    decided_at = 0;
    reasoning_steps = record { agent = codes "provider"; summary = codes "selected openai" } ∷ [];
    selected_provider = some (codes "openai");
    planner_result = none;
    policy_result = none;
    cost_result = none;
    health_result = none;
  };
  provider = some openai;
}

-- The limit is so many units.
abbrev pub world : ℕ → World ℕ
world limit = record {
  ledger = record {
    orgs = (1, new_org (some (record { amount = pos limit; currency = codes "USD" }))) ∷ [];
    unavailable = false;
  };
  breaker = record {
    config = record { failure_threshold = 5; cooldown = 30 };
    circuits = [];
    transitions = [];
  };
  cache = record { entries = []; ttl = 300; unavailable = false };
  client = 0;
  readings = 0;
  metrics = [];
}
