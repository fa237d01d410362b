-- ===== src/Ports.antt =====
-- The vocabulary of backend/src/gateway/application/ports that several components share:
-- ports/providers.py, ports/execution.py and routing/catalog.py. Identifiers (UUIDs) are numbers,
-- since the code only compares them. A payload is kept as the texts that the code computes of it.
use enterprise_llm_gateway.Prelude.{
  Bool, Option, Text, [], false, nat_eq, none, pair_eq, some, text_eq, true, ℕ,
}
use enterprise_llm_gateway.Prelude.Int.{ℤ}

pub data ProviderErrorCategory : Type 0 where
  timeout rate_limited server_error invalid_request authentication : ProviderErrorCategory

-- Membership in TRANSIENT_PROVIDER_ERROR_CATEGORIES, for an optional category.
abbrev pub is_transient : Option ProviderErrorCategory → Bool
is_transient none = false
is_transient (some ProviderErrorCategory.timeout) = true
is_transient (some ProviderErrorCategory.rate_limited) = true
is_transient (some ProviderErrorCategory.server_error) = true
is_transient (some ProviderErrorCategory.invalid_request) = false
is_transient (some ProviderErrorCategory.authentication) = false

pub record ProviderDescriptor : Type 0 where
  pub name : Text
  pub model : Text
  pub region : Text

-- `repr` is str(dict(payload)); `canonical` is its canonical JSON text, none where json raises.
pub record Payload : Type 0 where
  pub repr : Text
  pub canonical : Option Text

pub record InferenceRequest : Type 0 where
  pub correlation_id : Text
  pub payload : Payload

-- An `Any` content: a `str`, or some other value known by a number.
pub data Content : Type 0 where
  text : Text → Content
  object : ℕ → Content
  absent : Content

-- Token counts are Python ints, and a provider may report a negative one.
pub record ProviderUsage : Type 0 where
  pub prompt_tokens : ℤ
  pub completion_tokens : ℤ

pub record ProviderResponse : Type 0 where
  pub ok : Bool
  pub content : Content
  pub error : Option Text
  pub provider : Text
  pub usage : Option ProviderUsage
  pub error_category : Option ProviderErrorCategory

-- `ProviderResponse(ok=False, error=e)`
abbrev pub failure : Text → ProviderResponse
failure e = record {
  ok = false;
  content = absent;
  error = some e;
  provider = [];
  usage = none;
  error_category = none;
}

pub data ExecutionOutcome : Type 0 where
  cache_hit executed not_routed budget_denied budget_unavailable not_accountable : ExecutionOutcome
