-- ===== src/Policy/Tests.antt =====
-- The local engine on a payload that fits exactly, on one that does not, and on one that json refuses.
use enterprise_llm_gateway.Prelude.{
  Text, codes, false, nat_eq, none, pair_eq, refl, text_eq, ℕ, ◌≡◌,
}
use enterprise_llm_gateway.Prelude.Int.{pos}
use enterprise_llm_gateway.Prelude.Result.{err, ok}
use enterprise_llm_gateway.Policy.{PolicyQuery, allows, evaluate_local, local_policy_engine}

abbrev query_of : Text → PolicyQuery
query_of json = record {
  organization_id = 1;
  correlation_id = codes "c1";
  payload = record { routing = record { modality = none; prompt = none }; encoded = ok json };
}

abbrev unencoded : PolicyQuery
unencoded = record {
  organization_id = 1;
  correlation_id = codes "c1";
  payload = record {
    routing = record { modality = none; prompt = none };
    encoded = err (codes "TypeError", codes "?");
  };
}

abbrev plain_uuid : ℕ → Text
plain_uuid n = codes "u"

too_long : allows (evaluate_local plain_uuid 1 (query_of (codes "{}"))).effect ≡ false
unfolding evaluate_local
too_long = refl

unmeasured : allows (evaluate_local plain_uuid 9 unencoded).effect ≡ false
unfolding evaluate_local
unmeasured = refl

no_limit : local_policy_engine (pos 0) ≡ none
unfolding local_policy_engine
no_limit = refl
