-- ===== src/Serving/Tests.antt =====
-- A request of a principal that may invoke, and one of a stranger, through the gateway's chain.
use enterprise_llm_gateway.Prelude.{
  [], codes, mem, nat_eq, none, pair_beq, pair_eq, refl, some, text_beq, text_eq, ℕ, ◌∷◌, ◌≡◌,
}
use enterprise_llm_gateway.Prelude.Dict.{get}
use enterprise_llm_gateway.Prelude.Result.{ok}
use enterprise_llm_gateway.Authorization.{
  authorization_stage, deny_request, difference, on_granted, permissions_key, required_permissions,
  resolve_roles, sorted,
}
use enterprise_llm_gateway.Pipeline.{StageContext, admit, block, mapping, normalise, texts}
use enterprise_llm_gateway.Policy.{request_key}
use enterprise_llm_gateway.Serving.Demo.{stages, start}
use enterprise_llm_gateway.Stages.{gateway_stages, on_left, on_right}

abbrev context_of : ℕ → StageContext
context_of principal = record {
  correlation_id = codes "r1";
  organization_id = some 1;
  principal_id = some principal;
  attributes =
      (permissions_key, texts (codes "inference:invoke" ∷ []))
      ∷ (
        request_key,
        mapping (record {
          routing = record { modality = none; prompt = some (codes "hello") };
          encoded = ok (codes "json");
        }),
      )
      ∷ [];
}

stranger_refused :
    (admit stages (context_of 8) start.admitting).1.decisions ≡ (codes "authorization", block) ∷ []
unfolding admit gateway_stages on_left on_right authorization_stage required_permissions
    resolve_roles difference mem get text_eq text_beq pair_eq pair_beq deny_request normalise sorted
    on_granted
stranger_refused = refl
