-- ===== src/Serving/Demo.antt =====
-- A gateway with one provider, one principal that may invoke, and two evaluators, one of which raises.
use enterprise_llm_gateway.Prelude.{
  List, [], codes, nat_eq, none, pair_eq, text_eq, true, ℕ, ◌+◌, ◌∷◌,
}
use enterprise_llm_gateway.Prelude.Result.{err, ok}
use enterprise_llm_gateway.Authorization.{PermissionResolver, RoleStore, resolve_roles}
use enterprise_llm_gateway.Evaluation.{Evaluator, Verdict, usage_consistency}
use enterprise_llm_gateway.Execution.Demo.{demo, openai, served, world}
use enterprise_llm_gateway.Pipeline.{PipelineStage}
use enterprise_llm_gateway.Policy.{local_engine}
use enterprise_llm_gateway.Ports.{InferenceRequest, ProviderDescriptor}
use enterprise_llm_gateway.Routing.Agents.{Agent}
use enterprise_llm_gateway.Routing.Engine.{Catalog, gateway_agents}
use enterprise_llm_gateway.Serving.{Serving}
use enterprise_llm_gateway.Stages.{Objects, gateway_stages}
use enterprise_llm_gateway.StreamPort.{Upstream, chunk, emit, stopped}
use enterprise_llm_gateway.World.{World}

abbrev pub py : Objects
py = record {
  shown = λ v. codes "?";
  dict_of = λ n. err (codes "TypeError", codes "?");
  name_repr = λ n. codes "?";
}

abbrev pub roles : RoleStore
roles = record {
  role_permissions = (codes "developer", codes "inference:invoke" ∷ []) ∷ [];
  assignments = ((1, 7), codes "developer" ∷ []) ∷ [];
}

abbrev pub by_roles : PermissionResolver RoleStore
by_roles principal org s = (ok (resolve_roles principal org s), s)

abbrev pub catalog : Catalog
catalog = (1, openai ∷ []) ∷ []

abbrev pub agents : List Agent
agents = gateway_agents (λ n. n + 1000) true none (codes "0") true

abbrev pub start : Serving RoleStore ℕ ℕ
start = record {
  admitting = record { state = (roles, world 5000); decisions = [] };
  slept = [];
  evaluating = record { state = 0; counted = [] };
}

abbrev pub evaluators : List (Evaluator ℕ)
evaluators =
    record {
      name = codes "usage";
      evaluate = λ target n. (Verdict.returned (usage_consistency (codes "usage") target), n + 1);
    }
    ∷ record {
      name = codes "broken";
      evaluate = λ target n. (Verdict.raised (codes "E") (codes "x"), n + 1);
    }
    ∷ []

abbrev pub stages : List (PipelineStage (RoleStore × World ℕ))
stages = gateway_stages (demo served) py catalog agents by_roles (local_engine (λ n. []) 100)

abbrev pub source : ProviderDescriptor → InferenceRequest → ℕ → Upstream × ℕ
source provider asked calls = (emit (chunk (codes "h")) stopped, calls + 1)
