-- ===== src/Stages.antt =====
-- adapters/pipeline/routing_stage.py, and the chain of stages that config/container.py registers:
-- authorization, policy, routing. Routing works on the world, whose breaker it reads and moves.
pub mod Transport
use enterprise_llm_gateway.Prelude.{
  List, Option, Text, [], codes, if◌then◌else◌, length, map, nat_eq, none, pair_eq, some, text_eq,
  ℕ, ◌++◌, ◌+◌, ◌==◌, ◌∷◌,
}
use enterprise_llm_gateway.Prelude.Decimal.{decimal}
use enterprise_llm_gateway.Prelude.Dict.{get}
use enterprise_llm_gateway.Prelude.Result.{Result, err, ok}
use enterprise_llm_gateway.Authorization.{PermissionResolver, authorization_stage}
use enterprise_llm_gateway.Pipeline.{
  PipelineStage, StageAnswer, StageContext, Value, annotate, continue, execution, flag, mapping,
  nothing, number, opaque, raised, returned, text, texts,
}
use enterprise_llm_gateway.Policy.{PolicyEngine, policy_stage, request_key}
use enterprise_llm_gateway.Routing.{RoutingExecution, RoutingOutcome}
use enterprise_llm_gateway.Routing.Agents.{Agent, Desk, RoutingRequest}
use enterprise_llm_gateway.Routing.Engine.{
  Catalog, RoutingIntegrityError, absent_from_catalog, route,
}
use enterprise_llm_gateway.World.{Env, World, routing_decision}

-- What Python objects that are not modelled do: the text of a value, the `dict` of an object or its
-- exception, and the `repr` of an optional name.
pub record Objects : Type 0 where
  pub shown : Value → Text
  pub dict_of : ℕ → Result (Text × Text) RoutingRequest
  pub name_repr : Option Text → Text

abbrev pub no_request : RoutingRequest
no_request = record { modality = none; prompt = none }

abbrev not_iterable : Text → Result (Text × Text) RoutingRequest
not_iterable type_name =
    err (codes "TypeError", codes "'" ++ (type_name ++ codes "' object is not iterable"))

abbrev not_a_pair : ℕ → ℕ → Result (Text × Text) RoutingRequest
not_a_pair i n = err (
  codes "ValueError",
  codes "dictionary update sequence element #"
      ++ (decimal i ++ (codes " has length " ++ (decimal n ++ codes "; 2 is required"))),
)

-- `dict` of a tuple of texts from the i-th on: each is a pair of characters, and so no key that
-- routing reads is among them.
unfoldable pub dict_of_pairs : ℕ → List Text → Result (Text × Text) RoutingRequest
dict_of_pairs i [] = ok no_request
dict_of_pairs i (t ∷ ts) =
    let rest = dict_of_pairs (i + 1) ts in if length t == 2 then rest else not_a_pair i (length t)

-- `dict(context.attributes.get("request", {}))`
unfoldable pub routing_request : Objects → Option Value → Result (Text × Text) RoutingRequest
unfolding dict_of_pairs
routing_request py none = ok no_request
routing_request py (some nothing) = not_iterable (codes "NoneType")
routing_request py (some (text [])) = ok no_request
routing_request py (some (text (c ∷ t))) = not_a_pair 0 1
routing_request py (some (flag b)) = not_iterable (codes "bool")
routing_request py (some (number n)) = not_iterable (codes "int")
routing_request py (some (texts ts)) = dict_of_pairs 0 ts
routing_request py (some (mapping p)) = ok p.routing
routing_request py (some (execution e)) = not_iterable (codes "RoutingExecution")
routing_request py (some (opaque n)) = py.dict_of n

-- `ROUTING_EXECUTION_KEY`
abbrev pub routing_key : Text
routing_key = codes "routing_execution"

unfoldable pub absent_text : Objects → RoutingIntegrityError → Text
absent_text py (absent_from_catalog name) =
    codes "runtime selected " ++ (py.name_repr name ++ codes ", absent from the catalog")

unfoldable pub routing_answer :
    Objects → Result RoutingIntegrityError RoutingExecution → StageAnswer
unfolding absent_text
routing_answer py (ok e) =
    returned
      (record { action = annotate; reason = none; annotations = (routing_key, execution e) ∷ [] })
routing_answer py (err failure) = raised (codes "RoutingIntegrityError") (absent_text py failure)

-- The part of the world that routing works on, and the world after it.
abbrev pub desk_of : {C : Type 0} → World C → Desk
desk_of w = record { breaker = w.breaker; readings = w.readings; outcomes = [] }

abbrev pub with_desk : {C : Type 0} → Desk → World C → World C
with_desk desk w = record w {
  breaker = desk.breaker;
  readings = desk.readings;
  metrics = map (λ (o : RoutingOutcome). routing_decision o) desk.outcomes ++ w.metrics;
}

module _ (E : Env) (py : Objects) (catalog : Catalog) (agents : List Agent) where
  open E use {Client, clock, uuid_text}

  unfoldable pub route_request :
      ℕ → Text → RoutingRequest → World Client → StageAnswer × World Client
  unfolding routing_answer
  route_request org corr request w =
      let (answer, desk) = route clock catalog agents org corr request (desk_of w) in
      (routing_answer py answer, with_desk desk w)

  -- `AgentRoutingStage.before_request`
  unfoldable pub routing_check : StageContext → World Client → StageAnswer × World Client
  unfolding routing_request route_request
  routing_check context w = elim context.organization_id [
    | none ↦ (returned (record { action = continue; reason = none; annotations = [] }), w)
    | some org ↦ elim (routing_request py (get request_key context.attributes)) [
      | err (type_name, message) ↦ (raised type_name message, w)
      | ok request ↦ route_request org context.correlation_id request w
    ]
  ]

  -- `AgentRoutingStage(engine)`
  unfoldable pub routing_stage : PipelineStage (World Client)
  unfolding routing_check
  routing_stage = record { name = codes "agent_routing"; before_request = routing_check }

-- A stage that works on one part of what the stages share.
unfoldable pub on_left : {A B : Type 0} → PipelineStage A → PipelineStage (A × B)
on_left stage = record {
  name = stage.name;
  before_request =
      λ context (a, b). let (answer, a') = stage.before_request context a in (answer, (a', b));
}

unfoldable pub on_right : {A B : Type 0} → PipelineStage B → PipelineStage (A × B)
on_right stage = record {
  name = stage.name;
  before_request =
      λ context (a, b). let (answer, b') = stage.before_request context b in (answer, (a, b'));
}

module _ (E : Env) (py : Objects) (catalog : Catalog) (agents : List Agent) where
  -- `RequestPipeline((authorization_stage, policy_stage, routing_stage))`: the resolver and the policy
  -- engine have a state of their own.
  unfoldable pub gateway_stages :
      {A : Type 0}
      → PermissionResolver A
      → PolicyEngine A
      → List (PipelineStage (A × World E.Client))
  unfolding on_left on_right authorization_stage policy_stage routing_stage
  gateway_stages resolver engine =
      on_left (authorization_stage py.shown resolver)
      ∷ on_left (policy_stage engine (codes "policy"))
      ∷ on_right (routing_stage E py catalog agents)
      ∷ []
