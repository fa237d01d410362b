-- ===== src/Routing/Engine.antt =====
-- application/agents/runtime.py, application/routing/engine.py and catalog.py: the chain of agents, the
-- decision, and the provider it resolves to.
use enterprise_llm_gateway.Prelude.{
  Bool, List, Option, Text, [], false, if◌then◌else◌, map, nat_eq, none, not, pair_eq, some,
  text_eq, true, ℕ, ◌&&◌, ◌++◌, ◌+◌, ◌==◌, ◌∷◌,
}
use enterprise_llm_gateway.Prelude.Dict.{Dict, get, put}
use enterprise_llm_gateway.Prelude.Result.{Result, err, ok}
use enterprise_llm_gateway.Ports.{ProviderDescriptor}
use enterprise_llm_gateway.Routing.{
  CostDecision, HealthDecision, PolicyDecision, ReasoningStep, RoutingDecision, RoutingExecution,
  RoutingOutcome, all_unhealthy, blocked_by_policy, budget_exceeded, is_selected, no_candidate,
  selected,
}
use enterprise_llm_gateway.Routing.Agents.{
  Agent, AgentContext, Desk, RoutingRequest, cost_agent, health_agent, planner_agent, policy_agent,
  provider_agent,
}
use enterprise_llm_gateway.Routing.Strategy.{select}

-- `AgentRuntime(agents, clock)`: none is the ValueError.
unfoldable pub agent_runtime : List Agent → Option (List Agent)
agent_runtime [] = none
agent_runtime (a ∷ as_) = some (a ∷ as_)

abbrev pub denied : Option PolicyDecision → Bool
denied none = false
denied (some p) = not p.allowed

abbrev pub too_dear : Option CostDecision → Bool
too_dear none = false
too_dear (some c) = not c.within_budget

abbrev pub is_empty : List Text → Bool
is_empty [] = true
is_empty (t ∷ ts) = false

abbrev pub none_usable : Option HealthDecision → Bool
none_usable none = false
none_usable (some h) = is_empty h.healthy_candidates && is_empty h.degraded_candidates

-- `_terminal_outcome`
unfoldable pub terminal_outcome : AgentContext → Option RoutingOutcome
terminal_outcome ctx =
    if denied ctx.policy
    then some blocked_by_policy
    else if too_dear ctx.cost
    then some budget_exceeded
    else if none_usable ctx.health && not (is_empty ctx.candidates)
    then some all_unhealthy
    else none

-- The outcome of a chain that ran to its end.
unfoldable pub final_outcome : AgentContext → RoutingOutcome
final_outcome ctx = elim ctx.selected_provider [ none ↦ no_candidate | some p ↦ selected ]

-- The loop of `decide`, with the steps so far.
unfoldable pub run_agents :
    List Agent
    → AgentContext
    → Desk
    → List ReasoningStep
    → RoutingOutcome × AgentContext × Desk × List ReasoningStep
unfolding terminal_outcome final_outcome
run_agents [] ctx desk steps = (final_outcome ctx, ctx, desk, steps)
run_agents (a ∷ as_) ctx desk steps =
    let (step, ctx', desk') = a.contribute ctx desk in
    let steps' = steps ++ (step ∷ []) in
    let rest = run_agents as_ ctx' desk' steps' in
    elim (terminal_outcome ctx') [ none ↦ rest | some o ↦ (o, ctx', desk', steps') ]

-- `_build`
unfoldable pub build : AgentContext → List ReasoningStep → RoutingOutcome → ℕ → RoutingDecision
build ctx steps o now = record {
  outcome = o;
  organization_id = ctx.organization_id;
  correlation_id = ctx.correlation_id;
  decided_at = now;
  reasoning_steps = steps;
  selected_provider = if is_selected o then ctx.selected_provider else none;
  planner_result = ctx.planner;
  policy_result = ctx.policy;
  cost_result = ctx.cost;
  health_result = ctx.health;
}

-- `AgentContext(…)` at the start of `decide`.
abbrev pub new_context : ℕ → Text → RoutingRequest → List Text → AgentContext
new_context org corr request candidates = record {
  organization_id = org;
  correlation_id = corr;
  request = request;
  candidates = candidates;
  planner = none;
  policy = none;
  cost = none;
  health = none;
  selected_provider = none;
}

-- `AgentRuntime.decide`
unfoldable pub decide :
    (ℕ → ℕ) → List Agent → ℕ → Text → RoutingRequest → List Text → Desk → RoutingDecision × Desk
unfolding run_agents build
decide clock agents org corr request candidates desk =
    let (o, ctx, desk', steps) =
      run_agents agents (new_context org corr request candidates) desk [] in
    (build ctx steps o (clock desk'.readings), record desk' { readings = desk'.readings + 1 })

-- `InMemoryProviderCatalog`
abbrev pub Catalog : Type 0
Catalog = Dict ℕ (List ProviderDescriptor)

unfoldable pub register : ℕ → List ProviderDescriptor → Catalog → Catalog
register org providers catalog = put org providers catalog

abbrev pub or_none : Option (List ProviderDescriptor) → List ProviderDescriptor
or_none none = []
or_none (some ps) = ps

unfoldable pub candidates_for : ℕ → Catalog → List ProviderDescriptor
candidates_for org catalog = or_none (get org catalog)

unfoldable pub find_provider : Text → List ProviderDescriptor → Option ProviderDescriptor
find_provider name [] = none
find_provider name (d ∷ ds) =
    let rest = find_provider name ds in if d.name == name then some d else rest

-- `InMemoryProviderCatalog.get`
unfoldable pub catalog_get : ℕ → Text → Catalog → Option ProviderDescriptor
unfolding find_provider candidates_for
catalog_get org name catalog = find_provider name (candidates_for org catalog)

pub data RoutingIntegrityError : Type 0 where
  absent_from_catalog : Option Text → RoutingIntegrityError

abbrev pub or_empty : Option Text → Text
or_empty none = []
or_empty (some t) = t

-- `route` past the decision.
unfoldable pub resolve :
    ℕ → Catalog → RoutingDecision → Result RoutingIntegrityError RoutingExecution
unfolding catalog_get
resolve org catalog decision =
    if is_selected decision.outcome
    then elim (catalog_get org (or_empty decision.selected_provider) catalog) [
      | none ↦ err (absent_from_catalog decision.selected_provider)
      | some p ↦ ok (record { decision = decision; provider = some p })
    ]
    else ok (record { decision = decision; provider = none })

-- `AgentOrchestratedRoutingEngine.route`
unfoldable pub route :
    (ℕ → ℕ)
    → Catalog
    → List Agent
    → ℕ
    → Text
    → RoutingRequest
    → Desk
    → Result RoutingIntegrityError RoutingExecution × Desk
unfolding decide resolve candidates_for
route clock catalog agents org corr request desk =
    let names = map (λ (d : ProviderDescriptor). d.name) (candidates_for org catalog) in
    let (decision, desk') = decide clock agents org corr request names desk in
    (resolve org catalog decision, record desk' { outcomes = decision.outcome ∷ desk'.outcomes })

-- The chain of config/container.py.
abbrev pub gateway_agents : (ℕ → ℕ) → Bool → Option Text → Text → Bool → List Agent
gateway_agents clock allow reason estimate within_budget =
    planner_agent
    ∷ policy_agent allow reason
    ∷ cost_agent estimate within_budget
    ∷ health_agent clock none
    ∷ provider_agent select
    ∷ []
