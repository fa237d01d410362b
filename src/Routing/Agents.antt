-- ===== src/Routing/Agents.antt =====
-- application/agents/: the agents, and the runtime that runs them and builds the decision. Their
-- `prepare` and `dispose` do nothing. Of a request the planner reads two entries, as `str` gives them.
use enterprise_llm_gateway.Prelude.{
  Bool, List, Option, Text, [], codes, false, if◌then◌else◌, leb, length, map, mem, nat_eq, none,
  pair_eq, some, text_eq, true, ℕ, ◌++◌, ◌+◌, ◌∷◌,
}
use enterprise_llm_gateway.Prelude.Decimal.{decimal}
use enterprise_llm_gateway.Breaker.{Breaker, ProviderCircuit, assess, closed, half_open, opened}
use enterprise_llm_gateway.Routing.{
  CostDecision, HealthDecision, PlannerDecision, PolicyDecision, ReasoningStep, RoutingOutcome,
}
use enterprise_llm_gateway.Routing.Strategy.{RoutingCandidate}

pub record RoutingRequest : Type 0 where
  pub modality : Option Text
  pub prompt : Option Text

pub record AgentContext : Type 0 where
  pub organization_id : ℕ
  pub correlation_id : Text
  pub request : RoutingRequest
  pub candidates : List Text
  pub planner : Option PlannerDecision
  pub policy : Option PolicyDecision
  pub cost : Option CostDecision
  pub health : Option HealthDecision
  pub selected_provider : Option Text

-- What routing shares: the breaker, the readings of the clock taken, and the outcomes counted
-- (`record_routing_decision`), newest first.
pub record Desk : Type 0 where
  pub breaker : Breaker
  pub readings : ℕ
  pub outcomes : List RoutingOutcome

-- A `BaseAgent`.
pub record Agent : Type 0 where
  pub name : Text
  pub contribute : AgentContext → Desk → ReasoningStep × AgentContext × Desk

abbrev pub or_default : Text → Option Text → Text
or_default d none = d
or_default d (some t) = t

-- `PlannerAgent.contribute`
unfoldable pub plan : Text → AgentContext → ReasoningStep × AgentContext
plan name ctx =
    let modality = or_default (codes "chat") ctx.request.modality in
    let prompt = or_default [] ctx.request.prompt in
    let complexity = if leb 2000 (length prompt) then codes "high" else codes "low" in
    (
      record {
        agent = name;
        summary = codes "intent=" ++ (modality ++ (codes " complexity=" ++ complexity));
      },
      record ctx {
        planner = some (record {
          intent = modality;
          complexity = complexity;
          required_capabilities = elim modality [ [] ↦ [] | c ∷ t ↦ (c ∷ t) ∷ [] ];
        });
      },
    )

abbrev pub planner_agent : Agent
planner_agent = record {
  name = codes "planner";
  contribute = λ ctx desk. let (step, ctx') = plan (codes "planner") ctx in (step, ctx', desk);
}

-- `self._reason or "policy"`
abbrev pub reason_or_policy : Option Text → Text
reason_or_policy none = codes "policy"
reason_or_policy (some []) = codes "policy"
reason_or_policy (some (c ∷ t)) = c ∷ t

-- `PolicyAgent.contribute`
unfoldable pub rule : Bool → Option Text → AgentContext → ReasoningStep × AgentContext
rule allow reason ctx = (
  record {
    agent = codes "policy";
    summary = if allow then codes "allowed" else codes "denied: " ++ reason_or_policy reason;
  },
  record ctx { policy = some (record { allowed = allow; reason = reason }) },
)

abbrev pub policy_agent : Bool → Option Text → Agent
policy_agent allow reason = record {
  name = codes "policy";
  contribute = λ ctx desk. let (step, ctx') = rule allow reason ctx in (step, ctx', desk);
}

-- `CostAgent.contribute`; the text is that of the estimate.
unfoldable pub price : Text → Bool → AgentContext → ReasoningStep × AgentContext
price estimate within_budget ctx = (
  record {
    agent = codes "cost";
    summary =
        codes "estimate="
        ++ (estimate
            ++ (codes " ("
                ++ ((if within_budget then codes "within budget" else codes "budget exceeded")
                    ++ codes ")")));
  },
  record ctx { cost = some (record { within_budget = within_budget }) },
)

abbrev pub cost_agent : Text → Bool → Agent
cost_agent estimate within_budget = record {
  name = codes "cost";
  contribute =
      λ ctx desk. let (step, ctx') = price estimate within_budget ctx in (step, ctx', desk);
}

-- The loop of `_assess`: healthy, degraded and excluded.
unfoldable pub sort_assessments : List ProviderCircuit → HealthDecision
sort_assessments [] = record {
  healthy_candidates = [];
  degraded_candidates = [];
  excluded_candidates = [];
}
sort_assessments (a ∷ as_) =
    let rest = sort_assessments as_ in
    elim a.state [
      | opened ↦ record rest { excluded_candidates = a.provider ∷ rest.excluded_candidates }
      | half_open ↦ record rest { degraded_candidates = a.provider ∷ rest.degraded_candidates }
      | closed ↦ record rest { healthy_candidates = a.provider ∷ rest.healthy_candidates }
    ]

-- `HealthAgent(unhealthy=…)` without a breaker.
unfoldable pub trust : List Text → List Text → HealthDecision
trust unhealthy [] = record {
  healthy_candidates = [];
  degraded_candidates = [];
  excluded_candidates = [];
}
trust unhealthy (c ∷ cs) =
    let rest = trust unhealthy cs in
    if mem c unhealthy
    then record rest { excluded_candidates = c ∷ rest.excluded_candidates }
    else record rest { healthy_candidates = c ∷ rest.healthy_candidates }

unfoldable pub health_summary : HealthDecision → Text
health_summary h =
    decimal (length h.healthy_candidates)
    ++ (codes " healthy, "
        ++ (decimal (length h.degraded_candidates)
            ++ (codes " degraded, "
                ++ (decimal (length h.excluded_candidates) ++ codes " excluded"))))

-- `HealthAgent.contribute`, with the breaker's clock, or with the static set.
unfoldable pub check_health :
    (ℕ → ℕ) → Option (List Text) → AgentContext → Desk → ReasoningStep × AgentContext × Desk
unfolding sort_assessments trust health_summary
check_health clock (some unhealthy) ctx desk =
    let h = trust unhealthy ctx.candidates in
    (
      record { agent = codes "health"; summary = health_summary h },
      record ctx { health = some h },
      desk,
    )
check_health clock none ctx desk =
    let (reports, b) =
      assess (clock desk.readings) ctx.organization_id ctx.candidates desk.breaker in
    let h = sort_assessments reports in
    (
      record { agent = codes "health"; summary = health_summary h },
      record ctx { health = some h },
      record desk { breaker = b; readings = desk.readings + 1 },
    )

abbrev pub health_agent : (ℕ → ℕ) → Option (List Text) → Agent
health_agent clock unhealthy = record {
  name = codes "health";
  contribute = check_health clock unhealthy;
}

abbrev pub candidates_of : Bool → List Text → List RoutingCandidate
candidates_of degraded ps = map (λ (p : Text). record { provider = p; degraded = degraded }) ps

-- The usable candidates: healthy, then degraded.
unfoldable pub usable : Option HealthDecision → List RoutingCandidate
usable none = []
usable (some h) =
    candidates_of false h.healthy_candidates ++ candidates_of true h.degraded_candidates

abbrev pub degraded_of : Option HealthDecision → List Text
degraded_of none = []
degraded_of (some h) = h.degraded_candidates

-- `_select` without a strategy.
unfoldable pub first_usable : List RoutingCandidate → Option Text
first_usable [] = none
first_usable (c ∷ cs) = some c.provider

-- `ProviderAgent.contribute`, with the strategy's `select`, or `first_usable`.
unfoldable pub choose :
    (List RoutingCandidate → Option Text) → AgentContext → ReasoningStep × AgentContext
unfolding usable
choose pick ctx =
    let cs = usable ctx.health in
    elim (pick cs) [
      | none ↦ (
        record { agent = codes "provider"; summary = codes "no usable candidate to select" },
        ctx,
      )
      | some p ↦ (
        record {
          agent = codes "provider";
          summary =
              codes "selected "
              ++ (p
                  ++ (codes " ("
                      ++ ((if mem p (degraded_of ctx.health)
                            then codes "degraded"
                            else codes "healthy")
                          ++ (codes ") from "
                              ++ (decimal (length cs) ++ codes " usable candidate(s)")))));
        },
        record ctx { selected_provider = some p },
      )
    ]

abbrev pub provider_agent : (List RoutingCandidate → Option Text) → Agent
provider_agent pick = record {
  name = codes "provider";
  contribute = λ ctx desk. let (step, ctx') = choose pick ctx in (step, ctx', desk);
}
