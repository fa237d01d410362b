-- ===== src/Routing.antt =====
-- domain/routing/models.py and application/ports/routing.py: a routing decision with its trace,
-- and what the engine makes of it. Reals in the decision (the estimated cost, the confidence) are
-- not read by any code that is modelled, and are left out, as are the `detail` and `metadata` bags.
pub mod Strategy
pub mod Agents
pub mod Engine
pub mod Selection
pub mod Tiers
pub mod Picks
mod Tests
use enterprise_llm_gateway.Prelude.{
  Bool, List, Option, Text, codes, false, if◌then◌else◌, nat_eq, none, pair_eq, text_eq, true, ℕ,
}
use enterprise_llm_gateway.Ports.{ProviderDescriptor}

pub data RoutingOutcome : Type 0 where
  selected no_candidate blocked_by_policy budget_exceeded all_unhealthy : RoutingOutcome

-- `RoutingOutcome.value`
abbrev pub outcome_text : RoutingOutcome → Text
outcome_text selected = codes "selected"
outcome_text no_candidate = codes "no_candidate"
outcome_text blocked_by_policy = codes "blocked_by_policy"
outcome_text budget_exceeded = codes "budget_exceeded"
outcome_text all_unhealthy = codes "all_unhealthy"

pub record ReasoningStep : Type 0 where
  pub agent : Text
  pub summary : Text

pub record PlannerDecision : Type 0 where
  pub intent : Text
  pub complexity : Text
  pub required_capabilities : List Text

pub record PolicyDecision : Type 0 where
  pub allowed : Bool
  pub reason : Option Text

pub record CostDecision : Type 0 where
  pub within_budget : Bool

pub record HealthDecision : Type 0 where
  pub healthy_candidates : List Text
  pub degraded_candidates : List Text
  pub excluded_candidates : List Text

pub record RoutingDecision : Type 0 where
  pub outcome : RoutingOutcome
  pub organization_id : ℕ
  pub correlation_id : Text
  pub decided_at : ℕ
  pub reasoning_steps : List ReasoningStep
  pub selected_provider : Option Text
  pub planner_result : Option PlannerDecision
  pub policy_result : Option PolicyDecision
  pub cost_result : Option CostDecision
  pub health_result : Option HealthDecision

pub record RoutingExecution : Type 0 where
  pub decision : RoutingDecision
  pub provider : Option ProviderDescriptor

abbrev pub is_selected : RoutingOutcome → Bool
is_selected selected = true
is_selected no_candidate = false
is_selected blocked_by_policy = false
is_selected budget_exceeded = false
is_selected all_unhealthy = false

-- The provider of a routed execution: `execution.routed` and `execution.provider is not None`.
abbrev pub routed : RoutingExecution → Option ProviderDescriptor
routed e = if is_selected e.decision.outcome then e.provider else none
