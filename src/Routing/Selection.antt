-- ===== src/Routing/Selection.antt =====
-- What the gateway's chain of agents decides, and what the engine makes of it.
use enterprise_llm_gateway.Prelude.{
  Bool, List, Option, Option-cases, Text, [], arith, false, if◌then◌else◌, inl, inr, nat_eq, none,
  pair_eq, refl, some, text_eq, true, ℕ, ◌&&◌, ◌++◌, ◌∷◌, ◌≡◌, ◌≢◌,
}
use enterprise_llm_gateway.Breaker.{assess}
use enterprise_llm_gateway.Routing.{
  HealthDecision, RoutingDecision, RoutingOutcome, all_unhealthy, blocked_by_policy,
  budget_exceeded, is_selected, no_candidate, selected,
}
use enterprise_llm_gateway.Routing.Agents.{
  Desk, RoutingRequest, candidates_of, check_health, choose, plan, price, rule, sort_assessments,
  usable,
}
use enterprise_llm_gateway.Routing.Engine.{
  build, decide, final_outcome, gateway_agents, is_empty, none_usable, run_agents, terminal_outcome,
}
use enterprise_llm_gateway.Routing.Strategy.{select}

-- What the health agent makes of the candidates, at a reading of the clock.
unfoldable pub health_of : (ℕ → ℕ) → ℕ → List Text → Desk → HealthDecision
health_of clock org candidates desk =
    sort_assessments (assess (clock desk.readings) org candidates desk.breaker).0

-- The outcome, given what the policy and the budget say and what is usable.
unfoldable pub ruling : Bool → Bool → List Text → HealthDecision → RoutingOutcome
ruling allow within_budget candidates h =
    if allow
    then (if within_budget
        then elim (select (usable (some h))) [
          | some p ↦ selected
          | none ↦ elim candidates [ [] ↦ no_candidate | c ∷ cs ↦ all_unhealthy ]
        ]
        else budget_exceeded)
    else blocked_by_policy

select-none :
    (hs ds : List Text)
    → (is_empty hs && is_empty ds)
      ≡ (elim (select (candidates_of false hs ++ candidates_of true ds)) [
        | none ↦ true
        | some p ↦ false
      ])
unfolding select
select-none [] [] = refl
select-none [] (d ∷ ds) = refl
select-none (c ∷ cs) ds = refl

usable-none :
    (h : HealthDecision)
    → none_usable (some h) ≡ (elim (select (usable (some h))) [ none ↦ true | some p ↦ false ])
unfolding usable
usable-none h = select-none h.healthy_candidates h.degraded_candidates

module _ (clock : ℕ → ℕ) (reason : Option Text) (estimate : Text) (org : ℕ) (corr : Text)
    (request : RoutingRequest) (candidates : List Text) (desk : Desk) where
  abbrev pub made : Bool → Bool → RoutingDecision
  made allow within_budget =
      (decide clock (gateway_agents clock allow reason estimate within_budget) org corr request
        candidates desk).0

  pub made-ruling :
      (allow within_budget : Bool)
      → let h = health_of clock org candidates desk in
        let o = ruling allow within_budget candidates h in
        let d = made allow within_budget in
        (d.outcome ≡ o)
        × (d.selected_provider ≡ (if is_selected o then select (usable (some h)) else none))
        × (d.reasoning_steps ≢ [])
  unfolding decide run_agents build terminal_outcome final_outcome health_of ruling choose
      check_health plan rule price
  made-ruling false within_budget = (refl, refl, λ e. cc)
  made-ruling true false = (refl, refl, λ e. cc)
  made-ruling true true =
      let h = health_of clock org candidates desk in
      elim (Option-cases (select (usable (some h)))) [
        | inl f ↦ ground (arith, f, usable-none h)
        | inr (p, f) ↦ ground (arith, f, usable-none h)
      ]
