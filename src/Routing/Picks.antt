-- ===== src/Routing/Picks.antt =====
-- Which provider a routed request goes to.
use mathlib.Core.Path.{subst}
use enterprise_llm_gateway.Prelude.{
  Bool, Bool-cases, List, Option, Option-cases, Text, [], ap, arith, false, inl, inr, map, nat_eq,
  none, pair_eq, refl, some, sym, text_eq, true, ℕ, ◌∙◌, ◌∷◌, ◌≡◌, ◌≢◌,
}
use enterprise_llm_gateway.Prelude.Among.{Among, Among-map, map-Among}
use enterprise_llm_gateway.Prelude.Result.{Result, ok}
use enterprise_llm_gateway.Breaker.{
  Breaker, CircuitState, ProviderCircuit, closed, half_open, opened,
}
use enterprise_llm_gateway.Breaker.View.{assess_lem, assessed, report, view}
use enterprise_llm_gateway.Ports.{ProviderDescriptor}
use enterprise_llm_gateway.Routing.{
  HealthDecision, RoutingDecision, RoutingExecution, is_selected, routed,
}
use enterprise_llm_gateway.Routing.Agents.{Desk, RoutingRequest, sort_assessments, usable}
use enterprise_llm_gateway.Routing.Engine.{
  Catalog, RoutingIntegrityError, candidates_for, catalog_get, find_provider, gateway_agents,
  resolve, route,
}
use enterprise_llm_gateway.Routing.Selection.{health_of, made, made-ruling, ruling}
use enterprise_llm_gateway.Routing.Strategy.{select, select-IsLeast}
use enterprise_llm_gateway.Routing.Tiers.{
  circuit, find_provider-Among, least-tier, tier, usable-tier,
}

-- What a reading of the circuits reports of a provider.
abbrev pub state_of : ℕ → ℕ → Breaker → Text → CircuitState
state_of now org b p = (assessed b.config now (view b (org, p))).state

-- The selection among the usable: its circuit is not open, and if it is half-open then no candidate's
-- circuit is closed.
select-usable :
    (now org : ℕ) (names : List Text) (b : Breaker) (p : Text)
    → let h = sort_assessments (map (report b.config now org b) names) in
      select (usable (some h)) ≡ some p
      → Among p names
        × (state_of now org b p ≢ opened)
        × ((q : Text)
            → Among q names
            → state_of now org b p ≡ half_open
            → state_of now org b q ≢ closed)
unfolding usable
select-usable now org names b p eq =
    let reports = map (report b.config now org b) names in
    let h = sort_assessments reports in
    elim (select-IsLeast (usable (some h)) (usable (some h)) (λ c. (λ z. z, λ z. z))).1 [
      | inl nothing ↦ absurd (unfold select in cc)
      | inr (m, chosen, (m_in, m_least)) ↦
          let same : p ≡ m.provider = cc in
          let (q, at, e) =
            Among-map (report b.config now org b) (circuit m.provider (tier m)) names
              (usable-tier m reports m_in) in
          let name : m.provider ≡ q = ap (λ (c : ProviderCircuit). c.provider) e in
          let state : state_of now org b p ≡ tier m =
            ap (λ (t : Text). state_of now org b t) (same ∙ name)
            ∙ sym (ap (λ (c : ProviderCircuit). c.state) e) in
          (
            subst (λ (t : Text). Among t names) (sym (same ∙ name)) at,
            (λ is_open. unfold tier in ground (arith, state, is_open)),
            λ r at_r half shut. absurd (
                least-tier m r reports m_least
                  (subst (λ (c : ProviderCircuit). Among c reports)
                    (ap (λ (s : CircuitState). circuit r s) shut)
                    (map-Among (report b.config now org b) r names at_r))
                  (sym state ∙ half)),
          )
    ]

unselected :
    (names : List Text) (h : HealthDecision)
    → select (usable (some h)) ≡ none
    → is_selected (ruling true true names h) ≡ true
    → ⊥
unfolding ruling
unselected [] h nothing e = ground (arith, nothing, e)
unselected (n ∷ names) h nothing e = ground (arith, nothing, e)

ruling-selected :
    (allow within_budget : Bool) (names : List Text) (h : HealthDecision)
    → is_selected (ruling allow within_budget names h) ≡ true
    → (allow ≡ true) × (within_budget ≡ true) × ((p : Text) × (select (usable (some h)) ≡ some p))
unfolding ruling
ruling-selected false w names h e = absurd (cc)
ruling-selected true false names h e = absurd (cc)
ruling-selected true true names h e = elim (Option-cases (select (usable (some h)))) [
  | inl nothing ↦ absurd (unselected names h nothing e)
  | inr found ↦ (refl, refl, found)
]

routed-some :
    (d : RoutingDecision) (p : ProviderDescriptor)
    → is_selected d.outcome ≡ true
    → routed (record { decision = d; provider = some p }) ≡ some p
routed-some d p h = ground (arith, h)

routed-none :
    (d : RoutingDecision)
    → is_selected d.outcome ≡ false
    → routed (record { decision = d; provider = none }) ≡ none
routed-none d h = ground (arith, h)

module _ (clock : ℕ → ℕ) (reason : Option Text) (estimate : Text) (allow within_budget : Bool)
    (catalog : Catalog) (org : ℕ) (corr : Text) (request : RoutingRequest) (desk : Desk) where
  abbrev names : List Text
  names = map (λ (d : ProviderDescriptor). d.name) (candidates_for org catalog)

  abbrev pub decision : RoutingDecision
  decision = made clock reason estimate org corr request names desk allow within_budget

  -- A provider of the tenant's catalog that the policy and the budget allow, whose circuit is not
  -- open, and is not half-open while another candidate's is closed; or none, and nothing is selected.
  unfoldable pub SoundPick : Option ProviderDescriptor → Type 0
  SoundPick none = is_selected decision.outcome ≡ false
  SoundPick (some d) =
      Among d (candidates_for org catalog)
      × (allow ≡ true)
      × (within_budget ≡ true)
      × (state_of (clock desk.readings) org desk.breaker d.name ≢ opened)
      × ((q : Text)
          → Among q names
          → state_of (clock desk.readings) org desk.breaker d.name ≡ half_open
          → state_of (clock desk.readings) org desk.breaker q ≢ closed)

  -- The execution is the decision's, and what it is routed to is sound.
  pub record Routes (answer : Result RoutingIntegrityError RoutingExecution) : Type 0 where
    pub execution : RoutingExecution
    pub returned : answer ≡ ok execution
    pub decided : execution.decision ≡ decision
    pub explained : execution.decision.reasoning_steps ≢ []
    pub outcome_is :
        execution.decision.outcome
        ≡ ruling allow within_budget names (health_of clock org names desk)
    pub picked : SoundPick (routed execution)

  answer-route :
      (route clock catalog
        (gateway_agents clock allow reason estimate within_budget)
        org
        corr
        request
        desk).0
      ≡ resolve org catalog decision
  unfolding route
  answer-route = refl

  resolve-found :
      (d : ProviderDescriptor) (p : Text)
      → is_selected decision.outcome ≡ true
      → decision.selected_provider ≡ some p
      → find_provider p (candidates_for org catalog) ≡ some d
      → resolve org catalog decision ≡ ok (record { decision = decision; provider = some d })
  unfolding resolve catalog_get
  resolve-found d p is_routed provider_is found = ground (arith, is_routed, provider_is, found)

  -- Whatever the catalog, the circuits and the settings of the agents: `route` with the gateway's
  -- chain of agents returns, and never raises a RoutingIntegrityError. The decision has reasoning
  -- steps, and its outcome is `ruling`'s. If the outcome is SELECTED then the execution is routed to a
  -- provider of the tenant's own catalog, the policy and the budget allow it, its circuit is not
  -- open, and it is half-open only if the circuit of no candidate is closed.
  pub route-Routes :
      Routes
        (route clock catalog
          (gateway_agents clock allow reason estimate within_budget)
          org
          corr
          request
          desk).0
  route-Routes =
      let (outcome_eq, selected_eq, explained) =
        made-ruling clock reason estimate org corr request names desk allow within_budget in
      elim (Bool-cases (is_selected decision.outcome)) [
        | inl is_routed ↦
            let h = health_of clock org names desk in
            let (is_allowed, afforded, (p, chosen)) =
              ruling-selected allow within_budget names h
                (ap is_selected (sym outcome_eq) ∙ is_routed) in
            let reports_eq = (assess_lem (clock desk.readings) org names desk.breaker).0 in
            let (listed, not_open, preferred) =
              select-usable (clock desk.readings) org names desk.breaker p (
                unfold health_of in
                ap (λ (rs : List ProviderCircuit). select (usable (some (sort_assessments rs))))
                  (sym reports_eq)
                ∙ chosen) in
            let (d, found, name_is, at) =
              find_provider-Among p (candidates_for org catalog) listed in
            let provider_is : decision.selected_provider ≡ some p =
              ground (arith, selected_eq, outcome_eq, is_routed, chosen) in
            record {
              execution = record { decision = decision; provider = some d };
              returned = answer-route ∙ resolve-found d p is_routed provider_is found;
              decided = refl;
              explained = explained;
              outcome_is = outcome_eq;
              picked = subst SoundPick (sym (routed-some decision d is_routed)) (
                  unfold SoundPick in
                  (
                    at,
                    is_allowed,
                    afforded,
                    subst (λ (t : Text). state_of (clock desk.readings) org desk.breaker t ≢ opened)
                        (sym name_is) not_open,
                    λ q at_q half.
                        preferred q at_q (
                          ap (state_of (clock desk.readings) org desk.breaker) (sym name_is)
                          ∙ half),
                  ));
            }
        | inr unrouted ↦ record {
          execution = record { decision = decision; provider = none };
          returned = answer-route ∙ (unfold resolve in ground (arith, unrouted));
          decided = refl;
          explained = explained;
          outcome_is = outcome_eq;
          picked =
              subst SoundPick (sym (routed-none decision unrouted)) (unfold SoundPick in unrouted);
        }
      ]
