-- ===== src/Serving/Spotless.antt =====
-- What the admission of a request leaves alone.
use enterprise_llm_gateway.Prelude.{
  List, [], arith, if-cases, nat_eq, pair_eq, text_eq, ◌++◌, ◌∙◌, ◌∷◌, ◌≡◌,
}
use enterprise_llm_gateway.Prelude.Result.{Result}
use enterprise_llm_gateway.Authorization.{PermissionResolver}
use enterprise_llm_gateway.Pipeline.{
  AdmissionOutcome, Admitting, OutcomeError, PipelineStage, StageContext, StageRecord, admit_from,
  count_decision, is_block, run_stage,
}
use enterprise_llm_gateway.Policy.{PolicyEngine}
use enterprise_llm_gateway.Routing.Agents.{Agent}
use enterprise_llm_gateway.Routing.Engine.{Catalog}
use enterprise_llm_gateway.Stages.{
  Objects, gateway_stages, on_left, on_right, route_request, routing_check, routing_stage,
}
use enterprise_llm_gateway.World.{Env, World}

-- A property of what the stages share that every stage of a chain keeps.
module _ {S : Type 0} (P : S → Type 0) (context : StageContext) where
  abbrev pub AllKeep : List (PipelineStage S) → Type 0
  AllKeep [] = Unit {0}
  AllKeep (stage ∷ stages) = ((s : S) → P s → P (stage.before_request context s).1) × AllKeep stages

  pub admit_from-keeps :
      (before : List StageRecord) (stages : List (PipelineStage S)) (st : Admitting S)
      → AllKeep stages
      → P st.state
      → P (admit_from before stages context st).1.state
  unfolding admit_from run_stage count_decision
  admit_from-keeps before [] st keep h = h
  admit_from-keeps before (stage ∷ stages) st (keep, others) h =
      let (r, st1) = run_stage stage context st in
      if-cases (λ (z : Result OutcomeError AdmissionOutcome × Admitting S). P z.1.state)
        (is_block r.action) (λ blocks. keep st.state h)
        (λ passes.
          admit_from-keeps (before ++ (r ∷ [])) stages (count_decision r st1) others
            (keep st.state h))

module _ (E : Env) where
  open E use {Client, clock}

  -- The ledger, the provider's side and the cache are as before.
  pub record Spotless (w w' : World Client) : Type 0 where
    pub ledger_is : w'.ledger ≡ w.ledger
    pub client_is : w'.client ≡ w.client
    pub cache_is : w'.cache ≡ w.cache

  module _ (py : Objects) (catalog : Catalog) (agents : List Agent) where
    routing_check-Spotless :
        (context : StageContext) (w : World Client)
        → Spotless w (routing_check E py catalog agents context w).1
    unfolding routing_check route_request
    routing_check-Spotless context w = record {
      ledger_is = ground arith;
      client_is = ground arith;
      cache_is = ground arith;
    }

    pub gateway-keeps :
        {A : Type 0} (resolver : PermissionResolver A) (engine : PolicyEngine A)
        (context : StageContext) (w : World Client)
        → AllKeep
            (λ (s : A × World Client). Spotless w s.1)
            context
            (gateway_stages E py catalog agents resolver engine)
    unfolding gateway_stages on_left on_right routing_stage
    gateway-keeps {A} resolver engine context w =
        let routes : (s : A × World Client)
            → Spotless w s.1
            → Spotless w
                ((on_right {A = A} (routing_stage E py catalog agents)).before_request context
                  s).1.1 =
          λ s h.
            let k = routing_check-Spotless context s.1 in
            record {
              ledger_is = k.ledger_is ∙ h.ledger_is;
              client_is = k.client_is ∙ h.client_is;
              cache_is = k.cache_is ∙ h.cache_is;
            } in
        (λ s h. h, (λ s h. h, (routes, tt)))
