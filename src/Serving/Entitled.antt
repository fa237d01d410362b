-- ===== src/Serving/Entitled.antt =====
-- A request is executed only if it is entitled to it, and a request that is refused is not executed.
use enterprise_llm_gateway.Prelude.{
  List, Text, [], ap, arith, codes, false, inl, inr, mem, nat_eq, none, pair_eq, refl, some, sym,
  text_beq, text_eq, true, ℕ, ◌∙◌, ◌∷◌, ◌≡◌,
}
use enterprise_llm_gateway.Prelude.Dict.{get}
use enterprise_llm_gateway.Prelude.Result.{Result-cases, err, ok}
use enterprise_llm_gateway.Authorization.{
  PermissionResolver, authorization_check, authorization_stage, authorized, identity, or_nothing,
  resource_key,
}
use enterprise_llm_gateway.Authorization.Grants.{Granted, authorization-Granted}
use enterprise_llm_gateway.Pipeline.{
  AdmissionOutcome, Admitting, PipelineStage, StageAnswer, StageContext, StageRecord, Value,
  admission_outcome, admit, admitted, annotate, execution, falsy, normalise, raised, repeats,
  request_pipeline, returned,
}
use enterprise_llm_gateway.Pipeline.Admission.{AllPass, Passes, admit-Decides}
use enterprise_llm_gateway.Policy.{
  PolicyEngine, PolicyVerdict, permitted_result, policy_check, policy_stage, request_key,
}
use enterprise_llm_gateway.Policy.Allows.{Allowed, policy-Allowed}
use enterprise_llm_gateway.Routing.{RoutingExecution}
use enterprise_llm_gateway.Routing.Agents.{Agent, RoutingRequest}
use enterprise_llm_gateway.Routing.Engine.{Catalog, route}
use enterprise_llm_gateway.Serving.{transported}
use enterprise_llm_gateway.Serving.Spotless.{Spotless, admit_from-keeps, gateway-keeps}
use enterprise_llm_gateway.Stages.{
  Objects, desk_of, gateway_stages, on_left, on_right, route_request, routing_answer, routing_check,
  routing_key, routing_request, routing_stage,
}
use enterprise_llm_gateway.Stages.Transport.{admit_from-records, records_of}
use enterprise_llm_gateway.World.{Env, World}

-- The keys under which the first two stages annotate are not routing's.
first_two :
    (resource : Value) (v : PolicyVerdict) (e : RoutingExecution)
    → transported (
        normalise (codes "authorization") (returned (authorized resource))
        ∷ normalise (codes "policy") (returned (permitted_result (codes "policy") v))
        ∷ normalise (codes "agent_routing") (
            returned (record {
              action = annotate;
              reason = none;
              annotations = (routing_key, execution e) ∷ [];
            }))
        ∷ [])
      ≡ some e
unfolding transported normalise get text_eq text_beq
first_two resource v e = refl

three_answers :
    {a b c a' b' c' : StageAnswer}
    → a ≡ a'
    → b ≡ b'
    → c ≡ c'
    → transported (
        normalise (codes "authorization") a
        ∷ normalise (codes "policy") b
        ∷ normalise (codes "agent_routing") c
        ∷ [])
      ≡ transported (
          normalise (codes "authorization") a'
          ∷ normalise (codes "policy") b'
          ∷ normalise (codes "agent_routing") c'
          ∷ [])
three_answers p q r = cc

admitted-none : (o : AdmissionOutcome) → o.blocked_by ≡ none → admitted o ≡ true
admitted-none o h = ground (arith, h)

admitted-some : (o : AdmissionOutcome) (by : Text) → o.blocked_by ≡ some by → admitted o ≡ false
admitted-some o by h = ground (arith, h)

records-outcome :
    (rs : List StageRecord) (o : AdmissionOutcome)
    → admission_outcome rs none none ≡ ok o
    → o.records ≡ rs
unfolding admission_outcome
records-outcome [] o h = absurd (cc)
records-outcome (r ∷ rs) o h = ground (arith, h)

module _ (E : Env) (py : Objects) (catalog : Catalog) (agents : List Agent) where
  open E use {Client, clock}

  -- The tenant's request was routed to this execution.
  pub record Routed (context : StageContext) (org : ℕ) (w : World Client) (e : RoutingExecution)
      (z : StageAnswer × World Client) : Type 0 where
    pub request : RoutingRequest
    pub request_is : routing_request py (get request_key context.attributes) ≡ ok request
    pub route_is :
        (route clock catalog agents org context.correlation_id request (desk_of w)).0 ≡ ok e
    pub answer_is :
        z.0
        ≡ returned (record {
          action = annotate;
          reason = none;
          annotations = (routing_key, execution e) ∷ [];
        })

  routing_check-unread :
      (context : StageContext) (org : ℕ) (t m : Text) (w : World Client)
      → context.organization_id ≡ some org
      → routing_request py (get request_key context.attributes) ≡ err (t, m)
      → routing_check E py catalog agents context w ≡ (raised t m, w)
  unfolding routing_check
  routing_check-unread context org t m w f g = ground (arith, f, g)

  routing_check-routes :
      (context : StageContext) (org : ℕ) (request : RoutingRequest) (w : World Client)
      → context.organization_id ≡ some org
      → routing_request py (get request_key context.attributes) ≡ ok request
      → routing_check E py catalog agents context w
        ≡ route_request E py catalog agents org context.correlation_id request w
  unfolding routing_check
  routing_check-routes context org request w f g = ground (arith, f, g)

  Finds : StageContext → ℕ → World Client → StageAnswer × World Client → Type 0
  Finds context org w z = Passes z.0 → (e : RoutingExecution) × Routed context org w e z

  routing-Finds :
      (context : StageContext) (org : ℕ) (w : World Client)
      → context.organization_id ≡ some org
      → Finds context org w (routing_check E py catalog agents context w)
  unfolding Finds
  routing-Finds context org w f =
      elim (Result-cases (routing_request py (get request_key context.attributes))) [
        | inr ((t, m), g) ↦
            rw (routing_check-unread context org t m w f g) (λ h. absurd (unfold Passes in h))
        | inl (request, g) ↦
            rw (routing_check-routes context org request w f g)
              (elim (Result-cases
                (route clock catalog agents org context.correlation_id request (desk_of w)).0) [
                  | inr (failure, r) ↦
                      λ h. absurd (unfold route_request routing_answer Passes in (rw r at h))
                  | inl (e, r) ↦ λ h. (
                    e,
                    record {
                      request = request;
                      request_is = g;
                      route_is = r;
                      answer_is = unfold route_request routing_answer in rw r refl;
                    },
                  )
                ])
      ]

  module _ {A : Type 0} (resolver : PermissionResolver A) (engine : PolicyEngine A)
      (context : StageContext) where
    -- A request that the chain admits: its principal holds every permission that it declares, the
    -- engine, asked in the state that the resolver left, allows its payload, and it was routed.
    pub record Entitled (a : A) (w : World Client) (admission : AdmissionOutcome) : Type 0 where
      pub org : ℕ
      pub chosen : RoutingExecution
      pub grant :
          Granted py.shown resolver context a org (authorization_check py.shown resolver context a)
      pub permit :
          let a1 = (authorization_check py.shown resolver context a).1 in
          Allowed engine
            (codes "policy")
            context
            a1
            (policy_check engine (codes "policy") context a1)
      pub found : Routed context org w chosen (routing_check E py catalog agents context w)
      pub transported_is : transported admission.records ≡ some chosen

    abbrev chain : List (PipelineStage (A × World Client))
    chain = gateway_stages E py catalog agents resolver engine

    registered : request_pipeline chain ≡ ok chain
    unfolding request_pipeline repeats mem text_eq text_beq gateway_stages on_left on_right
        authorization_stage policy_stage routing_stage
    registered = refl

    identity-org :
        (org principal : ℕ)
        → identity context ≡ some (org, principal)
        → context.organization_id ≡ some org
    identity-org org principal h = ground (arith, h)

    passing-Entitled :
        (a : A) (w : World Client) (s' : A × World Client) (admission : AdmissionOutcome)
        → AllPass context chain (a, w) s'
        → admission.records ≡ records_of context chain (a, w)
        → Entitled a w admission
    unfolding gateway_stages on_left on_right authorization_stage policy_stage routing_stage AllPass
        records_of Finds
    passing-Entitled a w s' admission (p1, (p2, (p3, end))) records_is =
        let (org, grant) = authorization-Granted py.shown resolver context a p1 in
        let a1 = (authorization_check py.shown resolver context a).1 in
        let permit = policy-Allowed engine (codes "policy") context a1 p2 in
        let (e, found) =
          routing-Finds context org w (identity-org org grant.principal grant.identified) p3 in
        record {
          org = org;
          chosen = e;
          grant = grant;
          permit = permit;
          found = found;
          transported_is =
              ap transported records_is
              ∙ three_answers grant.answer_is permit.answer_is found.answer_is
              ∙ first_two (or_nothing (get resource_key context.attributes)) permit.verdict e;
        }

    -- What the chain decides: an admitted request is entitled; a refused one is blocked by name with a
    -- reason. Either way the ledger, the provider's side and the cache are untouched.
    pub data Judged (a : A) (w w' : World Client) (admission : AdmissionOutcome) : Type 0 where
      admits :
          admitted admission ≡ true
          → Entitled a w admission
          → Spotless E w w'
          → Judged a w w' admission
      refuses :
          admitted admission ≡ false
          → falsy admission.reason ≡ false
          → Spotless E w w'
          → Judged a w w' admission

    pub admit-Judged :
        (st : Admitting (A × World Client))
        → let (answer, st') = admit chain context st in
          (admission : AdmissionOutcome) × (answer ≡ ok admission)
          × Judged st.state.0 st.state.1 st'.state.1 admission
    unfolding admit
    admit-Judged st =
        let d = admit-Decides context chain chain st registered in
        let (a, w) = st.state in
        let clean =
          admit_from-keeps (λ (s : A × World Client). Spotless E w s.1) context [] chain st
            (gateway-keeps E py catalog agents resolver engine context w)
            (record { ledger_is = refl; client_is = refl; cache_is = refl }) in
        (
          d.outcome,
          d.answers,
          elim d.decision [
            | inl (free, pass, ran) ↦
                admits (admitted-none d.outcome free)
                  (passing-Entitled a w (admit chain context st).1.state d.outcome pass (
                    records-outcome (records_of context chain (a, w)) d.outcome (
                      sym (
                        admit_from-records context [] chain st (admit chain context st).1.state
                          pass)
                      ∙ d.answers)))
                  clean
            | inr (by, ran, by_is, why, stops, ran_is) ↦
                refuses (admitted-some d.outcome by by_is) why clean
          ],
        )
