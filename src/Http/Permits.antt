-- ===== src/Http/Permits.antt =====
-- A caller that holds the permission and whose payload the policy engine allows.
use mathlib.Core.Path.{subst}
use enterprise_llm_gateway.Prelude.{
  List, Option, Text, [], ap, arith, codes, mem, nat_eq, none, pair_eq, refl, some, sym, text_beq,
  text_eq, true, ℕ, ◌∷◌, ◌≡◌,
}
use enterprise_llm_gateway.Prelude.Dict.{get}
use enterprise_llm_gateway.Prelude.Result.{ok}
use enterprise_llm_gateway.Authorization.{
  PermissionResolver, as_attributes, authorization_check, declare, identity, listed,
  required_permissions,
}
use enterprise_llm_gateway.Authorization.Grants.{Granted}
use enterprise_llm_gateway.Http.{
  AuthenticationContext, InferenceBody, canonical_payload, inference_context, inference_permission,
}
use enterprise_llm_gateway.Pipeline.{PayloadDict, StageContext, Value}
use enterprise_llm_gateway.Policy.{
  PolicyEngine, PolicyVerdict, allows, decided, policy_check, request_key, request_payload,
}
use enterprise_llm_gateway.Policy.Allows.{Allowed}

abbrev pub request_dict : InferenceBody → PayloadDict
request_dict body = record {
  routing = record { modality = none; prompt = some body.prompt };
  encoded = ok (canonical_payload body);
}

only_member :
    (permissions granted : List Text)
    → some (inference_permission ∷ []) ≡ some permissions
    → ((p : Text) → mem p permissions ≡ true → mem p granted ≡ true)
    → mem inference_permission granted ≡ true
unfolding mem text_eq text_beq
only_member permissions granted same covers =
    covers inference_permission
      (subst (λ (ps : Option (List Text)). mem inference_permission (listed ps) ≡ true) same refl)

abbrev or_dict : PayloadDict → Option PayloadDict → PayloadDict
or_dict d none = d
or_dict d (some p) = p

module _ {A : Type 0} (resolver : PermissionResolver A) (engine : PolicyEngine A) where
  -- The resolver grants the caller the permission in its organization, and the engine, asked next,
  -- allows the payload.
  pub record Permitted (id : Text) (auth : AuthenticationContext) (body : InferenceBody) (a : A)
      : Type 0 where
    pub granted : List Text
    pub resolved : (resolver auth.principal_id auth.organization_id a).0 ≡ ok granted
    pub holds : mem inference_permission granted ≡ true
    pub verdict : PolicyVerdict
    pub decided_is :
        let a1 = (resolver auth.principal_id auth.organization_id a).1 in
        (engine
          (record {
            organization_id = auth.organization_id;
            correlation_id = id;
            payload = request_dict body;
          })
          a1).0
        ≡ decided verdict
    pub allowed : allows verdict.effect ≡ true

  module _ (shown : Value → Text) (id : Text) (auth : AuthenticationContext) (body : InferenceBody)
      (a : A) where
    abbrev context : StageContext
    context = inference_context id auth body

    identity-context :
        (org principal : ℕ)
        → identity context ≡ some (org, principal)
        → (org ≡ auth.organization_id) × (principal ≡ auth.principal_id)
    unfolding inference_context
    identity-context org principal same = (ground (arith, same), ground (arith, same))

    context-organization :
        (org : ℕ) → context.organization_id ≡ some org → org ≡ auth.organization_id
    unfolding inference_context
    context-organization org same = ground (arith, same)

    context-payload :
        (payload : PayloadDict)
        → request_payload (get request_key context.attributes) ≡ some payload
        → payload ≡ request_dict body
    unfolding inference_context declare as_attributes get text_eq text_beq request_payload
    context-payload payload same = ap (or_dict (request_dict body)) (sym same)

    query_for :
        (org : ℕ) (payload : PayloadDict) (v : PolicyVerdict) (a1 a2 : A)
        → org ≡ auth.organization_id
        → payload ≡ request_dict body
        → a1 ≡ a2
        → (engine (record { organization_id = org; correlation_id = id; payload = payload }) a1).0
          ≡ decided v
        → (engine
            (record {
              organization_id = auth.organization_id;
              correlation_id = id;
              payload = request_dict body;
            })
            a2).0
          ≡ decided v
    query_for org payload v a1 a2 p q r h = cc

    resolved_state :
        (org principal : ℕ)
        → org ≡ auth.organization_id
        → principal ≡ auth.principal_id
        → (authorization_check shown resolver context a).1 ≡ (resolver principal org a).1
        → (authorization_check shown resolver context a).1
          ≡ (resolver auth.principal_id auth.organization_id a).1
    resolved_state org principal p q h = cc

    resolved_for :
        (org principal : ℕ) (granted : List Text)
        → org ≡ auth.organization_id
        → principal ≡ auth.principal_id
        → (resolver principal org a).0 ≡ ok granted
        → (resolver auth.principal_id auth.organization_id a).0 ≡ ok granted
    resolved_for org principal granted p q h = cc

    pub stages-Permitted :
        (org : ℕ)
        → Granted shown resolver context a org (authorization_check shown resolver context a)
        → let a1 = (authorization_check shown resolver context a).1 in
          Allowed engine
            (codes "policy")
            context
            a1
            (policy_check engine (codes "policy") context a1)
          → Permitted id auth body a
    unfolding inference_context declare as_attributes get text_eq text_beq required_permissions
        request_payload
    stages-Permitted org grant permit =
        let (p, q) = identity-context org grant.principal grant.identified in
        record {
          granted = grant.granted;
          resolved = resolved_for org grant.principal grant.granted p q grant.resolved;
          holds = only_member grant.permissions grant.granted grant.declared grant.covers;
          verdict = permit.verdict;
          decided_is =
              query_for permit.org permit.payload permit.verdict
                (authorization_check shown resolver context a).1
                (resolver auth.principal_id auth.organization_id a).1
                (context-organization permit.org permit.org_is)
                (context-payload permit.payload permit.payload_is)
                (resolved_state org grant.principal p q grant.leaves) permit.decided_is;
          allowed = permit.allowed;
        }
