-- ===== src/Policy/Allows.antt =====
-- When the policy stage lets a request through, and when the local engine does.
use mathlib.Core.Path.{subst}
use enterprise_llm_gateway.Prelude.{
  Bool-cases, Option-cases, Text, [], arith, codes, inl, inr, length, nat_eq, none, pair_eq, refl,
  some, sym, text_eq, true, ℕ, ◌↔◌, ◌∷◌, ◌≡◌, ◌≤◌,
}
use enterprise_llm_gateway.Prelude.Dict.{Dict, get}
use enterprise_llm_gateway.Prelude.Result.{Result-cases, ok}
use enterprise_llm_gateway.Pipeline.{PayloadDict, StageAnswer, StageContext, Value, flag, returned}
use enterprise_llm_gateway.Pipeline.Admission.{Passes}
use enterprise_llm_gateway.Policy.{
  EngineAnswer, PolicyEngine, PolicyQuery, PolicyVerdict, allows, ask, crashed, decided,
  denied_answer, evaluate_local, first_key, is_keyword, is_parameter, no_verdict, on_answer,
  permitted_result, policy_block, policy_check, rejected_by_policy, request_key, request_payload,
  type_error, unreachable,
}

allowed_answer :
    (name : Text) (v : PolicyVerdict) → Passes (on_answer name (decided v)) → allows v.effect ≡ true
unfolding on_answer denied_answer policy_block type_error Passes
allowed_answer name v h = elim (Bool-cases (allows v.effect)) [
  | inl yes_allowed ↦ yes_allowed
  | inr refused ↦ elim (Option-cases (first_key is_keyword v.detail)) [
    | inr (k, f) ↦ ground (arith, f, refused, h)
    | inl f ↦ elim (Option-cases (first_key is_parameter v.detail)) [
      | inr (k, g) ↦ ground (arith, f, g, refused, h)
      | inl g ↦ ground (arith, f, g, refused, h)
    ]
  ]
]

permitted_answer :
    (name : Text) (v : PolicyVerdict)
    → allows v.effect ≡ true
    → on_answer name (decided v) ≡ returned (permitted_result name v)
unfolding on_answer
permitted_answer name v h = ground (arith, h)

module _ {S : Type 0} (engine : PolicyEngine S) (name : Text) (context : StageContext) (s : S) where
  -- The tenant's payload is a dict, and the engine decided to allow it.
  pub record Allowed (z : StageAnswer × S) : Type 0 where
    pub org : ℕ
    pub payload : PayloadDict
    pub verdict : PolicyVerdict
    pub org_is : context.organization_id ≡ some org
    pub payload_is : request_payload (get request_key context.attributes) ≡ some payload
    pub decided_is :
        (engine
          (record {
            organization_id = org;
            correlation_id = context.correlation_id;
            payload = payload;
          })
          s).0
        ≡ decided verdict
    pub allowed : allows verdict.effect ≡ true
    pub answer_is : z.0 ≡ returned (permitted_result name verdict)
    pub leaves :
        z.1
        ≡ (engine
            (record {
              organization_id = org;
              correlation_id = context.correlation_id;
              payload = payload;
            })
            s).1

  Permits : StageAnswer × S → Type 0
  Permits z = Passes z.0 → Allowed z

  blocked-Permits :
      (reason : Text) (more : Dict Text Value) → Permits (policy_block name reason more, s)
  unfolding Permits policy_block Passes
  blocked-Permits reason more h = absurd (cc)

  answered-Allowed :
      (org : ℕ) (payload : PayloadDict)
      → context.organization_id ≡ some org
      → request_payload (get request_key context.attributes) ≡ some payload
      → let query : PolicyQuery = record {
        organization_id = org;
        correlation_id = context.correlation_id;
        payload = payload;
      } in
        (answer : EngineAnswer)
        → (engine query s).0 ≡ answer
        → Passes (on_answer name answer)
        → Allowed (on_answer name answer, (engine query s).1)
  answered-Allowed org payload org_is payload_is (decided v) f h = record {
    org = org;
    payload = payload;
    verdict = v;
    org_is = org_is;
    payload_is = payload_is;
    decided_is = f;
    allowed = allowed_answer name v h;
    answer_is = permitted_answer name v (allowed_answer name v h);
    leaves = refl;
  }
  answered-Allowed org payload org_is payload_is (unreachable t) f h =
      absurd (unfold on_answer policy_block Passes in cc)
  answered-Allowed org payload org_is payload_is (crashed t m) f h =
      absurd (unfold on_answer policy_block Passes in cc)
  answered-Allowed org payload org_is payload_is (no_verdict t) f h =
      absurd (unfold on_answer policy_block Passes in cc)

  ask-Permits :
      (org : ℕ) (payload : PayloadDict)
      → context.organization_id ≡ some org
      → request_payload (get request_key context.attributes) ≡ some payload
      → Permits (ask engine name org payload context s)
  unfolding Permits ask
  ask-Permits org payload org_is payload_is h =
      let query : PolicyQuery = record {
        organization_id = org;
        correlation_id = context.correlation_id;
        payload = payload;
      } in
      answered-Allowed org payload org_is payload_is (engine query s).0 refl h

  policy_check-untenanted :
      context.organization_id ≡ none
      → policy_check engine name context s
        ≡ (policy_block name rejected_by_policy ((codes "untenanted", flag true) ∷ []), s)
  unfolding policy_check
  policy_check-untenanted f = ground (arith, f)

  policy_check-malformed :
      (org : ℕ)
      → context.organization_id ≡ some org
      → request_payload (get request_key context.attributes) ≡ none
      → policy_check engine name context s
        ≡ (policy_block name rejected_by_policy ((codes "malformed_payload", flag true) ∷ []), s)
  unfolding policy_check
  policy_check-malformed org f g = ground (arith, f, g)

  policy_check-asks :
      (org : ℕ) (payload : PayloadDict)
      → context.organization_id ≡ some org
      → request_payload (get request_key context.attributes) ≡ some payload
      → policy_check engine name context s ≡ ask engine name org payload context s
  unfolding policy_check
  policy_check-asks org payload f g = ground (arith, f, g)

  policy-Permits : Permits (policy_check engine name context s)
  policy-Permits = elim (Option-cases context.organization_id) [
    | inl f ↦
        subst Permits (sym (policy_check-untenanted f))
          (blocked-Permits rejected_by_policy ((codes "untenanted", flag true) ∷ []))
    | inr (org, f) ↦ elim (Option-cases (request_payload (get request_key context.attributes))) [
      | inl g ↦
          subst Permits (sym (policy_check-malformed org f g))
            (blocked-Permits rejected_by_policy ((codes "malformed_payload", flag true) ∷ []))
      | inr (payload, g) ↦
          subst Permits (sym (policy_check-asks org payload f g)) (ask-Permits org payload f g)
    ]
  ]

  pub policy-Allowed :
      Passes (policy_check engine name context s).0 → Allowed (policy_check engine name context s)
  unfolding Permits
  policy-Allowed h = policy-Permits h

-- The local engine allows exactly the payloads that json encodes within the limit.
evaluate_local_iff :
    (uuid_text : ℕ → Text) (limit : ℕ) (query : PolicyQuery)
    → (allows (evaluate_local uuid_text limit query).effect ≡ true)
      ↔ ((json : Text) × (query.payload.encoded ≡ ok json) × (length json ≤ limit))
unfolding evaluate_local
evaluate_local_iff uuid_text limit query = elim (Result-cases query.payload.encoded) [
  | inl (json, f) ↦
      (λ h. (json, f, ground (arith, f, h)), λ (j, g, small). ground (arith, f, g, small))
  | inr (e, f) ↦ (λ h. absurd (ground (arith, f, h)), λ (j, g, small). ground (arith, f, g))
]
