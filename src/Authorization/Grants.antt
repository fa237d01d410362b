-- ===== src/Authorization/Grants.antt =====
-- When the authorization stage lets a request through.
use enterprise_llm_gateway.Prelude.{
  List, Option-cases, Text, [], arith, codes, inl, inr, mem, nat_eq, pair_eq, refl, some, text_eq,
  true, ℕ, ◌∷◌, ◌≡◌,
}
use enterprise_llm_gateway.Prelude.Dict.{Dict, get}
use enterprise_llm_gateway.Prelude.Result.{Result-cases, ok}
use enterprise_llm_gateway.Authorization.{
  PermissionResolver, authorization_check, authorized, deny_request, difference, identity, is_nil,
  on_granted, or_nothing, permissions_key, required_permissions, resolve_required, resource_key,
}
use enterprise_llm_gateway.Pipeline.{StageAnswer, StageContext, Value, flag, returned}
use enterprise_llm_gateway.Pipeline.Admission.{Passes}

difference-covers :
    (required granted : List Text) (p : Text)
    → is_nil (difference required granted) ≡ true
    → mem p required ≡ true
    → mem p granted ≡ true
unfolding difference mem
difference-covers [] granted p h at = absurd (cc)
difference-covers (t ∷ ts) granted p h at =
    ground (arith, difference-covers ts granted p, text_eq.equal_iff t p)

covered :
    (required : List Text) (resource : Value) (granted : List Text)
    → Passes (on_granted required resource granted)
    → is_nil (difference required granted) ≡ true
unfolding on_granted deny_request Passes
covered required resource granted h = ground (arith, h)

authorized_answer :
    (required : List Text) (resource : Value) (granted : List Text)
    → is_nil (difference required granted) ≡ true
    → on_granted required resource granted ≡ returned (authorized resource)
unfolding on_granted
authorized_answer required resource granted h = ground (arith, h)

module _ {S : Type 0} (shown : Value → Text) (resolver : PermissionResolver S)
    (context : StageContext) (s : S) where
  -- The request declares permissions, comes from a principal of a tenant, and the resolver grants
  -- that principal every one of them there.
  pub record Granted (org : ℕ) (z : StageAnswer × S) : Type 0 where
    pub principal : ℕ
    pub permissions : List Text
    pub granted : List Text
    pub declared :
        required_permissions shown (get permissions_key context.attributes) ≡ some permissions
    pub identified : identity context ≡ some (org, principal)
    pub resolved : (resolver principal org s).0 ≡ ok granted
    pub covers : (p : Text) → mem p permissions ≡ true → mem p granted ≡ true
    pub answer_is : z.0 ≡ returned (authorized (or_nothing (get resource_key context.attributes)))
    pub leaves : z.1 ≡ (resolver principal org s).1

  -- The outcome of the check, given that it passes.
  Grants : StageAnswer × S → Type 0
  Grants z = Passes z.0 → (org : ℕ) × Granted org z

  denied-Grants :
      (reason : Text) (resource : Value) (more : Dict Text Value)
      → Grants (deny_request reason resource more, s)
  unfolding Grants deny_request Passes
  denied-Grants reason resource more h = absurd (cc)

  resolve_required-Grants :
      (permissions : List Text) (org principal : ℕ)
      → required_permissions shown (get permissions_key context.attributes) ≡ some permissions
      → identity context ≡ some (org, principal)
      → let resource = or_nothing (get resource_key context.attributes) in
        Grants (resolve_required shown resolver permissions resource (org, principal) s)
  unfolding Grants resolve_required
  resolve_required-Grants permissions org principal declared identified h =
      let resource = or_nothing (get resource_key context.attributes) in
      elim (Result-cases (resolver principal org s).0) [
        | inr ((t, m), f) ↦ absurd (unfold Passes in (rw f at h))
        | inl (granted, f) ↦ (
          org,
          record {
            principal = principal;
            permissions = permissions;
            granted = granted;
            declared = declared;
            identified = identified;
            resolved = f;
            covers = λ p at.
                difference-covers permissions granted p
                  (covered permissions resource granted (rw f at h)) at;
            answer_is = rw f (
                authorized_answer permissions resource granted
                  (covered permissions resource granted (rw f at h)));
            leaves = refl;
          },
        )
      ]

  authorization-Grants : Grants (authorization_check shown resolver context s)
  unfolding authorization_check
  authorization-Grants =
      let resource = or_nothing (get resource_key context.attributes) in
      elim (Option-cases (required_permissions shown (get permissions_key context.attributes))) [
        | inl f ↦
            rw (f, authorization_check)
              (denied-Grants (codes "request declares no permission requirement") resource
                ((codes "undeclared", flag true) ∷ []))
        | inr (permissions, f) ↦ elim (Option-cases (identity context)) [
          | inl g ↦
              rw (f, authorization_check)
                (rw (g, authorization_check)
                  (denied-Grants (codes "unauthenticated request") resource
                    ((codes "unauthenticated", flag true) ∷ [])))
          | inr ((org, principal), g) ↦
              rw (f, authorization_check)
                (rw (g, authorization_check)
                  (resolve_required-Grants permissions org principal f g))
        ]
      ]

  pub authorization-Granted :
      Passes (authorization_check shown resolver context s).0
      → (org : ℕ) × Granted org (authorization_check shown resolver context s)
  unfolding Grants
  authorization-Granted h = authorization-Grants h
