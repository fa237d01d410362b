-- ===== src/Authorization.antt =====
-- application/authorization/requirements.py, adapters/authorization/in_memory_resolver.py and
-- adapters/pipeline/authorization_stage.py: a principal needs every permission that the request
-- declares. A `frozenset` is the list of its members.
pub mod Grants
use enterprise_llm_gateway.Prelude.{
  Bool, List, Option, Text, [], codes, false, if◌then◌else◌, mem, nat_eq, none, not, pair_eq, some,
  text_eq, true, ℕ, ◌++◌, ◌==◌, ◌∷◌,
}
use enterprise_llm_gateway.Prelude.Dict.{Dict, get, put}
use enterprise_llm_gateway.Prelude.Result.{Result, err, ok}
use enterprise_llm_gateway.Pipeline.{
  PipelineStage, StageAnswer, StageContext, StageResult, Value, block, continue, execution, flag,
  mapping, nothing, number, opaque, raised, returned, text, texts,
}
use enterprise_llm_gateway.Routing.Strategy.{text_lt}

-- `REQUIRED_PERMISSIONS_KEY` and `RESOURCE_KEY`
abbrev pub permissions_key : Text
permissions_key = codes "required_permissions"

abbrev pub resource_key : Text
resource_key = codes "resource"

-- `PermissionRequirement`
pub record PermissionRequirement : Type 0 where
  pub permissions : List Text
  pub resource : Option Text

unfoldable pub as_attributes : PermissionRequirement → Dict Text Value
as_attributes r =
    (permissions_key, texts r.permissions)
    ∷ elim r.resource [ none ↦ [] | some t ↦ (resource_key, text t) ∷ [] ]

-- `declare(*permissions, resource=…)`
unfoldable pub declare : List Text → Option Text → Dict Text Value
unfolding as_attributes
declare permissions resource =
    as_attributes (record { permissions = permissions; resource = resource })

-- `undeclared(attributes)`, of the keys
unfoldable pub undeclared : List Text → Bool
undeclared keys = not (mem permissions_key keys)

-- `InMemoryPermissionResolver`
pub record RoleStore : Type 0 where
  pub role_permissions : Dict Text (List Text)
  pub assignments : Dict (ℕ × ℕ) (List Text)

unfoldable pub assign : ℕ → ℕ → List Text → RoleStore → RoleStore
assign org principal roles s = record s { assignments = put (org, principal) roles s.assignments }

abbrev pub listed : Option (List Text) → List Text
listed none = []
listed (some ts) = ts

unfoldable pub permissions_of : Dict Text (List Text) → List Text → List Text
permissions_of roles [] = []
permissions_of roles (r ∷ rs) = listed (get r roles) ++ permissions_of roles rs

unfoldable pub resolve_roles : ℕ → ℕ → RoleStore → List Text
unfolding permissions_of
resolve_roles principal org s =
    permissions_of s.role_permissions (listed (get (org, principal) s.assignments))

-- What `resolve` does: it returns the permissions granted, or raises an exception with its type's
-- name and its text.
abbrev pub PermissionResolver : Type 0 → Type 0
PermissionResolver S = ℕ → ℕ → S → Result (Text × Text) (List Text) × S

-- `NullPermissionResolver`
unfoldable pub null_resolver : {S : Type 0} → PermissionResolver S
null_resolver principal org s = (ok [], s)

-- `InMemoryPermissionResolver`, behind the port
unfoldable pub role_resolver : PermissionResolver RoleStore
unfolding resolve_roles
role_resolver principal org s = (ok (resolve_roles principal org s), s)

-- `required - granted`
unfoldable pub difference : List Text → List Text → List Text
difference [] granted = []
difference (t ∷ ts) granted =
    let rest = difference ts granted in if mem t granted then rest else t ∷ rest

-- `sorted` of a set: a member that occurs again is not repeated.
unfoldable pub insert_sorted : Text → List Text → List Text
unfolding text_lt
insert_sorted t [] = t ∷ []
insert_sorted t (u ∷ us) =
    let rest = insert_sorted t us in
    if t == u then u ∷ us else if text_lt t u then t ∷ u ∷ us else u ∷ rest

unfoldable pub sorted : List Text → List Text
unfolding insert_sorted
sorted [] = []
sorted (t ∷ ts) = insert_sorted t (sorted ts)

-- `context.attributes.get(RESOURCE_KEY)`
abbrev pub or_nothing : Option Value → Value
or_nothing none = nothing
or_nothing (some v) = v

abbrev pub is_nil : List Text → Bool
is_nil [] = true
is_nil (t ∷ ts) = false

-- `_deny(reason, **annotations)` with the stage's name and the resource
unfoldable pub deny_request : Text → Value → Dict Text Value → StageAnswer
deny_request reason resource annotations = returned (record {
  action = block;
  reason = some reason;
  annotations =
      (codes "stage", text (codes "authorization")) ∷ (codes "resource", resource) ∷ annotations;
})

-- `str()` of a value that is neither a `str` nor a tuple is a parameter.
module _ (shown : Value → Text) where
  -- `_required`
  unfoldable pub required_permissions : Option Value → Option (List Text)
  required_permissions none = none
  required_permissions (some nothing) = none
  required_permissions (some (text t)) = some (t ∷ [])
  required_permissions (some (texts ts)) = some ts
  required_permissions (some (flag b)) = some (shown (flag b) ∷ [])
  required_permissions (some (number n)) = some (shown (number n) ∷ [])
  required_permissions (some (mapping p)) = some (shown (mapping p) ∷ [])
  required_permissions (some (execution e)) = some (shown (execution e) ∷ [])
  required_permissions (some (opaque n)) = some (shown (opaque n) ∷ [])

-- The result of a request that is authorized.
abbrev pub authorized : Value → StageResult
authorized resource = record {
  action = continue;
  reason = none;
  annotations =
      (codes "stage", text (codes "authorization"))
      ∷ (codes "authorized", flag true)
      ∷ (codes "resource", resource)
      ∷ [];
}

-- `before_request` past the resolver.
unfoldable pub on_granted : List Text → Value → List Text → StageAnswer
unfolding difference sorted deny_request
on_granted required resource granted =
    let missing = difference required granted in
    if is_nil missing
    then returned (authorized resource)
    else deny_request (codes "principal lacks the required permissions") resource
        ((codes "missing_permissions", texts (sorted missing)) ∷ [])

abbrev pub granted_answer : List Text → Value → Result (Text × Text) (List Text) → StageAnswer
granted_answer required resource (ok granted) = on_granted required resource granted
granted_answer required resource (err (type_name, message)) = raised type_name message

-- `context.organization_id` and `context.principal_id`, if neither is None.
abbrev pub identity : StageContext → Option (ℕ × ℕ)
identity context = elim context.organization_id [
  | none ↦ none
  | some org ↦ elim context.principal_id [ none ↦ none | some principal ↦ some (org, principal) ]
]

module _ {S : Type 0} (shown : Value → Text) (resolver : PermissionResolver S) where
  unfoldable pub resolve_required : List Text → Value → ℕ × ℕ → S → StageAnswer × S
  resolve_required required resource (org, principal) s =
      let (answer, s') = resolver principal org s in (granted_answer required resource answer, s')

  -- `AuthorizationStage.before_request`
  unfoldable pub authorization_check : StageContext → S → StageAnswer × S
  unfolding required_permissions resolve_required deny_request
  authorization_check context s =
      let resource = or_nothing (get resource_key context.attributes) in
      elim (required_permissions shown (get permissions_key context.attributes)) [
        | none ↦ (
          deny_request (codes "request declares no permission requirement") resource
              ((codes "undeclared", flag true) ∷ []),
          s,
        )
        | some required ↦ elim (identity context) [
          | none ↦ (
            deny_request (codes "unauthenticated request") resource
                ((codes "unauthenticated", flag true) ∷ []),
            s,
          )
          | some who ↦ resolve_required required resource who s
        ]
      ]

  -- `AuthorizationStage(resolver)`
  unfoldable pub authorization_stage : PipelineStage S
  unfolding authorization_check
  authorization_stage = record {
    name = codes "authorization";
    before_request = authorization_check;
  }
