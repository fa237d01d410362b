-- ===== src/Policy.antt =====
-- application/ports/policy.py, adapters/policy/local_policy_engine.py and
-- adapters/pipeline/policy_stage.py: whether a request is permitted at all.
pub mod Allows
mod Tests
use enterprise_llm_gateway.Prelude.{
  Bool, Option, Text, [], codes, false, if◌then◌else◌, length, ltb, nat_eq, none, not, pair_eq,
  some, suc, text_eq, true, zero, ℕ, ◌&&◌, ◌++◌, ◌==◌, ◌||◌, ◌∷◌,
}
use enterprise_llm_gateway.Prelude.Dict.{Dict, get}
use enterprise_llm_gateway.Prelude.Int.{ltb_ℤ, pos, pos_part, ℤ}
use enterprise_llm_gateway.Prelude.Result.{err, ok}
use enterprise_llm_gateway.Pipeline.{
  PayloadDict, PipelineStage, StageAnswer, StageContext, StageResult, Value, block, continue,
  execution, falsy, flag, mapping, merge, nothing, number, opaque, raised, returned, text, texts,
}

pub data PolicyEffect : Type 0 where
  allow deny : PolicyEffect

pub record PolicyQuery : Type 0 where
  pub organization_id : ℕ
  pub correlation_id : Text
  pub payload : PayloadDict

pub record PolicyVerdict : Type 0 where
  pub effect : PolicyEffect
  pub reason : Text
  pub rule : Text
  pub detail : Dict Text Value

abbrev pub allows : PolicyEffect → Bool
allows allow = true
allows deny = false

-- `PolicyVerdict(…)`: none is the ValueError of a denial without a reason.
unfoldable pub policy_verdict : PolicyEffect → Text → Text → Dict Text Value → Option PolicyVerdict
policy_verdict effect reason rule detail =
    if not (allows effect) && falsy (some reason)
    then none
    else some (record { effect = effect; reason = reason; rule = rule; detail = detail })

-- What `evaluate` does: it returns a verdict or an object of another type, or it raises
-- `PolicyEngineUnavailableError` with a text, or another exception with its type's name and its text.
pub data EngineAnswer : Type 0 where
  decided : PolicyVerdict → EngineAnswer
  no_verdict : Text → EngineAnswer
  unreachable : Text → EngineAnswer
  crashed : Text → Text → EngineAnswer

-- A `PolicyEnginePort` over the state that the stages share.
abbrev pub PolicyEngine : Type 0 → Type 0
PolicyEngine S = PolicyQuery → S → EngineAnswer × S

-- `LocalPolicyEngine(max_request_bytes)`: none is the ValueError.
unfoldable pub local_policy_engine : ℤ → Option ℕ
local_policy_engine limit = if ltb_ℤ limit (pos 1) then none else some (pos_part limit)

-- `_DENIAL_REASON` and `_BLOCKED_REASON`
abbrev pub rejected_by_policy : Text
rejected_by_policy = codes "request rejected by policy"

abbrev pub size_rule : Text
size_rule = codes "max_request_bytes"

-- `LocalPolicyEngine.evaluate`; the encoded text is ASCII, so its bytes are its characters.
unfoldable pub evaluate_local : (ℕ → Text) → ℕ → PolicyQuery → PolicyVerdict
evaluate_local uuid_text limit query = elim query.payload.encoded [
  | err (type_name, message) ↦ record {
    effect = deny;
    reason = rejected_by_policy;
    rule = size_rule;
    detail =
        (codes "organization_id", text (uuid_text query.organization_id))
        ∷ (codes "unmeasurable_payload", flag true)
        ∷ (codes "error", text (type_name ++ (codes ": " ++ message)))
        ∷ [];
  }
  | ok json ↦
      if ltb limit (length json)
      then record {
        effect = deny;
        reason = rejected_by_policy;
        rule = size_rule;
        detail =
            (codes "organization_id", text (uuid_text query.organization_id))
            ∷ (codes "request_bytes", number (length json))
            ∷ (codes "limit_bytes", number limit)
            ∷ [];
      }
      else record {
        effect = allow;
        reason = [];
        rule = size_rule;
        detail =
            (codes "request_bytes", number (length json))
            ∷ (codes "limit_bytes", number limit)
            ∷ [];
      }
]

unfoldable pub local_engine : {S : Type 0} → (ℕ → Text) → ℕ → PolicyEngine S
unfolding evaluate_local
local_engine uuid_text limit query s = (decided (evaluate_local uuid_text limit query), s)

-- `{}`
abbrev pub empty_dict : PayloadDict
empty_dict = record {
  routing = record { modality = none; prompt = none };
  encoded = ok (codes "{}");
}

-- `context.attributes.get(REQUEST_PAYLOAD_KEY) or {}`, if that is a dict.
unfoldable pub request_payload : Option Value → Option PayloadDict
request_payload none = some empty_dict
request_payload (some nothing) = some empty_dict
request_payload (some (text [])) = some empty_dict
request_payload (some (text (c ∷ t))) = none
request_payload (some (flag false)) = some empty_dict
request_payload (some (flag true)) = none
request_payload (some (number zero)) = some empty_dict
request_payload (some (number (suc n))) = none
request_payload (some (texts [])) = some empty_dict
request_payload (some (texts (t ∷ ts))) = none
request_payload (some (mapping p)) = some p
request_payload (some (execution e)) = none
request_payload (some (opaque n)) = none

-- `REQUEST_PAYLOAD_KEY`
abbrev pub request_key : Text
request_key = codes "request"

-- `_block(reason, **annotations)`
unfoldable pub policy_block : Text → Text → Dict Text Value → StageAnswer
unfolding merge
policy_block name reason annotations = returned (record {
  action = block;
  reason = some reason;
  annotations = merge ((codes "stage", text name) ∷ []) annotations;
})

-- The first key of a dict that passes a test.
unfoldable pub first_key : (Text → Bool) → Dict Text Value → Option Text
first_key p [] = none
first_key p ((k, v) ∷ d) = let rest = first_key p d in if p k then some k else rest

-- In `_block(verdict.reason, policy_denied=True, rule=…, **detail)` a detail with one of these keys
-- is a TypeError.
abbrev pub is_keyword : Text → Bool
is_keyword k = k == codes "policy_denied" || k == codes "rule"

abbrev pub is_parameter : Text → Bool
is_parameter k = k == codes "self" || k == codes "reason"

unfoldable pub type_error : Text → Text → StageAnswer
type_error what k = raised (codes "TypeError") (what ++ (codes " '" ++ (k ++ codes "'")))

unfoldable pub denied_answer : Text → PolicyVerdict → StageAnswer
unfolding policy_block first_key type_error
denied_answer name v = elim (first_key is_keyword v.detail) [
  | some k ↦
      type_error
        (codes
          "gateway.adapters.pipeline.policy_stage.PolicyStage._block() got multiple values for keyword argument")
        k
  | none ↦ elim (first_key is_parameter v.detail) [
    | some k ↦ type_error (codes "PolicyStage._block() got multiple values for argument") k
    | none ↦
        policy_block name v.reason
          (merge ((codes "policy_denied", flag true) ∷ (codes "rule", text v.rule) ∷ []) v.detail)
  ]
]

-- The result of a request that the engine allows.
abbrev pub permitted_result : Text → PolicyVerdict → StageResult
permitted_result name v = record {
  action = continue;
  reason = none;
  annotations =
      (codes "stage", text name)
      ∷ (codes "policy_allowed", flag true)
      ∷ (codes "rule", text v.rule)
      ∷ [];
}

-- `before_request` past the engine's answer.
unfoldable pub on_answer : Text → EngineAnswer → StageAnswer
unfolding policy_block denied_answer
on_answer name (unreachable message) =
    policy_block name rejected_by_policy
      ((codes "policy_unavailable", flag true) ∷ (codes "detail", text message) ∷ [])
on_answer name (crashed type_name message) = policy_block name rejected_by_policy (
    (codes "policy_error", flag true)
    ∷ (codes "detail", text (type_name ++ (codes ": " ++ message)))
    ∷ [])
on_answer name (no_verdict type_name) = policy_block name rejected_by_policy (
    (codes "malformed_verdict", flag true)
    ∷ (codes "detail", text (codes "engine returned " ++ type_name))
    ∷ [])
on_answer name (decided v) =
    if allows v.effect then returned (permitted_result name v) else denied_answer name v

module _ {S : Type 0} (engine : PolicyEngine S) (name : Text) where
  -- The engine is asked about the tenant's payload.
  unfoldable pub ask : ℕ → PayloadDict → StageContext → S → StageAnswer × S
  unfolding on_answer
  ask org payload context s =
      let (answer, s') =
        engine
          (record {
            organization_id = org;
            correlation_id = context.correlation_id;
            payload = payload;
          })
          s in
      (on_answer name answer, s')

  -- `PolicyStage.before_request`
  unfoldable pub policy_check : StageContext → S → StageAnswer × S
  unfolding ask request_payload policy_block
  policy_check context s = elim context.organization_id [
    | none ↦ (policy_block name rejected_by_policy ((codes "untenanted", flag true) ∷ []), s)
    | some org ↦ elim (request_payload (get request_key context.attributes)) [
      | none ↦
          (policy_block name rejected_by_policy ((codes "malformed_payload", flag true) ∷ []), s)
      | some payload ↦ ask org payload context s
    ]
  ]

  -- `PolicyStage(engine, name=…)`
  unfoldable pub policy_stage : PipelineStage S
  unfolding policy_check
  policy_stage = record { name = name; before_request = policy_check }
