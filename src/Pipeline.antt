-- ===== src/Pipeline.antt =====
-- application/ports/pipeline.py and application/pipeline/runner.py: the chain of admission stages. A
-- stage is an implementation of `PipelineStage` over a state that all the stages share; what it does
-- with that state, and whether it answers at all, is its own affair.
pub mod Admission
mod Tests
use enterprise_llm_gateway.Prelude.{
  Bool, List, Option, Text, [], codes, false, if◌then◌else◌, map, mem, nat_eq, none, pair_eq, some,
  text_eq, true, ℕ, ◌&&◌, ◌++◌, ◌||◌, ◌∷◌,
}
use enterprise_llm_gateway.Prelude.Dict.{Dict, put}
use enterprise_llm_gateway.Routing.{RoutingExecution}
use enterprise_llm_gateway.Routing.Agents.{RoutingRequest}
use enterprise_llm_gateway.Prelude.Result.{Result, err, ok}

pub data StageAction : Type 0 where
  continue annotate block : StageAction

-- A request's dict: what routing reads of it, and its canonical JSON text, or the exception's type and
-- text where json raises.
pub record PayloadDict : Type 0 where
  pub routing : RoutingRequest
  pub encoded : Result (Text × Text) Text

-- A value of an attribute or an annotation: `None`, a `str`, a `bool`, an `int`, a tuple of `str`, a
-- dict, a routing execution, or any other object, which is true and no mapping.
pub data Value : Type 0 where
  nothing : Value
  text : Text → Value
  flag : Bool → Value
  number : ℕ → Value
  texts : List Text → Value
  mapping : PayloadDict → Value
  execution : RoutingExecution → Value
  opaque : ℕ → Value

pub record StageContext : Type 0 where
  pub correlation_id : Text
  pub organization_id : Option ℕ
  pub principal_id : Option ℕ
  pub attributes : Dict Text Value

pub record StageResult : Type 0 where
  pub action : StageAction
  pub reason : Option Text
  pub annotations : Dict Text Value

-- What `before_request` does: it returns a `StageResult`, returns an object of another type, or
-- raises an `Exception`; the texts are the type's name and the exception's own.
pub data StageAnswer : Type 0 where
  returned : StageResult → StageAnswer
  malformed : Text → StageAnswer
  raised : Text → Text → StageAnswer

pub record PipelineStage (S : Type 0) : Type 0 where
  pub name : Text
  pub before_request : StageContext → S → StageAnswer × S

pub record StageRecord : Type 0 where
  pub stage : Text
  pub action : StageAction
  pub reason : Option Text
  pub annotations : Dict Text Value

abbrev pub is_block : StageAction → Bool
is_block block = true
is_block continue = false
is_block annotate = false

pub record AdmissionOutcome : Type 0 where
  pub records : List StageRecord
  pub blocked_by : Option Text
  pub reason : Option Text

-- The three ValueErrors of `AdmissionOutcome`.
pub data OutcomeError : Type 0 where
  no_records blocked_without_reason admitted_with_reason : OutcomeError

-- `not reason`
abbrev pub falsy : Option Text → Bool
falsy none = true
falsy (some []) = true
falsy (some (c ∷ t)) = false

checked : List StageRecord → Option Text → Option Text → Result OutcomeError AdmissionOutcome
checked records (some by) reason =
    if falsy reason
    then err blocked_without_reason
    else ok (record { records = records; blocked_by = some by; reason = reason })
checked records none none = ok (record { records = records; blocked_by = none; reason = none })
checked records none (some why) = err admitted_with_reason

-- `AdmissionOutcome(records, blocked_by, reason)`
unfoldable pub admission_outcome :
    List StageRecord → Option Text → Option Text → Result OutcomeError AdmissionOutcome
unfolding checked
admission_outcome [] blocked_by reason = err no_records
admission_outcome (r ∷ rs) blocked_by reason = checked (r ∷ rs) blocked_by reason

abbrev pub admitted : AdmissionOutcome → Bool
admitted o = elim o.blocked_by [ none ↦ true | some by ↦ false ]

abbrev pub stages_run : AdmissionOutcome → List Text
stages_run o = map (λ (r : StageRecord). r.stage) o.records

-- `GENERIC_BLOCK_REASON`
abbrev pub generic_block_reason : Text
generic_block_reason = codes "request was not admitted"

refused : Text → Dict Text Value → StageRecord
refused name annotations = record {
  stage = name;
  action = block;
  reason = some generic_block_reason;
  annotations = annotations;
}

-- `{**base, **more}`
unfoldable pub merge : Dict Text Value → Dict Text Value → Dict Text Value
merge base [] = base
merge base ((k, v) ∷ more) = merge (put k v base) more

-- `_run` past the call of the stage.
unfoldable pub normalise : Text → StageAnswer → StageRecord
unfolding refused merge
normalise name (raised type_name message) = refused name (
    (codes "stage", text name)
    ∷ (codes "stage_error", flag true)
    ∷ (codes "detail", text (type_name ++ (codes ": " ++ message)))
    ∷ [])
normalise name (malformed type_name) = refused name (
    (codes "stage", text name)
    ∷ (codes "malformed_result", flag true)
    ∷ (codes "detail", text (codes "stage returned " ++ type_name))
    ∷ [])
normalise name (returned r) =
    if is_block r.action && falsy r.reason
    then refused name (
        merge ((codes "stage", text name) ∷ (codes "unexplained_block", flag true) ∷ [])
          r.annotations)
    else record { stage = name; action = r.action; reason = r.reason; annotations = r.annotations }

pub data RegistrationError : Type 0 where
  no_stages duplicated : RegistrationError

-- Some name occurs twice.
unfoldable pub repeats : List Text → Bool
repeats [] = false
repeats (t ∷ ts) = mem t ts || repeats ts

-- The stages' state, and the admission decisions counted by stage and action, newest first.
pub record Admitting (S : Type 0) : Type 0 where
  pub state : S
  pub decisions : List (Text × StageAction)

module _ {S : Type 0} where
  abbrev pub names : List (PipelineStage S) → List Text
  names stages = map (λ (s : PipelineStage S). s.name) stages

  -- `RequestPipeline(stages)`: the stages that it registers, or the ValueError.
  unfoldable pub request_pipeline :
      List (PipelineStage S) → Result RegistrationError (List (PipelineStage S))
  unfolding repeats
  request_pipeline [] = err no_stages
  request_pipeline (s ∷ ss) = if repeats (names (s ∷ ss)) then err duplicated else ok (s ∷ ss)

  -- `_run`
  unfoldable pub run_stage :
      PipelineStage S → StageContext → Admitting S → StageRecord × Admitting S
  unfolding normalise
  run_stage stage context st =
      let (answer, s) = stage.before_request context st.state in
      (normalise stage.name answer, record st { state = s })

  unfoldable pub count_decision : StageRecord → Admitting S → Admitting S
  count_decision r st = record st { decisions = (r.stage, r.action) ∷ st.decisions }

  -- The loop of `admit`, with the records so far.
  unfoldable pub admit_from :
      List StageRecord
      → List (PipelineStage S)
      → StageContext
      → Admitting S
      → Result OutcomeError AdmissionOutcome × Admitting S
  unfolding run_stage count_decision admission_outcome
  admit_from records [] context st = (admission_outcome records none none, st)
  admit_from records (stage ∷ stages) context st =
      let (r, st1) = run_stage stage context st in
      let records' = records ++ (r ∷ []) in
      let rest = admit_from records' stages context (count_decision r st1) in
      if is_block r.action
      then (admission_outcome records' (some r.stage) r.reason, count_decision r st1)
      else rest

  -- `RequestPipeline.admit`
  unfoldable pub admit :
      List (PipelineStage S)
      → StageContext
      → Admitting S
      → Result OutcomeError AdmissionOutcome × Admitting S
  unfolding admit_from
  admit stages context st = admit_from [] stages context st
