-- ===== src/Pipeline/Admission.antt =====
-- What an admission says of the stages that ran, and which ones those are.
use mathlib.Core.List.{append_assoc}
use mathlib.Core.Path.{subst}
use enterprise_llm_gateway.Prelude.{
  List, Option, Text, [], ap, arith, false, if-cases, inl, inr, map, nat_eq, none, pair_eq, refl,
  some, text_eq, true, ◌++◌, ◌∙◌, ◌∷◌, ◌≡◌, ◌⊎◌,
}
use enterprise_llm_gateway.Prelude.Result.{Result, ok}
use enterprise_llm_gateway.Pipeline.{
  AdmissionOutcome, Admitting, OutcomeError, PipelineStage, StageAnswer, StageContext, StageRecord,
  admission_outcome, admit, admit_from, count_decision, falsy, is_block, malformed, names,
  normalise, raised, request_pipeline, returned, run_stage, stages_run,
}

-- The stage returned a `StageResult` that does not block.
unfoldable pub Passes : StageAnswer → Type 0
Passes (returned r) = is_block r.action ≡ false
Passes (malformed t) = ⊥
Passes (raised t m) = ⊥

normalise-stage : (name : Text) (a : StageAnswer) → (normalise name a).stage ≡ name
unfolding normalise
normalise-stage name (returned r) = ground arith
normalise-stage name (malformed t) = refl
normalise-stage name (raised t m) = refl

-- A record that does not block is that of a stage that passed.
normalise-Passes :
    (name : Text) (a : StageAnswer) → is_block (normalise name a).action ≡ false → Passes a
unfolding normalise Passes
normalise-Passes name (returned r) h = ground arith
normalise-Passes name (malformed t) h = cc
normalise-Passes name (raised t m) h = cc

blocks-not_Passes :
    (name : Text) (a : StageAnswer) → is_block (normalise name a).action ≡ true → Passes a → ⊥
unfolding normalise Passes
blocks-not_Passes name (returned r) h k = ground arith
blocks-not_Passes name (malformed t) h k = k
blocks-not_Passes name (raised t m) h k = k

-- A record that blocks has a reason.
normalise-explained :
    (name : Text) (a : StageAnswer)
    → is_block (normalise name a).action ≡ true
    → falsy (normalise name a).reason ≡ false
unfolding normalise
normalise-explained name (returned r) h = ground arith
normalise-explained name (malformed t) h = refl
normalise-explained name (raised t m) h = refl

outcome-admitted :
    (before : List StageRecord) (r : StageRecord)
    → admission_outcome (before ++ (r ∷ [])) none none
      ≡ ok (record { records = before ++ (r ∷ []); blocked_by = none; reason = none })
unfolding admission_outcome
outcome-admitted [] r = refl
outcome-admitted (b ∷ before) r = refl

outcome-blocked :
    (before : List StageRecord) (r : StageRecord) (by : Text) (reason : Option Text)
    → falsy reason ≡ false
    → admission_outcome (before ++ (r ∷ [])) (some by) reason
      ≡ ok (record { records = before ++ (r ∷ []); blocked_by = some by; reason = reason })
unfolding admission_outcome
outcome-blocked [] r by reason h = ground arith
outcome-blocked (b ∷ before) r by reason h = ground arith

abbrev stages_of : List StageRecord → List Text
stages_of records = map (λ (r : StageRecord). r.stage) records

stages_of-append :
    (xs : List StageRecord) (r : StageRecord)
    → stages_of (xs ++ (r ∷ [])) ≡ stages_of xs ++ (r.stage ∷ [])
stages_of-append [] r = refl
stages_of-append (x ∷ xs) r = ap (λ (ts : List Text). x.stage ∷ ts) (stages_of-append xs r)

module _ {S : Type 0} (context : StageContext) where
  -- Every stage passes, each in the state that the one before it leaves, and the last leaves `s'`.
  unfoldable pub AllPass : List (PipelineStage S) → S → S → Type 0
  AllPass [] s s' = s' ≡ s
  AllPass (stage ∷ stages) s s' =
      let (answer, s1) = stage.before_request context s in Passes answer × AllPass stages s1 s'

  -- The first stages pass, the next one does not, and leaves `s'`; those up to it are `ran`.
  unfoldable pub StopsAt : List (PipelineStage S) → S → S → Text → List Text → Type 0
  StopsAt [] s s' by ran = ⊥
  StopsAt (stage ∷ stages) s s' by ran =
      let (answer, s1) = stage.before_request context s in
      ((Passes answer → ⊥) × (s' ≡ s1) × (by ≡ stage.name) × (ran ≡ stage.name ∷ []))
      ⊎ (Passes answer
          × ((rest : List Text) × StopsAt stages s1 s' by rest × (ran ≡ stage.name ∷ rest)))

  -- What an answer says, after some records.
  pub record Decides (before : List StageRecord) (stages : List (PipelineStage S)) (s : S)
      (z : Result OutcomeError AdmissionOutcome × Admitting S) : Type 0 where
    pub outcome : AdmissionOutcome
    pub answers : z.0 ≡ ok outcome
    pub decision :
        ((outcome.blocked_by ≡ none)
          × AllPass stages s z.1.state
          × (stages_run outcome ≡ stages_of before ++ names stages))
        ⊎ ((by : Text) × (ran : List Text) × (outcome.blocked_by ≡ some by)
            × (falsy outcome.reason ≡ false)
            × StopsAt stages s z.1.state by ran
            × (stages_run outcome ≡ stages_of before ++ ran))

  -- The stage blocks.
  block-Decides :
      (before : List StageRecord) (stage : PipelineStage S) (stages : List (PipelineStage S))
      (st : Admitting S)
      → let (r, st1) = run_stage stage context st in
        is_block r.action ≡ true
        → Decides before
            (stage ∷ stages)
            st.state
            (admission_outcome (before ++ (r ∷ [])) (some r.stage) r.reason, count_decision r st1)
  unfolding run_stage count_decision
  block-Decides before stage stages st h =
      let (r, st1) = run_stage stage context st in
      let answer = (stage.before_request context st.state).0 in
      record {
        outcome = record {
          records = before ++ (r ∷ []);
          blocked_by = some r.stage;
          reason = r.reason;
        };
        answers =
            outcome-blocked before r r.stage r.reason (normalise-explained stage.name answer h);
        decision = inr (
          r.stage,
          stage.name ∷ [],
          refl,
          normalise-explained stage.name answer h,
          (unfold StopsAt in
              inl (
                blocks-not_Passes stage.name answer h,
                refl,
                normalise-stage stage.name answer,
                refl,
              )),
          stages_of-append before r
              ∙ ap (λ (t : Text). stages_of before ++ (t ∷ [])) (normalise-stage stage.name answer),
        );
      }

  -- The stage passes and is the last.
  pass-Decides :
      (before : List StageRecord) (stage : PipelineStage S) (st : Admitting S)
      → let (r, st1) = run_stage stage context st in
        is_block r.action ≡ false
        → Decides before
            (stage ∷ [])
            st.state
            (admission_outcome (before ++ (r ∷ [])) none none, count_decision r st1)
  unfolding run_stage count_decision AllPass
  pass-Decides before stage st h =
      let (r, st1) = run_stage stage context st in
      let answer = (stage.before_request context st.state).0 in
      record {
        outcome = record { records = before ++ (r ∷ []); blocked_by = none; reason = none };
        answers = outcome-admitted before r;
        decision = inl (
          refl,
          (normalise-Passes stage.name answer h, refl),
          stages_of-append before r
              ∙ ap (λ (t : Text). stages_of before ++ (t ∷ [])) (normalise-stage stage.name answer),
        );
      }

  shift :
      (before : List StageRecord) (stage : PipelineStage S) (st : Admitting S) (ts : List Text)
      → stages_of (before ++ ((run_stage stage context st).0 ∷ [])) ++ ts
        ≡ stages_of before ++ (stage.name ∷ ts)
  unfolding run_stage
  shift before stage st ts =
      let (answer, s) = stage.before_request context st.state in
      ap (λ (l : List Text). l ++ ts)
        (stages_of-append before (normalise stage.name answer)
          ∙ ap (λ (t : Text). stages_of before ++ (t ∷ [])) (normalise-stage stage.name answer))
      ∙ append_assoc (stages_of before) (stage.name ∷ []) ts

  -- The stage passes, and others follow.
  next-Decides :
      (before : List StageRecord) (stage : PipelineStage S) (stages : List (PipelineStage S))
      (st : Admitting S) (z : Result OutcomeError AdmissionOutcome × Admitting S)
      → let (r, st1) = run_stage stage context st in
        is_block r.action ≡ false
        → Decides (before ++ (r ∷ [])) stages st1.state z
        → Decides before (stage ∷ stages) st.state z
  unfolding run_stage
  next-Decides before stage stages st z h d =
      let (r, st1) = run_stage stage context st in
      let answer = (stage.before_request context st.state).0 in
      let ok_answer = normalise-Passes stage.name answer h in
      record {
        outcome = d.outcome;
        answers = d.answers;
        decision = elim d.decision [
          | inl (by, pass, ran) ↦ inl (
            by,
            (unfold AllPass in (ok_answer, pass)),
            ran ∙ shift before stage st (names stages),
          )
          | inr (by, ran, by_is, why, stops, ran_is) ↦ inr (
            by,
            stage.name ∷ ran,
            by_is,
            why,
            (unfold StopsAt in inr (ok_answer, (ran, stops, refl))),
            ran_is ∙ shift before stage st ran,
          )
        ];
      }

  loop-Decides :
      (before : List StageRecord) (stage : PipelineStage S) (stages : List (PipelineStage S))
      (st : Admitting S)
      → Decides before (stage ∷ stages) st.state (admit_from before (stage ∷ stages) context st)
  unfolding admit_from
  loop-Decides before stage [] st =
      let (r, st1) = run_stage stage context st in
      if-cases (Decides before (stage ∷ []) st.state) (is_block r.action)
        (λ h. block-Decides before stage [] st h) (λ h. pass-Decides before stage st h)
  loop-Decides before stage (next ∷ stages) st =
      let (r, st1) = run_stage stage context st in
      if-cases (Decides before (stage ∷ next ∷ stages) st.state) (is_block r.action)
        (λ h. block-Decides before stage (next ∷ stages) st h)
        (λ h.
          next-Decides before stage (next ∷ stages) st
            (admit_from (before ++ (r ∷ [])) (next ∷ stages) context (count_decision r st1)) h
            (unfold count_decision in
              loop-Decides (before ++ (r ∷ [])) next stages (count_decision r st1)))

  -- `admit` on a chain that was registered never raises, and fails closed. It admits only if every
  -- stage, in order, returned a `StageResult` that does not block, and then all of them ran. If not,
  -- the outcome names the first stage that did not, with a reason that is not empty, and no stage
  -- after that one has been called.
  pub admit-Decides :
      (stages registered : List (PipelineStage S)) (st : Admitting S)
      → request_pipeline stages ≡ ok registered
      → Decides [] registered st.state (admit registered context st)
  unfolding admit request_pipeline
  admit-Decides [] registered st h = absurd (cc)
  admit-Decides (s ∷ ss) registered st h =
      subst (λ (l : List (PipelineStage S)). Decides [] l st.state (admit_from [] l context st))
        (ground arith) (loop-Decides [] s ss st)
