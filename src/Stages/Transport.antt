-- ===== src/Stages/Transport.antt =====
-- The records of a chain that passes, and the routing execution that they carry.
use mathlib.Core.List.{append-nil, append_assoc}
use enterprise_llm_gateway.Prelude.{
  List, Text, [], ap, arith, false, nat_eq, none, pair_eq, sym, text_eq, ◌++◌, ◌∙◌, ◌∷◌, ◌≡◌,
}
use enterprise_llm_gateway.Pipeline.{
  Admitting, PipelineStage, StageAnswer, StageContext, StageRecord, admission_outcome, admit_from,
  count_decision, is_block, malformed, normalise, raised, returned, run_stage,
}
use enterprise_llm_gateway.Pipeline.Admission.{AllPass, Passes}

Passes-open :
    (name : Text) (a : StageAnswer) → Passes a → is_block (normalise name a).action ≡ false
unfolding Passes normalise
Passes-open name (returned r) h = ground (arith, h)
Passes-open name (malformed t) h = absurd h
Passes-open name (raised t m) h = absurd h

module _ {S : Type 0} (context : StageContext) where
  -- The record that each stage leaves, asked in the state of the one before it.
  unfoldable pub records_of : List (PipelineStage S) → S → List StageRecord
  records_of [] s = []
  records_of (stage ∷ stages) s =
      let (answer, s1) = stage.before_request context s in
      normalise stage.name answer ∷ records_of stages s1

  -- A chain that passes records every stage.
  pub admit_from-records :
      (before : List StageRecord) (stages : List (PipelineStage S)) (st : Admitting S) (s' : S)
      → AllPass context stages st.state s'
      → (admit_from before stages context st).0
        ≡ admission_outcome (before ++ records_of stages st.state) none none
  unfolding admit_from AllPass records_of run_stage count_decision
  admit_from-records before [] st s' h =
      ap (λ (rs : List StageRecord). admission_outcome rs none none) (sym (append-nil before))
  admit_from-records before (stage ∷ stages) st s' (pass, h) =
      let (answer, s) = stage.before_request context st.state in
      let r = normalise stage.name answer in
      let rest =
        admit_from-records (before ++ (r ∷ [])) stages (count_decision r (record st { state = s }))
          s' (unfold count_decision in h) in
      rw (Passes-open stage.name answer pass) (
        rest
        ∙ ap (λ (rs : List StageRecord). admission_outcome rs none none)
            (append_assoc before (r ∷ []) (records_of stages s)))
