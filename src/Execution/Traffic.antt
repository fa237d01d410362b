-- ===== src/Execution/Traffic.antt =====
-- What a request leaves alone: the ledgers of the other organizations.
use enterprise_llm_gateway.Prelude.{
  All, List, Text, [], ap, arith, false, nat_eq, pair_eq, refl, text_eq, ℕ, ◌==◌, ◌∙◌, ◌∷◌, ◌≡◌,
  ◌≢◌,
}
use enterprise_llm_gateway.Execution.{execute}
use enterprise_llm_gateway.Execution.Calls.{Acts, IsOwn, execute-Reaches}
use enterprise_llm_gateway.Ledger.{OrgLedger, ledger_for}
use enterprise_llm_gateway.Ledger.Orgs.{
  Op, ledger_for-run, op_org, org_run, reconcile_op, release_op, reserve_op, settle_op,
}
use enterprise_llm_gateway.Ports.{InferenceRequest}
use enterprise_llm_gateway.Routing.{RoutingExecution}
use enterprise_llm_gateway.World.{Env, World}

own-foreign :
    (org o : ℕ) (corr : Text) (op : Op) → IsOwn org corr op → o ≢ org → (op_org op == o) ≡ false
unfolding IsOwn
own-foreign org o corr (reserve_op now c k cost) (h, k_is) ne = ground arith
own-foreign org o corr (settle_op c k d) (h, k_is) ne = ground arith
own-foreign org o corr (release_op c k) (h, k_is) ne = ground arith
own-foreign org o corr (reconcile_op c older) h ne = ground arith

org_run-foreign :
    (org o : ℕ) (corr : Text) (ops : List Op) (l : OrgLedger)
    → All (IsOwn org corr) ops
    → o ≢ org
    → org_run o ops l ≡ l
unfolding org_run
org_run-foreign org o corr [] l mine ne = refl
org_run-foreign org o corr (op ∷ ops) l (h, mine) ne =
    rw (own-foreign org o corr op h ne) (org_run-foreign org o corr ops l mine ne)

-- With a ledger that answers, a request leaves the ledger of every other organization as it was.
pub execute-tenants :
    (E : Env) (e : RoutingExecution) (request : InferenceRequest) (w : World E.Client) (o : ℕ)
    → w.ledger.unavailable ≡ false
    → o ≢ e.decision.organization_id
    → ledger_for o (execute E e request w).1.ledger ≡ ledger_for o w.ledger
unfolding Acts
execute-tenants E e request w o up ne =
    let org = e.decision.organization_id in
    let (ops, mine, eq) = execute-Reaches E e request w in
    ap (ledger_for o) eq
    ∙ ledger_for-run ops w.ledger o up
    ∙ org_run-foreign org o request.correlation_id ops (ledger_for o w.ledger) mine ne
