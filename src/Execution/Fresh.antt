-- ===== src/Execution/Fresh.antt =====
-- Identifiers that a request does not touch.
use enterprise_llm_gateway.Prelude.{
  All, Bool-cases, List, Option-cases, Text, [], ap, arith, false, if-cases, if◌then◌else◌, inl,
  inr, nat_eq, none, pair_eq, sym, text_eq, ℕ, ◌==◌, ◌∙◌, ◌∷◌, ◌≡◌, ◌≢◌,
}
use enterprise_llm_gateway.Prelude.Dict.{Dict, get, get-map_values, get-put_ne, map_option, put}
use enterprise_llm_gateway.Execution.{execute}
use enterprise_llm_gateway.Execution.Calls.{Acts, IsOwn, execute-Reaches}
use enterprise_llm_gateway.Ledger.{
  OrgLedger, Reservation, Status, admit, expire, ledger_for, new_hold, reconcile_in, release_in,
  reserve_in, settle_in,
}
use enterprise_llm_gateway.Ledger.Balance.{own}
use enterprise_llm_gateway.Ledger.Orgs.{
  Op, ledger_for-run, op_org, org_apply, org_run, reconcile_op, release_op, reserve_op, settle_op,
}
use enterprise_llm_gateway.Money.{Money}
use enterprise_llm_gateway.Ports.{InferenceRequest}
use enterprise_llm_gateway.Routing.{RoutingExecution}
use enterprise_llm_gateway.World.{Env, World}

apart : (j k : Text) → k ≢ j → (j == k) ≡ false
apart j k ne = elim (Bool-cases (j == k)) [
  | inr no_match ↦ no_match
  | inl same ↦ absurd (ne (sym ((text_eq.equal_iff j k).0 same)))
]

-- Nothing stands under an identifier that a call of the ledger is not for.
put-fresh :
    (j k : Text) (r : Reservation) (d : Dict Text Reservation)
    → k ≢ j
    → get k d ≡ none
    → get k (put j r d) ≡ none
put-fresh j k r d ne h = get-put_ne j k r d (apart j k ne) ∙ h

reserve_in-fresh :
    (now org : ℕ) (corr k : Text) (cost : Money) (l : OrgLedger)
    → k ≢ corr
    → get k l.reservations ≡ none
    → get k (reserve_in now org corr cost l).1.reservations ≡ none
unfolding reserve_in admit
reserve_in-fresh now org corr k cost l ne h =
    ground (arith, put-fresh corr k (new_hold now corr cost) l.reservations ne h)

settle_in-fresh :
    (corr k : Text) (total : Money) (r : Reservation) (l : OrgLedger)
    → k ≢ corr
    → get k l.reservations ≡ none
    → get k (settle_in corr total r l).reservations ≡ none
unfolding settle_in
settle_in-fresh corr k total r l ne h =
    ground (arith, put-fresh corr k (record r { status = Status.committed }) l.reservations ne h)

release_in-fresh :
    (corr k : Text) (r : Reservation) (l : OrgLedger)
    → k ≢ corr
    → get k l.reservations ≡ none
    → get k (release_in corr r l).reservations ≡ none
unfolding release_in
release_in-fresh corr k r l ne h =
    ground (arith, put-fresh corr k (record r { status = Status.released }) l.reservations ne h)

reconcile_in-fresh :
    (older : ℕ) (k : Text) (l : OrgLedger)
    → get k l.reservations ≡ none
    → get k (reconcile_in older l).1.reservations ≡ none
unfolding reconcile_in
reconcile_in-fresh older k l h =
    get-map_values (expire older) k l.reservations ∙ ap (map_option (expire older)) h

org_apply-fresh :
    (org : ℕ) (corr k : Text) (op : Op) (l : OrgLedger)
    → IsOwn org corr op
    → k ≢ corr
    → get k l.reservations ≡ none
    → get k (org_apply op l).reservations ≡ none
unfolding IsOwn org_apply
org_apply-fresh org corr k (reserve_op now c j cost) l (a, b) ne h =
    reserve_in-fresh now c j k cost l (λ e. ne (e ∙ b)) h
org_apply-fresh org corr k (settle_op c j d) l (a, b) ne h =
    elim (Option-cases (get j l.reservations)) [
      | inl f ↦ ground (arith, f, h)
      | inr (r, f) ↦ ground (arith, f, settle_in-fresh j k d.total_cost r l (λ e. ne (e ∙ b)) h)
    ]
org_apply-fresh org corr k (release_op c j) l (a, b) ne h =
    elim (Option-cases (get j l.reservations)) [
      | inl f ↦ ground (arith, f, h)
      | inr (r, f) ↦ ground (arith, f, release_in-fresh j k r l (λ e. ne (e ∙ b)) h)
    ]
org_apply-fresh org corr k (reconcile_op c older) l mine ne h = reconcile_in-fresh older k l h

org_run-fresh :
    (org o : ℕ) (corr k : Text) (ops : List Op) (l : OrgLedger)
    → All (IsOwn org corr) ops
    → k ≢ corr
    → get k l.reservations ≡ none
    → get k (org_run o ops l).reservations ≡ none
unfolding org_run
org_run-fresh org o corr k [] l mine ne h = h
org_run-fresh org o corr k (op ∷ ops) l (own, mine) ne h =
    org_run-fresh org o corr k ops (if op_org op == o then org_apply op l else l) mine ne (
      if-cases (λ (m : OrgLedger). get k m.reservations ≡ none) (op_org op == o)
        (λ here. org_apply-fresh org corr k op l own ne h) (λ elsewhere. h))

-- A request leaves an identifier new that is not its own.
pub execute-fresh :
    (E : Env) (e : RoutingExecution) (request : InferenceRequest) (k : Text) (w : World E.Client)
    → w.ledger.unavailable ≡ false
    → k ≢ request.correlation_id
    → let org = e.decision.organization_id in
      get k (ledger_for org w.ledger).reservations ≡ none
      → get k (ledger_for org (execute E e request w).1.ledger).reservations ≡ none
unfolding Acts
execute-fresh E e request k w up ne h =
    let org = e.decision.organization_id in
    let (ops, mine, eq) = execute-Reaches E e request w in
    rw (ap (ledger_for org) eq ∙ ledger_for-run ops w.ledger org up)
      (org_run-fresh org org request.correlation_id k ops (ledger_for org w.ledger) mine ne h)
