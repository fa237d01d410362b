-- ===== src/Ledger/Balance.antt =====
-- The running total `reserved` of an organization with a limit is the sum of its live holds.
use enterprise_llm_gateway.Prelude.{
  List, Option-cases, Text, [], arith, false, if◌then◌else◌, inl, inr, nat_eq, none, pair_eq, refl,
  some, text_eq, ℕ, ◌==◌, ◌∷◌, ◌≡◌, ◌≢◌,
}
use enterprise_llm_gateway.Prelude.Dict.{Dict, get, put}
use enterprise_llm_gateway.Prelude.Int.{int_laws, pos, ℤ, ◌+ℤ◌, ◌-ℤ◌}
use enterprise_llm_gateway.Ledger.{
  OrgLedger, Reservation, Status, admit, init, ledger_for, new_hold, reconcile_in, release_in,
  replays, reserve_in, settle_in,
}
use enterprise_llm_gateway.Ledger.Holds.{held, held_at, holds, holds-put, return_holds-stale}
use enterprise_llm_gateway.Ledger.Orgs.{
  Op, ledger_for-run, op_org, org_apply, org_run, reconcile_op, release_op, reserve_op, run,
  settle_op,
}
use enterprise_llm_gateway.Money.{Money}

abbrev pub IsBalanced : OrgLedger → Type 0
IsBalanced l = l.reserved ≡ holds l.reservations

pub limit-org_apply : (op : Op) (l : OrgLedger) → (org_apply op l).limit ≡ l.limit
unfolding org_apply reserve_in settle_in release_in reconcile_in
limit-org_apply (reserve_op now org corr cost) l = ground arith
limit-org_apply (settle_op org corr d) l = ground arith
limit-org_apply (release_op org corr) l = ground arith
limit-org_apply (reconcile_op org older) l = refl

-- A hold is put where nothing was held.
balance-put_new :
    (k : Text) (r : Reservation) (d : Dict Text Reservation) (total : ℤ)
    → held_at (get k d) ≡ pos 0
    → held r ≡ r.estimated_cost.amount
    → total ≡ holds d
    → total +ℤ r.estimated_cost.amount ≡ holds (put k r d)
balance-put_new k r d total free live e = grind (int_laws, holds-put k r d)

-- A live hold is replaced by a reservation that holds nothing.
balance-put_done :
    (k : Text) (r r' : Reservation) (d : Dict Text Reservation) (total : ℤ)
    → get k d ≡ some r
    → held r ≡ r.estimated_cost.amount
    → held r' ≡ pos 0
    → total ≡ holds d
    → total -ℤ r.estimated_cost.amount ≡ holds (put k r' d)
balance-put_done k r r' d total e live done h = grind (int_laws, holds-put k r' d)

-- A reservation that holds nothing is replaced by another that holds nothing.
balance-put_same :
    (k : Text) (r r' : Reservation) (d : Dict Text Reservation) (total : ℤ)
    → get k d ≡ some r
    → held r ≡ pos 0
    → held r' ≡ pos 0
    → total ≡ holds d
    → total ≡ holds (put k r' d)
balance-put_same k r r' d total e idle done h = grind (int_laws, holds-put k r' d)

admit-IsBalanced :
    (now org : ℕ) (corr : Text) (cost : Money) (l : OrgLedger)
    → l.limit ≢ none
    → held_at (get corr l.reservations) ≡ pos 0
    → IsBalanced l
    → IsBalanced (admit now org corr cost l).1
unfolding admit
admit-IsBalanced now org corr cost l limited free h =
    ground
      (arith, balance-put_new corr (new_hold now corr cost) l.reservations l.reserved free refl h)

reserve_in-IsBalanced :
    (now org : ℕ) (corr : Text) (cost : Money) (l : OrgLedger)
    → l.limit ≢ none
    → IsBalanced l
    → IsBalanced (reserve_in now org corr cost l).1
unfolding reserve_in
reserve_in-IsBalanced now org corr cost l limited h =
    elim (Option-cases (get corr l.reservations)) [
      | inl new ↦ rw (new, reserve_in) (admit-IsBalanced now org corr cost l limited (rw new) h)
      | inr (r, e) ↦
          let idle : replays r.status ≡ false → held_at (get corr l.reservations) ≡ pos 0 =
            λ over. rw e (ground arith) in
          ground (arith, e, admit-IsBalanced now org corr cost l limited)
    ]

settle_in-IsBalanced :
    (corr : Text) (total : Money) (r : Reservation) (l : OrgLedger)
    → get corr l.reservations ≡ some r
    → IsBalanced l
    → IsBalanced (settle_in corr total r l)
unfolding settle_in
settle_in-IsBalanced corr total r l e h =
    let done : Reservation = record r { status = Status.committed } in
    ground (
      arith,
      balance-put_done corr r done l.reservations l.reserved e,
      balance-put_same corr r done l.reservations l.reserved e,
    )

release_in-IsBalanced :
    (corr : Text) (r : Reservation) (l : OrgLedger)
    → get corr l.reservations ≡ some r
    → IsBalanced l
    → IsBalanced (release_in corr r l)
unfolding release_in
release_in-IsBalanced corr r l e h =
    let done : Reservation = record r { status = Status.released } in
    ground (arith, balance-put_done corr r done l.reservations l.reserved e)

reconcile_in-IsBalanced :
    (older : ℕ) (l : OrgLedger) → IsBalanced l → IsBalanced (reconcile_in older l).1
unfolding reconcile_in
reconcile_in-IsBalanced older l h =
    grind (int_laws, h, return_holds-stale older l.reservations l.reserved)

-- Every call keeps the balance of an organization with a limit.
pub org_apply-IsBalanced :
    (op : Op) (l : OrgLedger) → l.limit ≢ none → IsBalanced l → IsBalanced (org_apply op l)
unfolding org_apply
org_apply-IsBalanced (reserve_op now org corr cost) l limited h =
    reserve_in-IsBalanced now org corr cost l limited h
org_apply-IsBalanced (settle_op org corr d) l limited h =
    elim (Option-cases (get corr l.reservations)) [
      | inl unknown ↦ rw (unknown, org_apply) h
      | inr (r, e) ↦ rw (e, org_apply) (settle_in-IsBalanced corr d.total_cost r l e h)
    ]
org_apply-IsBalanced (release_op org corr) l limited h =
    elim (Option-cases (get corr l.reservations)) [
      | inl unknown ↦ rw (unknown, org_apply) h
      | inr (r, e) ↦ rw (e, org_apply) (release_in-IsBalanced corr r l e h)
    ]
org_apply-IsBalanced (reconcile_op org older) l limited h = reconcile_in-IsBalanced older l h

-- What one organization sees of a call, its own or another's.
abbrev pub own : ℕ → Op → OrgLedger → OrgLedger
own o op l = if op_org op == o then org_apply op l else l

pub own-limit : (o : ℕ) (op : Op) (l : OrgLedger) → (own o op l).limit ≡ l.limit
own-limit o op l = ground (arith, limit-org_apply op l)

own-IsBalanced :
    (o : ℕ) (op : Op) (l : OrgLedger) → l.limit ≢ none → IsBalanced l → IsBalanced (own o op l)
own-IsBalanced o op l limited h = ground (arith, org_apply-IsBalanced op l limited h)

org_run-IsBalanced :
    (o : ℕ) (ops : List Op) (l : OrgLedger)
    → l.limit ≢ none
    → IsBalanced l
    → IsBalanced (org_run o ops l)
unfolding org_run
org_run-IsBalanced o [] l limited h = h
org_run-IsBalanced o (op ∷ ops) l limited h =
    org_run-IsBalanced o ops (own o op l) (rw (own-limit o op l) limited)
      (own-IsBalanced o op l limited h)

init-IsBalanced :
    (limits : List (ℕ × Money)) (o : ℕ) → IsBalanced (ledger_for o (init limits false))
unfolding init ledger_for get holds
init-IsBalanced [] o = refl
init-IsBalanced ((org, m) ∷ rest) o = ground (arith, init-IsBalanced rest o)

-- After any calls of a new ledger whose store answers, an organization that has a limit has
-- reserved exactly the sum of its live holds: each hold is returned once, by whatever ends it.
pub run-IsBalanced :
    (limits : List (ℕ × Money)) (ops : List Op) (o : ℕ)
    → (ledger_for o (init limits false)).limit ≢ none
    → IsBalanced (ledger_for o (run ops (init limits false)))
run-IsBalanced limits ops o limited =
    rw (ledger_for-run ops (init limits false) o (unfold init in refl)) (
      org_run-IsBalanced o ops (ledger_for o (init limits false)) limited
        (init-IsBalanced limits o))
