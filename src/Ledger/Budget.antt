-- ===== src/Ledger/Budget.antt =====
-- A limit is never passed, as long as no settlement costs more than was held for it.
use enterprise_llm_gateway.Prelude.{
  Bool-cases, List, Option, Option-cases, Text, [], arith, false, inl, inr, nat_eq, none, pair_eq,
  some, text_eq, true, ℕ, ◌==◌, ◌∙◌, ◌∷◌, ◌≡◌,
}
use enterprise_llm_gateway.Prelude.Dict.{Dict, get, map_values, put, values}
use enterprise_llm_gateway.Prelude.Int.{int_laws, ltb_ℤ, pos, ℤ, ◌+ℤ◌, ◌-ℤ◌, ◌≤ℤ◌}
use enterprise_llm_gateway.Ledger.{
  Ledger, OrgLedger, Reservation, Status, admit, expire, is_committed, is_reserved, is_stale,
  ledger_for, new_hold, reconcile_in, release_in, reserve_in, return_holds, settle_in, stale,
}
use enterprise_llm_gateway.Ledger.Balance.{own, own-limit}
use enterprise_llm_gateway.Ledger.Holds.{held}
use enterprise_llm_gateway.Ledger.Orgs.{
  Op, ledger_for-run, op_org, org_apply, org_run, reconcile_op, release_op, reserve_op, run,
  settle_op,
}
use enterprise_llm_gateway.Money.{Money}

-- No estimate is negative.
abbrev pub NonNeg : Dict Text Reservation → Type 0
NonNeg [] = Unit
NonNeg ((k, r) ∷ d) = (pos 0 ≤ℤ r.estimated_cost.amount) × NonNeg d

NonNeg-put :
    (k : Text) (r : Reservation) (d : Dict Text Reservation)
    → pos 0 ≤ℤ r.estimated_cost.amount
    → NonNeg d
    → NonNeg (put k r d)
unfolding put
NonNeg-put k r [] p h = (p, tt)
NonNeg-put k r ((j, w) ∷ d) p h = ground (arith, NonNeg-put k r d p h.1)

NonNeg-get :
    (k : Text) (r : Reservation) (d : Dict Text Reservation)
    → NonNeg d
    → get k d ≡ some r
    → pos 0 ≤ℤ r.estimated_cost.amount
unfolding get
NonNeg-get k r [] h e = cc
NonNeg-get k r ((j, w) ∷ d) h e = ground (arith, NonNeg-get k r d h.1)

NonNeg-expire :
    (older : ℕ) (d : Dict Text Reservation) → NonNeg d → NonNeg (map_values (expire older) d)
unfolding map_values expire
NonNeg-expire older [] h = tt
NonNeg-expire older ((k, r) ∷ d) h = ground (arith, NonNeg-expire older d h.1)

return_holds-le :
    (older : ℕ) (d : Dict Text Reservation) (total : ℤ)
    → NonNeg d
    → return_holds (stale older (values d)) total ≤ℤ total
unfolding return_holds stale values
return_holds-le older [] total h = omega arith
return_holds-le older ((k, r) ∷ d) total h = elim (Bool-cases (is_stale older r)) [
  | inl old ↦
      rw old (omega (int_laws, h.0, return_holds-le older d (total -ℤ r.estimated_cost.amount) h.1))
  | inr live ↦ rw live (return_holds-le older d total h.1)
]

-- Spent and held together are within the limit, and no estimate is negative.
pub record IsWithin (limit : Money) (l : OrgLedger) : Type 0 where
  pub within : l.spent +ℤ l.reserved ≤ℤ limit.amount
  pub nonneg : NonNeg l.reservations

-- What a settlement may cost: what is held, for a live hold; a committed one is not booked again.
abbrev pub SettlesWithin : Money → Option Reservation → Type 0
SettlesWithin total none = Unit
SettlesWithin total (some r) =
    is_committed r.status ≡ false
    → (is_reserved r.status ≡ true) × (total.amount ≤ℤ r.estimated_cost.amount)

-- What is asked of a call: an estimate is not negative, a settlement costs at most what is held.
abbrev pub Orderly : Op → OrgLedger → Type 0
Orderly (reserve_op now org corr cost) l = pos 0 ≤ℤ cost.amount
Orderly (settle_op org corr d) l = SettlesWithin d.total_cost (get corr l.reservations)
Orderly (release_op org corr) l = Unit
Orderly (reconcile_op org older) l = Unit

fits :
    (limit spent held cost : ℤ)
    → ltb_ℤ (limit -ℤ spent -ℤ held) cost ≡ false
    → spent +ℤ (held +ℤ cost) ≤ℤ limit
fits limit spent held cost h =
    let room : cost ≤ℤ limit -ℤ spent -ℤ held = ground arith in omega int_laws

less_held :
    (spent held cost limit : ℤ)
    → pos 0 ≤ℤ cost
    → spent +ℤ held ≤ℤ limit
    → spent +ℤ (held -ℤ cost) ≤ℤ limit
less_held spent held cost limit p h = omega int_laws

settled_less :
    (spent held cost total limit : ℤ)
    → total ≤ℤ cost
    → spent +ℤ held ≤ℤ limit
    → spent +ℤ total +ℤ (held -ℤ cost) ≤ℤ limit
settled_less spent held cost total limit p h = omega int_laws

admit-IsWithin :
    (now org : ℕ) (corr : Text) (cost limit : Money) (l : OrgLedger)
    → l.limit ≡ some limit
    → pos 0 ≤ℤ cost.amount
    → IsWithin limit l
    → IsWithin limit (admit now org corr cost l).1
unfolding admit
admit-IsWithin now org corr cost limit l e p w =
    rw (e, admit)
      (ground (
        arith,
        fits limit.amount l.spent l.reserved cost.amount,
        NonNeg-put corr (new_hold now corr cost) l.reservations p w.nonneg,
      ))

reserve_in-IsWithin :
    (now org : ℕ) (corr : Text) (cost limit : Money) (l : OrgLedger)
    → l.limit ≡ some limit
    → pos 0 ≤ℤ cost.amount
    → IsWithin limit l
    → IsWithin limit (reserve_in now org corr cost l).1
unfolding reserve_in
reserve_in-IsWithin now org corr cost limit l e p w =
    ground (arith, admit-IsWithin now org corr cost limit l e p w)

settle_in-IsWithin :
    (corr : Text) (total limit : Money) (r : Reservation) (l : OrgLedger)
    → get corr l.reservations ≡ some r
    → SettlesWithin total (some r)
    → IsWithin limit l
    → IsWithin limit (settle_in corr total r l)
unfolding settle_in
settle_in-IsWithin corr total limit r l e p w = ground (
  arith,
  p,
  settled_less l.spent l.reserved r.estimated_cost.amount total.amount limit.amount,
  NonNeg-get corr r l.reservations w.nonneg e,
  NonNeg-put corr (record r { status = Status.committed }) l.reservations,
)

release_in-IsWithin :
    (corr : Text) (limit : Money) (r : Reservation) (l : OrgLedger)
    → get corr l.reservations ≡ some r
    → IsWithin limit l
    → IsWithin limit (release_in corr r l)
unfolding release_in
release_in-IsWithin corr limit r l e w = ground (
  arith,
  less_held l.spent l.reserved r.estimated_cost.amount limit.amount,
  NonNeg-get corr r l.reservations w.nonneg e,
  NonNeg-put corr (record r { status = Status.released }) l.reservations,
)

reconcile_in-IsWithin :
    (older : ℕ) (limit : Money) (l : OrgLedger)
    → IsWithin limit l
    → IsWithin limit (reconcile_in older l).1
unfolding reconcile_in
reconcile_in-IsWithin older limit l w = record {
  within = omega (int_laws, w.within, return_holds-le older l.reservations l.reserved w.nonneg);
  nonneg = NonNeg-expire older l.reservations w.nonneg;
}

org_apply-IsWithin :
    (op : Op) (limit : Money) (l : OrgLedger)
    → l.limit ≡ some limit
    → Orderly op l
    → IsWithin limit l
    → IsWithin limit (org_apply op l)
unfolding org_apply
org_apply-IsWithin (reserve_op now org corr cost) limit l e p w =
    reserve_in-IsWithin now org corr cost limit l e p w
org_apply-IsWithin (settle_op org corr d) limit l e p w =
    elim (Option-cases (get corr l.reservations)) [
      | inl unknown ↦ rw (unknown, org_apply) w
      | inr (r, at) ↦
          rw (at, org_apply) (settle_in-IsWithin corr d.total_cost limit r l at (rw at at p) w)
    ]
org_apply-IsWithin (release_op org corr) limit l e p w =
    elim (Option-cases (get corr l.reservations)) [
      | inl unknown ↦ rw (unknown, org_apply) w
      | inr (r, at) ↦ rw (at, org_apply) (release_in-IsWithin corr limit r l at w)
    ]
org_apply-IsWithin (reconcile_op org older) limit l e p w = reconcile_in-IsWithin older limit l w

-- Each of the organization's own calls is orderly when it is made.
abbrev pub AllOrderly : ℕ → List Op → OrgLedger → Type 0
AllOrderly o [] l = Unit
AllOrderly o (op ∷ ops) l = (op_org op ≡ o → Orderly op l) × AllOrderly o ops (own o op l)

org_run-IsWithin :
    (o : ℕ) (ops : List Op) (limit : Money) (l : OrgLedger)
    → l.limit ≡ some limit
    → AllOrderly o ops l
    → IsWithin limit l
    → IsWithin limit (org_run o ops l)
unfolding org_run
org_run-IsWithin o [] limit l e p w = w
org_run-IsWithin o (op ∷ ops) limit l e p w =
    org_run-IsWithin o ops limit (own o op l) (own-limit o op l ∙ e) p.1
      (elim (Bool-cases (op_org op == o)) [
        | inl mine ↦
            rw mine
              (org_apply-IsWithin op limit l e (p.0 ((nat_eq.equal_iff (op_org op) o).0 mine)) w)
        | inr foreign ↦ rw foreign w
      ])

-- Of a ledger that starts within an organization's limit, and whose store answers: after any calls,
-- in which no estimate of the organization is negative and no settlement of it costs more than is
-- held for it, what it has spent and holds together is within the limit.
pub run-IsWithin :
    (ops : List Op) (s : Ledger) (o : ℕ) (limit : Money)
    → s.unavailable ≡ false
    → (ledger_for o s).limit ≡ some limit
    → IsWithin limit (ledger_for o s)
    → AllOrderly o ops (ledger_for o s)
    → IsWithin limit (ledger_for o (run ops s))
run-IsWithin ops s o limit up e w p =
    rw (ledger_for-run ops s o up) (org_run-IsWithin o ops limit (ledger_for o s) e p w)
