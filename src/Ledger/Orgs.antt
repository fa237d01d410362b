-- ===== src/Ledger/Orgs.antt =====
-- The ledger as a family of organizations' ledgers: what each call does to each of them.
use enterprise_llm_gateway.Prelude.{
  Bool-cases, List, Text, [], ap, arith, false, if◌then◌else◌, inl, inr, nat_eq, none, pair_eq,
  refl, some, text_eq, true, ℕ, ◌==◌, ◌∙◌, ◌∷◌, ◌≡◌,
}
use enterprise_llm_gateway.Prelude.Dict.{get, get-put}
use enterprise_llm_gateway.Ledger.{
  Ledger, OrgLedger, SettlementDetail, ledger_for, reconcile_expired, reconcile_in, release,
  release_in, reserve, reserve_in, settle, settle_in, store,
}
use enterprise_llm_gateway.Money.{Money}

-- A call of one of the four coroutines.
pub data Op : Type 0 where
  reserve_op : ℕ → ℕ → Text → Money → Op
  settle_op : ℕ → Text → SettlementDetail → Op
  release_op : ℕ → Text → Op
  reconcile_op : ℕ → ℕ → Op

-- The ledger after a call, whether it returned or raised.
unfoldable pub apply : Op → Ledger → Ledger
apply (reserve_op now org corr cost) s = (reserve now org corr cost s).1
apply (settle_op org corr d) s = (settle org corr d s).1
apply (release_op org corr) s = (release org corr s).1
apply (reconcile_op org older) s = (reconcile_expired org older s).1

unfoldable pub run : List Op → Ledger → Ledger
run [] s = s
run (op ∷ ops) s = run ops (apply op s)

abbrev pub op_org : Op → ℕ
op_org (reserve_op now org corr cost) = org
op_org (settle_op org corr d) = org
op_org (release_op org corr) = org
op_org (reconcile_op org older) = org

-- What a call means for its own organization's ledger.
unfoldable pub org_apply : Op → OrgLedger → OrgLedger
org_apply (reserve_op now org corr cost) l = (reserve_in now org corr cost l).1
org_apply (settle_op org corr d) l = elim (get corr l.reservations) [
  | none ↦ l
  | some r ↦ settle_in corr d.total_cost r l
]
org_apply (release_op org corr) l = elim (get corr l.reservations) [
  | none ↦ l
  | some r ↦ release_in corr r l
]
org_apply (reconcile_op org older) l = (reconcile_in older l).1

unfoldable pub org_run : ℕ → List Op → OrgLedger → OrgLedger
org_run o [] l = l
org_run o (op ∷ ops) l = org_run o ops (if op_org op == o then org_apply op l else l)

pub ledger_for-store :
    (org o : ℕ) (l : OrgLedger) (s : Ledger)
    → ledger_for o (store org l s) ≡ (if org == o then l else ledger_for o s)
unfolding ledger_for store
ledger_for-store org o l s = rw (get-put org o l s.orgs) (ground arith)

pub unavailable-apply : (op : Op) (s : Ledger) → (apply op s).unavailable ≡ s.unavailable
unfolding apply reserve settle release reconcile_expired store
unavailable-apply (reserve_op now org corr cost) s = ground arith
unavailable-apply (settle_op org corr d) s = ground arith
unavailable-apply (release_op org corr) s = ground arith
unavailable-apply (reconcile_op org older) s = ground arith

own_entry :
    (op : Op) (s : Ledger) (o : ℕ)
    → (if op_org op == o then org_apply op (ledger_for (op_org op) s) else ledger_for o s)
      ≡ (if op_org op == o then org_apply op (ledger_for o s) else ledger_for o s)
own_entry op s o = elim (Bool-cases (op_org op == o)) [
  | inl same ↦ rw ((nat_eq.equal_iff (op_org op) o).0 same)
  | inr differ ↦ rw differ
]

-- While the store answers, a call stores what `org_apply` makes of its organization's ledger.
pub apply-store :
    (op : Op) (s : Ledger)
    → s.unavailable ≡ false
    → apply op s ≡ store (op_org op) (org_apply op (ledger_for (op_org op) s)) s
unfolding apply reserve settle release reconcile_expired org_apply
apply-store (reserve_op now org corr cost) s up = ground arith
apply-store (settle_op org corr d) s up = ground arith
apply-store (release_op org corr) s up = ground arith
apply-store (reconcile_op org older) s up = ground arith

ledger_for-apply :
    (op : Op) (s : Ledger) (o : ℕ)
    → s.unavailable ≡ false
    → ledger_for o (apply op s)
      ≡ (if op_org op == o then org_apply op (ledger_for o s) else ledger_for o s)
ledger_for-apply op s o up =
    ap (ledger_for o) (apply-store op s up)
    ∙ ledger_for-store (op_org op) o (org_apply op (ledger_for (op_org op) s)) s
    ∙ own_entry op s o

-- Each organization's ledger is a machine of its own: while the store answers, after any calls, for
-- whatever organizations, the ledger of one is what its own calls make of it.
pub ledger_for-run :
    (ops : List Op) (s : Ledger) (o : ℕ)
    → s.unavailable ≡ false
    → ledger_for o (run ops s) ≡ org_run o ops (ledger_for o s)
unfolding run org_run
ledger_for-run [] s o up = refl
ledger_for-run (op ∷ ops) s o up =
    ledger_for-run ops (apply op s) o (unavailable-apply op s ∙ up)
    ∙ ap (org_run o ops) (ledger_for-apply op s o up)

-- A store that does not answer raises from every call, and nothing changes.
apply-down : (op : Op) (s : Ledger) → s.unavailable ≡ true → apply op s ≡ s
unfolding apply reserve settle release reconcile_expired
apply-down (reserve_op now org corr cost) s down = ground arith
apply-down (settle_op org corr d) s down = ground arith
apply-down (release_op org corr) s down = ground arith
apply-down (reconcile_op org older) s down = ground arith
