-- ===== src/Ledger/Account.antt =====
-- What one request's identifier stands at in its organization's ledger, from call to call.
use enterprise_llm_gateway.Prelude.{
  Option, Text, ap, arith, false, nat_eq, none, pair_eq, refl, some, text_eq, true, ℕ, ◌∙◌, ◌≡◌,
}
use enterprise_llm_gateway.Prelude.Dict.{get, get-map_values, get-put_self, map_option}
use enterprise_llm_gateway.Prelude.Int.{ℤ, ◌+ℤ◌}
use enterprise_llm_gateway.Prelude.Result.{ok}
use enterprise_llm_gateway.Ledger.{
  Ledger, OrgLedger, Reservation, ReservationResult, SettlementDetail, Status, admit, expire,
  is_committed, is_reserved, ledger_for, new_hold, permitted, reconcile_expired, reconcile_in,
  release, release_in, reserve, settle, settle_in, store,
}
use enterprise_llm_gateway.Ledger.Replies.{ledger_for-store_self, settle-open, settle_in-books}
use enterprise_llm_gateway.Money.{Money}

-- The store answers, the organization has spent so much, and the identifier stands so.
pub record Stands (org : ℕ) (corr : Text) (spent : ℤ) (entry : Option Reservation) (s : Ledger)
    : Type 0 where
  pub up : s.unavailable ≡ false
  pub spent_is : (ledger_for org s).spent ≡ spent
  pub entry_is : get corr (ledger_for org s).reservations ≡ entry

Stands-store :
    (org : ℕ) (corr : Text) (spent : ℤ) (l : OrgLedger) (entry : Option Reservation) (s : Ledger)
    → s.unavailable ≡ false
    → l.spent ≡ spent
    → get corr l.reservations ≡ entry
    → Stands org corr spent entry (store org l s)
Stands-store org corr spent l entry s u m e = record {
  up = unfold store in u;
  spent_is = rw (ledger_for-store_self org l s) m;
  entry_is = rw (ledger_for-store_self org l s) e;
}

pub reconcile-Stands :
    (org : ℕ) (corr : Text) (spent : ℤ) (older : ℕ) (s : Ledger)
    → Stands org corr spent none s
    → Stands org corr spent none (reconcile_expired org older s).1
reconcile-Stands org corr spent older s h =
    let l = ledger_for org s in
    let l' = (reconcile_in older l).1 in
    let gone : get corr l'.reservations ≡ none =
      unfold reconcile_in in
      get-map_values (expire older) corr l.reservations
      ∙ ap (map_option (expire older)) h.entry_is in
    let eq : (reconcile_expired org older s).1 ≡ store org l' s =
      unfold reconcile_expired in ground (arith, h.up) in
    rw eq (Stands-store org corr spent l' none s h.up (unfold reconcile_in in h.spent_is) gone)

reserve-new :
    (org : ℕ) (corr : Text) (now : ℕ) (cost : Money) (s : Ledger)
    → s.unavailable ≡ false
    → get corr (ledger_for org s).reservations ≡ none
    → let (r, l) = admit now org corr cost (ledger_for org s) in
      reserve now org corr cost s ≡ (ok r, store org l s)
unfolding reserve
reserve-new org corr now cost s up new = ground arith

admit-held :
    (now org : ℕ) (corr : Text) (cost : Money) (l : OrgLedger)
    → permitted (admit now org corr cost l).0.outcome ≡ true
    → get corr (admit now org corr cost l).1.reservations ≡ some (new_hold now corr cost)
unfolding admit
admit-held now org corr cost l h =
    ground (arith, get-put_self corr (new_hold now corr cost) l.reservations)

admit-refused :
    (now org : ℕ) (corr : Text) (cost : Money) (l : OrgLedger)
    → permitted (admit now org corr cost l).0.outcome ≡ false
    → (admit now org corr cost l).1 ≡ l
unfolding admit
admit-refused now org corr cost l h = ground arith

spent-admit :
    (now org : ℕ) (corr : Text) (cost : Money) (l : OrgLedger)
    → (admit now org corr cost l).1.spent ≡ l.spent
unfolding admit
spent-admit now org corr cost l = ground arith

-- A reservation under a new identifier is answered; it holds the estimate if it is permitted, and
-- leaves the identifier new if not.
pub reserve-Stands :
    (org : ℕ) (corr : Text) (spent : ℤ) (now : ℕ) (cost : Money) (s : Ledger)
    → Stands org corr spent none s
    → let (answer, s') = reserve now org corr cost s in
      (r : ReservationResult) × (answer ≡ ok r)
      × (permitted r.outcome ≡ true → Stands org corr spent (some (new_hold now corr cost)) s')
      × (permitted r.outcome ≡ false → Stands org corr spent none s')
reserve-Stands org corr spent now cost s h =
    let l = ledger_for org s in
    let (r, l') = admit now org corr cost l in
    let same = spent-admit now org corr cost l ∙ h.spent_is in
    rw (reserve-new org corr now cost s h.up h.entry_is) (
      r,
      refl,
      λ held.
          Stands-store org corr spent l' (some (new_hold now corr cost)) s h.up same
            (admit-held now org corr cost l held),
      λ refused. Stands-store org corr spent l' none s h.up same (
          ap (λ (m : OrgLedger). get corr m.reservations)
            (admit-refused now org corr cost l refused)
          ∙ h.entry_is),
    )

pub settle-Stands :
    (org : ℕ) (corr : Text) (spent : ℤ) (d : SettlementDetail) (r : Reservation) (s : Ledger)
    → is_reserved r.status ≡ true
    → Stands org corr spent (some r) s
    → let (answer, s') = settle org corr d s in
      (answer ≡ ok tt)
      × Stands org corr
          (spent +ℤ d.total_cost.amount)
          (some (record r { status = Status.committed }))
          s'
settle-Stands org corr spent d r s live h =
    let l' = settle_in corr d.total_cost r (ledger_for org s) in
    let idle : is_committed r.status ≡ false = ground arith in
    let money : l'.spent ≡ spent +ℤ d.total_cost.amount =
      unfold settle_in in ground (arith, h.spent_is) in
    rw (settle-open org corr d s r h.up h.entry_is) (
      refl,
      Stands-store org corr (spent +ℤ d.total_cost.amount) l'
          (some (record r { status = Status.committed })) s h.up money
          (settle_in-books corr d.total_cost r (ledger_for org s) idle),
    )

pub release-Stands :
    (org : ℕ) (corr : Text) (spent : ℤ) (r : Reservation) (s : Ledger)
    → is_reserved r.status ≡ true
    → Stands org corr spent (some r) s
    → let (answer, s') = release org corr s in
      (answer ≡ ok tt) × Stands org corr spent (some (record r { status = Status.released })) s'
release-Stands org corr spent r s live h =
    let l = ledger_for org s in
    let r' : Reservation = record r { status = Status.released } in
    let l' = release_in corr r l in
    let gone : get corr l'.reservations ≡ some r' =
      unfold release_in in ground (arith, get-put_self corr r' l.reservations) in
    let money : l'.spent ≡ spent = unfold release_in in ground (arith, h.spent_is) in
    let eq : release org corr s ≡ (ok tt, store org l' s) =
      unfold release in ground (arith, h.up, h.entry_is) in
    rw eq (refl, Stands-store org corr spent l' (some r') s h.up money gone)
