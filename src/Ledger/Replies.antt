-- ===== src/Ledger/Replies.antt =====
-- What the calls answer, and which of them change nothing.
use mathlib.Core.Path.{subst}
use enterprise_llm_gateway.Prelude.{
  Bool, Bool-cases, Option, Text, [], ap, arith, beq_refl, false, if◌then◌else◌, inl, inr, length,
  nat_eq, none, pair_eq, refl, some, text_eq, true, ℕ, ◌∙◌, ◌∷◌, ◌≡◌, ◌⊎◌,
}
use enterprise_llm_gateway.Prelude.Dict.{Dict, get, get-put_self, map_values, put, values}
use enterprise_llm_gateway.Prelude.Int.{int_laws, ltb_ℤ, pos, ℤ, ◌+ℤ◌, ◌-ℤ◌, ◌≤ℤ◌}
use enterprise_llm_gateway.Prelude.Result.{Result, err, ok}
use enterprise_llm_gateway.Ledger.{
  Ledger, LedgerError, OrgLedger, Reservation, ReservationOutcome, ReservationResult,
  SettlementDetail, Status, expire, is_committed, is_reserved, is_stale, ledger_for, new_hold,
  reconcile_expired, reconcile_in, release, release_in, replays, reserve, return_holds, settle,
  settle_in, stale, store,
}
use enterprise_llm_gateway.Ledger.Holds.{held, held_at, holds, holds-put}
use enterprise_llm_gateway.Ledger.Orgs.{ledger_for-store}
use enterprise_llm_gateway.Money.{Money}

pub ledger_for-store_self :
    (org : ℕ) (l : OrgLedger) (s : Ledger) → ledger_for org (store org l s) ≡ l
ledger_for-store_self org l s =
    ledger_for-store org org l s
    ∙ ap (λ (b : Bool). if b then l else ledger_for org s) (beq_refl org)

-- A reservation that is live or committed is answered again: the outcome is RESERVED at the
-- original estimate, and the organization's ledger stays as it was.
reserve_replay :
    (now org : ℕ) (corr : Text) (cost : Money) (s : Ledger) (r : Reservation)
    → s.unavailable ≡ false
    → get corr (ledger_for org s).reservations ≡ some r
    → replays r.status ≡ true
    → let (answer, s') = reserve now org corr cost s in
      (answer
        ≡ ok (record {
          outcome = ReservationOutcome.reserved;
          organization_id = org;
          correlation_id = corr;
          estimated_cost = r.estimated_cost;
          remaining = none;
        }))
      × (ledger_for org s' ≡ ledger_for org s)
unfolding reserve
reserve_replay now org corr cost s r up e live =
    ground (arith, ledger_for-store_self org (ledger_for org s) s)

-- The outcome of an answer, with what is left for an EXCEEDED one.
abbrev pub decided :
    Result LedgerError ReservationResult → Option (ReservationOutcome × Option Money)
decided (ok r) = some (r.outcome, r.remaining)
decided (err e) = none

-- Without such a reservation the limit decides: the estimate is held, and added to what is reserved,
-- if it is at most what the limit leaves; if it is more, the answer is EXCEEDED with what is left,
-- and the organization's ledger stays as it was.
reserve-decides :
    (now org : ℕ) (corr : Text) (cost limit : Money) (s : Ledger)
    → let l = ledger_for org s in
      let left = limit.amount -ℤ l.spent -ℤ l.reserved in
      s.unavailable ≡ false
      → l.limit ≡ some limit
      → get corr l.reservations ≡ none
      → let (answer, s') = reserve now org corr cost s in
        ((cost.amount ≤ℤ left)
          × (decided answer ≡ some (ReservationOutcome.reserved, none))
          × (get corr (ledger_for org s').reservations ≡ some (new_hold now corr cost))
          × ((ledger_for org s').reserved ≡ l.reserved +ℤ cost.amount)
          × ((ledger_for org s').spent ≡ l.spent))
        ⊎ ((¬ (cost.amount ≤ℤ left))
            × (decided answer
                ≡ some (
                  ReservationOutcome.exceeded,
                  some (record { amount = left; currency = limit.currency }),
                ))
            × (ledger_for org s' ≡ l))
unfolding reserve
reserve-decides now org corr cost limit s up e new =
    let l = ledger_for org s in
    let left = limit.amount -ℤ l.spent -ℤ l.reserved in
    let l' : OrgLedger = record l {
      reserved = l.reserved +ℤ cost.amount;
      reservations = put corr (new_hold now corr cost) l.reservations;
    } in
    let held = ledger_for-store_self org l' s in
    elim (Bool-cases (ltb_ℤ left cost.amount)) [
      | inl over ↦ inr (ground arith, ground arith, ground (arith, ledger_for-store_self org l s))
      | inr fit ↦ inl (
        ground arith,
        ground arith,
        ground (arith, held, get-put_self corr (new_hold now corr cost) l.reservations),
        ground (arith, held),
        ground (arith, held),
      )
    ]

pub settle-open :
    (org : ℕ) (corr : Text) (d : SettlementDetail) (s : Ledger) (r : Reservation)
    → s.unavailable ≡ false
    → get corr (ledger_for org s).reservations ≡ some r
    → settle org corr d s ≡ (ok tt, store org (settle_in corr d.total_cost r (ledger_for org s)) s)
unfolding settle
settle-open org corr d s r up e = ground arith

pub settle_in-books :
    (corr : Text) (total : Money) (r : Reservation) (l : OrgLedger)
    → is_committed r.status ≡ false
    → get corr (settle_in corr total r l).reservations
      ≡ some (record r { status = Status.committed })
unfolding settle_in
settle_in-books corr total r l h =
    ground (arith, get-put_self corr (record r { status = Status.committed }) l.reservations)

settle-idle :
    (org : ℕ) (corr : Text) (d : SettlementDetail) (s : Ledger) (r : Reservation)
    → s.unavailable ≡ false
    → get corr (ledger_for org s).reservations ≡ some r
    → is_committed r.status ≡ true
    → ledger_for org (settle org corr d s).1 ≡ ledger_for org s
unfolding settle
settle-idle org corr d s r up e done =
    ground (arith, ledger_for-store_self org (ledger_for org s) s)

release-idle :
    (org : ℕ) (corr : Text) (s : Ledger) (r : Reservation)
    → s.unavailable ≡ false
    → get corr (ledger_for org s).reservations ≡ some r
    → is_reserved r.status ≡ false
    → ledger_for org (release org corr s).1 ≡ ledger_for org s
unfolding release
release-idle org corr s r up e done = ground (arith, ledger_for-store_self org (ledger_for org s) s)

-- A settlement of a reservation that is not committed books its cost once and returns the hold only
-- if it is still live; a second settlement, for whatever cost, changes nothing more, and neither
-- does a release.
pub settle_once :
    (org : ℕ) (corr : Text) (d d' : SettlementDetail) (s : Ledger) (r : Reservation)
    → s.unavailable ≡ false
    → get corr (ledger_for org s).reservations ≡ some r
    → is_committed r.status ≡ false
    → let l = ledger_for org s in
      let s' = (settle org corr d s).1 in
      let l' = ledger_for org s' in
      ((settle org corr d s).0 ≡ ok tt)
      × (l'.spent ≡ l.spent +ℤ d.total_cost.amount)
      × (l'.reserved
          ≡ (if is_reserved r.status then l.reserved -ℤ r.estimated_cost.amount else l.reserved))
      × (ledger_for org (settle org corr d' s').1 ≡ l')
      × (ledger_for org (release org corr s').1 ≡ l')
settle_once org corr d d' s r up e open_hold =
    let l = ledger_for org s in
    let r' : Reservation = record r { status = Status.committed } in
    let l' = settle_in corr d.total_cost r l in
    let s' = store org l' s in
    let up' : s'.unavailable ≡ false = unfold store in up in
    let e' : get corr (ledger_for org s').reservations ≡ some r' =
      rw (ledger_for-store_self org l' s) (settle_in-books corr d.total_cost r l open_hold) in
    rw (settle-open org corr d s r up e) (
      refl,
      rw (ledger_for-store_self org l' s) (unfold settle_in in ground arith),
      rw (ledger_for-store_self org l' s) (unfold settle_in in ground arith),
      settle-idle org corr d' s' r' up' e' refl,
      release-idle org corr s' r' up' e' refl,
    )

stale-expire :
    (older : ℕ) (d : Dict Text Reservation)
    → stale older (values (map_values (expire older) d)) ≡ []
unfolding stale values map_values expire is_stale
stale-expire older [] = refl
stale-expire older ((k, r) ∷ d) = ground (arith, stale-expire older d)

expire-expire :
    (older : ℕ) (d : Dict Text Reservation)
    → map_values (expire older) (map_values (expire older) d) ≡ map_values (expire older) d
unfolding map_values expire is_stale
expire-expire older [] = refl
expire-expire older ((k, r) ∷ d) = ground (arith, expire-expire older d)

reconcile_in-reconcile_in :
    (older : ℕ) (l : OrgLedger)
    → reconcile_in older (reconcile_in older l).1 ≡ (0, (reconcile_in older l).1)
unfolding reconcile_in return_holds
reconcile_in-reconcile_in older l =
    ground (arith, stale-expire older l.reservations, expire-expire older l.reservations)

-- A sweep answers how many holds it reclaimed, and a second sweep with the same cutoff reclaims none.
reconcile_twice :
    (org older : ℕ) (s : Ledger)
    → s.unavailable ≡ false
    → let s' = (reconcile_expired org older s).1 in
      ((reconcile_expired org older s).0
        ≡ ok (length (stale older (values (ledger_for org s).reservations))))
      × ((reconcile_expired org older s').0 ≡ ok 0)
      × (ledger_for org (reconcile_expired org older s').1 ≡ ledger_for org s')
reconcile_twice org older s up =
    let l = ledger_for org s in
    let l' = (reconcile_in older l).1 in
    let s' = store org l' s in
    let held = ledger_for-store_self org l' s in
    let again = reconcile_in-reconcile_in older l in
    (
      unfold reconcile_expired reconcile_in in ground arith,
      unfold reconcile_expired in ground (arith, held, again),
      unfold reconcile_expired in ground (arith, held, again, ledger_for-store_self org l' s'),
    )

cancel : (a x b c : ℤ) → a +ℤ x ≡ b +ℤ pos 0 → b +ℤ pos 0 ≡ c +ℤ x → a ≡ c
cancel a x b c e f = grind int_laws

holds-put_twice :
    (corr : Text) (r r' : Reservation) (d : Dict Text Reservation)
    → get corr d ≡ none
    → held r' ≡ pos 0
    → holds (put corr r' (put corr r d)) ≡ holds d
holds-put_twice corr r r' d new done =
    cancel (holds (put corr r' (put corr r d))) (held r) (holds (put corr r d)) (holds d)
      (subst
          (λ (o : Option Reservation).
            holds (put corr r' (put corr r d)) +ℤ held_at o ≡ holds (put corr r d) +ℤ held r')
          (get-put_self corr r d) (holds-put corr r' (put corr r d))
        ∙ ap (λ (z : ℤ). holds (put corr r d) +ℤ z) done)
      (subst (λ (o : Option Reservation). holds (put corr r d) +ℤ held_at o ≡ holds d +ℤ held r) new
        (holds-put corr r d))

reserve-unlimited :
    (now org : ℕ) (corr : Text) (cost : Money) (s : Ledger)
    → s.unavailable ≡ false
    → (ledger_for org s).limit ≡ none
    → get corr (ledger_for org s).reservations ≡ none
    → let l = ledger_for org s in
      (reserve now org corr cost s).1
      ≡ store org (record l { reservations = put corr (new_hold now corr cost) l.reservations }) s
unfolding reserve
reserve-unlimited now org corr cost s up free new = ground arith

release-live :
    (org : ℕ) (corr : Text) (s : Ledger) (r : Reservation)
    → s.unavailable ≡ false
    → get corr (ledger_for org s).reservations ≡ some r
    → (release org corr s).1 ≡ store org (release_in corr r (ledger_for org s)) s
unfolding release
release-live org corr s r up e = ground arith

-- Where an organization has no limit, a hold is not added to what is reserved, but its release is
-- taken off: reserving and releasing any cost, under an identifier that is new, moves the total down
-- by that cost although nothing is held.
pub unlimited-drifts :
    (now org : ℕ) (corr : Text) (cost : Money) (s : Ledger)
    → s.unavailable ≡ false
    → (ledger_for org s).limit ≡ none
    → get corr (ledger_for org s).reservations ≡ none
    → let l' = ledger_for org (release org corr (reserve now org corr cost s).1).1 in
      (l'.reserved ≡ (ledger_for org s).reserved -ℤ cost.amount)
      × (holds l'.reservations ≡ holds (ledger_for org s).reservations)
unlimited-drifts now org corr cost s up free new =
    let l = ledger_for org s in
    let r = new_hold now corr cost in
    let l1 : OrgLedger = record l { reservations = put corr r l.reservations } in
    let s1 = store org l1 s in
    let l2 = release_in corr r l1 in
    let at : get corr (ledger_for org s1).reservations ≡ some r =
      rw (ledger_for-store_self org l1 s) (get-put_self corr r l.reservations) in
    rw (reserve-unlimited now org corr cost s up free new) (
      rw (release-live org corr s1 r (unfold store in up) at) (
        rw (ledger_for-store_self org (release_in corr r (ledger_for org s1)) s1) (
          rw (ledger_for-store_self org l1 s) (
            unfold release_in in
            (
              refl,
              holds-put_twice corr r (record r { status = Status.released }) l.reservations new
                  refl,
            )))))
