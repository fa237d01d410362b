-- ===== src/Ledger.antt =====
-- adapters/ledger/in_memory_budget_ledger.py and the vocabulary of application/ports/ledger.py.
-- A coroutine of the class has no `await` inside, so each call is one function from the ledger
-- before to the result, or the exception, and the ledger after. Times are whole microseconds.
pub mod Holds
pub mod Orgs
pub mod Balance
pub mod Budget
pub mod Replies
pub mod Account
mod Tests
use enterprise_llm_gateway.Prelude.{
  Bool, List, Option, Text, [], false, if◌then◌else◌, length, ltb, nat_eq, none, pair_eq, some,
  text_eq, true, ℕ, ◌&&◌, ◌∷◌,
}
use enterprise_llm_gateway.Prelude.Dict.{Dict, get, map_values, put, values}
use enterprise_llm_gateway.Prelude.Int.{ltb_ℤ, pos, ℤ, ◌+ℤ◌, ◌-ℤ◌}
use enterprise_llm_gateway.Prelude.Result.{Result, err, ok}
use enterprise_llm_gateway.Money.{Money}

pub data Status : Type 0 where
  reserved committed released expired : Status

pub record Reservation : Type 0 where
  pub correlation_id : Text
  pub estimated_cost : Money
  pub status : Status
  pub created_at : ℕ

pub record OrgLedger : Type 0 where
  pub limit : Option Money
  pub reserved : ℤ
  pub spent : ℤ
  pub reservations : Dict Text Reservation

-- `_OrgLedger()`, with the limit given at construction.
abbrev pub new_org : Option Money → OrgLedger
new_org limit = record { limit = limit; reserved = pos 0; spent = pos 0; reservations = [] }

pub record Ledger : Type 0 where
  pub orgs : Dict ℕ OrgLedger
  pub unavailable : Bool

pub data LedgerError : Type 0 where
  ledger_unavailable unknown_reservation : LedgerError

pub data ReservationOutcome : Type 0 where
  reserved exceeded unavailable : ReservationOutcome

pub record ReservationResult : Type 0 where
  pub outcome : ReservationOutcome
  pub organization_id : ℕ
  pub correlation_id : Text
  pub estimated_cost : Money
  pub remaining : Option Money

-- `ReservationResult.permitted`
abbrev pub permitted : ReservationOutcome → Bool
permitted ReservationOutcome.reserved = true
permitted ReservationOutcome.exceeded = false
permitted ReservationOutcome.unavailable = false

pub record SettlementDetail : Type 0 where
  pub provider : Text
  pub model : Text
  pub prompt_tokens : ℤ
  pub completion_tokens : ℤ
  pub input_cost : Money
  pub output_cost : Money
  pub total_cost : Money

org_limits : List (ℕ × Money) → Dict ℕ OrgLedger
org_limits [] = []
org_limits ((org, limit) ∷ rest) = (org, new_org (some limit)) ∷ org_limits rest

-- `InMemoryBudgetLedger(limits, unavailable=…)`
unfoldable pub init : List (ℕ × Money) → Bool → Ledger
unfolding org_limits
init limits down = record { orgs = org_limits limits; unavailable = down }

or_new : Option OrgLedger → OrgLedger
or_new none = new_org none
or_new (some l) = l

-- `_ledger_for`: the object that `setdefault` returns; `put` below writes it back.
unfoldable pub ledger_for : ℕ → Ledger → OrgLedger
unfolding or_new
ledger_for org s = or_new (get org s.orgs)

unfoldable pub store : ℕ → OrgLedger → Ledger → Ledger
store org l s = record s { orgs = put org l s.orgs }

-- Whether an existing reservation replays: it is live or committed.
abbrev pub replays : Status → Bool
replays Status.reserved = true
replays Status.committed = true
replays Status.released = false
replays Status.expired = false

abbrev pub is_reserved : Status → Bool
is_reserved Status.reserved = true
is_reserved Status.committed = false
is_reserved Status.released = false
is_reserved Status.expired = false

abbrev pub is_committed : Status → Bool
is_committed Status.committed = true
is_committed Status.reserved = false
is_committed Status.released = false
is_committed Status.expired = false

result : ReservationOutcome → ℕ → Text → Money → Option Money → ReservationResult
result o org corr cost left = record {
  outcome = o;
  organization_id = org;
  correlation_id = corr;
  estimated_cost = cost;
  remaining = left;
}

abbrev pub new_hold : ℕ → Text → Money → Reservation
new_hold now corr cost = record {
  correlation_id = corr;
  estimated_cost = cost;
  status = Status.reserved;
  created_at = now;
}

-- `reserve` past the replay: the limit decides.
unfoldable pub admit : ℕ → ℕ → Text → Money → OrgLedger → ReservationResult × OrgLedger
unfolding result
admit now org corr cost l = elim l.limit [
  | none ↦ (
    result reserved org corr cost none,
    record l { reservations = put corr (new_hold now corr cost) l.reservations },
  )
  | some limit ↦
      let left = limit.amount -ℤ l.spent -ℤ l.reserved in
      if ltb_ℤ left cost.amount
      then (
        result exceeded org corr cost (some (record { amount = left; currency = limit.currency })),
        l,
      )
      else (
        result reserved org corr cost none,
        record l {
          reserved = l.reserved +ℤ cost.amount;
          reservations = put corr (new_hold now corr cost) l.reservations;
        },
      )
]

unfoldable pub reserve_in : ℕ → ℕ → Text → Money → OrgLedger → ReservationResult × OrgLedger
unfolding admit result
reserve_in now org corr cost l = elim (get corr l.reservations) [
  | none ↦ admit now org corr cost l
  | some r ↦
      if replays r.status
      then (result reserved org corr r.estimated_cost none, l)
      else admit now org corr cost l
]

unfoldable pub reserve :
    ℕ → ℕ → Text → Money → Ledger → Result LedgerError ReservationResult × Ledger
unfolding reserve_in ledger_for store
reserve now org corr cost s =
    if s.unavailable
    then (err ledger_unavailable, s)
    else (let (r, l) = reserve_in now org corr cost (ledger_for org s) in (ok r, store org l s))

-- `settle` on a reservation that exists.
unfoldable pub settle_in : Text → Money → Reservation → OrgLedger → OrgLedger
settle_in corr total r l =
    let booked = record r { status = Status.committed } in
    if is_committed r.status then l else record l {
      reserved = if is_reserved r.status then l.reserved -ℤ r.estimated_cost.amount else l.reserved;
      spent = l.spent +ℤ total.amount;
      reservations = put corr booked l.reservations;
    }

unfoldable pub settle :
    ℕ → Text → SettlementDetail → Ledger → Result LedgerError (Unit {0}) × Ledger
unfolding settle_in ledger_for store
settle org corr detail s =
    let l = ledger_for org s in
    if s.unavailable then (err ledger_unavailable, s) else elim (get corr l.reservations) [
      | none ↦ (err unknown_reservation, store org l s)
      | some r ↦ (ok tt, store org (settle_in corr detail.total_cost r l) s)
    ]

-- `release` on a reservation that exists.
unfoldable pub release_in : Text → Reservation → OrgLedger → OrgLedger
release_in corr r l =
    if is_reserved r.status
    then record l {
      reserved = l.reserved -ℤ r.estimated_cost.amount;
      reservations = put corr (record r { status = Status.released }) l.reservations;
    }
    else l

unfoldable pub release : ℕ → Text → Ledger → Result LedgerError (Unit {0}) × Ledger
unfolding release_in ledger_for store
release org corr s =
    let l = ledger_for org s in
    if s.unavailable then (err ledger_unavailable, s) else elim (get corr l.reservations) [
      | none ↦ (err unknown_reservation, store org l s)
      | some r ↦ (ok tt, store org (release_in corr r l) s)
    ]

unfoldable pub is_stale : ℕ → Reservation → Bool
is_stale older_than r = is_reserved r.status && ltb r.created_at older_than

-- The comprehension that picks the stale holds.
unfoldable pub stale : ℕ → List Reservation → List Reservation
unfolding is_stale
stale older_than [] = []
stale older_than (r ∷ rs) =
    let rest = stale older_than rs in if is_stale older_than r then r ∷ rest else rest

-- The loop over them returns each hold …
unfoldable pub return_holds : List Reservation → ℤ → ℤ
return_holds [] total = total
return_holds (r ∷ rs) total = return_holds rs (total -ℤ r.estimated_cost.amount)

-- … and marks it, in the dict that shares the objects.
unfoldable pub expire : ℕ → Reservation → Reservation
unfolding is_stale
expire older_than r = if is_stale older_than r then record r { status = Status.expired } else r

unfoldable pub reconcile_in : ℕ → OrgLedger → ℕ × OrgLedger
unfolding stale return_holds expire
reconcile_in older_than l =
    let old = stale older_than (values l.reservations) in
    (
      length old,
      record l {
        reserved = return_holds old l.reserved;
        reservations = map_values (expire older_than) l.reservations;
      },
    )

unfoldable pub reconcile_expired : ℕ → ℕ → Ledger → Result LedgerError ℕ × Ledger
unfolding reconcile_in ledger_for store
reconcile_expired org older_than s =
    if s.unavailable
    then (err ledger_unavailable, s)
    else (let (n, l) = reconcile_in older_than (ledger_for org s) in (ok n, store org l s))
