-- ===== src/Reservations.antt =====
-- application/accounting/reservation_service.py and reservation_reconciler.py: the gate before a
-- provider call, and the settlement or release after it.
use enterprise_llm_gateway.Ledger as LedgerStore
use enterprise_llm_gateway.Prelude.{
  Option, Text, if◌then◌else◌, nat_eq, none, pair_eq, some, text_eq, ℕ, ◌-◌,
}
use enterprise_llm_gateway.Prelude.Int.{ltb_ℤ, pos, pos_part, ℤ}
use enterprise_llm_gateway.Prelude.Result.{Result, err, ok}
use enterprise_llm_gateway.Accounting.{
  AccountingDefect, CostRecord, ModelPrice, account, compute_cost, estimate_usage,
  settlement_detail, unknown_price,
}
use enterprise_llm_gateway.Ledger.{
  Ledger, LedgerError, ReservationOutcome, ReservationResult, reconcile_expired, unavailable,
}
use enterprise_llm_gateway.Money.{Money}
use enterprise_llm_gateway.Ports.{InferenceRequest, ProviderDescriptor, ProviderResponse}
use enterprise_llm_gateway.World.{Env, World, budget_reservation, record_metric, tick}

-- `ReservationReconciler(ledger, clock, ttl)`: none is the ValueError.
pub reservation_reconciler : ℤ → Option ℕ
reservation_reconciler ttl = if ltb_ℤ (pos 0) ttl then some (pos_part ttl) else none

-- The exceptions that `settle` lets through.
pub data SettleError : Type 0 where
  defect : AccountingDefect → SettleError
  ledger : LedgerError → SettleError

abbrev settled : CostRecord → Result LedgerError (Unit {0}) → Result SettleError CostRecord
settled r (ok u) = ok r
settled r (err e) = err (ledger e)

module _ (E : Env) where
  open E use {Client, price_for, clock, reservation_ttl}

  -- `reclaim`: an outage of the ledger is swallowed. A cutoff before time 0 is 0: no hold is older.
  unfoldable pub reclaim : ℕ → World Client → ℕ × World Client
  reclaim org w =
      let (answer, s) = reconcile_expired org (clock w.readings - reservation_ttl) w.ledger in
      (elim answer [ ok n ↦ n | err e ↦ 0 ], record (tick w) { ledger = s })

  -- What `reserve` answers when the ledger cannot be reached.
  abbrev pub unavailable_result : ℕ → Text → Money → ReservationResult
  unavailable_result org corr cost = record {
    outcome = ReservationOutcome.unavailable;
    organization_id = org;
    correlation_id = corr;
    estimated_cost = cost;
    remaining = none;
  }

  abbrev pub caught : ℕ → Text → Money → Result LedgerError ReservationResult → ReservationResult
  caught org corr cost (ok r) = r
  caught org corr cost (err e) = unavailable_result org corr cost

  -- `reserve` once the price is known.
  unfoldable pub reserve_priced :
      ℕ → InferenceRequest → ModelPrice → World Client → ReservationResult × World Client
  reserve_priced org request price w =
      let cost = (compute_cost (estimate_usage request) price).total_cost in
      let (answer, s) =
        LedgerStore.reserve (clock w.readings) org request.correlation_id cost w.ledger in
      let result = caught org request.correlation_id cost answer in
      (result, record_metric (budget_reservation result.outcome) (record (tick w) { ledger = s }))

  unfoldable pub reserve :
      ℕ
      → ProviderDescriptor
      → InferenceRequest
      → World Client
      → Result AccountingDefect ReservationResult × World Client
  unfolding reclaim reserve_priced
  reserve org provider request w =
      let w' = (reclaim org w).1 in
      elim (price_for org provider.name provider.model) [
        | none ↦ (err unknown_price, w')
        | some price ↦ let (result, w'') = reserve_priced org request price w' in (ok result, w'')
      ]

  unfoldable pub settle :
      ℕ
      → Text
      → ProviderResponse
      → ProviderDescriptor
      → World Client
      → Result SettleError CostRecord × World Client
  settle org corr response provider w = elim (account price_for response provider org corr) [
    | err e ↦ (err (defect e), w)
    | ok r ↦
        let (answer, s) = LedgerStore.settle org corr (settlement_detail r) w.ledger in
        (settled r answer, record w { ledger = s })
  ]

  unfoldable pub release : ℕ → Text → World Client → Result LedgerError (Unit {0}) × World Client
  release org corr w =
      let (answer, s) = LedgerStore.release org corr w.ledger in (answer, record w { ledger = s })
