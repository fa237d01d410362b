-- ===== src/Execution/Charges.antt =====
-- What one executed request leaves in the ledger of its organization, from the reservation to the
-- settlement or the release.
use enterprise_llm_gateway.Reservations
use enterprise_llm_gateway.Ledger as LedgerStore
use mathlib.Core.Path.{subst}
-- What a result charges: the total of its cost record, if it has one.
use enterprise_llm_gateway.Prelude.{
  Option, Text, ap, arith, codes, false, inl, inr, nat_eq, none, pair_eq, refl, some, sym, text_eq,
  true, ℕ, ◌↔◌, ◌∙◌, ◌≡◌, ◌≢◌,
}
use enterprise_llm_gateway.Prelude.Dict.{get}
use enterprise_llm_gateway.Prelude.Int.{int_laws, pos, ℤ, ◌+ℤ◌}
use enterprise_llm_gateway.Prelude.Result.{Result, Result-cases, err, ok}
use enterprise_llm_gateway.Accounting.{AccountingDefect, CostRecord, account, settlement_detail}
use enterprise_llm_gateway.Execution.{
  Failure, InferenceExecutionResult, finish, not_accountable_result, release_then, settle_call,
  store_response, uncosted,
}
use enterprise_llm_gateway.Ledger.{
  Ledger, Reservation, Status, is_reserved, ledger_for, released, unavailable,
}
use enterprise_llm_gateway.Ledger.Account.{Stands, release-Stands, settle-Stands}
use enterprise_llm_gateway.Ledger.Holds.{held_at}
use enterprise_llm_gateway.Ports.{
  ExecutionOutcome, InferenceRequest, ProviderDescriptor, ProviderResponse, executed, failure,
  not_accountable,
}
use enterprise_llm_gateway.Reservations.{defect}
use enterprise_llm_gateway.World.{Env, World}

abbrev pub charged : Option CostRecord → ℤ
charged none = pos 0
charged (some c) = c.cost.total_cost.amount

-- A cost is recorded exactly for an executed call whose response is a success.
abbrev pub CostsIfServed : InferenceExecutionResult → Type 0
CostsIfServed r = (r.cost ≢ none) ↔ ((r.outcome ≡ executed) × (r.response.ok ≡ true))

-- The call returned `r`; the store still answers, what was spent grew by what `r` charges, and under
-- the identifier nothing is held.
pub record Accounted {C : Type 0} (org : ℕ) (corr : Text) (spent : ℤ)
    (answer : Result Failure InferenceExecutionResult) (w : World C) : Type 0 where
  pub result : InferenceExecutionResult
  pub returned : answer ≡ ok result
  pub up : w.ledger.unavailable ≡ false
  pub spent_is : (ledger_for org w.ledger).spent ≡ spent +ℤ charged result.cost
  pub nothing_held : held_at (get corr (ledger_for org w.ledger).reservations) ≡ pos 0
  pub served : CostsIfServed result

pub plus_zero : (a : ℤ) → a +ℤ pos 0 ≡ a
plus_zero a = omega int_laws

pub uncosted-served :
    (o : ExecutionOutcome) (response : ProviderResponse)
    → response.ok ≡ false
    → CostsIfServed (uncosted o response)
uncosted-served o response bad = (λ h. absurd (h refl), λ (a, b). cc)

pub unserved :
    (o : ExecutionOutcome) (response : ProviderResponse)
    → o ≢ executed
    → CostsIfServed (uncosted o response)
unserved o response other_kind = (λ h. absurd (h refl), λ (a, b). absurd (other_kind a))

module _ (E : Env) where
  open E use {Client, price_for, clock, reservation_ttl}

  pub finish-Accounted :
      (org : ℕ) (corr : Text) (spent : ℤ) (o : ExecutionOutcome) (response : ProviderResponse)
      (cost : Option CostRecord) (entry : Option Reservation) (w : World Client)
      → Stands org corr (spent +ℤ charged cost) entry w.ledger
      → held_at entry ≡ pos 0
      → CostsIfServed (record { outcome = o; response = response; cost = cost })
      → let (answer, w') = finish E o response cost w in Accounted org corr spent answer w'
  unfolding finish
  finish-Accounted org corr spent o response cost entry w h free served = record {
    result = record { outcome = o; response = response; cost = cost };
    returned = refl;
    up = h.up;
    spent_is = h.spent_is;
    nothing_held = ap held_at h.entry_is ∙ free;
    served = served;
  }

  -- A release, and a result that charges nothing.
  pub release_then-Accounted :
      (org : ℕ) (corr : Text) (spent : ℤ) (o : ExecutionOutcome) (response : ProviderResponse)
      (r : Reservation) (w : World Client)
      → is_reserved r.status ≡ true
      → Stands org corr spent (some r) w.ledger
      → CostsIfServed (uncosted o response)
      → let (answer, w') = release_then E org corr (finish E o response none) w in
        Accounted org corr spent answer w'
  unfolding release_then Reservations.release
  release_then-Accounted org corr spent o response r w live h served =
      let (done, after) = release-Stands org corr spent r w.ledger live h in
      let s' = (LedgerStore.release org corr w.ledger).1 in
      rw (done, release_then)
        (finish-Accounted org corr spent o response none
          (some (record r { status = Status.released })) (record w { ledger = s' })
          (subst (λ (z : ℤ). Stands org corr z (some (record r { status = Status.released })) s')
            (sym (plus_zero spent)) after)
          refl served)

  pub settle-charged :
      (org : ℕ) (corr : Text) (response : ProviderResponse) (provider : ProviderDescriptor)
      (w : World Client) (c : CostRecord)
      → account price_for response provider org corr ≡ ok c
      → let (answer, s') = LedgerStore.settle org corr (settlement_detail c) w.ledger in
        answer ≡ ok tt
        → Reservations.settle E org corr response provider w ≡ (ok c, record w { ledger = s' })
  unfolding Reservations.settle
  settle-charged org corr response provider w c f done = ground arith

  pub settle-defective :
      (org : ℕ) (corr : Text) (response : ProviderResponse) (provider : ProviderDescriptor)
      (w : World Client) (e : AccountingDefect)
      → account price_for response provider org corr ≡ err e
      → Reservations.settle E org corr response provider w ≡ (err (defect e), w)
  unfolding Reservations.settle
  settle-defective org corr response provider w e f = ground arith

  pub settle_call-charged :
      (org : ℕ) (provider : ProviderDescriptor) (request : InferenceRequest) (digest : Text)
      (response : ProviderResponse) (w : World Client) (c : CostRecord)
      → account price_for response provider org request.correlation_id ≡ ok c
      → let (answer, s') =
          LedgerStore.settle org request.correlation_id (settlement_detail c) w.ledger in
        answer ≡ ok tt
        → settle_call E org provider request digest response w
          ≡ finish E executed response
              (some c)
              (store_response E org provider digest response (record w { ledger = s' }))
  unfolding settle_call
  settle_call-charged org provider request digest response w c f done =
      ground (arith, settle-charged org request.correlation_id response provider w c f done)

  pub settle_call-defective :
      (org : ℕ) (provider : ProviderDescriptor) (request : InferenceRequest) (digest : Text)
      (response : ProviderResponse) (w : World Client) (e : AccountingDefect)
      → account price_for response provider org request.correlation_id ≡ err e
      → settle_call E org provider request digest response w
        ≡ release_then E org request.correlation_id (not_accountable_result E) w
  unfolding settle_call
  settle_call-defective org provider request digest response w e f =
      ground (arith, settle-defective org request.correlation_id response provider w e f)

  pub settle_call-Accounted :
      (org : ℕ) (provider : ProviderDescriptor) (request : InferenceRequest) (digest : Text)
      (response : ProviderResponse) (spent : ℤ) (r : Reservation) (w : World Client)
      → is_reserved r.status ≡ true
      → response.ok ≡ true
      → Stands org request.correlation_id spent (some r) w.ledger
      → let (answer, w') = settle_call E org provider request digest response w in
        Accounted org request.correlation_id spent answer w'
  unfolding not_accountable_result settlement_detail store_response
  settle_call-Accounted org provider request digest response spent r w live good h =
      let corr = request.correlation_id in
      elim (Result-cases (account price_for response provider org corr)) [
        | inr (e, f) ↦ rw (settle_call-defective org provider request digest response w e f) (
            release_then-Accounted org corr spent not_accountable
              (failure (codes "not_accountable")) r w live h
              (uncosted-served not_accountable (failure (codes "not_accountable")) refl))
        | inl (c, f) ↦
            let d = settlement_detail c in
            let (done, after) = settle-Stands org corr spent d r w.ledger live h in
            let w' = record w { ledger = (LedgerStore.settle org corr d w.ledger).1 } in
            rw (settle_call-charged org provider request digest response w c f done) (
              finish-Accounted org corr spent executed response (some c)
                (some (record r { status = Status.committed }))
                (store_response E org provider digest response w') after refl
                (λ h. (refl, good), λ h z. cc))
      ]
