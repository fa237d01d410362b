-- ===== src/Ledger/Tests.antt =====
-- Runs of the ledger, and its theorems at concrete ledgers.
use enterprise_llm_gateway.Prelude.{
  List, Text, [], arith, codes, false, nat_eq, none, pair_eq, refl, some, text_beq, text_eq, true,
  ℕ, ◌∷◌, ◌≡◌,
}
use enterprise_llm_gateway.Prelude.Dict.{get, map_values, put, values}
use enterprise_llm_gateway.Prelude.Int.{pos, ◌+ℤ◌, ◌-ℤ◌}
use enterprise_llm_gateway.Prelude.Result.{ok}
use enterprise_llm_gateway.Ledger.{
  Ledger, Reservation, ReservationOutcome, SettlementDetail, admit, expire, init, is_stale,
  ledger_for, new_hold, new_org, reconcile_expired, reconcile_in, release, reserve, reserve_in,
  return_holds, settle, settle_in, stale, store,
}
use enterprise_llm_gateway.Ledger.Balance.{IsBalanced, run-IsBalanced}
use enterprise_llm_gateway.Ledger.Budget.{IsWithin, run-IsWithin}
use enterprise_llm_gateway.Ledger.Holds.{holds}
use enterprise_llm_gateway.Ledger.Orgs.{
  Op, apply, ledger_for-run, org_apply, org_run, reconcile_op, reserve_op, run, settle_op,
}
use enterprise_llm_gateway.Ledger.Replies.{decided, settle_once, unlimited-drifts}
use enterprise_llm_gateway.Money.{Money}

abbrev usd : ℕ → Money
usd n = record { amount = pos n; currency = codes "USD" }

abbrev detail : ℕ → SettlementDetail
detail n = record {
  provider = codes "p";
  model = codes "m";
  prompt_tokens = pos 1;
  completion_tokens = pos 1;
  input_cost = usd 0;
  output_cost = usd n;
  total_cost = usd n;
}

abbrev ana : Text
ana = codes "a"

-- Organization 1 has a limit, and no reservations.
abbrev limits : List (ℕ × Money)
limits = (1, usd 100) ∷ []

abbrev start : Ledger
start = record { orgs = (1, new_org (some (usd 100))) ∷ []; unavailable = false }

abbrev down : Ledger
down = record { orgs = (1, new_org (some (usd 100))) ∷ []; unavailable = true }

abbrev unlimited : Ledger
unlimited = record { orgs = (1, new_org none) ∷ []; unavailable = false }

abbrev hold_40 : Reservation
hold_40 = new_hold 5 ana (usd 40)

-- Organization 1 holds 40 under one identifier.
abbrev with_hold : Ledger
with_hold = record {
  orgs =
      (
        1,
        record {
          limit = some (usd 100);
          reserved = pos 40;
          spent = pos 0;
          reservations = (ana, hold_40) ∷ [];
        },
      )
      ∷ [];
  unavailable = false;
}

abbrev calls : List Op
calls =
    reserve_op 5 1 ana (usd 40)
    ∷ reserve_op 6 2 (codes "b") (usd 7)
    ∷ reserve_op 7 1 (codes "c") (usd 60)
    ∷ settle_op 1 ana (detail 30)
    ∷ reconcile_op 1 10
    ∷ []

abbrev orderly_calls : List Op
orderly_calls = reserve_op 5 1 ana (usd 40) ∷ settle_op 1 ana (detail 30) ∷ []

over_limit :
    decided (reserve 6 1 (codes "c") (usd 70) with_hold).0
    ≡ some (ReservationOutcome.exceeded, some (usd 60))
unfolding reserve reserve_in admit ledger_for store get put ◌-ℤ◌ ◌+ℤ◌ text_eq text_beq
over_limit = refl

spent_30 : (ledger_for 1 (run calls start)).spent ≡ pos 30
unfolding run apply reserve reserve_in admit ledger_for store settle settle_in reconcile_expired
    reconcile_in return_holds stale is_stale expire map_values values get put ◌-ℤ◌ ◌+ℤ◌ text_eq
    text_beq
spent_30 = refl

run-IsBalanced_example : IsBalanced (ledger_for 1 (run calls (init limits false)))
unfolding init ledger_for get
run-IsBalanced_example = run-IsBalanced limits calls 1 (λ e. cc)

run-IsWithin_example : IsWithin (usd 100) (ledger_for 1 (run orderly_calls start))
unfolding ledger_for get reserve_in admit put org_apply ◌-ℤ◌ ◌+ℤ◌ text_eq text_beq
run-IsWithin_example =
    run-IsWithin orderly_calls start 1 (usd 100) refl refl
      (record { within = omega arith; nonneg = tt })
      ((λ mine. omega arith), ((λ mine live. (refl, omega arith)), tt))

settle_once_example :
    let l = ledger_for 1 with_hold in
    let s' = (settle 1 ana (detail 30) with_hold).1 in
    let l' = ledger_for 1 s' in
    ((settle 1 ana (detail 30) with_hold).0 ≡ ok tt)
    × (l'.spent ≡ l.spent +ℤ pos 30)
    × (l'.reserved ≡ l.reserved -ℤ pos 40)
    × (ledger_for 1 (settle 1 ana (detail 99) s').1 ≡ l')
    × (ledger_for 1 (release 1 ana s').1 ≡ l')
unfolding ledger_for get text_eq text_beq
settle_once_example = settle_once 1 ana (detail 30) (detail 99) with_hold hold_40 refl refl refl

unlimited-drifts_example :
    let l' = ledger_for 1 (release 1 ana (reserve 5 1 ana (usd 40) unlimited).1).1 in
    (l'.reserved ≡ pos 0 -ℤ pos 40) × (holds l'.reservations ≡ pos 0)
unfolding ledger_for get holds
unlimited-drifts_example = unlimited-drifts 5 1 ana (usd 40) unlimited refl refl refl

ledger_for-run_example : ledger_for 2 (run calls start) ≡ org_run 2 calls (ledger_for 2 start)
ledger_for-run_example = ledger_for-run calls start 2 refl
