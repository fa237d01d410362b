-- ===== src/Execution/Tests.antt =====
-- Requests of a small gateway, and the theorems about them.
use enterprise_llm_gateway.Reservations
use enterprise_llm_gateway.Ledger as LedgerStore
use enterprise_llm_gateway.Prelude.{
  [], arith, codes, false, nat_eq, pair_beq, pair_eq, refl, some, text_beq, text_eq, ℕ, ◌∷◌, ◌≡◌,
}
use enterprise_llm_gateway.Prelude.Dict.{get, map_values, put, values}
use enterprise_llm_gateway.Prelude.Int.{pos, ◌*ℤ◌, ◌+ℤ◌, ◌-ℤ◌}
use enterprise_llm_gateway.Prelude.Result.{ok}
use enterprise_llm_gateway.Accounting.{
  CostRecord, account, compute_cost, estimate_usage, settlement_detail,
}
use enterprise_llm_gateway.Cache.{lookup, safe_get}
use enterprise_llm_gateway.Execution.{
  InferenceExecutionResult, execute, execute_and_settle, execute_keyed, replayed, uncosted,
}
use enterprise_llm_gateway.Execution.Calls.{Reaches, execute-Reaches}
use enterprise_llm_gateway.Execution.Demo.{demo, execution, openai, request, served, world}
use enterprise_llm_gateway.Execution.Reach.{Untouched, refused-Untouched}
use enterprise_llm_gateway.Execution.Repeat.{charged-hit, kept}
use enterprise_llm_gateway.Execution.Traffic.{execute-tenants}
use enterprise_llm_gateway.Ledger.{
  Ledger, init, ledger_for, reconcile_expired, reserve, settle, unavailable,
}
use enterprise_llm_gateway.Money.{Money}
use enterprise_llm_gateway.Ports.{Content, budget_denied, cache_hit, executed, failure}
use enterprise_llm_gateway.Reservations.{ledger}
use enterprise_llm_gateway.World.{World}

abbrev full_cache : World ℕ
full_cache = record (world 5000) {
  cache = record {
    entries =
        (
          (1, codes "k"),
          record {
            response = record {
              provider = codes "openai";
              model = codes "gpt";
              content = Content.text (codes "hi");
            };
            expires_at = 2000;
          },
        )
        ∷ [];
    ttl = 300;
    unavailable = false;
  };
}

refused-Untouched_example :
    let z = execute_and_settle (demo served) 1 openai request (codes "k") (world 10) in
    (z.0 ≡ ok (uncosted budget_denied (failure (codes "budget_exceeded"))))
    × Untouched (demo served) (world 10) z.1
unfolding Reservations.reserve reserve reconcile_expired get put map_values ◌-ℤ◌ values compute_cost
    ◌*ℤ◌ ◌+ℤ◌ estimate_usage
refused-Untouched_example =
    refused-Untouched (demo served) 1 openai request (codes "k") (world 10) refl

execute-Reaches_example :
    Reaches
      (demo served)
      1
      (codes "r1")
      (world 5000).ledger
      (execute (demo served) execution request (world 5000))
execute-Reaches_example = execute-Reaches (demo served) execution request (world 5000)

execute-tenants_example :
    ledger_for 2 (execute (demo served) execution request (world 5000)).1.ledger
    ≡ ledger_for 2 (world 5000).ledger
execute-tenants_example =
    execute-tenants (demo served) execution request (world 5000) 2 refl
      (λ e. absurd (omega (arith, e)))

abbrev usd : ℕ → Money
usd n = record { amount = pos n; currency = codes "USD" }

abbrev charge : CostRecord
charge = record {
  organization_id = 1;
  correlation_id = codes "r1";
  provider = codes "openai";
  model = codes "gpt";
  usage = record { prompt_tokens = pos 4; completion_tokens = pos 2 };
  cost = record { input_cost = usd 1000; output_cost = usd 2000; total_cost = usd 3000 };
}

abbrev paid : InferenceExecutionResult
paid = record { outcome = executed; response = served; cost = some charge }

serves_paid : (execute_keyed (demo served) 1 openai request (codes "k") (world 5000)).0 ≡ ok paid
unfolding execute_keyed execute_and_settle safe_get lookup get ledger_for Reservations.reserve
    reserve reconcile_expired put map_values values ◌-ℤ◌ ◌*ℤ◌ ◌+ℤ◌ compute_cost estimate_usage
    Reservations.settle account LedgerStore.settle settlement_detail pair_eq pair_beq text_eq
    text_beq
serves_paid = refl

charged-hit_example :
    let later = (execute_keyed (demo served) 1 openai request (codes "k") (world 5000)).1 in
    let z = execute_keyed (demo served) 1 openai request (codes "k") later in
    (z.0 ≡ ok (uncosted cache_hit (replayed (kept (demo served) 1 openai (codes "k") served))))
    × (z.1.ledger ≡ later.ledger)
    × Untouched (demo served) later z.1
charged-hit_example =
    charged-hit (demo served) 1 openai (codes "k") request request (world 5000)
      (execute_keyed (demo served) 1 openai request (codes "k") (world 5000)).1 paid charge refl
      serves_paid refl refl (omega arith)
