-- ===== src/Reflection/Tests.antt =====
-- A reflected request whose provider always times out, and the theorems about it.
use enterprise_llm_gateway.Prelude.{[], codes, nat_eq, pair_eq, refl, text_eq, ℕ, ◌≡◌}
use enterprise_llm_gateway.Prelude.Dict.{get}
use enterprise_llm_gateway.Prelude.Int.{pos}
use enterprise_llm_gateway.Execution.{uncosted}
use enterprise_llm_gateway.Execution.Demo.{demo, execution, request, timed_out, world}
use enterprise_llm_gateway.Ledger.{ledger_for}
use enterprise_llm_gateway.Ports.{ProviderResponse, executed}
use enterprise_llm_gateway.Reflection.{
  Reflecting, RetryPolicy, backoff_before, classify, default_policy, reflect,
}
use enterprise_llm_gateway.Reflection.Attempts.{RunsFrom, reflect-RunsFrom}
use enterprise_llm_gateway.Reflection.Charges.{Charges, IsReady, reflect-Charges}
use enterprise_llm_gateway.World.{retry}

abbrev start : Reflecting ℕ
start = record { world = world 5000; slept = [] }

abbrev two_attempts : RetryPolicy
two_attempts = record { max_attempts = 2; base_backoff = 100 }

verdict_of_timeout : classify (uncosted executed timed_out) ≡ retry
unfolding classify
verdict_of_timeout = refl

backoff_4 : backoff_before default_policy 4 ≡ 400000
unfolding backoff_before
backoff_4 = refl

abbrev ready :
    (response : ProviderResponse)
    → IsReady (demo response) two_attempts execution request (pos 0) 1 start.world.ledger
unfolding ledger_for get
ready response = record { up = refl; spent_is = refl; new = λ j later. refl }

abbrev charges :
    Charges
      (demo timed_out)
      two_attempts
      execution
      request
      (pos 0)
      (reflect (demo timed_out) two_attempts execution request start)
unfolding ledger_for get
charges =
    reflect-Charges (demo timed_out) two_attempts execution request 1 (codes "json") start refl refl
      (ready timed_out)

reflect-RunsFrom_example :
    RunsFrom
      (demo timed_out)
      two_attempts
      execution
      request
      1
      2
      charges.result.final
      charges.result.attempts
    × (charges.result.execution ≡ execution)
reflect-RunsFrom_example =
    reflect-RunsFrom (demo timed_out) two_attempts execution request 1 start charges.result refl
      charges.returned
