-- ===== src/Lib.antt =====
-- The core of the enterprise LLM gateway (backend/src/gateway): the path of an inference request from
-- admission to settlement, with the money, the circuits, the cache, the retries and the rate limits
-- that guard it.
--
-- The parts, and how they meet. `InferenceService` serves a request: `RequestPipeline` runs the
-- admission stages in order, which are authorization, policy and routing; routing asks the
-- engine, whose agents read the circuit breaker and select a provider of the tenant's catalog. An
-- admitted request goes on with the execution that routing transported: `ReflectiveExecutor`
-- hands it to `InferenceCoordinator` up to a bounded number of times, and evaluators judge what
-- came of it; or `StreamingCoordinator` opens a stream and relays it. Either coordinator looks in
-- the response cache, reserves the estimate in the budget ledger, calls the provider, reports the
-- outcome to the breaker, and settles or releases. A token-bucket limiter stands before all of
-- it. Each part is a file with its state as a record and a function for each of its operations;
-- the folder of the same name has what is proved of it, by subject, and runs of it in Tests.
--
--   Prelude      tests, lists, dictionaries (association lists in insertion order), signed integers,
--                results, decimal texts
--   Ports        application/ports/providers.py, execution.py; application/routing/catalog.py
--   Money        application/ports/money.py
--   Ledger       adapters/ledger/in_memory_budget_ledger.py, application/ports/ledger.py. Orgs: the
--                calls as data; Holds: the sum of the live holds; Account: one identifier's way
--   Breaker      adapters/health/in_memory_circuit_breaker.py, application/ports/circuit_breaker.py.
--                View: one circuit by itself; Schedule: a history of calls
--   Accounting   application/accounting/cost_accountant.py, estimator.py, application/ports/pricing.py,
--                adapters/pricing/static_price_table.py
--   Cache        adapters/cache/in_memory_response_cache.py, application/execution/cache_key.py,
--                application/ports/cache.py
--   World        what the request path shares, and an environment for what it takes from outside
--   Reservations application/accounting/reservation_service.py, reservation_reconciler.py
--   Execution    application/execution/inference_coordinator.py, application/providers/
--                provider_executor.py. Charges, Served: money; Calls: the ledger's calls; Reach: what
--                is touched; Repeat: what the cache keeps; Traffic: other tenants
--   Deduplicator application/execution/deduplicator.py, as steps of the event loop
--   Reflection   application/reflection/retry_policy.py, reflective_executor.py. Transient, Attempts: what
--                is retried and recorded; Charges: what is paid
--   Pipeline     application/pipeline/runner.py, application/ports/pipeline.py
--   Policy       application/ports/policy.py, adapters/policy/local_policy_engine.py,
--                adapters/pipeline/policy_stage.py
--   Authorization application/authorization/requirements.py, adapters/authorization/in_memory_resolver.py,
--                null_resolver.py, adapters/pipeline/authorization_stage.py
--   Stages       adapters/pipeline/routing_stage.py, and the chain of config/container.py
--   StreamPort   application/ports/streaming.py, application/providers/streaming_executor.py
--   Streaming    application/streaming/streaming_coordinator.py. Session, Deliver: a session and the
--                delivering generator; Endings: how a stream ends for its consumer; Finalize: what the
--                generator does; Opening: before the first byte; Settled: both together
--   Evaluation   application/evaluation/runner.py, usage_consistency.py, response_completeness.py,
--                application/ports/evaluation.py. Coherence: the usage evaluator on the coordinator
--   Serving      application/serving/inference_service.py. Spotless: what the stages leave alone;
--                Entitled: what an admission says; Decides: the whole of a request
--   Json         the JSON texts that the code writes. Plain: their characters; Reader: they are read back
--   Http         delivery/http/api/inference.py. Bodies: requests, responses and the table of errors; Sse:
--                frames; Permits, Decides: for whom the route does what; Frames: its event stream as the
--                SSE standard reads it; Client: what a client sees; Done: what the final mark says
--   OpenAi       adapters/providers/openai_compatible_client.py. Wire: what a server sends; Events,
--                Contract: what the ports promise of a client; Gateway: the streaming coordinator over this one
--   Routing      domain/routing/models.py, application/ports/routing.py. Strategy:
--                application/routing/health_tiered_strategy.py; Agents: application/agents; Engine:
--                application/agents/runtime.py, application/routing/engine.py, catalog.py
--   RateLimit    adapters/ratelimit/in_memory_token_bucket.py, application/ports/rate_limit.py.
--                Spends, Bound: one bucket, and the limiter; Degraded: adapters/ratelimit/degraded.py
--
-- How the code is read. A coroutine is a function from the state before to the result, or the
-- exception, and the state after: no modelled method of the ledger, the breaker, the cache or the
-- limiter has an `await` between its reads and its writes, so such a call is one step. A UUID is
-- a number, a `str` the list of its code points, a time a whole number of microseconds. Money is
-- a whole number of 10^-8 units, which is what `Money.quantize` leaves; prices are whole numbers
-- of the same unit for a thousand tokens. The backoff's floats are whole microseconds; what the
-- limiter's floating-point operations round to is a parameter (a record Floats), whose theorems
-- say how much rounding they allow. A price port, a provider's client with any state of its own,
-- the clock, the hash and the text of a UUID are parameters, and nothing is assumed of them but
-- what a theorem states.
--
-- A provider's stream is the finite list of what it does when it is pulled, and then a stop or an
-- exception; a consumer pulls the delivering generator a number of times and closes it, so that
-- every point at which a client can leave is one of those numbers. A value of an attribute or an
-- annotation is of one of the types that the stages tell apart; what Python does with any other
-- object, the JSON text of a payload (which Http computes for its own), what httpx and json
-- answer or raise, the resolver and the policy engine are parameters.
--
-- Loops are structural: over the agents, the stages, the providers, the reservations, and over the
-- attempts that are left, of which there are as many as the policy allows. The digits of a number take
-- the number itself as fuel, which is enough since each digit divides it by ten.
--
-- Not modelled. A provider's client that raises from `invoke`, against its port, is modelled in
-- OpenAi only: the coordinators take a client whose `invoke` returns. The SQL and Redis adapters,
-- persistence, migrations and the rest of the HTTP delivery are input and output; authentication
-- is for the most part cryptography and storage. Neither a cancellation inside an await of the
-- streaming coordinator nor the collection of a dropped generator is modelled. Execution runs one
-- request at a time, so that each is the first caller of its key; Deduplicator has the
-- interleavings of callers by itself. Durations and log lines of the request path are left out,
-- its counters are kept. Of a routing decision the estimated cost, the confidence and the free-
-- form bags are left out, since nothing here reads them.
pub mod Prelude
pub mod Ports
pub mod Breaker
pub mod Money
pub mod Ledger
pub mod Accounting
pub mod Routing
pub mod Cache
pub mod Deduplicator
pub mod World
pub mod StreamPort
pub mod Streaming
pub mod Evaluation
pub mod Policy
pub mod Authorization
pub mod Stages
pub mod Serving
pub mod Json
pub mod Http
pub mod OpenAi
pub mod Reservations
pub mod Execution
pub mod Reflection
pub mod Pipeline
pub mod RateLimit
