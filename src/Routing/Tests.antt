-- ===== src/Routing/Tests.antt =====
-- Routing over a catalog of two providers, one of them with an open circuit.
use enterprise_llm_gateway.Prelude.{
  List, [], codes, false, nat_eq, none, pair_eq, refl, some, text_eq, true, ℕ, ◌+◌, ◌∷◌, ◌≡◌, ◌⊎◌,
}
use enterprise_llm_gateway.Breaker.{opened}
use enterprise_llm_gateway.Ports.{ProviderDescriptor}
use enterprise_llm_gateway.Routing.Agents.{Desk, RoutingRequest}
use enterprise_llm_gateway.Routing.Engine.{Catalog, gateway_agents, route}
use enterprise_llm_gateway.Routing.Picks.{Routes, route-Routes}
use enterprise_llm_gateway.Routing.Strategy.{
  IsPreferred, RoutingCandidate, key_lt, least, select, select-IsPreferred, text_lt,
}

abbrev fast : ProviderDescriptor
fast = record { name = codes "fast"; model = codes "m"; region = codes "global" }

abbrev slow : ProviderDescriptor
slow = record { name = codes "slow"; model = codes "m"; region = codes "global" }

abbrev catalog : Catalog
catalog = (1, fast ∷ slow ∷ []) ∷ []

abbrev desk : Desk
desk = record {
  breaker = record {
    config = record { failure_threshold = 1; cooldown = 100 };
    circuits =
        ((1, codes "fast"), record { state = opened; consecutive_failures = 1; opened_at = some 0 })
        ∷ [];
    transitions = [];
  };
  readings = 0;
  outcomes = [];
}

abbrev request : RoutingRequest
request = record { modality = none; prompt = some (codes "hello") }

abbrev clock : ℕ → ℕ
clock n = n + 10

abbrev two : List RoutingCandidate
two =
    record { provider = codes "a"; degraded = true }
    ∷ record { provider = codes "b"; degraded = false }
    ∷ []

healthy_first : select two ≡ some (codes "b")
unfolding select least key_lt text_lt
healthy_first = refl

select-IsPreferred_example :
    (select two ≡ select two)
    × ((two ≡ []) ⊎ ((m : RoutingCandidate) × (select two ≡ some m.provider) × IsPreferred m two))
select-IsPreferred_example = select-IsPreferred two two (λ c. (λ h. h, λ h. h))

route-Routes_example :
    Routes clock none
      (codes "0.0")
      true
      true
      catalog
      1
      (codes "r1")
      request
      desk
      (route clock catalog
        (gateway_agents clock true none (codes "0.0") true)
        1
        (codes "r1")
        request
        desk).0
route-Routes_example =
    route-Routes clock none (codes "0.0") true true catalog 1 (codes "r1") request desk
