-- ===== src/Routing/Tiers.antt =====
-- How the health agent's three lists stand to the assessments they were sorted from, and what a
-- look-up of a listed provider finds.
use mathlib.Core.Path.{subst}
use enterprise_llm_gateway.Prelude.{
  All, Bool-cases, List, Text, [], ap, arith, false, if◌then◌else◌, inl, inr, map, nat_eq, pair_eq,
  refl, some, sym, text_eq, true, ◌==◌, ◌∷◌, ◌≡◌, ◌≢◌, ◌⊎◌,
}
use enterprise_llm_gateway.Prelude.Among.{
  All-Among, Among, Among-append, Among-map, append-Among_left, map-Among,
}
use enterprise_llm_gateway.Breaker.{CircuitState, ProviderCircuit, closed, half_open, opened}
use enterprise_llm_gateway.Ports.{ProviderDescriptor}
use enterprise_llm_gateway.Routing.Agents.{candidates_of, sort_assessments, usable}
use enterprise_llm_gateway.Routing.Engine.{find_provider}
use enterprise_llm_gateway.Routing.Strategy.{RoutingCandidate, key_lt}

abbrev pub circuit : Text → CircuitState → ProviderCircuit
circuit p s = record { provider = p; state = s }

healthy-cons :
    (p q : Text) (s : CircuitState) (rs : List ProviderCircuit)
    → Among q (sort_assessments (circuit p s ∷ rs)).healthy_candidates
    → (circuit q closed ≡ circuit p s) ⊎ Among q (sort_assessments rs).healthy_candidates
unfolding sort_assessments Among
healthy-cons p q closed rs (inl e) = inl (ap (λ (x : Text). circuit x closed) e)
healthy-cons p q closed rs (inr h) = inr h
healthy-cons p q half_open rs h = inr h
healthy-cons p q opened rs h = inr h

degraded-cons :
    (p q : Text) (s : CircuitState) (rs : List ProviderCircuit)
    → Among q (sort_assessments (circuit p s ∷ rs)).degraded_candidates
    → (circuit q half_open ≡ circuit p s) ⊎ Among q (sort_assessments rs).degraded_candidates
unfolding sort_assessments Among
degraded-cons p q half_open rs (inl e) = inl (ap (λ (x : Text). circuit x half_open) e)
degraded-cons p q half_open rs (inr h) = inr h
degraded-cons p q closed rs h = inr h
degraded-cons p q opened rs h = inr h

healthy-later :
    (p q : Text) (s : CircuitState) (rs : List ProviderCircuit)
    → Among q (sort_assessments rs).healthy_candidates
    → Among q (sort_assessments (circuit p s ∷ rs)).healthy_candidates
unfolding sort_assessments Among
healthy-later p q closed rs h = inr h
healthy-later p q half_open rs h = h
healthy-later p q opened rs h = h

pub healthy-closed :
    (q : Text) (rs : List ProviderCircuit)
    → Among q (sort_assessments rs).healthy_candidates
    → Among (circuit q closed) rs
unfolding Among
healthy-closed q [] h = absurd (unfold sort_assessments in h)
healthy-closed q (a ∷ rs) h = elim (healthy-cons a.provider q a.state rs h) [
  | inl e ↦ inl e
  | inr later ↦ inr (healthy-closed q rs later)
]

degraded-half_open :
    (q : Text) (rs : List ProviderCircuit)
    → Among q (sort_assessments rs).degraded_candidates
    → Among (circuit q half_open) rs
unfolding Among
degraded-half_open q [] h = absurd (unfold sort_assessments in h)
degraded-half_open q (a ∷ rs) h = elim (degraded-cons a.provider q a.state rs h) [
  | inl e ↦ inl e
  | inr later ↦ inr (degraded-half_open q rs later)
]

pub closed-healthy :
    (q : Text) (rs : List ProviderCircuit)
    → Among (circuit q closed) rs
    → Among q (sort_assessments rs).healthy_candidates
unfolding Among sort_assessments
closed-healthy q [] h = absurd h
closed-healthy q (a ∷ rs) (inl e) =
    subst (λ (c : ProviderCircuit). Among q (sort_assessments (c ∷ rs)).healthy_candidates) e
      (inl refl)
closed-healthy q (a ∷ rs) (inr h) = healthy-later a.provider q a.state rs (closed-healthy q rs h)

pub find_provider-Among :
    (name : Text) (ds : List ProviderDescriptor)
    → Among name (map (λ (d : ProviderDescriptor). d.name) ds)
    → (d : ProviderDescriptor) × (find_provider name ds ≡ some d) × (d.name ≡ name) × Among d ds
unfolding find_provider Among
find_provider-Among name [] h = absurd h
find_provider-Among name (d ∷ ds) (inl e) =
    (d, ground (arith, (text_eq.equal_iff d.name name).1 (sym e)), sym e, inl refl)
find_provider-Among name (d ∷ ds) (inr h) = elim (Bool-cases (d.name == name)) [
  | inl same ↦ (d, ground (arith, same), (text_eq.equal_iff d.name name).0 same, inl refl)
  | inr differ ↦
      let (found, eq, name_is, at) = find_provider-Among name ds h in
      (found, ground (arith, differ, eq), name_is, inr at)
]

unfoldable pub tier : RoutingCandidate → CircuitState
tier c = if c.degraded then half_open else closed

pub usable-tier :
    (c : RoutingCandidate) (rs : List ProviderCircuit)
    → Among c (usable (some (sort_assessments rs)))
    → Among (circuit c.provider (tier c)) rs
unfolding usable tier
usable-tier c rs h =
    let d = sort_assessments rs in
    elim (Among-append c (candidates_of false d.healthy_candidates)
      (candidates_of true d.degraded_candidates) h) [
        | inl left ↦
            let (q, at, e) =
              Among-map (λ (p : Text). record { provider = p; degraded = false }) c
                d.healthy_candidates left in
            rw e (healthy-closed q rs at)
        | inr right ↦
            let (q, at, e) =
              Among-map (λ (p : Text). record { provider = p; degraded = true }) c
                d.degraded_candidates right in
            rw e (degraded-half_open q rs at)
      ]

-- A candidate that comes before no closed one is degraded only if there is no closed one.
pub least-tier :
    (m : RoutingCandidate) (q : Text) (rs : List ProviderCircuit)
    → All (λ (c : RoutingCandidate). key_lt c m ≡ false) (usable (some (sort_assessments rs)))
    → Among (circuit q closed) rs
    → tier m ≢ half_open
unfolding usable tier
least-tier m q rs none_before shut half =
    let d = sort_assessments rs in
    let c : RoutingCandidate = record { provider = q; degraded = false } in
    let here : Among c (usable (some d)) =
      append-Among_left c (candidates_of false d.healthy_candidates)
        (candidates_of true d.degraded_candidates)
        (map-Among (λ (p : Text). record { provider = p; degraded = false }) q d.healthy_candidates
          (closed-healthy q rs shut)) in
    let not_before =
      All-Among (λ (x : RoutingCandidate). key_lt x m ≡ false) c (usable (some d)) none_before
        here in
    unfold key_lt in ground (arith, not_before, half)
