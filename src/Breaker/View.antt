-- ===== src/Breaker/View.antt =====
-- The breaker as a family of independent circuits: what one call does to each of them. A circuit
-- that was never stored is read as a fresh one, as `assess` and `setdefault` read it.
use mathlib.Core.Path.{ap₂, fun_ext}
use enterprise_llm_gateway.Prelude.{
  Bool-cases, List, Option, Text, [], ap, arith, false, if◌then◌else◌, inl, inr, leb, map, mem,
  nat_eq, none, pair_beq-ne_left, pair_beq-ne_right, pair_eq, refl, some, text_eq, ℕ, ◌&&◌, ◌+◌,
  ◌==◌, ◌∙◌, ◌∷◌, ◌≡◌, ◌≢◌,
}
use enterprise_llm_gateway.Prelude.Dict.{get, get-put_ne, get-put_self}
use enterprise_llm_gateway.Breaker.{
  Breaker, Circuit, CircuitBreakerConfig, CircuitKey, CircuitState, ProviderCallResult,
  ProviderCircuit, assess, assess_one, closed, cooled, fresh, half_open, is_opened, observe, opened,
}
use enterprise_llm_gateway.Ports.{is_transient}

or_fresh : Option Circuit → Circuit
or_fresh none = fresh
or_fresh (some c) = c

unfoldable pub view : Breaker → CircuitKey → Circuit
unfolding or_fresh
view b k = or_fresh (get k b.circuits)

-- A transient fault of one circuit, from the description of the three states.
unfoldable pub failed : CircuitBreakerConfig → ℕ → CircuitState → Circuit → Circuit
failed cfg now half_open c = record c { state = opened; opened_at = some now }
failed cfg now opened c = record c { consecutive_failures = c.consecutive_failures + 1 }
failed cfg now closed c =
    if leb cfg.failure_threshold (c.consecutive_failures + 1)
    then record {
      state = opened;
      consecutive_failures = c.consecutive_failures + 1;
      opened_at = some now;
    }
    else record c { consecutive_failures = c.consecutive_failures + 1 }

-- One circuit under one outcome.
unfoldable pub observed : CircuitBreakerConfig → ℕ → ProviderCallResult → Circuit → Circuit
unfolding failed
observed cfg now r c =
    if r.ok then fresh else if is_transient r.error_category then failed cfg now c.state c else c

-- One circuit when it is read.
unfoldable pub assessed : CircuitBreakerConfig → ℕ → Circuit → Circuit
assessed cfg now c =
    if is_opened c.state && cooled now cfg.cooldown c.opened_at
    then record c { state = half_open }
    else c

-- A circuit moves under its own outcomes exactly as `observed` says.
pub view-observe_self :
    (now org : ℕ) (p : Text) (r : ProviderCallResult) (b : Breaker)
    → view (observe now org p r b) (org, p) ≡ observed b.config now r (view b (org, p))
unfolding view observe observed
view-observe_self now org p r b = grind (arith, get-put_self)

pub view-observe_ne :
    (now org : ℕ) (p : Text) (r : ProviderCallResult) (b : Breaker) (k : CircuitKey)
    → ((org, p) == k) ≡ false
    → view (observe now org p r b) k ≡ view b k
unfolding view observe
view-observe_ne now org p r b k h = grind (arith, get-put_ne)

pub config-observe :
    (now org : ℕ) (p : Text) (r : ProviderCallResult) (b : Breaker)
    → (observe now org p r b).config ≡ b.config
unfolding observe
config-observe now org p r b = ground arith

view-assess_one_self :
    (now org : ℕ) (p : Text) (b : Breaker)
    → view (assess_one now org p b).1 (org, p) ≡ assessed b.config now (view b (org, p))
unfolding view assess_one assessed
view-assess_one_self now org p b = grind (arith, get-put_self)

view-assess_one_ne :
    (now org : ℕ) (p : Text) (b : Breaker) (k : CircuitKey)
    → ((org, p) == k) ≡ false
    → view (assess_one now org p b).1 k ≡ view b k
unfolding view assess_one
view-assess_one_ne now org p b k h = grind (arith, get-put_ne)

assess_one-reports :
    (now org : ℕ) (p : Text) (b : Breaker)
    → (assess_one now org p b).0
      ≡ record { provider = p; state = (assessed b.config now (view b (org, p))).state }
unfolding view assess_one assessed
assess_one-reports now org p b = ground arith

config-assess_one :
    (now org : ℕ) (p : Text) (b : Breaker) → (assess_one now org p b).1.config ≡ b.config
unfolding assess_one
config-assess_one now org p b = ground arith

assessed-assessed :
    (cfg : CircuitBreakerConfig) (now : ℕ) (c : Circuit)
    → assessed cfg now (assessed cfg now c) ≡ assessed cfg now c
unfolding assessed
assessed-assessed cfg now c = ground arith

-- Reading one provider does not change what reading any circuit of the tenant reports.
assessed-assess_one :
    (now org : ℕ) (p : Text) (b : Breaker) (k : CircuitKey)
    → assessed b.config now (view (assess_one now org p b).1 k) ≡ assessed b.config now (view b k)
assessed-assess_one now org p b k = elim (Bool-cases ((org, p) == k)) [
  | inl same ↦
      let e : (org, p) ≡ k = (pair_eq.equal_iff (org, p) k).0 same in
      rw (← e) (rw (view-assess_one_self now org p b) (assessed-assessed _ now _))
  | inr other ↦ rw (view-assess_one_ne now org p b k other) refl
]

-- What `assess` reports of one provider.
abbrev pub report : CircuitBreakerConfig → ℕ → ℕ → Breaker → Text → ProviderCircuit
report cfg now org b p = record { provider = p; state = (assessed cfg now (view b (org, p))).state }

-- Reading one provider leaves every circuit as it was, or as reading it leaves it.
abbrev pub read_at : ℕ → ℕ → Breaker → List Text → Text → Circuit
read_at now org b ps q =
    if mem q ps then assessed b.config now (view b (org, q)) else view b (org, q)

report-assess_one :
    (now org : ℕ) (p : Text) (b : Breaker)
    → let b' = (assess_one now org p b).1 in report b'.config now org b' ≡ report b.config now org b
report-assess_one now org p b = rw (config-assess_one now org p b) (
    fun_ext λ q.
      ap (λ (c : Circuit). record { provider = q; state = c.state })
        (assessed-assess_one now org p b (org, q)))

read_at-cons :
    (now org : ℕ) (p : Text) (ps : List Text) (b : Breaker) (q : Text)
    → read_at now org (assess_one now org p b).1 ps q ≡ read_at now org b (p ∷ ps) q
unfolding mem
read_at-cons now org p ps b q = elim (Bool-cases (p == q)) [
  | inl same ↦
      let e : p ≡ q = (text_eq.equal_iff p q).0 same in
      rw (← e) (
        ground (
          arith,
          text_eq.equal_iff p p,
          config-assess_one now org p b,
          view-assess_one_self now org p b,
          assessed-assessed b.config now (view b (org, p)),
        ))
  | inr differ ↦ ground (
    arith,
    config-assess_one now org p b,
    view-assess_one_ne now org p b (org, q) (pair_beq-ne_right org org p q differ),
  )
]

-- `assess` reports, for each provider asked about, its circuit as `assessed` describes it; the
-- circuits of the tenant that were asked about move by `assessed`, and no other does.
pub assess_lem :
    (now org : ℕ) (ps : List Text) (b : Breaker)
    → ((assess now org ps b).0 ≡ map (report b.config now org b) ps)
      × ((q : Text) → view (assess now org ps b).1 (org, q) ≡ read_at now org b ps q)
unfolding assess mem
assess_lem now org [] b = (refl, λ q. refl)
assess_lem now org (p ∷ ps) b =
    let b' = (assess_one now org p b).1 in
    let ih = assess_lem now org ps b' in
    (
      ap₂ ◌∷◌ (assess_one-reports now org p b)
          (ih.0 ∙ ap (λ (f : Text → ProviderCircuit). map f ps) (report-assess_one now org p b)),
      λ q. ih.1 q ∙ read_at-cons now org p ps b q,
    )

-- Reading the circuits of one tenant leaves those of every other tenant alone.
pub view-assess_other :
    (now org : ℕ) (ps : List Text) (b : Breaker) (k : CircuitKey)
    → org ≢ k.0
    → view (assess now org ps b).1 k ≡ view b k
unfolding assess
view-assess_other now org [] b k h = refl
view-assess_other now org (p ∷ ps) b k h =
    view-assess_other now org ps (assess_one now org p b).1 k h
    ∙ view-assess_one_ne now org p b k (pair_beq-ne_left org k.0 p k.1 h)

pub config-assess :
    (now org : ℕ) (ps : List Text) (b : Breaker) → (assess now org ps b).1.config ≡ b.config
unfolding assess
config-assess now org [] b = refl
config-assess now org (p ∷ ps) b =
    config-assess now org ps (assess_one now org p b).1 ∙ config-assess_one now org p b
