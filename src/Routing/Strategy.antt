-- ===== src/Routing/Strategy.antt =====
-- application/ports/routing_strategy.py and application/routing/health_tiered_strategy.py: which of the
-- usable candidates is selected.
use enterprise_llm_gateway.Prelude.{
  All, Bool, Bool-cases, List, Option, Text, [], ap, arith, false, if-cases, if◌then◌else◌, inl,
  inr, ltb, nat_beq, nat_eq, none, pair_eq, refl, some, text_eq, true, ◌&&◌, ◌||◌, ◌↔◌, ◌∷◌, ◌≡◌,
  ◌⊎◌,
}
use enterprise_llm_gateway.Prelude.Among.{All-Among, Among, Among-skip}

pub record RoutingCandidate : Type 0 where
  pub provider : Text
  pub degraded : Bool

-- `s < t` of two strings: by code points, a proper prefix first.
unfoldable pub text_lt : Text → Text → Bool
text_lt [] [] = false
text_lt [] (d ∷ t) = true
text_lt (c ∷ s) [] = false
text_lt (c ∷ s) (d ∷ t) = ltb c d || (nat_beq c d && text_lt s t)

-- The order of the keys `(c.degraded, c.provider)`.
unfoldable pub key_lt : RoutingCandidate → RoutingCandidate → Bool
unfolding text_lt
key_lt a b = elim a.degraded [
  | false ↦ elim b.degraded [ true ↦ true | false ↦ text_lt a.provider b.provider ]
  | true ↦ elim b.degraded [ true ↦ text_lt a.provider b.provider | false ↦ false ]
]

-- `min`: the first of the least, given the least so far.
unfoldable pub least : RoutingCandidate → List RoutingCandidate → RoutingCandidate
unfolding key_lt
least best [] = best
least best (c ∷ cs) = least (if key_lt c best then c else best) cs

-- `HealthTieredRoutingStrategy.select`
unfoldable pub select : List RoutingCandidate → Option Text
unfolding least
select [] = none
select (c ∷ cs) = some (least c cs).provider

text_lt_irrefl : (s : Text) → text_lt s s ≡ false
unfolding text_lt
text_lt_irrefl [] = refl
text_lt_irrefl (c ∷ s) = ground (arith, text_lt_irrefl s)

text_lt_trans : (s t u : Text) → text_lt s t ≡ true → text_lt t u ≡ true → text_lt s u ≡ true
unfolding text_lt
text_lt_trans [] [] u h k = cc
text_lt_trans [] (d ∷ t) [] h k = cc
text_lt_trans [] (d ∷ t) (e ∷ u) h k = refl
text_lt_trans (c ∷ s) [] u h k = cc
text_lt_trans (c ∷ s) (d ∷ t) [] h k = cc
text_lt_trans (c ∷ s) (d ∷ t) (e ∷ u) h k = ground (arith, text_lt_trans s t u)

text_lt-total : (s t : Text) → text_lt s t ≡ false → text_lt t s ≡ false → s ≡ t
unfolding text_lt
text_lt-total [] [] h k = refl
text_lt-total [] (d ∷ t) h k = cc
text_lt-total (c ∷ s) [] h k = cc
text_lt-total (c ∷ s) (d ∷ t) h k = ground (arith, text_lt-total s t)

key_lt_irrefl : (a : RoutingCandidate) → key_lt a a ≡ false
unfolding key_lt
key_lt_irrefl a = ground (arith, text_lt_irrefl a.provider)

key_lt_trans :
    (a b c : RoutingCandidate) → key_lt a b ≡ true → key_lt b c ≡ true → key_lt a c ≡ true
unfolding key_lt
key_lt_trans a b c h k = ground (arith, h, k, text_lt_trans a.provider b.provider c.provider)

key_lt-total : (a b : RoutingCandidate) → key_lt a b ≡ false → key_lt b a ≡ false → a ≡ b
unfolding key_lt
key_lt-total a b h k = ground (arith, h, k, text_lt-total a.provider b.provider)

-- `a` is not after anything that `b` is not after, if `a` is not after `b`.
key_lt-step :
    (a b m : RoutingCandidate) → key_lt a b ≡ false → key_lt b m ≡ false → key_lt a m ≡ false
key_lt-step a b m h k = elim (Bool-cases (key_lt a m)) [
  | inr fine ↦ fine
  | inl less ↦ elim (Bool-cases (key_lt m b)) [
    | inl below ↦ ground (arith, h, key_lt_trans a m b less below)
    | inr above ↦ ground (arith, h, less, key_lt-total b m k above)
  ]
]

-- `m` is one of the candidates, and none of them comes before it.
abbrev pub IsLeast : RoutingCandidate → List RoutingCandidate → Type 0
IsLeast m cs = Among m cs × All (λ (c : RoutingCandidate). key_lt c m ≡ false) cs

key_lt-asym : (a b : RoutingCandidate) → key_lt a b ≡ true → key_lt b a ≡ false
key_lt-asym a b h = elim (Bool-cases (key_lt b a)) [
  | inr fine ↦ fine
  | inl back ↦ ground (arith, key_lt_irrefl a, key_lt_trans a b a h back)
]

pub least-IsLeast :
    (best : RoutingCandidate) (cs : List RoutingCandidate) → IsLeast (least best cs) (best ∷ cs)
unfolding least Among
least-IsLeast best [] = (inl refl, (key_lt_irrefl best, tt))
least-IsLeast best (c ∷ cs) =
    if-cases (λ (b : RoutingCandidate). IsLeast (least b cs) (best ∷ c ∷ cs)) (key_lt c best)
      (λ less.
        let (here, (first, rest)) = least-IsLeast c cs in
        (
          inr here,
          (key_lt-step best c (least c cs) (key_lt-asym c best less) first, (first, rest)),
        ))
      (λ not_less.
        let (here, (first, rest)) = least-IsLeast best cs in
        (
          Among-skip (least best cs) best c cs here,
          (first, (key_lt-step c best (least best cs) not_less first, rest)),
        ))

-- The two lists have the same candidates, in whatever order and however often.
abbrev pub SameCandidates : List RoutingCandidate → List RoutingCandidate → Type 0
SameCandidates xs ys = (c : RoutingCandidate) → Among c xs ↔ Among c ys

pub select-IsLeast :
    (xs ys : List RoutingCandidate)
    → SameCandidates xs ys
    → (select xs ≡ select ys)
      × ((xs ≡ []) ⊎ ((m : RoutingCandidate) × (select xs ≡ some m.provider) × IsLeast m xs))
unfolding select
select-IsLeast [] [] same = (refl, inl refl)
select-IsLeast [] (y ∷ ys) same = absurd (unfold Among in (same y).1 (inl refl))
select-IsLeast (x ∷ xs) [] same = absurd (unfold Among in (same x).0 (inl refl))
select-IsLeast (x ∷ xs) (y ∷ ys) same =
    let (m_in, m_least) = least-IsLeast x xs in
    let (n_in, n_least) = least-IsLeast y ys in
    let m = least x xs in
    let n = least y ys in
    let n_not_below =
      All-Among (λ (c : RoutingCandidate). key_lt c m ≡ false) n (x ∷ xs) m_least
        ((same n).1 n_in) in
    let m_not_below =
      All-Among (λ (c : RoutingCandidate). key_lt c n ≡ false) m (y ∷ ys) n_least
        ((same m).0 m_in) in
    (
      ap (λ (c : RoutingCandidate). some c.provider) (key_lt-total m n m_not_below n_not_below),
      inr (m, refl, (m_in, m_least)),
    )

-- `m` is one of the candidates. If it is degraded then all of them are, and no candidate that is in
-- the same health has a name before its own.
pub record IsPreferred (m : RoutingCandidate) (cs : List RoutingCandidate) : Type 0 where
  pub here : Among m cs
  pub healthy : m.degraded ≡ true → All (λ (c : RoutingCandidate). c.degraded ≡ true) cs
  pub by_name :
      All
        (λ (c : RoutingCandidate). c.degraded ≡ m.degraded → text_lt c.provider m.provider ≡ false)
        cs

least-healthy :
    (m : RoutingCandidate) (cs : List RoutingCandidate)
    → All (λ (c : RoutingCandidate). key_lt c m ≡ false) cs
    → m.degraded ≡ true
    → All (λ (c : RoutingCandidate). c.degraded ≡ true) cs
unfolding key_lt
least-healthy m [] h degraded = tt
least-healthy m (c ∷ cs) (first, h) degraded = (ground arith, least-healthy m cs h degraded)

least-by_name :
    (m : RoutingCandidate) (cs : List RoutingCandidate)
    → All (λ (c : RoutingCandidate). key_lt c m ≡ false) cs
    → All
        (λ (c : RoutingCandidate). c.degraded ≡ m.degraded → text_lt c.provider m.provider ≡ false)
        cs
unfolding key_lt
least-by_name m [] h = tt
least-by_name m (c ∷ cs) (first, h) = (λ same. ground arith, least-by_name m cs h)

-- What is selected is one of the candidates: a healthy one unless all of them are degraded, and among
-- those in the same health none has a name that comes before the selected one's. The same candidates,
-- in whatever order, give the same selection, and only none give none.
pub select-IsPreferred :
    (xs ys : List RoutingCandidate)
    → SameCandidates xs ys
    → (select xs ≡ select ys)
      × ((xs ≡ []) ⊎ ((m : RoutingCandidate) × (select xs ≡ some m.provider) × IsPreferred m xs))
select-IsPreferred xs ys same =
    let (alike, chosen) = select-IsLeast xs ys same in
    elim chosen [
      | inl nothing ↦ (alike, inl nothing)
      | inr (m, is, (here, least_is)) ↦ (
        alike,
        inr (
          m,
          is,
          record {
            here = here;
            healthy = least-healthy m xs least_is;
            by_name = least-by_name m xs least_is;
          },
        ),
      )
    ]
