-- ===== src/RateLimit/Bound.antt =====
-- How many requests a bucket lets through, and when.
use mathlib.Core.Path.{subst}
use enterprise_llm_gateway.Prelude.{
  Bool-cases, List, Option, [], ap, arith, false, if◌then◌else◌, inl, inr, nat_eq, length, none,
  pair_eq, refl, some, sym, text_eq, ℕ, ◌&&◌, ◌*◌, ◌+◌, ◌-◌, ◌==◌, ◌∙◌, ◌∷◌, ◌≡◌, ◌≤◌,
}
use enterprise_llm_gateway.Prelude.Dict.{Dict, get, get-put, get-put_ne, get-put_self, put}
use enterprise_llm_gateway.RateLimit.{
  Bucket, Floats, flow, RateLimitPolicy, acquire, capacity, current, refill, take_token, token,
}
use enterprise_llm_gateway.RateLimit.Spends.{Ascend, IsNear, acquire_all, all-spend, allows}

module _ (floats : Floats) (policy : RateLimitPolicy) where
  -- The requests of one organization that the limiter allows, among everybody's, each a reading of
  -- the clock and an organization.
  unfoldable pub granted : ℕ → List (ℕ × ℕ) → Dict ℕ Bucket → ℕ
  granted o [] buckets = 0
  granted o ((now, org) ∷ requests) buckets =
      let (decision, buckets') = acquire floats policy now org buckets in
      let rest = granted o requests buckets' in
      if org == o && allows decision then rest + 1 else rest

  unfoldable pub times_of : ℕ → List (ℕ × ℕ) → List ℕ
  times_of o [] = []
  times_of o ((now, org) ∷ requests) =
      let rest = times_of o requests in if org == o then now ∷ rest else rest

  -- A bucket that was never made is a full one, of any time.
  abbrev seen : ℕ → Option Bucket → Bucket
  seen t none = record { tokens = capacity floats policy; updated_at = t }
  seen t (some b) = b

  -- No time takes tokens away.
  abbrev pub Grows : Type 0
  Grows = (tokens elapsed : ℕ) → tokens ≤ floats.accrued tokens elapsed

  refill-seen :
      (t now : ℕ) (b : Option Bucket)
      → Grows
      → refill floats policy (seen t b) now ≡ current floats policy now b
  unfolding current refill
  refill-seen t now none grows =
      let full = capacity floats policy in
      let enough = grows full (now - t) in
      ap (λ (n : ℕ). record { tokens = n; updated_at = now }) (omega arith)
  refill-seen t now (some b) grows = refl

  get-acquire :
      (now org o : ℕ) (buckets : Dict ℕ Bucket)
      → get o (acquire floats policy now org buckets).1 ≡ (
          if org == o
          then some (take_token floats policy (current floats policy now (get org buckets))).1
          else get o buckets)
  unfolding acquire
  get-acquire now org o buckets =
      get-put org o (take_token floats policy (current floats policy now (get org buckets))).1
        buckets

  granted-own :
      (o now : ℕ) (requests : List (ℕ × ℕ)) (buckets : Dict ℕ Bucket)
      → let (decision, buckets') = acquire floats policy now o buckets in
        granted o ((now, o) ∷ requests) buckets
        ≡ (if allows decision then granted o requests buckets' + 1 else granted o requests buckets')
  unfolding granted
  granted-own o now requests buckets = ground (arith, nat_eq.equal_iff o o)

  times_of-own :
      (o now : ℕ) (requests : List (ℕ × ℕ))
      → times_of o ((now, o) ∷ requests) ≡ now ∷ times_of o requests
  unfolding times_of
  times_of-own o now requests = ground (arith, nat_eq.equal_iff o o)

  acquire_all-seen :
      (t now : ℕ) (times : List ℕ) (b : Option Bucket)
      → Grows
      → let (decision, b') = take_token floats policy (current floats policy now b) in
        let n = (acquire_all floats policy times b').0 in
        (acquire_all floats policy (now ∷ times) (seen t b)).0
        ≡ (if allows decision then n + 1 else n)
  unfolding acquire_all
  acquire_all-seen t now times b grows = rw (refill-seen t now b grows) refl

  Alike : ℕ → ℕ → List (ℕ × ℕ) → Dict ℕ Bucket → Type 0
  Alike o t requests buckets =
      granted o requests buckets
      ≡ (acquire_all floats policy (times_of o requests) (seen t (get o buckets))).0

  own-Alike :
      (o t now : ℕ) (requests : List (ℕ × ℕ)) (buckets : Dict ℕ Bucket)
      → Grows
      → Alike o t requests (acquire floats policy now o buckets).1
      → Alike o t ((now, o) ∷ requests) buckets
  unfolding Alike acquire
  own-Alike o t now requests buckets grows ih =
      let (decision, b') = take_token floats policy (current floats policy now (get o buckets)) in
      let kept : get o (put o b' buckets) ≡ some b' = get-put_self o b' buckets in
      let n : granted o requests (put o b' buckets)
          ≡ (acquire_all floats policy (times_of o requests) b').0 =
        ih
        ∙ ap (λ (b : Option Bucket). (acquire_all floats policy (times_of o requests) (seen t b)).0)
            kept in
      granted-own o now requests buckets
      ∙ ap (λ (m : ℕ). if allows decision then m + 1 else m) n
      ∙ sym (acquire_all-seen t now (times_of o requests) (get o buckets) grows)
      ∙ ap (λ (times : List ℕ). (acquire_all floats policy times (seen t (get o buckets))).0)
          (sym (times_of-own o now requests))

  foreign-Alike :
      (o t now org : ℕ) (requests : List (ℕ × ℕ)) (buckets : Dict ℕ Bucket)
      → (org == o) ≡ false
      → Alike o t requests (acquire floats policy now org buckets).1
      → Alike o t ((now, org) ∷ requests) buckets
  unfolding Alike acquire granted times_of
  foreign-Alike o t now org requests buckets h ih =
      let b' = (take_token floats policy (current floats policy now (get org buckets))).1 in
      let kept : get o (put org b' buckets) ≡ get o buckets = get-put_ne org o b' buckets h in
      let all_same =
        ih
        ∙ ap (λ (b : Option Bucket). (acquire_all floats policy (times_of o requests) (seen t b)).0)
            kept in
      ground (arith, h, all_same)

  -- What one organization is granted depends on its own requests and its own bucket alone.
  pub granted-acquire_all :
      (o t : ℕ) (requests : List (ℕ × ℕ)) (buckets : Dict ℕ Bucket)
      → Grows
      → granted o requests buckets
        ≡ (acquire_all floats policy (times_of o requests) (seen t (get o buckets))).0
  unfolding Alike
  granted-acquire_all o t [] buckets grows = unfold granted times_of acquire_all in refl
  granted-acquire_all o t ((now, org) ∷ requests) buckets grows = elim (Bool-cases (org == o)) [
    | inl same ↦
        let me = (nat_eq.equal_iff org o).0 same in
        subst (λ (x : ℕ). Alike o t ((now, x) ∷ requests) buckets) (sym me)
          (own-Alike o t now requests buckets grows
            (granted-acquire_all o t requests (acquire floats policy now o buckets).1 grows))
    | inr elsewhere ↦
        foreign-Alike o t now org requests buckets elsewhere
          (granted-acquire_all o t requests (acquire floats policy now org buckets).1 grows)
  ]

  -- Whoever else is served, and in whatever order: of an organization's requests at readings that
  -- never go back, between `t` and `t'`, a limiter that has not seen it yet allows no more than the
  -- burst and what the exact rate adds from `t` to `t'`, and for each of the requests the slack by which
  -- the floats round a refill up; where they do not round up there is none.
  pub granted-bounded :
      (slack o t t' : ℕ) (requests : List (ℕ × ℕ)) (buckets : Dict ℕ Bucket)
      → Grows
      → IsNear floats policy slack
      → get o buckets ≡ none
      → Ascend floats policy t (times_of o requests) t'
      → granted o requests buckets * token floats policy
        ≤ policy.burst * token floats policy
          + (t' - t) * flow floats policy
          + length (times_of o requests) * slack
  unfolding capacity
  granted-bounded slack o t t' requests buckets grows near unseen ascend =
      let full : Bucket = record { tokens = capacity floats policy; updated_at = t } in
      let count : granted o requests buckets
          ≡ (acquire_all floats policy (times_of o requests) full).0 =
        granted-acquire_all o t requests buckets grows
        ∙ ap (λ (b : Option Bucket). (acquire_all floats policy (times_of o requests) (seen t b)).0)
            unseen in
      rw count
        (omega (arith, all-spend floats policy slack (times_of o requests) full t' near ascend))
