-- ===== src/RateLimit/Spends.antt =====
-- What the requests of one organization take from its bucket.
use mathlib.Core.Path.{subst}
use enterprise_llm_gateway.Prelude.{
  Bool, List, Option, [], ap, arith, false, if-cases, if◌then◌else◌, nat_eq, length, min, none,
  pair_eq, some, suc, sym, text_eq, ℕ, ◌*◌, ◌+◌, ◌-◌, ◌∙◌, ◌∷◌, ◌≡◌, ◌≤◌,
}
use enterprise_llm_gateway.RateLimit.{
  Bucket, Floats, flow, RateLimitDecision, RateLimitPolicy, capacity, current, rate_limit_decision,
  refill, take_token, token,
}

-- The requests of one organization, at the clock's readings.
abbrev pub allows : Option RateLimitDecision → Bool
allows none = false
allows (some d) = d.allowed

pub distrib : (a b r : ℕ) → (a + b) * r ≡ a * r + b * r
distrib a b r = omega arith

-- An interval is the sum of its parts, at any rate.
interval : (u now t' r : ℕ) → u ≤ now → now ≤ t' → (t' - u) * r ≡ (now - u) * r + (t' - now) * r
interval u now t' r h k =
    let parts : t' - u ≡ (now - u) + (t' - now) = omega (arith, h, k) in
    ap (λ (d : ℕ). d * r) parts ∙ distrib (now - u) (t' - now) r

step_granted :
    (n m t s b b' b'' x y z : ℕ)
    → t + b' ≤ b + x + s
    → n * t + b'' ≤ b' + y + m * s
    → z ≡ x + y
    → (n + 1) * t + b'' ≤ b + z + suc m * s
step_granted n m t s b b' b'' x y z h k e = omega (arith, distrib n 1 t, distrib m 1 s)

step_denied :
    (g m s b b' b'' x y z : ℕ)
    → 0 + b' ≤ b + x + s
    → g + b'' ≤ b' + y + m * s
    → z ≡ x + y
    → g + b'' ≤ b + z + suc m * s
step_denied g m s b b' b'' x y z h k e = omega (arith, distrib m 1 s)

module _ (floats : Floats) (policy : RateLimitPolicy) where
  -- The bucket holds no more than its capacity.
  abbrev pub BucketIsValid : Bucket → Type 0
  BucketIsValid b = b.tokens ≤ capacity floats policy

  current-BucketIsValid :
      (now : ℕ) (b : Option Bucket) → BucketIsValid (current floats policy now b)
  unfolding current refill
  current-BucketIsValid now none = omega arith
  current-BucketIsValid now (some b) = omega arith

  take-BucketIsValid : (b : Bucket) → BucketIsValid b → BucketIsValid (take_token floats policy b).1
  unfolding take_token
  take-BucketIsValid b h = ground arith

  -- Requests of one organization at a sequence of readings, from its bucket.
  unfoldable pub acquire_all : List ℕ → Bucket → ℕ × Bucket
  acquire_all [] b = (0, b)
  acquire_all (now ∷ times) b =
      let (decision, b') = take_token floats policy (refill floats policy b now) in
      let (n, b'') = acquire_all times b' in ((if allows decision then n + 1 else n), b'')

  -- Readings that never go back, from `t` to `t'`.
  unfoldable pub Ascend : ℕ → List ℕ → ℕ → Type 0
  Ascend t [] t' = t ≤ t'
  Ascend t (now ∷ times) t' = (t ≤ now) × Ascend now times t'

  -- One request: what it takes and what is left are no more than what there was and what accrued.
  Ascend-le : (t t' : ℕ) (times : List ℕ) → Ascend t times t' → t ≤ t'
  unfolding Ascend
  Ascend-le t t' [] h = h
  Ascend-le t t' (now ∷ times) (h, rest) = omega (arith, h, Ascend-le now t' times rest)

  -- Rounding adds at most `slack` units to what a refill of the exact rate leaves in the bucket.
  abbrev pub IsNear : ℕ → Type 0
  IsNear slack =
      (tokens elapsed : ℕ)
      → min (capacity floats policy) (floats.accrued tokens elapsed)
        ≤ tokens + elapsed * flow floats policy + slack

  take-spends :
      (slack : ℕ) (b : Bucket) (now : ℕ)
      → IsNear slack
      → let (decision, b') = take_token floats policy (refill floats policy b now) in
        (if allows decision then token floats policy else 0) + b'.tokens
        ≤ b.tokens + (now - b.updated_at) * flow floats policy + slack
  unfolding take_token refill rate_limit_decision
  take-spends slack b now near = ground (arith, near b.tokens (now - b.updated_at))

  updated_at-take :
      (b : Bucket) (now : ℕ)
      → (take_token floats policy (refill floats policy b now)).1.updated_at ≡ now
  unfolding take_token refill
  updated_at-take b now = ground arith

  pub all-spend :
      (slack : ℕ) (times : List ℕ) (b : Bucket) (t' : ℕ)
      → IsNear slack
      → Ascend b.updated_at times t'
      → let (n, b') = acquire_all times b in
        n * token floats policy + b'.tokens
        ≤ b.tokens + (t' - b.updated_at) * flow floats policy + length times * slack
  unfolding Ascend acquire_all
  all-spend slack [] b t' near h = omega arith
  all-spend slack (now ∷ times) b t' near (h, rest) =
      let r = flow floats policy in
      let one = token floats policy in
      let k = length times in
      let (decision, b') = take_token floats policy (refill floats policy b now) in
      let (n, b'') = acquire_all times b' in
      let here = updated_at-take b now in
      let tail : n * one + b''.tokens ≤ b'.tokens + (t' - now) * r + k * slack =
        subst (λ (u : ℕ). n * one + b''.tokens ≤ b'.tokens + (t' - u) * r + k * slack) here
          (all-spend slack times b' t' near
            (subst (λ (u : ℕ). Ascend u times t') (sym here) rest)) in
      let spent = take-spends slack b now near in
      let span = interval b.updated_at now t' r h (Ascend-le now t' times rest) in
      if-cases
        (λ (m : ℕ). m * one + b''.tokens ≤ b.tokens + (t' - b.updated_at) * r + suc k * slack)
        (allows decision)
        (λ granted.
          step_granted n k one slack b.tokens b'.tokens b''.tokens ((now - b.updated_at) * r)
            ((t' - now) * r) ((t' - b.updated_at) * r)
            (subst
              (λ (x : Bool).
                (if x then one else 0) + b'.tokens ≤ b.tokens + (now - b.updated_at) * r + slack)
              granted spent)
            tail span)
        (λ denied.
          step_denied (n * one) k slack b.tokens b'.tokens b''.tokens ((now - b.updated_at) * r)
            ((t' - now) * r) ((t' - b.updated_at) * r)
            (subst
              (λ (x : Bool).
                (if x then one else 0) + b'.tokens ≤ b.tokens + (now - b.updated_at) * r + slack)
              denied spent)
            tail span)
