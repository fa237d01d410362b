-- ===== src/RateLimit/Degraded.antt =====
-- adapters/ratelimit/degraded.py: a shared limiter, and a local one for when it does not answer. Both
-- are implementations of `RateLimiterPort`, each with a state of its own.
use mathlib.Core.Path.{subst}
use enterprise_llm_gateway.Prelude.{
  Bool, List, Text, [], arith, false, if-cases, if◌then◌else◌, inl, inr, nat_eq, pair_eq, refl,
  text_eq, true, ℕ, ◌+◌, ◌∷◌, ◌≡◌,
}
use enterprise_llm_gateway.Prelude.Result.{Result, Result-cases, err, ok}
use enterprise_llm_gateway.RateLimit.{RateLimitDecision}

-- RateLimiterUnavailableError, with the name of its reason's type.
pub data Unavailable : Type 0 where
  limiter_unavailable : Text → Unavailable

-- `RateLimiterPort.acquire`
abbrev pub Limiter : Type 0 → Type 0
Limiter S = ℕ → S → Result Unavailable RateLimitDecision × S

-- `rate_limit_store_degraded` with its reason, and `rate_limit_store_recovered`.
pub data LogLine : Type 0 where
  store_degraded : Text → LogLine
  store_recovered : LogLine

-- The two limiters' states, the flag, the log, newest first, and how often the shared limiter's
-- outage was counted (`record_ingress_decision(…, outcome="unavailable")`).
pub record DegradedLimiter (S L : Type 0) : Type 0 where
  pub shared : S
  pub local : L
  pub degraded : Bool
  pub log : List LogLine
  pub unavailable_count : ℕ

-- What the log, newest line first, says of the flag: outages and recoveries take turns.
unfoldable pub LogTells : List LogLine → Bool → Type 0
LogTells [] now_degraded = now_degraded ≡ false
LogTells (store_degraded reason ∷ log) now_degraded = (now_degraded ≡ true) × LogTells log false
LogTells (store_recovered ∷ log) now_degraded = (now_degraded ≡ false) × LogTells log true

module _ {S L : Type 0} where
  -- `DegradedRateLimiter(shared, local)`
  abbrev pub degraded_limiter : S → L → DegradedLimiter S L
  degraded_limiter s l = record {
    shared = s;
    local = l;
    degraded = false;
    log = [];
    unavailable_count = 0;
  }

  unfoldable pub enter_degraded : Text → DegradedLimiter S L → DegradedLimiter S L
  enter_degraded reason d =
      if d.degraded then d else record d { degraded = true; log = store_degraded reason ∷ d.log }

  unfoldable pub leave_degraded : DegradedLimiter S L → DegradedLimiter S L
  leave_degraded d =
      if d.degraded then record d { degraded = false; log = store_recovered ∷ d.log } else d

  -- `DegradedRateLimiter.acquire`
  unfoldable pub acquire_degraded :
      Limiter S
      → Limiter L
      → ℕ
      → DegradedLimiter S L
      → Result Unavailable RateLimitDecision × DegradedLimiter S L
  unfolding enter_degraded leave_degraded
  acquire_degraded shared_acquire local_acquire org d =
      let (answer, s) = shared_acquire org d.shared in
      let d1 = record d { shared = s } in
      elim answer [
        | ok decision ↦ (ok decision, leave_degraded d1)
        | err (limiter_unavailable reason) ↦
            let d2 = enter_degraded reason d1 in
            let (fallback, l) = local_acquire org d2.local in
            (fallback, record d2 { local = l; unavailable_count = d2.unavailable_count + 1 })
      ]

  -- The flag is so, and the log agrees with it.
  abbrev Reads : Bool → DegradedLimiter S L → Type 0
  Reads now_degraded d = (d.degraded ≡ now_degraded) × LogTells d.log d.degraded

  enter-Reads :
      (reason : Text) (d : DegradedLimiter S L)
      → LogTells d.log d.degraded
      → Reads true (enter_degraded reason d)
  unfolding enter_degraded
  enter-Reads reason d h =
      if-cases (Reads true) d.degraded (λ f. (f, h))
        (λ f. (refl, unfold LogTells in (refl, subst (LogTells d.log) f h)))

  leave-Reads :
      (d : DegradedLimiter S L) → LogTells d.log d.degraded → Reads false (leave_degraded d)
  unfolding leave_degraded
  leave-Reads d h =
      if-cases (Reads false) d.degraded
        (λ f. (refl, unfold LogTells in (refl, subst (LogTells d.log) f h))) (λ f. (f, h))

  module _ (shared_acquire : Limiter S) (local_acquire : Limiter L) where
    -- The shared limiter does not answer.
    abbrev pub is_out : Result Unavailable RateLimitDecision → Bool
    is_out (ok decision) = false
    is_out (err e) = true

    acquire-ok :
        (org : ℕ) (d : DegradedLimiter S L) (decision : RateLimitDecision)
        → (shared_acquire org d.shared).0 ≡ ok decision
        → acquire_degraded shared_acquire local_acquire org d
          ≡ (ok decision, leave_degraded (record d { shared = (shared_acquire org d.shared).1 }))
    unfolding acquire_degraded
    acquire-ok org d decision h = ground arith

    local-enter :
        (reason : Text) (d : DegradedLimiter S L) → (enter_degraded reason d).local ≡ d.local
    unfolding enter_degraded
    local-enter reason d = ground arith

    acquire-out :
        (org : ℕ) (d : DegradedLimiter S L) (reason : Text)
        → (shared_acquire org d.shared).0 ≡ err (limiter_unavailable reason)
        → let d2 = enter_degraded reason (record d { shared = (shared_acquire org d.shared).1 }) in
          let (fallback, l) = local_acquire org d.local in
          acquire_degraded shared_acquire local_acquire org d
          ≡ (fallback, record d2 { local = l; unavailable_count = d2.unavailable_count + 1 })
    unfolding acquire_degraded
    acquire-out org d reason h =
        ground
          (arith, h, local-enter reason (record d { shared = (shared_acquire org d.shared).1 }))

    -- What the answer is, and what it leaves: the shared limiter's if it has one, else the local
    -- limiter's; the flag says which, and the log agrees with the flag.
    abbrev pub Falls :
        ℕ
        → DegradedLimiter S L
        → Result Unavailable RateLimitDecision × DegradedLimiter S L
        → Type 0
    Falls org d z =
        let answer = (shared_acquire org d.shared).0 in
        (z.0 ≡ (if is_out answer then (local_acquire org d.local).0 else answer))
        × (z.1.local ≡ (if is_out answer then (local_acquire org d.local).1 else d.local))
        × (z.1.degraded ≡ is_out answer)
        × LogTells z.1.log z.1.degraded

    local-leave : (d : DegradedLimiter S L) → (leave_degraded d).local ≡ d.local
    unfolding leave_degraded
    local-leave d = ground arith

    -- If the log agrees with the flag before a request, then the request is answered by the shared
    -- limiter if that answers, and by the local one, whatever it says, if not; the local limiter is
    -- not asked otherwise. Afterwards the flag says which of them answered, and the log still agrees
    -- with it: every line is a change of the flag.
    pub acquire-Falls :
        (org : ℕ) (d : DegradedLimiter S L)
        → LogTells d.log d.degraded
        → Falls org d (acquire_degraded shared_acquire local_acquire org d)
    acquire-Falls org d h =
        let d1 = record d { shared = (shared_acquire org d.shared).1 } in
        elim (Result-cases (shared_acquire org d.shared).0) [
          | inl (decision, f) ↦
              let (reads, log) = leave-Reads d1 h in
              rw (acquire-ok org d decision f, f) (refl, local-leave d1, reads, log)
          | inr (limiter_unavailable reason, f) ↦
              let (reads, log) = enter-Reads reason d1 h in
              rw (acquire-out org d reason f, f) (refl, refl, reads, log)
        ]
