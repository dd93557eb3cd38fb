-- ===== src/Algorithms/TokenBucket/Bounds.antt =====
-- What one call of `TokenBucketAlgorithm.compute` does to the balance.
use rate_limit_patterns.Prelude.{
  some, min, ℕ, Bool, Option, none, inl, inr, leb, Bool-cases, ◌+◌, ◌*◌, ◌≤◌, ◌<◌, ◌-◌, ◌≡◌, ◌⊎◌,
  true, false, arith,
}
use rate_limit_patterns.Prelude.Int.{pos, ℤ, gap}
use rate_limit_patterns.Models.{RateLimitConfig, Scale, one, tokens_per_second, capacity}
use rate_limit_patterns.Prelude.Quotient.{ceil_div}
use rate_limit_patterns.Algorithms.Base.{Decision}
use rate_limit_patterns.Algorithms.TokenBucket.{State, refilled, settle, compute}

module _ (s : Scale) (state : State) (config : RateLimitConfig) (now : ℤ) where
  pub refilled_le_capacity : refilled s state config now ≤ capacity config * one s
  unfolding refilled
  refilled_le_capacity = omega arith

  -- What holds of every settlement within the capacity holds of every call.
  pub compute_rule {ℓ} :
      (P : Decision State → Type ℓ)
      → ((allowed : Bool) (tokens : ℕ) (retry_after : Option ℤ)
          → tokens ≤ capacity config * one s
          → P (settle s config now allowed tokens retry_after))
      → P (compute s state config now)
  unfolding compute
  compute_rule P settled = elim (Bool-cases (leb (one s) (refilled s state config now))) [
    | inl e ↦ rw e (settled true _ none (omega (arith, refilled_le_capacity)))
    | inr e ↦ rw e (settled false _ _ refilled_le_capacity)
  ]

module _ (s : Scale) (state : State) (config : RateLimitConfig) (now : ℤ) where
  -- A call spends one token or none, and denies only when the balance does not reach one token.
  pub compute_spends :
      ((compute s state config now).0 ≡ true)
        × ((compute s state config now).1.tokens + one s ≡ refilled s state config now)
      ⊎ ((compute s state config now).0 ≡ false)
        × ((compute s state config now).1.tokens ≡ refilled s state config now)
        × (refilled s state config now < one s)
  unfolding compute settle
  compute_spends = ground arith

  pub refilled_le_refill :
      refilled s state config now
      ≤ state.tokens + gap now state.last_refill * tokens_per_second s config
  unfolding refilled
  refilled_le_refill = omega arith

  pub last_refill-compute : (compute s state config now).1.last_refill ≡ now
  unfolding compute settle
  last_refill-compute = ground arith

  -- The balance never exceeds the capacity, whatever the state was.
  pub tokens-compute-le : (compute s state config now).1.tokens ≤ capacity config * one s
  tokens-compute-le = omega (arith, compute_spends, refilled_le_capacity)

  -- The refill after a call starts from the time of the call.
  pub refilled-compute :
      (later : ℤ)
      → refilled s (compute s state config now).1 config later
        ≡ min
            (capacity config * one s)
            ((compute s state config now).1.tokens + gap later now * tokens_per_second s config)
  unfolding refilled
  refilled-compute later = rw last_refill-compute

  pub compute-admits : one s ≤ refilled s state config now → (compute s state config now).0 ≡ true
  compute-admits h = ground (arith, compute_spends)

  pub compute-denies : refilled s state config now < one s → (compute s state config now).0 ≡ false
  compute-denies h = ground (arith, compute_spends)

  -- A denied call keeps the balance, and waits for the part of a token that is missing.
  pub compute_denied :
      (compute s state config now).0 ≡ false
      → ((compute s state config now).1.tokens < one s)
        × ((compute s state config now).2.retry_after
            ≡ some (
                pos (
                  ceil_div
                    (one s - (compute s state config now).1.tokens)
                    (tokens_per_second s config * s.ticks))))
  unfolding compute settle
  compute_denied h = ground arith
