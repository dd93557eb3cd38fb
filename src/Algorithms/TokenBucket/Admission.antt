-- ===== src/Algorithms/TokenBucket/Admission.antt =====
-- How many calls a token bucket admits.
use rate_limit_patterns.Prelude.{ℕ, ◌+◌, ◌*◌, ◌≤◌, ◌≡◌, List, [], ◌∷◌, arith, ap}
use rate_limit_patterns.Prelude.Int.{ℤ, gap, gap_split}
use rate_limit_patterns.Prelude.Runs.{IsOrdered, last_or, IsOrdered-last_or}
use rate_limit_patterns.Models.{RateLimitConfig, Scale, one, tokens_per_second, capacity}
use rate_limit_patterns.Algorithms.TokenBucket.{State, compute}
use rate_limit_patterns.Algorithms.TokenBucket.Bounds.{
  compute_spends, refilled_le_refill, refilled_le_capacity, last_refill-compute,
}
use rate_limit_patterns.Algorithms.TokenBucket.Run.{run}

module _ (s : Scale) (config : RateLimitConfig) where
  -- Every admitted call has been paid for by the balance or by the refill.
  pub admitted_paid :
      (last : ℤ) (state : State) (ts : List ℤ)
      → state.last_refill ≡ last
      → IsOrdered last ts
      → (let (n, end) = run s config state ts in
          n * one s + end.tokens
          ≤ state.tokens + gap (last_or last ts) last * tokens_per_second s config)
  unfolding run
  admitted_paid last state [] e h = omega arith
  admitted_paid last state (t ∷ ts) e h =
      let state' = (compute s state config t).1 in
      let rate = tokens_per_second s config in
      ground (
        arith,
        compute_spends s state config t,
        refilled_le_refill s state config t,
        admitted_paid t state' ts (last_refill-compute s state config t) h.1,
        ap (λ (x : ℕ). x * rate) (gap_split (last_or t ts) t last h.0 (IsOrdered-last_or t ts h.1)),
      )

  -- A run of calls at times that never decrease admits at most the capacity and what is refilled
  -- between the first call and the last, whatever the state was before.
  pub admitted_le :
      (state : State) (t : ℤ) (ts : List ℤ)
      → IsOrdered t ts
      → (run s config state (t ∷ ts)).0 * one s
        ≤ capacity config * one s + gap (last_or t ts) t * tokens_per_second s config
  unfolding run
  admitted_le state t ts h =
      let state' = (compute s state config t).1 in
      ground (
        arith,
        compute_spends s state config t,
        refilled_le_capacity s state config t,
        admitted_paid t state' ts (last_refill-compute s state config t) h,
      )
