-- ===== src/Algorithms/LeakyBucket/Equivalence.antt =====
-- A leaky bucket answers every sequence of calls as a token bucket of the same configuration does.
use rate_limit_patterns.Prelude.{◌+◌, ◌*◌, ◌≤◌, ◌≡◌, ◌∙◌, refl, ap, List, [], ◌∷◌, arith}
use rate_limit_patterns.Prelude.Int.{ℤ, gap}
use rate_limit_patterns.Prelude.Runs.{IsOrdered, last_or}
use rate_limit_patterns.Models.{
  RateLimitConfig, Scale, one, tokens_per_second, capacity, IsResolved,
}
use rate_limit_patterns.Algorithms.TokenBucket
use rate_limit_patterns.Algorithms.LeakyBucket.{State, initial_state, compute}
use rate_limit_patterns.Algorithms.LeakyBucket.Run.{run, responses}
use rate_limit_patterns.Algorithms.LeakyBucket.Duality.{
  free_places, Fits, compute-dual, compute-Fits,
}

module _ (s : Scale) (config : RateLimitConfig) (r : IsResolved s config) where
  pub responses-dual :
      (state : State) (ts : List ℤ)
      → Fits s config state
      → responses s config state ts
        ≡ TokenBucket.Run.responses s config (free_places s config state) ts
  unfolding responses TokenBucket.Run.responses
  responses-dual state [] h = refl
  responses-dual state (t ∷ ts) h = rw (
    ← compute-dual s config state t r h,
    responses-dual (compute s state config t).1 ts (compute-Fits s config state t h),
  )

  free_places-initial_state :
      free_places s config (initial_state s config) ≡ TokenBucket.initial_state s config
  unfolding free_places initial_state TokenBucket.initial_state
  free_places-initial_state = ground arith

  -- On a new key the leaky bucket and the token bucket give the same answers, with the same
  -- metadata, to every sequence of calls: a leaky bucket lets the same bursts through.
  pub responses-equal :
      (ts : List ℤ)
      → responses s config (initial_state s config) ts
        ≡ TokenBucket.Run.responses s config (TokenBucket.initial_state s config) ts
  unfolding initial_state
  responses-equal ts =
      responses-dual (initial_state s config) ts (omega arith)
      ∙ ap (λ state. TokenBucket.Run.responses s config state ts) free_places-initial_state

  run-dual :
      (state : State) (ts : List ℤ)
      → Fits s config state
      → (run s config state ts).0 ≡ (TokenBucket.Run.run s config (free_places s config state) ts).0
  unfolding run TokenBucket.Run.run
  run-dual state [] h = refl
  run-dual state (t ∷ ts) h = rw (
    ← compute-dual s config state t r h,
    run-dual (compute s state config t).1 ts (compute-Fits s config state t h),
  )

  -- With a resolved rate and a queue that is within the capacity, a run of calls at times that never
  -- decrease enqueues at most the capacity and what drains between the first call and the last.
  pub enqueued_le :
      (state : State) (t : ℤ) (ts : List ℤ)
      → Fits s config state
      → IsOrdered t ts
      → (run s config state (t ∷ ts)).0 * one s
        ≤ capacity config * one s + gap (last_or t ts) t * tokens_per_second s config
  enqueued_le state t ts h ordered =
      rw (run-dual state (t ∷ ts) h)
        (TokenBucket.Admission.admitted_le s config (free_places s config state) t ts ordered)
