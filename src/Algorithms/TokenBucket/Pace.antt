-- ===== src/Algorithms/TokenBucket/Pace.antt =====
-- How the times of the calls bear on a token bucket: idle keys, paced clients, a clock set back.
use rate_limit_patterns.Prelude.{ℕ, ◌*◌, ◌≤◌, ◌<◌, ◌≡◌, refl, true, false, List, [], ◌∷◌, arith, ap}
use rate_limit_patterns.Prelude.Int.{ℤ, pos, ◌-ℤ◌, gap, gap_same, gap--ℤ}
use rate_limit_patterns.Prelude.Lists.{length}
use rate_limit_patterns.Prelude.Quotient.{mul_le_mul}
use rate_limit_patterns.Models.{RateLimitConfig, Scale, one, tokens_per_second, capacity}
use rate_limit_patterns.Algorithms.TokenBucket.{State, initial_state, refilled, compute}
use rate_limit_patterns.Algorithms.TokenBucket.Bounds.{
  refilled-compute, compute-admits, compute-denies, last_refill-compute, compute_denied,
}
use rate_limit_patterns.Algorithms.TokenBucket.Run.{run}

module _ (s : Scale) (config : RateLimitConfig) where
  -- A call reads its state through the refilled balance alone.
  compute_of_refilled :
      (a b : State) (now : ℤ)
      → refilled s a config now ≡ refilled s b config now
      → compute s a config now ≡ compute s b config now
  unfolding compute
  compute_of_refilled a b now e = rw e

  -- A key that has been idle for as long as an empty bucket takes to fill is treated like a new key.
  pub compute_idle :
      (state : State) (now : ℤ)
      → capacity config * one s ≤ gap now state.last_refill * tokens_per_second s config
      → compute s state config now ≡ compute s (initial_state s config) config now
  unfolding refilled initial_state
  compute_idle state now h = compute_of_refilled state (initial_state s config) now (omega arith)

  refill_reaches_one :
      (state : State) (now : ℤ)
      → 0 < capacity config
      → one s ≤ gap now state.last_refill * tokens_per_second s config
      → (compute s state config now).0 ≡ true
  unfolding refilled
  refill_reaches_one state now h le =
      compute-admits s state config now (omega (arith, mul_le_mul 1 (capacity config) (one s) h))

  -- Consecutive instants, from `last` on, that each bring at least one token.
  abbrev pub IsPaced : ℤ → List ℤ → Type 0
  IsPaced last [] = Unit
  IsPaced last (t ∷ ts) = (one s ≤ gap t last * tokens_per_second s config) × IsPaced t ts

  -- With a capacity of at least one token, a client that before each call waits for one token's
  -- refill, from the last refill of the bucket on, is never denied.
  pub run_paced :
      0 < capacity config
      → (last : ℤ) (state : State) (ts : List ℤ) → state.last_refill ≡ last
      → IsPaced last ts
      → (run s config state ts).0 ≡ length ts
  unfolding run
  run_paced h last state [] e paced = refl
  run_paced h last state (t ∷ ts) e paced =
      let after = (compute s state config t).1 in
      let first = refill_reaches_one state t h (rw e paced.0) in
      ground (arith, first, run_paced h t after ts (last_refill-compute s state config t) paced.1)

  -- A clock that is set back and catches up refills the same stretch of time twice: with a capacity of
  -- at least one token, and for a stretch `d` in which a whole token is refilled, a bucket that denies
  -- a call at `now`, and denies it there again, admits it at the same `now` once another call has come
  -- at `now - d`.
  pub rewind-admits :
      0 < capacity config
      → (state : State) (now : ℤ) (d : ℕ) → one s ≤ d * tokens_per_second s config
      → (compute s state config now).0 ≡ false
      → (let rewound = (compute s (compute s state config now).1 config (now -ℤ pos d)).1 in
          ((compute s (compute s state config now).1 config now).0 ≡ false)
          × ((compute s rewound config now).0 ≡ true))
  rewind-admits h state now d le denied =
      let after = (compute s state config now).1 in
      let back = now -ℤ pos d in
      let rewound = (compute s after config back).1 in
      (
        compute-denies s after config now (
            omega (
              arith,
              refilled-compute s state config now now,
              (compute_denied s state config now denied).0,
              ap (λ (x : ℕ). x * tokens_per_second s config) (gap_same now),
            )),
        refill_reaches_one rewound now h
            (rw (last_refill-compute s after config back, gap--ℤ now d) le),
      )
