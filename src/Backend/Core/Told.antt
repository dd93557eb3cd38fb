-- ===== src/Backend/Core/Told.antt =====
-- What a check of the store reports lies within the capacity.
use mathlib.Core.Path.{subst}
use rate_limit_patterns.Prelude.{
  ℕ, ◌+◌, ◌-◌, ◌*◌, ◌/◌, ◌<◌, ◌≡◌, refl, sym, Option, ap, ◌∙◌, leb, ltb, Bool-cases, inl, inr, [],
  ◌∷◌, arith,
}
use rate_limit_patterns.Prelude.Int.{ℤ, pos, ◌≤ℤ◌, int_laws}
use rate_limit_patterns.Prelude.Lists.{length, length-append}
use rate_limit_patterns.Prelude.Quotient.{floor_le, mul_pos}
use rate_limit_patterns.Models.{
  AlgorithmType, token_bucket, sliding_window, leaky_bucket, unsupported, RateLimitConfig, Scale,
  one, capacity, IsValid, IsResolved, tokens_per_second, ok, ok-injective,
}
use rate_limit_patterns.Algorithms.Base.{Metadata, Decision}
use rate_limit_patterns.Algorithms.TokenBucket
use rate_limit_patterns.Algorithms.TokenBucket.Bounds.{compute_rule}
use rate_limit_patterns.Algorithms.SlidingWindow
use rate_limit_patterns.Algorithms.SlidingWindow.Branches.{decide, compute-decide}
use rate_limit_patterns.Algorithms.LeakyBucket
use rate_limit_patterns.Algorithms.Protocol.{
  AlgorithmState, bucket, window, queue, RateLimitAlgorithm, relabel, compute_token_bucket,
  compute_sliding_window, compute_leaky_bucket,
}
use rate_limit_patterns.Backend.Core.{algorithm_for}
use rate_limit_patterns.Backend.Core.Total.{ReadyAt}

-- The calls that an algorithm lets through at once.
abbrev pub at_once : AlgorithmType → RateLimitConfig → ℕ
at_once sliding_window config = config.limit
at_once _ config = capacity config

-- Neither number is negative, and no more calls remain than go through at once.
pub record IsWithin (most : ℕ) (m : Metadata) : Type 0 where
  pub remaining_nonneg : pos 0 ≤ℤ m.remaining
  pub remaining_le : m.remaining ≤ℤ pos most
  pub count_nonneg : pos 0 ≤ℤ m.request_count

parts_pos : (a b c : ℕ) → 0 < a * b / c → 0 < b
parts_pos a b c h = grind arith

module _ (s : Scale) (config : RateLimitConfig) (r : IsResolved s config) (v : IsValid config) where
  one_pos : 0 < one s
  unfolding one tokens_per_second
  one_pos =
      mul_pos s.ticks s.parts r.ticks_pos (parts_pos config.limit s.parts config.period r.rate_pos)

  bucket-IsWithin :
      (state : TokenBucket.State) (now : ℤ)
      → IsWithin (capacity config) (TokenBucket.compute s state config now).2
  unfolding TokenBucket.settle
  bucket-IsWithin state now =
      compute_rule s state config now (λ d. IsWithin (capacity config) d.2)
        (λ allowed tokens told le. record {
          remaining_nonneg = omega arith;
          remaining_le = omega (arith, floor_le tokens (one s) (capacity config) one_pos le);
          count_nonneg = omega arith;
        })

  free_places-IsWithin :
      {reset_at : ℤ} {retry_after : Option ℤ} (waiting : ℕ)
      → IsWithin (capacity config) (record {
        remaining = pos ((capacity config * one s - waiting) / one s);
        reset_at = reset_at;
        request_count = pos (waiting / one s);
        retry_after = retry_after;
      })
  free_places-IsWithin waiting = record {
    remaining_nonneg = omega arith;
    remaining_le = omega (
      arith,
      floor_le (capacity config * one s - waiting) (one s) (capacity config) one_pos (omega arith),
    );
    count_nonneg = omega arith;
  }

  queue-IsWithin :
      (state : LeakyBucket.State) (now : ℤ)
      → IsWithin (capacity config) (LeakyBucket.compute s state config now).2
  unfolding LeakyBucket.compute LeakyBucket.settle
  queue-IsWithin state now =
      let waiting = LeakyBucket.leaked s state config now in
      elim (Bool-cases (leb (waiting + one s) (capacity config * one s))) [
        | inl room ↦ rw room (free_places-IsWithin (waiting + one s))
        | inr full ↦ rw full (free_places-IsWithin waiting)
      ]

  window-IsWithin :
      (state : SlidingWindow.State) (now : ℤ) → IsWithin config.limit (decide s config now state).2
  unfolding decide SlidingWindow.allow
  window-IsWithin state now =
      let kept = SlidingWindow.in_window s config now state.requests in
      elim (Bool-cases (ltb (length kept) config.limit)) [
        | inl room ↦ rw room (record {
          remaining_nonneg = grind (int_laws, room, length-append kept (now ∷ []));
          remaining_le = omega int_laws;
          count_nonneg = omega arith;
        })
        | inr full ↦ rw full (record {
          remaining_nonneg = omega arith;
          remaining_le = omega arith;
          count_nonneg = omega arith;
        })
      ]

  -- What a call reports is within what the algorithm lets through at once.
  pub compute-IsWithin :
      (a : AlgorithmType) (algorithm : RateLimitAlgorithm) (now : ℤ) (state : AlgorithmState)
      (d : Decision AlgorithmState)
      → algorithm_for s a ≡ ok algorithm
      → ReadyAt s config a now state
      → algorithm.compute state config now ≡ ok d
      → IsWithin (at_once a config) d.2
  unfolding algorithm_for compute_token_bucket compute_sliding_window compute_leaky_bucket
  compute-IsWithin token_bucket algorithm now (bucket state) d e h done =
      let same =
        ap (λ (x : RateLimitAlgorithm). x.compute (bucket state) config now) (ok-injective e)
        ∙ done in
      subst (λ x. IsWithin (capacity config) x.2) (ok-injective same) (bucket-IsWithin state now)
  compute-IsWithin sliding_window algorithm now (window state) d e h done =
      let same =
        ap (λ (x : RateLimitAlgorithm). x.compute (window state) config now) (ok-injective e)
        ∙ done in
      let computed : compute_sliding_window s (window state) config now
          ≡ ok (relabel window (decide s config now state)) =
        rw (compute-decide s config now state v) refl in
      subst (λ x. IsWithin config.limit x.2) (ok-injective (sym computed ∙ same))
        (window-IsWithin state now)
  compute-IsWithin leaky_bucket algorithm now (queue state) d e h done =
      let same =
        ap (λ (x : RateLimitAlgorithm). x.compute (queue state) config now) (ok-injective e)
        ∙ done in
      subst (λ x. IsWithin (capacity config) x.2) (ok-injective same) (queue-IsWithin state now)
  compute-IsWithin token_bucket algorithm now (window state) d e h done = absurd h
  compute-IsWithin token_bucket algorithm now (queue state) d e h done = absurd h
  compute-IsWithin sliding_window algorithm now (bucket state) d e h done = absurd h
  compute-IsWithin sliding_window algorithm now (queue state) d e h done = absurd h
  compute-IsWithin leaky_bucket algorithm now (bucket state) d e h done = absurd h
  compute-IsWithin leaky_bucket algorithm now (window state) d e h done = absurd h
  compute-IsWithin (unsupported name) algorithm now state d e h done = cc
