-- ===== src/Tests/Algorithms.antt =====
-- Runs of the three algorithms, and the theorems about them at concrete inputs.
use rate_limit_patterns.Prelude.{
  ℕ, true, false, some, ◌+◌, ◌*◌, ◌≤◌, ◌<◌, ◌≡◌, refl, [], ◌∷◌, arith,
}
use rate_limit_patterns.Prelude.Int.{ℤ, pos, pos_part, ◌+ℤ◌, ◌-ℤ◌, ◌≤ℤ◌, gap}
use rate_limit_patterns.Prelude.Lists.{keep}
use rate_limit_patterns.Prelude.Quotient.{ceil_div}
use rate_limit_patterns.Models.{one, seconds, tokens_per_second, capacity}
use rate_limit_patterns.Algorithms.TokenBucket
use rate_limit_patterns.Algorithms.LeakyBucket
use rate_limit_patterns.Tests.Samples.{
  scale, config, leaky_config, config-IsResolved, leaky_config-IsResolved, empty_bucket, full_queue,
  burst,
}

program : Unit {0}
unfolding one seconds tokens_per_second capacity ceil_div gap ◌+ℤ◌ ◌-ℤ◌ keep
program = tt

bucket_program : Unit {0}
unfolding program TokenBucket.initial_state TokenBucket.refilled TokenBucket.settle
    TokenBucket.compute TokenBucket.Run.run
bucket_program = tt

-- A burst of two is admitted, the third call waits ten seconds, a minute later there is room again.
run-burst :
    TokenBucket.Run.run scale config (TokenBucket.initial_state scale config) burst
    ≡ (3, record { tokens = 600; last_refill = pos 1600 })
unfolding bucket_program
run-burst = refl

admitted_le_example :
    (TokenBucket.Run.run scale config empty_bucket burst).0 * one scale
    ≤ capacity config * one scale + gap (pos 1600) (pos 1000) * tokens_per_second scale config
admitted_le_example =
    TokenBucket.Admission.admitted_le scale config empty_bucket (pos 1000)
      (pos 1000 ∷ pos 1001 ∷ pos 1600 ∷ []) (omega arith)

-- An empty bucket at its own last refill.
denied_empty : (TokenBucket.compute scale empty_bucket config (pos 1000)).0 ≡ false
unfolding bucket_program
denied_empty = refl

abbrev after_empty : TokenBucket.State
after_empty = (TokenBucket.compute scale empty_bucket config (pos 1000)).1

positive : 0 < capacity config
unfolding capacity
positive = omega arith

retry_after-suffices_example :
    (n : ℕ) × ((TokenBucket.compute scale empty_bucket config (pos 1000)).2.retry_after
      ≡ some (pos n))
    × ((later : ℤ)
        → pos 1000 +ℤ pos (seconds scale n) ≤ℤ later
        → (TokenBucket.compute scale after_empty config later).0 ≡ true)
    × ((k : ℕ)
        → k < n
        → (TokenBucket.compute scale after_empty config (pos 1000 +ℤ pos (seconds scale k))).0
          ≡ false)
retry_after-suffices_example =
    TokenBucket.Report.retry_after-suffices scale empty_bucket config (pos 1000) denied_empty
      positive config-IsResolved

one_pos : 0 < one scale
unfolding one
one_pos = omega arith

metadata_counts_example :
    (let (_, state', m) = TokenBucket.compute scale empty_bucket config (pos 1050) in
      (pos_part m.remaining * one scale ≤ state'.tokens)
      × (state'.tokens < (pos_part m.remaining + 1) * one scale)
      × (pos_part m.remaining + pos_part m.request_count ≤ capacity config)
      × (capacity config ≤ pos_part m.remaining + pos_part m.request_count + 1))
metadata_counts_example =
    TokenBucket.Report.metadata_counts scale empty_bucket config (pos 1050) one_pos

full_by_then : (TokenBucket.compute scale empty_bucket config (pos 1000)).2.reset_at ≤ℤ pos 1200
unfolding bucket_program
full_by_then = omega arith

refilled-reset_at_example :
    TokenBucket.refilled scale after_empty config (pos 1200) ≡ capacity config * one scale
refilled-reset_at_example =
    TokenBucket.Report.refilled-reset_at scale empty_bucket config (pos 1000)
      config-IsResolved.rate_pos (pos 1200) full_by_then

paced : TokenBucket.Pace.IsPaced scale config (pos 1000) (pos 1100 ∷ pos 1205 ∷ [])
unfolding program
paced = omega arith

run_paced_example : (TokenBucket.Run.run scale config empty_bucket (pos 1100 ∷ pos 1205 ∷ [])).0 ≡ 2
run_paced_example =
    TokenBucket.Pace.run_paced scale config positive (pos 1000) empty_bucket
      (pos 1100 ∷ pos 1205 ∷ []) refl paced

ten_seconds : one scale ≤ 100 * tokens_per_second scale config
unfolding program
ten_seconds = omega arith

rewind-admits_example :
    (let rewound = (TokenBucket.compute scale after_empty config (pos 1000 -ℤ pos 100)).1 in
      ((TokenBucket.compute scale after_empty config (pos 1000)).0 ≡ false)
      × ((TokenBucket.compute scale rewound config (pos 1000)).0 ≡ true))
rewind-admits_example =
    TokenBucket.Pace.rewind-admits scale config positive empty_bucket (pos 1000) 100 ten_seconds
      denied_empty

queue-Fits : LeakyBucket.Duality.Fits scale leaky_config full_queue
unfolding program
queue-Fits = omega arith

responses-equal_example :
    LeakyBucket.Run.responses scale leaky_config
      (LeakyBucket.initial_state scale leaky_config)
      burst
    ≡ TokenBucket.Run.responses scale leaky_config
        (TokenBucket.initial_state scale leaky_config)
        burst
responses-equal_example =
    LeakyBucket.Equivalence.responses-equal scale leaky_config leaky_config-IsResolved burst

enqueued_le_example :
    (LeakyBucket.Run.run scale leaky_config full_queue burst).0 * one scale
    ≤ capacity leaky_config * one scale
      + gap (pos 1600) (pos 1000) * tokens_per_second scale leaky_config
enqueued_le_example =
    LeakyBucket.Equivalence.enqueued_le scale leaky_config leaky_config-IsResolved full_queue
      (pos 1000) (pos 1000 ∷ pos 1001 ∷ pos 1600 ∷ []) queue-Fits (omega arith)
