-- ===== src/Tests/Windows.antt =====
-- Runs of the sliding window, and its theorems at concrete inputs.
use rate_limit_patterns.Prelude.{false, true, some, ℕ, List, [], ◌∷◌, ◌≡◌, ◌≤◌, ◌<◌, refl, arith}
use rate_limit_patterns.Prelude.Int.{ℤ, pos, ◌+ℤ◌, ◌-ℤ◌, ◌≤ℤ◌, gap}
use rate_limit_patterns.Prelude.Lists.{length, keep}
use rate_limit_patterns.Prelude.Quotient.{ceil_div}
use rate_limit_patterns.Models.{seconds, ok}
use rate_limit_patterns.Algorithms.Base.{Metadata, Decision}
use rate_limit_patterns.Algorithms.SlidingWindow
use rate_limit_patterns.Tests.Samples.{
  scale, window_config, window_config-IsValid, window_config-IsResolved, full_window,
}

window_program : Unit {0}
unfolding seconds ceil_div gap ◌+ℤ◌ ◌-ℤ◌ keep SlidingWindow.initial_state SlidingWindow.in_window
    SlidingWindow.allow SlidingWindow.deny SlidingWindow.compute SlidingWindow.Run.admissions
window_program = tt

abbrev calls : List ℤ
calls = pos 1000 ∷ pos 1010 ∷ pos 1020 ∷ pos 1050 ∷ []

-- Two calls fill the window, the third is denied, and five seconds after the first there is room.
admissions-calls :
    SlidingWindow.Run.admissions scale window_config
      (SlidingWindow.initial_state window_config)
      calls
    ≡ ok (pos 1000 ∷ pos 1010 ∷ pos 1050 ∷ [])
unfolding window_program
admissions-calls = refl

window_limit_example :
    (xs : List ℤ) × (SlidingWindow.Run.admissions scale window_config
        (SlidingWindow.initial_state window_config)
        calls
      ≡ ok xs)
    × ((t : ℤ)
        → length
            (SlidingWindow.Cutoff.between (SlidingWindow.History.cutoff scale window_config t) t xs)
          ≤ 2)
window_limit_example =
    SlidingWindow.Limit.window_limit scale window_config window_config-IsValid (pos 1000) calls
      (omega arith)

admissions-ideal_example :
    SlidingWindow.Run.admissions scale window_config
      (SlidingWindow.initial_state window_config)
      calls
    ≡ ok (SlidingWindow.Ideal.ideal scale window_config [] calls)
admissions-ideal_example =
    SlidingWindow.Ideal.admissions-ideal scale window_config window_config-IsValid (pos 1000) calls
      (omega arith)

bounded : SlidingWindow.Retry.IsBounded window_config full_window
bounded = record { length_le = omega arith; counted = refl }

compute-IsBounded_example :
    (d : Decision SlidingWindow.State) × (SlidingWindow.compute scale full_window window_config
        (pos 1000)
      ≡ ok d)
    × SlidingWindow.Retry.IsBounded window_config d.1
    × (d.2.remaining +ℤ d.2.request_count ≡ pos 2)
    × (d.2.request_count ≡ pos d.1.count)
compute-IsBounded_example =
    SlidingWindow.Retry.compute-IsBounded scale window_config window_config-IsValid full_window
      (pos 1000) bounded

-- The outcome of a third call on a full window, four seconds before its oldest request leaves it.
abbrev told : Metadata
told = record {
  remaining = pos 0;
  reset_at = pos 1040;
  retry_after = some (pos 4);
  request_count = pos 2;
}

denied_window :
    SlidingWindow.compute scale full_window window_config (pos 1000) ≡ ok (false, full_window, told)
unfolding window_program
denied_window = refl

retry_after-frees_example :
    (n : ℕ) × (told.retry_after ≡ some (pos n))
    × (0 < n)
    × ((later : ℤ)
        → pos 1000 +ℤ pos (seconds scale n) ≤ℤ later
        → (d : Decision SlidingWindow.State) × (SlidingWindow.compute scale full_window
              window_config later
            ≡ ok d)
          × (d.0 ≡ true))
retry_after-frees_example =
    SlidingWindow.Retry.retry_after-frees scale window_config window_config-IsValid full_window
      (pos 1000) window_config-IsResolved.ticks_pos bounded full_window told denied_window
