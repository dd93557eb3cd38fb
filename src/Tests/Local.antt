-- ===== src/Tests/Local.antt =====
-- The local backend and its store at concrete inputs.
use rate_limit_patterns.Prelude.{
  ◌≡◌, ◌≢◌, ◌≤◌, refl, Bool-cases, inl, inr, if◌then◌else◌, none, some, false, List, [], ◌∷◌, arith,
}
use rate_limit_patterns.Prelude.Int.{ℤ, pos, ◌+ℤ◌, ◌-ℤ◌}
use rate_limit_patterns.Prelude.Lists.{keep, All, length}
use rate_limit_patterns.Prelude.Dict.{get}
use rate_limit_patterns.Prelude.Text.{Text, codes, text_eq}
use rate_limit_patterns.Models.{RateLimitConfig}
use rate_limit_patterns.Algorithms.SlidingWindow
use rate_limit_patterns.Algorithms.SlidingWindow.Cutoff.{between}
use rate_limit_patterns.Algorithms.SlidingWindow.History.{cutoff}
use rate_limit_patterns.Algorithms.Protocol.{
  compute_sliding_window, bucket, token_bucket_algorithm, sliding_window_algorithm,
}
use rate_limit_patterns.Backend.Core.{LocalStateCore, LocalEntry, algorithm_for, now_times}
use rate_limit_patterns.Backend.Core.Cleanup.{cleanup_expired}
use rate_limit_patterns.Backend.Core.Sweep.{unexpired, get-cleanup_expired}
use rate_limit_patterns.Backend.Core.Refinement.{answers_to, times_of}
use rate_limit_patterns.Backend.Core.Window.{admitted_at, store_window_limit}
use rate_limit_patterns.Backend.Core
use rate_limit_patterns.Backend.Local
use rate_limit_patterns.Backend.Local.{
  after_wake, LocalBackend, absent, timeout, cancelled, cancelling, check_and_increment, check_with,
  conclude, cleanup_round, update_cleanup_interval, start_cleanup_task,
}
use rate_limit_patterns.Backend.Local.Sound.{IsServed, Answers}
use rate_limit_patterns.Backend.Local.Serves.{
  Operation, check, clear, read, start, stop, begin_stop, end_stop, round, outcomes, ClockRuns,
  outcomes-Answers,
}
use rate_limit_patterns.Backend.Local.Sweeping.{Sweeps, after, check_and_increment-Sweeps}
use rate_limit_patterns.Tests.Samples.{
  scale, config, config-IsValid, config-IsResolved, window_config, window_config-IsValid,
  window_config-IsResolved, empty_bucket,
}

-- The entry of "a" has expired at 1000, the entry of "b" has not.
abbrev store : LocalStateCore
store = record {
  state =
      (codes "a", record { state = bucket empty_bucket; expires_at = pos 1000 })
      ∷ (codes "b", record { state = bucket empty_bucket; expires_at = pos 1001 })
      ∷ [];
  time_offset = pos 5000;
}

get-cleanup_expired_example :
    get (codes "b") (cleanup_expired store (pos 1000)).state
    ≡ unexpired (get (codes "b") store.state) (pos 1000)
get-cleanup_expired_example = get-cleanup_expired store (codes "b") (pos 1000)

abbrev window_calls : List (Text × ℤ)
window_calls =
    (codes "a", pos 0)
    ∷ (codes "b", pos 1)
    ∷ (codes "a", pos 6)
    ∷ (codes "a", pos 7)
    ∷ (codes "a", pos 900)
    ∷ []

store_window_limit_example :
    length (
      between (cutoff scale window_config (pos 40)) (pos 40) (
        admitted_at (times_of (codes "a") window_calls) (
          answers_to scale window_config
            (sliding_window_algorithm scale)
            (codes "a")
            (record { state = []; time_offset = pos 5000 })
            window_calls)))
    ≤ 2
store_window_limit_example =
    store_window_limit scale window_config window_config-IsValid window_config-IsResolved refl
      (codes "a") (pos 0) (pos 5000) window_calls (omega arith) (pos 40)

abbrev backend : LocalBackend
backend = record {
  core = record { state = []; time_offset = pos 5000 };
  cleanup_interval = none;
  cleanup_event = false;
  cleanup_task = absent;
  is_running = false;
}

-- The key "w" has a sliding window, every other key a token bucket.
abbrev configs : Text → RateLimitConfig
configs key = if text_eq key (codes "w") then window_config else config

config-IsServed : IsServed scale config
unfolding algorithm_for
config-IsServed = record {
  algorithm = token_bucket_algorithm scale;
  known = refl;
  valid = config-IsValid;
  resolved = config-IsResolved;
}

window_config-IsServed : IsServed scale window_config
unfolding algorithm_for
window_config-IsServed = record {
  algorithm = sliding_window_algorithm scale;
  known = refl;
  valid = window_config-IsValid;
  resolved = window_config-IsResolved;
}

configs-IsServed : (key : Text) → IsServed scale (configs key)
configs-IsServed key = elim (Bool-cases (text_eq key (codes "w"))) [
  | inl same ↦ rw same window_config-IsServed
  | inr other ↦ rw other config-IsServed
]

-- Checks of two keys, with and without the caller's time, a timed-out round, and a stop with a check
-- in between.
abbrev operations : List Operation
operations =
    start
    ∷ check (codes "w") none (pos 3)
    ∷ check (codes "a") (some (pos 5004)) (pos 3)
    ∷ round timeout (pos 9)
    ∷ clear (codes "a")
    ∷ read (codes "w") (pos 9)
    ∷ begin_stop
    ∷ check (codes "w") none (pos 12)
    ∷ end_stop
    ∷ stop
    ∷ []

operations-ClockRuns : ClockRuns scale configs (pos 0) backend operations
unfolding ClockRuns now_times Local.initialize start_cleanup_task check_and_increment check_with
    conclude algorithm_for update_cleanup_interval cleanup_round after_wake cleanup_expired text_eq
    Local.reset_key Core.reset Local.get_metrics Core.metrics_snapshot Local.close Local.begin_close
    Local.end_close ◌+ℤ◌ ◌-ℤ◌ Core.apply Core.finish Core.starting_state Core.live get
    compute_sliding_window SlidingWindow.compute SlidingWindow.in_window SlidingWindow.initial_state
    SlidingWindow.allow keep
operations-ClockRuns = omega arith

outcomes-Answers_example :
    All (λ o. Answers (configs o.0) o.1) (outcomes scale configs backend operations)
outcomes-Answers_example =
    outcomes-Answers scale configs configs-IsServed (pos 0) backend operations refl
      operations-ClockRuns

-- A stop during which a check comes.
abbrev stopped : List Operation
stopped =
    start
    ∷ round timeout (pos 1)
    ∷ begin_stop
    ∷ check (codes "a") none (pos 2)
    ∷ round cancelled (pos 2)
    ∷ end_stop
    ∷ []

stopped-settled : (after scale configs backend stopped).cleanup_task ≢ cancelling
unfolding after Local.end_close
stopped-settled e = cc

check_and_increment-Sweeps_example :
    Sweeps
      (check_and_increment scale
        (after scale configs backend stopped)
        (codes "a")
        config
        none
        (pos 3)).1
      (pos 3000)
unfolding algorithm_for text_eq
check_and_increment-Sweeps_example =
    check_and_increment-Sweeps scale configs backend stopped refl refl (codes "a") none (pos 3)
      (token_bucket_algorithm scale) refl (omega arith) stopped-settled
