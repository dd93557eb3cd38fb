-- ===== src/Tests/Store.antt =====
-- The store, the local backends and the Redis wire format at concrete inputs.
use rate_limit_patterns.Prelude.{false, none, List, [], ◌∷◌, ◌≡◌, refl, arith}
use rate_limit_patterns.Prelude.Int.{ℤ, pos, ◌+ℤ◌, ◌≤ℤ◌}
use rate_limit_patterns.Prelude.Quotient.{ceil_div}
use rate_limit_patterns.Prelude.Text.{Text, codes}
use rate_limit_patterns.Models.{token_bucket, one, seconds, tokens_per_second, capacity, ok}
use rate_limit_patterns.Algorithms.Protocol.{bucket, token_bucket_algorithm}
use rate_limit_patterns.Backend.Core
use rate_limit_patterns.Backend.Local
use rate_limit_patterns.Backend.SyncLocal
use rate_limit_patterns.Backend.RedisShared.{parse_script_result}
use rate_limit_patterns.Backend.RedisShared.Parse
use rate_limit_patterns.Tests.Samples.{
  scale, config, config-IsValid, config-IsResolved, empty_bucket,
}

known : Core.algorithm_for scale token_bucket ≡ ok (token_bucket_algorithm scale)
unfolding Core.algorithm_for
known = refl

abbrev empty_store : Core.LocalStateCore
empty_store = record { state = []; time_offset = pos 5000 }

-- Checks of two keys; the entry of "a" has expired by the last one.
abbrev calls : List (Text × ℤ)
calls = (codes "a", pos 0) ∷ (codes "b", pos 5) ∷ (codes "a", pos 6) ∷ (codes "a", pos 900) ∷ []

answers_to-alone_example :
    Core.Refinement.answers_to scale config
      (token_bucket_algorithm scale)
      (codes "a")
      empty_store
      calls
    ≡ Core.Refinement.alone config
        (token_bucket_algorithm scale)
        ((token_bucket_algorithm scale).initial_state config)
        (Core.Refinement.times_of (codes "a") calls)
answers_to-alone_example =
    Core.Refinement.answers_to-alone scale config config-IsResolved config-IsValid
      (token_bucket_algorithm scale) known (codes "a") (pos 0) (pos 5000) calls (omega arith)

-- A check, a sweep that finds its entry expired, a read of the metrics, and another check.
abbrev events : List Core.Cleanup.Event
events =
    Core.Cleanup.check (token_bucket_algorithm scale) (codes "a") config (pos 0)
    ∷ Core.Cleanup.sweep (pos 900)
    ∷ Core.Cleanup.read (codes "a") (pos 901)
    ∷ Core.Cleanup.check (token_bucket_algorithm scale) (codes "a") config (pos 902)
    ∷ []

answers-checks_example :
    Core.Cleanup.answers scale empty_store events
    ≡ Core.Cleanup.answers scale empty_store (Core.Cleanup.checks events)
answers-checks_example = Core.Cleanup.answers-checks scale (pos 0) empty_store events (omega arith)

outlived : pos 1000 +ℤ pos (Core.ttl_for scale config) ≤ℤ pos 1200
unfolding Core.ttl_for one seconds tokens_per_second capacity ceil_div ◌+ℤ◌
outlived = omega arith

compute_expired_example :
    (token_bucket_algorithm scale).compute (bucket empty_bucket) config (pos 1200)
    ≡ (token_bucket_algorithm scale).compute
        ((token_bucket_algorithm scale).initial_state config)
        config
        (pos 1200)
compute_expired_example =
    Core.Idle.compute_expired scale config config-IsResolved token_bucket
      (token_bucket_algorithm scale) (pos 1000) (pos 1200) (bucket empty_bucket) refl known refl
      outlived

abbrev async_backend : Local.LocalBackend
async_backend = record {
  core = empty_store;
  cleanup_interval = none;
  cleanup_event = false;
  cleanup_task = Local.absent;
  is_running = false;
}

abbrev sync_backend : SyncLocal.SyncLocalBackend
sync_backend = record {
  core = empty_store;
  cleanup_interval = none;
  cleanup_thread = SyncLocal.absent;
  stop_event = false;
  wakeup_event = false;
}

backends-Matches : Local.Sync.Matches async_backend sync_backend
backends-Matches = record { core = refl; interval = refl }

check_and_increment-SameStep_example :
    Local.Sync.SameStep
      (Local.check_and_increment scale async_backend (codes "a") config none (pos 7))
      (SyncLocal.check_and_increment scale sync_backend (codes "a") config none (pos 7))
check_and_increment-SameStep_example =
    Local.Sync.check_and_increment-SameStep scale async_backend sync_backend backends-Matches
      (codes "a") config none (pos 7)

-- An admitted call, in a reply that names a wait all the same.
abbrev admitted_reply : List ℤ
admitted_reply = pos 1 ∷ pos 5 ∷ pos 10 ∷ pos 120 ∷ pos 2 ∷ []

parse_script_result-Reads_example :
    Parse.Reads scale config admitted_reply (parse_script_result scale admitted_reply config)
parse_script_result-Reads_example = Parse.parse_script_result-Reads scale config admitted_reply
