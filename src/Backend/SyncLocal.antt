-- ===== src/Backend/SyncLocal.antt =====
-- src/rate_limit_patterns/backend/sync.py: `SyncLocalBackend`, over the same store, with a thread
-- for the cleanup. What one of the striped locks guards is one step.
use rate_limit_patterns.Prelude.{ℕ, ◌%◌, Bool, true, false, Option, none, some, if◌then◌else◌}
use rate_limit_patterns.Prelude.Int.{ℤ, pos, ltb_ℤ, leb_ℤ}
use rate_limit_patterns.Prelude.Text.{Text}
use rate_limit_patterns.Models.{RateLimitConfig, RateLimitResult, Scale, Result, ok, raise}
use rate_limit_patterns.Algorithms.Base.{Metadata}
use rate_limit_patterns.Algorithms.Protocol.{AlgorithmState, RateLimitAlgorithm}
use rate_limit_patterns.Backend.Core.{
  LocalStateCore, lock_stripes, algorithm_for, now_times, apply, build_result, reset,
  metrics_snapshot,
}
use rate_limit_patterns.Backend.Core.Cleanup.{cleanup_expired}

-- `_cleanup_thread`: None, a thread that has ended, or one that is alive.
pub data CleanupThread : Type 0 where
  absent ended alive : CleanupThread

pub record SyncLocalBackend : Type 0 where
  pub core : LocalStateCore
  pub cleanup_interval : Option ℤ
  pub cleanup_thread : CleanupThread
  pub stop_event : Bool
  pub wakeup_event : Bool

unfoldable pub sync_lock_for_key : (Text → ℕ) → Text → ℕ
sync_lock_for_key hash key = hash key % lock_stripes

unfoldable pub start_thread : SyncLocalBackend → SyncLocalBackend
start_thread b = record b { cleanup_thread = alive; stop_event = false; wakeup_event = false }

unfoldable pub initialize : SyncLocalBackend → SyncLocalBackend
initialize b = elim b.cleanup_thread [
  | alive ↦ b
  | absent ↦ start_thread b
  | ended ↦ start_thread b
]

-- `join` returns once the loop has seen the stop event.
unfoldable pub close : SyncLocalBackend → SyncLocalBackend
close b =
    let stopped = record b { stop_event = true; wakeup_event = true; cleanup_thread = absent } in
    elim b.cleanup_thread [ absent ↦ b | alive ↦ stopped | ended ↦ stopped ]

abbrev pub is_shorter : ℤ → Option ℤ → Bool
is_shorter interval none = true
is_shorter interval (some current) = ltb_ℤ interval current

unfoldable pub update_cleanup_interval : SyncLocalBackend → ℤ → SyncLocalBackend
update_cleanup_interval b interval =
    if leb_ℤ interval (pos 0)
    then b
    else if is_shorter interval b.cleanup_interval
    then record b { cleanup_interval = some interval; wakeup_event = true }
    else b

unfoldable pub conclude :
    SyncLocalBackend
    → RateLimitConfig
    → ℤ × ℤ
    → Result (Bool × Metadata × LocalStateCore)
    → Result RateLimitResult × SyncLocalBackend
conclude b config (now_mono, now_wall) (ok (allowed, metadata, core)) =
    (build_result config allowed metadata now_mono now_wall, record b { core = core })
conclude b config times (raise e) = (raise e, b)

unfoldable pub check_with :
    Scale
    → SyncLocalBackend
    → RateLimitAlgorithm
    → Text
    → RateLimitConfig
    → Option ℤ
    → ℤ
    → Result RateLimitResult × SyncLocalBackend
check_with s b algorithm key config now monotonic =
    let times = now_times b.core monotonic now in
    let updated = update_cleanup_interval b config.cleanup_interval in
    conclude updated config times (apply s updated.core algorithm key config times.0)

unfoldable pub check_and_increment :
    Scale
    → SyncLocalBackend
    → Text
    → RateLimitConfig
    → Option ℤ
    → ℤ
    → Result RateLimitResult × SyncLocalBackend
check_and_increment s b key config now monotonic = elim (algorithm_for s config.algorithm) [
  | ok algorithm ↦ check_with s b algorithm key config now monotonic
  | raise e ↦ (raise e, b)
]

unfoldable pub reset_key : SyncLocalBackend → Text → SyncLocalBackend
reset_key b key = record b { core = reset b.core key }

unfoldable pub get_metrics : SyncLocalBackend → Text → ℤ → Option AlgorithmState × SyncLocalBackend
get_metrics b key monotonic =
    let times = now_times b.core monotonic none in
    let (state, core) = metrics_snapshot b.core key times.0 in (state, record b { core = core })

-- Whether there is an interval to wait for.
abbrev pub has_interval : Option ℤ → Bool
has_interval none = false
has_interval (some interval) = ltb_ℤ (pos 0) interval

-- `_cleanup_expired`, which reads as that of `LocalBackend`.
abbrev pub sync_cleanup_expired : LocalStateCore → ℤ → LocalStateCore
sync_cleanup_expired core now_mono = cleanup_expired core now_mono

-- One round of `_cleanup_loop`: `woken` says whether the event was set before the interval was
-- over, `stopping` whether the stop event is set once the wait has ended.
unfoldable pub cleanup_round : SyncLocalBackend → Bool → Bool → ℤ → SyncLocalBackend
cleanup_round b woken stopping monotonic =
    if b.stop_event
    then record b { cleanup_thread = ended }
    else if has_interval b.cleanup_interval
    then if woken
      then record b { wakeup_event = false }
      else if stopping
      then record b { stop_event = true; cleanup_thread = ended }
      else record b { core = sync_cleanup_expired b.core monotonic }
    else record b { wakeup_event = false }
