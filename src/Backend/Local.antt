-- ===== src/Backend/Local.antt =====
-- src/rate_limit_patterns/backend/local.py: `LocalBackend`, over the shared store. An `async with`
-- over one of the striped locks holds no `await`, so what it guards is one step. `hash(key)`, the
-- readings of `time.monotonic()` and the wake-ups of the event loop come in as arguments.
pub mod Sync
pub mod Entries
pub mod Sound
pub mod Serves
pub mod Live
pub mod Sweeping
use rate_limit_patterns.Prelude.{ℕ, ◌%◌, Bool, true, false, Option, none, some, if◌then◌else◌}
use rate_limit_patterns.Prelude.Int.{ℤ, pos, ltb_ℤ, leb_ℤ}
use rate_limit_patterns.Prelude.Text.{Text}
use rate_limit_patterns.Models.{RateLimitConfig, RateLimitResult, Scale, Result, ok, raise}
use rate_limit_patterns.Algorithms.Base.{Metadata}
use rate_limit_patterns.Algorithms.Protocol.{AlgorithmState, RateLimitAlgorithm}
use rate_limit_patterns.Backend.Core.{
  LocalStateCore, lock_stripes, algorithm_for, now_times, apply, build_result, reset,
  metrics_snapshot,
}
use rate_limit_patterns.Backend.Core.Cleanup.{cleanup_expired}

-- `_cleanup_task`: None, a task that has ended, one that runs, or one that runs no further but has
-- not yet ended, as `close` has cancelled it.
pub data Task : Type 0 where
  absent done running cancelling : Task

pub record LocalBackend : Type 0 where
  pub core : LocalStateCore
  pub cleanup_interval : Option ℤ
  pub cleanup_event : Bool
  pub cleanup_task : Task
  pub is_running : Bool

-- `_lock_for_key`: the index of the stripe.
unfoldable pub lock_for_key : (Text → ℕ) → Text → ℕ
lock_for_key hash key = hash key % lock_stripes

-- Whether an interval is to replace the one that is kept.
abbrev pub is_shorter : ℤ → Option ℤ → Bool
is_shorter interval none = true
is_shorter interval (some current) = ltb_ℤ interval current

unfoldable pub update_cleanup_interval : LocalBackend → ℤ → LocalBackend
update_cleanup_interval b interval =
    if leb_ℤ interval (pos 0)
    then b
    else if is_shorter interval b.cleanup_interval
    then record b { cleanup_interval = some interval; cleanup_event = true }
    else b

-- The second test, under `_init_lock`, reads what the first has read: nothing runs in between
-- that could start a task.
unfoldable pub start_cleanup_task : LocalBackend → LocalBackend
start_cleanup_task b = elim b.cleanup_task [
  | running ↦ b
  | cancelling ↦ b
  | absent ↦ record b { is_running = true; cleanup_task = running }
  | done ↦ record b { is_running = true; cleanup_task = running }
]

unfoldable pub initialize : LocalBackend → LocalBackend
initialize b = start_cleanup_task b

-- The result of a check and the backend after it, from the outcome of `apply`.
unfoldable pub conclude :
    LocalBackend
    → RateLimitConfig
    → ℤ × ℤ
    → Result (Bool × Metadata × LocalStateCore)
    → Result RateLimitResult × LocalBackend
conclude b config (now_mono, now_wall) (ok (allowed, metadata, core)) =
    (build_result config allowed metadata now_mono now_wall, record b { core = core })
conclude b config times (raise e) = (raise e, b)

-- The body of `check_and_increment` once the algorithm is known.
unfoldable pub check_with :
    Scale
    → LocalBackend
    → RateLimitAlgorithm
    → Text
    → RateLimitConfig
    → Option ℤ
    → ℤ
    → Result RateLimitResult × LocalBackend
check_with s b algorithm key config now monotonic =
    let times = now_times b.core monotonic now in
    let updated = update_cleanup_interval b config.cleanup_interval in
    let started =
      if ltb_ℤ (pos 0) config.cleanup_interval then start_cleanup_task updated else updated in
    conclude started config times (apply s started.core algorithm key config times.0)

unfoldable pub check_and_increment :
    Scale
    → LocalBackend
    → Text
    → RateLimitConfig
    → Option ℤ
    → ℤ
    → Result RateLimitResult × LocalBackend
check_and_increment s b key config now monotonic = elim (algorithm_for s config.algorithm) [
  | ok algorithm ↦ check_with s b algorithm key config now monotonic
  | raise e ↦ (raise e, b)
]

unfoldable pub reset_key : LocalBackend → Text → LocalBackend
reset_key b key = record b { core = reset b.core key }

unfoldable pub get_metrics : LocalBackend → Text → ℤ → Option AlgorithmState × LocalBackend
get_metrics b key monotonic =
    let times = now_times b.core monotonic none in
    let (state, core) = metrics_snapshot b.core key times.0 in (state, record b { core = core })

-- `close` up to its `await`: a task that has ended cannot be cancelled any more.
unfoldable pub begin_close : LocalBackend → LocalBackend
begin_close b =
    let stopped = record b { is_running = false } in
    elim b.cleanup_task [
      | absent ↦ stopped
      | running ↦ record stopped { cleanup_task = cancelling }
      | cancelling ↦ stopped
      | done ↦ stopped
    ]

-- `close` from its `await` on. Where another operation was run during that, the task may be a new one.
unfoldable pub end_close : LocalBackend → LocalBackend
end_close b = record b { cleanup_task = absent }

-- `close` where nothing but the end of the task comes during its `await`.
unfoldable pub close : LocalBackend → LocalBackend
close b = end_close (begin_close b)

-- How a wait of the cleanup loop ends: the event is set, the interval is over, or the task is
-- cancelled. A wait with no interval cannot time out.
pub data Wake : Type 0 where
  event timeout cancelled : Wake

-- Whether there is an interval to wait for.
abbrev pub has_interval : Option ℤ → Bool
has_interval none = false
has_interval (some interval) = ltb_ℤ (pos 0) interval

-- What a wake-up leads to.
unfoldable pub after_wake : LocalBackend → Bool → Wake → ℤ → LocalBackend
after_wake b timed event monotonic = record b { cleanup_event = false }
after_wake b false timeout monotonic = b
after_wake b true timeout monotonic = record b {
  cleanup_event = false;
  core = cleanup_expired b.core monotonic;
}
after_wake b timed cancelled monotonic = record b { cleanup_task = done }

-- One round of `_cleanup_loop`.
unfoldable pub cleanup_round : LocalBackend → Wake → ℤ → LocalBackend
cleanup_round b wake monotonic =
    if b.is_running
    then after_wake b (has_interval b.cleanup_interval) wake monotonic
    else record b { cleanup_task = done }
