-- ===== src/Backend/Local/Live.antt =====
-- The cleanup task of the local backend: what every operation keeps.
use rate_limit_patterns.Prelude.{
  ◌≡◌, refl, Bool, true, false, Option, none, some, arith, if◌then◌else◌,
}
use rate_limit_patterns.Prelude.Int.{ℤ, pos, ◌<ℤ◌, leb_ℤ, ltb_ℤ}
use rate_limit_patterns.Models.{RateLimitConfig, Result, ok, raise}
use rate_limit_patterns.Algorithms.Base.{Metadata}
use rate_limit_patterns.Backend.Core.{LocalStateCore}
use rate_limit_patterns.Backend.Local.{
  LocalBackend, Task, absent, running, cancelling, done, Wake, event, timeout, cancelled,
  update_cleanup_interval, start_cleanup_task, conclude, begin_close, end_close, close,
  cleanup_round, after_wake, has_interval, is_shorter,
}
use rate_limit_patterns.Backend.Local.Serves.{started}

-- A task that runs has not been told to stop.
abbrev pub RunsWhile : Task → Bool → Type 0
RunsWhile running is_running = is_running ≡ true
RunsWhile absent is_running = Unit
RunsWhile done is_running = Unit
RunsWhile cancelling is_running = Unit

-- An interval that is kept is positive.
abbrev pub IsPositive : Option ℤ → Type 0
IsPositive none = Unit
IsPositive (some interval) = pos 0 <ℤ interval

pub record IsLive (b : LocalBackend) : Type 0 where
  pub runs : RunsWhile b.cleanup_task b.is_running
  pub positive : IsPositive b.cleanup_interval

update_cleanup_interval-IsLive :
    (b : LocalBackend) (interval : ℤ) → IsLive b → IsLive (update_cleanup_interval b interval)
unfolding update_cleanup_interval
update_cleanup_interval-IsLive b interval live =
    go (leb_ℤ interval (pos 0)) refl (is_shorter interval b.cleanup_interval)
  where
    go :
        (refused : Bool)
        → leb_ℤ interval (pos 0) ≡ refused
        → (shorter : Bool)
        → IsLive (
            if refused
            then b
            else if shorter
            then record b { cleanup_interval = some interval; cleanup_event = true }
            else b)
    go true e shorter = live
    go false e true = record { runs = live.runs; positive = ground (arith, e) }
    go false e false = live

pub start_cleanup_task-IsLive : (b : LocalBackend) → IsLive b → IsLive (start_cleanup_task b)
unfolding start_cleanup_task
start_cleanup_task-IsLive b live = go b.cleanup_task
  where
    go :
        (task : Task)
        → IsLive (elim task [
          | running ↦ b
          | cancelling ↦ b
          | absent ↦ record b { is_running = true; cleanup_task = running }
          | done ↦ record b { is_running = true; cleanup_task = running }
        ])
    go running = live
    go cancelling = live
    go absent = record { runs = refl; positive = live.positive }
    go done = record { runs = refl; positive = live.positive }

pub begin_close-IsLive : (b : LocalBackend) → IsLive b → IsLive (begin_close b)
unfolding begin_close
begin_close-IsLive b live = go b.cleanup_task refl
  where
    go :
        (task : Task)
        → b.cleanup_task ≡ task
        → (let stopped = record b { is_running = false } in
            IsLive (elim task [
              | absent ↦ stopped
              | running ↦ record stopped { cleanup_task = cancelling }
              | cancelling ↦ stopped
              | done ↦ stopped
            ]))
    go absent e = record { runs = rw e tt; positive = live.positive }
    go running e = record { runs = tt; positive = live.positive }
    go cancelling e = record { runs = rw e tt; positive = live.positive }
    go done e = record { runs = rw e tt; positive = live.positive }

pub end_close-IsLive : (b : LocalBackend) → IsLive b → IsLive (end_close b)
unfolding end_close
end_close-IsLive b live = record { runs = tt; positive = live.positive }

pub close-IsLive : (b : LocalBackend) → IsLive b → IsLive (close b)
unfolding close
close-IsLive b live = end_close-IsLive (begin_close b) (begin_close-IsLive b live)

after_wake-IsLive :
    (b : LocalBackend) (timed : Bool) (wake : Wake) (monotonic : ℤ)
    → IsLive b
    → IsLive (after_wake b timed wake monotonic)
unfolding after_wake
after_wake-IsLive b timed event monotonic live = record {
  runs = live.runs;
  positive = live.positive;
}
after_wake-IsLive b false timeout monotonic live = live
after_wake-IsLive b true timeout monotonic live = record {
  runs = live.runs;
  positive = live.positive;
}
after_wake-IsLive b timed cancelled monotonic live = record { runs = tt; positive = live.positive }

pub cleanup_round-IsLive :
    (b : LocalBackend) (wake : Wake) (monotonic : ℤ)
    → IsLive b
    → IsLive (cleanup_round b wake monotonic)
unfolding cleanup_round
cleanup_round-IsLive b wake monotonic live = go b.is_running
  where
    go :
        (is_running : Bool)
        → IsLive (
            if is_running
            then after_wake b (has_interval b.cleanup_interval) wake monotonic
            else record b { cleanup_task = done })
    go true = after_wake-IsLive b (has_interval b.cleanup_interval) wake monotonic live
    go false = record { runs = tt; positive = live.positive }

pub conclude-IsLive :
    (b : LocalBackend) (config : RateLimitConfig) (times : ℤ × ℤ)
    (r : Result (Bool × Metadata × LocalStateCore))
    → IsLive b
    → IsLive (conclude b config times r).1
unfolding conclude
conclude-IsLive b config times (ok (allowed, m, core)) live = record {
  runs = live.runs;
  positive = live.positive;
}
conclude-IsLive b config times (raise e) live = live

pub started-IsLive : (b : LocalBackend) (interval : ℤ) → IsLive b → IsLive (started b interval)
started-IsLive b interval live = go (ltb_ℤ (pos 0) interval)
  where
    go :
        (asked : Bool)
        → (let updated = update_cleanup_interval b interval in
            IsLive (if asked then start_cleanup_task updated else updated))
    go true =
        start_cleanup_task-IsLive (update_cleanup_interval b interval)
          (update_cleanup_interval-IsLive b interval live)
    go false = update_cleanup_interval-IsLive b interval live
