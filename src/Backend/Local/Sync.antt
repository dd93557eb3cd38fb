-- ===== src/Backend/Local/Sync.antt =====
-- The async and the sync local backend agree, call by call.
use rate_limit_patterns.Prelude.{
  ◌≡◌, refl, ap, sym, Bool, true, false, Option, if◌then◌else◌, arith,
}
use mathlib.Core.Path.{subst}
use rate_limit_patterns.Prelude.Int.{ℤ, pos, ltb_ℤ}
use rate_limit_patterns.Prelude.Text.{Text}
use rate_limit_patterns.Models.{RateLimitConfig, RateLimitResult, Scale, Result, ok, raise}
use rate_limit_patterns.Algorithms.Base.{Metadata}
use rate_limit_patterns.Algorithms.Protocol.{RateLimitAlgorithm}
use rate_limit_patterns.Backend.Core.{LocalStateCore, algorithm_for, apply, now_times}
use rate_limit_patterns.Backend.SyncLocal
use rate_limit_patterns.Backend.SyncLocal.{SyncLocalBackend}
use rate_limit_patterns.Backend.Local.{
  LocalBackend, update_cleanup_interval, start_cleanup_task, conclude, check_with,
  check_and_increment,
}

-- The two backends hold the same store and wait for the same interval.
pub record Matches (b : LocalBackend) (c : SyncLocalBackend) : Type 0 where
  pub core : b.core ≡ c.core
  pub interval : b.cleanup_interval ≡ c.cleanup_interval

-- Both operations gave the same result, and left matching backends.
abbrev pub SameStep :
    Result RateLimitResult × LocalBackend → Result RateLimitResult × SyncLocalBackend → Type 0
SameStep (x, b) (y, c) = (x ≡ y) × Matches b c

module _ (b : LocalBackend) (c : SyncLocalBackend) (m : Matches b c) where
  update-Matches :
      (interval : ℤ)
      → Matches (update_cleanup_interval b interval) (SyncLocal.update_cleanup_interval c interval)
  unfolding update_cleanup_interval SyncLocal.update_cleanup_interval
  update-Matches interval = ground (arith, m.core, m.interval)

  start-Matches : Matches (start_cleanup_task b) c
  unfolding start_cleanup_task
  start-Matches = ground (arith, m.core, m.interval)

  conclude-SameStep :
      (config : RateLimitConfig) (times : ℤ × ℤ) (r : Result (Bool × Metadata × LocalStateCore))
      → SameStep (conclude b config times r) (SyncLocal.conclude c config times r)
  unfolding conclude SyncLocal.conclude
  conclude-SameStep config times (ok (allowed, metadata, core)) =
      (refl, record { core = refl; interval = m.interval })
  conclude-SameStep config times (raise e) = (refl, m)

-- The state after the start of the cleanup task, where the configuration asks for one.
module _ (s : Scale) (b : LocalBackend) (c : SyncLocalBackend) (m : Matches b c) where
  started-Matches : (starts : Bool) → Matches (if starts then start_cleanup_task b else b) c
  started-Matches true = start-Matches b c m
  started-Matches false = m

  applied-SameStep :
      (algorithm : RateLimitAlgorithm) (key : Text) (config : RateLimitConfig) (times : ℤ × ℤ)
      → SameStep
          (conclude b config times (apply s b.core algorithm key config times.0))
          (SyncLocal.conclude c config times (apply s c.core algorithm key config times.0))
  applied-SameStep algorithm key config times =
      subst
        (λ core.
          SameStep (conclude b config times (apply s core algorithm key config times.0))
            (SyncLocal.conclude c config times (apply s c.core algorithm key config times.0)))
        (sym m.core)
        (conclude-SameStep b c m config times (apply s c.core algorithm key config times.0))

module _ (s : Scale) (b : LocalBackend) (c : SyncLocalBackend) (m : Matches b c) where
  check_with-SameStep :
      (algorithm : RateLimitAlgorithm) (key : Text) (config : RateLimitConfig) (now : Option ℤ)
      (monotonic : ℤ)
      → SameStep
          (check_with s b algorithm key config now monotonic)
          (SyncLocal.check_with s c algorithm key config now monotonic)
  unfolding check_with SyncLocal.check_with
  check_with-SameStep algorithm key config now monotonic =
      let interval = config.cleanup_interval in
      let updated = update_cleanup_interval b interval in
      let updated' = SyncLocal.update_cleanup_interval c interval in
      let starts = ltb_ℤ (pos 0) interval in
      let started = if starts then start_cleanup_task updated else updated in
      subst
        (λ times.
          SameStep
            (conclude started config times (apply s started.core algorithm key config times.0))
            (SyncLocal.check_with s c algorithm key config now monotonic))
        (sym (ap (λ (core : LocalStateCore). now_times core monotonic now) m.core))
        (applied-SameStep s started updated'
          (started-Matches s updated updated' (update-Matches b c m interval) starts) algorithm key
          config (now_times c.core monotonic now))

  -- From matching backends, a check gives the same result or raises the same error on both, and
  -- leaves matching backends.
  pub check_and_increment-SameStep :
      (key : Text) (config : RateLimitConfig) (now : Option ℤ) (monotonic : ℤ)
      → SameStep
          (check_and_increment s b key config now monotonic)
          (SyncLocal.check_and_increment s c key config now monotonic)
  unfolding check_and_increment SyncLocal.check_and_increment
  check_and_increment-SameStep key config now monotonic = go (algorithm_for s config.algorithm)
    where
      go :
          (found : Result RateLimitAlgorithm)
          → SameStep
              (elim found [
                | ok algorithm ↦ check_with s b algorithm key config now monotonic
                | raise e ↦ (raise e, b)
              ])
              (elim found [
                | ok algorithm ↦ SyncLocal.check_with s c algorithm key config now monotonic
                | raise e ↦ (raise e, c)
              ])
      go (ok algorithm) = check_with-SameStep algorithm key config now monotonic
      go (raise e) = (refl, m)
