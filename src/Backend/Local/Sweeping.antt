-- ===== src/Backend/Local/Sweeping.antt =====
-- The cleanup task of the local backend: a check with a positive interval has the store swept.
use mathlib.Core.Path.{subst}
use rate_limit_patterns.Prelude.{
  ◌≡◌, ◌≢◌, refl, ap, sym, ◌∙◌, Bool, Bool-cases, inl, inr, true, false, Option, none, some, List,
  [], ◌∷◌, arith, if◌then◌else◌,
}
use rate_limit_patterns.Prelude.Int.{ℤ, pos, ◌≤ℤ◌, ◌<ℤ◌, ltb_ℤ}
use rate_limit_patterns.Prelude.Text.{Text}
use rate_limit_patterns.Models.{RateLimitConfig, RateLimitResult, Scale, Result, ok, raise}
use rate_limit_patterns.Algorithms.Base.{Metadata}
use rate_limit_patterns.Algorithms.Protocol.{RateLimitAlgorithm}
use rate_limit_patterns.Backend.Core.{LocalStateCore, algorithm_for, now_times, apply}
use rate_limit_patterns.Backend.Core.Cleanup.{cleanup_expired}
use rate_limit_patterns.Backend.Local.{
  LocalBackend, absent, running, cancelling, done, timeout, initialize, update_cleanup_interval,
  start_cleanup_task, Task, conclude, check_with, check_and_increment, reset_key, get_metrics,
  begin_close, end_close, close, cleanup_round, after_wake, has_interval, is_shorter,
}
use rate_limit_patterns.Backend.Local.Serves.{
  Operation, check, clear, read, start, stop, begin_stop, end_stop, round, started,
}
use rate_limit_patterns.Backend.Local.Live.{
  RunsWhile, IsPositive, IsLive, start_cleanup_task-IsLive, begin_close-IsLive, end_close-IsLive,
  close-IsLive, cleanup_round-IsLive, conclude-IsLive, started-IsLive,
}

-- The task runs with an interval of at most this, and sweeps the store whenever that is over.
pub record Sweeps (b : LocalBackend) (interval : ℤ) : Type 0 where
  pub runs : b.cleanup_task ≡ running
  pub shortest : ℤ
  pub waits : b.cleanup_interval ≡ some shortest
  pub at_most : shortest ≤ℤ interval
  pub sweeps :
      (monotonic : ℤ)
      → cleanup_round b timeout monotonic
        ≡ record b { cleanup_event = false; core = cleanup_expired b.core monotonic }

-- The shorter of the two is kept.
kept_interval :
    (interval : ℤ) (current : Option ℤ)
    → (shortest : ℤ) × ((if is_shorter interval current then some interval else current)
        ≡ some shortest)
      × (shortest ≤ℤ interval)
kept_interval interval none = (interval, refl, omega arith)
kept_interval interval (some current) = elim (Bool-cases (ltb_ℤ interval current)) [
  | inl shorter ↦ (interval, rw shorter refl, omega arith)
  | inr longer ↦ (current, rw longer refl, ground (arith, longer))
]

update_cleanup_interval-interval :
    (b : LocalBackend) (interval : ℤ)
    → pos 0 <ℤ interval
    → (update_cleanup_interval b interval).cleanup_interval
      ≡ (if is_shorter interval b.cleanup_interval then some interval else b.cleanup_interval)
unfolding update_cleanup_interval
update_cleanup_interval-interval b interval h = ground arith

start_cleanup_task-runs :
    (b : LocalBackend)
    → b.cleanup_task ≢ cancelling
    → ((start_cleanup_task b).cleanup_task ≡ running)
      × ((start_cleanup_task b).cleanup_interval ≡ b.cleanup_interval)
unfolding start_cleanup_task
start_cleanup_task-runs b h = go b.cleanup_task refl
  where
    go :
        (task : Task)
        → b.cleanup_task ≡ task
        → (let started : LocalBackend = elim task [
          | running ↦ b
          | cancelling ↦ b
          | absent ↦ record b { is_running = true; cleanup_task = running }
          | done ↦ record b { is_running = true; cleanup_task = running }
        ] in
            (started.cleanup_task ≡ running) × (started.cleanup_interval ≡ b.cleanup_interval))
    go running e = (e, refl)
    go cancelling e = absurd (h e)
    go absent e = (refl, refl)
    go done e = (refl, refl)

update_cleanup_interval-task :
    (b : LocalBackend) (interval : ℤ)
    → (update_cleanup_interval b interval).cleanup_task ≡ b.cleanup_task
unfolding update_cleanup_interval
update_cleanup_interval-task b interval = ground arith

-- A positive interval that is asked for is kept, or a shorter one is.
started-runs :
    (b : LocalBackend) (interval : ℤ)
    → pos 0 <ℤ interval
    → b.cleanup_task ≢ cancelling
    → ((started b interval).cleanup_task ≡ running)
      × (shortest : ℤ) × ((started b interval).cleanup_interval ≡ some shortest)
      × (shortest ≤ℤ interval)
started-runs b interval h settled =
    let (shortest, kept, le) = kept_interval interval b.cleanup_interval in
    let (runs, same) =
      start_cleanup_task-runs (update_cleanup_interval b interval)
        (λ e. settled (sym (update_cleanup_interval-task b interval) ∙ e)) in
    let asked : ltb_ℤ (pos 0) interval ≡ true = ground arith in
    rw asked (runs, shortest, same ∙ update_cleanup_interval-interval b interval h ∙ kept, le)

-- Where the task runs and has an interval, a timed-out wait sweeps the store.
timeout-sweeps :
    (b : LocalBackend) (interval monotonic : ℤ)
    → IsLive b
    → b.cleanup_task ≡ running
    → b.cleanup_interval ≡ some interval
    → cleanup_round b timeout monotonic
      ≡ record b { cleanup_event = false; core = cleanup_expired b.core monotonic }
unfolding cleanup_round after_wake
timeout-sweeps b interval monotonic live e f =
    let runs : b.is_running ≡ true = subst (λ task. RunsWhile task b.is_running) e live.runs in
    let positive : pos 0 <ℤ interval = subst IsPositive f live.positive in
    let timed : has_interval b.cleanup_interval ≡ true = rw f (ground arith) in
    ap
      (λ (is_running : Bool).
        if is_running
        then after_wake b (has_interval b.cleanup_interval) timeout monotonic
        else record b { cleanup_task = done })
      runs
    ∙ ap (λ (timed : Bool). after_wake b timed timeout monotonic) timed

conclude-keeps :
    (b : LocalBackend) (config : RateLimitConfig) (times : ℤ × ℤ)
    (r : Result (Bool × Metadata × LocalStateCore))
    → ((conclude b config times r).1.cleanup_task ≡ b.cleanup_task)
      × ((conclude b config times r).1.cleanup_interval ≡ b.cleanup_interval)
unfolding conclude
conclude-keeps b config times (ok (allowed, m, core)) = (refl, refl)
conclude-keeps b config times (raise e) = (refl, refl)

module _ (s : Scale) (configs : Text → RateLimitConfig) where
  check_and_increment-IsLive :
      (b : LocalBackend) (key : Text) (now : Option ℤ) (monotonic : ℤ)
      → IsLive b
      → IsLive (check_and_increment s b key (configs key) now monotonic).1
  unfolding check_and_increment check_with
  check_and_increment-IsLive b key now monotonic live = go (algorithm_for s (configs key).algorithm)
    where
      go :
          (found : Result RateLimitAlgorithm)
          → IsLive
              (elim found
                as (λ (x : Result RateLimitAlgorithm). Result RateLimitResult × LocalBackend) [
                  | ok algorithm ↦ check_with s b algorithm key (configs key) now monotonic
                  | raise e ↦ (raise e, b)
                ]).1
      go (ok algorithm) =
          conclude-IsLive (started b (configs key).cleanup_interval) (configs key) _ _
            (started-IsLive b (configs key).cleanup_interval live)
      go (raise e) = live

  -- The backend after these operations.
  unfoldable pub after : LocalBackend → List Operation → LocalBackend
  after b [] = b
  after b (check key now monotonic ∷ rest) =
      after (check_and_increment s b key (configs key) now monotonic).1 rest
  after b (clear key ∷ rest) = after (reset_key b key) rest
  after b (read key monotonic ∷ rest) = after (get_metrics b key monotonic).1 rest
  after b (start ∷ rest) = after (initialize b) rest
  after b (stop ∷ rest) = after (close b) rest
  after b (begin_stop ∷ rest) = after (begin_close b) rest
  after b (end_stop ∷ rest) = after (end_close b) rest
  after b (round wake monotonic ∷ rest) = after (cleanup_round b wake monotonic) rest

  after-IsLive :
      (b : LocalBackend) (operations : List Operation) → IsLive b → IsLive (after b operations)
  unfolding after initialize reset_key get_metrics
  after-IsLive b [] live = live
  after-IsLive b (check key now monotonic ∷ rest) live =
      after-IsLive (check_and_increment s b key (configs key) now monotonic).1 rest
        (check_and_increment-IsLive b key now monotonic live)
  after-IsLive b (clear key ∷ rest) live =
      after-IsLive (reset_key b key) rest (record { runs = live.runs; positive = live.positive })
  after-IsLive b (read key monotonic ∷ rest) live =
      after-IsLive (get_metrics b key monotonic).1 rest
        (record { runs = live.runs; positive = live.positive })
  after-IsLive b (start ∷ rest) live =
      after-IsLive (start_cleanup_task b) rest (start_cleanup_task-IsLive b live)
  after-IsLive b (stop ∷ rest) live = after-IsLive (close b) rest (close-IsLive b live)
  after-IsLive b (begin_stop ∷ rest) live =
      after-IsLive (begin_close b) rest (begin_close-IsLive b live)
  after-IsLive b (end_stop ∷ rest) live = after-IsLive (end_close b) rest (end_close-IsLive b live)
  after-IsLive b (round wake monotonic ∷ rest) live =
      after-IsLive (cleanup_round b wake monotonic) rest
        (cleanup_round-IsLive b wake monotonic live)

  -- Whatever has happened to a backend that started with no task and no interval, stops and halves of
  -- a stop included: unless a stop waits for the task that it has cancelled to end, after a check of a
  -- known algorithm with a positive interval the cleanup task runs, it waits for this interval or for
  -- a shorter one, and each wait that times out sweeps the store.
  pub check_and_increment-Sweeps :
      (b : LocalBackend) (operations : List Operation)
      → b.cleanup_task ≡ absent
      → b.cleanup_interval ≡ none
      → (key : Text) (now : Option ℤ) (monotonic : ℤ) (algorithm : RateLimitAlgorithm)
      → algorithm_for s (configs key).algorithm ≡ ok algorithm
      → pos 0 <ℤ (configs key).cleanup_interval
      → (after b operations).cleanup_task ≢ cancelling
      → Sweeps
          (check_and_increment s (after b operations) key (configs key) now monotonic).1
          (configs key).cleanup_interval
  unfolding check_and_increment check_with
  check_and_increment-Sweeps b operations no_task no_interval key now monotonic algorithm known h
        settled =
      let config = configs key in
      let b' = after b operations in
      let new : IsLive b = record { runs = rw no_task tt; positive = rw no_interval tt } in
      let ready = started b' config.cleanup_interval in
      let times = now_times b'.core monotonic now in
      let applied = apply s ready.core algorithm key config times.0 in
      let checked = (conclude ready config times applied).1 in
      let (same_task, same_interval) = conclude-keeps ready config times applied in
      let (runs, shortest, waits, le) = started-runs b' config.cleanup_interval h settled in
      let live : IsLive checked =
        conclude-IsLive ready config times applied
          (started-IsLive b' config.cleanup_interval (after-IsLive b operations new)) in
      rw (known, check_and_increment)
        (record {
          runs = same_task ∙ runs;
          shortest = shortest;
          waits = same_interval ∙ waits;
          at_most = le;
          sweeps = λ m.
              timeout-sweeps checked shortest m live (same_task ∙ runs) (same_interval ∙ waits);
        })
