-- ===== src/Backend/Local/Serves.antt =====
-- A local backend answers every check, whatever happens to it in between.
use mathlib.Core.Path.{subst}
use rate_limit_patterns.Prelude.{
  ◌≡◌, ap, sym, ◌∙◌, Bool-cases, inl, inr, Option, none, some, List, [], ◌∷◌, if◌then◌else◌,
}
use rate_limit_patterns.Prelude.Int.{ℤ, pos, ◌≤ℤ◌, ltb_ℤ}
use rate_limit_patterns.Prelude.Lists.{All}
use rate_limit_patterns.Prelude.Text.{Text}
use rate_limit_patterns.Prelude.Dict.{get}
use rate_limit_patterns.Models.{RateLimitConfig, RateLimitResult, Scale, Result}
use rate_limit_patterns.Backend.Core.{now_times, apply, build_result, reset}
use rate_limit_patterns.Backend.Local.{
  LocalBackend, Wake, initialize, update_cleanup_interval, start_cleanup_task, conclude, check_with,
  check_and_increment, reset_key, get_metrics, begin_close, end_close, close, cleanup_round,
}
use rate_limit_patterns.Backend.Local.Entries.{
  remove-Shrinks, metrics_snapshot-Shrinks, cleanup_round-Shrinks, begin_close-core, end_close-core,
  close-core, initialize-core, update_cleanup_interval-core, start_cleanup_task-core,
}
use rate_limit_patterns.Backend.Local.Sound.{
  IsServed, Answers, IsSound, build_result-Answers, apply-IsSound,
}

-- What happens to a backend: a check with the caller's time or without, a reset, a read of the
-- metrics, `initialize`, `close` as a whole or either half of one, or a round of the cleanup loop.
pub data Operation : Type 0 where
  check : Text → Option ℤ → ℤ → Operation
  clear : Text → Operation
  read : Text → ℤ → Operation
  start stop begin_stop end_stop : Operation
  round : Wake → ℤ → Operation

-- The backend after the start of the cleanup task that a check asks for.
abbrev pub started : LocalBackend → ℤ → LocalBackend
started b interval =
    let updated = update_cleanup_interval b interval in
    if ltb_ℤ (pos 0) interval then start_cleanup_task updated else updated

started-core : (b : LocalBackend) (interval : ℤ) → (started b interval).core ≡ b.core
started-core b interval = elim (Bool-cases (ltb_ℤ (pos 0) interval)) [
  | inl asked ↦ rw asked (
      start_cleanup_task-core (update_cleanup_interval b interval)
      ∙ update_cleanup_interval-core b interval)
  | inr not_asked ↦ rw not_asked (update_cleanup_interval-core b interval)
]

module _ (s : Scale) (configs : Text → RateLimitConfig) where
  -- The monotonic time of a check.
  abbrev pub time_of : LocalBackend → Option ℤ → ℤ → ℤ
  time_of b now monotonic = (now_times b.core monotonic now).0

  check-Answers :
      (served : (key : Text) → IsServed s (configs key)) (last : ℤ) (b : LocalBackend) (key : Text)
      (now : Option ℤ) (monotonic : ℤ)
      → IsSound s configs last b.core
      → last ≤ℤ time_of b now monotonic
      → (let (outcome, b') = check_and_increment s b key (configs key) now monotonic in
          Answers (configs key) outcome × IsSound s configs (time_of b now monotonic) b'.core)
  unfolding check_and_increment check_with conclude
  check-Answers served last b key now monotonic sound le =
      let config = configs key in
      let t = time_of b now monotonic in
      let algorithm = (served key).algorithm in
      let times = now_times b.core monotonic now in
      let (d, core', done, within, sound') =
        apply-IsSound s configs served last t b.core key sound le in
      let b' = started b config.cleanup_interval in
      let concluded : conclude b' config times (apply s b'.core algorithm key config t)
          ≡ (build_result config d.0 d.2 t times.1, record b' { core = core' }) =
        ap (λ core. conclude b' config times (apply s core algorithm key config t))
          (started-core b config.cleanup_interval)
        ∙ ap (conclude b' config times) done in
      rw ((served key).known, check_and_increment)
        (subst (λ r. Answers config r.0 × IsSound s configs t r.1.core) (sym concluded)
          (build_result-Answers config d.0 d.2 t times.1 within, sound'))

  -- What the checks among these operations are told.
  unfoldable pub outcomes : LocalBackend → List Operation → List (Text × Result RateLimitResult)
  outcomes b [] = []
  outcomes b (check key now monotonic ∷ rest) =
      let (outcome, b') = check_and_increment s b key (configs key) now monotonic in
      (key, outcome) ∷ outcomes b' rest
  outcomes b (clear key ∷ rest) = outcomes (reset_key b key) rest
  outcomes b (read key monotonic ∷ rest) = outcomes (get_metrics b key monotonic).1 rest
  outcomes b (start ∷ rest) = outcomes (initialize b) rest
  outcomes b (stop ∷ rest) = outcomes (close b) rest
  outcomes b (begin_stop ∷ rest) = outcomes (begin_close b) rest
  outcomes b (end_stop ∷ rest) = outcomes (end_close b) rest
  outcomes b (round wake monotonic ∷ rest) = outcomes (cleanup_round b wake monotonic) rest

  -- The times of the checks never decrease.
  unfoldable pub ClockRuns : ℤ → LocalBackend → List Operation → Type 0
  ClockRuns last b [] = Unit
  ClockRuns last b (check key now monotonic ∷ rest) =
      (last ≤ℤ time_of b now monotonic)
      × ClockRuns (time_of b now monotonic)
          (check_and_increment s b key (configs key) now monotonic).1 rest
  ClockRuns last b (clear key ∷ rest) = ClockRuns last (reset_key b key) rest
  ClockRuns last b (read key monotonic ∷ rest) = ClockRuns last (get_metrics b key monotonic).1 rest
  ClockRuns last b (start ∷ rest) = ClockRuns last (initialize b) rest
  ClockRuns last b (stop ∷ rest) = ClockRuns last (close b) rest
  ClockRuns last b (begin_stop ∷ rest) = ClockRuns last (begin_close b) rest
  ClockRuns last b (end_stop ∷ rest) = ClockRuns last (end_close b) rest
  ClockRuns last b (round wake monotonic ∷ rest) =
      ClockRuns last (cleanup_round b wake monotonic) rest

  outcomes-IsSound :
      (served : (key : Text) → IsServed s (configs key)) (last : ℤ) (b : LocalBackend)
      (operations : List Operation)
      → IsSound s configs last b.core
      → ClockRuns last b operations
      → All (λ o. Answers (configs o.0) o.1) (outcomes b operations)
  unfolding outcomes ClockRuns reset_key reset get_metrics
  outcomes-IsSound served last b [] sound h = tt
  outcomes-IsSound served last b (check key now monotonic ∷ rest) sound h =
      let (answers, sound') = check-Answers served last b key now monotonic sound h.0 in
      (
        answers,
        outcomes-IsSound served (time_of b now monotonic)
            (check_and_increment s b key (configs key) now monotonic).1 rest sound' h.1,
      )
  outcomes-IsSound served last b (clear key ∷ rest) sound h =
      outcomes-IsSound served last (reset_key b key) rest
        (λ k entry e. sound k entry (remove-Shrinks b.core key k entry e)) h
  outcomes-IsSound served last b (read key monotonic ∷ rest) sound h =
      outcomes-IsSound served last (get_metrics b key monotonic).1 rest
        (λ k entry e. sound k entry (metrics_snapshot-Shrinks b.core key _ k entry e)) h
  outcomes-IsSound served last b (start ∷ rest) sound h =
      outcomes-IsSound served last (initialize b) rest (rw (initialize-core b) sound) h
  outcomes-IsSound served last b (stop ∷ rest) sound h =
      outcomes-IsSound served last (close b) rest (rw (close-core b) sound) h
  outcomes-IsSound served last b (begin_stop ∷ rest) sound h =
      outcomes-IsSound served last (begin_close b) rest (rw (begin_close-core b) sound) h
  outcomes-IsSound served last b (end_stop ∷ rest) sound h =
      outcomes-IsSound served last (end_close b) rest (rw (end_close-core b) sound) h
  outcomes-IsSound served last b (round wake monotonic ∷ rest) sound h =
      outcomes-IsSound served last (cleanup_round b wake monotonic) rest
        (λ k entry e. sound k entry (cleanup_round-Shrinks b wake monotonic k entry e)) h

  -- On a backend with an empty store, whatever resets, reads, rounds of the cleanup loop, starts and
  -- stops, or halves of a stop, are mixed into them: every check gives a result, with the limit of its key's configuration
  -- and no fewer than 0 and no more remaining calls than the configuration lets through at once. It
  -- is asked that the configurations are valid and known, that a key keeps its own, and that the times
  -- of the checks never decrease.
  pub outcomes-Answers :
      ((key : Text) → IsServed s (configs key))
      → (start_time : ℤ) (b : LocalBackend) (operations : List Operation) → b.core.state ≡ []
      → ClockRuns start_time b operations
      → All (λ o. Answers (configs o.0) o.1) (outcomes b operations)
  unfolding get
  outcomes-Answers served start_time b operations empty h =
      outcomes-IsSound served start_time b operations
        (λ key entry e. let gone : none ≡ some entry = rw empty at e in cc) h
