-- ===== src/Backend/Core.antt =====
-- src/rate_limit_patterns/backend/_local_shared.py: `LocalStateCore`, the store of the local
-- backends.
pub mod Live
pub mod Idle
pub mod Total
pub mod Refinement
pub mod Cleanup
pub mod Sweep
pub mod Window
pub mod Told
use rate_limit_patterns.Prelude.{ℕ, ◌*◌, max, Bool, Option, none, some, List, ltb, if◌then◌else◌}
use rate_limit_patterns.Prelude.Int.{ℤ, pos, ◌+ℤ◌, ◌-ℤ◌, leb_ℤ}
use rate_limit_patterns.Prelude.Quotient.{ceil_div}
use rate_limit_patterns.Prelude.Text.{Text}
use rate_limit_patterns.Prelude.Dict.{Dict, get, insert, remove, keys}
use rate_limit_patterns.Models.{
  AlgorithmType, token_bucket, sliding_window, leaky_bucket, unsupported, is_sliding_window,
  RateLimitConfig, RateLimitResult, make_result, Scale, one, seconds, tokens_per_second, capacity,
  Result, ok, raise, value_error, ◌>>=◌,
}
use rate_limit_patterns.Algorithms.Base.{Metadata, Decision}
use rate_limit_patterns.Algorithms.Protocol.{
  AlgorithmState, RateLimitAlgorithm, token_bucket_algorithm, sliding_window_algorithm,
  leaky_bucket_algorithm,
}

abbrev pub lock_stripes : ℕ
lock_stripes = 64

-- `_LocalEntry`
pub record LocalEntry : Type 0 where
  pub state : AlgorithmState
  pub expires_at : ℤ

pub record LocalStateCore : Type 0 where
  pub state : Dict LocalEntry
  pub time_offset : ℤ

-- `now(override)` at a reading of `time.monotonic()`: the monotonic time and the wall time.
unfoldable pub now_times : LocalStateCore → ℤ → Option ℤ → ℤ × ℤ
now_times core monotonic none = (monotonic, core.time_offset +ℤ monotonic)
now_times core monotonic (some now) = (now -ℤ core.time_offset, now)

-- The live state of an entry: `none` where there is no entry or it has expired.
unfoldable pub live : Option LocalEntry → ℤ → Option AlgorithmState
live none now_mono = none
live (some entry) now_mono = if leb_ℤ entry.expires_at now_mono then none else some entry.state

unfoldable pub reset : LocalStateCore → Text → LocalStateCore
reset core key = record core { state = remove key core.state }

-- The copy of the state, `none` for the empty dictionary; an expired entry is evicted.
unfoldable pub metrics_snapshot : LocalStateCore → Text → ℤ → Option AlgorithmState × LocalStateCore
metrics_snapshot core key now_mono = elim (live (get key core.state) now_mono) [
  | none ↦ (none, record core { state = remove key core.state })
  | some state ↦ (some state, core)
]

unfoldable pub snapshot_keys : LocalStateCore → List Text
snapshot_keys core = keys core.state

unfoldable pub drop_if_expired : LocalStateCore → Text → ℤ → LocalStateCore
drop_if_expired core key now_mono = elim (get key core.state) [
  | none ↦ core
  | some entry ↦
      if leb_ℤ entry.expires_at now_mono
      then record core { state = remove key core.state }
      else core
]

-- `_to_wall_time`
unfoldable pub to_wall_time : Option ℤ → ℤ → ℤ → Option ℤ
to_wall_time none now_mono now_wall = none
to_wall_time (some reset_at) now_mono now_wall = some (now_wall +ℤ (reset_at -ℤ now_mono))

unfoldable pub build_result : RateLimitConfig → Bool → Metadata → ℤ → ℤ → Result RateLimitResult
build_result config allowed metadata now_mono now_wall =
    make_result allowed metadata.remaining config.limit metadata.retry_after
      (to_wall_time (some metadata.reset_at) now_mono now_wall) metadata.request_count

module _ (s : Scale) where
  -- `_algorithms.get(config.algorithm)`, and the ValueError where there is none.
  unfoldable pub algorithm_for : AlgorithmType → Result RateLimitAlgorithm
  algorithm_for token_bucket = ok (token_bucket_algorithm s)
  algorithm_for sliding_window = ok (sliding_window_algorithm s)
  algorithm_for leaky_bucket = ok (leaky_bucket_algorithm s)
  algorithm_for (unsupported name) = raise value_error

  -- `_ttl_for`, in ticks.
  unfoldable pub ttl_for : RateLimitConfig → ℕ
  ttl_for config =
      let rate = tokens_per_second s config in
      let ttl =
        if is_sliding_window config.algorithm
        then seconds s config.period
        else if ltb 0 rate
        then ceil_div (capacity config * one s) rate
        else seconds s 1 in
      max (seconds s 1) ttl

  -- The state that `apply` hands to the algorithm.
  unfoldable pub starting_state :
      RateLimitAlgorithm → Option LocalEntry → RateLimitConfig → ℤ → AlgorithmState
  starting_state algorithm entry config now_mono = elim (live entry now_mono) [
    | none ↦ algorithm.initial_state config
    | some state ↦ state
  ]

  -- The write after `compute`. Where that has raised, nothing is written.
  unfoldable pub finish :
      LocalStateCore
      → Text
      → RateLimitConfig
      → ℤ
      → Result (Decision AlgorithmState)
      → Result (Bool × Metadata × LocalStateCore)
  finish core key config now_mono computed = do
    (allowed, new_state, metadata) ← computed
    let expires_at = now_mono +ℤ pos (ttl_for config)
    let entry : LocalEntry = record { state = new_state; expires_at = expires_at }
    ok (allowed, metadata, record core { state = insert key entry core.state })

  -- One check-and-increment: the decision, its metadata and the new store.
  unfoldable pub apply :
      LocalStateCore
      → RateLimitAlgorithm
      → Text
      → RateLimitConfig
      → ℤ
      → Result (Bool × Metadata × LocalStateCore)
  apply core algorithm key config now_mono =
      let state = starting_state algorithm (get key core.state) config now_mono in
      finish core key config now_mono (algorithm.compute state config now_mono)
