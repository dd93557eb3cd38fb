-- ===== src/Backend/SyncRedis.antt =====
-- src/rate_limit_patterns/backend/sync.py: `SyncRedisBackend`, over a client that is handed in.
pub mod Agreement
use rate_limit_patterns.Prelude.{ℕ, Option, none, some, List, not, if◌then◌else◌}
use rate_limit_patterns.Prelude.Int.{ℤ}
use rate_limit_patterns.Prelude.Text.{Text}
use rate_limit_patterns.Prelude.Dict.{Dict, get}
use rate_limit_patterns.Models.{
  AlgorithmType, RateLimitConfig, RateLimitResult, backend_unavailable, backend_configuration,
  Scale, Result, ok, raise,
}
use rate_limit_patterns.Backend.RedisShared.{
  algorithm_name, lua_scripts, build_script_call, parse_script_result, is_missing,
  iter_missing_scripts, Arg, decode_key_type, Metric,
}
use rate_limit_patterns.Backend.Scripts.{
  reply, fails, RedisProtocol, load_scripts, reload_scripts, evalsha_with_retry,
}
use rate_limit_patterns.Backend.Redis.{apply_prefix, is_among, metrics_by_type}

-- The attributes; `server` is what the client talks to.
pub record SyncRedisBackend (W : Type 0) : Type 0 where
  pub key_prefix : Text
  pub script_shas : Dict Text
  pub server : W

-- `_apply_prefix`, which reads as that of `RedisBackend`.
abbrev pub sync_apply_prefix : Text → Text → Text
sync_apply_prefix key_prefix key = apply_prefix key_prefix key

module _ {W : Type 0} (client : RedisProtocol W) where
  module _ (load_lua_script : Text → Text) where
    -- `_reload_scripts` and `_evalsha_with_retry`, which read as those of `RedisBackend`, word for
    -- word.
    abbrev pub sync_reload_scripts : W → Result (Unit {0}) × Dict Text × W
    sync_reload_scripts w = reload_scripts client load_lua_script w

    abbrev pub sync_evalsha_with_retry :
        Text
        → AlgorithmType
        → List Text
        → List Arg
        → Dict Text
        → W
        → Result (List ℤ) × Dict Text × W
    sync_evalsha_with_retry sha algorithm keys args shas w =
        evalsha_with_retry client load_lua_script sha algorithm keys args shas w

    unfoldable pub initialize : SyncRedisBackend W → Result (Unit {0}) × SyncRedisBackend W
    initialize b =
        let (loaded, shas, w) =
          load_scripts client (iter_missing_scripts load_lua_script b.script_shas) b.script_shas
            b.server in
        (loaded, record b { script_shas = shas; server = w })

    module _ (s : Scale) where
      -- The check from the look-up of the SHA on.
      unfoldable pub check_loaded :
          Text
          → RateLimitConfig
          → Option ℤ
          → SyncRedisBackend W
          → Result RateLimitResult × SyncRedisBackend W
      check_loaded key config now b = elim (get (algorithm_name config.algorithm) b.script_shas) [
        | none ↦ (raise backend_configuration, b)
        | some sha ↦ elim (build_script_call s key config now (sync_apply_prefix b.key_prefix)) [
          | raise e ↦ (raise e, b)
          | ok script_call ↦
              let (answered, shas, w) =
                sync_evalsha_with_retry sha config.algorithm script_call.keys script_call.args
                  b.script_shas b.server in
              let b' = record b { script_shas = shas; server = w } in
              elim answered [
                | ok xs ↦ (parse_script_result s xs config, b')
                | raise e ↦ (raise e, b')
              ]
        ]
      ]

      unfoldable pub check_and_increment :
          SyncRedisBackend W
          → Text
          → RateLimitConfig
          → Option ℤ
          → Result RateLimitResult × SyncRedisBackend W
      check_and_increment b key config now =
          let name = algorithm_name config.algorithm in
          if not (is_among name lua_scripts)
          then (raise backend_configuration, b)
          else if is_missing b.script_shas name
          then (let (initialized, b') = initialize b in
              elim initialized [
                | ok done ↦ check_loaded key config now b'
                | raise e ↦ (raise e, b')
              ])
          else check_loaded key config now b

  unfoldable pub reset : SyncRedisBackend W → Text → Result (Unit {0}) × SyncRedisBackend W
  reset b key =
      let (deleted, w) = client.delete b.server (sync_apply_prefix b.key_prefix key) in
      elim deleted [
        | reply n ↦ (ok tt, record b { server = w })
        | fails e ↦ (raise backend_unavailable, record b { server = w })
      ]

  -- `float` reads a field of the hash, `decode` reads UTF-8.
  unfoldable pub get_metrics :
      (Text → ℕ)
      → (List ℕ → Text)
      → SyncRedisBackend W
      → Text
      → Result (List (Text × Metric)) × SyncRedisBackend W
  get_metrics float decode b key =
      let full_key = sync_apply_prefix b.key_prefix key in
      let (typed, w) = client.key_type b.server full_key in
      elim typed [
        | fails e ↦ (raise backend_unavailable, record b { server = w })
        | reply key_type ↦
            let (metrics, w') =
              metrics_by_type float client full_key (decode_key_type decode key_type) w in
            (metrics, record b { server = w' })
      ]

-- `close`, with the `close` of the client where it has one.
unfoldable pub close : {W : Type 0} → Option (W → W) → SyncRedisBackend W → SyncRedisBackend W
close closer b = elim closer [ none ↦ b | some closes ↦ record b { server = closes b.server } ]
