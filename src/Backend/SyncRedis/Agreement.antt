-- ===== src/Backend/SyncRedis/Agreement.antt =====
-- The sync Redis backend against the async one.
use mathlib.Core.Path.{subst}
use rate_limit_patterns.Prelude.{
  ◌≡◌, refl, sym, ap, ◌∙◌, Bool, true, false, not, Option, none, some, List, if◌then◌else◌,
}
use rate_limit_patterns.Prelude.Int.{ℤ}
use rate_limit_patterns.Prelude.Text.{Text}
use rate_limit_patterns.Prelude.Dict.{Dict, get}
use rate_limit_patterns.Models.{
  RateLimitConfig, RateLimitResult, backend_configuration, Scale, Result, ok, raise,
}
use rate_limit_patterns.Backend.RedisShared.{
  algorithm_name, lua_scripts, ScriptCall, build_script_call, parse_script_result, is_missing,
  iter_missing_scripts,
}
use rate_limit_patterns.Backend.Scripts.{RedisProtocol, load_scripts, evalsha_with_retry}
use rate_limit_patterns.Backend.Redis
use rate_limit_patterns.Backend.Redis.{RedisBackend, apply_prefix, is_among}
use rate_limit_patterns.Backend.Redis.Serves.{validate_call_plain, ensure_redis-connected}
use rate_limit_patterns.Backend.SyncRedis.{
  SyncRedisBackend, initialize, check_loaded, check_and_increment,
}

-- The sync backend with the prefix, the SHAs and the server of an async one.
abbrev pub sync_of : {W : Type 0} → RedisBackend W → SyncRedisBackend W
sync_of b = record { key_prefix = b.key_prefix; script_shas = b.script_shas; server = b.server }

-- The outcome, beside the backend that it leaves.
abbrev pub and_sync : {W T : Type 0} → Result T × RedisBackend W → Result T × SyncRedisBackend W
and_sync (outcome, b) = (outcome, sync_of b)

module _ {W : Type 0} (client : RedisProtocol W) (load_lua_script : Text → Text) (s : Scale)
    (key : Text) (config : RateLimitConfig) (now : Option ℤ) where
  -- A call that has been answered, or has failed.
  read_answer :
      Result (List ℤ) × Dict Text × W
      → SyncRedisBackend W
      → Result RateLimitResult × SyncRedisBackend W
  read_answer (answered, shas, w) b =
      let b' = record b { script_shas = shas; server = w } in
      elim answered [ ok xs ↦ (parse_script_result s xs config, b') | raise e ↦ (raise e, b') ]

  run_call_sync :
      (b : RedisBackend W) (r : Result (List ℤ) × Dict Text × W)
      → read_answer r (sync_of b)
        ≡ and_sync (
            let b' : RedisBackend W = record b { script_shas = r.1; server = r.2 } in
            let out : Result RateLimitResult × RedisBackend W = elim r.0 [
              | ok xs ↦ (parse_script_result s xs config, b')
              | raise e ↦ (raise e, b')
            ] in
            out)
  unfolding read_answer
  run_call_sync b (ok xs, shas, w) = refl
  run_call_sync b (raise e, shas, w) = refl

  check_loaded_sync :
      (b : RedisBackend W)
      → b.cluster_mode ≡ false
      → check_loaded client load_lua_script s key config now (sync_of b)
        ≡ and_sync (Redis.check_loaded client load_lua_script s key config now b)
  unfolding check_loaded Redis.check_loaded Redis.run_call read_answer
  check_loaded_sync b plain =
      go (get (algorithm_name config.algorithm) b.script_shas)
        (build_script_call s key config now (apply_prefix b.key_prefix))
    where
      ask : Text → ScriptCall → Result (List ℤ) × Dict Text × W
      ask sha script_call =
          evalsha_with_retry client load_lua_script sha config.algorithm script_call.keys
            script_call.args b.script_shas b.server

      go :
          (found : Option Text) (built : Result ScriptCall)
          → (let out : Result RateLimitResult × SyncRedisBackend W = elim found [
            | none ↦ (raise backend_configuration, sync_of b)
            | some sha ↦ elim built [
              | raise e ↦ (raise e, sync_of b)
              | ok script_call ↦ read_answer (ask sha script_call) (sync_of b)
            ]
          ] in
              out)
            ≡ and_sync (
                let out : Result RateLimitResult × RedisBackend W = elim found [
                  | none ↦ (raise backend_configuration, b)
                  | some sha ↦ elim built [
                    | raise e ↦ (raise e, b)
                    | ok script_call ↦ elim (Redis.validate_call b.cluster_mode script_call) [
                      | raise e ↦ (raise e, b)
                      | ok done ↦ Redis.run_call client load_lua_script s sha script_call config b
                    ]
                  ]
                ] in
                out)
      go none built = refl
      go (some sha) (raise e) = refl
      go (some sha) (ok script_call) =
          subst
            (λ validated.
              read_answer (ask sha script_call) (sync_of b)
              ≡ and_sync (
                  let out : Result RateLimitResult × RedisBackend W = elim validated [
                    | raise e ↦ (raise e, b)
                    | ok done ↦ Redis.run_call client load_lua_script s sha script_call config b
                  ] in
                  out))
            (sym (
              ap (λ cluster_mode. Redis.validate_call cluster_mode script_call) plain
              ∙ validate_call_plain script_call))
            (run_call_sync b (ask sha script_call))

  initialize-load_missing :
      (b : RedisBackend W)
      → b.connected ≡ true
      → Redis.initialize client load_lua_script b ≡ Redis.load_missing client load_lua_script b
  unfolding Redis.initialize
  initialize-load_missing b connected =
      ap
        (λ (r : Result (Unit {0}) × RedisBackend W).
          let out : Result (Unit {0}) × RedisBackend W = elim r.0 [
            | ok done ↦ Redis.load_missing client load_lua_script r.1
            | raise e ↦ (raise e, r.1)
          ] in
          out)
        (ensure_redis-connected client b connected)

  -- What a check does after the scripts have been loaded.
  abbrev resume_sync :
      Result (Unit {0}) × SyncRedisBackend W → Result RateLimitResult × SyncRedisBackend W
  resume_sync (initialized, b) = elim initialized [
    | ok done ↦ check_loaded client load_lua_script s key config now b
    | raise e ↦ (raise e, b)
  ]

  abbrev resume_async : Result (Unit {0}) × RedisBackend W → Result RateLimitResult × RedisBackend W
  resume_async (initialized, b) = elim initialized [
    | ok done ↦ Redis.check_loaded client load_lua_script s key config now b
    | raise e ↦ (raise e, b)
  ]

  resume-sync :
      (b : RedisBackend W)
      → b.connected ≡ true
      → b.cluster_mode ≡ false
      → resume_sync (initialize client load_lua_script (sync_of b))
        ≡ and_sync (resume_async (Redis.initialize client load_lua_script b))
  unfolding initialize Redis.load_missing
  resume-sync b connected plain =
      subst
        (λ r.
          resume_sync (initialize client load_lua_script (sync_of b)) ≡ and_sync (resume_async r))
        (sym (initialize-load_missing b connected))
        (go (
          load_scripts client (iter_missing_scripts load_lua_script b.script_shas) b.script_shas
            b.server))
    where
      go :
          (r : Result (Unit {0}) × Dict Text × W)
          → resume_sync (r.0, record (sync_of b) { script_shas = r.1; server = r.2 })
            ≡ and_sync (resume_async (r.0, record b { script_shas = r.1; server = r.2 }))
      go (ok done, shas, w) = check_loaded_sync (record b { script_shas = shas; server = w }) plain
      go (raise e, shas, w) = refl

  -- A check of the sync backend is a check of the async one that is connected and not in cluster
  -- mode: the same outcome, the same SHAs and the same server after it, whatever the server does.
  pub check_and_increment-sync :
      (b : RedisBackend W)
      → b.connected ≡ true
      → b.cluster_mode ≡ false
      → check_and_increment client load_lua_script s (sync_of b) key config now
        ≡ and_sync (Redis.check_and_increment client load_lua_script s b key config now)
  unfolding check_and_increment Redis.check_and_increment Redis.check_ensured
  check_and_increment-sync b connected plain =
      subst
        (λ (r : Result (Unit {0}) × RedisBackend W).
          check_and_increment client load_lua_script s (sync_of b) key config now
          ≡ and_sync (
              let out : Result RateLimitResult × RedisBackend W = elim r.0 [
                | ok done ↦ Redis.check_ensured client load_lua_script s key config now r.1
                | raise e ↦ (raise e, r.1)
              ] in
              out))
        (sym (ensure_redis-connected client b connected))
        (go (is_among (algorithm_name config.algorithm) lua_scripts)
          (is_missing b.script_shas (algorithm_name config.algorithm)))
    where
      go :
          (among missing : Bool)
          → (if not among
              then (raise backend_configuration, sync_of b)
              else if missing
              then resume_sync (initialize client load_lua_script (sync_of b))
              else check_loaded client load_lua_script s key config now (sync_of b))
            ≡ and_sync (
                if not among
                then (raise backend_configuration, b)
                else if missing
                then resume_async (Redis.initialize client load_lua_script b)
                else Redis.check_loaded client load_lua_script s key config now b)
      go false missing = refl
      go true true = resume-sync b connected plain
      go true false = check_loaded_sync b plain
