-- ===== src/Backend/Scripts.antt =====
-- What src/rate_limit_patterns/backend/redis.py and backend/sync.py both do with the Lua scripts:
-- loading, running, and the second attempt after a NOSCRIPT error. The Redis client and its server
-- are an argument, with a state `W`.
pub mod Retry
pub mod Escape
pub mod Loading
use rate_limit_patterns.Prelude.{ℕ, Option, none, some, List, [], ◌∷◌}
use rate_limit_patterns.Prelude.Int.{ℤ}
use rate_limit_patterns.Prelude.Text.{Text}
use rate_limit_patterns.Prelude.Dict.{Dict, get, insert}
use rate_limit_patterns.Models.{
  AlgorithmType, RedisError, no_script, other_failure, backend_unavailable, backend_configuration,
  redis_error, Result, ok, raise,
}
use rate_limit_patterns.Backend.RedisShared.{Arg, RawText, algorithm_name, iter_missing_scripts}

-- The outcome of a command.
pub data Reply (A : Type 0) : Type 0 where
  reply : A → Reply A
  fails : RedisError → Reply A

-- The commands that the backends send, and the factory `redis.Redis.from_url`, by what a client made
-- for a url with these keyword arguments talks to.
pub record RedisProtocol (W : Type 0) : Type 0 where
  pub from_url : Text → Dict ℕ → W → W
  pub script_load : W → Text → Reply Text × W
  pub evalsha : W → Text → List Text → List Arg → Reply (List ℤ) × W
  pub delete : W → Text → Reply ℕ × W
  pub key_type : W → Text → Reply RawText × W
  pub hmget : W → Text → List Text → Reply (List (Option Text)) × W
  pub zcard : W → Text → Reply ℕ × W
  pub zrange : W → Text → ℕ → ℕ → Reply (List (Text × ℕ)) × W

module _ {W : Type 0} (client : RedisProtocol W) where
  -- The loop over the missing scripts: the SHAs that are known after it.
  unfoldable pub load_scripts :
      List (Text × Text) → Dict Text → W → Result (Unit {0}) × Dict Text × W
  load_scripts [] shas w = (ok tt, shas, w)
  load_scripts ((name, content) ∷ rest) shas w =
      let (loaded, w') = client.script_load w content in
      elim loaded [
        | reply sha ↦ load_scripts rest (insert name sha shas) w'
        | fails e ↦ (raise backend_unavailable, shas, w')
      ]

  -- The second evalsha, which no handler covers.
  unfoldable pub evalsha_again :
      Text → List Text → List Arg → Dict Text → W → Result (List ℤ) × Dict Text × W
  evalsha_again sha keys args shas w =
      let (answered, w') = client.evalsha w sha keys args in
      elim answered [ reply xs ↦ (ok xs, shas, w') | fails e ↦ (raise (redis_error e), shas, w') ]

  -- The handler of NoScriptError, from the outcome of the reload on.
  unfoldable pub after_reload :
      AlgorithmType
      → List Text
      → List Arg
      → Result (Unit {0}) × Dict Text × W
      → Result (List ℤ) × Dict Text × W
  after_reload algorithm keys args (raise e, shas, w) = (raise e, shas, w)
  after_reload algorithm keys args (ok done, shas, w) = elim (get (algorithm_name algorithm) shas) [
    | none ↦ (raise backend_configuration, shas, w)
    | some new_sha ↦ evalsha_again new_sha keys args shas w
  ]

  module _ (load_lua_script : Text → Text) where
    -- `_reload_scripts`
    unfoldable pub reload_scripts : W → Result (Unit {0}) × Dict Text × W
    reload_scripts w = load_scripts (iter_missing_scripts load_lua_script []) [] w

    -- The handler of NoScriptError.
    unfoldable pub after_no_script :
        AlgorithmType → List Text → List Arg → W → Result (List ℤ) × Dict Text × W
    after_no_script algorithm keys args w = after_reload algorithm keys args (reload_scripts w)

    -- `_evalsha_with_retry`
    unfoldable pub evalsha_with_retry :
        Text
        → AlgorithmType
        → List Text
        → List Arg
        → Dict Text
        → W
        → Result (List ℤ) × Dict Text × W
    evalsha_with_retry sha algorithm keys args shas w =
        let (answered, w') = client.evalsha w sha keys args in
        elim answered [
          | reply xs ↦ (ok xs, shas, w')
          | fails e ↦ elim e [
            | no_script ↦ after_no_script algorithm keys args w'
            | other_failure ↦ (raise backend_unavailable, shas, w')
          ]
        ]
