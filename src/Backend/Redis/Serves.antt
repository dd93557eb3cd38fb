-- ===== src/Backend/Redis/Serves.antt =====
-- A check of `RedisBackend` on a server that is up.
use mathlib.Core.Path.{subst}
use rate_limit_patterns.Prelude.{
  ◌≡◌, refl, ap, sym, ◌∙◌, Bool, true, false, Option, none, some, List, [], ◌∷◌, not, if◌then◌else◌,
  ◌&&◌,
}
use rate_limit_patterns.Prelude.Int.{ℤ}
use rate_limit_patterns.Prelude.Text.{Text}
use rate_limit_patterns.Prelude.Dict.{Dict, get}
use rate_limit_patterns.Models.{
  AlgorithmType, token_bucket, sliding_window, leaky_bucket, unsupported, RateLimitConfig,
  RateLimitResult, Scale, Result, ok, raise, raise_if, index_error, backend_configuration,
}
use rate_limit_patterns.Backend.RedisShared.{
  algorithm_name, lua_scripts, ScriptCall, script_call_for, build_script_call, parse_script_result,
  is_missing, iter_missing_scripts,
}
use rate_limit_patterns.Backend.Scripts.{reply, RedisProtocol, load_scripts, evalsha_with_retry}
use rate_limit_patterns.Backend.Scripts.Retry.{Serving, IsSupported, evalsha_with_retry-Replied}
use rate_limit_patterns.Backend.Scripts.Loading.{
  Known, load_scripts-Known, missing_from-Known, supported_among, supported_Known,
}
use rate_limit_patterns.Backend.Redis.{
  RedisBackend, apply_prefix, validate_call, ensure_redis, load_missing, initialize, run_call,
  check_loaded, check_ensured, check_and_increment,
}

pub if_true : {A : Type 0} (c : Bool) (x y : A) → c ≡ true → (if c then x else y) ≡ x
if_true c x y e = rw e refl

pub ensure_redis-connected :
    {W : Type 0} (client : RedisProtocol W) (b : RedisBackend W)
    → b.connected ≡ true
    → ensure_redis client b ≡ (ok tt, b)
unfolding ensure_redis
ensure_redis-connected client b connected = if_true b.connected _ _ connected

supported_call :
    (s : Scale) (a : AlgorithmType) (key : Text) (config : RateLimitConfig) (now : Option ℤ)
    (prefix : Text → Text)
    → IsSupported a
    → (script_call : ScriptCall) × (script_call_for s a key config now prefix ≡ ok script_call)
supported_call s token_bucket key config now prefix h = (_, refl)
supported_call s sliding_window key config now prefix h = (_, refl)
supported_call s leaky_bucket key config now prefix h = (_, refl)
supported_call s (unsupported name) key config now prefix h = absurd h

pub validate_call_plain : (script_call : ScriptCall) → validate_call false script_call ≡ ok tt
unfolding validate_call
validate_call_plain script_call = go script_call.keys
  where
    go :
        (keys : List Text)
        → (let r : Result (Unit {0}) = elim keys [
          | [] ↦ raise_if (false && script_call.multi_key) index_error
          | key ∷ rest ↦ ok tt
        ] in
            r ≡ ok tt)
    go [] = refl
    go (key ∷ rest) = refl

module _ {W : Type 0} (client : RedisProtocol W) (load_lua_script : Text → Text)
    (holds : W → Text → Type 0) (up : Serving client holds) (s : Scale) (key : Text)
    (config : RateLimitConfig) (now : Option ℤ) (supported : IsSupported config.algorithm) where
  -- The outcome is read from the reply of the server to this call, which is the last it was sent.
  abbrev pub Answers : ScriptCall → Result RateLimitResult × RedisBackend W → Type 0
  Answers script_call (outcome, b) =
      (w : W) × (sha : Text) × (xs : List ℤ) × (client.evalsha w sha script_call.keys
          script_call.args
        ≡ (reply xs, b.server))
      × (outcome ≡ parse_script_result s xs config)

  -- The call is the one that is built for the check.
  abbrev pub IsServed : Text → Result RateLimitResult × RedisBackend W → Type 0
  IsServed prefix r =
      (script_call : ScriptCall) × (build_script_call s key config now (apply_prefix prefix)
        ≡ ok script_call)
      × Answers script_call r

  validated :
      (b : RedisBackend W) (script_call : ScriptCall)
      → b.cluster_mode ≡ false
      → validate_call b.cluster_mode script_call ≡ ok tt
  validated b script_call plain =
      ap (λ cluster_mode. validate_call cluster_mode script_call) plain
      ∙ validate_call_plain script_call

  run_call-Answers :
      (sha : Text) (script_call : ScriptCall) (b : RedisBackend W)
      → Answers script_call (run_call client load_lua_script s sha script_call config b)
  unfolding run_call
  run_call-Answers sha script_call b =
      let (w, last, xs, replied, answered) =
        evalsha_with_retry-Replied client load_lua_script holds up config.algorithm supported
          script_call.keys script_call.args sha b.script_shas b.server in
      let (first, shas, w') =
        evalsha_with_retry client load_lua_script sha config.algorithm script_call.keys
          script_call.args b.script_shas b.server in
      subst
        (λ (outcome : Result (List ℤ)). Answers script_call (elim outcome [
          | ok xs ↦ (parse_script_result s xs config, record b { script_shas = shas; server = w' })
          | raise e ↦ (raise e, record b { script_shas = shas; server = w' })
        ]))
        (sym answered) (w, last, xs, replied, refl)

  check_loaded-IsServed :
      (b : RedisBackend W)
      → b.cluster_mode ≡ false
      → Known b.script_shas (algorithm_name config.algorithm)
      → IsServed b.key_prefix (check_loaded client load_lua_script s key config now b)
  unfolding check_loaded build_script_call
  check_loaded-IsServed b plain (sha, found) =
      let (script_call, built) =
        supported_call s config.algorithm key config now (apply_prefix b.key_prefix) supported in
      (
        script_call,
        built,
        rw (found, check_loaded, build_script_call, built, validated b script_call plain)
            (run_call-Answers sha script_call b),
      )

  -- The backend with what a loading run has left.
  abbrev stored :
      RedisBackend W → Result (Unit {0}) × Dict Text × W → Result (Unit {0}) × RedisBackend W
  stored b (r, shas, w) = (r, record b { script_shas = shas; server = w })

  initialize-connected :
      (b : RedisBackend W)
      → b.connected ≡ true
      → initialize client load_lua_script b
        ≡ stored b (
            load_scripts client
              (iter_missing_scripts load_lua_script b.script_shas)
              b.script_shas
              b.server)
  unfolding initialize load_missing
  initialize-connected b connected =
      ap
        (λ (r : Result (Unit {0}) × RedisBackend W).
          let out : Result (Unit {0}) × RedisBackend W = elim r.0 [
            | ok done ↦ load_missing client load_lua_script r.1
            | raise e ↦ (raise e, r.1)
          ] in
          out)
        (ensure_redis-connected client b connected)

  -- The check with the scripts loaded first, and the check with or without that.
  abbrev resume : Result (Unit {0}) × RedisBackend W → Result RateLimitResult × RedisBackend W
  resume (initialized, b') = elim initialized [
    | ok done ↦ check_loaded client load_lua_script s key config now b'
    | raise e ↦ (raise e, b')
  ]

  abbrev check_loading : Bool → RedisBackend W → Result RateLimitResult × RedisBackend W
  check_loading missing b =
      if missing
      then resume (initialize client load_lua_script b)
      else check_loaded client load_lua_script s key config now b

  resume-IsServed :
      (b : RedisBackend W)
      → b.connected ≡ true
      → b.cluster_mode ≡ false
      → IsServed b.key_prefix (resume (initialize client load_lua_script b))
  unfolding iter_missing_scripts
  resume-IsServed b connected plain =
      let (shas', x, done, keeps, listed) =
        load_scripts-Known client holds up (iter_missing_scripts load_lua_script b.script_shas)
          b.script_shas b.server in
      let known =
        supported_Known shas' config.algorithm supported
          (missing_from-Known load_lua_script b.script_shas shas' lua_scripts keeps listed) in
      let b' = record b { script_shas = shas'; server = x } in
      subst (λ r. IsServed b.key_prefix (resume r))
        (sym (initialize-connected b connected ∙ ap (stored b) done))
        (check_loaded-IsServed b' plain known)

  check_loading-IsServed :
      (b : RedisBackend W)
      → b.connected ≡ true
      → b.cluster_mode ≡ false
      → IsServed b.key_prefix
          (check_loading (is_missing b.script_shas (algorithm_name config.algorithm)) b)
  unfolding is_missing
  check_loading-IsServed b connected plain =
      go (get (algorithm_name config.algorithm) b.script_shas) refl
    where
      go :
          (found : Option Text)
          → get (algorithm_name config.algorithm) b.script_shas ≡ found
          → IsServed b.key_prefix (check_loading (elim found [ none ↦ true | some sha ↦ false ]) b)
      go none e = resume-IsServed b connected plain
      go (some sha) e = check_loaded-IsServed b plain (sha, e)

  check_ensured-IsServed :
      (b : RedisBackend W)
      → b.connected ≡ true
      → b.cluster_mode ≡ false
      → IsServed b.key_prefix (check_ensured client load_lua_script s key config now b)
  unfolding check_ensured
  check_ensured-IsServed b connected plain =
      subst
        (λ among. IsServed b.key_prefix (
          if not among
          then (raise backend_configuration, b)
          else check_loading (is_missing b.script_shas (algorithm_name config.algorithm)) b))
        (sym (supported_among config.algorithm supported))
        (check_loading-IsServed b connected plain)

  -- On a server that is up, a connected backend outside cluster mode answers every check of a
  -- supported algorithm, whichever scripts it has loaded before and whatever the server has forgotten:
  -- the outcome is what it reads from the server's reply to an EVALSHA with the keys and the arguments
  -- of the call that is built for this check, and that command is the last it sends.
  pub check_and_increment-serves :
      (b : RedisBackend W)
      → b.connected ≡ true
      → b.cluster_mode ≡ false
      → IsServed b.key_prefix (check_and_increment client load_lua_script s b key config now)
  unfolding check_and_increment
  check_and_increment-serves b connected plain =
      subst
        (λ (r : Result (Unit {0}) × RedisBackend W). IsServed b.key_prefix (elim r.0 [
          | ok done ↦ check_ensured client load_lua_script s key config now r.1
          | raise e ↦ (raise e, r.1)
        ]))
        (sym (ensure_redis-connected client b connected)) (check_ensured-IsServed b connected plain)
