-- ===== src/Backend/Redis.antt =====
-- src/rate_limit_patterns/backend/redis.py: `RedisBackend`. The client, its server, the factory
-- `Redis.from_url` (which does not connect) and the contents of the Lua files are arguments; the
-- socket options only reach the factory. What stands under `_init_lock` is one step.
pub mod Cluster
pub mod Serves
pub mod Answered
use rate_limit_patterns.Prelude.{
  ℕ, Bool, true, false, Option, none, some, List, [], ◌∷◌, ◌++◌, ◌&&◌, ◌||◌, not, ltb,
  if◌then◌else◌,
}
use rate_limit_patterns.Prelude.Int.{ℤ}
use rate_limit_patterns.Prelude.Text.{Text, codes, text_eq, is_empty}
use rate_limit_patterns.Prelude.Dict.{Dict, get, insert}
use rate_limit_patterns.Models.{
  RateLimitConfig, RateLimitResult, index_error, backend_unavailable, backend_configuration, Scale,
  Result, ok, raise, raise_if,
}
use rate_limit_patterns.Backend.Keying.{has_hash_tag}
use rate_limit_patterns.Backend.RedisShared.{
  algorithm_name, lua_scripts, ScriptCall, build_script_call, parse_script_result, is_missing,
  iter_missing_scripts, hash_metric_fields, hash_metrics, zset_metrics, decode_key_type, Metric,
  text,
}
use rate_limit_patterns.Backend.Scripts.{
  Reply, reply, fails, RedisProtocol, load_scripts, evalsha_with_retry,
}

-- The options of the client, numbers where they are given.
pub record SocketOptions : Type 0 where
  pub socket_timeout : Option ℕ
  pub socket_connect_timeout : Option ℕ
  pub max_connections : Option ℕ
  pub socket_keepalive : Option ℕ
  pub health_check_interval : Option ℕ

-- `if value is not None: kwargs[name] = value`
abbrev pub add_kwarg : Text → Option ℕ → Dict ℕ → Dict ℕ
add_kwarg name none kwargs = kwargs
add_kwarg name (some value) kwargs = insert name value kwargs

-- The keyword arguments of the factory.
unfoldable pub socket_kwargs : SocketOptions → Dict ℕ
socket_kwargs options = add_kwarg (codes "health_check_interval") options.health_check_interval (
    add_kwarg (codes "socket_keepalive") options.socket_keepalive (
      add_kwarg (codes "max_connections") options.max_connections (
        add_kwarg (codes "socket_connect_timeout") options.socket_connect_timeout
          (add_kwarg (codes "socket_timeout") options.socket_timeout []))))

-- The attributes; `connected` says whether `_redis` is set, `server` is what the client talks to.
pub record RedisBackend (W : Type 0) : Type 0 where
  pub url : Option Text
  pub options : SocketOptions
  pub key_prefix : Text
  pub cluster_mode : Bool
  pub connected : Bool
  pub owns_client : Bool
  pub script_shas : Dict Text
  pub server : W

-- The constructor, over the server that a handed-in client talks to, if one is handed in.
unfoldable pub make_backend :
    {W : Type 0} → Option Text → Bool → Text → Bool → SocketOptions → W → RedisBackend W
make_backend url has_client key_prefix cluster_mode options server = record {
  url = url;
  options = options;
  key_prefix = key_prefix;
  cluster_mode = cluster_mode;
  connected = has_client;
  owns_client = not has_client;
  script_shas = [];
  server = server;
}

-- `_apply_prefix`
unfoldable pub apply_prefix : Text → Text → Text
apply_prefix key_prefix key = if is_empty key_prefix then key else key_prefix ++ key

-- `config.algorithm in LUA_SCRIPTS`
abbrev pub is_among : Text → List Text → Bool
is_among name [] = false
is_among name (script ∷ scripts) = text_eq name script || is_among name scripts

-- `_validate_cluster_key`
unfoldable pub validate_cluster_key : Text → Result (Unit {0})
validate_cluster_key key = raise_if (not (has_hash_tag key)) backend_configuration

-- The test in front of it.
unfoldable pub validate_call : Bool → ScriptCall → Result (Unit {0})
validate_call cluster_mode call = elim call.keys [
  | [] ↦ raise_if (cluster_mode && call.multi_key) index_error
  | key ∷ keys ↦ if cluster_mode && call.multi_key then validate_cluster_key key else ok tt
]

-- The metrics of a key, by its type and the replies of the commands for that type.
unfoldable pub metrics_by_type :
    {W : Type 0}
    → (Text → ℕ)
    → RedisProtocol W
    → Text
    → Text
    → W
    → Result (List (Text × Metric)) × W
metrics_by_type float client full_key key_type w =
    if text_eq key_type (codes "none")
    then (ok [], w)
    else if text_eq key_type (codes "hash")
    then (let (state, w') = client.hmget w full_key hash_metric_fields in
        elim state [
          | reply values ↦ (ok (hash_metrics float full_key values), w')
          | fails e ↦ (raise backend_unavailable, w')
        ])
    else if text_eq key_type (codes "zset")
    then (let (card, w') = client.zcard w full_key in
        elim card [
          | fails e ↦ (raise backend_unavailable, w')
          | reply count ↦
              if ltb 0 count
              then (let (range, w'') = client.zrange w' full_key 0 0 in
                  elim range [
                    | reply oldest ↦ (ok (zset_metrics full_key count oldest), w'')
                    | fails e ↦ (raise backend_unavailable, w'')
                  ])
              else (ok (zset_metrics full_key count []), w')
        ])
    else (ok ((codes "key", text full_key) ∷ (codes "storage_type", text key_type) ∷ []), w)

module _ {W : Type 0} (client : RedisProtocol W) where
  -- `Redis`, the factory that tests can replace.
  abbrev pub make_redis : Text → Dict ℕ → W → W
  make_redis url kwargs server = client.from_url url kwargs server

  unfoldable pub ensure_redis : RedisBackend W → Result (Unit {0}) × RedisBackend W
  ensure_redis b = if b.connected then (ok tt, b) else elim b.url [
    | none ↦ (raise backend_configuration, b)
    | some url ↦ (
      ok tt,
      record b { connected = true; server = make_redis url (socket_kwargs b.options) b.server },
    )
  ]

  module _ (load_lua_script : Text → Text) where
    -- `initialize` behind `_ensure_redis`.
    unfoldable pub load_missing : RedisBackend W → Result (Unit {0}) × RedisBackend W
    load_missing b =
        let (loaded, shas, w) =
          load_scripts client (iter_missing_scripts load_lua_script b.script_shas) b.script_shas
            b.server in
        (loaded, record b { script_shas = shas; server = w })

    unfoldable pub initialize : RedisBackend W → Result (Unit {0}) × RedisBackend W
    initialize b =
        let (ensured, b') = ensure_redis b in
        elim ensured [ ok done ↦ load_missing b' | raise e ↦ (raise e, b') ]

    module _ (s : Scale) where
      -- The evaluation of a prepared call, and the reading of its reply.
      unfoldable pub run_call :
          Text
          → ScriptCall
          → RateLimitConfig
          → RedisBackend W
          → Result RateLimitResult × RedisBackend W
      run_call sha script_call config b =
          let (answered, shas, w) =
            evalsha_with_retry client load_lua_script sha config.algorithm script_call.keys
              script_call.args b.script_shas b.server in
          let b' = record b { script_shas = shas; server = w } in
          elim answered [ ok xs ↦ (parse_script_result s xs config, b') | raise e ↦ (raise e, b') ]

      -- The check from the look-up of the SHA on.
      unfoldable pub check_loaded :
          Text
          → RateLimitConfig
          → Option ℤ
          → RedisBackend W
          → Result RateLimitResult × RedisBackend W
      check_loaded key config now b = elim (get (algorithm_name config.algorithm) b.script_shas) [
        | none ↦ (raise backend_configuration, b)
        | some sha ↦ elim (build_script_call s key config now (apply_prefix b.key_prefix)) [
          | raise e ↦ (raise e, b)
          | ok script_call ↦ elim (validate_call b.cluster_mode script_call) [
            | raise e ↦ (raise e, b)
            | ok done ↦ run_call sha script_call config b
          ]
        ]
      ]

      -- The check behind `_ensure_redis`: an unknown SHA has the scripts loaded first.
      unfoldable pub check_ensured :
          Text
          → RateLimitConfig
          → Option ℤ
          → RedisBackend W
          → Result RateLimitResult × RedisBackend W
      check_ensured key config now b =
          let name = algorithm_name config.algorithm in
          if not (is_among name lua_scripts)
          then (raise backend_configuration, b)
          else if is_missing b.script_shas name
          then (let (initialized, b') = initialize b in
              elim initialized [
                | ok done ↦ check_loaded key config now b'
                | raise e ↦ (raise e, b')
              ])
          else check_loaded key config now b

      unfoldable pub check_and_increment :
          RedisBackend W
          → Text
          → RateLimitConfig
          → Option ℤ
          → Result RateLimitResult × RedisBackend W
      check_and_increment b key config now =
          let (ensured, b') = ensure_redis b in
          elim ensured [ ok done ↦ check_ensured key config now b' | raise e ↦ (raise e, b') ]

  -- `reset` behind `_ensure_redis`.
  unfoldable pub delete_key : RedisBackend W → Text → Result (Unit {0}) × RedisBackend W
  delete_key b key =
      let (deleted, w) = client.delete b.server (apply_prefix b.key_prefix key) in
      elim deleted [
        | reply n ↦ (ok tt, record b { server = w })
        | fails e ↦ (raise backend_unavailable, record b { server = w })
      ]

  unfoldable pub reset : RedisBackend W → Text → Result (Unit {0}) × RedisBackend W
  reset b key =
      let (ensured, b') = ensure_redis b in
      elim ensured [ ok done ↦ delete_key b' key | raise e ↦ (raise e, b') ]

  -- `get_metrics` behind `_ensure_redis`; `float` reads a field of the hash, `decode` reads UTF-8.
  unfoldable pub read_metrics :
      (Text → ℕ)
      → (List ℕ → Text)
      → RedisBackend W
      → Text
      → Result (List (Text × Metric)) × RedisBackend W
  read_metrics float decode b key =
      let full_key = apply_prefix b.key_prefix key in
      let (typed, w) = client.key_type b.server full_key in
      elim typed [
        | fails e ↦ (raise backend_unavailable, record b { server = w })
        | reply key_type ↦
            let (metrics, w') =
              metrics_by_type float client full_key (decode_key_type decode key_type) w in
            (metrics, record b { server = w' })
      ]

  unfoldable pub get_metrics :
      (Text → ℕ)
      → (List ℕ → Text)
      → RedisBackend W
      → Text
      → Result (List (Text × Metric)) × RedisBackend W
  get_metrics float decode b key =
      let (ensured, b') = ensure_redis b in
      elim ensured [ ok done ↦ read_metrics float decode b' key | raise e ↦ (raise e, b') ]

-- `close`, with whether the client has an `aclose` or a `close`: a client that was handed in stays
-- open.
unfoldable pub close : {W : Type 0} → Bool → RedisBackend W → RedisBackend W
close has_close b =
    if not b.owns_client
    then b
    else if b.connected && has_close
    then record b { connected = false }
    else b
