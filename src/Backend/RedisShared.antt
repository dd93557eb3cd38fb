-- ===== src/Backend/RedisShared.antt =====
-- src/rate_limit_patterns/backend/_redis_shared.py: what the Redis backends send to the Lua scripts
-- and how they read the replies.
pub mod Contract
pub mod Parse
use rate_limit_patterns.Prelude.{
  ℕ, ◌*◌, zero, suc, Bool, true, false, Option, none, some, List, [], ◌∷◌, ◌++◌, ◌&&◌, not, ◌||◌,
  if◌then◌else◌,
}
use rate_limit_patterns.Prelude.Int.{ℤ, pos, negsuc}
use rate_limit_patterns.Prelude.Text.{Text, codes, text_eq}
use rate_limit_patterns.Prelude.Dict.{Dict, get}
use rate_limit_patterns.Models.{
  AlgorithmType, token_bucket, sliding_window, leaky_bucket, unsupported, RateLimitConfig,
  RateLimitResult, make_result, Scale, tokens_per_second, Result, ok, raise, index_error,
  backend_configuration, ◌>>=◌,
}

-- The text of an algorithm's name.
unfoldable pub algorithm_name : AlgorithmType → Text
algorithm_name token_bucket = codes "token_bucket"
algorithm_name sliding_window = codes "sliding_window"
algorithm_name leaky_bucket = codes "leaky_bucket"
algorithm_name (unsupported name) = name

-- `LUA_SCRIPTS`
abbrev pub lua_scripts : List Text
lua_scripts = codes "token_bucket" ∷ codes "sliding_window" ∷ codes "leaky_bucket" ∷ []

-- An element of ARGV: an int, a rate in tokens / `parts`, or an instant in ticks.
pub data Arg : Type 0 where
  int : ℤ → Arg
  rate : ℕ → Arg
  instant : ℤ → Arg

-- `REDIS_TIME_SENTINEL`, the int -1
abbrev pub redis_time_sentinel : Arg
redis_time_sentinel = int (negsuc 0)

pub record ScriptCall : Type 0 where
  pub keys : List Text
  pub args : List Arg
  pub multi_key : Bool

-- `config.burst_size or config.limit`: zero is false, as None is.
unfoldable pub burst_or_limit : RateLimitConfig → ℕ
burst_or_limit config = elim config.burst_size [
  | none ↦ config.limit
  | some burst ↦ elim burst [ zero ↦ config.limit | suc n ↦ suc n ]
]

abbrev pub time_arg : Option ℤ → Arg
time_arg none = redis_time_sentinel
time_arg (some now) = instant now

-- The two branches for the scripts over one hash.
unfoldable pub bucket_call : Scale → Text → RateLimitConfig → Option ℤ → (Text → Text) → ScriptCall
bucket_call s key config now apply_prefix = record {
  keys = apply_prefix key ∷ [];
  args = int (pos (burst_or_limit config)) ∷ rate (tokens_per_second s config) ∷ time_arg now ∷ [];
  multi_key = false;
}

unfoldable pub window_call : Text → RateLimitConfig → Option ℤ → (Text → Text) → ScriptCall
window_call key config now apply_prefix = record {
  keys = apply_prefix key ∷ apply_prefix (key ++ codes ":seq") ∷ [];
  args = int (pos config.limit) ∷ int (pos config.period) ∷ time_arg now ∷ [];
  multi_key = true;
}

-- The chain of tests on `config.algorithm`.
abbrev pub script_call_for :
    Scale → AlgorithmType → Text → RateLimitConfig → Option ℤ → (Text → Text) → Result ScriptCall
script_call_for s token_bucket key config now apply_prefix =
    ok (bucket_call s key config now apply_prefix)
script_call_for s sliding_window key config now apply_prefix =
    ok (window_call key config now apply_prefix)
script_call_for s leaky_bucket key config now apply_prefix =
    ok (bucket_call s key config now apply_prefix)
script_call_for s (unsupported name) key config now apply_prefix = raise backend_configuration

unfoldable pub build_script_call :
    Scale → Text → RateLimitConfig → Option ℤ → (Text → Text) → Result ScriptCall
build_script_call s key config now apply_prefix =
    script_call_for s config.algorithm key config now apply_prefix

-- `bool(int(x))`
unfoldable pub truthy : ℤ → Bool
truthy (pos zero) = false
truthy (pos (suc n)) = true
truthy (negsuc n) = true

-- `int(result[4]) if len(result) > 4 else 0`
abbrev pub fifth : List ℤ → ℤ
fifth [] = pos 0
fifth (count ∷ rest) = count

-- A number of seconds, as an instant in ticks.
unfoldable pub instant_of_seconds : Scale → ℤ → ℤ
instant_of_seconds s (pos n) = pos (n * s.ticks)
instant_of_seconds s (negsuc n) = neg_ticks (suc n * s.ticks)
  where
    neg_ticks : ℕ → ℤ
    neg_ticks zero = pos 0
    neg_ticks (suc n) = negsuc n

-- The reply of a script, in ints: Redis cuts every number of a Lua reply to an int. A reply that
-- is too short is an IndexError.
unfoldable pub parse_script_result : Scale → List ℤ → RateLimitConfig → Result RateLimitResult
parse_script_result s (allowed_raw ∷ remaining ∷ retry_after_raw ∷ reset_at ∷ rest) config =
    let allowed = truthy allowed_raw in
    let retry_after =
      if not allowed && truthy retry_after_raw then some retry_after_raw else none in
    make_result allowed remaining config.limit retry_after (some (instant_of_seconds s reset_at))
      (fifth rest)
parse_script_result s _ config = raise index_error

-- `name not in loaded`
unfoldable pub is_missing : Dict Text → Text → Bool
is_missing loaded name = elim (get name loaded) [ none ↦ true | some sha ↦ false ]

module _ (load_lua_script : Text → Text) where
  -- The scripts of a list that are not in `loaded`, with their contents.
  unfoldable pub missing_from : Dict Text → List Text → List (Text × Text)
  missing_from loaded [] = []
  missing_from loaded (name ∷ names) =
      let rest = missing_from loaded names in
      if is_missing loaded name then (name, load_lua_script name) ∷ rest else rest

  -- The generator tests a name when the caller asks for it; the callers add only names that have
  -- come before, so every test reads what it would have read at the start.
  unfoldable pub iter_missing_scripts : Dict Text → List (Text × Text)
  iter_missing_scripts loaded = missing_from loaded lua_scripts

-- A reply that is text or bytes.
pub data RawText : Type 0 where
  bytes : List ℕ → RawText
  unicode : Text → RawText

unfoldable pub decode_key_type : (List ℕ → Text) → RawText → Text
decode_key_type decode (bytes raw) = decode raw
decode_key_type decode (unicode key_type) = key_type

-- The value of a metric: a text, a number, a number over 1000 or None.
pub data Metric : Type 0 where
  text : Text → Metric
  number : ℕ → Metric
  thousandths : ℕ → Metric
  absent : Metric

-- `HASH_METRIC_FIELDS`
abbrev pub hash_metric_fields : List Text
hash_metric_fields =
    codes "tokens" ∷ codes "last_refill" ∷ codes "queue_size" ∷ codes "last_leak" ∷ []

module _ (float : Text → ℕ) where
  -- `float(value) if value else None`
  abbrev pub metric_of : Option Text → Metric
  metric_of none = absent
  metric_of (some []) = absent
  metric_of (some (c ∷ cs)) = number (float (c ∷ cs))

  -- `zip(fields, state, strict=False)`: the shorter list ends the loop.
  unfoldable pub zip_metrics : List Text → List (Option Text) → List (Text × Metric)
  zip_metrics [] state = []
  zip_metrics (field ∷ fields) [] = []
  zip_metrics (field ∷ fields) (value ∷ state) = (field, metric_of value) ∷ zip_metrics fields state

  unfoldable pub hash_metrics : Text → List (Option Text) → List (Text × Metric)
  hash_metrics full_key state =
      (codes "key", text full_key)
      ∷ (codes "storage_type", text (codes "hash"))
      ∷ zip_metrics hash_metric_fields state

-- `window_start`, of the members of the sorted set with their scores in milliseconds.
abbrev pub window_start : List (Text × ℕ) → Metric
window_start [] = absent
window_start ((member, score) ∷ rest) = thousandths score

unfoldable pub zset_metrics : Text → ℕ → List (Text × ℕ) → List (Text × Metric)
zset_metrics full_key count oldest =
    (codes "key", text full_key)
    ∷ (codes "storage_type", text (codes "zset"))
    ∷ (codes "count", number count)
    ∷ (codes "window_start", window_start oldest)
    ∷ []
