-- ===== src/Tests/Redis.antt =====
-- The Redis backends against a small server that holds scripts under their own texts.
use mathlib.Core.Path.{subst}
use rate_limit_patterns.Prelude.{
  ◌≡◌, refl, inl, inr, Bool, true, false, ◌||◌, none, some, List, [], ◌∷◌, Bool-cases, arith,
  if◌then◌else◌,
}
use rate_limit_patterns.Prelude.Int.{ℤ, pos}
use rate_limit_patterns.Prelude.Text.{Text, codes, text_eq, text_eq_refl}
use rate_limit_patterns.Models.{token_bucket, no_script, ok}
use rate_limit_patterns.Backend.Keying
use rate_limit_patterns.Backend.RedisShared.{unicode, window_call}
use rate_limit_patterns.Backend.Scripts
use rate_limit_patterns.Backend.Redis
use rate_limit_patterns.Backend.SyncRedis
use rate_limit_patterns.Tests.Samples.{scale, window_config}

-- The reply of every script.
abbrev admitted : List ℤ
admitted = pos 1 ∷ pos 5 ∷ pos 0 ∷ pos 100 ∷ pos 1 ∷ []

unfoldable run_script : List Text → Text → Scripts.Reply (List ℤ)
run_script held sha =
    if Redis.is_among sha held then Scripts.reply admitted else Scripts.fails no_script

abbrev server : Scripts.RedisProtocol (List Text)
server = record {
  from_url = λ url kwargs held. held;
  script_load = λ held content. (Scripts.reply content, content ∷ held);
  evalsha = λ held sha keys args. (run_script held sha, held);
  delete = λ held key. (Scripts.reply 1, held);
  key_type = λ held key. (Scripts.reply (unicode (codes "none")), held);
  hmget = λ held key fields. (Scripts.reply [], held);
  zcard = λ held key. (Scripts.reply 0, held);
  zrange = λ held key first last. (Scripts.reply [], held);
}

abbrev Holds : List Text → Text → Type 0
Holds held sha = Redis.is_among sha held ≡ true

or_true : (b : Bool) → (b || true) ≡ true
or_true true = refl
or_true false = refl

server_serving : Scripts.Retry.Serving server Holds
unfolding run_script
server_serving = record {
  loads = λ held content. (
    content,
    content ∷ held,
    refl,
    rw (text_eq_refl content) refl,
    λ other h. rw h (or_true (text_eq other content)),
  );
  runs = λ held sha keys args h. (admitted, rw h refl);
  misses = λ held sha keys args. elim (Bool-cases (Redis.is_among sha held)) [
    | inl h ↦ inl (admitted, rw h refl)
    | inr h ↦ inr (rw h refl)
  ];
}

-- A server that has lost its scripts.
evalsha_with_retry-serves_example :
    (xs : List ℤ) × ((Scripts.evalsha_with_retry server
        (λ name. name)
        (codes "stale")
        token_bucket
        (codes "k" ∷ [])
        []
        []
        []).0
      ≡ ok xs)
evalsha_with_retry-serves_example =
    Scripts.Retry.evalsha_with_retry-serves server (λ name. name) Holds server_serving token_bucket
      tt (codes "k" ∷ []) [] (codes "stale") [] []

evalsha_with_retry-Ends_example :
    Scripts.Escape.Ends server
      (λ name. name)
      token_bucket
      (codes "k" ∷ [])
      []
      []
      (Scripts.fails no_script, [])
      (Scripts.evalsha_with_retry server
        (λ name. name)
        (codes "stale")
        token_bucket
        (codes "k" ∷ [])
        []
        []
        [])
unfolding run_script
evalsha_with_retry-Ends_example =
    Scripts.Escape.evalsha_with_retry-Ends server (λ name. name) token_bucket (codes "k" ∷ []) []
      (codes "stale") [] []

tagged_call :
    Redis.validate_call true
      (window_call (codes "{u}:k") window_config none (Redis.apply_prefix (codes "rl:")))
    ≡ ok tt
unfolding Redis.validate_call Redis.validate_cluster_key Redis.apply_prefix window_call
    Keying.has_hash_tag Keying.search_hash_tag Keying.until_close
tagged_call = refl

validate_call-same_tag_example :
    (tag first second : Text) × ((window_call
        (codes "{u}:k")
        window_config
        none
        (Redis.apply_prefix (codes "rl:"))).keys
      ≡ first ∷ second ∷ [])
    × (Keying.extract_hash_tag first ≡ some tag)
    × (Keying.extract_hash_tag second ≡ some tag)
validate_call-same_tag_example =
    Redis.Cluster.validate_call-same_tag (codes "{u}:k") window_config none (codes "rl:")
      tagged_call

abbrev no_options : Redis.SocketOptions
no_options = record {
  socket_timeout = none;
  socket_connect_timeout = none;
  max_connections = none;
  socket_keepalive = none;
  health_check_interval = none;
}

-- A backend that knows one stale SHA.
abbrev backend : Redis.RedisBackend (List Text)
backend = record {
  url = none;
  options = no_options;
  key_prefix = codes "rl:";
  cluster_mode = false;
  connected = true;
  owns_client = false;
  script_shas = (codes "token_bucket", codes "stale") ∷ [];
  server = [];
}

check_and_increment-serves_example :
    Redis.Serves.IsServed server
      (λ name. name)
      Holds
      server_serving
      scale
      (codes "k")
      window_config
      none
      tt
      (codes "rl:")
      (Redis.check_and_increment server (λ name. name) scale backend (codes "k") window_config none)
check_and_increment-serves_example =
    Redis.Serves.check_and_increment-serves server (λ name. name) Holds server_serving scale
      (codes "k") window_config none tt backend refl refl

-- Every script of the server has this one reply.
run_script-IsWellFormed :
    (held : List Text) (sha : Text) (xs : List ℤ)
    → run_script held sha ≡ Scripts.reply xs
    → Redis.Answered.IsWellFormed xs
unfolding run_script
run_script-IsWellFormed held sha xs e = elim (Bool-cases (Redis.is_among sha held)) [
  | inl h ↦
      let same : Scripts.reply admitted ≡ Scripts.reply xs = rw h at e in
      let listed : admitted ≡ xs = cc in subst Redis.Answered.IsWellFormed listed (omega arith)
  | inr h ↦ let lost : Scripts.fails no_script ≡ Scripts.reply xs = rw h at e in cc
]

check_and_increment-IsAnswered_example :
    Redis.Answered.IsAnswered window_config
      (Redis.check_and_increment server
        (λ name. name)
        scale
        backend
        (codes "k")
        window_config
        none).0
check_and_increment-IsAnswered_example =
    Redis.Answered.check_and_increment-IsAnswered server (λ name. name) Holds server_serving scale
      (codes "k") window_config none tt backend refl refl
      (λ held sha keys args xs e. run_script-IsWellFormed held sha xs e)

check_and_increment-sync_example :
    SyncRedis.check_and_increment server
      (λ name. name)
      scale
      (SyncRedis.Agreement.sync_of backend)
      (codes "k")
      window_config
      none
    ≡ SyncRedis.Agreement.and_sync (
        Redis.check_and_increment server
          (λ name. name)
          scale
          backend
          (codes "k")
          window_config
          none)
check_and_increment-sync_example =
    SyncRedis.Agreement.check_and_increment-sync server (λ name. name) scale (codes "k")
      window_config none backend refl refl
