-- ===== src/Tests/Lua.antt =====
-- The scripts on a small server.
use rate_limit_patterns.Prelude.{
  ℕ, ◌≡◌, refl, ◌≢◌, inl, inr, Option, none, some, ◌++◌, ◌*◌, List, [], ◌∷◌, if◌then◌else◌, arith,
}
use rate_limit_patterns.Prelude.Int.{ℤ, pos}
use rate_limit_patterns.Prelude.Text.{Text, codes, text_eq, text_eq_refl}
use rate_limit_patterns.Prelude.Quotient.{ceil_div}
use rate_limit_patterns.Models.{capacity, one, tokens_per_second}
use rate_limit_patterns.Algorithms.TokenBucket
use rate_limit_patterns.Algorithms.LeakyBucket
use rate_limit_patterns.Algorithms.TokenBucket.Run as TokenBucketRun
use rate_limit_patterns.Algorithms.LeakyBucket.Run as LeakyBucketRun
use rate_limit_patterns.Backend.RedisShared.{bucket_call, burst_or_limit}
use rate_limit_patterns.Backend.Lua.{Commands, script_time}
use rate_limit_patterns.Backend.Lua.Trace.{
  KeepsHashes, AllState, Call, Absent, Undisturbed, LeftAlone, call_time, replies, times,
}
use rate_limit_patterns.Backend.Lua.TokenBucket as Bucket
use rate_limit_patterns.Backend.Lua.LeakyBucket as Queue
use rate_limit_patterns.Backend.Lua.TokenBucket.Contract as BucketContract
use rate_limit_patterns.Backend.Lua.LeakyBucket.Contract as QueueContract
use rate_limit_patterns.Tests.Samples.{
  scale, config, leaky_config, config-IsResolved, leaky_config-IsResolved,
}

-- The clock, in seconds, and the fields of the hashes.
record Server : Type 0 where
  clock : ℕ
  fields : Text → Text → Option ℕ

abbrev commands : Commands Server
commands = record {
  time = λ w. (w.clock, 0);
  hget = λ w key f. w.fields key f;
  hmset = λ w key (f, x) (g, y). record w {
    fields = λ k h.
        if text_eq k key
        then if text_eq h g then some y else if text_eq h f then some x else w.fields k h
        else w.fields k h;
  };
  expire = λ w key ttl. w;
}

commands-KeepsHashes : KeepsHashes commands
commands-KeepsHashes = record {
  first_set = λ w key f g x y h. rw (text_eq_refl key, h, text_eq_refl f) refl;
  second_set = λ w key f g x y. rw (text_eq_refl key, text_eq_refl g) refl;
  expire_keeps = λ w key f ttl h. refl;
}

abbrev server : Server
server = record { clock = 0; fields = λ k f. none }

abbrev prefixed : Text → Text
prefixed key = codes "rate_limit:" ++ key

abbrev waiting_until : ℕ → Server → Server
waiting_until t w = record w { clock = t }

-- The key is gone.
abbrev expired_by : ℕ → Server → Server
expired_by t w = record { clock = t; fields = λ k f. none }

-- Three calls at second 100, the last two with the time of the caller, and one after the key expired.
abbrev calls : List (Call Server)
calls =
    (waiting_until 100, none)
    ∷ (waiting_until 100, some 1000)
    ∷ (waiting_until 101, some 1001)
    ∷ (expired_by 130, none)
    ∷ []

some_burst : config.burst_size ≢ some 0
some_burst = ground arith

abbrev bucket_evaluate : Server → Option ℕ → List ℤ × Server
bucket_evaluate =
    BucketContract.evaluate scale config config-IsResolved some_burst commands commands-KeepsHashes
      prefixed (codes "a")

abbrev bucket_ttl : ℕ
bucket_ttl = Bucket.ttl scale (capacity config) (tokens_per_second scale config) * scale.ticks

bucket_calls-LeftAlone :
    LeftAlone bucket_evaluate
      (call_time scale commands)
      bucket_ttl
      (Undisturbed commands (prefixed (codes "a")))
      (Absent commands (prefixed (codes "a")))
      0
      server
      calls
unfolding LeftAlone script_time text_eq Bucket.ttl tokens_per_second capacity ceil_div one
bucket_calls-LeftAlone = (
  omega arith,
  inl (λ f. refl),
  (
    omega arith,
    inl (λ f. refl),
    (omega arith, inl (λ f. refl), (omega arith, inr (λ f. refl, omega arith), tt)),
  ),
)

bucket_replies_test :
    replies bucket_evaluate server calls
    ≡ (pos 1 ∷ pos 1 ∷ pos 0 ∷ pos 110 ∷ pos 1 ∷ [])
      ∷ (pos 1 ∷ pos 0 ∷ pos 0 ∷ pos 120 ∷ pos 2 ∷ [])
      ∷ (pos 0 ∷ pos 0 ∷ pos 10 ∷ pos 120 ∷ pos 1 ∷ [])
      ∷ (pos 1 ∷ pos 1 ∷ pos 0 ∷ pos 140 ∷ pos 1 ∷ [])
      ∷ []
unfolding replies script_time Bucket.eval Bucket.script Bucket.refilled Bucket.reply Bucket.ttl
    text_eq tokens_per_second capacity bucket_call burst_or_limit one ceil_div
bucket_replies_test = refl

balance_replies-responses_example : AllState scale (replies bucket_evaluate server calls) (
    TokenBucketRun.responses scale config
      (TokenBucket.initial_state scale config)
      (times bucket_evaluate (call_time scale commands) server calls))
balance_replies-responses_example =
    BucketContract.balance_replies-responses scale config config-IsResolved some_burst commands
      commands-KeepsHashes prefixed (codes "a") server calls (λ f. refl) bucket_calls-LeftAlone

abbrev queue_evaluate : Server → Option ℕ → List ℤ × Server
queue_evaluate =
    QueueContract.evaluate scale leaky_config leaky_config-IsResolved some_burst commands
      commands-KeepsHashes prefixed (codes "a")

abbrev queue_ttl : ℕ
queue_ttl =
    Queue.ttl scale (capacity leaky_config) (tokens_per_second scale leaky_config) * scale.ticks

queue_calls-LeftAlone :
    LeftAlone queue_evaluate
      (call_time scale commands)
      queue_ttl
      (Undisturbed commands (prefixed (codes "a")))
      (Absent commands (prefixed (codes "a")))
      0
      server
      calls
unfolding LeftAlone script_time text_eq Queue.ttl tokens_per_second capacity ceil_div one
queue_calls-LeftAlone = (
  omega arith,
  inl (λ f. refl),
  (
    omega arith,
    inl (λ f. refl),
    (omega arith, inl (λ f. refl), (omega arith, inr (λ f. refl, omega arith), tt)),
  ),
)

queue_replies_test :
    replies queue_evaluate server calls
    ≡ (pos 1 ∷ pos 1 ∷ pos 0 ∷ pos 110 ∷ pos 1 ∷ [])
      ∷ (pos 1 ∷ pos 0 ∷ pos 0 ∷ pos 120 ∷ pos 2 ∷ [])
      ∷ (pos 0 ∷ pos 0 ∷ pos 10 ∷ pos 120 ∷ pos 1 ∷ [])
      ∷ (pos 1 ∷ pos 1 ∷ pos 0 ∷ pos 140 ∷ pos 1 ∷ [])
      ∷ []
unfolding replies script_time Queue.eval Queue.script Queue.drained Queue.reply Queue.ttl text_eq
    tokens_per_second capacity bucket_call burst_or_limit one ceil_div
queue_replies_test = refl

queue_replies-responses_example : AllState scale (replies queue_evaluate server calls) (
    LeakyBucketRun.responses scale leaky_config
      (LeakyBucket.initial_state scale leaky_config)
      (times queue_evaluate (call_time scale commands) server calls))
queue_replies-responses_example =
    QueueContract.queue_replies-responses scale leaky_config leaky_config-IsResolved some_burst
      commands commands-KeepsHashes prefixed (codes "a") server calls (λ f. refl)
      queue_calls-LeftAlone
