-- ===== src/Tests/Sets.antt =====
-- The script of the sliding window on a small server.
use rate_limit_patterns.Prelude.{
  ℕ, suc, ◌*◌, ◌≡◌, refl, sym, ◌⊎◌, inl, inr, max, Option, none, some, ◌++◌, ◌==◌, ◌&&◌, Bool, true,
  false, List, [], ◌∷◌, map, if◌then◌else◌, arith,
}
use rate_limit_patterns.Prelude.Int.{ℤ, pos, ltb_ℤ, ◌-ℤ◌}
use rate_limit_patterns.Prelude.Lists.{keep, length, length-map, keep-map, map-append}
use rate_limit_patterns.Prelude.Quotient.{ceil_div}
use rate_limit_patterns.Prelude.Text.{Text, codes, text_eq, text_eq_refl}
use rate_limit_patterns.Models.{ok}
use rate_limit_patterns.Algorithms.Base.{Metadata}
use rate_limit_patterns.Algorithms.SlidingWindow.{initial_state}
use rate_limit_patterns.Algorithms.SlidingWindow.Run.{responses}
use rate_limit_patterns.Backend.RedisShared.{window_call}
use rate_limit_patterns.Backend.Lua.{Commands}
use rate_limit_patterns.Backend.Lua.Trace.{AllState, Call, LeftAlone, replies, times}
use rate_limit_patterns.Backend.Lua.SlidingWindow.{
  Member, SetCommands, eval, script, finish, script_time,
}
use rate_limit_patterns.Backend.Lua.SlidingWindow.Sets.{KeepsSets, Undisturbed, Absent, first}
use rate_limit_patterns.Backend.Lua.SlidingWindow.Contract.{
  evaluate, window_time, window_replies-responses,
}
use rate_limit_patterns.Tests.Samples.{scale, window_config, window_config-IsValid}

-- The members of a set with their scores, in the order of their arrival.
abbrev Entries : Type 0
Entries = List (ℕ × Member)

abbrev member_eq : Member → Member → Bool
member_eq m n = (m.0 == n.0) && (m.1 == n.1)

unfoldable has : Entries → Member → Bool
has [] m = false
has (e ∷ rest) m = if member_eq e.1 m then true else has rest m

-- The clock, in seconds, the sets and the counters.
record Server : Type 0 where
  clock : ℕ
  sets : Text → Entries
  counters : Text → ℕ

abbrev commands : Commands Server
commands = record {
  time = λ w. (w.clock, 0);
  hget = λ w key f. none;
  hmset = λ w key x y. w;
  expire = λ w key ttl. w;
}

abbrev set_commands : SetCommands Server
set_commands = record {
  zremrangebyscore = λ w key upto. record w {
    sets = λ k. if text_eq k key then keep (λ e. ltb_ℤ upto (pos e.0)) (w.sets k) else w.sets k;
  };
  zcard = λ w key. length (w.sets key);
  incr = λ w key. (
    suc (w.counters key),
    record w { counters = λ k. if text_eq k key then suc (w.counters k) else w.counters k },
  );
  zadd = λ w key score m. record w {
    sets = λ k. if text_eq k key then w.sets k ++ (score, m) ∷ [] else w.sets k;
  };
  oldest = λ w key. first (map (λ e. e.0) (w.sets key));
}

has-keep :
    (p : ℕ × Member → Bool) (entries : Entries) (m : Member)
    → has (keep p entries) m ≡ true
    → has entries m ≡ true
unfolding has keep
has-keep p [] m h = h
has-keep p (e ∷ rest) m h = ground (arith, has-keep p rest m)

member_eq_sound : (m n : Member) → member_eq m n ≡ true → n ≡ m
member_eq_sound (a, b) (c, d) h = grind arith

has-append :
    (entries : Entries) (score : ℕ) (m n : Member)
    → has (entries ++ (score, m) ∷ []) n ≡ true
    → (has entries n ≡ true) ⊎ (n ≡ m)
unfolding has
has-append [] score m n h = ground (arith, member_eq_sound m n)
has-append (e ∷ rest) score m n h = ground (arith, has-append rest score m n)

commands-KeepsSets : KeepsSets commands set_commands
commands-KeepsSets = record {
  scores = λ w key. map (λ e. e.0) (w.sets key);
  holds = λ w key m. has (w.sets key) m;
  counter = λ w key. w.counters key;
  trim_scores = λ w key upto.
      rw (text_eq_refl key) (sym (keep-map (λ x. ltb_ℤ upto (pos x)) (λ e. e.0) (w.sets key)));
  trim_holds = λ w key upto m h.
      has-keep (λ e. ltb_ℤ upto (pos e.0)) (w.sets key) m (rw (text_eq_refl key) at h);
  trim_counter = λ w key k upto. refl;
  card = λ w key. sym (length-map (λ e. e.0) (w.sets key));
  oldest_first = λ w key. refl;
  incr_reply = λ w k. refl;
  incr_counter = λ w k. rw (text_eq_refl k) refl;
  incr_scores = λ w k key apart. refl;
  incr_holds = λ w k key m apart. refl;
  add_scores = λ w key score m past new.
      rw (text_eq_refl key) (map-append (λ e. e.0) (w.sets key) ((score, m) ∷ []));
  add_holds = λ w key score m n h. has-append (w.sets key) score m n (rw (text_eq_refl key) at h);
  add_counter = λ w key k score m apart. refl;
  expire_scores = λ w k key ttl le. refl;
  expire_holds = λ w k key ttl m le. refl;
  expire_counter = λ w k l ttl le. refl;
}

abbrev server : Server
server = record { clock = 0; sets = λ k. []; counters = λ k. 0 }

abbrev prefixed : Text → Text
prefixed key = codes "rate_limit:" ++ key

abbrev waiting_until : ℕ → Server → Server
waiting_until t w = record w { clock = t }

-- The keys are gone.
abbrev expired_by : ℕ → Server → Server
expired_by t w = record { clock = t; sets = λ k. []; counters = λ k. 0 }

-- Three calls in two seconds, the last with the time of the caller, and one after the keys expired.
abbrev calls : List (Call Server)
calls =
    (waiting_until 100, none)
    ∷ (waiting_until 101, none)
    ∷ (waiting_until 101, some 1015)
    ∷ (expired_by 130, none)
    ∷ []

abbrev window_evaluate : Server → Option ℕ → List ℤ × Server
window_evaluate =
    evaluate scale window_config window_config-IsValid (omega arith) commands set_commands
      commands-KeepsSets prefixed (codes "a")

abbrev call_time : Server → Option ℕ → ℕ
call_time =
    window_time scale window_config window_config-IsValid (omega arith) commands set_commands
      commands-KeepsSets prefixed (codes "a")

window_replies_test :
    replies window_evaluate server calls
    ≡ (pos 1 ∷ pos 1 ∷ pos 0 ∷ pos 105 ∷ pos 1 ∷ [])
      ∷ (pos 1 ∷ pos 0 ∷ pos 0 ∷ pos 105 ∷ pos 2 ∷ [])
      ∷ (pos 0 ∷ pos 0 ∷ pos 4 ∷ pos 105 ∷ pos 2 ∷ [])
      ∷ (pos 1 ∷ pos 1 ∷ pos 0 ∷ pos 135 ∷ pos 1 ∷ [])
      ∷ []
unfolding replies script_time window_call eval script finish text_eq keep ceil_div ◌-ℤ◌
window_replies_test = refl

calls-LeftAlone :
    LeftAlone window_evaluate call_time
      (max 1 window_config.period * scale.ticks)
      (Undisturbed scale commands set_commands commands-KeepsSets
        (prefixed (codes "a"))
        (prefixed (codes "a" ++ codes ":seq")))
      (Absent scale commands set_commands commands-KeepsSets
        (prefixed (codes "a"))
        (prefixed (codes "a" ++ codes ":seq")))
      0
      server
      calls
unfolding LeftAlone script_time has commands-KeepsSets
calls-LeftAlone = (
  omega arith,
  inl (record { scores = refl; holds = λ m. refl; counter = refl }),
  (
    omega arith,
    inl (record { scores = refl; holds = λ m. refl; counter = refl }),
    (
      omega arith,
      inl (record { scores = refl; holds = λ m. refl; counter = refl }),
      (omega arith, inr (record { scores = refl; holds = λ m. refl }, omega arith), tt),
    ),
  ),
)

keys_apart : text_eq (prefixed (codes "a" ++ codes ":seq")) (prefixed (codes "a")) ≡ false
unfolding text_eq
keys_apart = refl

window_replies-responses_example :
    (told : List (Bool × Metadata)) × (responses scale window_config
        (initial_state window_config)
        (times window_evaluate call_time server calls)
      ≡ ok told)
    × AllState scale (replies window_evaluate server calls) told
unfolding has commands-KeepsSets
window_replies-responses_example =
    window_replies-responses scale window_config window_config-IsValid (omega arith) commands
      set_commands commands-KeepsSets prefixed (codes "a") keys_apart server calls
      (record { scores = refl; holds = λ m. refl }) calls-LeftAlone
