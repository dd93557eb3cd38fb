-- ===== src/Backend/Lua/Trace.antt =====
-- Runs of a script on one key, with whatever else the server does in between, against the decisions of
-- an algorithm.
use mathlib.Core.Option
use rate_limit_patterns.Prelude.{
  ℕ, zero, suc, ◌∙◌, true, refl, ap, ◌+◌, ◌-◌, ◌*◌, ◌/◌, ◌≤◌, ◌<◌, max, ◌≡◌, ◌⊎◌, Bool, false,
  Option, none, some, List, [], ◌∷◌, arith,
}
use rate_limit_patterns.Prelude.Int.{ℤ, pos, ◌≤ℤ◌}
use rate_limit_patterns.Prelude.Quotient.{
  ceil_div, ceil_div_covers, ceil_div-least, floor_bounds, le_of_mul_le, lt_of_mul_lt, mul_pos,
  mul_le_mul,
}
use rate_limit_patterns.Prelude.Text.{Text, text_eq}
use rate_limit_patterns.Models.{Scale, RateLimitConfig, make_result}
use rate_limit_patterns.Algorithms.Base.{Metadata, Decision}
use rate_limit_patterns.Backend.RedisShared.{
  time_arg, parse_script_result, truthy, instant_of_seconds,
}
use rate_limit_patterns.Backend.RedisShared.Contract.{reply_of, Waits, parse_script_result-reply_of}
use rate_limit_patterns.Backend.Lua.{Commands, script_time}

-- What Redis documents of a hash: `HMSET` sets its fields, and `EXPIRE` with a positive time changes
-- no value.
pub record KeepsHashes {W : Type 0} (c : Commands W) : Type 0 where
  pub first_set :
      (w : W) (key f g : Text) (x y : ℕ)
      → text_eq f g ≡ false
      → c.hget (c.hmset w key (f, x) (g, y)) key f ≡ some x
  pub second_set :
      (w : W) (key f g : Text) (x y : ℕ) → c.hget (c.hmset w key (f, x) (g, y)) key g ≡ some y
  pub expire_keeps :
      (w : W) (key f : Text) (ttl : ℕ)
      → 0 < ttl
      → c.hget (c.expire w key ttl) key f ≡ c.hget w key f

-- The time of a reset, cut to seconds, against the same time rounded up to a tick.
pub reset_within :
    (now missing rate ticks : ℕ)
    → 0 < rate
    → 0 < ticks
    → (let reset = (now * rate + missing) / (rate * ticks) in
        (reset * ticks ≤ now + ceil_div missing rate)
        × (now + ceil_div missing rate ≤ (reset + 1) * ticks))
reset_within now missing rate ticks h k =
    let reset = (now * rate + missing) / (rate * ticks) in
    let (low, high) = floor_bounds (now * rate + missing) (rate * ticks) (mul_pos rate ticks h k) in
    let end = (reset + 1) * ticks in
    let covered = ceil_div_covers missing rate h in
    let late : now < end = lt_of_mul_lt now end rate (omega (arith, high)) in
    let split : end ≡ now + (end - now) = omega (arith, late) in
    let scaled = ap (λ (x : ℕ). x * rate) split in
    (
      le_of_mul_le (reset * ticks) (now + ceil_div missing rate) rate h
          (omega (arith, low, covered)),
      omega (arith, late, ceil_div-least missing rate (end - now) h (omega (arith, high, scaled))),
    )

-- In the time to live of a full bucket at this rate, all of it is refilled.
pub ttl_covers :
    (full rate ticks last now : ℕ)
    → 0 < rate
    → 0 < ticks
    → last + max 1 (ceil_div full (rate * ticks)) * ticks ≤ now
    → full ≤ (now - last) * rate
ttl_covers full rate ticks last now h k le =
    let secs = ceil_div full (rate * ticks) in
    let longer = mul_le_mul secs (max 1 secs) ticks (omega arith) in
    let elapsed : secs * ticks ≤ now - last = omega (arith, longer, le) in
    grind (
      arith,
      ceil_div_covers full (rate * ticks) (mul_pos rate ticks h k),
      mul_le_mul (secs * ticks) (now - last) rate elapsed,
    )

-- A wait of at least a second is truthy.
pub truthy_pos : (n : ℕ) → 0 < n → truthy (pos n) ≡ true
unfolding truthy
truthy_pos zero h = absurd (omega arith)
truthy_pos (suc n) h = refl

-- A reply states a decision: the fields are its own, a backend reads the decision back from it, and
-- the reset is told to the second.
pub record States (s : Scale) (reply : List ℤ) (allowed : Bool) (m : Metadata) : Type 0 where
  pub reset : ℕ
  pub fields : reply ≡ reply_of allowed m (pos reset)
  pub read :
      (config : RateLimitConfig)
      → parse_script_result s reply config
        ≡ make_result allowed m.remaining config.limit m.retry_after
            (some (pos (reset * s.ticks)))
            m.request_count
  pub not_late : pos (reset * s.ticks) ≤ℤ m.reset_at
  pub within_second : m.reset_at ≤ℤ pos ((reset + 1) * s.ticks)

-- What a backend reads follows from the fields.
pub fields-States :
    (s : Scale) {reply : List ℤ} {allowed : Bool} {m : Metadata} (reset : ℕ)
    → reply ≡ reply_of allowed m (pos reset)
    → Waits allowed m.retry_after
    → pos (reset * s.ticks) ≤ℤ m.reset_at
    → m.reset_at ≤ℤ pos ((reset + 1) * s.ticks)
    → States s reply allowed m
unfolding instant_of_seconds
fields-States s {allowed} {m} reset e waits low high = record {
  reset = reset;
  fields = e;
  read = λ config.
      ap (λ (xs : List ℤ). parse_script_result s xs config) e
      ∙ parse_script_result-reply_of s config allowed m (pos reset) waits;
  not_late = low;
  within_second = high;
}

-- The replies state the decisions, call by call.
pub data AllState (s : Scale) : List (List ℤ) → List (Bool × Metadata) → Type 0 where
  done : AllState s [] []
  next :
      {reply : List ℤ} {allowed : Bool} {m : Metadata} {replies : List (List ℤ)}
      {decisions : List (Bool × Metadata)}
      → States s reply allowed m
      → AllState s replies decisions
      → AllState s (reply ∷ replies) ((allowed, m) ∷ decisions)

-- What an algorithm decides at these times.
unfoldable pub decisions : {S : Type 0} → (S → ℤ → Decision S) → S → List ℤ → List (Bool × Metadata)
decisions step state [] = []
decisions step state (now ∷ rest) =
    let (allowed, state', m) = step state now in (allowed, m) ∷ decisions step state' rest

-- A call of a script: what has happened to the server since the last one, and the time that the
-- caller supplies.
abbrev pub Call : Type 0 → Type 0
Call W = (W → W) × Option ℕ

-- The time of a call, supplied or the server's.
abbrev pub call_time : {W : Type 0} → Scale → Commands W → W → Option ℕ → ℕ
call_time s c w supplied = script_time s c w (time_arg (Option.map pos supplied))

module _ {W : Type 0} (c : Commands W) (key : Text) where
  -- Nothing has happened to the key.
  abbrev pub Undisturbed : W → W → Type 0
  Undisturbed w w' = (f : Text) → c.hget w' key f ≡ c.hget w key f

  -- The key does not exist.
  abbrev pub Absent : W → Type 0
  Absent w = (f : Text) → c.hget w key f ≡ none

-- A script: the server and the time that the caller supplies, to the reply and the server after it.
abbrev pub Script : Type 0 → Type 0
Script W = W → Option ℕ → List ℤ × W

-- The replies to a sequence of calls.
unfoldable pub replies : {W : Type 0} → Script W → W → List (Call W) → List (List ℤ)
replies run w [] = []
replies run w ((meanwhile, supplied) ∷ calls) =
    let (reply, w') = run (meanwhile w) supplied in reply ∷ replies run w' calls

module _ {W : Type 0} (run : Script W) (when : W → Option ℕ → ℕ) where
  -- The times of the calls.
  unfoldable pub times : W → List (Call W) → List ℤ
  times w [] = []
  times w ((meanwhile, supplied) ∷ calls) =
      pos (when (meanwhile w) supplied) ∷ times (run (meanwhile w) supplied).1 calls

  module _ (ttl : ℕ) (Same : W → W → Type 0) (Gone : W → Type 0) where
    -- Between its calls the key stays the same, or it expires when its time to live is over; and the
    -- times of the calls never decrease.
    unfoldable pub LeftAlone : ℕ → W → List (Call W) → Type 0
    LeftAlone last w [] = Unit
    LeftAlone last w ((meanwhile, supplied) ∷ calls) =
        let now = when (meanwhile w) supplied in
        (last ≤ now)
        × (Same w (meanwhile w) ⊎ (Gone (meanwhile w) × (last + ttl ≤ now)))
        × LeftAlone now (run (meanwhile w) supplied).1 calls

    module _ {S : Type 0} (s : Scale) (step : S → ℤ → Decision S) (Shows : ℕ → W → S → Type 0) where
      -- One call, and so every sequence of calls.
      pub replies-AllState :
          ((last : ℕ) (w : W) (state : S) (meanwhile : W → W) (supplied : Option ℕ)
            → Shows last w state
            → last ≤ when (meanwhile w) supplied
            → Same w (meanwhile w)
              ⊎ (Gone (meanwhile w) × (last + ttl ≤ when (meanwhile w) supplied))
            → (let now = when (meanwhile w) supplied in
                let d = step state (pos now) in
                States s (run (meanwhile w) supplied).0 d.0 d.2
                × Shows now (run (meanwhile w) supplied).1 d.1))
          → (last : ℕ) (w : W) (state : S) (calls : List (Call W)) → Shows last w state
          → LeftAlone last w calls
          → AllState s (replies run w calls) (decisions step state (times w calls))
      unfolding replies times LeftAlone decisions
      replies-AllState one last w state [] shows left = done
      replies-AllState one last w state ((meanwhile, supplied) ∷ calls) shows (le, quiet, left) =
          let (states, shows') = one last w state meanwhile supplied shows le quiet in
          next states (
            replies-AllState one (when (meanwhile w) supplied) (run (meanwhile w) supplied).1
              (step state (pos (when (meanwhile w) supplied))).1 calls shows' left)
