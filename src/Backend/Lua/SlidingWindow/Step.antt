-- ===== src/Backend/Lua/SlidingWindow/Step.antt =====
-- One call of sliding_window.lua against one call of `SlidingWindowAlgorithm.compute`.
use mathlib.Core.Option
use rate_limit_patterns.Prelude.{
  ℕ, ◌+◌, ◌-◌, ◌*◌, ◌/◌, ◌≤◌, ◌<◌, max, ltb, Bool, true, false, Bool-cases, if◌then◌else◌, ◌≡◌,
  refl, sym, ap, ◌∙◌, ◌⊎◌, inl, inr, Option, none, some, List, [], ◌∷◌, ◌++◌, map, arith,
}
use rate_limit_patterns.Prelude.Int.{ℤ, pos, gap, gap-pos-+ℤ, ◌+ℤ◌, ◌-ℤ◌, ltb_ℤ, int_laws}
use rate_limit_patterns.Prelude.Lists.{
  length, head_or, keep, All, All-map, keep-All, keep-none, keep-map, length-map, length-append,
  map-append,
}
use rate_limit_patterns.Prelude.Quotient.{ceil_div, mul_le_mul, ceil_div_pos, floor_bounds}
use rate_limit_patterns.Prelude.Text.{Text, text_eq}
use rate_limit_patterns.Models.{RateLimitConfig, Scale, IsValid, seconds}
use rate_limit_patterns.Algorithms.SlidingWindow.{State, in_window, allow}
use rate_limit_patterns.Algorithms.SlidingWindow.Branches.{decide, denial}
use rate_limit_patterns.Backend.RedisShared.Contract.{Waits, reply_of}
use rate_limit_patterns.Backend.Lua.{Commands}
use rate_limit_patterns.Backend.Lua.Trace.{States, fields-States, truthy_pos}
use rate_limit_patterns.Backend.Lua.SlidingWindow.{SetCommands, finish, admit, script}
use rate_limit_patterns.Backend.Lua.SlidingWindow.Sets.{
  KeepsSets, Undisturbed, Absent, Holds, first, admit-Holds, trim-Holds, expire-Holds, Holds-mono,
  Absent-Holds, Undisturbed-Holds,
}

module _ (s : Scale) {W : Type 0} (c : Commands W) (z : SetCommands W) (keeps : KeepsSets c z)
    (key seq_key : Text) where
  outside : (x now window : ℕ) → x + window ≤ now → ltb_ℤ (pos now -ℤ pos window) (pos x) ≡ false
  outside x now window le = grind int_laws

  inside_window :
      (x now window : ℕ) → ltb_ℤ (pos now -ℤ pos window) (pos x) ≡ true → now < x + window
  inside_window x now window h = grind int_laws

  -- The end of the script states the decision about a set whose oldest score is `x`.
  finish-States :
      (w : W) (period now x : ℕ) (rest : List ℕ) (allowed : Bool) (remaining : ℤ) (count : ℕ)
      (told : Option ℤ)
      → 0 < s.ticks
      → Holds s c z keeps key seq_key now w (x ∷ rest)
      → Option.get_or told (pos 0)
        ≡ pos (if allowed then 0 else ceil_div (x + period * s.ticks - now) s.ticks)
      → Waits allowed told
      → (let end = finish s c z w key seq_key period now allowed remaining count in
          States s end.0 allowed (record {
            remaining = remaining;
            reset_at = pos x +ℤ pos (period * s.ticks);
            request_count = pos count;
            retry_after = told;
          })
          × Holds s c z keeps key seq_key now end.1 (x ∷ rest))
  unfolding finish reply_of
  finish-States w period now x rest allowed remaining count told ticks_pos h e waits =
      let window = period * s.ticks in
      let ttl = max 1 period in
      let ttl_pos : 0 < ttl = omega arith in
      let end =
        expire-Holds s c z keeps key seq_key (c.expire w key ttl) seq_key ttl now (x ∷ rest) ttl_pos
          (expire-Holds s c z keeps key seq_key w key ttl now (x ∷ rest) ttl_pos h) in
      let w' = c.expire (c.expire w key ttl) seq_key ttl in
      let oldest : z.oldest w' key ≡ some x = keeps.oldest_first w' key ∙ ap first end.scores in
      let (low, high) = floor_bounds (x + window) s.ticks ticks_pos in
      (
        fields-States s ((x + window) / s.ticks) (rw (oldest, e) refl) waits (omega (int_laws, low))
            (omega (int_laws, high)),
        end,
      )

  module _ (config : RateLimitConfig) where
    abbrev pub window_start : ℕ → ℤ
    window_start now = pos now -ℤ pos (config.period * s.ticks)

    -- What the algorithm stores is what the set holds.
    pub record Shows (last : ℕ) (w : W) (state : State) : Type 0 where
      pub kept : List ℕ
      pub held : Holds s c z keeps key seq_key last w kept
      pub stored : state.requests ≡ map pos kept

    -- What is left of both in the window of a call.
    pub record InWindow (now : ℕ) (w : W) (state : State) : Type 0 where
      pub kept : List ℕ
      pub held : Holds s c z keeps key seq_key now w kept
      pub stored : in_window s config (pos now) state.requests ≡ map pos kept
      pub recent : All (λ x. ltb_ℤ (window_start now) (pos x) ≡ true) kept

    pub trim-InWindow :
        (last now : ℕ) (w w' : W) (state : State)
        → Shows last w state
        → last ≤ now
        → Undisturbed s c z keeps key seq_key w w'
          ⊎ (Absent s c z keeps key seq_key w' × (last + max 1 config.period * s.ticks ≤ now))
        → InWindow now (z.zremrangebyscore w' key (window_start now)) state
    unfolding in_window seconds keep
    trim-InWindow last now w w' state shows le (inl same) =
        let inside = λ (x : ℕ). ltb_ℤ (window_start now) (pos x) in
        record {
          kept = keep inside shows.kept;
          held = trim-Holds s c z keeps key seq_key w' now shows.kept (window_start now) (
              Holds-mono s c z keeps key seq_key w' last now shows.kept le
                (Undisturbed-Holds s c z keeps key seq_key w w' last shows.kept same shows.held));
          stored = rw shows.stored (keep-map (λ t. ltb_ℤ (window_start now) t) pos shows.kept);
          recent = keep-All inside shows.kept;
        }
    trim-InWindow last now w w' state shows le (inr (absent, over)) =
        let inside = λ (x : ℕ). ltb_ℤ (window_start now) (pos x) in
        let longer = mul_le_mul config.period (max 1 config.period) s.ticks (omega arith) in
        let none_inside = keep-none inside shows.kept (
          All-map (λ (x : ℕ). x ≤ last) (λ x. inside x ≡ false) shows.kept
            (λ x below. outside x now (config.period * s.ticks) (omega (arith, longer)))
            shows.held.past) in
        record {
          kept = [];
          held =
              trim-Holds s c z keeps key seq_key w' now [] (window_start now)
                (Absent-Holds s c z keeps key seq_key w' now absent);
          stored =
              rw shows.stored (keep-map (λ t. ltb_ℤ (window_start now) t) pos shows.kept)
              ∙ ap (map pos) none_inside;
          recent = tt;
        }

    abbrev pub run : W → ℕ → List ℤ × W
    run w now = script s c z w key seq_key config.limit config.period now

    module _ (valid : IsValid config) (ticks_pos : 0 < s.ticks)
        (apart : text_eq seq_key key ≡ false) where
      -- The set after an admitted call starts where the algorithm's list does.
      admitted-States :
          (now : ℕ) (w : W) (kept : List ℕ)
          → Holds s c z keeps key seq_key now w (kept ++ now ∷ [])
          → (let count = length kept + 1 in
              let end =
                finish s c z w key seq_key config.period now true
                  (pos config.limit -ℤ pos count)
                  count in
              States s end.0 true (record {
                remaining = pos config.limit -ℤ pos count;
                reset_at =
                    head_or (map pos kept ++ pos now ∷ []) (pos now)
                    +ℤ pos (config.period * s.ticks);
                request_count = pos count;
                retry_after = none;
              })
              × Holds s c z keeps key seq_key now end.1 (kept ++ now ∷ []))
      admitted-States now w [] h =
          finish-States w config.period now now [] true (pos config.limit -ℤ pos 1) 1 none ticks_pos
            h refl tt
      admitted-States now w (x ∷ rest) h =
          let count = length (x ∷ rest) + 1 in
          finish-States w config.period now x (rest ++ now ∷ []) true
            (pos config.limit -ℤ pos count) count none ticks_pos h refl tt

      allow-States :
          (now : ℕ) (w : W) (kept : List ℕ)
          → Holds s c z keeps key seq_key now w kept
          → (let w' = admit s c z w key seq_key now in
              let count = length kept + 1 in
              let end =
                finish s c z w' key seq_key config.period now true
                  (pos config.limit -ℤ pos count)
                  count in
              let d = allow s config (pos now) (map pos kept ++ pos now ∷ []) in
              States s end.0 d.0 d.2 × Shows now end.1 d.1)
      unfolding allow seconds
      allow-States now w kept h =
          let (states, held) =
            admitted-States now (admit s c z w key seq_key now) kept
              (admit-Holds s c z keeps key seq_key apart w now kept h) in
          let len : length (map pos kept ++ pos now ∷ []) ≡ length kept + 1 =
            length-append (map pos kept) (pos now ∷ []) ∙ ap (λ n. n + 1) (length-map pos kept) in
          (
            rw len states,
            record {
              kept = kept ++ now ∷ [];
              held = held;
              stored = sym (map-append pos kept (now ∷ []));
            },
          )

      deny-States :
          (now : ℕ) (w : W) (kept : List ℕ)
          → Holds s c z keeps key seq_key now w kept
          → All (λ x. ltb_ℤ (window_start now) (pos x) ≡ true) kept
          → 0 < length kept
          → (let end = finish s c z w key seq_key config.period now false (pos 0) (length kept) in
              let d = denial s config (pos now) (map pos kept) in
              States s end.0 d.0 d.2 × Shows now end.1 d.1)
      unfolding seconds
      deny-States now w [] h recent le = absurd (omega arith)
      deny-States now w (x ∷ rest) h recent le =
          let window = config.period * s.ticks in
          let wait = ceil_div (x + window - now) s.ticks in
          let wait_pos : 0 < wait =
            ceil_div_pos (x + window - now) s.ticks ticks_pos
              (omega (arith, inside_window x now window recent.0)) in
          let due : gap (pos x +ℤ pos window) (pos now) ≡ x + window - now =
            gap-pos-+ℤ x window now in
          let told : max 1 (ceil_div (gap (pos x +ℤ pos window) (pos now)) s.ticks) ≡ wait =
            rw due (omega (arith, wait_pos)) in
          let (states, held) =
            finish-States w config.period now x rest false (pos 0) (length (x ∷ rest))
              (some (pos (max 1 (ceil_div (gap (pos x +ℤ pos window) (pos now)) s.ticks))))
              ticks_pos h (ap (λ n. pos n) told) (truthy_pos _ (omega arith)) in
          (rw (length-map pos rest) states, record { kept = x ∷ rest; held = held; stored = refl })

      pub run-Shows :
          (now : ℕ) (w : W) (state : State)
          → InWindow now (z.zremrangebyscore w key (window_start now)) state
          → (let d = decide s config (pos now) state in
              States s (run w now).0 d.0 d.2 × Shows now (run w now).1 d.1)
      unfolding script decide
      run-Shows now w state inside =
          let trimmed = z.zremrangebyscore w key (window_start now) in
          let count : z.zcard trimmed key ≡ length inside.kept =
            keeps.card trimmed key ∙ ap length inside.held.scores in
          let test = ap (λ n. ltb n config.limit) (length-map pos inside.kept) in
          rw (count, inside.stored)
            (elim (Bool-cases (ltb (length inside.kept) config.limit)) [
              | inl room ↦ rw (test ∙ room, room) (allow-States now trimmed inside.kept inside.held)
              | inr full ↦
                  rw (test ∙ full, full)
                    (deny-States now trimmed inside.kept inside.held inside.recent
                      (grind (arith, full)))
            ])
