-- ===== src/Backend/Core/Live.antt =====
-- What a store shows from an instant on: the live state of each key. Expired entries do not show.
use rate_limit_patterns.Prelude.{
  ◌≡◌, refl, sym, Bool, Option, none, some, arith, Option-cases, inl, inr, Bool-cases,
}
use rate_limit_patterns.Prelude.Int.{ℤ, pos, ◌+ℤ◌, ◌≤ℤ◌, leb_ℤ}
use rate_limit_patterns.Prelude.Text.{Text, text_eq, text_eq_sound}
use rate_limit_patterns.Prelude.Dict.{get, insert, remove, get-insert, get-remove}
use rate_limit_patterns.Models.{RateLimitConfig, Scale, Result, ok, raise}
use rate_limit_patterns.Algorithms.Base.{Metadata, Decision}
use rate_limit_patterns.Algorithms.Protocol.{AlgorithmState, RateLimitAlgorithm}
use rate_limit_patterns.Backend.Core.{
  LocalEntry, LocalStateCore, live, drop_if_expired, metrics_snapshot, starting_state, ttl_for,
  finish, apply,
}

-- Two stores cannot be told apart from `now` on.
abbrev pub SameLive : ℤ → LocalStateCore → LocalStateCore → Type 0
SameLive now c d =
    (key : Text) (t : ℤ) → now ≤ℤ t → live (get key c.state) t ≡ live (get key d.state) t

live_expired :
    (entry : Option LocalEntry) (now t : ℤ) → live entry now ≡ none → now ≤ℤ t → live entry t ≡ none
unfolding live
live_expired none now t h le = refl
live_expired (some entry) now t h le = ground arith

live-remove :
    (core : LocalStateCore) (key j : Text) (now t : ℤ)
    → live (get key core.state) now ≡ none
    → now ≤ℤ t
    → live (get j (remove key core.state)) t ≡ live (get j core.state) t
unfolding live
live-remove core key j now t h le = elim (Bool-cases (text_eq key j)) [
  | inl e ↦
      rw (get-remove key j core.state, e)
        (sym (rw (← text_eq_sound key j e) (live_expired (get key core.state) now t h le)))
  | inr e ↦ rw (get-remove key j core.state, e) refl
]

pub SameLive-drop_if_expired :
    (core : LocalStateCore) (key : Text) (now : ℤ)
    → SameLive now (drop_if_expired core key now) core
unfolding drop_if_expired live
SameLive-drop_if_expired core key now j t le = elim (Option-cases (get key core.state)) [
  | inl missing ↦ rw (missing, drop_if_expired) refl
  | inr (entry, found) ↦ elim (Bool-cases (leb_ℤ entry.expires_at now)) [
    | inl old ↦
        rw (found, drop_if_expired)
          (rw old (live-remove core key j now t (rw (found, live) (rw old)) le))
    | inr fresh ↦ rw (found, drop_if_expired) (rw fresh refl)
  ]
]

-- The evicting read of the metrics shows the same.
pub SameLive-metrics_snapshot :
    (core : LocalStateCore) (key : Text) (now : ℤ)
    → SameLive now (metrics_snapshot core key now).1 core
unfolding metrics_snapshot
SameLive-metrics_snapshot core key now j t le =
    elim (Option-cases (live (get key core.state) now)) [
      | inl expired ↦ rw (expired, metrics_snapshot) (live-remove core key j now t expired le)
      | inr (state, found) ↦ rw (found, metrics_snapshot) refl
    ]

-- Two outcomes of `apply` that a caller cannot tell apart.
abbrev pub SameOutcome :
    ℤ
    → Result (Bool × Metadata × LocalStateCore)
    → Result (Bool × Metadata × LocalStateCore)
    → Type 0
SameOutcome now (ok (a, m, c)) (ok (b, n, d)) = (a ≡ b) × (m ≡ n) × SameLive now c d
SameOutcome now (raise e) (raise f) = e ≡ f
SameOutcome now (ok x) (raise e) = ⊥
SameOutcome now (raise e) (ok x) = ⊥

SameLive-insert :
    (c d : LocalStateCore) (key : Text) (entry : LocalEntry) (now : ℤ)
    → SameLive now c d
    → SameLive now
        (record c { state = insert key entry c.state })
        (record d { state = insert key entry d.state })
SameLive-insert c d key entry now same j t le =
    let at_d = get-insert key j entry d.state in
    rw (get-insert key j entry c.state, at_d)
      (elim (Bool-cases (text_eq key j)) [ inl e ↦ rw e refl | inr e ↦ rw e (same j t le) ])

module _ (s : Scale) where
  finish-SameOutcome :
      (c d : LocalStateCore) (key : Text) (config : RateLimitConfig) (now : ℤ)
      (r : Result (Decision AlgorithmState))
      → SameLive now c d
      → SameOutcome now (finish s c key config now r) (finish s d key config now r)
  unfolding finish
  finish-SameOutcome c d key config now (ok (allowed, state, m)) same = (
    refl,
    refl,
    SameLive-insert c d key (record { state = state; expires_at = now +ℤ pos (ttl_for s config) })
        now same,
  )
  finish-SameOutcome c d key config now (raise e) same = refl

  starting_state-same :
      (algorithm : RateLimitAlgorithm) (a b : Option LocalEntry) (config : RateLimitConfig)
      (now : ℤ)
      → live a now ≡ live b now
      → starting_state s algorithm a config now ≡ starting_state s algorithm b config now
  unfolding starting_state
  starting_state-same algorithm a b config now e = rw (e, starting_state) refl

  -- Stores that cannot be told apart give the same answer to a check, and stay so.
  pub apply-SameOutcome :
      (c d : LocalStateCore) (algorithm : RateLimitAlgorithm) (key : Text)
      (config : RateLimitConfig) (now : ℤ)
      → SameLive now c d
      → SameOutcome now (apply s c algorithm key config now) (apply s d algorithm key config now)
  unfolding apply
  apply-SameOutcome c d algorithm key config now same =
      rw
        (starting_state-same algorithm (get key c.state) (get key d.state) config now
          (same key now (omega arith)))
        (finish-SameOutcome c d key config now
          (algorithm.compute (starting_state s algorithm (get key d.state) config now) config now)
          same)
